-- ===== src/Client/NodeList.antt =====
-- blocking/replset.rs and handle.rs: the lists of nodes that clients are made of. A text is the list of
-- its code points.
use ruslock.Prelude.{
  ℕ, ◌≡◌, refl, ap, ◌∙◌, List, [], ◌∷◌, ◌++◌, none, Bool, true, false, not, ◌&&◌, ◌||◌, ◌==◌, leb,
  if◌then◌else◌, length, All,
}
use ruslock.Replset.{Replset}
use ruslock.Client.Handle.{ClientHandle, one, several}

abbrev pub Text : Type 0
Text = List ℕ

abbrev pub comma : ℕ
comma = 44

-- `char::is_whitespace`: the property White_Space.
unfoldable pub is_whitespace : ℕ → Bool
is_whitespace c =
    (leb 9 c && leb c 13)
    || c == 32
    || c == 133
    || c == 160
    || c == 5760
    || (leb 8192 c && leb c 8202)
    || c == 8232
    || c == 8233
    || c == 8239
    || c == 8287
    || c == 12288

unfoldable pub is_empty : Text → Bool
is_empty [] = true
is_empty (c ∷ cs) = false

unfoldable pub trim_start : Text → Text
trim_start [] = []
trim_start (c ∷ cs) = let rest = trim_start cs in if is_whitespace c then rest else c ∷ cs

unfoldable pub trim_end : Text → Text
trim_end [] = []
trim_end (c ∷ cs) =
    let rest = trim_end cs in if is_empty rest && is_whitespace c then [] else c ∷ rest

-- `str::trim`.
unfoldable pub trim : Text → Text
trim s = trim_end (trim_start s)

-- A character before the first of the pieces.
unfoldable pub prefix_first : ℕ → List Text → List Text
prefix_first c [] = (c ∷ []) ∷ []
prefix_first c (piece ∷ pieces) = (c ∷ piece) ∷ pieces

-- `.split(',')`: one piece more than there are commas.
unfoldable pub split_nodes : Text → List Text
unfolding prefix_first
split_nodes [] = [] ∷ []
split_nodes (c ∷ cs) =
    let rest = split_nodes cs in if c == comma then [] ∷ rest else prefix_first c rest

-- `.map(str::trim).filter(|node| !node.is_empty())`.
unfoldable pub keep_nodes : List Text → List Text
unfolding trim is_empty
keep_nodes [] = []
keep_nodes (piece ∷ pieces) =
    let rest = keep_nodes pieces in if not (is_empty (trim piece)) then trim piece ∷ rest else rest

-- `IntoNodeList::into_nodes` of a text.
unfoldable pub into_nodes : Text → List Text
unfolding split_nodes keep_nodes
into_nodes s = keep_nodes (split_nodes s)

module _ {S : Type 0} where
  -- `ReplsetClient::with_options`, where the new clients of the nodes are in the state `s`.
  unfoldable pub new_replset : List Text → S → Replset S
  new_replset nodes s = record {
    env = s;
    clients = length nodes;
    active_index = none;
    pending_commands = [];
  }

  -- `ClientHandle::with_options`.
  unfoldable pub new_handle : List Text → S → ClientHandle S
  unfolding new_replset
  new_handle nodes s = if length nodes == 1 then one s else several (new_replset nodes s)

-- The nodes with a comma between each two.
unfoldable pub join_nodes : List Text → Text
join_nodes [] = []
join_nodes (x ∷ []) = x
join_nodes (x ∷ (y ∷ rest)) = x ++ (comma ∷ join_nodes (y ∷ rest))

-- A node's address: it is not empty, has no comma in it and no whitespace at its ends.
pub record IsNode (x : Text) : Type 0 where
  pub plain : All (λ c. (c == comma) ≡ false) x
  pub trimmed : trim x ≡ x
  pub filled : is_empty x ≡ false

split-plain : (x : Text) → All (λ c. (c == comma) ≡ false) x → split_nodes x ≡ x ∷ []
unfolding split_nodes prefix_first
split-plain [] plain = refl
split-plain (c ∷ cs) (other, plain) = rw (other, split-plain cs plain) refl

split-comma :
    (x y : Text)
    → All (λ c. (c == comma) ≡ false) x
    → split_nodes (x ++ (comma ∷ y)) ≡ x ∷ split_nodes y
unfolding split_nodes prefix_first
split-comma [] y plain = refl
split-comma (c ∷ cs) y (other, plain) = rw (other, split-comma cs y plain) refl

keep-node : (x : Text) (xs : List Text) → IsNode x → keep_nodes (x ∷ xs) ≡ x ∷ keep_nodes xs
unfolding keep_nodes
keep-node x xs n = rw (n.trimmed, n.filled) refl

-- Addresses of nodes with commas between them are read as these addresses, in their order.
pub into_nodes-join_nodes :
    (nodes : List Text) → All IsNode nodes → into_nodes (join_nodes nodes) ≡ nodes
unfolding into_nodes join_nodes keep_nodes trim_end trim_start
into_nodes-join_nodes [] all = refl
into_nodes-join_nodes (x ∷ []) (n, all) = ap keep_nodes (split-plain x n.plain) ∙ keep-node x [] n
into_nodes-join_nodes (x ∷ (y ∷ rest)) (n, all) =
    ap keep_nodes (split-comma x (join_nodes (y ∷ rest)) n.plain)
    ∙ (keep-node x (split_nodes (join_nodes (y ∷ rest))) n
        ∙ ap (λ xs. x ∷ xs) (into_nodes-join_nodes (y ∷ rest) all))

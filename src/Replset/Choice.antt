-- ===== src/Replset/Choice.antt =====
-- blocking/replset.rs: which node `ReplsetClient::open` makes the active one.
use ruslock.Prelude.{
  ℕ, zero, suc, ◌≡◌, refl, sym, ap, ◌∙◌, arith, Option, none, some, List, [], ◌∷◌, ◌==◌, ==_iff,
  false, Bool-cases, inl, inr, if◌then◌else◌, bit_and,
}
use ruslock.Constants.{init_type_flag_is_leader}
use ruslock.Error.{SlockError, Result, ok, err, not_connected}
use ruslock.Replset.{
  Nodes, Replset, Found, or_else, note_open, open_loop, activate, set_active_index, replset_open,
  PendingCommand,
}

-- A node that was tried: `none` where it did not open, else the type that it reports.
abbrev pub Tried : Type 0
Tried = List (Option ℕ)

leads : Option ℕ → ℕ → Option ℕ
leads none index = none
leads (some init_type) index =
    if bit_and init_type init_type_flag_is_leader == 0 then none else some index

-- The last node that says it leads.
pub last_leader : Tried → ℕ → Option ℕ
last_leader [] index = none
last_leader (x ∷ xs) index = or_else (last_leader xs (suc index)) (leads x index)

-- The first node that opened.
pub first_open : Tried → ℕ → Option ℕ
first_open [] index = none
first_open (none ∷ xs) index = first_open xs (suc index)
first_open (some init_type ∷ xs) index = some index

or_else_assoc {ℓ} :
    {A : Type ℓ} (x y z : Option A) → or_else (or_else x y) z ≡ or_else x (or_else y z)
or_else_assoc none y z = refl
or_else_assoc (some a) y z = refl

tried_one : Option SlockError → ℕ → Option ℕ
tried_one none init_type = some init_type
tried_one (some e) init_type = none

note_open-leader :
    (index : ℕ) (r : Option SlockError) (t : ℕ) (f : Found)
    → (note_open index r t f).leader ≡ or_else (leads (tried_one r t) index) f.leader
unfolding note_open leads tried_one
note_open-leader index (some e) t f = refl
note_open-leader index none t f = elim (Bool-cases (bit_and t init_type_flag_is_leader == 0)) [
  | inl follows ↦ rw follows refl
  | inr ahead ↦ rw ahead refl
]

note_open-first :
    (xs : Tried) (index : ℕ) (r : Option SlockError) (t : ℕ) (f : Found)
    → or_else (note_open index r t f).first_live (first_open xs (suc index))
      ≡ or_else f.first_live (first_open (tried_one r t ∷ xs) index)
unfolding note_open first_open tried_one
note_open-first xs index (some e) t f = refl
note_open-first xs index none t f =
    or_else_assoc f.first_live (some index) (first_open xs (suc index))

module _ {S : Type 0} (b : Nodes S) where
  -- What trying the `n` nodes from `index`, one by one, finds.
  pub try_nodes : ℕ → ℕ → S → Tried
  try_nodes zero index s = []
  try_nodes (suc n) index s =
      let (r, s') = b.open_node index s in
      tried_one r (b.init_type index s') ∷ try_nodes n (suc index) s'

  open_loop-leader :
      (n index : ℕ) (f : Found) (s : S)
      → (open_loop b n index f s).0.leader
        ≡ or_else (last_leader (try_nodes n index s) index) f.leader
  unfolding open_loop last_leader try_nodes
  open_loop-leader zero index f s = refl
  open_loop-leader (suc n) index f s =
      let (r, s') = b.open_node index s in
      let t : ℕ = b.init_type index s' in
      open_loop-leader n (suc index) (note_open index r t f) s'
      ∙ (ap (or_else (last_leader (try_nodes n (suc index) s') (suc index)))
            (note_open-leader index r t f)
          ∙ sym (
              or_else_assoc (last_leader (try_nodes n (suc index) s') (suc index))
                (leads (tried_one r t) index) f.leader))

  open_loop-first :
      (n index : ℕ) (f : Found) (s : S)
      → (open_loop b n index f s).0.first_live
        ≡ or_else f.first_live (first_open (try_nodes n index s) index)
  unfolding open_loop first_open try_nodes
  open_loop-first zero index f s = keep f.first_live
    where
      keep : (x : Option ℕ) → x ≡ or_else x none
      keep none = refl
      keep (some i) = refl
  open_loop-first (suc n) index f s =
      let (r, s') = b.open_node index s in
      let t : ℕ = b.init_type index s' in
      open_loop-first n (suc index) (note_open index r t f) s'
      ∙ note_open-first (try_nodes n (suc index) s') index r t f

abbrev found_nothing : Found
found_nothing = record { last_error = none; first_live = none; leader = none }

abbrev replset : {S : Type 0} → ℕ → S → Option ℕ → List PendingCommand → Replset S
replset n s active queue = record {
  env = s;
  clients = n;
  active_index = active;
  pending_commands = queue;
}

not_zero : (n : ℕ) → (suc n == 0) ≡ false
not_zero n = elim (Bool-cases (suc n == 0)) [
  | inl same ↦ absurd (omega (arith, (==_iff (suc n) 0).0 same))
  | inr other ↦ other
]

or_none {ℓ} : {A : Type ℓ} (x : Option A) → or_else x none ≡ x
or_none none = refl
or_none (some a) = refl

or_else-none {ℓ} : {A : Type ℓ} (x y : Option A) → or_else x y ≡ none → (x ≡ none) × (y ≡ none)
or_else-none none y h = (refl, h)
or_else-none (some a) y h = cc

module _ {S : Type 0} (b : Nodes S) where
  -- What became of the active node, by what trying the nodes from the first on found.
  pub data Opened (tried : Tried) (p p' : Replset S) (r : Result (Unit {0})) : Type 0 where
    chosen :
        (index : ℕ)
        → or_else (last_leader tried 0) (first_open tried 0) ≡ some index
        → p'.active_index ≡ some index
        → r ≡ ok tt
        → Opened tried p p' r
    refused :
        (e : SlockError)
        → last_leader tried 0 ≡ none
        → first_open tried 0 ≡ none
        → p'.active_index ≡ p.active_index
        → r ≡ err e
        → Opened tried p p' r

  activate-Opened :
      (tried : Tried) (f : Found) (p p' : Replset S)
      → f.leader ≡ last_leader tried 0
      → f.first_live ≡ first_open tried 0
      → p'.active_index ≡ p.active_index
      → Opened tried p (activate f p').1 (activate f p').0
  unfolding activate set_active_index
  activate-Opened tried f p p' leader first same = by_choice (or_else f.leader f.first_live) refl
    where
      by_choice :
          (x : Option ℕ)
          → or_else f.leader f.first_live ≡ x
          → Opened tried p (activate f p').1 (activate f p').0
      by_choice (some index) e =
          rw (activate, e) (chosen index (rw (← leader, ← first) e) refl refl)
      by_choice none e =
          let (no_leader, no_live) = or_else-none f.leader f.first_live e in
          rw (activate, e) (refused _ (sym leader ∙ no_leader) (sym first ∙ no_live) same refl)

  -- `ReplsetClient::open`, whatever the clients of the nodes do: the last node that opened and says it
  -- leads becomes the active one, without such a node the first one that opened. If none opened, or
  -- there are no nodes, it is an error and the active node stays.
  pub replset_open-Opened :
      (p : Replset S)
      → Opened (try_nodes b p.clients 0 p.env) p (replset_open b p).1 (replset_open b p).0
  unfolding last_leader first_open try_nodes replset_open
  replset_open-Opened p = of_size p.clients p.env p.active_index p.pending_commands
    where
      of_size :
          (n : ℕ) (s : S) (active : Option ℕ) (queue : List PendingCommand)
          → Opened
              (try_nodes b n 0 s)
              (replset n s active queue)
              (replset_open b (replset n s active queue)).1
              (replset_open b (replset n s active queue)).0
      of_size zero s active queue = refused not_connected refl refl refl refl
      of_size (suc n) s active queue =
          rw (replset_open, not_zero n)
            (activate-Opened (try_nodes b (suc n) 0 s) (open_loop b (suc n) 0 found_nothing s).0
              (replset (suc n) s active queue)
              (replset (suc n) (open_loop b (suc n) 0 found_nothing s).1 active queue)
              (open_loop-leader b (suc n) 0 found_nothing s ∙ or_none _)
              (open_loop-first b (suc n) 0 found_nothing s) refl)

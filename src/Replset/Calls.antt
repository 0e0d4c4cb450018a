-- ===== src/Replset/Calls.antt =====
-- blocking/replset.rs: any sequence of calls of a replica set, and the client that `client` takes.
use ruslock.Prelude.{
  ℕ, zero, suc, ◌+◌, ◌<◌, ◌≡◌, refl, ap, arith, Option, none, some, List, [], ◌∷◌, Bool, true,
  false, ltb, if◌then◌else◌, Bool-cases, inl, inr, ◌==◌, ◌∙◌,
}
use mathlib.Core.Path.{subst}
use ruslock.Error.{SlockError, Result, ok, err, panic, out_of_fuel}
use ruslock.Options.{ClientOptions}
use ruslock.Protocol.Command.{Command}
use ruslock.Replset.{
  Nodes, Replset, Found, or_else, unwrap_or, note_open, open_loop, activate, replset_open,
  replset_close, client, ping_again, after_ping, replset_ping, set_active_index,
}
use ruslock.Replset.Send.{replset_send}
use ruslock.Replset.Kept.{HasActive, replset_send-HasActive}

-- A call of a replica set.
pub data Call : Type 0 where
  opening closing pinging : Call
  sending : (fuel : ℕ) (command : Command) (options : ClientOptions) → Call

-- The indices that the loop of `open` has are below `n`.
record Within (n : ℕ) (f : Found) : Type 0 where
  live : (i : ℕ) → f.first_live ≡ some i → i < n
  ahead : (i : ℕ) → f.leader ≡ some i → i < n

some_same : (i j : ℕ) → some i ≡ some j → i ≡ j
some_same i j h = cc

some_below : (n i j : ℕ) → i < n → some i ≡ some j → j < n
some_below n i j inside h = subst (λ k. k < n) (some_same i j h) inside

or_else-below :
    (n : ℕ) (x y : Option ℕ)
    → ((i : ℕ) → x ≡ some i → i < n)
    → ((i : ℕ) → y ≡ some i → i < n)
    → (i : ℕ) → or_else x y ≡ some i
    → i < n
or_else-below n none y hx hy i h = hy i h
or_else-below n (some k) y hx hy i h = hx i h

if-below :
    (n : ℕ) (c : Bool) (x y : Option ℕ)
    → ((i : ℕ) → x ≡ some i → i < n)
    → ((i : ℕ) → y ≡ some i → i < n)
    → (i : ℕ) → (if c then x else y) ≡ some i
    → i < n
if-below n true x y hx hy i h = hx i h
if-below n false x y hx hy i h = hy i h

note_open-Within :
    (n index : ℕ) (r : Option SlockError) (t : ℕ) (f : Found)
    → index < n
    → Within n f
    → Within n (note_open index r t f)
unfolding note_open
note_open-Within n index (some e) t f inside h = record { live = h.live; ahead = h.ahead }
note_open-Within n index none t f inside h = record {
  live = or_else-below n f.first_live (some index) h.live (λ j eq. some_below n index j inside eq);
  ahead = if-below n _ f.leader (some index) h.ahead (λ j eq. some_below n index j inside eq);
}

module _ {S : Type 0} (b : Nodes S) where
  -- One call, without its result.
  pub perform : Call → Replset S → Replset S
  perform opening p = (replset_open b p).1
  perform closing p = replset_close b p
  perform pinging p = (replset_ping b p).1
  perform (sending fuel command options) p = (replset_send b fuel command options p).1

  pub perform_all : List Call → Replset S → Replset S
  perform_all [] p = p
  perform_all (c ∷ cs) p = perform_all cs (perform c p)

  open_loop-Within :
      (n m index : ℕ) (f : Found) (s : S)
      → index + m ≡ n
      → Within n f
      → Within n (open_loop b m index f s).0
  unfolding open_loop
  open_loop-Within n zero index f s all h = h
  open_loop-Within n (suc m) index f s all h =
      let (r, s') = b.open_node index s in
      open_loop-Within n m (suc index) _ s' (omega (arith, all))
        (note_open-Within n index r (b.init_type index s') f (omega (arith, all)) h)

  activate-HasActive :
      (n : ℕ) (f : Found) (p : Replset S)
      → Within n f
      → HasActive n p
      → HasActive n (activate f p).1
  unfolding activate set_active_index
  activate-HasActive n f p w h = by_choice (or_else f.leader f.first_live) refl
    where
      by_choice : (x : Option ℕ) → or_else f.leader f.first_live ≡ x → HasActive n (activate f p).1
      by_choice (some i) e =
          rw (activate, e)
            (record {
              size = h.size;
              active = λ j eq.
                  some_below n i j (or_else-below n f.leader f.first_live w.ahead w.live i e) eq;
            })
      by_choice none e = rw (activate, e) h

  replset_open-HasActive :
      (n : ℕ) (p : Replset S) → HasActive n p → HasActive n (replset_open b p).1
  unfolding replset_open
  replset_open-HasActive n p h = elim (Bool-cases (p.clients == 0)) [
    | inl no_node ↦ rw no_node h
    | inr nodes ↦ rw nodes (
        activate-HasActive n _ _
          (open_loop-Within n p.clients 0 _ p.env (omega (arith, h.size))
            (record { live = λ i e. cc; ahead = λ i e. cc }))
          (record { size = h.size; active = h.active }))
  ]

  replset_close-HasActive :
      (n : ℕ) (p : Replset S) → HasActive n p → HasActive n (replset_close b p)
  unfolding replset_close
  replset_close-HasActive n p h = record { size = h.size; active = λ i e. cc }

  ping_again-HasActive :
      (n : ℕ) (e : SlockError) (r : Result (Unit {0})) (p : Replset S)
      → HasActive n p
      → HasActive n (ping_again b e r p).1
  unfolding ping_again
  ping_again-HasActive n e (ok u) p h = record { size = h.size; active = h.active }
  ping_again-HasActive n e (err x) p h = h
  ping_again-HasActive n e panic p h = h
  ping_again-HasActive n e out_of_fuel p h = h

  after_ping-HasActive :
      (n : ℕ) (r : Result Bool) (p : Replset S) → HasActive n p → HasActive n (after_ping b r p).1
  unfolding after_ping
  after_ping-HasActive n (ok x) p h = h
  after_ping-HasActive n panic p h = h
  after_ping-HasActive n out_of_fuel p h = h
  after_ping-HasActive n (err e) p h = elim (Bool-cases (ltb 1 p.clients)) [
    | inl several ↦ rw several (
        ping_again-HasActive n e (replset_open b p).0 (replset_open b p).1
          (replset_open-HasActive n p h))
    | inr only ↦ rw only h
  ]

  perform-HasActive :
      (n : ℕ) (c : Call) (p : Replset S) → 0 < n → HasActive n p → HasActive n (perform c p)
  unfolding perform replset_ping
  perform-HasActive n opening p some_node h = replset_open-HasActive n p h
  perform-HasActive n closing p some_node h = replset_close-HasActive n p h
  perform-HasActive n pinging p some_node h =
      after_ping-HasActive n (b.ping_node (client p) p.env).0
        (record p { env = (b.ping_node (client p) p.env).1 })
        (record { size = h.size; active = h.active })
  perform-HasActive n (sending fuel command options) p some_node h =
      replset_send-HasActive b fuel command options p n some_node h

  perform_all-HasActive :
      (n : ℕ) (cs : List Call) (p : Replset S)
      → 0 < n
      → HasActive n p
      → HasActive n (perform_all cs p)
  unfolding perform_all
  perform_all-HasActive n [] p some_node h = h
  perform_all-HasActive n (c ∷ cs) p some_node h =
      perform_all-HasActive n cs _ some_node (perform-HasActive n c p some_node h)

take : (n i : ℕ) → i < n → (if ltb i n then some i else none) ≡ some i
take n i h = rw (below n i h) refl
  where
    below : (n i : ℕ) → i < n → ltb i n ≡ true
    below n i h = ground arith

active-below : (n : ℕ) (x : Option ℕ) → 0 < n → ((i : ℕ) → x ≡ some i → i < n) → unwrap_or x 0 < n
active-below n none some_node h = some_node
active-below n (some i) some_node h = h i refl

module _ {S : Type 0} (b : Nodes S) where
  -- Whatever calls a replica set with some node has seen since it was made, each of them ending as it
  -- may, `client` takes the client of one of its nodes, never a new client of the address "".
  pub client-perform_all :
      (cs : List Call) (p : Replset S)
      → 0 < p.clients
      → p.active_index ≡ none
      → (i : ℕ) × (client (perform_all b cs p) ≡ some i) × (i < p.clients)
  unfolding client
  client-perform_all cs p some_node fresh = (
    index,
    ap (λ m. if ltb index m then some index else none) h.size ∙ take p.clients index inside,
    inside,
  )
    where
      h : HasActive p.clients (perform_all b cs p)
      h =
          perform_all-HasActive b p.clients cs p some_node
            (record { size = refl; active = λ i e. cc (fresh, e) })

      index : ℕ
      index = unwrap_or (perform_all b cs p).active_index 0

      inside : index < p.clients
      inside = active-below p.clients (perform_all b cs p).active_index some_node h.active

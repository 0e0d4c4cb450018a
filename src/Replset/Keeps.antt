-- ===== src/Replset/Keeps.antt =====
-- blocking/replset.rs: the rule for what every step of `send_pending_command` keeps.
use ruslock.Prelude.{
  ℕ, zero, suc, ◌+◌, ◌-◌, ◌%◌, ◌<◌, ◌≡◌, sym, Option, none, some, Bool, true, false, ltb, leb, ◌&&◌,
  Bool-cases, inl, inr,
}
use Prim.Native.Nat.{min}
use mathlib.Core.Path.{subst}
use native.Mathlib.Nat.{mod-lt}
use ruslock.Error.{SlockError, Result, ok, err, panic, out_of_fuel}
use ruslock.Protocol.Id.{Id16}
use ruslock.Protocol.Command.{Command}
use ruslock.Protocol.Reply.{CommandResult}
use ruslock.Replset.{
  Nodes, Replset, PendingCommand, RetryType, redirected, pending, woken, lock_state_error,
  retryable_transport_error, set_active_index,
}
use ruslock.Replset.Send.{
  Attempt, Turn, Sent, set_retry, in_env, or_go_on, after_error, after_answer, after_send,
  after_open, try_node, try_nodes_from, try_round, rest, by_deadline, by_state_error, after_round,
  send_pending, replset_retry_interval,
}

module _ {S : Type 0} (b : Nodes S) where
  -- A predicate that every step keeps, of a replica set with `n` nodes and a command with the id.
  pub record IsKept (n : ℕ) (id : Id16) (P : Replset S → Type 0) : Type 0 where
    pub size : (p : Replset S) → P p → p.clients ≡ n
    pub opens : (i : ℕ) (p : Replset S) → P p → P (in_env p (b.open_node i p.env).1)
    pub sends : (i : ℕ) (c : Command) (p : Replset S) → P p → P (in_env p (b.send_node i c p.env).1)
    pub closes : (i : ℕ) (p : Replset S) → P p → P (in_env p (b.close_node i p.env))
    pub nows : (p : Replset S) → P p → P (in_env p (b.now p.env).1)
    pub sleeps : (d : ℕ) (p : Replset S) → P p → P (in_env p (b.sleep d p.env))
    pub retries : (t : RetryType) (p : Replset S) → P p → P (set_retry id t p)
    pub activates : (i : ℕ) (p : Replset S) → i < n → P p → P (set_active_index i p)

  module _ {n : ℕ} {id : Id16} {P : Replset S → Type 0} (k : IsKept n id P) where
    after_error-keeps :
        (i : ℕ) (e : SlockError) (a : Attempt) (p : Replset S)
        → P p
        → P (after_error b i id e a p).2
    unfolding after_error
    after_error-keeps i e a p h =
        elim (Bool-cases (retryable_transport_error e && ltb 1 p.clients)) [
          | inl again ↦ rw again (k.retries redirected _ (k.closes i p h))
          | inr over ↦ rw over h
        ]

    after_answer-keeps :
        (i : ℕ) (r : CommandResult) (a : Attempt) (p : Replset S)
        → i < n
        → P p
        → P (after_answer b i id r a p).2
    unfolding after_answer
    after_answer-keeps i r a p inside h =
        elim (Bool-cases (lock_state_error r && ltb 1 p.clients)) [
          | inl again ↦ rw again (k.retries redirected p h)
          | inr over ↦ rw over (k.activates i p inside h)
        ]

    after_send-keeps :
        (i : ℕ) (r : Result CommandResult) (a : Attempt) (p : Replset S)
        → i < n
        → P p
        → P (after_send b i id r a p).2
    unfolding after_send
    after_send-keeps i (ok r) a p inside h = after_answer-keeps i r a p inside h
    after_send-keeps i (err e) a p inside h = after_error-keeps i e a p h
    after_send-keeps i panic a p inside h = h
    after_send-keeps i out_of_fuel a p inside h = h

    module _ (c : PendingCommand) (own : c.request_id ≡ id) where
      after_open-keeps :
          (i : ℕ) (r : Option SlockError) (a : Attempt) (p : Replset S)
          → i < n
          → P p
          → P (after_open b i c r a p).2
      unfolding after_open
      after_open-keeps i (some e) a p inside h = h
      after_open-keeps i none a p inside h =
          subst
            (λ x.
              P
                (after_send b i x (b.send_node i c.command p.env).0 a
                  (in_env p (b.send_node i c.command p.env).1)).2)
            (sym own)
            (after_send-keeps i (b.send_node i c.command p.env).0 a _ inside
              (k.sends i c.command p h))

      try_node-keeps :
          (i : ℕ) (a : Attempt) (p : Replset S) → i < n → P p → P (try_node b i c a p).2
      unfolding try_node
      try_node-keeps i a p inside h = after_open-keeps i _ a _ inside (k.opens i p h)

      or_go_on-keeps :
          (t : Turn S) (next : Attempt → Replset S → Turn S)
          → P t.2
          → ((a : Attempt) (p : Replset S) → P p → P (next a p).2)
          → P (or_go_on t next).2
      or_go_on-keeps (some r, a, p) next h keep = h
      or_go_on-keeps (none, a, p) next h keep = keep a p h

      in_range : (i : ℕ) (p : Replset S) → 0 < n → P p → i % p.clients < n
      in_range i p some_node h =
          subst (λ m. i % p.clients < m) (k.size p h)
            (mod-lt i (subst (λ m. 0 < m) (sym (k.size p h)) some_node))

      try_nodes_from-keeps :
          (m offset start : ℕ) (a : Attempt) (p : Replset S)
          → 0 < n
          → P p
          → P (try_nodes_from b m offset start c a p).2
      unfolding try_nodes_from
      try_nodes_from-keeps zero offset start a p some_node h = h
      try_nodes_from-keeps (suc m) offset start a p some_node h =
          or_go_on-keeps _ _ (try_node-keeps _ a p (in_range (start + offset) p some_node h) h)
            (λ a' p' h'. try_nodes_from-keeps m (suc offset) start a' p' some_node h')

      pub try_round-keeps : (a : Attempt) (p : Replset S) → 0 < n → P p → P (try_round b c a p).2
      unfolding try_round
      try_round-keeps a p some_node h = try_nodes_from-keeps p.clients 0 _ _ p some_node h

      pub rest-keeps : (p : Replset S) → P p → P (rest b c p)
      unfolding rest
      rest-keeps p h =
          subst
            (λ x. P (
              set_retry x woken (
                in_env (set_retry x pending p) (
                  b.sleep
                    (min (c.deadline - (b.now (set_retry x pending p).env).0)
                      replset_retry_interval)
                    (b.now (set_retry x pending p).env).1))))
            (sym own) (k.retries woken _ (k.sleeps _ _ (k.nows _ (k.retries pending p h))))

      by_state_error-keeps :
          (e : Option CommandResult) (a : Attempt) (p : Replset S)
          → (again : Attempt → Replset S → Sent S) → P p
          → ((a' : Attempt) (p' : Replset S) → P p' → P (again a' p').1)
          → P (by_state_error b e c a p again).1
      unfolding by_state_error
      by_state_error-keeps (some r) a p again h keep = h
      by_state_error-keeps none a p again h keep = by_time (leb c.deadline (b.now p.env).0)
        where
          by_time : (past : Bool) → P (by_deadline b past (b.now p.env).1 c a p again).1
          by_time true = unfold by_deadline in k.nows p h
          by_time false = unfold by_deadline in keep a _ (rest-keeps _ (k.nows p h))

      after_round-keeps :
          (t : Turn S) (again : Attempt → Replset S → Sent S)
          → P t.2
          → ((a' : Attempt) (p' : Replset S) → P p' → P (again a' p').1)
          → P (after_round b c t again).1
      unfolding after_round
      after_round-keeps (some r, a, p) again h keep = h
      after_round-keeps (none, a, p) again h keep =
          by_state_error-keeps a.last_state_error a p again h keep

      -- What every step keeps, `send_pending_command` keeps.
      pub send_pending-keeps :
          (fuel : ℕ) (a : Attempt) (p : Replset S) → 0 < n → P p → P (send_pending b fuel c a p).1
      unfolding send_pending
      send_pending-keeps zero a p some_node h = h
      send_pending-keeps (suc fuel) a p some_node h =
          after_round-keeps (try_round b c a p) (λ a' p'. send_pending b fuel c a' p')
            (try_round-keeps a p some_node h)
            (λ a' p' h'. send_pending-keeps fuel a' p' some_node h')

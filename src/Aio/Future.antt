-- ===== src/Aio/Future.antt =====
-- aio: what an async method of a primitive is between two awaits. A future can be dropped where it
-- waits, and what it waits with is then what is left of the primitive.
use ruslock.Prelude.{◌≡◌, refl}
use ruslock.Error.{Result}
use ruslock.Protocol.Command.{Command}
use ruslock.Protocol.Reply.{CommandResult}
use ruslock.Primitive.World.{Backend, World, send_command}

-- An async method of a primitive of type `O`: it has returned, or it waits for the answer of the
-- client to a command. While it waits, other tasks may change the world.
pub data Future (O S A : Type 0) : Type 0 where
  ready : Result A → O → World S → Future O S A
  waits : Command → O → World S → (Result CommandResult → World S → Future O S A) → Future O S A

abbrev pub Async : Type 0 → Type 0 → Type 0 → Type 0
Async O S A = O × World S → Future O S A

-- What has returned.
abbrev pub returned : {O S A : Type 0} → Result A × (O × World S) → Future O S A
returned (r, (o, w)) = ready r o w

-- `.await` of a method of an inner primitive: while it waits, `outer` of the inner primitive is what
-- is left of the outer one.
unfoldable pub await_inner :
    {I O S A B : Type 0}
    → (I → O)
    → Future I S A
    → (Result A → I → World S → Future O S B)
    → Future O S B
await_inner outer (ready r i w) next = next r i w
await_inner outer (waits c i w k) next =
    waits c (outer i) w (λ r w'. await_inner outer (k r w') next)

module _ {O S A : Type 0} where
  -- The future run to its end, with no other task in between.
  unfoldable pub complete : Backend S → Future O S A → Result A × (O × World S)
  unfolding send_command
  complete b (ready r o w) = (r, (o, w))
  complete b (waits c o w k) = let (r, w') = send_command b c w in complete b (k r w')

  -- Wherever the future waits, whatever is answered and other tasks do meanwhile, the command it waits
  -- for and what is left of the primitive are in `P`.
  unfoldable pub AtAwaits : (Command → O → Type 0) → Future O S A → Type 0
  AtAwaits P (ready r o w) = Unit {0}
  AtAwaits P (waits c o w k) =
      P c o × ((r : Result CommandResult) (w' : World S) → AtAwaits P (k r w'))

module _ {I O S A B : Type 0} (b : Backend S) (outer : I → O) where
  pub complete-await_inner :
      (f : Future I S A) (next : Result A → I → World S → Future O S B)
      → complete b (await_inner outer f next)
        ≡ (let (r, (i, w)) = complete b f in complete b (next r i w))
  unfolding complete await_inner
  complete-await_inner (ready r i w) next = refl
  complete-await_inner (waits c i w k) next = complete-await_inner (k _ _) next

-- ===== src/Context/Run/Shapes.antt =====
-- The number and the size of the buffers for sending stay what `Context::new` has made them (lib.rs).
use tansiv.Base.{
  ℕ, ◌≡◌, refl, ap, ◌∙◌, Option-cases, none, inl, inr, List, [], ◌∷◌, map, length, Result, ok, err,
  panicked,
}
use tansiv.Error.{IoError, PoolError, SetError}
use tansiv.BufferPool
use tansiv.BufferPool.{BufferPool, Buffer, allocate_buffer}
use tansiv.BufferPool.Alloc.{allocate_buffer-Served}
use tansiv.BufferPool.Builders.{Flatbuffers, builders}
use tansiv.OutputMsgSet.{OutputMsgSet, insert}
use tansiv.OutputMsgSet.Listing.{IsSettled}
use tansiv.InputQueue.{ArrayQueue}
use tansiv.Connector.{Codec, Handle}
use tansiv.Connector.Send
use tansiv.Timer.Interface.{Timer}
use tansiv.Context.{Context, OutputMsg}
use tansiv.Context.Application.{enqueue, send}
use tansiv.Context.Handlers.Timing.{at_deadline-Untimed}
use tansiv.Context.Run.{Op, step, run, step-Settled, starts, reaches_deadline, sends, receives}
use tansiv.Context.Run.Sound.{recv-SameOutput, start-SameOutput}

module _ (codec : Codec) (F : Flatbuffers) (aq : ArrayQueue Handle) (tm : Timer) where
  abbrev Ctx : Type 0
  Ctx = Context codec F aq tm

  abbrev Msg : Type 0
  Msg = OutputMsg codec F aq tm

  -- The size and the number of the buffers for sending.
  abbrev pub shape : Ctx → ℕ × ℕ
  shape c = (c.output_buffer_pool.buffer_size, c.output_buffer_pool.num_buffers)

  enqueue-shape :
      (c : Ctx) (dst t : ℕ) (msg : List ℕ) (b : Buffer (builders F))
      → shape (enqueue codec F aq tm c dst t msg b).1 ≡ shape c
  unfolding enqueue BufferPool.drop
  enqueue-shape c dst t msg b =
      elim (Option-cases (
        tm.check_deadline_overrun c.timer_context t (map (λ m. m.send_time) c.upcoming_messages))) [
          | inr (later, p) ↦ rw (enqueue, p) refl
          | inl p ↦ go (insert c.outgoing_messages (Send.new F c.address dst t msg b)) refl p
        ]
    where
      go :
          (r : Result SetError (OutputMsgSet Msg))
          → insert c.outgoing_messages (Send.new F c.address dst t msg b) ≡ r
          → tm.check_deadline_overrun c.timer_context t (map (λ m. m.send_time) c.upcoming_messages)
            ≡ none
          → shape (enqueue codec F aq tm c dst t msg b).1 ≡ shape c
      go (ok set) q p = rw (enqueue, p, q) refl
      go (err e) q p = rw (enqueue, p, q) refl
      go panicked q p = rw (enqueue, p, q) refl

  send-shape : (c : Ctx) (dst : ℕ) (msg : List ℕ) → shape (send codec F aq tm c dst msg).1 ≡ shape c
  unfolding send
  send-shape c dst msg = clock (tm.simulation_now c.timer_context).0 refl
    where
      served :
          (t : ℕ)
          → (tm.simulation_now c.timer_context).0 ≡ ok t
          → (r : Result PoolError (Buffer (builders F) × BufferPool (builders F)))
          → allocate_buffer (builders F) c.output_buffer_pool (length msg) ≡ r
          → shape (send codec F aq tm c dst msg).1 ≡ shape c
      served t p (ok (b, pool)) q =
          let s = allocate_buffer-Served (builders F) c.output_buffer_pool (length msg) q in
          rw (send, p, q)
            (enqueue-shape _ dst t msg b ∙ ap (λ x. (x.1.buffer_size, x.1.num_buffers)) s.same)
      served t p (err e) q = rw (send, p, q) refl
      served t p panicked q = rw (send, p, q) refl

      clock :
          (r : Result IoError ℕ)
          → (tm.simulation_now c.timer_context).0 ≡ r
          → shape (send codec F aq tm c dst msg).1 ≡ shape c
      clock (ok t) p =
          served t p (allocate_buffer (builders F) c.output_buffer_pool (length msg)) refl
      clock (err e) p = rw (send, p) refl
      clock panicked p = rw (send, p) refl

  step-shape :
      (c : Ctx) (o : Op) → IsSettled c.outgoing_messages → shape (step codec F aq tm c o) ≡ shape c
  step-shape c starts v =
      ap (λ p. (p.buffer_size, p.num_buffers)) (start-SameOutput codec F aq tm c).pool
  step-shape c reaches_deadline v =
      let u = at_deadline-Untimed codec F aq tm c v in rw (u.buffer_size, u.num_buffers) refl
  step-shape c (sends dst msg) v = send-shape c dst msg
  step-shape c (receives capacity) v =
      ap (λ p. (p.buffer_size, p.num_buffers)) (recv-SameOutput codec F aq tm c capacity).pool

  pub run-shape :
      (c : Ctx) (os : List Op)
      → IsSettled c.outgoing_messages
      → shape (run codec F aq tm c os) ≡ shape c
  run-shape c [] v = refl
  run-shape c (o ∷ os) v =
      run-shape (step codec F aq tm c o) os (step-Settled codec F aq tm c o v) ∙ step-shape c o v

-- ===== src/CApi/Lifetime/Keeping.antt =====
-- What the operations on a context do to the references to its timer (lib.rs).
use tansiv.Base.{
  ℕ, ◌+◌, ◌≡◌, refl, ap, ◌∙◌, inl, inr, Option-cases, true, List, arith, length, Result, ok, err,
  panicked,
}
use tansiv.Base.Int.{ℤ}
use tansiv.Error.{IoError, Error, PoolError}
use tansiv.BufferPool.{BufferPool, Buffer, allocate_buffer}
use tansiv.BufferPool.Builders.{Flatbuffers, builders}
use tansiv.InputQueue.{ArrayQueue, pop}
use tansiv.Connector.{Codec, Handle, MsgIn}
use tansiv.Timer.Interface.{Timer}
use tansiv.Context.{Context, recv_msg}
use tansiv.Context.Application.{enqueue, start, send, recv, deserialize}
use tansiv.CApi.Lifetime.{Counted}

module _ (codec : Codec) (F : Flatbuffers) (aq : ArrayQueue Handle) {tm : Timer}
    (k : Counted tm) where
  abbrev Ctx : Type 0
  Ctx = Context codec F aq tm

  abbrev pub refs : Ctx → ℕ
  refs c = k.references c.timer_context

  enqueue-timer :
      (c : Ctx) (dst t : ℕ) (msg : List ℕ) (b : Buffer (builders F))
      → (enqueue codec F aq tm c dst t msg b).1.timer_context ≡ c.timer_context
  unfolding enqueue
  enqueue-timer c dst t msg b = ground arith

  send-timer :
      (c : Ctx) (dst : ℕ) (msg : List ℕ)
      → (send codec F aq tm c dst msg).1.timer_context ≡ (tm.simulation_now c.timer_context).1
  unfolding send
  send-timer c dst msg = clock (tm.simulation_now c.timer_context).0 refl
    where
      served :
          (t : ℕ)
          → (tm.simulation_now c.timer_context).0 ≡ ok t
          → (r : Result PoolError (Buffer (builders F) × BufferPool (builders F)))
          → allocate_buffer (builders F) c.output_buffer_pool (length msg) ≡ r
          → (send codec F aq tm c dst msg).1.timer_context ≡ (tm.simulation_now c.timer_context).1
      served t p (ok (b, pool)) q = rw (send, p, q) (enqueue-timer _ dst t msg b)
      served t p (err e) q = rw (send, p, q) refl
      served t p panicked q = rw (send, p, q) refl

      clock :
          (r : Result IoError ℕ)
          → (tm.simulation_now c.timer_context).0 ≡ r
          → (send codec F aq tm c dst msg).1.timer_context ≡ (tm.simulation_now c.timer_context).1
      clock (ok t) p =
          served t p (allocate_buffer (builders F) c.output_buffer_pool (length msg)) refl
      clock (err e) p = rw (send, p) refl
      clock panicked p = rw (send, p) refl

  pub send-refs :
      (c : Ctx) (dst : ℕ) (msg : List ℕ) → refs (send codec F aq tm c dst msg).1 ≡ refs c
  send-refs c dst msg =
      ap k.references (send-timer c dst msg) ∙ k.references-simulation_now c.timer_context

  pub recv-refs : (c : Ctx) (capacity : ℕ) → refs (recv codec F aq tm c capacity).1 ≡ refs c
  unfolding recv
  recv-refs c capacity = elim (Option-cases (pop aq c.input_queue)) [
    | inl p ↦ rw (recv, p) refl
    | inr ((d, q), p) ↦ elim (Option-cases (deserialize codec c.input_buffer_pool d)) [
      | inl f ↦ rw (recv, p, f) refl
      | inr (packet, f) ↦ rw (recv, p, f) refl
    ]
  ]

  -- How many references a call of `start` has taken.
  abbrev pub started_with : Result Error ℤ → ℕ
  started_with (ok o) = k.takes
  started_with (err e) = 0
  started_with panicked = 0

  start_with :
      (c : Ctx) (msg : Result IoError MsgIn)
      → (recv_msg codec F aq tm (record c { started = true })).0 ≡ msg
      → refs (start codec F aq tm c).1 ≡ refs c + started_with (start codec F aq tm c).0
  unfolding start
  start_with c (ok (MsgIn.goto_deadline d)) e = ground (arith, k.references-start c.timer_context d)
  start_with c (ok MsgIn.end_simulation) e = ground arith
  start_with c (ok (MsgIn.deliver_packet b)) e = ground arith
  start_with c (err x) e = ground arith
  start_with c panicked e = ground arith

  pub start-refs :
      (c : Ctx) → refs (start codec F aq tm c).1 ≡ refs c + started_with (start codec F aq tm c).0
  start-refs c = start_with c (recv_msg codec F aq tm (record c { started = true })).0 refl

-- ===== src/Context/Run/SameInput.antt =====
-- What the sending side of a context leaves alone: the stream, the packets, and the deadlines that the
-- application has been told (lib.rs).
use tansiv.Base.{
  ap, ℕ, zero, suc, ◌≡◌, refl, ◌∙◌, Bool, Bool-cases, Option, none, some, List, [], ◌∷◌, arith, inl,
  inr, length, Result, ok, err, panicked,
}
use tansiv.Error.{IoError, PoolError}
use tansiv.BufferPool.{BufferPool, Buffer, allocate_buffer}
use tansiv.BufferPool.Builders.{Flatbuffers, builders}
use tansiv.OutputMsgSet.{OutputMsgSet, drain, drain_for, turn, next}
use tansiv.InputQueue.{ArrayQueue}
use tansiv.Connector.{Codec, Handle, Reader, Pool}
use tansiv.Connector.Send.{Writer}
use tansiv.Timer.Interface.{Timer}
use tansiv.Context.{Context, OutputMsg, send_packet, send_outgoing, send_upcoming, send_phase}
use tansiv.Context.Application.{enqueue, send}

-- What the body of a loop over a drained set keeps, the loop keeps.
module _ {M S : Type 0} (P : S → Type 0) (body : M → S → S × Bool)
    (keeps : (m : M) (st : S) → P st → P (body m st).0) where
  turn-keeps :
      (turns : ℕ → OutputMsgSet M → S → Bool × OutputMsgSet M × S)
      → ((index : ℕ) (s : OutputMsgSet M) (st : S) → P st → P (turns index s st).2)
      → (r : Option M × ℕ × OutputMsgSet M) (st : S) → P st
      → P (turn body turns r st).2
  unfolding turn
  turn-keeps turns later (none, index, s) st p = p
  turn-keeps turns later (some m, index, s) st p = elim (Bool-cases (body m st).1) [
    | inl go ↦ rw (turn, go) (later index s (body m st).0 (keeps m st p))
    | inr stop ↦ rw (turn, stop) (keeps m st p)
  ]

  drain_for-keeps :
      (fuel index : ℕ) (s : OutputMsgSet M) (st : S) → P st → P (drain_for body fuel index s st).2
  unfolding drain_for
  drain_for-keeps zero index s st p = p
  drain_for-keeps (suc fuel) index s st p =
      turn-keeps (drain_for body fuel) (λ i s' st' q. drain_for-keeps fuel i s' st' q)
        (next index s) st p

  pub drain-keeps : (s : OutputMsgSet M) (st : S) → P st → P (drain body s st).2
  unfolding drain
  drain-keeps s st p = drain_for-keeps (suc s.num_slots) 0 s st p

module _ (codec : Codec) (F : Flatbuffers) (aq : ArrayQueue Handle) (tm : Timer) where
  abbrev Ctx : Type 0
  Ctx = Context codec F aq tm

  -- What `start`, the receiving part of a deadline and `recv` work on, and the log of the deadlines.
  abbrev pub received_part : Ctx → Reader × Pool × aq.Queue × List ℕ
  received_part c = (c.reader, c.input_buffer_pool, c.input_queue, c.deadline_calls)

  abbrev pub SameInput : Ctx → Ctx → Type 0
  SameInput c c' = received_part c' ≡ received_part c

  -- What `send` leaves alone: that, and what has been written.
  abbrev SameStream : Ctx → Ctx → Type 0
  SameStream c c' =
      ◌≡◌ {A = (Reader × Pool × aq.Queue × List ℕ) × Writer} (received_part c', c'.writer)
        (received_part c, c.writer)

  enqueue-SameStream :
      (c : Ctx) (dst t : ℕ) (msg : List ℕ) (b : Buffer (builders F))
      → SameStream c (enqueue codec F aq tm c dst t msg b).1
  unfolding enqueue
  enqueue-SameStream c dst t msg b = ground arith

  send-SameStream :
      (c : Ctx) (dst : ℕ) (msg : List ℕ) → SameStream c (send codec F aq tm c dst msg).1
  unfolding send
  send-SameStream c dst msg = clock (tm.simulation_now c.timer_context).0 refl
    where
      served :
          (t : ℕ)
          → (tm.simulation_now c.timer_context).0 ≡ ok t
          → (r : Result PoolError (Buffer (builders F) × BufferPool (builders F)))
          → allocate_buffer (builders F) c.output_buffer_pool (length msg) ≡ r
          → SameStream c (send codec F aq tm c dst msg).1
      served t p (ok (b, pool)) q = rw (send, p, q) (enqueue-SameStream _ dst t msg b)
      served t p (err e) q = rw (send, p, q) refl
      served t p panicked q = rw (send, p, q) refl

      clock :
          (r : Result IoError ℕ)
          → (tm.simulation_now c.timer_context).0 ≡ r
          → SameStream c (send codec F aq tm c dst msg).1
      clock (ok t) p =
          served t p (allocate_buffer (builders F) c.output_buffer_pool (length msg)) refl
      clock (err e) p = rw (send, p) refl
      clock panicked p = rw (send, p) refl

  pub send-SameInput :
      (c : Ctx) (dst : ℕ) (msg : List ℕ) → SameInput c (send codec F aq tm c dst msg).1
  send-SameInput c dst msg = ap (λ x. x.0) (send-SameStream c dst msg)

  pub send_writer :
      (c : Ctx) (dst : ℕ) (msg : List ℕ) → (send codec F aq tm c dst msg).1.writer ≡ c.writer
  send_writer c dst msg = ap (λ x. x.1) (send-SameStream c dst msg)

  send_packet-SameInput :
      (m : OutputMsg codec F aq tm) (t : ℕ) (c : Ctx)
      → SameInput c (send_packet codec F aq tm m t c).0
  unfolding send_packet
  send_packet-SameInput m t c = refl

  send_outgoing-SameInput :
      (previous current : ℕ) (m : OutputMsg codec F aq tm) (c : Ctx)
      → SameInput c (send_outgoing codec F aq tm previous current m c).0
  unfolding send_outgoing send_packet
  send_outgoing-SameInput previous current m c = ground arith

  send_upcoming-SameInput :
      (current : ℕ) (ms : List (OutputMsg codec F aq tm)) (c : Ctx)
      → SameInput c (send_upcoming codec F aq tm current ms c).1
  unfolding send_upcoming send_packet
  send_upcoming-SameInput current [] c = refl
  send_upcoming-SameInput current (m ∷ ms) c = ground (
    arith,
    send_upcoming-SameInput current ms
        (send_packet codec F aq tm m m.send_time (record c { upcoming_messages = ms })).0,
  )

  pub send_phase-SameInput :
      (previous current : ℕ) (c : Ctx) → SameInput c (send_phase codec F aq tm previous current c).1
  unfolding send_phase
  send_phase-SameInput previous current c =
      let body = send_outgoing codec F aq tm previous current in
      let r = drain body c.outgoing_messages c in
      let d : SameInput c r.2 =
        drain-keeps (SameInput c) body (λ m st p. send_outgoing-SameInput previous current m st ∙ p)
          c.outgoing_messages c refl in
      let drained : Ctx = record r.2 { outgoing_messages = r.1 } in
      let u = send_upcoming-SameInput current drained.upcoming_messages drained in
      elim (Bool-cases r.0) [
        | inr stop ↦ rw (send_phase, stop) d
        | inl go ↦
            elim (Bool-cases
              (send_upcoming codec F aq tm current drained.upcoming_messages drained).0) [
                | inr stop ↦ rw (send_phase, go, stop) (u ∙ d)
                | inl go' ↦ rw (send_phase, go, go') (u ∙ d)
              ]
      ]

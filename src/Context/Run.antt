-- ===== src/Context/Run.antt =====
-- Any sequence of operations on a context (lib.rs).
pub mod Output
pub mod OutputSteps
pub mod OutputSends
pub mod Input
pub mod InputSteps
pub mod Sound
pub mod Created
pub mod Shapes
pub mod Buffers
pub mod Order
pub mod Overruns
pub mod Delivery
pub mod SameInput
pub mod Waiting
use tansiv.Base.{
  ℕ, ◌≡◌, refl, ◌∙◌, Bool-cases, none, Option-cases, List, [], ◌∷◌, map, arith, leb, inl, inr,
  length, Result, ok, err, panicked,
}
use tansiv.Error.{IoError, PoolError, SetError}
use tansiv.BufferPool.{BufferPool, Buffer, allocate_buffer}
use tansiv.BufferPool.Builders.{Flatbuffers, builders}
use tansiv.OutputMsgSet.{OutputMsgSet, new, insert, drain}
use tansiv.OutputMsgSet.Listing.{IsSettled, new-IsSettled, insert-pending}
use tansiv.OutputMsgSet.Drain.{drain_lem}
use tansiv.InputQueue.{ArrayQueue, pop}
use tansiv.Connector.{Codec, Handle}
use tansiv.Connector.Send
use tansiv.Timer.Interface.{Timer}
use tansiv.Context.{
  Context, OutputMsg, send_packet, send_outgoing, send_upcoming, send_phase, at_deadline,
}
use tansiv.Context.Application.{enqueue, send, recv, start, deserialize}
use tansiv.Context.Receiving.{receive_phase-Receives}

-- What the application and the timer do.
pub data Op : Type 0 where
  starts reaches_deadline : Op
  sends : ℕ → List ℕ → Op
  receives : ℕ → Op

module _ (codec : Codec) (F : Flatbuffers) (aq : ArrayQueue Handle) (tm : Timer) where
  abbrev Ctx : Type 0
  Ctx = Context codec F aq tm

  abbrev Msg : Type 0
  Msg = OutputMsg codec F aq tm

  abbrev pub step : Ctx → Op → Ctx
  step c starts = (start codec F aq tm c).1
  step c reaches_deadline = (at_deadline codec F aq tm c).1
  step c (sends dst msg) = (send codec F aq tm c dst msg).1
  step c (receives capacity) = (recv codec F aq tm c capacity).1

  abbrev pub run : Ctx → List Op → Ctx
  run c [] = c
  run c (o ∷ os) = run (step c o) os

  abbrev pub Settled : Ctx → Type 0
  Settled c = IsSettled c.outgoing_messages

  enqueue-Settled :
      (c : Ctx) (dst t : ℕ) (msg : List ℕ) (b : Buffer (builders F))
      → Settled c
      → Settled (enqueue codec F aq tm c dst t msg b).1
  unfolding enqueue
  enqueue-Settled c dst t msg b v =
      elim (Option-cases (
        tm.check_deadline_overrun c.timer_context t (map (λ m. m.send_time) c.upcoming_messages))) [
          | inr (later, p) ↦ rw (enqueue, p) v
          | inl p ↦ go (insert c.outgoing_messages (Send.new F c.address dst t msg b)) refl p
        ]
    where
      go :
          (r : Result SetError (OutputMsgSet Msg))
          → insert c.outgoing_messages (Send.new F c.address dst t msg b) ≡ r
          → tm.check_deadline_overrun c.timer_context t (map (λ m. m.send_time) c.upcoming_messages)
            ≡ none
          → Settled (enqueue codec F aq tm c dst t msg b).1
      go (ok set) q p = rw (enqueue, p, q) (insert-pending c.outgoing_messages _ v q).0
      go (err e) q p = rw (enqueue, p, q) v
      go panicked q p = rw (enqueue, p, q) v

  send-Settled :
      (c : Ctx) (dst : ℕ) (msg : List ℕ) → Settled c → Settled (send codec F aq tm c dst msg).1
  unfolding send
  send-Settled c dst msg v = clock (tm.simulation_now c.timer_context).0 refl
    where
      served :
          (t : ℕ)
          → (tm.simulation_now c.timer_context).0 ≡ ok t
          → (r : Result PoolError (Buffer (builders F) × BufferPool (builders F)))
          → allocate_buffer (builders F) c.output_buffer_pool (length msg) ≡ r
          → Settled (send codec F aq tm c dst msg).1
      served t p (ok (b, pool)) q = rw (send, p, q) (enqueue-Settled _ dst t msg b v)
      served t p (err e) q = rw (send, p, q) v
      served t p panicked q = rw (send, p, q) v

      clock :
          (r : Result IoError ℕ)
          → (tm.simulation_now c.timer_context).0 ≡ r
          → Settled (send codec F aq tm c dst msg).1
      clock (ok t) p =
          served t p (allocate_buffer (builders F) c.output_buffer_pool (length msg)) refl
      clock (err e) p = rw (send, p) v
      clock panicked p = rw (send, p) v

  recv_outgoing :
      (c : Ctx) (capacity : ℕ)
      → (recv codec F aq tm c capacity).1.outgoing_messages ≡ c.outgoing_messages
  unfolding recv
  recv_outgoing c capacity = elim (Option-cases (pop aq c.input_queue)) [
    | inl p ↦ rw (recv, p) refl
    | inr ((d, q), p) ↦ elim (Option-cases (deserialize codec c.input_buffer_pool d)) [
      | inl f ↦ rw (recv, p, f) refl
      | inr (packet, f) ↦ rw (recv, p, f) refl
    ]
  ]

  start_outgoing : (c : Ctx) → (start codec F aq tm c).1.outgoing_messages ≡ c.outgoing_messages
  unfolding start
  start_outgoing c = ground arith

  send_packet_outgoing :
      (m : Msg) (t : ℕ) (c : Ctx)
      → (send_packet codec F aq tm m t c).0.outgoing_messages ≡ c.outgoing_messages
  unfolding send_packet
  send_packet_outgoing m t c = refl

  send_upcoming_outgoing :
      (current : ℕ) (ms : List Msg) (c : Ctx)
      → (send_upcoming codec F aq tm current ms c).1.outgoing_messages ≡ c.outgoing_messages
  unfolding send_upcoming
  send_upcoming_outgoing current [] c = refl
  send_upcoming_outgoing current (m ∷ ms) c = elim (Bool-cases (leb m.send_time current)) [
    | inr late ↦ rw late refl
    | inl in_time ↦
        let c₀ : Ctx = record c { upcoming_messages = ms } in
        let kept = send_packet_outgoing m m.send_time c₀ in
        elim (Bool-cases (send_packet codec F aq tm m m.send_time c₀).1) [
          | inr stop ↦ rw (in_time, stop) kept
          | inl go ↦
              rw (in_time, go)
                (send_upcoming_outgoing current ms (send_packet codec F aq tm m m.send_time c₀).0
                  ∙ kept)
        ]
  ]

  send_phase-Settled :
      (previous current : ℕ) (c : Ctx)
      → Settled c
      → Settled (send_phase codec F aq tm previous current c).1
  unfolding send_phase
  send_phase-Settled previous current c v =
      let body = send_outgoing codec F aq tm previous current in
      let r = drain body c.outgoing_messages c in
      let d = drain_lem body c.outgoing_messages c v in
      let drained : Ctx = record r.2 { outgoing_messages = r.1 } in
      let kept = send_upcoming_outgoing current drained.upcoming_messages drained in
      elim (Bool-cases r.0) [
        | inr stop ↦ rw (send_phase, stop) d.settled
        | inl go ↦
            elim (Bool-cases
              (send_upcoming codec F aq tm current drained.upcoming_messages drained).0) [
                | inr stop ↦ rw (send_phase, go, stop, kept) d.settled
                | inl go' ↦ rw (send_phase, go, go', kept) d.settled
              ]
      ]

  at_deadline-Settled : (c : Ctx) → Settled c → Settled (at_deadline codec F aq tm c).1
  unfolding at_deadline
  at_deadline-Settled c v =
      go (tm.simulation_previous_deadline c.timer_context) refl
        (tm.simulation_next_deadline c.timer_context) refl
    where
      go :
          (p : Result IoError ℕ)
          → tm.simulation_previous_deadline c.timer_context ≡ p
          → (q : Result IoError ℕ) → tm.simulation_next_deadline c.timer_context ≡ q
          → Settled (at_deadline codec F aq tm c).1
      go (err e) f q g = rw (at_deadline, f) v
      go panicked f q g = rw (at_deadline, f) v
      go (ok previous) f (err e) g = rw (at_deadline, f, g) v
      go (ok previous) f panicked g = rw (at_deadline, f, g) v
      go (ok previous) f (ok current) g =
          let s = send_phase-Settled previous current c v in
          elim (Bool-cases (send_phase codec F aq tm previous current c).0) [
            | inl on ↦
                rw
                  (
                    at_deadline,
                    f,
                    g,
                    on,
                    (receive_phase-Receives codec F aq tm
                        (send_phase codec F aq tm previous current c).1).outgoing,
                  )
                  s
            | inr stop ↦ rw (at_deadline, f, g, stop) s
          ]

  pub step-Settled : (c : Ctx) (o : Op) → Settled c → Settled (step c o)
  step-Settled c starts v = rw (start_outgoing c) v
  step-Settled c reaches_deadline v = at_deadline-Settled c v
  step-Settled c (sends dst msg) v = send-Settled c dst msg v
  step-Settled c (receives capacity) v = rw (recv_outgoing c capacity) v

  run-Settled_lem : (c : Ctx) (os : List Op) → Settled c → Settled (run c os)
  run-Settled_lem c [] v = v
  run-Settled_lem c (o ∷ os) v = run-Settled_lem (step c o) os (step-Settled c o v)

  -- After any sequence of starts, sends, receptions and deadlines, whatever their outcome, the set of
  -- outgoing messages is settled, where it was new at first: no slot is left busy without a message, and
  -- none holds a message that the drain does not see.
  pub run-Settled :
      (c : Ctx) (os : List Op) (n : ℕ) → c.outgoing_messages ≡ new Msg n → Settled (run c os)
  run-Settled c os n h = run-Settled_lem c os (rw h (new-IsSettled n))

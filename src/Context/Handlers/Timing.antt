-- ===== src/Context/Handlers/Timing.antt =====
-- A deadline that is handled leaves the timer alone, and the application is told the deadline that the
-- actor has set (lib.rs).
use tansiv.Base.{
  ℕ, ◌≡◌, refl, ap, ◌∙◌, sym, Bool-cases, inl, inr, List, [], ◌∷◌, ◌++◌, arith, leb, Result, ok,
  err, panicked,
}
use mathlib.Core.List.{append-nil}
use tansiv.Error.{IoError}
use tansiv.BufferPool
use tansiv.BufferPool.Builders.{Flatbuffers}
use tansiv.OutputMsgSet.{drain}
use tansiv.OutputMsgSet.Listing.{pending, IsSettled}
use tansiv.OutputMsgSet.Drain.{each, drain_lem}
use tansiv.InputQueue.{ArrayQueue}
use tansiv.Connector.{Codec, Handle}
use tansiv.Timer.Interface.{Timer}
use tansiv.Context.{
  Context, AfterDeadline, panic, OutputMsg, send_packet, send_outgoing, send_upcoming, send_phase,
  receive_phase, at_deadline,
}
use tansiv.Context.Receiving.{announced, receive_phase-Receives}

module _ (codec : Codec) (F : Flatbuffers) (aq : ArrayQueue Handle) (tm : Timer) where
  abbrev Ctx : Type 0
  Ctx = Context codec F aq tm

  abbrev Msg : Type 0
  Msg = OutputMsg codec F aq tm

  -- What the drain of the slice leaves alone.
  abbrev pub beside : Ctx → tm.T × List ℕ × List Msg × ℕ × ℕ
  beside c = (
    c.timer_context, c.deadline_calls, c.upcoming_messages, c.output_buffer_pool.buffer_size,
    c.output_buffer_pool.num_buffers,
  )

  send_outgoing-beside :
      (previous current : ℕ) (m : Msg) (c : Ctx)
      → beside (send_outgoing codec F aq tm previous current m c).0 ≡ beside c
  unfolding send_outgoing send_packet BufferPool.drop
  send_outgoing-beside previous current m c = ground arith

  each-beside :
      (previous current : ℕ) (ms : List Msg) (c : Ctx)
      → beside (each (send_outgoing codec F aq tm previous current) ms c).2 ≡ beside c
  each-beside previous current [] c = refl
  each-beside previous current (m ∷ ms) c =
      let one = send_outgoing-beside previous current m c in
      elim (Bool-cases (send_outgoing codec F aq tm previous current m c).1) [
        | inr stop ↦ rw (stop, each) one
        | inl go ↦
            rw (go, each)
              (each-beside previous current ms (send_outgoing codec F aq tm previous current m c).0
                ∙ one)
      ]

  pub drain-beside :
      (previous current : ℕ) (c : Ctx)
      → IsSettled c.outgoing_messages
      → beside (drain (send_outgoing codec F aq tm previous current) c.outgoing_messages c).2
        ≡ beside c
  drain-beside previous current c v =
      let d = drain_lem (send_outgoing codec F aq tm previous current) c.outgoing_messages c v in
      ap (λ x. beside x.2) d.outcome ∙ each-beside previous current (pending c.outgoing_messages) c

  -- What sending has no part in.
  abbrev rest_of : Ctx → tm.T × List ℕ × ℕ × ℕ
  rest_of c = (
    c.timer_context, c.deadline_calls, c.output_buffer_pool.buffer_size,
    c.output_buffer_pool.num_buffers,
  )

  send_upcoming-rest_of :
      (current : ℕ) (ms : List Msg) (c : Ctx)
      → rest_of (send_upcoming codec F aq tm current ms c).1 ≡ rest_of c
  unfolding send_upcoming send_packet BufferPool.drop
  send_upcoming-rest_of current [] c = refl
  send_upcoming-rest_of current (m ∷ ms) c = elim (Bool-cases (leb m.send_time current)) [
    | inr late ↦ rw late refl
    | inl in_time ↦
        let c₀ : Ctx = record c { upcoming_messages = ms } in
        elim (Bool-cases (send_packet codec F aq tm m m.send_time c₀).1) [
          | inr stop ↦ rw (in_time, stop) refl
          | inl go ↦
              rw (in_time, go)
                (send_upcoming-rest_of current ms (send_packet codec F aq tm m m.send_time c₀).0)
        ]
  ]

  send_phase-rest_of :
      (previous current : ℕ) (c : Ctx)
      → IsSettled c.outgoing_messages
      → rest_of (send_phase codec F aq tm previous current c).1 ≡ rest_of c
  unfolding send_phase
  send_phase-rest_of previous current c v =
      let body = send_outgoing codec F aq tm previous current in
      let r = drain body c.outgoing_messages c in
      let drained : Ctx = record r.2 { outgoing_messages = r.1 } in
      let first : rest_of drained ≡ rest_of c =
        ap (λ x. (x.0, x.1, x.3, x.4)) (drain-beside previous current c v) in
      let second = send_upcoming-rest_of current drained.upcoming_messages drained in
      elim (Bool-cases r.0) [
        | inr stop ↦ rw (send_phase, stop) first
        | inl go ↦
            elim (Bool-cases
              (send_upcoming codec F aq tm current drained.upcoming_messages drained).0) [
                | inr stop ↦ rw (send_phase, go, stop) (second ∙ first)
                | inl go' ↦ rw (send_phase, go, go') (second ∙ first)
              ]
      ]

  -- Whatever its outcome, a deadline leaves the timer as it is, and the number and size of the buffers;
  -- `deadline_callback` is called with the deadline that it has as its outcome, if it has one.
  pub record Untimed (c : Ctx) (r : AfterDeadline × Ctx) : Type 0 where
    pub timer : r.1.timer_context ≡ c.timer_context
    pub told : r.1.deadline_calls ≡ c.deadline_calls ++ announced codec F aq tm r.0
    pub buffer_size : r.1.output_buffer_pool.buffer_size ≡ c.output_buffer_pool.buffer_size
    pub num_buffers : r.1.output_buffer_pool.num_buffers ≡ c.output_buffer_pool.num_buffers

  -- Nothing happens.
  still : (c : Ctx) → Untimed c (panic, c)
  still c = record {
    timer = refl;
    told = sym (append-nil c.deadline_calls);
    buffer_size = refl;
    num_buffers = refl;
  }

  pub at_deadline-Untimed :
      (c : Ctx) → IsSettled c.outgoing_messages → Untimed c (at_deadline codec F aq tm c)
  unfolding at_deadline
  at_deadline-Untimed c v =
      go (tm.simulation_previous_deadline c.timer_context) refl
        (tm.simulation_next_deadline c.timer_context) refl
    where
      go :
          (p : Result IoError ℕ)
          → tm.simulation_previous_deadline c.timer_context ≡ p
          → (q : Result IoError ℕ) → tm.simulation_next_deadline c.timer_context ≡ q
          → Untimed c (at_deadline codec F aq tm c)
      go (err e) f q g = rw (at_deadline, f) (still c)
      go panicked f q g = rw (at_deadline, f) (still c)
      go (ok previous) f (err e) g = rw (at_deadline, f, g) (still c)
      go (ok previous) f panicked g = rw (at_deadline, f, g) (still c)
      go (ok previous) f (ok current) g =
          let s = send_phase-rest_of previous current c v in
          let c₁ = (send_phase codec F aq tm previous current c).1 in
          elim (Bool-cases (send_phase codec F aq tm previous current c).0) [
            | inl on ↦
                let r = receive_phase-Receives codec F aq tm c₁ in
                let calls = announced codec F aq tm (receive_phase codec F aq tm c₁).0 in
                rw (at_deadline, f, g, on)
                  (record {
                    timer = r.timer ∙ ap (λ x. x.0) s;
                    told = r.scheduled ∙ ap (λ x. x.1 ++ calls) s;
                    buffer_size = ap (λ p. p.buffer_size) r.output_pool ∙ ap (λ x. x.2) s;
                    num_buffers = ap (λ p. p.num_buffers) r.output_pool ∙ ap (λ x. x.3) s;
                  })
            | inr stop ↦
                rw (at_deadline, f, g, stop)
                  (record {
                    timer = ap (λ x. x.0) s;
                    told = ap (λ x. x.1) s ∙ sym (append-nil c.deadline_calls);
                    buffer_size = ap (λ x. x.2) s;
                    num_buffers = ap (λ x. x.3) s;
                  })
          ]

-- ===== src/Context/Run/Order.antt =====
-- The upcoming messages stay in the order of their send times, so that the loop over them, which stops
-- at the first that is not due, finds all that are (lib.rs, timer/qemukvm/mod.rs).
use tansiv.Base.{
  ℕ, ◌≡◌, refl, ap, Bool-cases, Option-cases, none, some, inl, inr, List, [], ◌∷◌, ◌++◌, map, leb,
  length, Result, ok, err, panicked,
}
use tansiv.Error.{IoError, PoolError, SetError}
use tansiv.BufferPool.{BufferPool, Buffer, allocate_buffer}
use tansiv.BufferPool.Builders.{Flatbuffers, builders}
use tansiv.OutputMsgSet.{OutputMsgSet, insert, drain}
use tansiv.OutputMsgSet.Listing.{IsSettled}
use tansiv.InputQueue.{ArrayQueue}
use tansiv.Connector.{Codec, Handle}
use tansiv.Connector.Send.{Writer}
use tansiv.Connector.Send
use tansiv.Timer.Interface.{Timer}
use tansiv.Timer.Kvm.Laws.{IsSorted}
use tansiv.Context.{
  Context, OutputMsg, send_packet, send_outgoing, send_upcoming, send_phase, at_deadline,
}
use tansiv.Context.Application.{enqueue, send}
use tansiv.Context.Handlers.Timing.{drain-beside}
use tansiv.Context.Receiving.{receive_phase-Receives}
use tansiv.Context.Run.{Op, step, run, step-Settled, starts, reaches_deadline, sends, receives}
use tansiv.Context.Run.Sound.{recv-SameOutput, start-SameOutput}

-- The stamp for a message that is kept back goes behind those of the queue.
abbrev pub Keeps : Timer → Type 0
Keeps tm =
    (t : tm.T) (send_time : ℕ) (stamps : List ℕ) (stamp : ℕ)
    → IsSorted stamps
    → tm.check_deadline_overrun t send_time stamps ≡ some stamp
    → IsSorted (stamps ++ stamp ∷ [])

module _ (codec : Codec) (F : Flatbuffers) (aq : ArrayQueue Handle) (tm : Timer) where
  abbrev Ctx : Type 0
  Ctx = Context codec F aq tm

  abbrev Msg : Type 0
  Msg = OutputMsg codec F aq tm

  abbrev pub stamps : List Msg → List ℕ
  stamps ms = map (λ m. m.send_time) ms

  abbrev pub InOrder : Ctx → Type 0
  InOrder c = IsSorted (stamps c.upcoming_messages)

  stamps-append : (ms : List Msg) (m : Msg) → stamps (ms ++ m ∷ []) ≡ stamps ms ++ m.send_time ∷ []
  stamps-append [] m = refl
  stamps-append (x ∷ ms) m = ap (λ l. x.send_time ∷ l) (stamps-append ms m)

  send_upcoming-InOrder :
      (current : ℕ) (ms : List Msg) (c : Ctx)
      → IsSorted (stamps ms)
      → InOrder (send_upcoming codec F aq tm current ms c).1
  unfolding send_upcoming send_packet
  send_upcoming-InOrder current [] c s = tt
  send_upcoming-InOrder current (m ∷ ms) c s = elim (Bool-cases (leb m.send_time current)) [
    | inr late ↦ rw late s
    | inl in_time ↦
        let c₀ : Ctx = record c { upcoming_messages = ms } in
        elim (Bool-cases (send_packet codec F aq tm m m.send_time c₀).1) [
          | inr stop ↦ rw (in_time, stop) s.1
          | inl go ↦
              rw (in_time, go)
                (send_upcoming-InOrder current ms (send_packet codec F aq tm m m.send_time c₀).0
                  s.1)
        ]
  ]

  send_phase-InOrder :
      (previous current : ℕ) (c : Ctx)
      → IsSettled c.outgoing_messages
      → InOrder c
      → InOrder (send_phase codec F aq tm previous current c).1
  unfolding send_phase
  send_phase-InOrder previous current c v s =
      let r = drain (send_outgoing codec F aq tm previous current) c.outgoing_messages c in
      let drained : Ctx = record r.2 { outgoing_messages = r.1 } in
      let first : InOrder drained =
        rw (ap (λ x. x.2) (drain-beside codec F aq tm previous current c v)) s in
      let second = send_upcoming-InOrder current drained.upcoming_messages drained first in
      elim (Bool-cases r.0) [
        | inr stop ↦ rw (send_phase, stop) first
        | inl go ↦
            elim (Bool-cases
              (send_upcoming codec F aq tm current drained.upcoming_messages drained).0) [
                | inr stop ↦ rw (send_phase, go, stop) second
                | inl go' ↦ rw (send_phase, go, go') second
              ]
      ]

  at_deadline-InOrder :
      (c : Ctx)
      → IsSettled c.outgoing_messages
      → InOrder c
      → InOrder (at_deadline codec F aq tm c).1
  unfolding at_deadline
  at_deadline-InOrder c v s =
      go (tm.simulation_previous_deadline c.timer_context) refl
        (tm.simulation_next_deadline c.timer_context) refl
    where
      go :
          (p : Result IoError ℕ)
          → tm.simulation_previous_deadline c.timer_context ≡ p
          → (q : Result IoError ℕ) → tm.simulation_next_deadline c.timer_context ≡ q
          → InOrder (at_deadline codec F aq tm c).1
      go (err e) f q g = rw (at_deadline, f) s
      go panicked f q g = rw (at_deadline, f) s
      go (ok previous) f (err e) g = rw (at_deadline, f, g) s
      go (ok previous) f panicked g = rw (at_deadline, f, g) s
      go (ok previous) f (ok current) g =
          let sent = send_phase-InOrder previous current c v s in
          let c₁ = (send_phase codec F aq tm previous current c).1 in
          elim (Bool-cases (send_phase codec F aq tm previous current c).0) [
            | inl on ↦
                rw (at_deadline, f, g, on, (receive_phase-Receives codec F aq tm c₁).upcoming) sent
            | inr stop ↦ rw (at_deadline, f, g, stop) sent
          ]

  module _ (keeps : Keeps tm) where
    enqueue-InOrder :
        (c : Ctx) (dst t : ℕ) (msg : List ℕ) (b : Buffer (builders F))
        → InOrder c
        → InOrder (enqueue codec F aq tm c dst t msg b).1
    unfolding enqueue Send.new
    enqueue-InOrder c dst t msg b s =
        elim (Option-cases
          (tm.check_deadline_overrun c.timer_context t (stamps c.upcoming_messages))) [
            | inr (later, p) ↦
                rw
                  (
                    enqueue,
                    p,
                    stamps-append c.upcoming_messages (Send.new F c.address dst later msg b),
                  )
                  (keeps c.timer_context t (stamps c.upcoming_messages) later s p)
            | inl p ↦ go (insert c.outgoing_messages (Send.new F c.address dst t msg b)) refl p
          ]
      where
        go :
            (r : Result SetError (OutputMsgSet Msg))
            → insert c.outgoing_messages (Send.new F c.address dst t msg b) ≡ r
            → tm.check_deadline_overrun c.timer_context t (stamps c.upcoming_messages) ≡ none
            → InOrder (enqueue codec F aq tm c dst t msg b).1
        go (ok set) q p = rw (enqueue, p, q) s
        go (err e) q p = rw (enqueue, p, q) s
        go panicked q p = rw (enqueue, p, q) s

    send-InOrder :
        (c : Ctx) (dst : ℕ) (msg : List ℕ) → InOrder c → InOrder (send codec F aq tm c dst msg).1
    unfolding send
    send-InOrder c dst msg s = clock (tm.simulation_now c.timer_context).0 refl
      where
        served :
            (t : ℕ)
            → (tm.simulation_now c.timer_context).0 ≡ ok t
            → (r : Result PoolError (Buffer (builders F) × BufferPool (builders F)))
            → allocate_buffer (builders F) c.output_buffer_pool (length msg) ≡ r
            → InOrder (send codec F aq tm c dst msg).1
        served t p (ok (b, pool)) q = rw (send, p, q) (enqueue-InOrder _ dst t msg b s)
        served t p (err e) q = rw (send, p, q) s
        served t p panicked q = rw (send, p, q) s

        clock :
            (r : Result IoError ℕ)
            → (tm.simulation_now c.timer_context).0 ≡ r
            → InOrder (send codec F aq tm c dst msg).1
        clock (ok t) p =
            served t p (allocate_buffer (builders F) c.output_buffer_pool (length msg)) refl
        clock (err e) p = rw (send, p) s
        clock panicked p = rw (send, p) s

    pub step-InOrder :
        (c : Ctx) (o : Op)
        → IsSettled c.outgoing_messages
        → InOrder c
        → InOrder (step codec F aq tm c o)
    step-InOrder c starts v s = rw (start-SameOutput codec F aq tm c).upcoming s
    step-InOrder c reaches_deadline v s = at_deadline-InOrder c v s
    step-InOrder c (sends dst msg) v s = send-InOrder c dst msg s
    step-InOrder c (receives capacity) v s =
        rw (recv-SameOutput codec F aq tm c capacity).upcoming s

    pub run-InOrder :
        (c : Ctx) (os : List Op)
        → IsSettled c.outgoing_messages
        → InOrder c
        → InOrder (run codec F aq tm c os)
    run-InOrder c [] v s = s
    run-InOrder c (o ∷ os) v s =
        run-InOrder (step codec F aq tm c o) os (step-Settled codec F aq tm c o v)
          (step-InOrder c o v s)

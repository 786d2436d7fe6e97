-- ===== src/Context/Run/Overruns.antt =====
-- Under KVM each message that overran a deadline is sent at the first deadline that reaches its stamp
-- (lib.rs, timer/qemukvm/mod.rs).
use tansiv.Base.{
  ℕ, ◌≤◌, ◌<◌, ◌≡◌, refl, ap, ◌∙◌, sym, Bool, Bool-cases, true, false, not, Option, inl, inr, List,
  [], ◌∷◌, ◌++◌, arith, leb, filter, All, Result, ok, err, panicked,
}
use tansiv.Base.Int.{ℤ}
use tansiv.Error.{IoError}
use tansiv.BufferPool.Builders.{Flatbuffers}
use tansiv.OutputMsgSet.Listing.{pending, IsSettled}
use tansiv.InputQueue.{ArrayQueue}
use tansiv.Connector.{Codec, Handle, Reader}
use tansiv.Connector.Send.{Frame, Writer}
use tansiv.Timer.Interface.{Timer, kvm}
use tansiv.Timer.Kvm
use tansiv.Timer.Kvm.{Float, Device, TimerContextInner}
use tansiv.Timer.Kvm.Laws.{IsSorted, check_deadline_overrun_cases}
use tansiv.Context.{
  Context, OutputMsg, AfterDeadline, next_deadline, end_simulation, panic, out_of_fuel, send_phase,
  at_deadline,
}
use tansiv.Context.Deadline.{due, not_due, frames, stamp, send_phase-Sent}
use tansiv.Context.Setup.{Config, new}
use tansiv.Context.Handlers.{kvm_handler, kvm_ends}
use tansiv.Context.Run.{Op, step, step-Settled}
use tansiv.Context.Run.Order.{Keeps, stamps, InOrder, step-InOrder}
use tansiv.Context.Run.Created.{new-Sound_lem, new-upcoming}

module _ (codec : Codec) (F : Flatbuffers) (aq : ArrayQueue Handle) (tm : Timer) where
  abbrev Msg : Type 0
  Msg = OutputMsg codec F aq tm

  abbrev pub is_due : ℕ → Msg → Bool
  is_due current m = leb m.send_time current

  -- Behind a message that is not due none is.
  none_due :
      (current t : ℕ) (ms : List Msg)
      → current < t
      → All (λ y. t ≤ y) (stamps codec F aq tm ms)
      → (filter (is_due current) ms ≡ []) × (filter (λ m. not (is_due current m)) ms ≡ ms)
  none_due current t [] lt a = (refl, refl)
  none_due current t (m ∷ ms) lt a =
      let (p, q) = none_due current t ms lt a.1 in
      let late : is_due current m ≡ false = ground arith in (rw late p, rw late (ap (λ l. m ∷ l) q))

  due-filter :
      (current : ℕ) (ms : List Msg)
      → IsSorted (stamps codec F aq tm ms)
      → (due codec F aq tm current ms ≡ filter (is_due current) ms)
        × (not_due codec F aq tm current ms ≡ filter (λ m. not (is_due current m)) ms)
  due-filter current [] s = (refl, refl)
  due-filter current (m ∷ ms) s = elim (Bool-cases (is_due current m)) [
    | inl in_time ↦
        let (p, q) = due-filter current ms s.1 in (rw in_time (ap (λ l. m ∷ l) p), rw in_time q)
    | inr late ↦
        let (p, q) = none_due current m.send_time ms (ground arith) s.0 in
        (rw late (sym p), rw late (ap (λ l. m ∷ l) (sym q)))
  ]

kvm-Keeps : (fl : Float) (dev : Device) (tsc_khz : Option ℤ) → Keeps (kvm fl dev tsc_khz)
kvm-Keeps fl dev tsc_khz t send_time stamps stamp s e =
    elim (check_deadline_overrun_cases fl t.0 send_time stamps s) [
      | inl (within, none) ↦ cc
      | inr (past, (u, q, le, sorted)) ↦ let same : u ≡ stamp = cc in rw (← same) sorted
    ]

module _ (codec : Codec) (F : Flatbuffers) (aq : ArrayQueue Handle) (fl : Float) (dev : Device)
    (tsc_khz : Option ℤ) where
  abbrev tm : Timer
  tm = kvm fl dev tsc_khz

  abbrev Ctx : Type 0
  Ctx = Context codec F aq tm

  -- An operation, where a deadline is the whole handler: the slice, and then the new deadline of the
  -- timer. The kernel module calls it with the guest's time-stamp counter, `guest_tsc`.
  abbrev pub kvm_step : Ctx → ℕ → Op → Ctx
  kvm_step c guest_tsc Op.reaches_deadline = (kvm_handler codec F aq fl dev tsc_khz guest_tsc c).1
  kvm_step c guest_tsc Op.starts = step codec F aq tm c Op.starts
  kvm_step c guest_tsc (Op.sends dst msg) = step codec F aq tm c (Op.sends dst msg)
  kvm_step c guest_tsc (Op.receives capacity) = step codec F aq tm c (Op.receives capacity)

  abbrev pub kvm_run : Ctx → List (ℕ × Op) → Ctx
  kvm_run c [] = c
  kvm_run c ((guest_tsc, o) ∷ os) = kvm_run (kvm_step c guest_tsc o) os

  -- The messages that wait are in order.
  abbrev Waiting : Ctx → Type 0
  Waiting c = IsSettled c.outgoing_messages × InOrder codec F aq tm c

  kvm_ends-Waiting :
      (after : AfterDeadline) (c : Ctx)
      → Waiting c
      → Waiting (kvm_ends codec F aq fl dev tsc_khz after c).1
  kvm_ends-Waiting (next_deadline d) c w =
      armed (Kvm.set_next_deadline fl dev c.timer_context.0 d c.timer_context.1).0 refl
    where
      armed :
          (r : Result IoError (TimerContextInner fl))
          → (Kvm.set_next_deadline fl dev c.timer_context.0 d c.timer_context.1).0 ≡ r
          → Waiting (kvm_ends codec F aq fl dev tsc_khz (next_deadline d) c).1
      armed (ok t) e = rw (kvm_ends, e) w
      armed (err x) e = rw (kvm_ends, e) w
      armed panicked e = rw (kvm_ends, e) w
  kvm_ends-Waiting end_simulation c w = w
  kvm_ends-Waiting panic c w = w
  kvm_ends-Waiting out_of_fuel c w = w

  step-Waiting : (c : Ctx) (o : Op) → Waiting c → Waiting (step codec F aq tm c o)
  step-Waiting c o w = (
    step-Settled codec F aq tm c o w.0,
    step-InOrder codec F aq tm (kvm-Keeps fl dev tsc_khz) c o w.0 w.1,
  )

  kvm_step-Waiting :
      (c : Ctx) (guest_tsc : ℕ) (o : Op) → Waiting c → Waiting (kvm_step c guest_tsc o)
  unfolding kvm_handler
  kvm_step-Waiting c guest_tsc Op.reaches_deadline w =
      let told : Ctx = record c {
        timer_context = (record c.timer_context.0 { guest_tsc = guest_tsc }, c.timer_context.1);
      } in
      kvm_ends-Waiting (at_deadline codec F aq tm told).0 (at_deadline codec F aq tm told).1
        (step-Waiting told Op.reaches_deadline (w.0, w.1))
  kvm_step-Waiting c guest_tsc Op.starts w = step-Waiting c Op.starts w
  kvm_step-Waiting c guest_tsc (Op.sends dst msg) w = step-Waiting c (Op.sends dst msg) w
  kvm_step-Waiting c guest_tsc (Op.receives capacity) w = step-Waiting c (Op.receives capacity) w

  kvm_run-Waiting : (c : Ctx) (os : List (ℕ × Op)) → Waiting c → Waiting (kvm_run c os)
  kvm_run-Waiting c [] w = w
  kvm_run-Waiting c ((guest_tsc, o) ∷ os) w =
      kvm_run-Waiting (kvm_step c guest_tsc o) os (kvm_step-Waiting c guest_tsc o w)

  -- What the actor is sent at a deadline: the messages of the slice, and every upcoming message that is
  -- due; the others are kept.
  pub record AllDue (previous current : ℕ) (c c' : Ctx) : Type 0 where
    pub written :
        c'.writer.sent
        ≡ c.writer.sent
          ++ (frames codec F aq tm (stamp codec F aq tm previous) (pending c.outgoing_messages)
              ++ (frames codec F aq tm
                    (λ m. m.send_time)
                    (filter (is_due codec F aq tm current) c.upcoming_messages)
                  ++ Frame.at_deadline ∷ []))
    pub later :
        c'.upcoming_messages
        ≡ filter (λ m. not (is_due codec F aq tm current m)) c.upcoming_messages

  -- Under KVM, after any sequence of starts, sends, receptions and calls of the deadline handler, each of
  -- which sets the next deadline of the timer, on a context that `Context::new` has made, a deadline
  -- whose sending part succeeds sends every upcoming message that is stamped at or before the current
  -- deadline, in their order behind the messages of the slice, and keeps exactly the others: the loop
  -- that stops at the first message that is not due is the same as a search of the whole queue.
  pub run-AllDue :
      (connect : List ℕ → Result IoError (Reader × Writer))
      (make_timer : Config → Result IoError tm.T) (register : tm.T → Result IoError tm.T)
      (config : Config) (c : Ctx) (os : List (ℕ × Op)) (previous current : ℕ)
      → new codec F aq tm connect make_timer register config ≡ ok c
      → (send_phase codec F aq tm previous current (kvm_run c os)).0 ≡ true
      → AllDue previous current
          (kvm_run c os)
          (send_phase codec F aq tm previous current (kvm_run c os)).1
  run-AllDue connect make_timer register config c os previous current e h =
      let v = new-Sound_lem codec F aq tm connect make_timer register config c e in
      let empty = new-upcoming codec F aq tm connect make_timer register config c e in
      let w = kvm_run-Waiting c os (v.output.settled, rw empty tt) in
      let sent = send_phase-Sent codec F aq tm previous current (kvm_run c os) w.0 h in
      let (p, q) = due-filter codec F aq tm current (kvm_run c os).upcoming_messages w.1 in
      record { written = rw (← p) sent.written; later = sent.later ∙ q }

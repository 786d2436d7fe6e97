-- ===== src/Timer/Process.antt =====
-- timer/process.rs: simulated time for a process, from the monotonic and the local clock. Times are
-- nanoseconds, dates are nanoseconds since the epoch. `AdjustedTime` is a `SeqLock` (SeqLock.antt);
-- here its reads and writes are whole. A panic ends the process, so the state beside it is not used.
pub mod Slices
pub mod Laws
use tansiv.Base.{
  ℕ, zero, suc, ◌+◌, Bool, true, false, not, Option, none, some, if◌then◌else◌, Result, ok, err,
  panicked,
}
use tansiv.Base.Int.{ℤ, pos, ◌+ℤ◌, ◌-ℤ◌, neg, to_ℕ?}
use tansiv.Duration.{checked_add, checked_sub, from_std}
use tansiv.Error.{IoError, other}
use tansiv.LibcTimer.{
  Sys, ClockId, monotonic, absolute_time, or_panic, gettime, create, settime, delete,
}

-- The offset that is added to a clock.
pub record AdjustedTime : Type 0 where
  pub offset : ℤ

abbrev pub get {ℓ} : {A : Type ℓ} → AdjustedTime → (ℤ → A) → A
get t f = f t.offset

abbrev pub adjust : AdjustedTime → (ℤ → ℤ) → AdjustedTime
adjust t f = record { offset = f t.offset }

-- `TimerContext::CLOCK`
abbrev pub clock : ClockId
clock = monotonic

module _ (sys : Sys) where
  open sys use {Kernel, Timer}

  pub record TimerContext : Type 0 where
    pub time_offset : ℤ
    pub application_time : AdjustedTime
    pub simulation_time : AdjustedTime
    pub timer_id : Timer
    pub at_deadline : Bool
    pub current_deadline : ℤ
    pub prev_deadline : ℕ
    pub next_deadline : ℕ
    pub prev_deadline_raw : ℕ
    pub next_deadline_raw : ℕ
    pub stopped : Bool

  -- `new`, after the signal handler has been set: `sigaction_ok` is its outcome.
  unfoldable pub new : ℤ → Bool → Kernel → Result IoError TimerContext × Kernel
  new config_time_offset sigaction_ok k = if sigaction_ok then created else (err other, k)
    where
      started : Timer → TimerContext
      started timer_id = record {
        time_offset = config_time_offset;
        application_time = record { offset = pos 0 };
        simulation_time = record { offset = pos 0 };
        timer_id = timer_id;
        at_deadline = true;
        current_deadline = config_time_offset;
        prev_deadline = 0;
        next_deadline = 0;
        prev_deadline_raw = 0;
        next_deadline_raw = 0;
        stopped = true;
      }

      created : Result IoError TimerContext × Kernel
      created =
          let (timer_id, k') = create sys clock none k in
          (elim timer_id [ ok t ↦ ok (started t) | err e ↦ err e | panicked ↦ panicked ], k')

  -- chrono's `Local::now()`, as a date.
  module _ (local_now : Kernel → ℤ × Kernel) where
    unfoldable pub application_now : TimerContext → Kernel → ℤ × Kernel
    application_now c k =
        let (now, k') = local_now k in
        if not c.at_deadline
        then (get c.application_time (λ offset. now +ℤ offset), k')
        else (c.current_deadline, k)

    unfoldable pub freeze_time : TimerContext → Kernel → Result IoError ℕ × TimerContext × Kernel
    unfolding application_now
    freeze_time c k =
        let (now, k₁) = gettime sys clock k in
        let (current, k₂) = application_now c k₁ in
        elim now [
          | ok n ↦ (ok n, record c { current_deadline = current; at_deadline = true }, k₂)
          | err e ↦ (panicked, c, k₁)
          | panicked ↦ (panicked, c, k₁)
        ]

    -- The new offsets of the two times: from the time spent frozen, or from the clocks at the start.
    unfoldable pub adjusted :
        TimerContext → Option ℕ → ℕ → Kernel → Result IoError TimerContext × Kernel
    adjusted c (some freeze_time) now k = elim (checked_sub now freeze_time) [
      | none ↦ (panicked, k)
      | some d ↦ elim (from_std d) [
        | none ↦ (panicked, k)
        | some elapsed_time ↦ (
          ok (record c {
            application_time = adjust c.application_time (λ offset. offset -ℤ elapsed_time);
            simulation_time = adjust c.simulation_time (λ offset. offset -ℤ elapsed_time);
          }),
          k,
        )
      ]
    ]
    adjusted c none now k =
        let (local, k') = local_now k in
        elim (from_std now) [
          | none ↦ (panicked, k')
          | some start ↦ (
            ok (record c {
              application_time = adjust c.application_time (λ _. c.current_deadline -ℤ local);
              simulation_time = adjust c.simulation_time (λ _. neg start);
            }),
            k',
          )
        ]

    -- The deadlines, the raw deadline and the offsets, at the clock's `now`; then time thaws.
    unfoldable pub thawed :
        TimerContext → Option ℕ → ℕ → ℕ → Kernel → Result IoError TimerContext × Kernel
    unfolding adjusted
    thawed c freeze_time deadline now k = elim (checked_sub deadline c.next_deadline) [
      | none ↦ (panicked, k)
      | some slice ↦ elim (checked_add now slice) [
        | none ↦ (panicked, k)
        | some raw ↦
            let moved : TimerContext = record c {
              prev_deadline = c.next_deadline;
              next_deadline = deadline;
              prev_deadline_raw = c.next_deadline_raw;
              next_deadline_raw = raw;
            } in
            let (c', k') = adjusted moved freeze_time now k in
            (
              elim c' [
                | ok t ↦ ok (record t { at_deadline = false })
                | err e ↦ err e
                | panicked ↦ panicked
              ],
              k',
            )
      ]
    ]

    -- The timer is set last, so that an expiry meets an up-to-date context.
    abbrev pub armed : TimerContext → Kernel → Result IoError (Unit {0}) × TimerContext × Kernel
    armed c k =
        let (set, k') = settime sys c.timer_id absolute_time none c.next_deadline_raw k in
        (elim set [ ok old ↦ ok tt | err e ↦ err e | panicked ↦ panicked ], c, k')

    unfoldable pub thaw_time_to_deadline :
        TimerContext → Option ℕ → ℕ → Kernel → Result IoError (Unit {0}) × TimerContext × Kernel
    unfolding thawed
    thaw_time_to_deadline c freeze_time deadline k =
        let (now, k₁) = gettime sys clock k in
        elim now [
          | err e ↦ (panicked, c, k₁)
          | panicked ↦ (panicked, c, k₁)
          | ok n ↦
              let (c', k₂) = thawed c freeze_time deadline n k₁ in
              elim c' [ ok t ↦ armed t k₂ | err e ↦ (err e, c, k₂) | panicked ↦ (panicked, c, k₂) ]
        ]

    unfoldable pub start : TimerContext → ℕ → Kernel → Result IoError ℤ × TimerContext × Kernel
    unfolding thaw_time_to_deadline
    start c deadline k =
        let (done, c', k') = thaw_time_to_deadline (record c { stopped = false }) none deadline k in
        elim done [
          | ok _ ↦ (ok c'.time_offset, c', k')
          | err e ↦ (err e, record c' { stopped = true }, k')
          | panicked ↦ (panicked, c', k')
        ]

  -- `while !stopped {}`: `loads` are the values that the successive loads give. The answer is the
  -- number of turns, or nothing if the loop has not ended within the fuel.
  unfoldable pub stop : ℕ → (ℕ → Bool) → ℕ → Option ℕ
  stop zero loads turn = none
  stop (suc fuel) loads turn = elim (loads turn) [
    | true ↦ some turn
    | false ↦ stop fuel loads (turn + 1)
  ]

  unfoldable pub simulation_now : TimerContext → Kernel → Result IoError ℕ × Kernel
  simulation_now c k =
      let (now, k') = gettime sys clock k in
      if not c.at_deadline
      then (
        elim now [
          | ok n ↦ elim (from_std n) [
            | none ↦ panicked
            | some t ↦ or_panic (get c.simulation_time (λ offset. to_ℕ? (t +ℤ offset)))
          ]
          | err e ↦ panicked
          | panicked ↦ panicked
        ],
        k',
      )
      else (panicked, k)

  unfoldable pub simulation_previous_deadline : TimerContext → Result IoError ℕ
  simulation_previous_deadline c = if c.at_deadline then ok c.prev_deadline else panicked

  unfoldable pub simulation_next_deadline : TimerContext → Result IoError ℕ
  simulation_next_deadline c = if c.at_deadline then ok c.next_deadline else panicked

  -- `Drop`
  unfoldable pub drop : TimerContext → Kernel → Kernel
  drop c k = delete sys c.timer_id k

-- A message is never stamped after the deadline: `check_deadline_overrun` of this timer.
unfoldable pub check_deadline_overrun {ℓ} : {A : Type ℓ} → ℕ → A → Option ℕ
check_deadline_overrun send_time upcoming_messages = none

-- The static `CONTEXT` behind `INIT`: the first context is kept, and any other is refused.
unfoldable pub register {ℓ} : {C : Type ℓ} → C → Option C → Result IoError (Unit {0}) × Option C
register context none = (ok tt, some context)
register context (some first) = (err other, some first)

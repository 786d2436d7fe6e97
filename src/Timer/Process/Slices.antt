-- ===== src/Timer/Process/Slices.antt =====
-- A whole run of deadlines (timer/process.rs): how late timers shift simulated time.
use tansiv.Base.{ℕ, ◌+◌, ◌≤◌, ◌≡◌, ap, Bool, true, none, some, ok}
use tansiv.Base.Int.{ℤ, pos, pos_part, neg_part, int_laws, eq_of_parts}
use tansiv.Duration.{chrono_max}
use tansiv.LibcTimer.{Sys, gettime}
use tansiv.Timer.Process.{TimerContext, clock, thawed, simulation_now}
use tansiv.Timer.Process.Laws.{simulation_at, simulation_now-eq, thawed-some, thawed-none}

module _ (sys : Sys) (local_now : sys.Kernel → ℤ × sys.Kernel) where
  -- What `freeze_time` leaves, at the date `date`.
  abbrev pub frozen : TimerContext sys → ℤ → TimerContext sys
  frozen c date = record c { current_deadline = date; at_deadline = true }

  -- `Run c lateness t`: from `c`, `start` and then any number of deadlines have led to `t`, all thawed
  -- with success. A timer that fires `late` after its raw deadline freezes time there, and the
  -- handler is `busy` until it thaws.
  pub data Run (c : TimerContext sys) : ℕ → TimerContext sys → Type 0 where
    started :
        (deadline n : ℕ) (k k' : sys.Kernel) {t : TimerContext sys}
        → thawed sys local_now c none deadline n k ≡ (ok t, k')
        → Run c 0 t
    handled :
        (late busy deadline lateness : ℕ) (date : ℤ) (k k' : sys.Kernel) {s t : TimerContext sys}
        → Run c lateness s
        → thawed sys local_now
            (frozen s date)
            (some (s.next_deadline_raw + late))
            deadline
            (s.next_deadline_raw + late + busy)
            k
          ≡ (ok t, k')
        → Run c (lateness + late) t

  Run-drift :
      {c t : TimerContext sys} {lateness : ℕ}
      → c.next_deadline ≡ 0
      → Run c lateness t
      → (simulation_at sys t t.next_deadline_raw ≡ pos (t.next_deadline + lateness))
        × (t.at_deadline ≡ Bool.false)
  Run-drift {c} z (started deadline n k k' h) =
      let (v, off, _) = thawed-none sys local_now c deadline n k k' h in
      (eq_of_parts _ _ (rw (off, v.raw, v.next, z) (omega int_laws)), v.flows)
  Run-drift z (handled late busy deadline lateness date k k' {s} r h) =
      let (at, _) = Run-drift z r in
      let (v, le, off, _) =
        thawed-some sys local_now (frozen s date) (s.next_deadline_raw + late) deadline
          (s.next_deadline_raw + late + busy) k k' h in
      (
        eq_of_parts _ _
            (rw (off, v.raw, v.next) (omega (int_laws, ap pos_part at, ap neg_part at, v.ordered))),
        v.flows,
      )

  -- The lateness of the timers adds up: when the timer of a run fires `late`, simulated time is past
  -- the deadline by `late` and by all the lateness before it.
  pub expiry-simulation_now :
      {c t : TimerContext sys} {lateness : ℕ} (late : ℕ) (k k' : sys.Kernel)
      → c.next_deadline ≡ 0
      → Run c lateness t
      → gettime sys clock k ≡ (ok (t.next_deadline_raw + late), k')
      → t.next_deadline_raw + late ≤ chrono_max
      → simulation_now sys t k ≡ (ok (t.next_deadline + (lateness + late)), k')
  expiry-simulation_now {c} {t} {lateness} late k k' z r reading small =
      let (at, flows) = Run-drift z r in
      simulation_now-eq sys t k k' _ _ flows reading small
        (eq_of_parts _ _ (omega (int_laws, ap pos_part at, ap neg_part at)))

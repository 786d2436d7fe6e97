-- ===== src/Timer/Qemu/Laws.antt =====
-- Simulated time over Qemu's clock starts at 0 and meets every deadline exactly (timer/qemu/mod.rs).
use tansiv.Base.{ℕ, ◌+◌, ◌^◌, ◌<◌, ◌≡◌, refl, arith, ok}
use tansiv.Base.Int.{ℤ, pos, ◌-ℤ◌, int_laws, eq_of_parts}
use tansiv.Timer.Qemu.{Qemu, TimerContextInner, set_next_deadline, start, stop, simulation_now}

pos-sub : (a b c : ℕ) → a + b ≡ c → pos c -ℤ pos b ≡ pos a
pos-sub a b c h = eq_of_parts _ _ (omega int_laws)

module _ (q : Qemu) {C : Type 0} where
  -- `start` records the clock's time as the offset, makes the deadline the next one, and takes one
  -- reference for Qemu's timer, which `stop` gives back.
  pub start-stop :
      (c : TimerContextInner C) (deadline : ℕ) (h h' : q.Host) {offset : ℤ}
      {c' : TimerContextInner C}
      → start q c deadline h ≡ (ok (offset, c'), h')
      → (c'.offset ≡ offset)
        × (offset ≡ (q.qemu_clock_get_ns (q.timer_init_full h)).0)
        × (c'.prev_deadline ≡ c.next_deadline)
        × (c'.next_deadline ≡ deadline)
        × ((g : q.Host) → (stop q c' g).0.references ≡ c.references)
  unfolding start stop
  start-stop c deadline h h' e =
      (ground arith, ground arith, ground arith, ground arith, λ g. ground arith)

  -- The timer is set to the clock's time at which simulated time is the deadline, if that fits the
  -- 63 bits of Qemu's time. However late the timer fires, by `late`, simulated time is then the
  -- deadline and `late`: nothing is carried over from the deadlines before.
  pub deadline-simulation_now :
      (c : TimerContextInner C) (deadline o late : ℕ) (h h' g g' : q.Host)
      {c' : TimerContextInner C}
      → c.offset ≡ pos o
      → o + deadline < 2 ^ 63
      → set_next_deadline q c deadline h ≡ (ok c', h')
      → q.qemu_clock_get_ns g ≡ (pos (o + deadline + late), g')
      → (h' ≡ q.timer_mod (pos (o + deadline)) h)
        × (simulation_now q c' g ≡ (ok (deadline + late), g'))
  unfolding set_next_deadline simulation_now
  deadline-simulation_now c deadline o late h h' g g' {c'} at small e reading =
      let kept : c'.offset ≡ pos o = ground arith in
      (
        ground arith,
        rw (reading, kept, pos-sub (deadline + late) o (o + deadline + late) (omega arith)) refl,
      )

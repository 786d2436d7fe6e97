-- ===== src/Tests/Times.antt =====
-- Clocks and timers at concrete inputs.
use tansiv.Base.{
  ℕ, ◌+◌, ◌≡◌, ◌≤◌, ◌<◌, ◌-◌, ◌⊎◌, refl, true, false, none, some, [], ◌∷◌, ◌++◌, arith, ok,
}
use tansiv.Base.Int.{pos, negsuc, ◌+ℤ◌, ◌-ℤ◌, neg}
use tansiv.LibcTimer.{timespec_to_duration, gettime}
use tansiv.Timer.Kvm.{
  TimerContextInner, check_deadline_overrun, set_next_deadline, vm_time, slice_length, u64,
}
use tansiv.Timer.Kvm
use tansiv.Timer.Kvm.Laws.{IsSorted, check_deadline_overrun_cases, set_next_deadline-slice_length}
use tansiv.Timer.Process.{TimerContext, thawed, adjusted, simulation_now}
use tansiv.Timer.Process.Laws.{thaw-simulation_now}
use tansiv.Timer.Process.Slices.{started, expiry-simulation_now}
use tansiv.Timer.Qemu
use tansiv.Timer.Qemu.Laws.{start-stop}
use tansiv.Tests.Fixtures.{sys, local_now, vm, numbers, device}

abbrev kvm_timer : Kvm.TimerContextInner numbers
kvm_timer = record {
  prev_deadline = 100;
  next_deadline = 200;
  guest_tsc = 0;
  vmx_timer_value = 190;
  tsc_freq = 1;
  references = 1;
}

check_deadline_overrun_cases_example :
    ((250 ≤ 200) × (check_deadline_overrun numbers kvm_timer 250 (210 ∷ 260 ∷ []) ≡ none))
    ⊎ ((200 < 250)
        × ((t : ℕ) × (check_deadline_overrun numbers kvm_timer 250 (210 ∷ 260 ∷ []) ≡ some t)
            × (250 ≤ t)
            × IsSorted ((210 ∷ 260 ∷ []) ++ t ∷ [])))
check_deadline_overrun_cases_example =
    check_deadline_overrun_cases numbers kvm_timer 250 (210 ∷ 260 ∷ [])
      ((omega arith, tt), (tt, tt))

set_next_deadline-slice_length_example :
    let c' : Kvm.TimerContextInner numbers = record kvm_timer {
      prev_deadline = 200;
      next_deadline = 350;
      vmx_timer_value = 157;
    } in
    (c'.prev_deadline ≡ 200) × (c'.next_deadline ≡ 350) × (200 + slice_length numbers c' ≡ 350)
unfolding Kvm.set_next_deadline
set_next_deadline-slice_length_example =
    set_next_deadline-slice_length numbers device kvm_timer 350 7 7 (omega arith) refl

-- A context before its start, at the date 50.
abbrev unstarted : TimerContext sys
unstarted = record {
  time_offset = pos 50;
  application_time = record { offset = pos 0 };
  simulation_time = record { offset = pos 0 };
  timer_id = 1;
  at_deadline = true;
  current_deadline = pos 50;
  prev_deadline = 0;
  next_deadline = 0;
  prev_deadline_raw = 0;
  next_deadline_raw = 0;
  stopped = false;
}

-- The context after a start at the clock's 40, with the first deadline at 100.
abbrev running : TimerContext sys
running = record unstarted {
  application_time = record { offset = negsuc 989 };
  simulation_time = record { offset = negsuc 39 };
  at_deadline = false;
  next_deadline = 100;
  next_deadline_raw = 140;
}

expiry-simulation_now_example : simulation_now sys running 145 ≡ (ok (100 + (0 + 5)), 145)
unfolding thawed adjusted ◌+ℤ◌ ◌-ℤ◌ neg gettime timespec_to_duration
expiry-simulation_now_example =
    expiry-simulation_now sys local_now {c = unstarted} {t = running} {lateness = 0} 5 145 145 refl
      (started 100 40 40 40 refl) refl (omega arith)

-- Time was frozen at the clock's 145, and thaws at 150 to the deadline at 300.
abbrev frozen_at : TimerContext sys
frozen_at = record running { at_deadline = true; current_deadline = pos 155 }

abbrev thawed_at : TimerContext sys
thawed_at = record frozen_at {
  application_time = record { offset = negsuc 994 };
  simulation_time = record { offset = negsuc 44 };
  at_deadline = false;
  prev_deadline = 100;
  next_deadline = 300;
  prev_deadline_raw = 140;
  next_deadline_raw = 350;
}

thaw-simulation_now_example : simulation_now sys thawed_at 170 ≡ (ok (105 + (170 - 150)), 170)
unfolding thawed adjusted ◌+ℤ◌ ◌-ℤ◌ gettime timespec_to_duration
thaw-simulation_now_example =
    thaw-simulation_now sys local_now frozen_at 145 300 150 170 105 150 150 170 170 {t = thawed_at}
      refl refl refl (omega arith) (omega arith)

abbrev vm_context : Qemu.TimerContextInner ℕ
vm_context = record {
  context = some 1;
  offset = pos 0;
  prev_deadline = 0;
  next_deadline = 0;
  references = 1;
}

abbrev vm_started : Qemu.TimerContextInner ℕ
vm_started = record vm_context { offset = pos 60; next_deadline = 100; references = 2 }

start-stop_example :
    (vm_started.offset ≡ pos 60)
    × (pos 60 ≡ (vm.qemu_clock_get_ns (vm.timer_init_full 60)).0)
    × (vm_started.prev_deadline ≡ 0)
    × (vm_started.next_deadline ≡ 100)
    × ((g : ℕ) → (Qemu.stop vm vm_started g).0.references ≡ 1)
unfolding Qemu.start Qemu.set_next_deadline
start-stop_example = start-stop vm vm_context 100 60 60 {offset = pos 60} {c' = vm_started} refl

-- ===== src/Timer/Interface.antt =====
-- What the rest of the library asks of a timer (timer/mod.rs), and the three timers in that form.
use tansiv.Base.{ℕ, Bool, Option, none, some, List, Result, ok, err, panicked}
use tansiv.Base.Int.{ℤ}
use tansiv.Error.{IoError}
use tansiv.LibcTimer.{Sys}
use tansiv.Timer.Process
use tansiv.Timer.Process.{TimerContext}
use tansiv.Timer.Qemu
use tansiv.Timer.Qemu.{Qemu, TimerContextInner}
use tansiv.Timer.Kvm
use tansiv.Timer.Kvm.{Float, Device}

-- `T` is the state of the timer and of what lies behind it. The list is that of the send times of
-- the upcoming messages. `stop` waits for the handler of a process: it takes the values that it loads
-- and the number of loads that it may make, and ends in nothing if they are not enough.
pub record Timer : Type 1 where
  pub T : Type 0
  pub simulation_now : T → Result IoError ℕ × T
  pub application_now : T → Result IoError ℤ × T
  pub simulation_previous_deadline : T → Result IoError ℕ
  pub simulation_next_deadline : T → Result IoError ℕ
  pub check_deadline_overrun : T → ℕ → List ℕ → Option ℕ
  pub start : T → ℕ → Result IoError ℤ × T
  pub stop : (ℕ → Bool) → ℕ → T → Option T

abbrev pub process : (sys : Sys) → (sys.Kernel → ℤ × sys.Kernel) → Timer
process sys local_now = record {
  T = TimerContext sys × sys.Kernel;
  simulation_now = λ t. let (r, k) = Process.simulation_now sys t.0 t.1 in (r, (t.0, k));
  application_now =
      λ t. let (d, k) = Process.application_now sys local_now t.0 t.1 in (ok d, (t.0, k));
  simulation_previous_deadline = λ t. Process.simulation_previous_deadline sys t.0;
  simulation_next_deadline = λ t. Process.simulation_next_deadline sys t.0;
  check_deadline_overrun = λ t s l. Process.check_deadline_overrun s l;
  start = λ t d. let (r, c, k) = Process.start sys local_now t.0 d t.1 in (r, (c, k));
  stop = λ loads fuel t. elim (Process.stop sys fuel loads 0) [ none ↦ none | some n ↦ some t ];
}

-- `application_now` is `unimplemented!()` for the timers of virtual machines.
abbrev qemu_started :
    {C H : Type 0}
    → TimerContextInner C
    → Result IoError (ℤ × TimerContextInner C) × H
    → Result IoError ℤ × (TimerContextInner C × H)
qemu_started c (ok (o, c'), h) = (ok o, (c', h))
qemu_started c (err e, h) = (err e, (c, h))
qemu_started c (panicked, h) = (panicked, (c, h))

abbrev pub qemu : Qemu → Type 0 → Timer
qemu q C = record {
  T = TimerContextInner C × q.Host;
  simulation_now = λ t. let (r, h) = Qemu.simulation_now q t.0 t.1 in (r, (t.0, h));
  application_now = λ t. (panicked, t);
  simulation_previous_deadline = λ t. ok (Qemu.simulation_previous_deadline t.0);
  simulation_next_deadline = λ t. ok (Qemu.simulation_next_deadline t.0);
  check_deadline_overrun = λ t s l. Qemu.check_deadline_overrun s l;
  start = λ t d. qemu_started t.0 (Qemu.start q t.0 d t.1);
  stop = λ loads fuel t. some (Qemu.stop q t.0 t.1);
}

abbrev kvm_started :
    {fl : Float} {S : Type 0}
    → Kvm.TimerContextInner fl
    → Result IoError (ℤ × Kvm.TimerContextInner fl) × S
    → Result IoError ℤ × (Kvm.TimerContextInner fl × S)
kvm_started c (ok (o, c'), h) = (ok o, (c', h))
kvm_started c (err e, h) = (err e, (c, h))
kvm_started c (panicked, h) = (panicked, (c, h))

abbrev pub kvm : (fl : Float) → Device → Option ℤ → Timer
kvm fl dev tsc_khz = record {
  T = Kvm.TimerContextInner fl × dev.State;
  simulation_now = λ t. let (n, k) = Kvm.simulation_now fl dev t.0 t.1 in (ok n, (t.0, k));
  application_now = λ t. (panicked, t);
  simulation_previous_deadline = λ t. ok (Kvm.simulation_previous_deadline fl t.0);
  simulation_next_deadline = λ t. ok (Kvm.simulation_next_deadline fl t.0);
  check_deadline_overrun = λ t s l. Kvm.check_deadline_overrun fl t.0 s l;
  start = λ t d. kvm_started t.0 (Kvm.start fl dev tsc_khz t.0 d t.1);
  stop = λ loads fuel t. some (Kvm.stop fl dev t.0 t.1);
}

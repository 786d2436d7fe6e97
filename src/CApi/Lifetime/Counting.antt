-- ===== src/CApi/Lifetime/Counting.antt =====
-- The references that the timers of Qemu and KVM count (timer/qemu/mod.rs, timer/qemukvm/mod.rs).
use tansiv.Base.{ℕ, ◌+◌, ◌-◌, ◌≡◌, refl, Bool, Option, some, arith}
use tansiv.Base.Int.{ℤ}
use tansiv.Timer.Qemu
use tansiv.Timer.Qemu.{Qemu, TimerContextInner}
use tansiv.Timer.Kvm
use tansiv.Timer.Kvm.{Float, Device}
use tansiv.Timer.Interface.{Timer, qemu, kvm}
use tansiv.CApi.Lifetime.{Counted, taken}

module _ (q : Qemu) (C : Type 0) where
  pub qemu_simulation_now :
      (t : TimerContextInner C × q.Host)
      → ((qemu q C).simulation_now t).1.0.references ≡ t.0.references
  unfolding Qemu.simulation_now
  qemu_simulation_now t = refl

  pub qemu_start :
      (t : TimerContextInner C × q.Host) (d : ℕ)
      → ((qemu q C).start t d).1.0.references ≡ t.0.references + taken 1 ((qemu q C).start t d).0
  unfolding Qemu.start Qemu.set_next_deadline
  qemu_start (c, h) d = ground arith

  pub qemu_stopped :
      (loads : ℕ → Bool) (fuel : ℕ) (t : TimerContextInner C × q.Host)
      → (t' : TimerContextInner C × q.Host) × ((qemu q C).stop loads fuel t ≡ some t')
        × (t'.0.references ≡ t.0.references - 1)
  unfolding Qemu.stop
  qemu_stopped loads fuel t = (_, refl, refl)

  -- `start` takes a reference for Qemu's timer.
  abbrev pub qemu_counted : Counted (qemu q C)
  qemu_counted = record {
    references = λ t. t.0.references;
    takes = 1;
    drop_reference = λ t. (record t.0 { references = t.0.references - 1 }, t.1);
    references-drop = λ t. refl;
    references-simulation_now = qemu_simulation_now;
    references-start = qemu_start;
    stopped = qemu_stopped;
  }

module _ (fl : Float) (dev : Device) (tsc_khz : Option ℤ) where
  abbrev pub Tm : Timer
  Tm = kvm fl dev tsc_khz

  pub kvm_simulation_now : (t : Tm.T) → (Tm.simulation_now t).1.0.references ≡ t.0.references
  unfolding Kvm.simulation_now
  kvm_simulation_now t = refl

  pub kvm_start :
      (t : Tm.T) (d : ℕ) → (Tm.start t d).1.0.references ≡ t.0.references + taken 0 (Tm.start t d).0
  unfolding Kvm.start Kvm.set_next_deadline
  kvm_start (c, h) d = ground arith

  pub kvm_stopped :
      (loads : ℕ → Bool) (fuel : ℕ) (t : Tm.T)
      → (t' : Tm.T) × (Tm.stop loads fuel t ≡ some t') × (t'.0.references ≡ t.0.references - 1)
  unfolding Kvm.stop
  kvm_stopped loads fuel t = (_, refl, refl)

  -- `start` takes none.
  abbrev pub kvm_counted : Counted Tm
  kvm_counted = record {
    references = λ t. t.0.references;
    takes = 0;
    drop_reference = λ t. (record t.0 { references = t.0.references - 1 }, t.1);
    references-drop = λ t. refl;
    references-simulation_now = kvm_simulation_now;
    references-start = kvm_start;
    stopped = kvm_stopped;
  }

-- ===== src/Context/Handlers.antt =====
-- The deadline handlers of the three timers: what runs when the timer of a deadline fires
-- (timer/process.rs, timer/qemu/mod.rs, timer/qemukvm/mod.rs).
pub mod Timing
pub mod Resuming
pub mod Slices
use tansiv.Base.{ℕ, true, Option, none, some, Result, ok, err, panicked}
use tansiv.Base.Int.{ℤ}
use tansiv.Error.{IoError}
use tansiv.BufferPool.Builders.{Flatbuffers}
use tansiv.InputQueue.{ArrayQueue}
use tansiv.Connector.{Codec, Handle}
use tansiv.LibcTimer.{Sys}
use tansiv.Timer.Process
use tansiv.Timer.Qemu
use tansiv.Timer.Qemu.{Qemu}
use tansiv.Timer.Kvm
use tansiv.Timer.Kvm.{Float, Device}
use tansiv.Timer.Interface.{process, qemu, kvm}
use tansiv.Context.{
  Context, AfterDeadline, at_deadline, next_deadline, end_simulation, panic, out_of_fuel,
}

module _ (codec : Codec) (F : Flatbuffers) (aq : ArrayQueue Handle) where
  module _ (sys : Sys) (local_now : sys.Kernel → ℤ × sys.Kernel) where
    abbrev ProcessCtx : Type 0
    ProcessCtx = Context codec F aq (process sys local_now)

    -- What the handler of a process does once the slice has been handled: time goes on to the new
    -- deadline, or it stays frozen and `stopped` is set.
    abbrev pub process_ends :
        ℕ → AfterDeadline → ProcessCtx → Result IoError (Unit {0}) × ProcessCtx
    process_ends freeze_time (next_deadline deadline) c =
        let (done, t, k) =
          Process.thaw_time_to_deadline sys local_now c.timer_context.0 (some freeze_time) deadline
            c.timer_context.1 in
        (
          elim done [ ok _ ↦ ok tt | err e ↦ panicked | panicked ↦ panicked ],
          record c { timer_context = (t, k) },
        )
    process_ends freeze_time end_simulation c = (
      ok tt,
      record c { timer_context = (record c.timer_context.0 { stopped = true }, c.timer_context.1) },
    )
    process_ends freeze_time panic c = (panicked, c)
    process_ends freeze_time out_of_fuel c = (panicked, c)

    -- The handler of the signal, where the context still lives.
    unfoldable pub process_handler : ProcessCtx → Result IoError (Unit {0}) × ProcessCtx
    process_handler c =
        let (freeze_time, t, k) =
          Process.freeze_time sys local_now c.timer_context.0 c.timer_context.1 in
        let frozen : ProcessCtx = record c { timer_context = (t, k) } in
        let (after, c') = at_deadline codec F aq (process sys local_now) frozen in
        elim freeze_time [
          | err e ↦ (panicked, frozen)
          | panicked ↦ (panicked, frozen)
          | ok n ↦ process_ends n after c'
        ]

  module _ (q : Qemu) (C : Type 0) where
    abbrev QemuCtx : Type 0
    QemuCtx = Context codec F aq (qemu q C)

    -- A deadline that cannot be set is a panic, and the end of the simulation is nothing.
    abbrev pub qemu_ends : AfterDeadline → QemuCtx → Result IoError (Unit {0}) × QemuCtx
    qemu_ends (next_deadline deadline) c =
        let (done, h) = Qemu.set_next_deadline q c.timer_context.0 deadline c.timer_context.1 in
        elim done [
          | ok t ↦ (ok tt, record c { timer_context = (t, h) })
          | err e ↦ (panicked, record c { timer_context = (c.timer_context.0, h) })
          | panicked ↦ (panicked, record c { timer_context = (c.timer_context.0, h) })
        ]
    qemu_ends end_simulation c = (ok tt, c)
    qemu_ends panic c = (panicked, c)
    qemu_ends out_of_fuel c = (panicked, c)

    unfoldable pub qemu_handler : QemuCtx → Result IoError (Unit {0}) × QemuCtx
    qemu_handler c = let (after, c') = at_deadline codec F aq (qemu q C) c in qemu_ends after c'

  module _ (fl : Float) (dev : Device) (tsc_khz : Option ℤ) where
    abbrev KvmCtx : Type 0
    KvmCtx = Context codec F aq (kvm fl dev tsc_khz)

    -- The answer is the length of the next slice; the end of the simulation is a panic.
    abbrev pub kvm_ends : AfterDeadline → KvmCtx → Result IoError ℕ × KvmCtx
    kvm_ends (next_deadline deadline) c =
        let (done, k) = Kvm.set_next_deadline fl dev c.timer_context.0 deadline c.timer_context.1 in
        elim done [
          | ok t ↦ (ok (Kvm.slice_length fl t), record c { timer_context = (t, k) })
          | err e ↦ (panicked, record c { timer_context = (c.timer_context.0, k) })
          | panicked ↦ (panicked, record c { timer_context = (c.timer_context.0, k) })
        ]
    kvm_ends end_simulation c = (panicked, c)
    kvm_ends panic c = (panicked, c)
    kvm_ends out_of_fuel c = (panicked, c)

    -- The kernel module calls it with the guest's time-stamp counter.
    unfoldable pub kvm_handler : ℕ → KvmCtx → Result IoError ℕ × KvmCtx
    kvm_handler guest_tsc c =
        let t = record c.timer_context.0 { guest_tsc = guest_tsc } in
        let (after, c') =
          at_deadline codec F aq (kvm fl dev tsc_khz)
            (record c { timer_context = (t, c.timer_context.1) }) in
        kvm_ends after c'

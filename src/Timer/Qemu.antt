-- ===== src/Timer/Qemu.antt =====
-- timer/qemu/mod.rs: simulated time from Qemu's virtual clock. Qemu's functions are the parameter
-- `Qemu`; `Host` stands for the state behind them.
pub mod Laws
use tansiv.Base.{ℕ, ◌+◌, ◌-◌, ◌%◌, ◌^◌, Option, none, some, Result, ok, panicked}
use tansiv.Base.Int.{ℤ, pos, ◌-ℤ◌, to_ℕ?}
use tansiv.Duration.{checked_add}
use tansiv.Error.{IoError}
use tansiv.LibcTimer.{as_i64, or_panic}

pub record Qemu : Type 1 where
  pub Host : Type 0
  pub qemu_clock_get_ns : Host → ℤ × Host
  pub timer_init_full : Host → Host
  pub timer_mod : ℤ → Host → Host
  pub timer_del : Host → Host
  pub timer_deinit : Host → Host

-- `references` counts the `Arc` references: the owner's, and the one that Qemu's timer holds.
pub record TimerContextInner (C : Type 0) : Type 0 where
  pub context : Option C
  pub offset : ℤ
  pub prev_deadline : ℕ
  pub next_deadline : ℕ
  pub references : ℕ

unfoldable pub new : (C : Type 0) → TimerContextInner C
new C = record {
  context = none;
  offset = pos 0;
  prev_deadline = 0;
  next_deadline = 0;
  references = 1;
}

unfoldable pub check_deadline_overrun {ℓ} : {A : Type ℓ} → ℕ → A → Option ℕ
check_deadline_overrun send_time upcoming_messages = none

module _ {C : Type 0} where
  unfoldable pub register : TimerContextInner C → C → TimerContextInner C
  register c context = record c { context = some context }

  unfoldable pub simulation_previous_deadline : TimerContextInner C → ℕ
  simulation_previous_deadline c = c.prev_deadline

  unfoldable pub simulation_next_deadline : TimerContextInner C → ℕ
  simulation_next_deadline c = c.next_deadline

module _ (q : Qemu) {C : Type 0} where
  open q use {Host}

  unfoldable pub set_next_deadline :
      TimerContextInner C → ℕ → Host → Result IoError (TimerContextInner C) × Host
  set_next_deadline c deadline h =
      let moved : TimerContextInner C = record c {
        prev_deadline = c.next_deadline;
        next_deadline = deadline;
      } in
      elim (to_ℕ? c.offset) [
        | none ↦ (panicked, h)
        | some offset ↦ elim (checked_add offset deadline) [
          | none ↦ (panicked, h)
          | some d ↦ (ok moved, q.timer_mod (as_i64 (d % 2 ^ 64)) h)
        ]
      ]

  unfoldable pub start :
      TimerContextInner C → ℕ → Host → Result IoError (ℤ × TimerContextInner C) × Host
  unfolding set_next_deadline
  start c deadline h =
      let (vm_time, h₁) = q.qemu_clock_get_ns (q.timer_init_full h) in
      let shared : TimerContextInner C = record c {
        references = c.references + 1;
        offset = vm_time;
      } in
      let (done, h₂) = set_next_deadline shared deadline h₁ in
      elim done [
        | ok c' ↦ (ok (vm_time, c'), h₂)
        | Result.err e ↦ (panicked, h₂)
        | panicked ↦ (panicked, h₂)
      ]

  unfoldable pub stop : TimerContextInner C → Host → TimerContextInner C × Host
  stop c h = (record c { references = c.references - 1 }, q.timer_deinit (q.timer_del h))

  unfoldable pub simulation_now : TimerContextInner C → Host → Result IoError ℕ × Host
  simulation_now c h =
      let (vm_time, h') = q.qemu_clock_get_ns h in (or_panic (to_ℕ? (vm_time -ℤ c.offset)), h')

-- ===== src/Timer/Kvm.antt =====
-- timer/qemukvm/mod.rs: simulated time from the time-stamp counter of a KVM guest. The kernel module
-- behind the `ioctl` calls is the parameter `Device`, the counter is read through it, and `f64` is
-- the parameter `Float`. Arithmetic on `u64` wraps, as in a release build.
pub mod Laws
use tansiv.Base.{
  ℕ, ◌+◌, ◌-◌, ◌*◌, ◌%◌, ◌^◌, Bool, true, false, Option, none, some, List, [], ◌∷◌, ltb,
  if◌then◌else◌, Result, ok, err, panicked,
}
use tansiv.Base.Int.{ℤ, pos, to_ℕ?}
use tansiv.Duration.{checked_sub}
use tansiv.Error.{IoError}
use tansiv.LibcTimer.{as_i64}

-- The operations of `f64` that the code uses. A cast to `u64` gives a number below 2^64.
pub record Float : Type 1 where
  pub F : Type 0
  pub zero : F
  pub one : F
  pub of_u64 : ℕ → F
  pub of_i64 : ℤ → F
  pub to_u64 : F → ℕ
  pub mul : F → F → F
  pub div : F → F → F
  pub giga : F  -- 1000000.0

-- What lies behind the device's file: the time-stamp counter, the counter's offset in the page that
-- the module shares, and the two calls.
pub record Device : Type 1 where
  pub State : Type 0
  pub rdtsc : State → ℕ × State
  pub tsc_offset : State → ℕ
  pub ioctl_init_check : State → Bool
  pub ioctl_register_deadline : ℕ → ℕ → State → ℕ × State
  pub close_device : State → State

abbrev pub u64 : ℕ → ℕ
u64 n = n % 2 ^ 64

abbrev pub sub_u64 : ℕ → ℕ → ℕ
sub_u64 a b = (a + 2 ^ 64 - b) % 2 ^ 64

-- `VecDeque::back`
abbrev pub last_of {ℓ} : {A : Type ℓ} → List A → Option A
last_of [] = none
last_of (x ∷ []) = some x
last_of (x ∷ y ∷ xs) = last_of (y ∷ xs)

module _ (fl : Float) where
  pub record TimerContextInner : Type 0 where
    pub prev_deadline : ℕ
    pub next_deadline : ℕ
    pub guest_tsc : ℕ
    pub vmx_timer_value : ℕ
    pub tsc_freq : fl.F
    pub references : ℕ

  unfoldable pub new : TimerContextInner
  new = record {
    prev_deadline = 0;
    next_deadline = 0;
    guest_tsc = 0;
    vmx_timer_value = 0;
    tsc_freq = fl.zero;
    references = 1;
  }

  unfoldable pub simulation_previous_deadline : TimerContextInner → ℕ
  simulation_previous_deadline c = c.prev_deadline

  unfoldable pub simulation_next_deadline : TimerContextInner → ℕ
  simulation_next_deadline c = c.next_deadline

  -- The stamp of a message that goes to the queue of upcoming messages, if it is past the deadline:
  -- its own, or that of the last message in the queue where this is later. `stamps` are the send
  -- times of the queue.
  unfoldable pub check_deadline_overrun : TimerContextInner → ℕ → List ℕ → Option ℕ
  unfolding simulation_next_deadline
  check_deadline_overrun c send_time stamps =
      if ltb (simulation_next_deadline c) send_time
      then (elim (last_of stamps) [
        | none ↦ some send_time
        | some last ↦ if ltb send_time last then some last else some send_time
      ])
      else none

  module _ (dev : Device) where
    open dev use {State}

    unfoldable pub set_next_deadline :
        TimerContextInner → ℕ → State → Result IoError TimerContextInner × State
    set_next_deadline c deadline k = elim (checked_sub deadline c.next_deadline) [
      | none ↦ (panicked, k)
      | some slice ↦
          let timer_deadline = u64 slice in
          let timer_deadline_tsc = fl.mul (fl.of_u64 timer_deadline) c.tsc_freq in
          let (vmx, k') =
            dev.ioctl_register_deadline timer_deadline (fl.to_u64 timer_deadline_tsc) k in
          (
            ok (record c {
              prev_deadline = c.next_deadline;
              next_deadline = deadline;
              vmx_timer_value = vmx;
            }),
            k',
          )
    ]

    -- `tsc_khz` is what the file in sysfs holds, where it could be read and parsed. The answer's
    -- offset is always zero.
    unfoldable pub start :
        Option ℤ → TimerContextInner → ℕ → State → Result IoError (ℤ × TimerContextInner) × State
    unfolding set_next_deadline
    start tsc_khz c deadline k =
        let tsc_freq : fl.F = elim tsc_khz [
          | none ↦ fl.one
          | some khz ↦ fl.div (fl.of_i64 khz) fl.giga
        ] in
        let (done, k') = set_next_deadline (record c { tsc_freq = tsc_freq }) deadline k in
        if dev.ioctl_init_check k
        then (elim done [ ok c' ↦ ok (pos 0, c') | err e ↦ panicked | panicked ↦ panicked ], k')
        else (panicked, k)

    unfoldable pub stop : TimerContextInner → State → TimerContextInner × State
    stop c k = (record c { references = c.references - 1 }, dev.close_device k)

    -- The simulation time in nanoseconds, before its conversion to a duration.
    unfoldable pub vm_time : TimerContextInner → ℕ → ℕ → ℕ
    vm_time c now tsc_offset =
        let now_guest = fl.of_u64 (u64 (now + tsc_offset)) in
        let next_deadline_guest = fl.of_u64 c.vmx_timer_value in
        let next_deadline = u64 c.next_deadline in
        let offset = sub_u64 (fl.to_u64 (fl.div next_deadline_guest c.tsc_freq)) next_deadline in
        sub_u64 (fl.to_u64 (fl.div now_guest c.tsc_freq)) offset

    unfoldable pub simulation_now : TimerContextInner → State → ℕ × State
    unfolding vm_time
    simulation_now c k =
        let (now, k') = dev.rdtsc k in
        (elim (to_ℕ? (as_i64 (vm_time c now (dev.tsc_offset k')))) [ none ↦ 0 | some t ↦ t ], k')

  -- What `deadline_handler` answers to the kernel module: the length of the slice.
  unfoldable pub slice_length : TimerContextInner → ℕ
  slice_length c = sub_u64 (u64 c.next_deadline) (u64 c.prev_deadline)

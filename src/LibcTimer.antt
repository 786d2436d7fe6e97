-- ===== src/LibcTimer.antt =====
-- rust-deps/libc_timer/src/lib.rs: clocks and timers of the C library. The C functions are the
-- parameter `Sys`; `Kernel` stands for the state behind them.
pub mod Laws
use tansiv.Base.{
  ℕ, zero, suc, ◌+◌, ◌-◌, ◌*◌, ◌%◌, ◌^◌, Bool, true, false, Option, none, some, ltb, leb, ◌==◌,
  if◌then◌else◌, is_some, Result, ok, err, panicked,
}
use tansiv.Base.Int.{ℤ, pos, negsuc}
use tansiv.Duration.{as_secs, subsec_nanos}
use tansiv.Duration
use tansiv.Error.{IoError, os_error}

-- `struct timespec`, with `time_t` and `c_long` of 64 bits
pub record Timespec : Type 0 where
  pub tv_sec : ℤ
  pub tv_nsec : ℤ

-- The casts between `u64` and `i64`, and from `i64` to `u32`.
abbrev pub as_i64 : ℕ → ℤ
as_i64 n = if ltb n (2 ^ 63) then pos n else negsuc (2 ^ 64 - 1 - n)

abbrev pub as_u64 : ℤ → ℕ
as_u64 (pos n) = n % 2 ^ 64
as_u64 (negsuc n) = 2 ^ 64 - 1 - n % 2 ^ 64

abbrev pub as_u32 : ℤ → ℕ
as_u32 a = as_u64 a % 2 ^ 32

unfoldable pub duration_to_timespec : ℕ → Timespec
duration_to_timespec duration = record {
  tv_sec = as_i64 (as_secs duration);
  tv_nsec = as_i64 (subsec_nanos duration);
}

-- `none` is the panic of `Duration::new`.
unfoldable pub timespec_to_duration : Timespec → Option ℕ
timespec_to_duration ts = Duration.new (as_u64 ts.tv_sec) (as_u32 ts.tv_nsec)

abbrev pub timespec_zero : Timespec
timespec_zero = record { tv_sec = pos 0; tv_nsec = pos 0 }

pub record Itimerspec : Type 0 where
  pub it_interval : Timespec
  pub it_value : Timespec

pub data ClockId : Type 0 where
  realtime realtime_coarse monotonic monotonic_coarse monotonic_raw process_cputime_id : ClockId
  thread_cputime_id boottime realtime_alarm boottime_alarm : ClockId

-- The numbers of the C library's headers that the code refers to by name.
pub record Constants : Type 0 where
  pub clock : ClockId → ℕ
  pub timer_abstime : ℕ

-- The C functions: a result that is 0 on success, what is written through the pointer, and the state
-- after the call. A call that fails leaves what the pointer shows as it was.
pub record Sys : Type 1 where
  pub Kernel : Type 0
  pub Timer : Type 0
  pub Sigevent : Type 0
  pub null_timer : Timer
  pub constants : Constants
  pub clock_gettime : ℕ → Kernel → ℕ × Timespec × Kernel
  pub timer_create : ℕ → Option Sigevent → Kernel → ℕ × Timer × Kernel
  pub timer_delete : Timer → Kernel → Kernel
  pub timer_settime : Timer → ℕ → Itimerspec → Kernel → ℕ × Itimerspec × Kernel

pub data SettimeFlags : Type 0 where
  relative_time absolute_time : SettimeFlags

-- What `unwrap` makes of an optional duration.
abbrev pub or_panic {ℓ} : {A : Type ℓ} → Option A → Result IoError A
or_panic none = panicked
or_panic (some d) = ok d

module _ (sys : Sys) where
  open sys use {Kernel, Timer, Sigevent, constants}

  unfoldable pub into_raw : SettimeFlags → ℕ
  into_raw relative_time = 0
  into_raw absolute_time = constants.timer_abstime

  unfoldable pub gettime : ClockId → Kernel → Result IoError ℕ × Kernel
  gettime clock_id k =
      let (res, time, k') = sys.clock_gettime (constants.clock clock_id) k in
      (if res == 0 then or_panic (timespec_to_duration time) else err os_error, k')

  unfoldable pub create : ClockId → Option Sigevent → Kernel → Result IoError Timer × Kernel
  create clock_id sigev_notify k =
      let (res, timerid, k') = sys.timer_create (constants.clock clock_id) sigev_notify k in
      (if res == 0 then ok timerid else err os_error, k')

  unfoldable pub delete : Timer → Kernel → Kernel
  delete timer_id k = sys.timer_delete timer_id k

  abbrev pub interval_of : Option ℕ → Timespec
  interval_of none = timespec_zero
  interval_of (some interval) = duration_to_timespec interval

  abbrev pub both_durations : Option ℕ → Option ℕ → Result IoError (ℕ × ℕ)
  both_durations (some interval) (some value) = ok (interval, value)
  both_durations none _ = panicked
  both_durations (some interval) none = panicked

  unfoldable pub settime :
      Timer → SettimeFlags → Option ℕ → ℕ → Kernel → Result IoError (ℕ × ℕ) × Kernel
  unfolding into_raw
  settime timer_id flags new_interval new_value k =
      let spec : Itimerspec = record {
        it_interval = interval_of new_interval;
        it_value = duration_to_timespec new_value;
      } in
      let (res, old, k') = sys.timer_settime timer_id (into_raw flags) spec k in
      (
        if res == 0
            then both_durations (timespec_to_duration old.it_interval)
                (timespec_to_duration old.it_value)
            else err os_error,
        k',
      )

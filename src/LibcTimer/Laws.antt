-- ===== src/LibcTimer/Laws.antt =====
-- Durations survive the trip through `timespec` (libc_timer/src/lib.rs).
use tansiv.Base.{ℕ, ◌*◌, ◌^◌, ◌<◌, ◌≡◌, some, arith}
use tansiv.Base.Int.{pos}
use tansiv.Duration.{duration_limit, nanos_per_sec, as_secs, subsec_nanos}
use tansiv.LibcTimer.{as_i64, as_u64, duration_to_timespec, timespec_to_duration}

as_u64-as_i64 : (n : ℕ) → n < 2 ^ 64 → as_u64 (as_i64 n) ≡ n
as_u64-as_i64 n h = ground arith

-- A duration comes back from its `timespec` unchanged, also where the seconds do not fit in `i64`.
pub timespec_to_duration-duration_to_timespec :
    (d : ℕ) → d < duration_limit → timespec_to_duration (duration_to_timespec d) ≡ some d
unfolding timespec_to_duration duration_to_timespec
timespec_to_duration-duration_to_timespec d h =
    rw (as_u64-as_i64 (as_secs d) (omega arith), as_u64-as_i64 (subsec_nanos d) (omega arith))
      (ground arith)

-- The `timespec` of a duration below 2^63 seconds is in the form that the C library accepts: seconds
-- that are not negative, and nanoseconds below one second.
pub duration_to_timespec_normal :
    (d : ℕ)
    → d < 2 ^ 63 * nanos_per_sec
    → duration_to_timespec d ≡ record { tv_sec = pos (as_secs d); tv_nsec = pos (subsec_nanos d) }
unfolding duration_to_timespec
duration_to_timespec_normal d h = ground arith

-- ===== src/Duration.antt =====
-- `std::time::Duration`, as a number of nanoseconds, with the conversions that the sources use, and
-- chrono's signed `Duration`, as an integer of nanoseconds.
use tansiv.Base.{ℕ, ◌+◌, ◌-◌, ◌*◌, ◌/◌, ◌%◌, ◌^◌, Option, none, some, ltb, leb, if◌then◌else◌}
use tansiv.Base.Int.{ℤ, pos}

abbrev pub nanos_per_sec : ℕ
nanos_per_sec = 1_000_000_000

-- Seconds are a `u64`.
abbrev pub duration_limit : ℕ
duration_limit = 2 ^ 64 * nanos_per_sec

-- `Duration::new`: whole seconds among the nanoseconds are carried, and a carry that overflows panics.
abbrev pub new : ℕ → ℕ → Option ℕ
new secs nanos =
    let d = secs * nanos_per_sec + nanos in if ltb d duration_limit then some d else none

abbrev pub as_secs : ℕ → ℕ
as_secs d = d / nanos_per_sec

abbrev pub subsec_nanos : ℕ → ℕ
subsec_nanos d = d % nanos_per_sec

-- `+` and `-` panic on overflow.
abbrev pub checked_add : ℕ → ℕ → Option ℕ
checked_add a b = if ltb (a + b) duration_limit then some (a + b) else none

abbrev pub checked_sub : ℕ → ℕ → Option ℕ
checked_sub a b = if leb b a then some (a - b) else none

-- chrono's durations go up to `i64::MAX` milliseconds.
abbrev pub chrono_max : ℕ
chrono_max = (2 ^ 63 - 1) * 1_000_000

-- `chrono::Duration::from_std`
abbrev pub from_std : ℕ → Option ℤ
from_std d = if leb d chrono_max then some (pos d) else none

-- ===== src/Protocol/Clock.antt =====
-- The `system_clock` of the C++ library, for src/protocol/message.cpp. A `time_point` is a count of
-- nanoseconds from the epoch and a `time_t` one of seconds, each an int64_t as its two's complement.
use silent_tanks.Base.{
  ℕ, ◌+◌, ◌-◌, ◌*◌, ◌/◌, ◌%◌, ◌<◌, ◌≡◌, ltb, if◌then◌else◌, arith, Bool-cases, inl, inr,
}
use silent_tanks.Protocol.Bytes.{capacity}

-- The cast of a duration to seconds drops the part of a second, so that it rounds towards the epoch.
unfoldable pub to_time_t : ℕ → ℕ
to_time_t t =
    if ltb t 9223372036854775808
    then t / 1000000000
    else (18446744073709551616 - (18446744073709551616 - t) / 1000000000) % 18446744073709551616

unfoldable pub from_time_t : ℕ → ℕ
from_time_t s = s * 1000000000 % 18446744073709551616

-- A time without its part of a second.
unfoldable pub whole_seconds : ℕ → ℕ
whole_seconds t =
    if ltb t 9223372036854775808
    then t - t % 1000000000
    else (t + (18446744073709551616 - t) % 1000000000) % 18446744073709551616

pub to_time_t-fits : (t : ℕ) → t < capacity 8 → to_time_t t < capacity 8
unfolding to_time_t
to_time_t-fits t fits = elim (Bool-cases (ltb t 9223372036854775808)) [
  | inl later ↦ rw later (omega (arith, fits))
  | inr earlier ↦ rw earlier (omega arith)
]

pub from_time_t-to_time_t : (t : ℕ) → t < capacity 8 → from_time_t (to_time_t t) ≡ whole_seconds t
unfolding from_time_t to_time_t whole_seconds
from_time_t-to_time_t t fits = elim (Bool-cases (ltb t 9223372036854775808)) [
  | inl later ↦ rw later (ground (arith, later))
  | inr earlier ↦ rw earlier (ground (arith, earlier, fits))
]

-- ===== src/Time.antt =====
-- The clock types that the sources share: `time_point` and `duration` of `std::chrono::system_clock`
-- (src/TimeUtility.h) are 64-bit counts of nanoseconds. A sum or difference that leaves the range is
-- undefined in C++; it is modelled by the wrap-around that the compiled code has.
use kafka_to_nexus.Common.{
  ℤ, pos, negsuc, pos_part, neg_part, ◌≤ℤ◌, ◌<ℤ◌, wrap64, wrap64-exact, InInt64, ◌+ℤ◌, ◌-ℤ◌, ◌≡◌,
  +ℤ_parts, -ℤ_parts, part_cases, ℕ, ◌+◌, ◌-◌, ◌*◌, ◌/◌, ◌^◌, ◌≤◌, ◌<◌, refl, arith, suc, sym,
  subst, ltb, if◌then◌else◌,
}

-- `time_point::max()`; it also stands for `duration::max()`.
abbrev pub time_max : ℤ
time_max = pos (2 ^ 63 - 1)

abbrev pub epoch : ℤ
epoch = pos 0

abbrev pub seconds : ℕ → ℤ
seconds n = pos (n * 1_000_000_000)

abbrev pub milliseconds : ℕ → ℤ
milliseconds n = pos (n * 1_000_000)

-- `t + d` and `t - d` on time points and durations.
unfoldable pub add_time : ℤ → ℤ → ℤ
add_time a b = wrap64 (a +ℤ b)

unfoldable pub sub_time : ℤ → ℤ → ℤ
sub_time a b = wrap64 (a -ℤ b)

-- Neither operation wraps when the exact result is in range.
pub add_time-exact : (a b : ℤ) → InInt64 (a +ℤ b) → add_time a b ≡ a +ℤ b
unfolding add_time
add_time-exact a b h = wrap64-exact (a +ℤ b) h

pub sub_time-exact : (a b : ℤ) → InInt64 (a -ℤ b) → sub_time a b ≡ a -ℤ b
unfolding sub_time
sub_time-exact a b h = wrap64-exact (a -ℤ b) h

-- The order of exact sums and differences, in the parts that `omega` reads.
pub ruleset time_laws = (arith, +ℤ_parts, -ℤ_parts, part_cases, part_cases)

-- A length of time, or a time point after the epoch, that the clock can hold.
abbrev pub IsLength : ℤ → Type 0
IsLength t = (epoch ≤ℤ t) × (t ≤ℤ time_max)

-- The cases in which the sources add and subtract: no wrap-around.
pub sub_time-max : (t : ℤ) → IsLength t → sub_time time_max t ≡ time_max -ℤ t
sub_time-max t h = sub_time-exact time_max t (omega (time_laws, h))

pub sub_time-length : (s t : ℤ) → IsLength s → IsLength t → sub_time s t ≡ s -ℤ t
sub_time-length s t h k = sub_time-exact s t (omega (time_laws, h, k))

pub add_time-length :
    (s t : ℤ) → IsLength s → IsLength t → s +ℤ t ≤ℤ time_max → add_time s t ≡ s +ℤ t
add_time-length s t h k b = add_time-exact s t (omega (time_laws, h, k))

-- Conversion of a count of nanoseconds to microseconds and back; the cast rounds towards zero.
-- `to_timepoint` of src/Stream/SourceFilter.cpp.
unfoldable pub to_timepoint : ℤ → ℤ
to_timepoint (pos n) = pos (n / 1000 * 1000)
to_timepoint (negsuc n) =
    let us = (n + 1) / 1000 * 1000 in if ltb us 1 then pos 0 else negsuc (us - 1)

-- A later time stamp never becomes an earlier time point.
pub to_timepoint_mono : (a b : ℤ) → a ≤ℤ b → to_timepoint a ≤ℤ to_timepoint b
unfolding to_timepoint
to_timepoint_mono (pos a) (pos b) h = ground arith
to_timepoint_mono (pos a) (negsuc b) h = ground arith
to_timepoint_mono (negsuc a) (pos b) h = ground arith
to_timepoint_mono (negsuc a) (negsuc b) h = ground arith

-- `time_point{milliseconds(n)}`, which wraps beyond the clock's range.
unfoldable pub of_milliseconds : ℤ → ℤ
of_milliseconds (pos n) = wrap64 (pos (n * 1_000_000))
of_milliseconds (negsuc n) = wrap64 (negsuc (n * 1_000_000 + 999_999))

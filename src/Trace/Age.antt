-- ===== src/Trace/Age.antt =====
-- The age of a trace, `now.Sub(createdAt)`, and the cutoff of a TTL.
use promolog.Prelude.{
  zero, suc, ℤ, pos, negsuc, ◌-ℤ◌, ◌≤ℤ◌, ◌<ℤ◌, ltb_ℤ, +ℤ_parts, -ℤ_parts, arith, if◌then◌else◌,
}
use promolog.Trace.{Time, Duration, time_sub, time_add, max_duration, min_duration}
use promolog.StatusCode.{negate_int}

-- A difference of times, stopped at the ends of an int64.
abbrev clamp : ℤ → ℤ
clamp d =
    if ltb_ℤ max_duration d then max_duration else if ltb_ℤ d min_duration then min_duration else d

clamp-le : (d e : ℤ) → d ≤ℤ e → clamp d ≤ℤ clamp e
clamp-le d e le = ground arith

clamp-above : (x d : ℤ) → pos 0 <ℤ x → x <ℤ clamp d → x <ℤ d
clamp-above x d positive above = ground arith

above-clamp : (x d : ℤ) → x <ℤ max_duration → x <ℤ d → x <ℤ clamp d
above-clamp x d small above = ground arith

-- A later reading of the clock makes no trace younger.
pub time_sub-le : (now later c : Time) → now ≤ℤ later → time_sub now c ≤ℤ time_sub later c
unfolding time_sub
time_sub-le now later c le =
    clamp-le (now -ℤ c) (later -ℤ c) (omega (arith, -ℤ_parts now c, -ℤ_parts later c))

-- What is older than a positive TTL was made before the cutoff of a TTL that is not longer.
pub old-is_before :
    (now c : Time) (m d : Duration)
    → pos 0 <ℤ m
    → m ≤ℤ d
    → d <ℤ time_sub now c
    → c <ℤ time_add now (negate_int m)
unfolding time_sub negate_int
old-is_before now c (pos (suc m)) d positive le old =
    let above = clamp-above d (now -ℤ c) (omega arith) old in
    omega (arith, -ℤ_parts now c, +ℤ_parts now (negsuc m))
old-is_before now c (pos zero) d positive le old = absurd (omega arith)
old-is_before now c (negsuc m) d positive le old = absurd (omega arith)

pub before-old :
    (now c : Time) (d : Duration)
    → pos 0 <ℤ d
    → d <ℤ max_duration
    → c <ℤ time_add now (negate_int d)
    → d <ℤ time_sub now c
unfolding time_sub negate_int
before-old now c (pos (suc d)) positive small before =
    above-clamp (pos (suc d)) (now -ℤ c) small
      (omega (arith, -ℤ_parts now c, +ℤ_parts now (negsuc d)))
before-old now c (pos zero) positive small before = absurd (omega arith)
before-old now c (negsuc d) positive small before = absurd (omega arith)

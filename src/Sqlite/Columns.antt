-- ===== src/Sqlite/Columns.antt =====
-- The nullable columns of `error_traces` read back as what was written to them.
use promolog.Prelude.{
  ℕ, zero, suc, ◌*◌, ◌/◌, pos, negsuc, ltb_ℤ, ◌*ℤ◌, false, ◌≡◌, refl, ◌∙◌, ap, some, none, [], ◌∷◌,
  arith, Str,
}
use promolog.Trace.{Time, Duration, max_duration}
use promolog.Rule.{wrap_int}
use promolog.Sqlite.Row.{
  nullable_string, string_of, nullable_time, time_of, duration_column, duration_of,
}

pub string_of-nullable_string : (s : Str) → string_of (nullable_string s) ≡ s
unfolding string_of nullable_string
string_of-nullable_string [] = refl
string_of-nullable_string (c ∷ s) = refl

pub time_of-nullable_time : (t : Time) → time_of (nullable_time t) ≡ t
unfolding time_of nullable_time
time_of-nullable_time t = ground arith

wrap_int_small : (n : ℕ) → ltb_ℤ max_duration (pos n) ≡ false → wrap_int (pos n) ≡ pos n
unfolding wrap_int
wrap_int_small n h = ground arith

*ℤ_pos : (a b : ℕ) → pos a *ℤ pos b ≡ pos (a * b)
unfolding ◌*ℤ◌
*ℤ_pos a b = ground arith

-- A duration without the part that is less than a millisecond, and no duration below zero.
abbrev pub whole_ms : Duration → Duration
whole_ms (pos n) = pos (n / 1000000 * 1000000)
whole_ms (negsuc n) = pos 0

duration_column_pos : (n : ℕ) → duration_column (pos (suc n)) ≡ some (pos (suc n / 1000000))
unfolding duration_column
duration_column_pos n = ground arith

duration_column_neg : (n : ℕ) → duration_column (negsuc n) ≡ none
unfolding duration_column
duration_column_neg n = ground arith

pub duration_of-duration_column :
    (d : Duration) → ltb_ℤ max_duration d ≡ false → duration_of (duration_column d) ≡ whole_ms d
unfolding duration_of duration_column
duration_of-duration_column (pos zero) h = refl
duration_of-duration_column (pos (suc n)) h =
    ap duration_of (duration_column_pos n)
    ∙ (ap wrap_int (*ℤ_pos (suc n / 1000000) 1000000)
        ∙ wrap_int_small (suc n / 1000000 * 1000000) (ground arith))
duration_of-duration_column (negsuc n) h = ap duration_of (duration_column_neg n)

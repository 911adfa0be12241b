-- ===== src/StatusCode.antt =====
-- `StatusCodeStr` of rule.go, with Go's 64-bit `int`. The buffer of ten bytes is filled from its
-- end: `i` is the index of the first byte written, and a write below index 0 panics (`none`).
pub mod Digits
pub mod Bounds
pub mod RoundTrip
mod Examples
use promolog.Prelude.{
  ℕ, zero, suc, ◌+◌, ◌-◌, ◌/◌, ◌%◌, ◌^◌, ℤ, pos, negsuc, pos_part, neg_part, eqb_ℤ, ltb_ℤ, Bool,
  true, false, Option, none, some, [], ◌∷◌, Str, ltb, ◌==◌, if◌then◌else◌,
}

-- `-code` of an int64: the least one is its own negation.
unfoldable pub negate_int : ℤ → ℤ
negate_int (pos zero) = pos 0
negate_int (pos (suc n)) = negsuc n
negate_int (negsuc n) = if n == 2 ^ 63 - 1 then negsuc n else pos (suc n)

-- The loop `for code > 0`, at index `i` with `out` already written behind it.
unfoldable pub fill : ℕ → ℕ → Str → Option (ℕ × Str)
fill zero code out = if ltb 0 code then none else some (zero, out)
fill (suc i) code out =
    let rest = fill i (code / 10) ((b'0' + code % 10) ∷ out) in
    if ltb 0 code then rest else some (suc i, out)

-- The last test, which writes the sign.
unfoldable pub put_sign : Bool → Option (ℕ × Str) → Option Str
put_sign neg none = none
put_sign false (some (i, out)) = some out
put_sign true (some (zero, out)) = none
put_sign true (some (suc i, out)) = some (b'-' ∷ out)

unfoldable pub status_code_str : ℤ → Option Str
status_code_str code =
    if eqb_ℤ code (pos 0)
    then some (b'0' ∷ [])
    else let neg = ltb_ℤ code (pos 0) in
      put_sign neg (fill 10 (pos_part (if neg then negate_int code else code)) [])

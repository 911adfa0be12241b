-- ===== src/StatusCode/Digits.antt =====
-- The loop of `StatusCodeStr` against the decimal digits of a number.
use native.Mathlib.Nat.{pow-suc, one-le-pow}
use native.Mathlib.Decide.{dec_lt}
use promolog.Prelude.{
  lt→ltb, ge→ltb, ℕ, zero, suc, ◌+◌, ◌/◌, ◌%◌, ◌^◌, ◌≤◌, ◌<◌, ◌≡◌, refl, none, some, ◌∷◌, arith,
  Str,
}
use promolog.Decimal.{digits}
use promolog.StatusCode.{fill}

-- `i` bytes are enough for a number below 10 to the `i`.
pub fill-digits :
    (i n : ℕ) (out : Str) → n < 10 ^ i → (j : ℕ) × (fill i n out ≡ some (j, digits i n out))
unfolding fill digits
fill-digits zero n out h = (0, ground arith)
fill-digits (suc i) n out h = elim (dec_lt 0 n) [
  | yes p ↦
      let (j, e) = fill-digits i (n / 10) ((b'0' + n % 10) ∷ out) (omega (arith, pow-suc 10 i)) in
      (j, rw (lt→ltb 0 n p) e)
  | no p ↦ (suc i, rw (ge→ltb 0 n (omega arith)))
]

-- One byte more is left over.
pub fill_spare :
    (i n : ℕ) (out : Str)
    → n < 10 ^ i
    → (j : ℕ) × (fill (suc i) n out ≡ some (suc j, digits i n out))
unfolding fill digits
fill_spare zero n out h = (0, ground arith)
fill_spare (suc i) n out h = elim (dec_lt 0 n) [
  | yes p ↦
      let (j, e) = fill_spare i (n / 10) ((b'0' + n % 10) ∷ out) (omega (arith, pow-suc 10 i)) in
      (j, rw (lt→ltb 0 n p) e)
  | no p ↦ (suc i, rw (ge→ltb 0 n (omega arith)))
]

-- A number with `i + 1` digits uses up `i + 1` bytes.
pub fill_exact :
    (i n : ℕ) (out : Str)
    → 10 ^ i ≤ n
    → n < 10 ^ suc i
    → fill (suc i) n out ≡ some (0, digits (suc i) n out)
unfolding fill digits
fill_exact zero n out l h = ground arith
fill_exact (suc i) n out l h =
    ground (arith, pow-suc 10 i, pow-suc 10 (suc i), fill_exact i (n / 10) ((b'0' + n % 10) ∷ out))

-- A longer number overruns the buffer.
pub fill_overrun : (i n : ℕ) (out : Str) → 10 ^ i ≤ n → fill i n out ≡ none
unfolding fill
fill_overrun zero n out h = ground arith
fill_overrun (suc i) n out h =
    ground (arith, pow-suc 10 i, one-le-pow i 10, fill_overrun i (n / 10) ((b'0' + n % 10) ∷ out))

-- As many rounds as there are digits do as well as more rounds.
pub digits_rounds : (f g n : ℕ) (out : Str) → n < 10 ^ f → n ≤ g → digits f n out ≡ digits g n out
unfolding digits
digits_rounds zero zero n out h k = refl
digits_rounds zero (suc g) n out h k = ground arith
digits_rounds (suc f) zero n out h k = ground arith
digits_rounds (suc f) (suc g) n out h k =
    ground (arith, pow-suc 10 f, digits_rounds f g (n / 10) ((b'0' + n % 10) ∷ out))

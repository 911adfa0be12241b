-- ===== src/Decimal.antt =====
-- `%d` of package fmt, for the numbers that promolog.go puts into texts: no sign, no leading zero.
use promolog.Prelude.{
  ℕ, zero, suc, ◌+◌, ◌/◌, ◌%◌, ◌≤◌, ◌≡◌, refl, [], ◌∷◌, arith, Str, lit, ltb, ◌==◌, if◌then◌else◌,
}

-- The digits of `n` in front of `out`; the fuel bounds the rounds.
unfoldable pub digits : ℕ → ℕ → Str → Str
digits zero n out = out
digits (suc f) n out =
    let rest = digits f (n / 10) ((b'0' + n % 10) ∷ out) in if ltb 0 n then rest else out

unfoldable pub decimal : ℕ → Str
unfolding digits
decimal n = if n == 0 then b'0' ∷ [] else digits n n []

-- More fuel than the number changes nothing.
pub digits_fuel : (f g n : ℕ) (out : Str) → n ≤ f → n ≤ g → digits f n out ≡ digits g n out
unfolding digits
digits_fuel zero zero n out h k = refl
digits_fuel zero (suc g) n out h k = ground arith
digits_fuel (suc f) zero n out h k = ground arith
digits_fuel (suc f) (suc g) n out h k =
    ground (arith, digits_fuel f g (n / 10) ((b'0' + n % 10) ∷ out))

decimal_tests : (decimal 0 ≡ lit "0")
unfolding decimal lit
decimal_tests = refl

decimal_404 : decimal 404 ≡ lit "404"
unfolding decimal lit
decimal_404 = refl

-- ===== src/StatusCode/RoundTrip.antt =====
-- Reading back what `StatusCodeStr` prints, so that no two codes print alike.
use promolog.Prelude.{
  ℕ, zero, suc, ◌+◌, ◌-◌, ◌*◌, Option, none, some, [], ◌∷◌, Str, if◌then◌else◌, ℤ, pos, negsuc,
  ◌==◌, leb, ◌&&◌,
}

-- The number that a text of digits spells behind `acc`.
unfoldable pub read_digits : ℕ → Str → Option ℕ
read_digits acc [] = some acc
read_digits acc (c ∷ s) =
    let rest = read_digits (acc * 10 + (c - b'0')) s in
    if leb b'0' c && leb c b'9' then rest else none

abbrev signed : Option ℕ → Option ℤ
signed none = none
signed (some zero) = none
signed (some (suc n)) = some (negsuc n)

abbrev after_sign : Str → Option ℤ
after_sign [] = none
after_sign (c ∷ s) = if c == b'-' then signed (read_digits 0 s) else none

abbrev read_int_from : Str → Option ℕ → Option ℤ
read_int_from s (some n) = some (pos n)
read_int_from s none = after_sign s

-- An independent reader of decimal integers: digits, or a minus sign and digits.
unfoldable pub read_int : Str → Option ℤ
unfolding read_digits
read_int s = read_int_from s (read_digits 0 s)

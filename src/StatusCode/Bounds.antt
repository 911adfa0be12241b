-- ===== src/StatusCode/Bounds.antt =====
-- For which codes `StatusCodeStr` returns, what it returns, and where it panics.
use native.Mathlib.Decide.{dec_lt}
use promolog.Prelude.{
  ℕ, zero, suc, ◌+◌, ◌-◌, ◌^◌, ◌<◌, ◌≡◌, ◌≢◌, refl, ap, ◌∙◌, none, some, [], ◌∷◌, arith, Str, ℤ,
  pos, negsuc, true, false, ◌<ℤ◌, ◌≤ℤ◌, ◌⊎◌, inl, inr, ne→==, lt→ltb, ge→ltb,
}
use promolog.Decimal.{digits, decimal}
use promolog.StatusCode.{negate_int, fill, put_sign, status_code_str}
use promolog.StatusCode.Digits.{fill-digits, fill_spare, fill_exact, fill_overrun, digits_rounds}

-- The decimal text of an integer, as package strconv prints it.
abbrev pub signed_decimal : ℤ → Str
signed_decimal (pos n) = decimal n
signed_decimal (negsuc n) = b'-' ∷ decimal (suc n)

decimal_pos : (n : ℕ) → 0 < n → digits n n [] ≡ decimal n
unfolding decimal
decimal_pos n p = rw (ne→== n 0 (omega arith))

decimal-digits : (n : ℕ) → 0 < n → n < 10 ^ 10 → digits 10 n [] ≡ decimal n
unfolding decimal
decimal-digits n p h = rw (ne→== n 0 (omega arith)) (digits_rounds 10 n n [] h (omega arith))

-- Before the loop: a positive code goes in as it is.
status_code_str-pos : (n : ℕ) → 0 < n → status_code_str (pos n) ≡ put_sign false (fill 10 n [])
unfolding status_code_str
status_code_str-pos n p = rw (ne→== (n + 0) 0 (omega arith), ge→ltb (n + 0) 0 (omega arith))

-- And a negative one by its absolute value, unless it is the least int64.
status_code_str-negsuc :
    (n : ℕ) → n ≢ 2 ^ 63 - 1 → status_code_str (negsuc n) ≡ put_sign true (fill 10 (suc n) [])
unfolding status_code_str negate_int
status_code_str-negsuc n h =
    rw (
      ne→== 0 (0 + suc n) (omega arith),
      lt→ltb 0 (0 + suc n) (omega arith),
      ne→== n (2 ^ 63 - 1) h,
    )

positive : (n : ℕ) → 0 < n → n < 10 ^ 10 → status_code_str (pos n) ≡ some (decimal n)
unfolding put_sign
positive n p h =
    let (j, e) = fill-digits 10 n [] h in
    status_code_str-pos n p ∙ ap (put_sign false) e ∙ ap some (decimal-digits n p h)

negative : (n : ℕ) → suc n < 10 ^ 9 → status_code_str (negsuc n) ≡ some (b'-' ∷ decimal (suc n))
unfolding put_sign
negative n h =
    let (j, e) = fill_spare 9 (suc n) [] h in
    status_code_str-negsuc n (omega arith)
    ∙ ap (put_sign true) e
    ∙ ap (λ s. some (b'-' ∷ s))
        (digits_rounds 9 (suc n) (suc n) [] h (omega arith) ∙ decimal_pos (suc n) (omega arith))

-- For every code above -10^9 and below 10^10, the range of HTTP status codes with room to spare,
-- `StatusCodeStr` returns the code's decimal text.
pub status_code_str-signed_decimal :
    (code : ℤ)
    → negsuc (10 ^ 9 - 1) <ℤ code
    → code <ℤ pos (10 ^ 10)
    → status_code_str code ≡ some (signed_decimal code)
status_code_str-signed_decimal (pos zero) l h = unfold status_code_str decimal in refl
status_code_str-signed_decimal (pos (suc n)) l h = positive (suc n) (omega arith) (omega arith)
status_code_str-signed_decimal (negsuc n) l h = negative n (omega arith)

-- A code of eleven or more digits, and a negative code of ten or more other than the least int64,
-- makes `StatusCodeStr` write below index 0 of its ten bytes: it panics.
pub status_code_str_panics :
    (code : ℤ)
    → (pos (10 ^ 10) ≤ℤ code) ⊎ ((code ≤ℤ negsuc (10 ^ 9 - 1)) × (negsuc (2 ^ 63 - 1) <ℤ code))
    → status_code_str code ≡ none
unfolding put_sign
status_code_str_panics (pos n) (inl h) =
    status_code_str-pos n (omega arith) ∙ ap (put_sign false) (fill_overrun 10 n [] (omega arith))
status_code_str_panics (pos n) (inr h) = absurd (omega arith)
status_code_str_panics (negsuc n) (inl h) = absurd (omega arith)
status_code_str_panics (negsuc n) (inr (h, k)) =
    status_code_str-negsuc n (omega arith) ∙ (elim (dec_lt (suc n) (10 ^ 10)) [
      | yes p ↦ ap (put_sign true) (fill_exact 9 (suc n) [] (omega arith) p)
      | no p ↦ ap (put_sign true) (fill_overrun 10 (suc n) [] (omega arith))
    ])

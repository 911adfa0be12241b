-- ===== src/StatusCode/Examples.antt =====
-- Tests of `StatusCodeStr`, and its theorems at concrete codes.
use promolog.Prelude.{◌-◌, ◌^◌, ◌≡◌, refl, none, some, arith, inr, lit, pos, negsuc}
use promolog.StatusCode.{status_code_str, fill, put_sign, negate_int}
use promolog.StatusCode.Bounds.{
  signed_decimal, status_code_str-signed_decimal, status_code_str_panics,
}

not_found : status_code_str (pos 404) ≡ some (lit "404")
unfolding status_code_str fill put_sign lit
not_found = refl

negative_code : status_code_str (negsuc 6) ≡ some (lit "-7")
unfolding status_code_str fill put_sign negate_int lit
negative_code = refl

-- The least int64 stays negative, so the loop is skipped.
least_int : status_code_str (negsuc (2 ^ 63 - 1)) ≡ some (lit "-")
unfolding status_code_str fill put_sign negate_int lit
least_int = refl

status_code_str-signed_decimal_example : status_code_str (pos 503) ≡ some (signed_decimal (pos 503))
status_code_str-signed_decimal_example =
    status_code_str-signed_decimal (pos 503) (omega arith) (omega arith)

status_code_str_panics_example : status_code_str (negsuc (10 ^ 9)) ≡ none
status_code_str_panics_example =
    status_code_str_panics (negsuc (10 ^ 9)) (inr (omega arith, omega arith))

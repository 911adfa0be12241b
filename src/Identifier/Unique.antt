-- ===== src/Identifier/Unique.antt =====
-- Generated IDs have 32 characters, and different random bytes make different IDs.
use promolog.Prelude.{
  ℕ, ◌*◌, ◌<◌, ◌/◌, ◌%◌, List, [], ◌∷◌, some, ◌≡◌, refl, ap₂, arith, All, length,
}
use promolog.Identifier.{hex_digit, hex_encode, generate_id}

-- What `rand.Read` puts into a byte.
abbrev pub IsByte : ℕ → Type 0
IsByte b = b < 256

hex_digit-injective : (m n : ℕ) → m < 16 → n < 16 → hex_digit m ≡ hex_digit n → m ≡ n
hex_digit-injective m n h k e = ground arith

hex_byte-injective :
    (a b : ℕ)
    → IsByte a
    → IsByte b
    → hex_digit (a / 16) ≡ hex_digit (b / 16)
    → hex_digit (a % 16) ≡ hex_digit (b % 16)
    → a ≡ b
hex_byte-injective a b h k e f = omega (
  arith,
  hex_digit-injective (a / 16) (b / 16) (omega arith) (omega arith) e,
  hex_digit-injective (a % 16) (b % 16) (omega arith) (omega arith) f,
)

hex_encode-injective :
    (xs ys : List ℕ) → All IsByte xs → All IsByte ys → hex_encode xs ≡ hex_encode ys → xs ≡ ys
unfolding hex_encode
hex_encode-injective [] [] h k e = refl
hex_encode-injective [] (b ∷ ys) h k e = cc e
hex_encode-injective (a ∷ xs) [] h k e = cc e
hex_encode-injective (a ∷ xs) (b ∷ ys) (h, hs) (k, ks) e =
    ap₂ ◌∷◌ (hex_byte-injective a b h k (cc e) (cc e)) (hex_encode-injective xs ys hs ks (cc e))

length-hex_encode : (bs : List ℕ) → length (hex_encode bs) ≡ 2 * length bs
unfolding hex_encode
length-hex_encode [] = refl
length-hex_encode (b ∷ bs) = omega (arith, length-hex_encode bs)

-- Two successful draws of 16 random bytes give IDs of 32 characters, which are the same only if
-- the bytes are.
pub generate_id-injective :
    (xs ys : List ℕ)
    → All IsByte xs
    → All IsByte ys
    → length xs ≡ 16
    → length ys ≡ 16
    → (length (generate_id (some xs)) ≡ 32)
      × (generate_id (some xs) ≡ generate_id (some ys) → xs ≡ ys)
unfolding generate_id
generate_id-injective xs ys h k n m =
    (omega (arith, length-hex_encode xs), hex_encode-injective xs ys h k)

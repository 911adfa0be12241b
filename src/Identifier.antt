-- ===== src/Identifier.antt =====
-- `generateID` of correlation.go. What `rand.Read` fills in, or its failure, is the argument.
pub mod Unique
mod Examples
use promolog.Prelude.{
  ℕ, ◌+◌, ◌-◌, ◌/◌, ◌%◌, List, [], ◌∷◌, Option, none, some, Str, ltb, if◌then◌else◌,
}

-- A digit of `hex.EncodeToString`.
abbrev pub hex_digit : ℕ → ℕ
hex_digit n = if ltb n 10 then b'0' + n else b'a' + n - 10

unfoldable pub hex_encode : List ℕ → Str
hex_encode [] = []
hex_encode (b ∷ bs) = hex_digit (b / 16) ∷ hex_digit (b % 16) ∷ hex_encode bs

unfoldable pub generate_id : Option (List ℕ) → Str
unfolding hex_encode
generate_id none = []
generate_id (some bytes) = hex_encode bytes

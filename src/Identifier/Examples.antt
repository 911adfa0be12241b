-- ===== src/Identifier/Examples.antt =====
-- Tests of `generateID`, and its theorem at two draws.
use promolog.Prelude.{ℕ, List, [], ◌∷◌, some, ◌≡◌, refl, arith, length, take, lit}
use promolog.Identifier.{generate_id}
use promolog.Identifier.Unique.{generate_id-injective}

abbrev zeros : List ℕ
zeros = 0 ∷ 0 ∷ 0 ∷ 0 ∷ 0 ∷ 0 ∷ 0 ∷ 0 ∷ 0 ∷ 0 ∷ 0 ∷ 0 ∷ 0 ∷ 0 ∷ 0 ∷ 0 ∷ []

abbrev draw : List ℕ
draw = 255 ∷ 10 ∷ 0 ∷ 0 ∷ 0 ∷ 0 ∷ 0 ∷ 0 ∷ 0 ∷ 0 ∷ 0 ∷ 0 ∷ 0 ∷ 0 ∷ 0 ∷ 1 ∷ []

hex_text : take 4 (generate_id (some draw)) ≡ lit "ff0a"
unfolding generate_id lit
hex_text = refl

two_ids :
    (length (generate_id (some zeros)) ≡ 32)
    × (generate_id (some zeros) ≡ generate_id (some draw) → zeros ≡ draw)
two_ids = generate_id-injective zeros draw (omega arith) (omega arith) refl refl

-- ===== src/Sqlite/Like.antt =====
-- What the pattern of a search term matches, by SQLite's documented LIKE with a backslash as ESCAPE.
use promolog.Prelude.{
  ℕ, ◌==◌, List, [], ◌∷◌, ◌++◌, Bool, true, false, Bool-cases, inl, inr, ◌&&◌, ◌||◌, ◌≡◌, refl, sym,
  ap, ◌∙◌, arith, Str, map, has_prefix, contains, if◌then◌else◌, append_assoc,
}
use promolog.Sqlite.Query.{replace_byte, escape_like, like_pattern}

pub data Token : Type 0 where
  any_text any_byte never : Token
  exact : ℕ → Token

-- The tokens of a pattern; the Boolean says that an escape stands before it.
abbrev pub tokens : Bool → Str → List Token
tokens true [] = never ∷ []
tokens true (c ∷ p) = exact c ∷ tokens false p
tokens false [] = []
tokens false (c ∷ p) =
    let plain = tokens false p in
    let escaped = tokens true p in
    if c == b'\\'
    then escaped
    else if c == b'%'
    then any_text ∷ plain
    else if c == b'_'
    then any_byte ∷ plain
    else exact c ∷ plain

-- Some suffix of the text passes the test.
abbrev pub any_suffix : (Str → Bool) → Str → Bool
any_suffix test [] = test []
any_suffix test (c ∷ s) = test (c ∷ s) || any_suffix test s

-- LIKE compares bytes up to case, by `fold`.
module _ (fold : ℕ → ℕ) where
  abbrev pub matches : List Token → Str → Bool
  matches [] [] = true
  matches [] (d ∷ s) = false
  matches (never ∷ ts) s = false
  matches (any_text ∷ ts) s = any_suffix (matches ts) s
  matches (any_byte ∷ ts) [] = false
  matches (any_byte ∷ ts) (d ∷ s) = matches ts s
  matches (exact c ∷ ts) [] = false
  matches (exact c ∷ ts) (d ∷ s) = (fold d == fold c) && matches ts s

  -- `text LIKE pattern ESCAPE '\'`.
  abbrev pub like : Str → Str → Bool
  like pattern s = matches (tokens false pattern) s

-- The escape of one byte.
abbrev escape_byte : ℕ → Str
escape_byte c =
    if c == b'\\'
    then b'\\' ∷ b'\\' ∷ []
    else if c == b'%'
    then b'\\' ∷ b'%' ∷ []
    else if c == b'_'
    then b'\\' ∷ b'_' ∷ []
    else c ∷ []

escape_like-cons : (c : ℕ) (s : Str) → escape_like (c ∷ s) ≡ escape_byte c ++ escape_like s
unfolding escape_like replace_byte
escape_like-cons c s = elim (Bool-cases (c == b'\\')) [
  | inl backslash ↦ rw backslash
  | inr plain ↦ elim (Bool-cases (c == b'%')) [
    | inl percent ↦ rw (plain, percent)
    | inr other ↦ elim (Bool-cases (c == b'_')) [
      | inl underscore ↦ rw (plain, other, underscore)
      | inr byte ↦ rw (plain, other, byte)
    ]
  ]
]

tokens-escape_byte :
    (c : ℕ) (p : Str) → tokens false (escape_byte c ++ p) ≡ exact c ∷ tokens false p
tokens-escape_byte c p = ground arith

abbrev exacts : Str → List Token
exacts [] = []
exacts (c ∷ s) = exact c ∷ exacts s

tokens-escape_like : (s p : Str) → tokens false (escape_like s ++ p) ≡ exacts s ++ tokens false p
unfolding escape_like replace_byte
tokens-escape_like [] p = refl
tokens-escape_like (c ∷ s) p =
    ap (λ l. tokens false (l ++ p)) (escape_like-cons c s)
    ∙ (ap (tokens false) (append_assoc (escape_byte c) (escape_like s) p)
        ∙ (tokens-escape_byte c (escape_like s ++ p)
            ∙ ap (λ l. exact c ∷ l) (tokens-escape_like s p)))

module _ (fold : ℕ → ℕ) where
  any_suffix_end : (s : Str) → any_suffix (matches fold []) s ≡ true
  any_suffix_end [] = refl
  any_suffix_end (c ∷ s) = any_suffix_end s

  matches-exacts :
      (term s : Str)
      → matches fold (exacts term ++ any_text ∷ []) s ≡ has_prefix (map fold s) (map fold term)
  unfolding has_prefix
  matches-exacts [] s = any_suffix_end s ∙ sym (has_prefix_nil (map fold s))
    where
      has_prefix_nil : (t : Str) → has_prefix t [] ≡ true
      has_prefix_nil [] = refl
      has_prefix_nil (c ∷ t) = refl
  matches-exacts (c ∷ term) [] = refl
  matches-exacts (c ∷ term) (d ∷ s) = ap (λ b. (fold d == fold c) && b) (matches-exacts term s)

  any_suffix-contains :
      (term s : Str)
      → any_suffix (matches fold (exacts term ++ any_text ∷ [])) s
        ≡ contains (map fold s) (map fold term)
  unfolding contains
  any_suffix-contains term [] = matches-exacts term []
  any_suffix-contains term (c ∷ s) =
      ap (λ b. b || any_suffix (matches fold (exacts term ++ any_text ∷ [])) s)
        (matches-exacts term (c ∷ s))
      ∙ ap (λ b. has_prefix (map fold (c ∷ s)) (map fold term) || b) (any_suffix-contains term s)

  -- The pattern that a search builds of a term matches the texts that contain the term, up to case: the percent signs,
  -- underscores and backslashes of the term stand for themselves.
  pub like_pattern-contains :
      (term s : Str) → like fold (like_pattern term) s ≡ contains (map fold s) (map fold term)
  like_pattern-contains term s =
      ap (λ ts. any_suffix (matches fold ts) s) (tokens-escape_like term (b'%' ∷ []))
      ∙ any_suffix-contains term s

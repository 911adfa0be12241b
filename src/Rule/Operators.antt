-- ===== src/Rule/Operators.antt =====
-- What the operators of `matchOperator` decide.
use mathlib.Core.Bool.{and-eq-true_iff, or-true}
use promolog.Prelude.{
  ◌≡◌, ◌≢◌, refl, ap, ◌↔◌, inl, inr, Bool, true, false, Option, some, [], ◌∷◌, ◌++◌, arith, Str,
  lit, str_eq, str_eq_iff, str_eq_of_ne, has_prefix, contains, ◌==◌, ==_iff, Bool-cases, ==_refl,
}
use promolog.Rule.{match_operator}

has_prefix_sound : (s p : Str) → has_prefix s p ≡ true → (rest : Str) × (s ≡ p ++ rest)
unfolding has_prefix
has_prefix_sound s [] h = (s, refl)
has_prefix_sound [] (b ∷ p) h = cc h
has_prefix_sound (a ∷ s) (b ∷ p) h =
    let (same, more) = (and-eq-true_iff (a == b) (has_prefix s p)).0 h in
    let (rest, e) = has_prefix_sound s p more in (rest, cc ((==_iff a b).0 same, e))

has_prefix-append : (p rest : Str) → has_prefix (p ++ rest) p ≡ true
unfolding has_prefix
has_prefix-append [] rest = refl
has_prefix-append (b ∷ p) rest = rw (==_refl b) (has_prefix-append p rest)

contains_sound :
    (s p : Str) → contains s p ≡ true → (before after : Str) × (s ≡ before ++ (p ++ after))
unfolding contains
contains_sound [] p h = let (rest, e) = has_prefix_sound [] p h in ([], rest, e)
contains_sound (a ∷ s) p h = elim (Bool-cases (has_prefix (a ∷ s) p)) [
  | inl now ↦ let (rest, e) = has_prefix_sound (a ∷ s) p now in ([], rest, e)
  | inr later ↦
      let (before, after, e) = contains_sound s p (rw later at h) in
      (a ∷ before, after, ap (λ l. a ∷ l) e)
]

contains_of_prefix : (s p : Str) → has_prefix s p ≡ true → contains s p ≡ true
unfolding contains
contains_of_prefix [] p h = h
contains_of_prefix (a ∷ s) p h = rw h

contains-append : (before p after : Str) → contains (before ++ (p ++ after)) p ≡ true
unfolding contains
contains-append [] p after = contains_of_prefix (p ++ after) p (has_prefix-append p after)
contains-append (a ∷ before) p after = rw (contains-append before p after) (or-true _)

unknown_operator :
    (path_match : Str → Str → Option Bool) (v w op : Str)
    → op ≢ lit "equals"
    → op ≢ lit "contains"
    → op ≢ lit "starts_with"
    → op ≢ lit "matches_glob"
    → match_operator path_match op v w ≡ false
unfolding match_operator
unknown_operator path_match v w op a b c d = rw (
  str_eq_of_ne op (lit "equals") a,
  str_eq_of_ne op (lit "contains") b,
  str_eq_of_ne op (lit "starts_with") c,
  str_eq_of_ne op (lit "matches_glob") d,
)

-- The four operators by name: `equals` is equality, `contains` is that the value stands somewhere
-- in the field, `starts_with` that it stands at its start, and `matches_glob` that `path.Match`
-- reports a match and no error. Any other operator accepts nothing.
pub match_operator_iff :
    (path_match : Str → Str → Option Bool) (v w : Str)
    → ((match_operator path_match (lit "equals") v w ≡ true) ↔ (v ≡ w))
      × ((match_operator path_match (lit "contains") v w ≡ true)
          ↔ ((before after : Str) × (v ≡ before ++ (w ++ after))))
      × ((match_operator path_match (lit "starts_with") v w ≡ true)
          ↔ ((rest : Str) × (v ≡ w ++ rest)))
      × ((match_operator path_match (lit "matches_glob") v w ≡ true) ↔ (path_match w v ≡ some true))
      × ((op : Str)
          → op ≢ lit "equals"
          → op ≢ lit "contains"
          → op ≢ lit "starts_with"
          → op ≢ lit "matches_glob"
          → match_operator path_match op v w ≡ false)
unfolding match_operator lit str_eq
match_operator_iff path_match v w = (
  str_eq_iff v w,
  (contains_sound v w, λ (before, after, e). rw e (contains-append before w after)),
  (has_prefix_sound v w, λ (rest, e). rw e (has_prefix-append w rest)),
  (λ h. ground arith, λ h. rw h),
  unknown_operator path_match v w,
)

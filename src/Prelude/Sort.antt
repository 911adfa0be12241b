-- ===== src/Prelude/Sort.antt =====
-- `sort.Strings`, the order of Go's strings by their bytes, and sets of strings as lists.
use mathlib.Core.Path.{◌≡◌, refl, sym, ap, ◌∙◌}
use mathlib.Core.Logic.{inl, inr}
use mathlib.Core.Bool.{Bool, true, false, ◌||◌}
use mathlib.Core.List.{List, [], ◌∷◌}
use native.Mathlib.Omega.{arith}
use promolog.Prelude.Tests.{ltb, ◌==◌, if◌then◌else◌, Bool-cases}
use promolog.Prelude.Lists.{All}
use promolog.Prelude.Text.{Str, str_eq, str_eq_iff}

-- `a <= b`.
abbrev pub leb_str : Str → Str → Bool
leb_str [] t = true
leb_str (a ∷ s) [] = false
leb_str (a ∷ s) (b ∷ t) =
    let rest = leb_str s t in if ltb a b then true else if a == b then rest else false

unfoldable pub insert_sorted : Str → List Str → List Str
insert_sorted s [] = s ∷ []
insert_sorted s (t ∷ ts) =
    let rest = insert_sorted s ts in if leb_str s t then s ∷ t ∷ ts else t ∷ rest

-- The library's algorithm is another; the result of a sort by a total order is one.
unfoldable pub sort_strings : List Str → List Str
unfolding insert_sorted
sort_strings [] = []
sort_strings (s ∷ ts) = insert_sorted s (sort_strings ts)

abbrev pub has_str : Str → List Str → Bool
has_str s [] = false
has_str s (t ∷ ts) = str_eq t s || has_str s ts

-- `set[s] = struct{}{}`.
unfoldable pub add_str : Str → List Str → List Str
add_str s ts = if has_str s ts then ts else s ∷ ts

abbrev pub IsDistinct : List Str → Type 0
IsDistinct [] = Unit
IsDistinct (t ∷ ts) = (has_str t ts ≡ false) × IsDistinct ts

abbrev pub IsSorted : List Str → Type 0
IsSorted [] = Unit
IsSorted (t ∷ ts) = All (λ s. leb_str t s ≡ true) ts × IsSorted ts

leb_str_total : (s t : Str) → leb_str s t ≡ false → leb_str t s ≡ true
leb_str_total [] t h = cc h
leb_str_total (a ∷ s) [] h = refl
leb_str_total (a ∷ s) (b ∷ t) h = ground (arith, leb_str_total s t)

leb_str_trans : (s t u : Str) → leb_str s t ≡ true → leb_str t u ≡ true → leb_str s u ≡ true
leb_str_trans [] t u h k = refl
leb_str_trans (a ∷ s) [] u h k = cc h
leb_str_trans (a ∷ s) (b ∷ t) [] h k = cc k
leb_str_trans (a ∷ s) (b ∷ t) (c ∷ u) h k = ground (arith, leb_str_trans s t u)

or_swap : (a b c : Bool) → (a || (b || c)) ≡ (b || (a || c))
or_swap true true c = refl
or_swap true false c = refl
or_swap false true c = refl
or_swap false false c = refl

pub has_str-insert_sorted :
    (j s : Str) (ts : List Str) → has_str j (insert_sorted s ts) ≡ (str_eq s j || has_str j ts)
unfolding insert_sorted
has_str-insert_sorted j s [] = refl
has_str-insert_sorted j s (t ∷ ts) = elim (Bool-cases (leb_str s t)) [
  | inl le ↦ rw le refl
  | inr gt ↦ rw gt (
      ap (λ b. str_eq t j || b) (has_str-insert_sorted j s ts)
      ∙ or_swap (str_eq t j) (str_eq s j) (has_str j ts))
]

pub has_str-sort_strings : (j : Str) (ts : List Str) → has_str j (sort_strings ts) ≡ has_str j ts
unfolding sort_strings
has_str-sort_strings j [] = refl
has_str-sort_strings j (t ∷ ts) =
    has_str-insert_sorted j t (sort_strings ts)
    ∙ ap (λ b. str_eq t j || b) (has_str-sort_strings j ts)

All-insert_sorted :
    (P : Str → Type 0) (s : Str) (ts : List Str) → P s → All P ts → All P (insert_sorted s ts)
unfolding insert_sorted
All-insert_sorted P s [] p h = (p, tt)
All-insert_sorted P s (t ∷ ts) p (q, h) = elim (Bool-cases (leb_str s t)) [
  | inl le ↦ rw le (p, (q, h))
  | inr gt ↦ rw gt (q, All-insert_sorted P s ts p h)
]

All-above :
    (s t : Str) (ts : List Str)
    → leb_str s t ≡ true
    → All (λ u. leb_str t u ≡ true) ts
    → All (λ u. leb_str s u ≡ true) ts
All-above s t [] h all = tt
All-above s t (u ∷ ts) h (k, all) = (leb_str_trans s t u h k, All-above s t ts h all)

insert_sorted-IsSorted : (s : Str) (ts : List Str) → IsSorted ts → IsSorted (insert_sorted s ts)
unfolding insert_sorted
insert_sorted-IsSorted s [] h = (tt, tt)
insert_sorted-IsSorted s (t ∷ ts) (all, h) = elim (Bool-cases (leb_str s t)) [
  | inl le ↦ rw le ((le, All-above s t ts le all), (all, h))
  | inr gt ↦ rw gt (
    All-insert_sorted (λ u. leb_str t u ≡ true) s ts (leb_str_total s t gt) all,
    insert_sorted-IsSorted s ts h,
  )
]

insert_sorted-IsDistinct :
    (s : Str) (ts : List Str)
    → has_str s ts ≡ false
    → IsDistinct ts
    → IsDistinct (insert_sorted s ts)
unfolding insert_sorted
insert_sorted-IsDistinct s [] new h = (refl, tt)
insert_sorted-IsDistinct s (t ∷ ts) new (fresh, h) = elim (Bool-cases (leb_str s t)) [
  | inl le ↦ rw le (new, (fresh, h))
  | inr gt ↦ rw gt (
    has_str-insert_sorted t s ts ∙ ground (arith, str_eq_iff s t, str_eq_iff t s),
    insert_sorted-IsDistinct s ts (ground arith) h,
  )
]

pub sort_strings-IsSorted : (ts : List Str) → IsSorted (sort_strings ts)
unfolding sort_strings
sort_strings-IsSorted [] = tt
sort_strings-IsSorted (t ∷ ts) =
    insert_sorted-IsSorted t (sort_strings ts) (sort_strings-IsSorted ts)

pub sort_strings-IsDistinct : (ts : List Str) → IsDistinct ts → IsDistinct (sort_strings ts)
unfolding sort_strings
sort_strings-IsDistinct [] h = tt
sort_strings-IsDistinct (t ∷ ts) (new, h) =
    insert_sorted-IsDistinct t (sort_strings ts) (has_str-sort_strings t ts ∙ new)
      (sort_strings-IsDistinct ts h)

pub has_str-add_str :
    (j s : Str) (ts : List Str) → has_str j (add_str s ts) ≡ (str_eq s j || has_str j ts)
unfolding add_str
has_str-add_str j s ts = elim (Bool-cases (has_str s ts)) [
  | inl old ↦ elim (Bool-cases (str_eq s j)) [
    | inl same ↦ rw (old, same) (ap (λ k. has_str k ts) (sym ((str_eq_iff s j).0 same)) ∙ old)
    | inr other ↦ rw (old, other) refl
  ]
  | inr new ↦ rw new refl
]

pub add_str-IsDistinct : (s : Str) (ts : List Str) → IsDistinct ts → IsDistinct (add_str s ts)
unfolding add_str
add_str-IsDistinct s ts h = elim (Bool-cases (has_str s ts)) [
  | inl old ↦ rw old h
  | inr new ↦ rw new (new, h)
]

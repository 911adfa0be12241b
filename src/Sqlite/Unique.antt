-- ===== src/Sqlite/Unique.antt =====
-- Rows that no two of share a request ID: what a test keeps of them, and what deleting by ID leaves.
use mathlib.Core.List.{Perm, foldr}
use mathlib.Core.List.Perm
use mathlib.Core.Bool.{Bool-set}
use promolog.Prelude.{
  List, [], ◌∷◌, Bool, false, ◌&&◌, ◌||◌, Bool-cases, inl, inr, ◌≡◌, refl, sym, ◌∙◌, arith, Str,
  str_eq, str_eq_iff, str_eq_refl, keep, All,
}
use promolog.Sqlite.Row.{Row}
use promolog.Sqlite.Table.{has_id}

abbrev pub NodupIds : List Row → Type 0
NodupIds [] = Unit
NodupIds (r ∷ rs) = (has_id r.request_id rs ≡ false) × NodupIds rs

-- Whether an ID is among some IDs.
abbrev pub id_in : Str → List Str → Bool
id_in id [] = false
id_in id (j ∷ ids) = str_eq id j || id_in id ids

pub keep_ext :
    (p q : Row → Bool) → ((r : Row) → p r ≡ q r) → (rs : List Row) → keep p rs ≡ keep q rs
keep_ext p q h [] = refl
keep_ext p q h (r ∷ rs) = rw (h r, keep_ext p q h rs)

pub keep-keep : (p q : Row → Bool) (rs : List Row) → keep p (keep q rs) ≡ keep (λ r. q r && p r) rs
keep-keep p q [] = refl
keep-keep p q (r ∷ rs) = ground (arith, keep-keep p q rs)

has_id-keep :
    (p : Row → Bool) (id : Str) (rs : List Row)
    → has_id id rs ≡ false
    → has_id id (keep p rs) ≡ false
unfolding has_id
has_id-keep p id [] h = refl
has_id-keep p id (r ∷ rs) h = ground (arith, has_id-keep p id rs)

pub keep-NodupIds : (p : Row → Bool) (rs : List Row) → NodupIds rs → NodupIds (keep p rs)
keep-NodupIds p [] h = tt
keep-NodupIds p (r ∷ rs) (new, h) = elim (Bool-cases (p r)) [
  | inl on ↦ rw on (has_id-keep p r.request_id rs new, keep-NodupIds p rs h)
  | inr off ↦ rw off (keep-NodupIds p rs h)
]

pub keep_cong : (p q : Row → Bool) (rs : List Row) → All (λ r. p r ≡ q r) rs → keep p rs ≡ keep q rs
keep_cong p q [] h = refl
keep_cong p q (r ∷ rs) (e, h) = rw (e, keep_cong p q rs h)

All-zip :
    {P Q R : Row → Type 0} (rs : List Row)
    → ((r : Row) → P r → Q r → R r)
    → All P rs
    → All Q rs
    → All R rs
All-zip [] f h k = tt
All-zip (r ∷ rs) f (p, h) (q, k) = (f r p q, All-zip rs f h k)

pub All-map : {P Q : Row → Type 0} (rs : List Row) → ((r : Row) → P r → Q r) → All P rs → All Q rs
All-map [] f h = tt
All-map (r ∷ rs) f (p, h) = (f r p, All-map rs f h)

-- No row of the list has this ID.
others :
    (id : Str) (rs : List Row) → has_id id rs ≡ false → All (λ r. str_eq id r.request_id ≡ false) rs
unfolding has_id
others id [] h = tt
others id (r ∷ rs) h = (
  ground (arith, str_eq_iff id r.request_id, str_eq_iff r.request_id id),
  others id rs (ground arith),
)

has_id-keep_other :
    (p : Row → Bool) (r q : Row) (rs : List Row)
    → str_eq r.request_id q.request_id ≡ false
    → has_id q.request_id (keep p (r ∷ rs)) ≡ has_id q.request_id (keep p rs)
unfolding has_id
has_id-keep_other p r q rs h = ground arith

has_id-keep_first :
    (p : Row → Bool) (r : Row) (rs : List Row)
    → has_id r.request_id (keep p rs) ≡ false
    → has_id r.request_id (keep p (r ∷ rs)) ≡ p r
unfolding has_id
has_id-keep_first p r rs h = ground (arith, str_eq_refl r.request_id)

-- Among rows with different IDs a row's ID is kept exactly where the row is.
pub has_id-keep_own :
    (p : Row → Bool) (rs : List Row)
    → NodupIds rs
    → All (λ r. has_id r.request_id (keep p rs) ≡ p r) rs
has_id-keep_own p [] h = tt
has_id-keep_own p (r ∷ rs) (new, h) = (
  has_id-keep_first p r rs (has_id-keep p r.request_id rs new),
  All-zip rs (λ q e own. has_id-keep_other p r q rs e ∙ own) (others r.request_id rs new)
      (has_id-keep_own p rs h),
)

step : (p : Row → Bool) → Str → Row → Bool → Bool
step p id r b = (p r && str_eq r.request_id id) || b

step_comm :
    (p : Row → Bool) (id : Str) (r q : Row) (b : Bool)
    → step p id r (step p id q b) ≡ step p id q (step p id r b)
unfolding step
step_comm p id r q b = ground arith

has_id-foldr :
    (p : Row → Bool) (id : Str) (rs : List Row) → has_id id (keep p rs) ≡ foldr (step p id) false rs
unfolding has_id step
has_id-foldr p id [] = refl
has_id-foldr p id (r ∷ rs) = ground (arith, has_id-foldr p id rs)

-- The order of the rows does not matter to what is kept of them.
pub has_id-keep_perm :
    (p : Row → Bool) (id : Str) {xs ys : List Row}
    → Perm xs ys
    → has_id id (keep p xs) ≡ has_id id (keep p ys)
unfolding step
has_id-keep_perm p id {xs} {ys} perm =
    has_id-foldr p id xs
    ∙ (Perm.foldr-eq Bool-set (step p id) (step_comm p id) perm false ∙ sym (has_id-foldr p id ys))

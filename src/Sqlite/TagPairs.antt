-- ===== src/Sqlite/TagPairs.antt =====
-- The sets of tag keys and tag values of `AvailableFilters`, pair by pair.
use promolog.Prelude.{
  List, [], ◌∷◌, ◌++◌, Bool, true, false, ◌&&◌, ◌||◌, Bool-cases, inl, inr, Option, some, ◌≡◌, refl,
  sym, ap, ◌∙◌, subst, Str, str_eq, str_eq_iff, Dict, lookup, insert, lookup-insert, if◌then◌else◌,
}
use promolog.Prelude.Sort.{has_str, add_str, IsDistinct, has_str-add_str, add_str-IsDistinct}
use promolog.Sqlite.Filters.{TagSets, values_of, set_of, add_tag, add_tag_map}

abbrev pub has_key : Str → List (Str × Str) → Bool
has_key j [] = false
has_key j ((k, v) ∷ ps) = str_eq k j || has_key j ps

abbrev pub has_pair : Str → Str → List (Str × Str) → Bool
has_pair j w [] = false
has_pair j w ((k, v) ∷ ps) = (str_eq k j && str_eq v w) || has_pair j w ps

pub or_rotate : (a b c : Bool) → (a || (b || c)) ≡ ((b || a) || c)
or_rotate true true c = refl
or_rotate true false c = refl
or_rotate false true c = refl
or_rotate false false c = refl

or_assoc : (a b c : Bool) → ((a || b) || c) ≡ (a || (b || c))
or_assoc true b c = refl
or_assoc false b c = refl

pub has_key-append :
    (j : Str) (ps qs : List (Str × Str)) → has_key j (ps ++ qs) ≡ (has_key j ps || has_key j qs)
has_key-append j [] qs = refl
has_key-append j ((k, v) ∷ ps) qs =
    ap (λ b. str_eq k j || b) (has_key-append j ps qs)
    ∙ sym (or_assoc (str_eq k j) (has_key j ps) (has_key j qs))

pub has_pair-append :
    (j w : Str) (ps qs : List (Str × Str))
    → has_pair j w (ps ++ qs) ≡ (has_pair j w ps || has_pair j w qs)
has_pair-append j w [] qs = refl
has_pair-append j w ((k, v) ∷ ps) qs =
    ap (λ b. (str_eq k j && str_eq v w) || b) (has_pair-append j w ps qs)
    ∙ sym (or_assoc (str_eq k j && str_eq v w) (has_pair j w ps) (has_pair j w qs))

pub has_pair-key :
    (j w : Str) (ps : List (Str × Str)) → has_key j ps ≡ false → has_pair j w ps ≡ false
has_pair-key j w [] h = refl
has_pair-key j w ((k, v) ∷ ps) h = elim (Bool-cases (str_eq k j)) [
  | inl same ↦ cc (rw same at h)
  | inr other ↦ rw other (has_pair-key j w ps (rw other at h))
]

pub set_of-if :
    (b : Bool) (vs : List Str) (o : Option (List Str))
    → set_of (if b then some vs else o) ≡ (if b then vs else set_of o)
set_of-if true vs o = refl
set_of-if false vs o = refl

-- The values of a key, after one more pair.
pub values_of-insert :
    (j k : Str) (vs : List Str) (values : Dict (List Str))
    → values_of j (insert k vs values) ≡ (if str_eq k j then vs else values_of j values)
values_of-insert j k vs values =
    ap set_of (lookup-insert k j vs values) ∙ set_of-if (str_eq k j) vs (lookup j values)

has_str-add_tag :
    (j w k v : Str) (sets : TagSets)
    → has_str w (values_of j (add_tag k v sets).values)
      ≡ ((str_eq k j && str_eq v w) || has_str w (values_of j sets.values))
unfolding add_tag
has_str-add_tag j w k v sets =
    ap (has_str w) (values_of-insert j k (add_str v (values_of k sets.values)) sets.values)
    ∙ elim (Bool-cases (str_eq k j)) [
      | inl same ↦ rw same (
          has_str-add_str w v (values_of k sets.values)
          ∙ ap (λ i. str_eq v w || has_str w (values_of i sets.values)) ((str_eq_iff k j).0 same))
      | inr other ↦ rw other refl
    ]

pub has_str-add_tag_map :
    (j : Str) (m : Dict Str) (sets : TagSets)
    → has_str j (add_tag_map m sets).keys ≡ (has_key j m || has_str j sets.keys)
unfolding add_tag_map add_tag
has_str-add_tag_map j [] sets = refl
has_str-add_tag_map j ((k, v) ∷ m) sets =
    has_str-add_tag_map j m (add_tag k v sets)
    ∙ (ap (λ b. has_key j m || b) (has_str-add_str j k sets.keys)
        ∙ or_rotate (has_key j m) (str_eq k j) (has_str j sets.keys))

pub values-add_tag_map :
    (j w : Str) (m : Dict Str) (sets : TagSets)
    → has_str w (values_of j (add_tag_map m sets).values)
      ≡ (has_pair j w m || has_str w (values_of j sets.values))
unfolding add_tag_map
values-add_tag_map j w [] sets = refl
values-add_tag_map j w ((k, v) ∷ m) sets =
    values-add_tag_map j w m (add_tag k v sets)
    ∙ (ap (λ b. has_pair j w m || b) (has_str-add_tag j w k v sets)
        ∙ or_rotate (has_pair j w m) (str_eq k j && str_eq v w)
            (has_str w (values_of j sets.values)))

-- No key and no value of a key is there twice.
abbrev pub AllDistinct : TagSets → Type 0
AllDistinct sets = IsDistinct sets.keys × ((j : Str) → IsDistinct (values_of j sets.values))

add_tag-AllDistinct :
    (k v : Str) (sets : TagSets) → AllDistinct sets → AllDistinct (add_tag k v sets)
unfolding add_tag
add_tag-AllDistinct k v sets (keys, values) = (
  add_str-IsDistinct k sets.keys keys,
  λ j.
      subst IsDistinct
        (sym (values_of-insert j k (add_str v (values_of k sets.values)) sets.values))
        (elim (Bool-cases (str_eq k j)) [
          | inl same ↦ rw same (add_str-IsDistinct v (values_of k sets.values) (values k))
          | inr other ↦ rw other (values j)
        ]),
)

pub add_tag_map-AllDistinct :
    (m : Dict Str) (sets : TagSets) → AllDistinct sets → AllDistinct (add_tag_map m sets)
unfolding add_tag_map
add_tag_map-AllDistinct [] sets h = h
add_tag_map-AllDistinct ((k, v) ∷ m) sets h =
    add_tag_map-AllDistinct m (add_tag k v sets) (add_tag-AllDistinct k v sets h)

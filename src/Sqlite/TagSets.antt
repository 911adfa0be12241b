-- ===== src/Sqlite/TagSets.antt =====
-- The tag keys and tag values that `AvailableFilters` offers, beside the tags of the rows.
use promolog.Prelude.{
  List, [], ◌∷◌, ◌++◌, Bool, true, false, ◌||◌, Bool-cases, inl, inr, Option, none, some,
  Option-cases, ◌≡◌, refl, sym, ap, ◌∙◌, subst, Str, str_eq, Dict, lookup, is_empty,
}
use promolog.Prelude.Sort.{
  sort_strings, has_str, IsDistinct, IsSorted, has_str-sort_strings, sort_strings-IsSorted,
  sort_strings-IsDistinct,
}
use promolog.Sqlite.Row.{Json}
use promolog.Sqlite.Filters.{
  FilterOptions, TagSets, values_of, add_tag_map, sort_values, finish_tags, decode_tags, add_rows,
  tag_sets,
}
use promolog.Sqlite.TagPairs.{
  has_key, has_pair, or_rotate, has_key-append, has_pair-append, has_pair-key, has_str-add_tag_map,
  values-add_tag_map, AllDistinct, add_tag_map-AllDistinct,
}

module _ (json : Json) where
  -- The tags of the rows that can be decoded, as pairs.
  abbrev pub pairs_of : List (Option Str) → List (Str × Str)
  pairs_of [] = []
  pairs_of (raw ∷ raws) = elim (decode_tags json raw) [
    | none ↦ pairs_of raws
    | some m ↦ m ++ pairs_of raws
  ]

  -- What the loop over the rows adds.
  record Adds (raws : List (Option Str)) (sets : TagSets) : Type 0 where
    keys :
        (j : Str)
        → has_str j (add_rows json raws sets).keys
          ≡ (has_key j (pairs_of raws) || has_str j sets.keys)
    values :
        (j w : Str)
        → has_str w (values_of j (add_rows json raws sets).values)
          ≡ (has_pair j w (pairs_of raws) || has_str w (values_of j sets.values))
    distinct : AllDistinct sets → AllDistinct (add_rows json raws sets)

  skipped :
      (raw : Option Str) (raws : List (Option Str)) (sets : TagSets)
      → decode_tags json raw ≡ none
      → Adds raws sets
      → Adds (raw ∷ raws) sets
  unfolding add_rows
  skipped raw raws sets none_there a = record {
    keys = λ j. rw (none_there, add_rows, pairs_of) (a.keys j);
    values = λ j w. rw (none_there, add_rows, pairs_of) (a.values j w);
    distinct = λ h. rw (none_there, add_rows) (a.distinct h);
  }

  added :
      (raw : Option Str) (raws : List (Option Str)) (m : Dict Str) (sets : TagSets)
      → decode_tags json raw ≡ some m
      → Adds raws (add_tag_map m sets)
      → Adds (raw ∷ raws) sets
  unfolding add_rows
  added raw raws m sets there a = record {
    keys = λ j.
        rw (there, add_rows, pairs_of)
          (a.keys j
            ∙ (ap (λ b. has_key j (pairs_of raws) || b) (has_str-add_tag_map j m sets)
                ∙ (or_rotate (has_key j (pairs_of raws)) (has_key j m) (has_str j sets.keys)
                    ∙ ap (λ b. b || has_str j sets.keys)
                        (sym (has_key-append j m (pairs_of raws))))));
    values = λ j w.
        rw (there, add_rows, pairs_of)
          (a.values j w
            ∙ (ap (λ b. has_pair j w (pairs_of raws) || b) (values-add_tag_map j w m sets)
                ∙ (or_rotate (has_pair j w (pairs_of raws)) (has_pair j w m)
                      (has_str w (values_of j sets.values))
                    ∙ ap (λ b. b || has_str w (values_of j sets.values))
                        (sym (has_pair-append j w m (pairs_of raws))))));
    distinct = λ h. rw (there, add_rows) (a.distinct (add_tag_map-AllDistinct m sets h));
  }

  add_rows-Adds : (raws : List (Option Str)) (sets : TagSets) → Adds raws sets
  unfolding add_rows
  add_rows-Adds [] sets = record { keys = λ j. refl; values = λ j w. refl; distinct = λ h. h }
  add_rows-Adds (raw ∷ raws) sets = elim (Option-cases (decode_tags json raw)) [
    | inl none_there ↦ skipped raw raws sets none_there (add_rows-Adds raws sets)
    | inr (m, there) ↦ added raw raws m sets there (add_rows-Adds raws (add_tag_map m sets))
  ]

  -- The values that are offered for a key.
  abbrev pub offered : Str → Option (Dict (List Str)) → List Str
  offered k none = []
  offered k (some tags) = values_of k tags

  -- The keys and the values of some pairs, each once and in order.
  pub record IsTagOptions (opts : FilterOptions) (ps : List (Str × Str)) : Type 0 where
    pub keys_seen : (k : Str) → has_str k opts.tag_keys ≡ has_key k ps
    pub values_seen : (k v : Str) → has_str v (offered k opts.tags) ≡ has_pair k v ps
    pub keys_distinct : IsDistinct opts.tag_keys
    pub keys_sorted : IsSorted opts.tag_keys
    pub values_distinct : (k : Str) → IsDistinct (offered k opts.tags)
    pub values_sorted : (k : Str) → IsSorted (offered k opts.tags)

  values_of-sort_values :
      (k : Str) (values : Dict (List Str))
      → values_of k (sort_values values) ≡ sort_strings (values_of k values)
  unfolding lookup sort_strings
  values_of-sort_values k [] = refl
  values_of-sort_values k ((j, vs) ∷ values) = elim (Bool-cases (str_eq j k)) [
    | inl same ↦ rw same refl
    | inr other ↦ rw other (values_of-sort_values k values)
  ]

  or_false : (b : Bool) → (b || false) ≡ b
  or_false true = refl
  or_false false = refl

  -- The sets of all rows.
  sets_keys :
      (raws : List (Option Str)) (k : Str)
      → has_str k (tag_sets json raws).keys ≡ has_key k (pairs_of raws)
  sets_keys raws k =
      (add_rows-Adds raws (record { keys = []; values = [] })).keys k
      ∙ or_false (has_key k (pairs_of raws))

  sets_values :
      (raws : List (Option Str)) (k v : Str)
      → has_str v (values_of k (tag_sets json raws).values) ≡ has_pair k v (pairs_of raws)
  unfolding lookup
  sets_values raws k v =
      (add_rows-Adds raws (record { keys = []; values = [] })).values k v
      ∙ or_false (has_pair k v (pairs_of raws))

  sets_distinct : (raws : List (Option Str)) → AllDistinct (tag_sets json raws)
  unfolding lookup
  sets_distinct raws =
      (add_rows-Adds raws (record { keys = []; values = [] })).distinct (tt, λ j. tt)

  no_key :
      (raws : List (Option Str)) (k : Str)
      → is_empty (tag_sets json raws).keys ≡ true
      → has_key k (pairs_of raws) ≡ false
  no_key raws k h = sym (sets_keys raws k) ∙ none_in (tag_sets json raws).keys h
    where
      none_in : (ts : List Str) → is_empty ts ≡ true → has_str k ts ≡ false
      none_in [] h = refl
      none_in (t ∷ ts) h = cc h

  untouched :
      (opts : FilterOptions) (raws : List (Option Str))
      → is_empty (tag_sets json raws).keys ≡ true
      → opts.tag_keys ≡ []
      → opts.tags ≡ none
      → IsTagOptions opts (pairs_of raws)
  untouched opts raws empty no_keys no_tags = record {
    keys_seen = λ k. ap (has_str k) no_keys ∙ sym (no_key raws k empty);
    values_seen = λ k v.
        ap (λ t. has_str v (offered k t)) no_tags
        ∙ sym (has_pair-key k v (pairs_of raws) (no_key raws k empty));
    keys_distinct = subst IsDistinct (sym no_keys) tt;
    keys_sorted = subst IsSorted (sym no_keys) tt;
    values_distinct = λ k. subst (λ t. IsDistinct (offered k t)) (sym no_tags) tt;
    values_sorted = λ k. subst (λ t. IsSorted (offered k t)) (sym no_tags) tt;
  }

  pub finish_tags-IsTagOptions :
      (opts : FilterOptions) (raws : List (Option Str))
      → opts.tag_keys ≡ []
      → opts.tags ≡ none
      → IsTagOptions (finish_tags opts (tag_sets json raws)) (pairs_of raws)
  unfolding finish_tags
  finish_tags-IsTagOptions opts raws no_keys no_tags =
      elim (Bool-cases (is_empty (tag_sets json raws).keys)) [
        | inl empty ↦ rw empty (untouched opts raws empty no_keys no_tags)
        | inr some_keys ↦ rw some_keys (record {
          keys_seen = λ k. has_str-sort_strings k (tag_sets json raws).keys ∙ sets_keys raws k;
          values_seen = λ k v.
              ap (has_str v) (values_of-sort_values k (tag_sets json raws).values)
              ∙ (has_str-sort_strings v (values_of k (tag_sets json raws).values)
                  ∙ sets_values raws k v);
          keys_distinct = sort_strings-IsDistinct (tag_sets json raws).keys (sets_distinct raws).0;
          keys_sorted = sort_strings-IsSorted (tag_sets json raws).keys;
          values_distinct = λ k.
              subst IsDistinct (sym (values_of-sort_values k (tag_sets json raws).values)) (
                sort_strings-IsDistinct (values_of k (tag_sets json raws).values)
                  ((sets_distinct raws).1 k));
          values_sorted = λ k.
              subst IsSorted (sym (values_of-sort_values k (tag_sets json raws).values))
                (sort_strings-IsSorted (values_of k (tag_sets json raws).values));
        })
      ]

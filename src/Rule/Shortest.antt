-- ===== src/Rule/Shortest.antt =====
-- Which retention rule `RetentionEngine.Match` picks, and how `MinTTL` bounds it.
use promolog.Prelude.{
  ◌≤ℤ◌, ◌<ℤ◌, ltb_ℤ, Bool, true, false, Option, none, some, List, [], ◌∷◌, ◌≡◌, refl, ◌∙◌, ◌⊎◌, inl,
  inr, Bool-cases, All, arith, Str, Dict, if◌then◌else◌, keep, ◌&&◌,
}
use promolog.Rule.{
  RetentionRule, new_retention_engine, field_matches, better, match_retention_rules,
  match_retention,
}

module _ (path_match : Str → Str → Option Bool) (fields : Dict Str) where
  abbrev pub applies : RetentionRule → Bool
  applies r = r.enabled && field_matches path_match r.field r.operator r.value fields

  -- An applying rule of the list whose TTL no applying rule of the list undercuts, with every
  -- applying rule before it strictly longer.
  pub data IsShortest : RetentionRule → List RetentionRule → Type 0 where
    first :
        {r : RetentionRule} {rs : List RetentionRule}
        → applies r ≡ true
        → All (λ q. applies q ≡ true → r.ttl_hours ≤ℤ q.ttl_hours) rs
        → IsShortest r (r ∷ rs)
    later :
        {r q : RetentionRule} {rs : List RetentionRule}
        → (applies q ≡ true → r.ttl_hours <ℤ q.ttl_hours)
        → IsShortest r rs
        → IsShortest r (q ∷ rs)

  -- The best rule so far, and what the loop makes of it.
  abbrev run : Option RetentionRule → List RetentionRule → Option RetentionRule
  run best rules = match_retention_rules path_match fields best (keep (λ r. r.enabled) rules)

  run_skip :
      (best : Option RetentionRule) (r : RetentionRule) (rs : List RetentionRule)
      → applies r ≡ false
      → run best (r ∷ rs) ≡ run best rs
  unfolding match_retention_rules
  run_skip best r rs h = ground arith

  run_take :
      (best : Option RetentionRule) (r : RetentionRule) (rs : List RetentionRule)
      → applies r ≡ true
      → run best (r ∷ rs) ≡ run (if better r best then some r else best) rs
  unfolding match_retention_rules
  run_take best r rs h = ground arith

  -- The rule found so far stays, or a strictly shorter one behind it takes its place.
  abbrev Keeps : RetentionRule → List RetentionRule → Type 0
  Keeps b rs =
      (run (some b) rs ≡ some b) × All (λ q. applies q ≡ true → b.ttl_hours ≤ℤ q.ttl_hours) rs

  abbrev Beats : RetentionRule → List RetentionRule → Type 0
  Beats b rs =
      (r : RetentionRule) × (run (some b) rs ≡ some r)
      × (r.ttl_hours <ℤ b.ttl_hours)
      × IsShortest r rs

  run_some-skip :
      (b q : RetentionRule) (rs : List RetentionRule)
      → applies q ≡ false
      → Keeps b rs ⊎ Beats b rs
      → Keeps b (q ∷ rs) ⊎ Beats b (q ∷ rs)
  run_some-skip b q rs h (inl (e, all)) = inl (run_skip (some b) q rs h ∙ e, (λ t. cc (h, t), all))
  run_some-skip b q rs h (inr (r, e, lt, sh)) =
      inr (r, run_skip (some b) q rs h ∙ e, lt, later (λ t. cc (h, t)) sh)

  run_some-shorter :
      (b q : RetentionRule) (rs : List RetentionRule)
      → applies q ≡ true
      → ltb_ℤ q.ttl_hours b.ttl_hours ≡ true
      → Keeps q rs ⊎ Beats q rs
      → Beats b (q ∷ rs)
  unfolding better
  run_some-shorter b q rs h lt (inl (e, all)) =
      (q, run_take (some b) q rs h ∙ rw lt e, ground arith, first h all)
  run_some-shorter b q rs h lt (inr (r, e, below, sh)) =
      (r, run_take (some b) q rs h ∙ rw lt e, ground arith, later (λ _. below) sh)

  run_some-longer :
      (b q : RetentionRule) (rs : List RetentionRule)
      → applies q ≡ true
      → ltb_ℤ q.ttl_hours b.ttl_hours ≡ false
      → Keeps b rs ⊎ Beats b rs
      → Keeps b (q ∷ rs) ⊎ Beats b (q ∷ rs)
  unfolding better
  run_some-longer b q rs h ge (inl (e, all)) =
      inl (run_take (some b) q rs h ∙ rw ge e, (λ _. ground arith, all))
  run_some-longer b q rs h ge (inr (r, e, below, sh)) =
      inr (r, run_take (some b) q rs h ∙ rw ge e, below, later (λ _. ground arith) sh)

  run_some : (b : RetentionRule) (rs : List RetentionRule) → Keeps b rs ⊎ Beats b rs
  run_some b [] = unfold match_retention_rules in inl (refl, tt)
  run_some b (q ∷ rs) = elim (Bool-cases (applies q)) [
    | inl on ↦ elim (Bool-cases (ltb_ℤ q.ttl_hours b.ttl_hours)) [
      | inl shorter ↦ inr (run_some-shorter b q rs on shorter (run_some q rs))
      | inr longer ↦ run_some-longer b q rs on longer (run_some b rs)
    ]
    | inr off ↦ run_some-skip b q rs off (run_some b rs)
  ]

  -- With nothing found yet.
  abbrev Finds : List RetentionRule → Type 0
  Finds rs =
      ((run none rs ≡ none) × All (λ q. applies q ≡ false) rs)
      ⊎ ((r : RetentionRule) × (run none rs ≡ some r) × IsShortest r rs)

  run_none-take :
      (q : RetentionRule) (rs : List RetentionRule)
      → applies q ≡ true
      → Keeps q rs ⊎ Beats q rs
      → Finds (q ∷ rs)
  unfolding better
  run_none-take q rs h (inl (e, all)) = inr (q, run_take none q rs h ∙ e, first h all)
  run_none-take q rs h (inr (r, e, below, sh)) =
      inr (r, run_take none q rs h ∙ e, later (λ _. below) sh)

  run_none-skip :
      (q : RetentionRule) (rs : List RetentionRule) → applies q ≡ false → Finds rs → Finds (q ∷ rs)
  run_none-skip q rs h (inl (e, all)) = inl (run_skip none q rs h ∙ e, (h, all))
  run_none-skip q rs h (inr (r, e, sh)) =
      inr (r, run_skip none q rs h ∙ e, later (λ t. cc (h, t)) sh)

  run_none : (rs : List RetentionRule) → Finds rs
  run_none [] = unfold match_retention_rules in inl (refl, tt)
  run_none (q ∷ rs) = elim (Bool-cases (applies q)) [
    | inl on ↦ run_none-take q rs on (run_some q rs)
    | inr off ↦ run_none-skip q rs off (run_none rs)
  ]

  -- The retention engine made of a list of rules finds no rule exactly where no enabled rule of
  -- the list accepts its field, and else finds the first of those with the shortest TTL.
  pub match-IsShortest :
      (rules : List RetentionRule)
      → ((match_retention path_match (some (new_retention_engine rules)) fields ≡ none)
          × All (λ q. applies q ≡ false) rules)
        ⊎ ((r : RetentionRule) × (match_retention path_match
                (some (new_retention_engine rules))
                fields
              ≡ some r)
            × IsShortest r rules)
  unfolding match_retention new_retention_engine
  match-IsShortest rules = run_none rules

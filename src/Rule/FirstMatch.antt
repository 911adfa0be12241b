-- ===== src/Rule/FirstMatch.antt =====
-- Which filter rule `RuleEngine.Match` picks.
use promolog.Prelude.{
  Bool, true, Option, none, some, List, [], ◌∷◌, ◌≡◌, refl, ap, sym, ◌∙◌, ◌⊎◌, inl, inr, ◌↔◌,
  Bool-cases, Option-cases, All, arith, Str, Dict, keep, lookup,
}
use promolog.Rule.{
  FilterRule, RuleAction, new_rule_engine, match_operator, field_matches, match_rules, match,
}

-- The first element of a list with a property.
pub data IsFirst {ℓ κ} {A : Type ℓ} (P : A → Type κ) : A → List A → Type (ℓ ⊔ κ) where
  here : {a : A} {xs : List A} → P a → IsFirst P a (a ∷ xs)
  later : {a b : A} {xs : List A} → ¬ P b → IsFirst P a xs → IsFirst P a (b ∷ xs)

module _ (path_match : Str → Str → Option Bool) (fields : Dict Str) where
  -- An enabled rule whose field is among the fields with a value that its operator accepts.
  abbrev pub Selects : FilterRule → Type 0
  Selects r =
      (r.enabled ≡ true)
      × ((v : Str) × (lookup r.field fields ≡ some v)
          × (match_operator path_match r.operator v r.value ≡ true))

  abbrev selects : FilterRule → Bool
  selects r = field_matches path_match r.field r.operator r.value fields

  -- What the engine answers for a rule.
  abbrev pub action_of : FilterRule → RuleAction
  action_of r = record { action = r.action; rule = r }

  selects_iff :
      (r : FilterRule)
      → (selects r ≡ true) ↔ (
          (v : Str) × (lookup r.field fields ≡ some v)
          × (match_operator path_match r.operator v r.value ≡ true))
  unfolding field_matches
  selects_iff r = (
    λ h. elim (Option-cases (lookup r.field fields)) [
      | inl missing ↦ ground arith
      | inr (v, found) ↦ (v, found, rw (found, field_matches) at h)
    ],
    λ (v, found, ok). rw (found, field_matches) ok,
  )

  Selects-cases : (r : FilterRule) → Selects r ⊎ (¬ Selects r)
  Selects-cases r = elim (Bool-cases r.enabled) [
    | inl on ↦ elim (Bool-cases (selects r)) [
      | inl fits ↦ inl (on, (selects_iff r).0 fits)
      | inr misses ↦ inr (λ s. cc (misses, (selects_iff r).1 s.1))
    ]
    | inr off ↦ inr (λ s. cc (off, s.0))
  ]

  -- The engine that the enabled ones of some rules make.
  abbrev outcome : List FilterRule → Option RuleAction
  outcome rules = match_rules path_match fields (keep (λ r. r.enabled) rules)

  outcome_hit :
      (r : FilterRule) (rs : List FilterRule) → Selects r → outcome (r ∷ rs) ≡ some (action_of r)
  unfolding match_rules
  outcome_hit r rs s = rw (s.0, (selects_iff r).1 s.1)

  outcome_miss :
      (r : FilterRule) (rs : List FilterRule) → ¬ Selects r → outcome (r ∷ rs) ≡ outcome rs
  unfolding match_rules
  outcome_miss r rs n = elim (Bool-cases r.enabled) [
    | inl on ↦ elim (Bool-cases (selects r)) [
      | inl fits ↦ absurd (n (on, (selects_iff r).0 fits))
      | inr misses ↦ rw (on, misses)
    ]
    | inr off ↦ rw off
  ]

  outcome_sound :
      (rules : List FilterRule) (a : RuleAction)
      → outcome rules ≡ some a
      → (r : FilterRule) × IsFirst Selects r rules × (a ≡ action_of r)
  outcome_sound [] a e = unfold match_rules in cc e
  outcome_sound (r ∷ rs) a e = elim (Selects-cases r) [
    | inl s ↦ (r, here s, cc (outcome_hit r rs s))
    | inr n ↦
        let (q, first, same) = outcome_sound rs a (sym (outcome_miss r rs n) ∙ e) in
        (q, later n first, same)
  ]

  outcome_complete :
      {r : FilterRule} {rules : List FilterRule}
      → IsFirst Selects r rules
      → outcome rules ≡ some (action_of r)
  outcome_complete (here {a} {xs} s) = outcome_hit a xs s
  outcome_complete (later {a} {b} {xs} n f) = outcome_miss b xs n ∙ outcome_complete f

  outcome-none : (rules : List FilterRule) → outcome rules ≡ none → All (λ r. ¬ Selects r) rules
  outcome-none [] e = tt
  outcome-none (r ∷ rs) e = elim (Selects-cases r) [
    | inl s ↦ cc (outcome_hit r rs s)
    | inr n ↦ (n, outcome-none rs (sym (outcome_miss r rs n) ∙ e))
  ]

  none-outcome : (rules : List FilterRule) → All (λ r. ¬ Selects r) rules → outcome rules ≡ none
  none-outcome [] h = unfold match_rules in refl
  none-outcome (r ∷ rs) (n, h) = outcome_miss r rs n ∙ none-outcome rs h

  -- The engine made of a list of rules answers with an action exactly when some rule of the list
  -- is enabled and accepts the value of its field; the action is that of the first such rule, and
  -- it answers with no match exactly when no rule of the list does so.
  pub match-IsFirst :
      (rules : List FilterRule)
      → ((a : RuleAction)
          → (match path_match (some (new_rule_engine rules)) fields ≡ some a)
            ↔ ((r : FilterRule) × IsFirst Selects r rules × (a ≡ action_of r)))
        × ((match path_match (some (new_rule_engine rules)) fields ≡ none)
            ↔ All (λ r. ¬ Selects r) rules)
  unfolding match new_rule_engine
  match-IsFirst rules = (
    λ a. (outcome_sound rules a, λ (r, first, same). outcome_complete first ∙ ap some (sym same)),
    (outcome-none rules, none-outcome rules),
  )

-- ===== src/Rule/Ttl.antt =====
-- What holds of every rule of a retention engine holds of the rule that it finds; `MinTTL` is a lower
-- bound of the TTLs; and TTLs that fit into an int64 of nanoseconds.
use promolog.Prelude.{
  ◌*◌, ℤ, pos, negsuc, pos_part, ◌≤ℤ◌, ◌<ℤ◌, ◌*ℤ◌, ltb_ℤ, Bool, true, false, Option, none, some,
  List, [], ◌∷◌, ◌≡◌, subst, ◌&&◌, All, arith, Str, Dict, if◌then◌else◌,
}
use promolog.Rule.{
  RetentionRule, RetentionEngine, min_hours, wrap_int, hours_duration, min_ttl, min_ttl_of,
  field_matches, better, match_retention_rules, match_retention,
}

one_of :
    {A : Type 0} (P : A → Type 0) (b : Bool) (q : A) (best : Option A)
    → P q
    → ((a : A) → best ≡ some a → P a)
    → (a : A) → (if b then some q else best) ≡ some a
    → P a
one_of P true q best here found a h = let same : q ≡ a = cc h in subst P same here
one_of P false q best here found a h = found a h

module _ (P : RetentionRule → Type 0) (path_match : Str → Str → Option Bool)
    (fields : Dict Str) where
  match_retention_rules-P :
      (best : Option RetentionRule) (rules : List RetentionRule) (r : RetentionRule)
      → ((b : RetentionRule) → best ≡ some b → P b)
      → All P rules
      → match_retention_rules path_match fields best rules ≡ some r
      → P r
  unfolding match_retention_rules
  match_retention_rules-P best [] r found all h = found r h
  match_retention_rules-P best (q ∷ rules) r found (here, all) h =
      match_retention_rules-P
        (if field_matches path_match q.field q.operator q.value fields && better q best
          then some q
          else best)
        rules r
        (one_of P (field_matches path_match q.field q.operator q.value fields && better q best) q
          best here found)
        all h

abbrev pub IsBelow : ℤ → List RetentionRule → Type 0
IsBelow h rules = All (λ r. h ≤ℤ r.ttl_hours) rules

-- The shorter one of two TTLs, as the loop of `MinTTL` takes it.
abbrev shorter : ℤ → ℤ → ℤ
shorter a h = if ltb_ℤ a h then a else h

shorter_le : (a h : ℤ) → (shorter a h ≤ℤ a) × (shorter a h ≤ℤ h)
shorter_le a h = ground arith

IsBelow-le : (a h : ℤ) (rules : List RetentionRule) → a ≤ℤ h → IsBelow h rules → IsBelow a rules
IsBelow-le a h [] le all = tt
IsBelow-le a h (r ∷ rules) le (here, all) = (omega arith, IsBelow-le a h rules le all)

min_hours-IsBelow :
    (h : ℤ) (rules : List RetentionRule)
    → (min_hours h rules ≤ℤ h) × IsBelow (min_hours h rules) rules
unfolding min_hours
min_hours-IsBelow h [] = (omega arith, tt)
min_hours-IsBelow h (r ∷ rules) =
    let (low, all) = min_hours-IsBelow (shorter r.ttl_hours h) rules in
    let (le_r, le_h) = shorter_le r.ttl_hours h in (omega arith, (omega arith, all))

-- The least hours of the list: a rule's, and at most those of each.
min_hours-attained :
    (P : ℤ → Type 0) (h : ℤ) (rules : List RetentionRule)
    → P h
    → All (λ r. P r.ttl_hours) rules
    → P (min_hours h rules)
unfolding min_hours
min_hours-attained P h [] p all = p
min_hours-attained P h (r ∷ rules) p (here, all) =
    min_hours-attained P (shorter r.ttl_hours h) rules (attained (ltb_ℤ r.ttl_hours h)) all
  where
    attained : (b : Bool) → P (if b then r.ttl_hours else h)
    attained true = here
    attained false = p

-- Hours whose nanoseconds fit into an int64.
abbrev pub FitsHours : ℤ → Type 0
FitsHours h = (pos 1 ≤ℤ h) × (h ≤ℤ pos 2562047)

hours_duration_lem : (h : ℤ) → FitsHours h → hours_duration h ≡ pos (pos_part h * 3600000000000)
unfolding hours_duration wrap_int ◌*ℤ◌
hours_duration_lem (pos n) fits = ground arith
hours_duration_lem (negsuc n) fits = absurd (omega arith)

abbrev pub Fits : List RetentionRule → Type 0
Fits rules = All (λ q. FitsHours q.ttl_hours) rules

Fits-IsBelow :
    (h : ℤ) (rules : List RetentionRule)
    → Fits rules
    → IsBelow h rules
    → All (λ q. FitsHours q.ttl_hours × (h ≤ℤ q.ttl_hours)) rules
Fits-IsBelow h [] fits below = tt
Fits-IsBelow h (r ∷ rules) (f, fits) (b, below) = ((f, b), Fits-IsBelow h rules fits below)

-- Longer hours last longer.
hours_duration-le :
    (a b : ℤ)
    → FitsHours a
    → FitsHours b
    → a ≤ℤ b
    → (hours_duration a ≤ℤ hours_duration b) × (pos 0 <ℤ hours_duration a)
hours_duration-le (pos a) (pos b) fa fb le =
    rw (hours_duration_lem (pos a) fa, hours_duration_lem (pos b) fb) (omega arith, omega arith)
hours_duration-le (negsuc a) b fa fb le = absurd (omega arith)
hours_duration-le (pos a) (negsuc b) fa fb le = absurd (omega arith)

min_ttl_of-le :
    (path_match : Str → Str → Option Bool) (fields : Dict Str) (rules : List RetentionRule)
    (r : RetentionRule)
    → Fits rules
    → match_retention_rules path_match fields none rules ≡ some r
    → (min_ttl_of rules ≤ℤ hours_duration r.ttl_hours) × (pos 0 <ℤ min_ttl_of rules)
unfolding min_ttl_of
min_ttl_of-le path_match fields [] r fits h = unfold match_retention_rules in cc h
min_ttl_of-le path_match fields (q ∷ qs) r (fit, fits) h =
    let m : ℤ = min_hours q.ttl_hours qs in
    let (low, below) = min_hours-IsBelow q.ttl_hours qs in
    let (fit_r, m_le_r) =
      match_retention_rules-P (λ x. FitsHours x.ttl_hours × (m ≤ℤ x.ttl_hours)) path_match fields
        none (q ∷ qs) r (λ b e. cc e) ((fit, low), Fits-IsBelow m qs fits below) h in
    hours_duration-le m r.ttl_hours (min_hours-attained FitsHours q.ttl_hours qs fit fits) fit_r
      m_le_r

-- The TTL of the rule that an engine finds is at least `MinTTL`, and both are positive.
pub min_ttl-le :
    (path_match : Str → Str → Option Bool) (fields : Dict Str) (engine : RetentionEngine)
    (r : RetentionRule)
    → Fits engine.rules
    → match_retention path_match (some engine) fields ≡ some r
    → (min_ttl (some engine) ≤ℤ hours_duration r.ttl_hours) × (pos 0 <ℤ min_ttl (some engine))
unfolding min_ttl match_retention
min_ttl-le path_match fields engine r fits h = min_ttl_of-le path_match fields engine.rules r fits h

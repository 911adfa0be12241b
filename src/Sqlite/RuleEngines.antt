-- ===== src/Sqlite/RuleEngines.antt =====
-- What the engine that `LoadRuleEngine` makes of the stored rules answers.
use mathlib.Core.List.{
  Perm, Mem, mem-cons_self, mem-cons_of_mem, not-mem-nil, eq-or-mem_of_mem-cons,
}
use mathlib.Core.List.Perm
use mathlib.Core.Logic.Or
use promolog.Prelude.{
  ◌≤ℤ◌, ◌<ℤ◌, List, [], ◌∷◌, Bool, Option, none, some, Option-cases, inl, inr, ◌≡◌, refl, sym, ap,
  ◌∙◌, subst, arith, All, Str, Dict,
}
use promolog.Rule.{FilterRule, RuleAction, RuleEngine, new_rule_engine, match}
use promolog.Rule.FirstMatch.{IsFirst, here, later, Selects, action_of, match-IsFirst}
use promolog.Sqlite.Table.{Result-cases, ok, CursorEnd, finished, scan_error, iterate_error}
use promolog.Sqlite.RuleTable.{RuleTable, RuleCursor, IsRuleTable, IsOrdered}
use promolog.Sqlite.Rules.{filter_rules, listed, list_in, load_rule_engine}

module _ {A : Type 0} {P : A → Type 0} where
  All-of_Mem : (xs : List A) → ((a : A) → Mem a xs → P a) → All P xs
  All-of_Mem [] h = tt
  All-of_Mem (x ∷ xs) h = (h x mem-cons_self, All-of_Mem xs (λ a m. h a (mem-cons_of_mem x m)))

  Mem-of_All : ((a : A) → IsProp (P a)) → (xs : List A) → All P xs → (a : A) → Mem a xs → P a
  Mem-of_All prop [] h a m = absurd (not-mem-nil m)
  Mem-of_All prop (x ∷ xs) (p, h) a m =
      Or.elim (prop a) (eq-or-mem_of_mem-cons m) (λ e. subst P (sym e) p)
        (λ n. Mem-of_All prop xs h a n)

  All-Perm : ((a : A) → IsProp (P a)) → {xs ys : List A} → Perm xs ys → All P xs → All P ys
  All-Perm prop {xs} {ys} p h = All-of_Mem ys (λ a m. Mem-of_All prop xs h a ((Perm.mem_iff p).1 m))

module _ (path_match : Str → Str → Option Bool) (fields : Dict Str) where
  abbrev NotOlder : FilterRule → FilterRule → Type 0
  NotOlder a r = Selects path_match fields r → ¬ (r.created_at <ℤ a.created_at)

  -- No rule selects the fields; or the answer is that of an enabled one that does, and none that does is older.
  abbrev pub PicksOldest : List FilterRule → Option RuleAction → Type 0
  PicksOldest stored none = All (λ r. ¬ Selects path_match fields r) stored
  PicksOldest stored (some a) =
      Mem a.rule stored
      × Selects path_match fields a.rule
      × (a ≡ action_of path_match fields a.rule)
      × All (NotOlder a.rule) stored

  first-Mem :
      {r : FilterRule} {rules : List FilterRule}
      → IsFirst (Selects path_match fields) r rules
      → Mem r rules × Selects path_match fields r
  first-Mem (here s) = (mem-cons_self, s)
  first-Mem (later {a} {b} {xs} n f) = let (m, s) = first-Mem f in (mem-cons_of_mem b m, s)

  NotOlder-All :
      (a : FilterRule) (rules : List FilterRule)
      → All (λ p. a.created_at ≤ℤ p.created_at) rules
      → All (NotOlder a) rules
  NotOlder-All a [] h = tt
  NotOlder-All a (r ∷ rules) (le, h) = ((λ s lt. omega arith), NotOlder-All a rules h)

  first-oldest :
      {r : FilterRule} {rules : List FilterRule}
      → IsFirst (Selects path_match fields) r rules
      → IsOrdered filter_rules rules
      → All (NotOlder r) rules
  first-oldest (here {a} {xs} s) (all, h) = ((λ _ lt. omega arith), NotOlder-All a xs all)
  first-oldest (later {a} {b} {xs} n f) (all, h) = ((λ s. absurd (n s)), first-oldest f h)

  picked :
      (rules : List FilterRule) (o : Option RuleAction)
      → match path_match (some (new_rule_engine rules)) fields ≡ o
      → IsOrdered filter_rules rules
      → PicksOldest rules o
  picked rules none h ordered = (match-IsFirst path_match fields rules).1.0 h
  picked rules (some a) h ordered =
      let (r, first, same) = ((match-IsFirst path_match fields rules).0 a).0 h in
      let e : r ≡ a.rule = sym (ap (λ c. c.rule) same) in
      let f : IsFirst (Selects path_match fields) a.rule rules =
        subst (λ q. IsFirst (Selects path_match fields) q rules) e first in
      let (m, s) = first-Mem f in
      (m, s, same ∙ ap (action_of path_match fields) e, first-oldest f ordered)

  PicksOldest-Perm :
      {rules stored : List FilterRule} (o : Option RuleAction)
      → Perm rules stored
      → PicksOldest rules o
      → PicksOldest stored o
  PicksOldest-Perm none p h = All-Perm (λ r. hlevel) p h
  PicksOldest-Perm (some a) p (m, s, e, h) =
      ((Perm.mem_iff p).0 m, s, e, All-Perm (λ r. hlevel) p h)

  module _ (T : RuleTable FilterRule) (laws : IsRuleTable filter_rules T) where
    listed_ok :
        (c : RuleCursor FilterRule T.Error) (x : CursorEnd T.Error)
        → (listed c x).1 ≡ none
        → (x ≡ finished) × (c.found ≡ (listed c x).0)
    listed_ok c finished h = (refl, refl)
    listed_ok c (scan_error e) h = cc h
    listed_ok c (iterate_error e) h = cc h

    list_in_ok :
        (s : T.State)
        → (list_in filter_rules T s).1 ≡ none
        → Perm (list_in filter_rules T s).0 (laws.stored s)
          × IsOrdered filter_rules (list_in filter_rules T s).0
    unfolding list_in
    list_in_ok s h = elim (Result-cases (T.select_rules s)) [
      | inr (e, failed) ↦ cc (rw (failed, list_in) at h)
      | inl (c, got) ↦
          let (end, same) = listed_ok c c.end (rw (got, list_in) at h) in
          rw (got, list_in)
            (subst (λ qs. Perm qs (laws.stored s) × IsOrdered filter_rules qs) same
              (laws.rules_selected s c got end))
    ]

    loaded :
        (s : T.State) (engine : RuleEngine)
        → load_rule_engine T s ≡ ok engine
        → (rules : List FilterRule) × (engine ≡ new_rule_engine rules)
          × Perm rules (laws.stored s)
          × IsOrdered filter_rules rules
    unfolding load_rule_engine
    loaded s engine h =
        let rules : List FilterRule = (list_in filter_rules T s).0 in
        elim (Option-cases (list_in filter_rules T s).1) [
          | inr (e, failed) ↦ cc (rw (failed, load_rule_engine) at h)
          | inl none_failed ↦
              let same : ok (new_rule_engine rules) ≡ ok engine =
                rw (none_failed, load_rule_engine) at h in
              let (p, ordered) = list_in_ok s none_failed in (rules, cc same, p, ordered)
        ]

    -- An engine that was loaded from the table answers with the action of a stored rule that is enabled and selects the
    -- fields, and no stored rule that does so is older; it answers nothing only if no stored rule does so.
    pub load_rule_engine-PicksOldest :
        (s : T.State) (engine : RuleEngine)
        → load_rule_engine T s ≡ ok engine
        → PicksOldest (laws.stored s) (match path_match (some engine) fields)
    load_rule_engine-PicksOldest s engine h =
        let (rules, e, p, ordered) = loaded s engine h in
        let o : Option RuleAction = match path_match (some engine) fields in
        PicksOldest-Perm o p
          (picked rules o (ap (λ q. match path_match (some q) fields) (sym e)) ordered)

-- ===== src/Sqlite/RuleMemory.antt =====
-- A table of rules in memory: the rules in the order of their insertion, all made at one time.
use mathlib.Core.List.{Perm}
use mathlib.Core.List.Perm
use mathlib.Core.Option
use promolog.Prelude.{
  ℕ, ◌+◌, ◌≤◌, leb_ℤ, leb_ℤ_iff, ◌≤ℤ◌, All, ℤ, pos, pos_part, eqb_ℤ, eqb_ℤ_iff, List, [], ◌∷◌, ◌++◌,
  Bool-cases, inl, inr, none, some, Option-cases, ◌≡◌, refl, ap, subst, arith, if◌then◌else◌,
}
use promolog.Trace.{Time}
use promolog.Sqlite.Table.{Result, ok, err, finished}
use promolog.Sqlite.RuleTable.{
  Stamped, RuleTable, RuleCursor, find_rule, count_rules, replace_rules, remove_rules, IsRuleTable,
  IsOrdered,
}

module _ {R : Type 0} (st : Stamped R) where
  -- An ID above all IDs.
  abbrev pub next_id : List R → ℕ
  next_id [] = 1
  next_id (q ∷ qs) = pos_part (st.id q) + next_id qs

  next_id_pos : (qs : List R) → 1 ≤ next_id qs
  next_id_pos [] = omega arith
  next_id_pos (q ∷ qs) = omega (arith, next_id_pos qs)

  new_id : (n : ℕ) (qs : List R) → next_id qs ≤ n → find_rule st (pos n) qs ≡ none
  new_id n [] h = refl
  new_id n (q ∷ qs) h = elim (Bool-cases (eqb_ℤ (st.id q) (pos n))) [
    | inl same ↦
        let e : pos_part (st.id q) ≡ n = ap pos_part ((eqb_ℤ_iff (st.id q) (pos n)).0 same) in
        absurd (omega (arith, e, h, next_id_pos qs))
    | inr other ↦ rw other (new_id n qs (omega (arith, h)))
  ]

  abbrev pub read_memory : ℤ → List R → Result ℕ Time
  read_memory i qs = elim (find_rule st i qs) [ none ↦ err 0 | some q ↦ ok (st.created_at q) ]

  pub read_memory-ok :
      (i : ℤ) (qs : List R) (t : Time)
      → read_memory i qs ≡ ok t
      → Option.map st.created_at (find_rule st i qs) ≡ some t
  read_memory-ok i qs t h = elim (Option-cases (find_rule st i qs)) [
    | inl missing ↦ cc (rw (missing, read_memory) at h)
    | inr (q, found) ↦ rw found (cc (rw (found, read_memory) at h))
  ]

  -- A rule at its place in an ordered list, and the list in its order.
  abbrev pub insert_rule_in_order : R → List R → List R
  insert_rule_in_order r [] = r ∷ []
  insert_rule_in_order r (q ∷ qs) =
      let rest = insert_rule_in_order r qs in
      if leb_ℤ (st.created_at r) (st.created_at q) then r ∷ q ∷ qs else q ∷ rest

  abbrev pub sort_rules : List R → List R
  sort_rules [] = []
  sort_rules (q ∷ qs) = insert_rule_in_order q (sort_rules qs)

  insert_rule-Perm : (r : R) (qs : List R) → Perm (insert_rule_in_order r qs) (r ∷ qs)
  insert_rule-Perm r [] = Perm.refl (r ∷ [])
  insert_rule-Perm r (q ∷ qs) = elim (Bool-cases (leb_ℤ (st.created_at r) (st.created_at q))) [
    | inl le ↦ rw le (Perm.refl (r ∷ q ∷ qs))
    | inr gt ↦ rw gt (Perm.trans (Perm.cons q (insert_rule-Perm r qs)) (Perm.swap r q qs))
  ]

  sort_rules-Perm : (qs : List R) → Perm (sort_rules qs) qs
  sort_rules-Perm [] = Perm.refl []
  sort_rules-Perm (q ∷ qs) =
      Perm.trans (insert_rule-Perm q (sort_rules qs)) (Perm.cons q (sort_rules-Perm qs))

  All-insert_rule :
      (P : R → Type 0) (r : R) (qs : List R) → P r → All P qs → All P (insert_rule_in_order r qs)
  All-insert_rule P r [] p h = (p, tt)
  All-insert_rule P r (q ∷ qs) p (k, h) =
      elim (Bool-cases (leb_ℤ (st.created_at r) (st.created_at q))) [
        | inl le ↦ rw le (p, (k, h))
        | inr gt ↦ rw gt (k, All-insert_rule P r qs p h)
      ]

  All-weaken :
      (a b : ℤ) (qs : List R)
      → a ≤ℤ b
      → All (λ p. b ≤ℤ st.created_at p) qs
      → All (λ p. a ≤ℤ st.created_at p) qs
  All-weaken a b [] h all = tt
  All-weaken a b (q ∷ qs) h (k, all) = (omega arith, All-weaken a b qs h all)

  insert_rule-IsOrdered :
      (r : R) (qs : List R) → IsOrdered st qs → IsOrdered st (insert_rule_in_order r qs)
  insert_rule-IsOrdered r [] h = (tt, tt)
  insert_rule-IsOrdered r (q ∷ qs) (all, h) =
      elim (Bool-cases (leb_ℤ (st.created_at r) (st.created_at q))) [
        | inl le ↦
            let small : st.created_at r ≤ℤ st.created_at q =
              (leb_ℤ_iff (st.created_at r) (st.created_at q)).0 le in
            rw le ((small, All-weaken (st.created_at r) (st.created_at q) qs small all), (all, h))
        | inr gt ↦ rw gt (
          All-insert_rule (λ p. st.created_at q ≤ℤ st.created_at p) r qs (ground arith) all,
          insert_rule-IsOrdered r qs h,
        )
      ]

  sort_rules-IsOrdered : (qs : List R) → IsOrdered st (sort_rules qs)
  sort_rules-IsOrdered [] = tt
  sort_rules-IsOrdered (q ∷ qs) = insert_rule-IsOrdered q (sort_rules qs) (sort_rules-IsOrdered qs)

  abbrev pub rule_memory : RuleTable R
  rule_memory = record {
    State = List R;
    Error = ℕ;
    insert_rule = λ r qs. (qs ++ st.stamp (pos (next_id qs)) (pos 7) r ∷ [], ok (pos (next_id qs)));
    read_created_at = read_memory;
    select_rules = λ qs. ok (record { found = sort_rules qs; end = finished });
    update_rule = λ r qs. (replace_rules st r qs, ok (count_rules st (st.id r) qs));
    delete_rule = λ i qs. (remove_rules st i qs, ok (count_rules st i qs));
  }

  pub memory_inserted :
      (r : R) (qs : List R) (i : ℤ)
      → (rule_memory.insert_rule r qs).1 ≡ ok i
      → (find_rule st i qs ≡ none)
        × ((t : Time) × ((rule_memory.insert_rule r qs).0 ≡ qs ++ st.stamp i t r ∷ []))
  memory_inserted r qs i h =
      let same : pos (next_id qs) ≡ i = cc h in
      (
        subst (λ k. find_rule st k qs ≡ none) same (new_id (next_id qs) qs (omega arith)),
        (pos 7, ap (λ k. qs ++ st.stamp k (pos 7) r ∷ []) same),
      )

  pub memory_selected :
      (qs : List R) (c : RuleCursor R ℕ)
      → rule_memory.select_rules qs ≡ ok c
      → Perm c.found qs × IsOrdered st c.found
  memory_selected qs c h =
      let same : record { found = sort_rules qs; end = finished } ≡ c = cc h in
      subst (λ d. Perm d.found qs × IsOrdered st d.found) same
        (sort_rules-Perm qs, sort_rules-IsOrdered qs)

  abbrev pub rule_memory_laws : IsRuleTable st rule_memory
  rule_memory_laws = record {
    stored = λ qs. qs;
    rule_inserted = memory_inserted;
    insert_rule_left = λ r qs e h. cc h;
    created_at_read = read_memory-ok;
    rules_selected = λ qs c h end. memory_selected qs c h;
    rules_updated = λ r qs n h. (refl, cc h);
    update_rule_left = λ r qs e h. cc h;
    rules_deleted = λ i qs n h. (refl, cc h);
    delete_rule_left = λ i qs e h. cc h;
  }

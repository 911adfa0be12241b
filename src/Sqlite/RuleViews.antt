-- ===== src/Sqlite/RuleViews.antt =====
-- The stored rules as a map from IDs to rules, and what the statements on the rule tables do to that map.
use mathlib.Core.Option
use promolog.Prelude.{
  ◌==◌, ℤ, eqb_ℤ, eqb_ℤ_iff, List, [], ◌∷◌, ◌++◌, true, false, Bool-cases, if_same, or_else,
  or_else-none, inl, inr, Option, none, some, ◌≡◌, refl, sym, ap, ◌∙◌, arith, if◌then◌else◌,
}
use promolog.Trace.{Time}
use promolog.Sqlite.RuleTable.{
  Stamped, find_rule, count_rules, with_columns, replace_rules, remove_rules,
}

abbrev pub View : Type 0 → Type 0
View R = ℤ → Option R

abbrev pub put : {R : Type 0} → ℤ → Option R → View R → View R
put i o v j = if eqb_ℤ i j then o else v j

pub eqb_ℤ_refl : (i : ℤ) → eqb_ℤ i i ≡ true
eqb_ℤ_refl i = (eqb_ℤ_iff i i).1 refl

pub eq_of_test : (i j : ℤ) → eqb_ℤ i j ≡ true → i ≡ j
eq_of_test i j h = (eqb_ℤ_iff i j).0 h

differs : (a i j : ℤ) → eqb_ℤ a i ≡ false → eqb_ℤ a j ≡ true → eqb_ℤ i j ≡ false
differs a i j other this = ground arith

module _ {R : Type 0} (st : Stamped R) where
  pub find_rule-append :
      (j : ℤ) (qs : List R) (r : R)
      → find_rule st j (qs ++ r ∷ [])
        ≡ or_else (find_rule st j qs) (if eqb_ℤ (st.id r) j then some r else none)
  find_rule-append j [] r = refl
  find_rule-append j (q ∷ qs) r = elim (Bool-cases (eqb_ℤ (st.id q) j)) [
    | inl same ↦ rw same refl
    | inr other ↦ rw other (find_rule-append j qs r)
  ]

  pub find_rule-replace_rules :
      (r : R) (j : ℤ) (qs : List R)
      → find_rule st j (replace_rules st r qs) ≡ (
          if eqb_ℤ (st.id r) j
          then Option.map (with_columns st r) (find_rule st j qs)
          else find_rule st j qs)
  find_rule-replace_rules r j [] = sym (if_same (eqb_ℤ (st.id r) j) none)
  find_rule-replace_rules r j (q ∷ qs) = elim (Bool-cases (eqb_ℤ (st.id q) (st.id r))) [
    | inl same ↦
        let e : st.id (with_columns st r q) ≡ st.id r =
          st.id-stamp (st.id q) (st.created_at q) r ∙ eq_of_test (st.id q) (st.id r) same in
        let d : st.id q ≡ st.id r = eq_of_test (st.id q) (st.id r) same in
        elim (Bool-cases (eqb_ℤ (st.id r) j)) [
          | inl this ↦
              let a : eqb_ℤ (st.id (with_columns st r q)) j ≡ true = ap (λ i. eqb_ℤ i j) e ∙ this in
              let b : eqb_ℤ (st.id q) j ≡ true = ap (λ i. eqb_ℤ i j) d ∙ this in
              rw (same, a, this, b) refl
          | inr that ↦
              let a : eqb_ℤ (st.id (with_columns st r q)) j ≡ false =
                ap (λ i. eqb_ℤ i j) e ∙ that in
              let b : eqb_ℤ (st.id q) j ≡ false = ap (λ i. eqb_ℤ i j) d ∙ that in
              rw (same, a, that, b)
                (find_rule-replace_rules r j qs
                  ∙ ap
                      (λ c.
                        if c
                        then Option.map (with_columns st r) (find_rule st j qs)
                        else find_rule st j qs)
                      that)
        ]
    | inr other ↦ elim (Bool-cases (eqb_ℤ (st.id q) j)) [
      | inl this ↦ rw (other, this, differs (st.id q) (st.id r) j other this) refl
      | inr that ↦ rw (other, that) (find_rule-replace_rules r j qs)
    ]
  ]

  pub find_rule-remove_rules :
      (i j : ℤ) (qs : List R)
      → find_rule st j (remove_rules st i qs) ≡ (if eqb_ℤ i j then none else find_rule st j qs)
  find_rule-remove_rules i j [] = sym (if_same (eqb_ℤ i j) none)
  find_rule-remove_rules i j (q ∷ qs) = elim (Bool-cases (eqb_ℤ (st.id q) i)) [
    | inl same ↦
        let d : eqb_ℤ (st.id q) j ≡ eqb_ℤ i j = ap (λ k. eqb_ℤ k j) (eq_of_test (st.id q) i same) in
        rw (same, d) (find_rule-remove_rules i j qs ∙ ground arith)
    | inr other ↦ elim (Bool-cases (eqb_ℤ (st.id q) j)) [
      | inl this ↦ rw (other, this, differs (st.id q) i j other this) refl
      | inr that ↦ rw (other, that) (find_rule-remove_rules i j qs)
    ]
  ]

  -- No rule is counted exactly if none is found.
  pub count_rules-none : (i : ℤ) (qs : List R) → count_rules st i qs ≡ 0 → find_rule st i qs ≡ none
  count_rules-none i [] h = refl
  count_rules-none i (q ∷ qs) h = elim (Bool-cases (eqb_ℤ (st.id q) i)) [
    | inl same ↦ absurd (omega (arith, rw same at h))
    | inr other ↦ rw other (count_rules-none i qs (rw other at h))
  ]

  pub count_rules-some :
      (i : ℤ) (qs : List R)
      → (count_rules st i qs == 0) ≡ false
      → (q : R) × (find_rule st i qs ≡ some q)
  count_rules-some i [] h = cc h
  count_rules-some i (q ∷ qs) h = elim (Bool-cases (eqb_ℤ (st.id q) i)) [
    | inl same ↦ (q, rw same refl)
    | inr other ↦ rw other (count_rules-some i qs (rw other at h))
  ]

  pub replace_rules-missing :
      (r : R) (qs : List R) (j : ℤ)
      → find_rule st (st.id r) qs ≡ none
      → find_rule st j (replace_rules st r qs) ≡ find_rule st j qs
  replace_rules-missing r qs j missing = elim (Bool-cases (eqb_ℤ (st.id r) j)) [
    | inl this ↦
        let e : find_rule st j qs ≡ none =
          ap (λ i. find_rule st i qs) (sym (eq_of_test (st.id r) j this)) ∙ missing in
        rw (find_rule-replace_rules r j qs, this, e) refl
    | inr that ↦ rw (find_rule-replace_rules r j qs, that) refl
  ]

  pub replace_rules-found :
      (r q : R) (qs : List R) (j : ℤ)
      → find_rule st (st.id r) qs ≡ some q
      → find_rule st j (replace_rules st r qs)
        ≡ put (st.id r) (some (with_columns st r q)) (λ i. find_rule st i qs) j
  replace_rules-found r q qs j found = elim (Bool-cases (eqb_ℤ (st.id r) j)) [
    | inl this ↦
        let e : find_rule st j qs ≡ some q =
          ap (λ i. find_rule st i qs) (sym (eq_of_test (st.id r) j this)) ∙ found in
        rw (find_rule-replace_rules r j qs, this, e) refl
    | inr that ↦ rw (find_rule-replace_rules r j qs, that) refl
  ]

  pub remove_rules-missing :
      (i : ℤ) (qs : List R) (j : ℤ)
      → find_rule st i qs ≡ none
      → find_rule st j (remove_rules st i qs) ≡ find_rule st j qs
  remove_rules-missing i qs j missing = elim (Bool-cases (eqb_ℤ i j)) [
    | inl this ↦
        let e : find_rule st j qs ≡ none =
          ap (λ k. find_rule st k qs) (sym (eq_of_test i j this)) ∙ missing in
        rw (find_rule-remove_rules i j qs, this, e) refl
    | inr that ↦ rw (find_rule-remove_rules i j qs, that) refl
  ]

  pub append_new :
      (i : ℤ) (t : Time) (r : R) (qs : List R) (j : ℤ)
      → find_rule st i qs ≡ none
      → find_rule st j (qs ++ st.stamp i t r ∷ [])
        ≡ put i (some (st.stamp i t r)) (λ k. find_rule st k qs) j
  append_new i t r qs j new =
      find_rule-append j qs (st.stamp i t r) ∙ elim (Bool-cases (eqb_ℤ i j)) [
        | inl this ↦
            let e : find_rule st j qs ≡ none =
              ap (λ k. find_rule st k qs) (sym (eq_of_test i j this)) ∙ new in
            let a : eqb_ℤ (st.id (st.stamp i t r)) j ≡ true =
              ap (λ k. eqb_ℤ k j) (st.id-stamp i t r) ∙ this in
            rw (e, a, this) refl
        | inr that ↦
            let a : eqb_ℤ (st.id (st.stamp i t r)) j ≡ false =
              ap (λ k. eqb_ℤ k j) (st.id-stamp i t r) ∙ that in
            rw (a, that) (sym (or_else-none (find_rule st j qs)))
      ]

-- ===== src/Sqlite/RuleTable.antt =====
-- The statements that sqlite/store.go executes on `filter_rules` and `retention_rules`, and what SQLite
-- documents of them: the database chooses a new ID and the time of creation, and a condition on the ID
-- selects exactly the rows with it. A list is in the order of the times of creation, which does not fix
-- the order of rules that were made at the same time.
use mathlib.Core.List.{Perm}
use mathlib.Core.Option
use promolog.Prelude.{
  ℕ, ◌+◌, ℤ, eqb_ℤ, List, [], ◌∷◌, ◌++◌, not, Option, none, some, ◌≡◌, All, ◌≤ℤ◌, keep,
  if◌then◌else◌,
}
use promolog.Trace.{Time}
use promolog.Sqlite.Table.{Result, ok, err, CursorEnd, finished}

-- The columns that the database chooses, and a rule with them.
pub record Stamped (R : Type 0) : Type 0 where
  pub id : R → ℤ
  pub created_at : R → Time
  pub stamp : ℤ → Time → R → R
  pub id-stamp : (i : ℤ) (t : Time) (r : R) → id (stamp i t r) ≡ i
  pub created_at-stamp : (i : ℤ) (t : Time) (r : R) → created_at (stamp i t r) ≡ t

pub record RuleCursor (R E : Type 0) : Type 0 where
  pub found : List R
  pub end : CursorEnd E

-- An INSERT answers with the ID that the database chose.
pub record RuleTable (R : Type 0) : Type 1 where
  pub State : Type 0
  pub Error : Type 0
  pub insert_rule : R → State → State × Result Error ℤ
  pub read_created_at : ℤ → State → Result Error Time
  pub select_rules : State → Result Error (RuleCursor R Error)
  pub update_rule : R → State → State × Result Error ℕ
  pub delete_rule : ℤ → State → State × Result Error ℕ

module _ {R : Type 0} (st : Stamped R) where
  abbrev pub find_rule : ℤ → List R → Option R
  find_rule i [] = none
  find_rule i (q ∷ qs) = let rest = find_rule i qs in if eqb_ℤ (st.id q) i then some q else rest

  -- The number of rules with an ID.
  abbrev pub count_rules : ℤ → List R → ℕ
  count_rules i [] = 0
  count_rules i (q ∷ qs) =
      let rest = count_rules i qs in if eqb_ℤ (st.id q) i then 1 + rest else rest

  -- A rule with the columns of another, but its own ID and time of creation.
  abbrev pub with_columns : R → R → R
  with_columns r q = st.stamp (st.id q) (st.created_at q) r

  abbrev pub replace_rules : R → List R → List R
  replace_rules r [] = []
  replace_rules r (q ∷ qs) =
      (if eqb_ℤ (st.id q) (st.id r) then with_columns r q else q) ∷ replace_rules r qs

  abbrev pub remove_rules : ℤ → List R → List R
  remove_rules i qs = keep (λ q. not (eqb_ℤ (st.id q) i)) qs

  -- In the order of the times of creation.
  abbrev pub IsOrdered : List R → Type 0
  IsOrdered [] = Unit
  IsOrdered (q ∷ qs) = All (λ p. st.created_at q ≤ℤ st.created_at p) qs × IsOrdered qs

  pub record IsRuleTable (T : RuleTable R) : Type 0 where
    pub stored : T.State → List R
    pub rule_inserted :
        (r : R) (s : T.State) (i : ℤ)
        → (T.insert_rule r s).1 ≡ ok i
        → (find_rule i (stored s) ≡ none)
          × ((t : Time) × (stored (T.insert_rule r s).0 ≡ stored s ++ st.stamp i t r ∷ []))
    pub insert_rule_left :
        (r : R) (s : T.State) (e : T.Error)
        → (T.insert_rule r s).1 ≡ err e
        → stored (T.insert_rule r s).0 ≡ stored s
    pub created_at_read :
        (i : ℤ) (s : T.State) (t : Time)
        → T.read_created_at i s ≡ ok t
        → Option.map st.created_at (find_rule i (stored s)) ≡ some t
    pub rules_selected :
        (s : T.State) (c : RuleCursor R T.Error)
        → T.select_rules s ≡ ok c
        → c.end ≡ finished
        → Perm c.found (stored s) × IsOrdered c.found
    pub rules_updated :
        (r : R) (s : T.State) (n : ℕ)
        → (T.update_rule r s).1 ≡ ok n
        → (stored (T.update_rule r s).0 ≡ replace_rules r (stored s))
          × (n ≡ count_rules (st.id r) (stored s))
    pub update_rule_left :
        (r : R) (s : T.State) (e : T.Error)
        → (T.update_rule r s).1 ≡ err e
        → stored (T.update_rule r s).0 ≡ stored s
    pub rules_deleted :
        (i : ℤ) (s : T.State) (n : ℕ)
        → (T.delete_rule i s).1 ≡ ok n
        → (stored (T.delete_rule i s).0 ≡ remove_rules i (stored s))
          × (n ≡ count_rules i (stored s))
    pub delete_rule_left :
        (i : ℤ) (s : T.State) (e : T.Error)
        → (T.delete_rule i s).1 ≡ err e
        → stored (T.delete_rule i s).0 ≡ stored s

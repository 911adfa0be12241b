-- ===== src/Sqlite/Rules.antt =====
-- The rule functions of sqlite/store.go. Those of filter rules and those of retention rules are the
-- same code up to the columns, so they are instances of one function on any kind of rule.
use promolog.Prelude.{ℕ, ◌==◌, ℤ, List, [], Option, none, some, refl, if◌then◌else◌}
use promolog.Rule.{
  FilterRule, RetentionRule, RuleEngine, RetentionEngine, new_rule_engine, new_retention_engine,
}
use promolog.Sqlite.Table.{Result, ok, err, CursorEnd, finished, scan_error, iterate_error}
use promolog.Sqlite.RuleTable.{Stamped, RuleTable, RuleCursor}

pub data RuleError (E : Type 0) : Type 0 where
  insert_rule_failed : E → RuleError E
  read_created_at_failed : E → RuleError E
  list_rules_failed : E → RuleError E
  scan_rule_failed : E → RuleError E
  iterate_rules_failed : E → RuleError E
  update_rule_failed : E → RuleError E
  delete_rule_failed : E → RuleError E
  rule_not_found : ℤ → RuleError E

abbrev pub filter_rules : Stamped FilterRule
filter_rules = record {
  id = λ r. r.id;
  created_at = λ r. r.created_at;
  stamp = λ i t r. record r { id = i; created_at = t };
  id-stamp = λ i t r. refl;
  created_at-stamp = λ i t r. refl;
}

abbrev pub retention_rules : Stamped RetentionRule
retention_rules = record {
  id = λ r. r.id;
  created_at = λ r. r.created_at;
  stamp = λ i t r. record r { id = i; created_at = t };
  id-stamp = λ i t r. refl;
  created_at-stamp = λ i t r. refl;
}

-- `n == 0` for the rows that a statement changed.
abbrev pub changed : {E : Type 0} → (E → RuleError E) → ℤ → Result E ℕ → Option (RuleError E)
changed failed i (err e) = some (failed e)
changed failed i (ok n) = if n == 0 then some (rule_not_found i) else none

-- Behind the loop over the rows of a list: the rules and the error. An error of the iteration comes with
-- the rules so far.
abbrev pub listed : {R E : Type 0} → RuleCursor R E → CursorEnd E → List R × Option (RuleError E)
listed c (scan_error e) = ([], some (scan_rule_failed e))
listed c (iterate_error e) = (c.found, some (iterate_rules_failed e))
listed c finished = (c.found, none)

module _ {R : Type 0} (st : Stamped R) (T : RuleTable R) where
  unfoldable pub read_back : R → ℤ → T.State → Result (RuleError T.Error) R
  read_back r i s = elim (T.read_created_at i s) [
    | err e ↦ err (read_created_at_failed e)
    | ok t ↦ ok (st.stamp i t r)
  ]

  unfoldable pub finish_create : R → T.State → Result T.Error ℤ → Result (RuleError T.Error) R
  unfolding read_back
  finish_create r s (err e) = err (insert_rule_failed e)
  finish_create r s (ok i) = read_back r i s

  unfoldable pub create_in : R → T.State → T.State × Result (RuleError T.Error) R
  create_in r s = let res = T.insert_rule r s in (res.0, finish_create r res.0 res.1)

  unfoldable pub list_in : T.State → List R × Option (RuleError T.Error)
  list_in s = elim (T.select_rules s) [
    | err e ↦ ([], some (list_rules_failed e))
    | ok c ↦ listed c c.end
  ]

  unfoldable pub update_in : R → T.State → T.State × Option (RuleError T.Error)
  update_in r s = let res = T.update_rule r s in (res.0, changed update_rule_failed (st.id r) res.1)

  unfoldable pub delete_in : ℤ → T.State → T.State × Option (RuleError T.Error)
  delete_in i s = let res = T.delete_rule i s in (res.0, changed delete_rule_failed i res.1)

module _ (T : RuleTable FilterRule) where
  abbrev pub create_rule : FilterRule → T.State → T.State × Result (RuleError T.Error) FilterRule
  create_rule = create_in filter_rules T

  abbrev pub list_rules : T.State → List FilterRule × Option (RuleError T.Error)
  list_rules = list_in filter_rules T

  abbrev pub update_rule : FilterRule → T.State → T.State × Option (RuleError T.Error)
  update_rule = update_in filter_rules T

  abbrev pub delete_rule : ℤ → T.State → T.State × Option (RuleError T.Error)
  delete_rule = delete_in filter_rules T

  unfoldable pub load_rule_engine : T.State → Result (RuleError T.Error) RuleEngine
  load_rule_engine s =
      let rules = list_rules s in
      elim rules.1 [ some e ↦ err e | none ↦ ok (new_rule_engine rules.0) ]

module _ (T : RuleTable RetentionRule) where
  abbrev pub create_retention_rule :
      RetentionRule → T.State → T.State × Result (RuleError T.Error) RetentionRule
  create_retention_rule = create_in retention_rules T

  abbrev pub list_retention_rules : T.State → List RetentionRule × Option (RuleError T.Error)
  list_retention_rules = list_in retention_rules T

  abbrev pub update_retention_rule : RetentionRule → T.State → T.State × Option (RuleError T.Error)
  update_retention_rule = update_in retention_rules T

  abbrev pub delete_retention_rule : ℤ → T.State → T.State × Option (RuleError T.Error)
  delete_retention_rule = delete_in retention_rules T

  unfoldable pub load_retention_engine : T.State → Result (RuleError T.Error) RetentionEngine
  load_retention_engine s =
      let rules = list_retention_rules s in
      elim rules.1 [ some e ↦ err e | none ↦ ok (new_retention_engine rules.0) ]

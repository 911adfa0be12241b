-- ===== src/Sqlite/Ensured.antt =====
-- The parts of `EnsureSchema`, each with the statements that it executes: what it keeps, what is there
-- behind it, and when it changes nothing.
use promolog.Prelude.{
  Bool-cases, inl, inr, List, [], ◌∷◌, ◌++◌, Option, none, some, ◌≡◌, refl, sym, ap, ◌∙◌, All, Str,
  lit, contains, append-nil, Option-cases,
}
use promolog.Sqlite.Schema.{
  TableName, Statement, create_table, add_column, create_index, and_then, run_all, migration_error,
  migrate_column,
}
use promolog.Sqlite.Migrated.{
  names, IsSchemaDatabase, Kept, Same, HasColumn, IsDone, has_str-last, Kept-refl, Same-Kept,
  Kept-trans, All-IsDone,
}

module _ {S E : Type 0} (exec : Statement → S → S × Option E) (error_text : E → Str)
    (columns : S → TableName → Option (List Str))
    (db : IsSchemaDatabase exec error_text columns) where
  abbrev Keeps : S → S → Type 0
  Keeps = Kept exec error_text columns

  abbrev Leaves : S → S → Type 0
  Leaves = Same exec error_text columns

  abbrev Done : S → List Statement → Type 0
  Done s stmts = All (IsDone exec error_text columns s) stmts

  -- A part of the code that executes some statements: it keeps all columns, without an error what it asks
  -- for is there, and where all that is there it changes no table.
  pub record IsPhase (phase : S → S × Option E) (stmts : List Statement) : Type 0 where
    pub kept : (s : S) → Keeps s (phase s).0
    pub done : (s : S) → (phase s).1 ≡ none → Done (phase s).0 stmts
    pub idle : (s : S) → Done s stmts → Leaves s (phase s).0

  All-append : (s : S) (xs ys : List Statement) → Done s xs → Done s ys → Done s (xs ++ ys)
  All-append s [] ys d e = e
  All-append s (x ∷ xs) ys d e = (d.0, All-append s xs ys d.1 e)

  pub All-split : (s : S) (xs ys : List Statement) → Done s (xs ++ ys) → Done s xs × Done s ys
  All-split s [] ys d = (tt, d)
  All-split s (x ∷ xs) ys d = let (e, e') = All-split s xs ys d.1 in ((d.0, e), e')

  module _ (phase : S → S × Option E) (xs : List Statement) (rest : S → S × Option E)
      (ys : List Statement) (p : IsPhase phase xs) (q : IsPhase rest ys) where
    and_then_kept : (s : S) (a : S × Option E) → Keeps s a.0 → Keeps s (and_then a rest).0
    and_then_kept s (s', some e) k = k
    and_then_kept s (s', none) k = Kept-trans exec error_text columns s s' (rest s').0 k (q.kept s')

    pub and_then_ok :
        (a : S × Option E)
        → (and_then a rest).1 ≡ none
        → (a.1 ≡ none) × Keeps a.0 (and_then a rest).0
    and_then_ok (s', some e) h = cc h
    and_then_ok (s', none) h = (refl, q.kept s')

    and_then-Done :
        (a : S × Option E)
        → (a.1 ≡ none → Done a.0 xs)
        → (and_then a rest).1 ≡ none
        → Done (and_then a rest).0 (xs ++ ys)
    and_then-Done (s', some e) d h = cc h
    and_then-Done (s', none) d h =
        All-append (rest s').0 xs ys
          (All-IsDone exec error_text columns s' (rest s').0 xs (q.kept s') (d refl)) (q.done s' h)

    and_then_idle :
        (s : S) (a : S × Option E) → Leaves s a.0 → Done s ys → Leaves s (and_then a rest).0
    and_then_idle s (s', some e) same d u = same u
    and_then_idle s (s', none) same d u =
        q.idle s'
          (All-IsDone exec error_text columns s s' ys (Same-Kept exec error_text columns s s' same)
            d)
          u
        ∙ same u

    pub and_then-IsPhase : IsPhase (λ s. and_then (phase s) rest) (xs ++ ys)
    and_then-IsPhase = record {
      kept = λ s. and_then_kept s (phase s) (p.kept s);
      done = λ s h. and_then-Done (phase s) (p.done s) h;
      idle = λ s d. let (d', e) = All-split s xs ys d in and_then_idle s (phase s) (p.idle s d') e;
    }

  exec-Kept : (stmt : Statement) (s : S) → Keeps s (exec stmt s).0
  exec-Kept (create_table t cols) s u cs e =
      ([], db.others_kept t cols s cs u e ∙ ap some (sym (append-nil cs)))
  exec-Kept (add_column t c type) s u cs e = elim (db.column_behind t c type s cs u e) [
    | inl same ↦ ([], same ∙ ap some (sym (append-nil cs)))
    | inr more ↦ (c ∷ [], more)
  ]
  exec-Kept (create_index name t c) s u cs e =
      Same-Kept exec error_text columns s (exec (create_index name t c) s).0
        (db.index_only name t c s) u cs e

  exec-IsDone :
      (stmt : Statement) (s : S)
      → (exec stmt s).1 ≡ none
      → IsDone exec error_text columns (exec stmt s).0 stmt
  exec-IsDone (create_table t cols) s ok = elim (Option-cases (columns s t)) [
    | inl missing ↦ (names cols, db.table_made t cols s missing ok)
    | inr (cs, there) ↦ (cs, db.others_kept t cols s cs t there)
  ]
  exec-IsDone (add_column t c type) s ok =
      let (cs, there, fresh, added) = db.column_added t c type s ok in
      (cs ++ c ∷ [], added, has_str-last exec error_text columns c cs)
  exec-IsDone (create_index name t c) s ok = tt

  exec-idle :
      (stmt : Statement) (s : S) → IsDone exec error_text columns s stmt → Leaves s (exec stmt s).0
  exec-idle (create_table t cols) s (cs, there) u = db.table_there t cols s cs u there
  exec-idle (add_column t c type) s (cs, there, has) u =
      elim (Option-cases (exec (add_column t c type) s).1) [
        | inl ok ↦
            let (cs', there', fresh, added) = db.column_added t c type s ok in
            absurd (cc (there, has, there', fresh))
        | inr (e, failure) ↦ db.failed (add_column t c type) s e u failure
      ]
  exec-idle (create_index name t c) s done u = db.index_only name t c s u

  pub exec-IsPhase : (stmt : Statement) → IsPhase (exec stmt) (stmt ∷ [])
  exec-IsPhase stmt = record {
    kept = exec-Kept stmt;
    done = λ s ok. (exec-IsDone stmt s ok, tt);
    idle = λ s d. exec-idle stmt s d.0;
  }

  migrate_column-IsDone :
      (t : TableName) (c type : Str) (s : S) (failure : Option E)
      → (exec (add_column t c type) s).1 ≡ failure
      → migration_error exec error_text failure ≡ none
      → HasColumn exec error_text columns (exec (add_column t c type) s).0 t c
  migrate_column-IsDone t c type s none e h = exec-IsDone (add_column t c type) s e
  migrate_column-IsDone t c type s (some e) failure h =
      elim (Bool-cases (contains (error_text e) (lit "duplicate column"))) [
        | inl duplicate ↦
            let (cs, there, has) = db.duplicate t c type s e failure duplicate in
            (cs, db.failed (add_column t c type) s e t failure ∙ there, has)
        | inr other ↦ absurd (cc (rw other at h))
      ]

  pub migrate_column-IsPhase :
      (t : TableName) (c type : Str)
      → IsPhase (migrate_column exec error_text (add_column t c type)) (add_column t c type ∷ [])
  unfolding migrate_column
  migrate_column-IsPhase t c type = record {
    kept = exec-Kept (add_column t c type);
    done = λ s ok. (migrate_column-IsDone t c type s (exec (add_column t c type) s).1 refl ok, tt);
    idle = λ s d. exec-idle (add_column t c type) s d.0;
  }

  pub run_all-IsPhase :
      (step : Statement → S → S × Option E) (stmts : List Statement)
      → All (λ stmt. IsPhase (step stmt) (stmt ∷ [])) stmts
      → IsPhase (run_all step stmts) stmts
  unfolding run_all
  run_all-IsPhase step [] phases = record {
    kept = Kept-refl exec error_text columns;
    done = λ s ok. tt;
    idle = λ s d u. refl;
  }
  run_all-IsPhase step (stmt ∷ stmts) phases =
      and_then-IsPhase (step stmt) (stmt ∷ []) (run_all step stmts) stmts phases.0
        (run_all-IsPhase step stmts phases.1)

  pub all_exec : (stmts : List Statement) → All (λ stmt. IsPhase (exec stmt) (stmt ∷ [])) stmts
  all_exec [] = tt
  all_exec (stmt ∷ stmts) = (exec-IsPhase stmt, all_exec stmts)

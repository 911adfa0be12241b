-- ===== src/Sqlite/Migrated.antt =====
-- What SQLite documents of the statements of `EnsureSchema`, and what it means that tables keep their
-- columns and that a statement's table or column is there.
use promolog.Prelude.{
  true, false, Bool-cases, inl, inr, ◌⊎◌, List, [], ◌∷◌, ◌++◌, map, Option, none, some, ◌≡◌, refl,
  sym, ap, ◌∙◌, All, Str, lit, contains, append_assoc, append-nil, str_eq, str_eq_iff,
}
use promolog.Prelude.Sort.{has_str}
use promolog.Sqlite.Schema.{TableName, Statement, create_table, add_column, create_index}

abbrev pub names : List (Str × Str) → List Str
names = map (λ c. c.0)

module _ {S E : Type 0} (exec : Statement → S → S × Option E) (error_text : E → Str)
    (columns : S → TableName → Option (List Str)) where
  -- What SQLite documents of the statements: `columns` are the names of a table's columns, in order.
  pub record IsSchemaDatabase : Type 0 where
    -- A statement that fails changes no table.
    pub failed :
        (stmt : Statement) (s : S) (e : E) (u : TableName)
        → (exec stmt s).1 ≡ some e
        → columns (exec stmt s).0 u ≡ columns s u
    -- `IF NOT EXISTS`: a table that is there stays, as do the others.
    pub table_there :
        (t : TableName) (cols : List (Str × Str)) (s : S) (cs : List Str) (u : TableName)
        → columns s t ≡ some cs
        → columns (exec (create_table t cols) s).0 u ≡ columns s u
    pub table_made :
        (t : TableName) (cols : List (Str × Str)) (s : S)
        → columns s t ≡ none
        → (exec (create_table t cols) s).1 ≡ none
        → columns (exec (create_table t cols) s).0 t ≡ some (names cols)
    pub others_kept :
        (t : TableName) (cols : List (Str × Str)) (s : S) (cs : List Str) (u : TableName)
        → columns s u ≡ some cs
        → columns (exec (create_table t cols) s).0 u ≡ some cs
    pub index_only :
        (name : Str) (t : TableName) (c : Str) (s : S) (u : TableName)
        → columns (exec (create_index name t c) s).0 u ≡ columns s u
    -- A column that is added was not there before, and stands behind the others.
    pub column_added :
        (t : TableName) (c type : Str) (s : S)
        → (exec (add_column t c type) s).1 ≡ none
        → (cs : List Str) × (columns s t ≡ some cs)
          × (has_str c cs ≡ false)
          × (columns (exec (add_column t c type) s).0 t ≡ some (cs ++ c ∷ []))
    pub column_behind :
        (t : TableName) (c type : Str) (s : S) (cs : List Str) (u : TableName)
        → columns s u ≡ some cs
        → (columns (exec (add_column t c type) s).0 u ≡ some cs)
          ⊎ (columns (exec (add_column t c type) s).0 u ≡ some (cs ++ c ∷ []))
    -- The message `duplicate column` is that of a column that is there.
    pub duplicate :
        (t : TableName) (c type : Str) (s : S) (e : E)
        → (exec (add_column t c type) s).1 ≡ some e
        → contains (error_text e) (lit "duplicate column") ≡ true
        → (cs : List Str) × (columns s t ≡ some cs) × (has_str c cs ≡ true)

  -- Every table that was there has its columns at the front of what it has now.
  abbrev pub Kept : S → S → Type 0
  Kept s s' =
      (u : TableName) (cs : List Str)
      → columns s u ≡ some cs
      → (more : List Str) × (columns s' u ≡ some (cs ++ more))

  abbrev pub Same : S → S → Type 0
  Same s s' = (u : TableName) → columns s' u ≡ columns s u

  abbrev pub HasColumn : S → TableName → Str → Type 0
  HasColumn s t c = (cs : List Str) × (columns s t ≡ some cs) × (has_str c cs ≡ true)

  -- What a statement asks for is there.
  abbrev pub IsDone : S → Statement → Type 0
  IsDone s (create_table t cols) = (cs : List Str) × (columns s t ≡ some cs)
  IsDone s (add_column t c type) = HasColumn s t c
  IsDone s (create_index name t c) = Unit

  has_str-front :
      (c : Str) (cs more : List Str) → has_str c cs ≡ true → has_str c (cs ++ more) ≡ true
  has_str-front c [] more h = cc h
  has_str-front c (d ∷ cs) more h = elim (Bool-cases (str_eq d c)) [
    | inl this ↦ rw this refl
    | inr other ↦ rw other (has_str-front c cs more (rw other at h))
  ]

  pub has_str-last : (c : Str) (cs : List Str) → has_str c (cs ++ c ∷ []) ≡ true
  has_str-last c [] = rw ((str_eq_iff c c).1 refl) refl
  has_str-last c (d ∷ cs) = elim (Bool-cases (str_eq d c)) [
    | inl this ↦ rw this refl
    | inr other ↦ rw other (has_str-last c cs)
  ]

  pub Kept-refl : (s : S) → Kept s s
  Kept-refl s u cs e = ([], e ∙ ap some (sym (append-nil cs)))

  pub Same-Kept : (s s' : S) → Same s s' → Kept s s'
  Same-Kept s s' same u cs e = ([], same u ∙ (e ∙ ap some (sym (append-nil cs))))

  pub Kept-trans : (s s' s'' : S) → Kept s s' → Kept s' s'' → Kept s s''
  Kept-trans s s' s'' k k' u cs e =
      let (more, e') = k u cs e in
      let (more', e'') = k' u (cs ++ more) e' in
      (more ++ more', e'' ∙ ap some (append_assoc cs more more'))

  pub Kept-IsDone : (s s' : S) (stmt : Statement) → Kept s s' → IsDone s stmt → IsDone s' stmt
  Kept-IsDone s s' (create_table t cols) k (cs, e) = let (more, e') = k t cs e in (cs ++ more, e')
  Kept-IsDone s s' (add_column t c type) k (cs, e, h) =
      let (more, e') = k t cs e in (cs ++ more, e', has_str-front c cs more h)
  Kept-IsDone s s' (create_index name t c) k done = tt

  pub All-IsDone :
      (s s' : S) (stmts : List Statement) → Kept s s' → All (IsDone s) stmts → All (IsDone s') stmts
  All-IsDone s s' [] k done = tt
  All-IsDone s s' (stmt ∷ stmts) k done =
      (Kept-IsDone s s' stmt k done.0, All-IsDone s s' stmts k done.1)

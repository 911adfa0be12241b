-- ===== src/Sqlite/Promoted.antt =====
-- What `PromoteAt` does to the table and to the callback.
use promolog.Prelude.{
  ℕ, false, ◌≡◌, refl, sym, subst, ap, inl, inr, [], ◌∷◌, ◌++◌, Option, none, some, Bool-cases,
  Option-cases, Str,
}
use promolog.Trace.{Trace, TraceSummary, Time}
use promolog.Sqlite.Row.{Row, Json, row_of, tags_column}
use promolog.Sqlite.Table.{Result, ok, err, Table, IsSqlTable, has_id}
use promolog.Sqlite.Store.{
  StoreError, marshal_entries_failed, marshal_tags_failed, Store, call_on_promote, summary_of,
  finish_promote, insert_trace, promote_at, Outcome,
}

module _ (T : Table) (json : Json) (K : Type 0) (laws : IsSqlTable T) where
  -- What an INSERT of a row comes to.
  pub data Inserted (s : Store T.State K) (r : Row) (sum : TraceSummary) (k : K)
      : Outcome T json K → Type 0 where
    appended :
        {out : Outcome T json K}
        → has_id r.request_id (laws.rows s.db) ≡ false
        → laws.rows out.0.db ≡ laws.rows s.db ++ r ∷ []
        → out.1 ≡ call_on_promote s.on_promote sum k
        → out.2 ≡ none
        → Inserted s r sum k out
    refused :
        {out : Outcome T json K} {e : StoreError T.Error}
        → laws.rows out.0.db ≡ laws.rows s.db
        → out.1 ≡ k
        → out.2 ≡ some e
        → Inserted s r sum k out

  inserted :
      (s : Store T.State K) (r : Row) (sum : TraceSummary) (k : K) (res : Result T.Error ℕ)
      → (T.insert_row r s.db).1 ≡ res
      → Inserted s r sum k (finish_promote T json K s sum k (T.insert_row r s.db).0 res)
  unfolding finish_promote
  inserted s r sum k (err e) h = refused (laws.insert_failed r s.db e h) refl refl
  inserted s r sum k (ok n) h = elim (Bool-cases (has_id r.request_id (laws.rows s.db))) [
    | inl there ↦
        let (same, nothing) = laws.insert_ignored r s.db n there h in
        subst
          (λ m. Inserted s r sum k (finish_promote T json K s sum k (T.insert_row r s.db).0 (ok m)))
          (sym nothing) (refused same refl refl)
    | inr new ↦
        let (added, one_row) = laws.insert_new r s.db n new h in
        subst
          (λ m. Inserted s r sum k (finish_promote T json K s sum k (T.insert_row r s.db).0 (ok m)))
          (sym one_row) (appended new added refl refl)
  ]

  -- What `PromoteAt` comes to: either the row of the trace was inserted, or nothing changed.
  pub data Promoted (s : Store T.State K) (t : Trace) (c : Time) (k : K)
      : Outcome T json K → Type 0 where
    saved :
        {out : Outcome T json K} {entries : Str} {tags : Option Str}
        → json.marshal_entries t.entries ≡ some entries
        → tags_column json t.tags ≡ some tags
        → Inserted s (row_of t entries tags c) (summary_of t c) k out
        → Promoted s t c k out
    not_marshalled :
        {out : Outcome T json K} {e : StoreError T.Error}
        → out ≡ (s, k, some e)
        → Promoted s t c k out

  promote_at_reached :
      (s : Store T.State K) (t : Trace) (c : Time) (k : K) {entries : Str} {tags : Option Str}
      → json.marshal_entries t.entries ≡ some entries
      → tags_column json t.tags ≡ some tags
      → promote_at T json K s t c k
        ≡ insert_trace T json K s (row_of t entries tags c) (summary_of t c) k
  unfolding promote_at insert_trace
  promote_at_reached s t c k got got_tags = rw (got, got_tags, promote_at)

  insert_trace-Inserted :
      (s : Store T.State K) (r : Row) (sum : TraceSummary) (k : K)
      → Inserted s r sum k (insert_trace T json K s r sum k)
  unfolding insert_trace
  insert_trace-Inserted s r sum k = inserted s r sum k (T.insert_row r s.db).1 refl

  pub promote_at-Promoted :
      (s : Store T.State K) (t : Trace) (c : Time) (k : K)
      → Promoted s t c k (promote_at T json K s t c k)
  unfolding promote_at
  promote_at-Promoted s t c k = elim (Option-cases (json.marshal_entries t.entries)) [
    | inl failed ↦ not_marshalled {e = marshal_entries_failed} (rw (failed, promote_at))
    | inr (entries, got) ↦ elim (Option-cases (tags_column json t.tags)) [
      | inl failed ↦ not_marshalled {e = marshal_tags_failed} (rw (got, failed, promote_at))
      | inr (tags, got_tags) ↦ saved got got_tags (
          subst (Inserted s (row_of t entries tags c) (summary_of t c) k)
            (sym (promote_at_reached s t c k got got_tags))
            (insert_trace-Inserted s (row_of t entries tags c) (summary_of t c) k))
    ]
  ]

  -- If the INSERT is reached and makes a row, that row is new, the callback has run once with the
  -- summary of the trace, and the error is nil; with any error the rows are as before and the callback
  -- has not run.
  pub promote_at_all_or_nothing :
      (s : Store T.State K) (t : Trace) (c : Time) (k : K)
      → let out = promote_at T json K s t c k in
        (out.2 ≡ none
          → (has_id t.request_id (laws.rows s.db) ≡ false)
            × ((r : Row) × (r.request_id ≡ t.request_id)
                × (laws.rows out.0.db ≡ laws.rows s.db ++ r ∷ []))
            × (out.1 ≡ call_on_promote s.on_promote (summary_of t c) k))
        × ((e : StoreError T.Error)
            → out.2 ≡ some e
            → (laws.rows out.0.db ≡ laws.rows s.db) × (out.1 ≡ k))
  unfolding row_of
  promote_at_all_or_nothing s t c k = all_or_nothing (promote_at-Promoted s t c k)
    where
      all_or_nothing :
          {out : Outcome T json K}
          → Promoted s t c k out
          → (out.2 ≡ none
              → (has_id t.request_id (laws.rows s.db) ≡ false)
                × ((r : Row) × (r.request_id ≡ t.request_id)
                    × (laws.rows out.0.db ≡ laws.rows s.db ++ r ∷ []))
                × (out.1 ≡ call_on_promote s.on_promote (summary_of t c) k))
            × ((e : StoreError T.Error)
                → out.2 ≡ some e
                → (laws.rows out.0.db ≡ laws.rows s.db) × (out.1 ≡ k))
      all_or_nothing (saved {out} {entries} {tags} _ _ (appended new added called fine)) =
          (λ _. (new, (row_of t entries tags c, refl, added), called), λ e h. cc (fine, h))
      all_or_nothing (saved _ _ (refused same kept failed)) =
          (λ h. cc (failed, h), λ e _. (same, kept))
      all_or_nothing (not_marshalled e) =
          (λ h. cc (ap (λ o. o.2) e, h), λ _ _. (ap (λ o. laws.rows o.0.db) e, ap (λ o. o.1) e))

-- ===== src/Sqlite/Invariant.antt =====
-- The table under any sequence of the store's operations, failed ones included: no two of its rows share
-- a request ID.
use promolog.Prelude.{
  ℕ, ◌+◌, List, [], ◌∷◌, ◌++◌, Bool, false, not, inl, inr, Option, none, some, ◌≡◌, refl, sym, ap,
  subst, arith, Str, str_eq, str_eq_iff, Option-cases, Bool-cases,
}
use promolog.Trace.{Trace, TraceSummary, Time, Duration}
use promolog.Rule.{RetentionEngine, has_rules}
use promolog.Sqlite.Row.{Row, Json, row_of}
use promolog.Sqlite.Table.{
  Result, Result-cases, Table, IsSqlTable, Cursor, CursorEnd, finished, scan_error, iterate_error,
  has_id, is_before, Stamp,
}
use promolog.Sqlite.Store.{Store, Outcome, set_on_promote, promote_at, delete_trace}
use promolog.Sqlite.Promoted.{
  appended, refused, Promoted, saved, not_marshalled, promote_at-Promoted,
}
use promolog.Sqlite.Cleanup.{
  Pass, candidate_ttl, local_cutoff, select_expired, delete_all, finish_pass, delete_expired,
  delete_older_than, run_cleanup_with_engine, run_cleanup, cleanup_tick, engine_or_nil,
}
use promolog.Sqlite.Unique.{NodupIds, keep-NodupIds}

has_id-snoc :
    (id : Str) (r : Row) (rs : List Row)
    → has_id id rs ≡ false
    → str_eq r.request_id id ≡ false
    → has_id id (rs ++ r ∷ []) ≡ false
unfolding has_id
has_id-snoc id r [] h e = rw e
has_id-snoc id r (q ∷ rs) h e = ground (arith, has_id-snoc id r rs)

snoc-NodupIds :
    (r : Row) (rs : List Row)
    → has_id r.request_id rs ≡ false
    → NodupIds rs
    → NodupIds (rs ++ r ∷ [])
unfolding has_id
snoc-NodupIds r [] h u = (refl, tt)
snoc-NodupIds r (q ∷ rs) h (new, u) = (
  has_id-snoc q.request_id r rs new
      (ground (arith, str_eq_iff q.request_id r.request_id, str_eq_iff r.request_id q.request_id)),
  snoc-NodupIds r rs (ground arith) u,
)

module _ (path_match : Str → Str → Option Bool) (T : Table) (laws : IsSqlTable T) where
  abbrev HasUnique : T.State → Type 0
  HasUnique s = NodupIds (laws.rows s)

  delete_row-HasUnique : (id : Str) (s : T.State) → HasUnique s → HasUnique (T.delete_row id s).0
  delete_row-HasUnique id s u = elim (Result-cases (T.delete_row id s).1) [
    | inl (n, fine) ↦
        subst NodupIds (sym (laws.deleted id s n fine).0)
          (keep-NodupIds (λ r. not (str_eq r.request_id id)) (laws.rows s) u)
    | inr (e, failed) ↦ subst NodupIds (sym (laws.delete_failed id s e failed)) u
  ]

  delete_all-HasUnique :
      (ids : List Str) (deleted : ℕ) (s : T.State)
      → HasUnique s
      → HasUnique (delete_all path_match T ids deleted s).0
  unfolding delete_all
  delete_all-HasUnique [] deleted s u = u
  delete_all-HasUnique (id ∷ ids) deleted s u = elim (Result-cases (T.delete_row id s).1) [
    | inl (n, fine) ↦
        rw (fine, delete_all)
          (delete_all-HasUnique ids (deleted + n) (T.delete_row id s).0
            (delete_row-HasUnique id s u))
    | inr (e, failed) ↦ rw (failed, delete_all) (delete_row-HasUnique id s u)
  ]

  delete_older_than-HasUnique :
      (t : Stamp) (s : T.State) → HasUnique s → HasUnique (delete_older_than path_match T t s).0
  unfolding delete_older_than
  delete_older_than-HasUnique t s u = elim (Result-cases (T.delete_before t s).1) [
    | inl (n, fine) ↦
        rw (fine, delete_older_than)
          (subst NodupIds (sym (laws.deleted_before t s n fine).0)
            (keep-NodupIds (λ r. not (is_before t r)) (laws.rows s) u))
    | inr (e, failed) ↦
        rw (failed, delete_older_than)
          (subst NodupIds (sym (laws.delete_before_failed t s e failed)) u)
  ]

  finish_pass-HasUnique :
      (end : CursorEnd T.Error) (ids : List Str) (s : T.State)
      → HasUnique s
      → HasUnique (finish_pass path_match T end ids s).0
  unfolding finish_pass
  finish_pass-HasUnique finished ids s u = delete_all-HasUnique ids 0 s u
  finish_pass-HasUnique (scan_error e) ids s u = u
  finish_pass-HasUnique (iterate_error e) ids s u = u

  delete_expired-HasUnique :
      (later : Time) (d : Duration) (engine : Option RetentionEngine) (cursor : Cursor T.Error)
      (s : T.State) (pass : Pass path_match T)
      → HasUnique s
      → delete_expired path_match T later d engine cursor s ≡ some pass
      → HasUnique pass.0
  unfolding delete_expired
  delete_expired-HasUnique later d engine cursor s pass u h =
      elim (Option-cases (select_expired path_match later d engine cursor.found)) [
        | inl panic ↦ cc (rw (panic, delete_expired) at h)
        | inr (ids, selected) ↦
            let same : finish_pass path_match T cursor.end ids s ≡ pass =
              cc (rw (selected, delete_expired) at h) in
            subst (λ p. HasUnique p.0) same (finish_pass-HasUnique cursor.end ids s u)
      ]

  with_engine-HasUnique :
      (zone : Duration) (now later : Time) (d : Duration) (engine : Option RetentionEngine)
      (s : T.State) (pass : Pass path_match T)
      → HasUnique s
      → run_cleanup_with_engine path_match T zone now later d engine s ≡ some pass
      → HasUnique pass.0
  unfolding run_cleanup_with_engine
  with_engine-HasUnique zone now later d engine s pass u h = elim (Bool-cases (has_rules engine)) [
    | inl rules ↦
        elim (Result-cases (T.rows_before (local_cutoff zone now (candidate_ttl d engine)) s)) [
          | inl (cursor, found) ↦
              delete_expired-HasUnique later d engine cursor s pass u
                (rw (rules, run_cleanup_with_engine, found) at h)
          | inr (e, failed) ↦
              let same =
                ap (λ o. elim o [ none ↦ s | some p ↦ p.0 ])
                  (rw (rules, run_cleanup_with_engine, failed) at h) in
              subst HasUnique same u
        ]
    | inr unruled ↦
        let same : delete_older_than path_match T (local_cutoff zone now d) s ≡ pass =
          cc (rw (unruled, run_cleanup_with_engine) at h) in
        subst (λ p. HasUnique p.0) same (delete_older_than-HasUnique (local_cutoff zone now d) s u)
  ]

  run_cleanup-HasUnique :
      (load : T.State → Result T.Error RetentionEngine) (zone : Duration) (now later : Time)
      (d : Duration) (s : T.State) (pass : Pass path_match T)
      → HasUnique s
      → run_cleanup path_match T load zone now later d s ≡ some pass
      → HasUnique pass.0
  unfolding run_cleanup
  run_cleanup-HasUnique load zone now later d s pass u h = elim (Result-cases (load s)) [
    | inl (engine, loaded) ↦
        with_engine-HasUnique zone now later d (some engine) s pass u
          (rw (loaded, run_cleanup) at h)
    | inr (e, failed) ↦
        let same = ap (λ o. elim o [ none ↦ s | some p ↦ p.0 ]) (rw (failed, run_cleanup) at h) in
        subst HasUnique same u
  ]

  cleanup_tick-HasUnique :
      (load : T.State → Result T.Error RetentionEngine) (zone : Duration) (now later : Time)
      (d : Duration) (s db : T.State)
      → HasUnique s
      → cleanup_tick path_match T load zone now later d s ≡ some db
      → HasUnique db
  unfolding cleanup_tick
  cleanup_tick-HasUnique load zone now later d s db u h =
      elim (Option-cases
        (run_cleanup_with_engine path_match T zone now later d (engine_or_nil (load s)) s)) [
          | inl panic ↦ cc (rw (panic, cleanup_tick) at h)
          | inr (pass, ran) ↦
              let same : pass.0 ≡ db = cc (rw (ran, cleanup_tick) at h) in
              subst HasUnique same
                (with_engine-HasUnique zone now later d (engine_or_nil (load s)) s pass u ran)
        ]

  module _ (json : Json) (K : Type 0) where
    promote_at-HasUnique :
        (s : Store T.State K) (t : Trace) (c : Time) (k : K) {out : Outcome T json K}
        → Promoted T json K laws s t c k out
        → HasUnique s.db
        → HasUnique out.0.db
    promote_at-HasUnique s t c k
          (saved {entries = entries} {tags = tags} _ _ (appended new added _ _)) u =
        subst NodupIds (sym added) (snoc-NodupIds (row_of t entries tags c) (laws.rows s.db) new u)
    promote_at-HasUnique s t c k (saved _ _ (refused same _ _)) u = subst NodupIds (sym same) u
    promote_at-HasUnique s t c k (not_marshalled e) u =
        subst NodupIds (sym (ap (λ o. laws.rows o.0.db) e)) u

    -- One call of the store, or a tick of its background cleanup. A pass that panics ends the program.
    pub data Step (s : Store T.State K) : Store T.State K → Type 0 where
      promotes : (t : Trace) (c : Time) (k : K) → Step s (promote_at T json K s t c k).0
      deletes : (id : Str) → Step s (delete_trace T json K s id).0
      listens : (fn : Option (TraceSummary → K → K)) → Step s (set_on_promote fn s)
      cleans :
          (load : T.State → Result T.Error RetentionEngine) (zone : Duration) (now later : Time)
          (d : Duration) (pass : Pass path_match T)
          → run_cleanup path_match T load zone now later d s.db ≡ some pass
          → Step s (record s { db = pass.0 })
      ticks :
          (load : T.State → Result T.Error RetentionEngine) (zone : Duration) (now later : Time)
          (d : Duration) (db : T.State)
          → cleanup_tick path_match T load zone now later d s.db ≡ some db
          → Step s (record s { db = db })

    pub data Reach (s : Store T.State K) : Store T.State K → Type 0 where
      here : Reach s s
      next : {t u : Store T.State K} → Reach s t → Step t u → Reach s u

    Step-HasUnique : {s t : Store T.State K} → Step s t → HasUnique s.db → HasUnique t.db
    unfolding delete_trace set_on_promote
    Step-HasUnique {s} (promotes t c k) u =
        promote_at-HasUnique s t c k (promote_at-Promoted T json K laws s t c k) u
    Step-HasUnique {s} (deletes id) u = delete_row-HasUnique id s.db u
    Step-HasUnique (listens fn) u = u
    Step-HasUnique {s} (cleans load zone now later d pass h) u =
        run_cleanup-HasUnique load zone now later d s.db pass u h
    Step-HasUnique {s} (ticks load zone now later d db h) u =
        cleanup_tick-HasUnique load zone now later d s.db db u h

    -- However the store is used from a table in which no two rows share a request ID, and whatever fails on the
    -- way, no two rows share a request ID.
    pub Reach-NodupIds :
        {s t : Store T.State K} → NodupIds (laws.rows s.db) → Reach s t → NodupIds (laws.rows t.db)
    Reach-NodupIds h here = h
    Reach-NodupIds h (next r st) = Step-HasUnique st (Reach-NodupIds h r)

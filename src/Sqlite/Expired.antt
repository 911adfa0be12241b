-- ===== src/Sqlite/Expired.antt =====
-- `RunCleanup` deletes what has outlived its TTL, and nothing else.
use mathlib.Core.List.{Perm}
use promolog.Prelude.{
  ℕ, ◌+◌, pos, ◌≤ℤ◌, ◌<ℤ◌, ltb_ℤ_iff, List, Bool, true, false, Bool-cases, not, ◌&&◌, inl, inr,
  Option, none, some, ◌≡◌, refl, sym, ap, ◌∙◌, arith, Str, keep, length, All, Option-cases,
}
use promolog.Trace.{Time, Duration, time_sub, max_duration}
use promolog.Trace.Age.{old-is_before, before-old}
use promolog.Rule.{RetentionEngine, has_rules}
use promolog.Rule.Ttl.{Fits}
use promolog.Sqlite.Row.{Row}
use promolog.Sqlite.Table.{
  Result, ok, Result-cases, Table, IsSqlTable, Cursor, CursorEnd, finished, scan_error,
  iterate_error, has_id, is_before, Stamp,
}
use promolog.Sqlite.Cleanup.{
  candidate_ttl, cutoff_of, local_cutoff, select_expired, delete_all, finish_pass, delete_expired,
  delete_older_than, run_cleanup_with_engine, run_cleanup,
}
use promolog.Sqlite.Unique.{
  NodupIds, id_in, keep_cong, All-map, keep-keep, has_id-keep_own, has_id-keep_perm,
}
use promolog.Sqlite.Deleted.{row_ttl, select_expired-outlived, delete_all-rows}
use promolog.Sqlite.Outlived.{
  age_test, candidate_ttl-bounds, candidate_ttl-row_ttl, row_ttl-unruled, older, and_right,
  and_both,
}

finish_pass-finished :
    (path_match : Str → Str → Option Bool) (T : Table) (end : CursorEnd T.Error) (ids : List Str)
    (s s' : T.State) (n : ℕ)
    → finish_pass path_match T end ids s ≡ (s', n, none)
    → (end ≡ finished) × (delete_all path_match T ids 0 s ≡ (s', n, none))
unfolding finish_pass
finish_pass-finished path_match T finished ids s s' n h = (refl, h)
finish_pass-finished path_match T (scan_error e) ids s s' n h = cc (ap (λ p. p.2) h)
finish_pass-finished path_match T (iterate_error e) ids s s' n h = cc (ap (λ p. p.2) h)

module _ (path_match : Str → Str → Option Bool) (d : Duration) (engine : RetentionEngine)
    (T : Table) (laws : IsSqlTable T) where
  -- What a pass deletes: the rows with `gone`, counted.
  abbrev pub Leaves : (Row → Bool) → T.State → T.State → ℕ → Type 0
  Leaves gone s s' n =
      (laws.rows s' ≡ keep (λ r. not (gone r)) (laws.rows s))
      × (n + length (laws.rows s') ≡ length (laws.rows s))

  selected_own :
      (later : Time) (cutoff : Stamp) (cursor : Cursor T.Error) (s : T.State) (ids : List Str)
      → NodupIds (laws.rows s)
      → Perm cursor.found (keep (is_before cutoff) (laws.rows s))
      → select_expired path_match later d (some engine) cursor.found ≡ some ids
      → All
          (λ r.
            not (id_in r.request_id ids)
            ≡ not (is_before cutoff r && age_test path_match d engine later r))
          (laws.rows s)
  selected_own later cutoff cursor s ids unique perm selected =
      All-map (laws.rows s)
        (λ r own. ap not (
          select_expired-outlived path_match d (some engine) later cursor.found ids selected
            r.request_id
          ∙ (has_id-keep_perm (age_test path_match d engine later) r.request_id perm
              ∙ (ap (has_id r.request_id) (
                    keep-keep (age_test path_match d engine later) (is_before cutoff) (laws.rows s))
                  ∙ own))))
        (has_id-keep_own (λ r. is_before cutoff r && age_test path_match d engine later r)
          (laws.rows s) unique)

  delete_expired-Leaves :
      (later : Time) (cutoff : Stamp) (cursor : Cursor T.Error) (s s' : T.State) (n : ℕ)
      → NodupIds (laws.rows s)
      → T.rows_before cutoff s ≡ ok cursor
      → delete_expired path_match T later d (some engine) cursor s ≡ some (s', n, none)
      → Leaves (λ r. is_before cutoff r && age_test path_match d engine later r) s s' n
  unfolding delete_expired
  delete_expired-Leaves later cutoff cursor s s' n unique found h =
      elim (Option-cases (select_expired path_match later d (some engine) cursor.found)) [
        | inl panic ↦ cc (rw (panic, delete_expired) at h)
        | inr (ids, selected) ↦
            let pass : finish_pass path_match T cursor.end ids s ≡ (s', n, none) =
              cc (rw (selected, delete_expired) at h) in
            let (end, deletes) = finish_pass-finished path_match T cursor.end ids s s' n pass in
            let (kept, counted) = delete_all-rows path_match T laws ids 0 n s s' deletes in
            (
              kept
                  ∙ keep_cong (λ r. not (id_in r.request_id ids))
                      (λ r. not (is_before cutoff r && age_test path_match d engine later r))
                      (laws.rows s)
                      (selected_own later cutoff cursor s ids unique
                        (laws.found_before cutoff s cursor found end) selected),
              omega (arith, counted),
            )
      ]

  pub delete_older_than-Leaves :
      (cutoff : Stamp) (s s' : T.State) (n : ℕ)
      → delete_older_than path_match T cutoff s ≡ (s', n, none)
      → Leaves (is_before cutoff) s s' n
  unfolding delete_older_than
  delete_older_than-Leaves cutoff s s' n h = elim (Result-cases (T.delete_before cutoff s).1) [
    | inl (m, fine) ↦
        let out : ((T.delete_before cutoff s).0, m, none) ≡ (s', n, none) =
          rw (fine, delete_older_than) at h in
        let state : (T.delete_before cutoff s).0 ≡ s' = ap (λ p. p.0) out in
        let number : m ≡ n = ap (λ p. p.1) out in
        let (left, counted) = laws.deleted_before cutoff s m fine in
        (
          ap laws.rows (sym state) ∙ left,
          ap (λ l. n + length (laws.rows l)) (sym state)
              ∙ (ap (λ k. k + length (laws.rows (T.delete_before cutoff s).0)) (sym number)
                  ∙ counted),
        )
    | inr (e, failed) ↦ cc (ap (λ p. p.2) (rw (failed, delete_older_than) at h))
  ]

  -- What a pass with some TTL in each row promises.
  abbrev pub Cleans : Time → Time → T.State → T.State → ℕ → Type 0
  Cleans now later s s' n =
      (gone : Row → Bool) × Leaves gone s s' n
      × ((r : Row) → gone r ≡ true → age_test path_match d engine later r ≡ true)
      × ((r : Row) → age_test path_match d engine now r ≡ true → gone r ≡ true)

  rules_clean :
      (now later : Time) (cursor : Cursor T.Error) (s s' : T.State) (n : ℕ)
      → NodupIds (laws.rows s)
      → Fits engine.rules
      → now ≤ℤ later
      → pos 0 <ℤ d
      → T.rows_before (local_cutoff (pos 0) now (candidate_ttl d (some engine))) s ≡ ok cursor
      → delete_expired path_match T later d (some engine) cursor s ≡ some (s', n, none)
      → Cleans now later s s' n
  rules_clean now later cursor s s' n unique fits le positive found h =
      let cutoff : Stamp = local_cutoff (pos 0) now (candidate_ttl d (some engine)) in
      (
        (λ r. is_before cutoff r && age_test path_match d engine later r),
        delete_expired-Leaves later cutoff cursor s s' n unique found h,
        (λ r gone. and_right (is_before cutoff r) (age_test path_match d engine later r) gone),
        (λ r old.
            let age : row_ttl path_match d (some engine) r <ℤ time_sub now r.created_at =
              (ltb_ℤ_iff (row_ttl path_match d (some engine) r) (time_sub now r.created_at)).0
                old in
            and_both (is_before cutoff r) (age_test path_match d engine later r)
              ((ltb_ℤ_iff r.created_at cutoff.instant).1 (
                old-is_before now r.created_at (candidate_ttl d (some engine))
                  (row_ttl path_match d (some engine) r)
                  (candidate_ttl-bounds d (some engine) positive).0
                  (candidate_ttl-row_ttl path_match d engine r fits positive) age))
              (older path_match d engine now later r le age)),
      )

  default_clean :
      (now later : Time) (s s' : T.State) (n : ℕ)
      → has_rules (some engine) ≡ false
      → now ≤ℤ later
      → pos 0 <ℤ d
      → d <ℤ max_duration
      → delete_older_than path_match T (local_cutoff (pos 0) now d) s ≡ (s', n, none)
      → Cleans now later s s' n
  default_clean now later s s' n unruled le positive small h = (
    is_before (local_cutoff (pos 0) now d),
    delete_older_than-Leaves (local_cutoff (pos 0) now d) s s' n h,
    (λ r gone. older path_match d engine now later r le (
        rw (row_ttl-unruled path_match d engine r unruled) (
          before-old now r.created_at d positive small
            ((ltb_ℤ_iff r.created_at (cutoff_of now d)).0 gone)))),
    (λ r old. (ltb_ℤ_iff r.created_at (cutoff_of now d)).1 (
        old-is_before now r.created_at d d positive (omega arith) (
          rw (row_ttl-unruled path_match d engine r unruled) at (
            (ltb_ℤ_iff (row_ttl path_match d (some engine) r) (time_sub now r.created_at)).0
              old)))),
  )

  -- If a cleanup pass on a host whose zone is UTC returns no error, where the default TTL is positive
  -- and does not reach the greatest duration, the TTLs of the enabled rules have between 1 and 2562047
  -- hours, no two rows share a request ID, and the clock does not run back: every row deleted had
  -- outlived its effective TTL at the later reading of the clock, every row that had outlived it at
  -- the earlier one is deleted, the other rows stay in their order, and the number returned is that
  -- of the rows deleted.
  pub run_cleanup-Cleans :
      (load : T.State → Result T.Error RetentionEngine) (now later : Time) (s s' : T.State) (n : ℕ)
      → NodupIds (laws.rows s)
      → load s ≡ ok engine
      → Fits engine.rules
      → now ≤ℤ later
      → pos 0 <ℤ d
      → d <ℤ max_duration
      → run_cleanup path_match T load (pos 0) now later d s ≡ some (s', n, none)
      → Cleans now later s s' n
  unfolding run_cleanup run_cleanup_with_engine
  run_cleanup-Cleans load now later s s' n unique loaded fits le positive small h =
      elim (Bool-cases (has_rules (some engine))) [
        | inl rules ↦
            elim (Result-cases
              (T.rows_before (local_cutoff (pos 0) now (candidate_ttl d (some engine))) s)) [
                | inl (cursor, found) ↦
                    rules_clean now later cursor s s' n unique fits le positive found
                      (rw (loaded, run_cleanup, rules, run_cleanup_with_engine, found) at h)
                | inr (e, failed) ↦
                    cc (rw (loaded, run_cleanup, rules, run_cleanup_with_engine, failed) at h)
              ]
        | inr unruled ↦
            default_clean now later s s' n unruled le positive small
              (cc (rw (loaded, run_cleanup, unruled, run_cleanup_with_engine) at h))
      ]

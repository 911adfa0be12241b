-- ===== src/Sqlite/Zoned.antt =====
-- What a cleanup pass does on a host whose zone is not UTC.
use promolog.Prelude.{
  ℕ, pos, negsuc, zero, suc, List, [], ◌∷◌, ◌-ℤ◌, ◌+ℤ◌, +ℤ_parts, -ℤ_parts, ◌<ℤ◌, ltb_ℤ, leb_ℤ,
  eqb_ℤ, eqb_ℤ_iff, Bool, false, Bool-cases, not, inl, inr, Option, none, some, ◌≡◌, ◌≢◌, ◌∙◌,
  arith, Str, keep, All,
}
use promolog.Trace.{Time, Duration, time_add}
use promolog.Rule.{RetentionEngine, has_rules}
use promolog.Sqlite.Row.{Row}
use promolog.Sqlite.Table.{Result, ok, Table, IsSqlTable, is_before}
use promolog.Sqlite.Cleanup.{cutoff_of, local_cutoff, run_cleanup_with_engine, run_cleanup}
use promolog.Sqlite.Unique.{keep_cong}
use promolog.Sqlite.Expired.{delete_older_than-Leaves}
use promolog.StatusCode.{negate_int}

All-all : {A : Type 0} {P : A → Type 0} (xs : List A) → ((x : A) → P x) → All P xs
All-all [] f = tt
All-all (x ∷ xs) f = (f x, All-all xs f)

not-leb_ℤ :
    (now c : Time) (zone d : Duration)
    → pos 0 <ℤ d
    → not (leb_ℤ c (time_add (cutoff_of now d) zone)) ≡ ltb_ℤ (now -ℤ c) (d -ℤ zone)
unfolding negate_int
not-leb_ℤ now c zone (pos (suc m)) positive = ground (
  arith,
  +ℤ_parts now (negsuc m),
  +ℤ_parts (now +ℤ negsuc m) zone,
  -ℤ_parts now c,
  -ℤ_parts (pos (suc m)) zone,
)
not-leb_ℤ now c zone (pos zero) positive = absurd (omega arith)
not-leb_ℤ now c zone (negsuc m) positive = absurd (omega arith)

module _ (path_match : Str → Str → Option Bool) (d : Duration) (engine : RetentionEngine)
    (T : Table) (laws : IsSqlTable T) where
  kept_by_age :
      (zone : Duration) (now : Time) (rows : List Row)
      → zone ≢ pos 0
      → pos 0 <ℤ d
      → keep (λ r. not (is_before (local_cutoff zone now d) r)) rows
        ≡ keep (λ r. ltb_ℤ (now -ℤ r.created_at) (d -ℤ zone)) rows
  kept_by_age zone now rows away positive =
      keep_cong (λ r. not (is_before (local_cutoff zone now d) r))
        (λ r. ltb_ℤ (now -ℤ r.created_at) (d -ℤ zone)) rows
        (All-all rows (λ r. elim (Bool-cases (eqb_ℤ zone (pos 0))) [
          | inl same ↦ absurd (away ((eqb_ℤ_iff zone (pos 0)).0 same))
          | inr other ↦ rw other (not-leb_ℤ now r.created_at zone d positive)
        ]))

  -- On a host whose zone is `zone` ahead of UTC, and not UTC, a pass with a positive TTL and without
  -- enabled rules that returns no error keeps exactly the rows whose age is below the TTL less `zone`: east of UTC it
  -- deletes rows that have not outlived the TTL, and west of UTC it keeps rows that have.
  pub cleanup_shifted_by_zone :
      (load : T.State → Result T.Error RetentionEngine) (zone : Duration) (now later : Time)
      (s s' : T.State) (n : ℕ)
      → load s ≡ ok engine
      → has_rules (some engine) ≡ false
      → zone ≢ pos 0
      → pos 0 <ℤ d
      → run_cleanup path_match T load zone now later d s ≡ some (s', n, none)
      → laws.rows s' ≡ keep (λ r. ltb_ℤ (now -ℤ r.created_at) (d -ℤ zone)) (laws.rows s)
  unfolding run_cleanup run_cleanup_with_engine
  cleanup_shifted_by_zone load zone now later s s' n loaded unruled away positive h =
      (delete_older_than-Leaves path_match d engine T laws (local_cutoff zone now d) s s' n
        (cc (rw (loaded, run_cleanup, unruled, run_cleanup_with_engine) at h))).0
      ∙ kept_by_age zone now (laws.rows s) away positive

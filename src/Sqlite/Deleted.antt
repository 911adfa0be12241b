-- ===== src/Sqlite/Deleted.antt =====
-- Which rows the deletions of a cleanup pass leave.
use promolog.Prelude.{
  ℕ, ◌+◌, List, [], ◌∷◌, Bool, true, false, not, ◌&&◌, inl, inr, Option, none, some, ◌≡◌, refl, sym,
  ap, ◌∙◌, arith, Str, str_eq, str_eq_iff, keep, length, if◌then◌else◌, ltb_ℤ, Option-cases, subst,
}
use promolog.Trace.{Time, Duration, time_sub}
use promolog.Rule.{RetentionEngine}
use promolog.Sqlite.Row.{Row}
use promolog.Sqlite.Table.{Result-cases, Table, IsSqlTable, has_id}
use promolog.Sqlite.Cleanup.{
  candidate_fields, effective_ttl, is_expired, select_expired, delete_all,
}
use promolog.Sqlite.Unique.{id_in, keep_ext, keep-keep}

str_eq_comm : (a b : Str) → str_eq a b ≡ str_eq b a
str_eq_comm a b = ground (arith, str_eq_iff a b, str_eq_iff b a)

id_in-step :
    (id : Str) (b : Bool) (r : Row) (ids : List Str) (rows : List Row)
    → id_in id ids ≡ has_id id rows
    → id_in id (if b then r.request_id ∷ ids else ids) ≡ has_id id (if b then r ∷ rows else rows)
unfolding has_id
id_in-step id true r ids rows e = rw (str_eq_comm id r.request_id, e)
id_in-step id false r ids rows e = e

keep_everything : (rows : List Row) → rows ≡ keep (λ _. true) rows
keep_everything [] = refl
keep_everything (r ∷ rows) = ap (λ l. r ∷ l) (keep_everything rows)

module _ (path_match : Str → Str → Option Bool) (default_ttl : Duration)
    (engine : Option RetentionEngine) where
  -- The TTL of a row: the engine's, where its fields exist.
  abbrev pub row_ttl : Row → Duration
  row_ttl r = elim (candidate_fields r) [
    | none ↦ default_ttl
    | some fields ↦ effective_ttl path_match default_ttl engine fields
  ]

  -- The row has outlived its TTL.
  abbrev pub outlived : Time → Row → Bool
  outlived now r = ltb_ℤ (row_ttl r) (time_sub now r.created_at)

  is_expired-outlived :
      (now : Time) (r : Row) (b : Bool)
      → is_expired path_match now default_ttl engine r ≡ some b
      → b ≡ outlived now r
  unfolding is_expired
  is_expired-outlived now r b h = ground arith

  pub select_expired-outlived :
      (now : Time) (rs : List Row) (ids : List Str)
      → select_expired path_match now default_ttl engine rs ≡ some ids
      → (id : Str) → id_in id ids ≡ has_id id (keep (outlived now) rs)
  unfolding select_expired has_id
  select_expired-outlived now [] ids h id = let same : [] ≡ ids = cc h in ap (id_in id) (sym same)
  select_expired-outlived now (r ∷ rs) ids h id =
      elim (Option-cases (is_expired path_match now default_ttl engine r)) [
        | inl panic ↦ cc (rw (panic, select_expired) at h)
        | inr (b, known) ↦
            elim (Option-cases (select_expired path_match now default_ttl engine rs)) [
              | inl panic ↦ cc (rw (known, panic, select_expired) at h)
              | inr (rest, found) ↦
                  let same : (if b then r.request_id ∷ rest else rest) ≡ ids =
                    cc (rw (known, found, select_expired) at h) in
                  subst (λ l. id_in id l ≡ has_id id (keep (outlived now) (r ∷ rs))) same
                    (subst
                      (λ c.
                        id_in id (if b then r.request_id ∷ rest else rest)
                        ≡ has_id id
                            (if c then r ∷ keep (outlived now) rs else keep (outlived now) rs))
                      (is_expired-outlived now r b known)
                      (id_in-step id b r rest (keep (outlived now) rs)
                        (select_expired-outlived now rs rest found id)))
            ]
      ]

module _ (path_match : Str → Str → Option Bool) (T : Table) (laws : IsSqlTable T) where
  -- Without an error the rows with one of the IDs are gone, and counted.
  pub delete_all-rows :
      (ids : List Str) (deleted n : ℕ) (s s' : T.State)
      → delete_all path_match T ids deleted s ≡ (s', n, none)
      → (laws.rows s' ≡ keep (λ r. not (id_in r.request_id ids)) (laws.rows s))
        × (n + length (laws.rows s') ≡ deleted + length (laws.rows s))
  unfolding delete_all
  delete_all-rows [] deleted n s s' h =
      let same : s ≡ s' = ap (λ p. p.0) h in
      let counted : deleted ≡ n = ap (λ p. p.1) h in
      (
        sym (ap laws.rows same) ∙ keep_everything (laws.rows s),
        ap (λ l. n + length (laws.rows l)) (sym same)
            ∙ ap (λ k. k + length (laws.rows s)) (sym counted),
      )
  delete_all-rows (id ∷ ids) deleted n s s' h = elim (Result-cases (T.delete_row id s).1) [
    | inl (m, fine) ↦
        let s1 : T.State = (T.delete_row id s).0 in
        let (left, gone) = laws.deleted id s m fine in
        let (kept, counted) =
          delete_all-rows ids (deleted + m) n s1 s' (rw (fine, delete_all) at h) in
        (
          kept
              ∙ (ap (keep (λ r. not (id_in r.request_id ids))) left
                  ∙ (keep-keep (λ r. not (id_in r.request_id ids))
                        (λ r. not (str_eq r.request_id id)) (laws.rows s)
                      ∙ keep_ext (λ r. not (str_eq r.request_id id) && not (id_in r.request_id ids))
                          (λ r. not (id_in r.request_id (id ∷ ids))) (λ r. ground arith)
                          (laws.rows s))),
          omega arith,
        )
    | inr (e, failed) ↦ cc (ap (λ p. p.2) (rw (failed, delete_all) at h))
  ]

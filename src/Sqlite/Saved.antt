-- ===== src/Sqlite/Saved.antt =====
-- What `Get` reads back of a promoted trace.
use promolog.Prelude.{
  ltb_ℤ, false, ◌≢◌, ◌≡◌, refl, subst, ◌∙◌, ap, inl, inr, List, [], ◌∷◌, ◌++◌, Option, none, some,
  Bool-cases, Option-cases, Str, str_eq_refl, Dict, lit, str_eq, if◌then◌else◌,
}
use promolog.Trace.{Entry, Trace, Time, max_duration}
use promolog.Sqlite.Row.{Row, Json, row_of, tags_column, tags_of, trace_of_row, operation_id_of}
use promolog.Sqlite.Columns.{
  string_of-nullable_string, time_of-nullable_time, duration_of-duration_column, whole_ms,
}
use promolog.Sqlite.Table.{ok, Table, IsSqlTable, has_id, find_id}
use promolog.Sqlite.Store.{Store, promote_at, read_trace, get, Outcome}
use promolog.Sqlite.Promoted.{
  appended, refused, Promoted, saved, not_marshalled, promote_at-Promoted,
}

find_id-snoc :
    (r : Row) (rs : List Row)
    → has_id r.request_id rs ≡ false
    → find_id r.request_id (rs ++ r ∷ []) ≡ some r
unfolding has_id find_id
find_id-snoc r [] h = rw (str_eq_refl r.request_id)
find_id-snoc r (q ∷ rs) h = elim (Bool-cases (str_eq q.request_id r.request_id)) [
  | inl same ↦ cc (rw same at h)
  | inr differs ↦ rw differs (find_id-snoc r rs (rw differs at h))
]

module _ (T : Table) (json : Json) (K : Type 0) (laws : IsSqlTable T) where
  abbrev stored_tags : Option (Dict Str) → Option (Dict Str)
  stored_tags none = none
  stored_tags (some []) = none
  stored_tags (some (e ∷ m)) = some (e ∷ m)

  -- The trace as it is stored: no empty tags, the time of the call, the operation ID as `Get` derives
  -- it, and whole milliseconds.
  abbrev pub stored : Trace → Time → Trace
  stored t c = record t {
    tags = stored_tags t.tags;
    created_at = c;
    operation_id = if str_eq t.kind (lit "operation") then t.request_id else [];
    duration = whole_ms t.duration;
  }

  trace_of-row_of :
      (t : Trace) (entries : Str) (tags : Option Str) (c : Time) (m : Option (Dict Str))
      → ltb_ℤ max_duration t.duration ≡ false
      → m ≡ stored_tags t.tags
      → trace_of_row (row_of t entries tags c) t.entries m ≡ stored t c
  unfolding trace_of_row row_of operation_id_of
  trace_of-row_of t entries tags c m h e = simp (
    e,
    string_of-nullable_string,
    time_of-nullable_time,
    duration_of-duration_column t.duration h,
  )

  -- The JSON text of these tags is not empty and is read back as them.
  abbrev pub TagsReadBack : Option (Dict Str) → Type 0
  TagsReadBack none = Unit
  TagsReadBack (some m) =
      (x : Str) → json.marshal_tags m ≡ some x → (x ≢ []) × (json.unmarshal_tags x ≡ some m)

  tags_of_text :
      (x : Str) (m : Dict Str)
      → (x ≢ []) × (json.unmarshal_tags x ≡ some m)
      → tags_of json (some x) ≡ some (some m)
  unfolding tags_of
  tags_of_text [] m (some_text, back) = absurd (some_text refl)
  tags_of_text (c ∷ x) m (some_text, back) = rw (back, tags_of)

  tags_of-tags_column :
      (tags : Option (Dict Str)) (column : Option Str)
      → TagsReadBack tags
      → tags_column json tags ≡ some column
      → tags_of json column ≡ some (stored_tags tags)
  unfolding tags_column tags_of
  tags_of-tags_column none column back h =
      let same : none ≡ column = cc h in subst (λ q. tags_of json q ≡ some none) same refl
  tags_of-tags_column (some []) column back h =
      let same : none ≡ column = cc h in subst (λ q. tags_of json q ≡ some none) same refl
  tags_of-tags_column (some (e ∷ m)) column back h =
      elim (Option-cases (json.marshal_tags (e ∷ m))) [
        | inl failed ↦ cc (rw (failed, tags_column) at h)
        | inr (x, got) ↦
            let same : some x ≡ column = cc (rw (got, tags_column) at h) in
            subst (λ q. tags_of json q ≡ some (some (e ∷ m))) same
              (tags_of_text x (e ∷ m) (back x got))
      ]

  get_read :
      (s : Store T.State K) (id : Str) (r : Row) (entries : List Entry) (tags : Option (Dict Str))
      → T.find_row id s.db ≡ ok (some r)
      → json.unmarshal_entries r.entries ≡ some entries
      → tags_of json r.tags ≡ some tags
      → get T json K s id ≡ ok (some (trace_of_row r entries tags))
  unfolding get read_trace
  get_read s id r entries tags found e g = rw (found, e, g, get)

  -- If `PromoteAt` returns nil, and `Get` for the ID of the trace reads the table, it returns the trace
  -- with these changes: the given time of creation; the duration in whole milliseconds, and 0 if it is
  -- negative; no tags for an empty map; the request ID as the operation ID where the kind is
  -- `operation`, and else none. The JSON of the entries and of the tags is taken to be read back, and
  -- the duration not to be above the greatest int64.
  pub get-promote_at :
      (s : Store T.State K) (t : Trace) (c : Time) (k : K) (o : Option Row)
      → ((x : Str)
          → json.marshal_entries t.entries ≡ some x
          → json.unmarshal_entries x ≡ some t.entries)
      → TagsReadBack t.tags
      → ltb_ℤ max_duration t.duration ≡ false
      → (promote_at T json K s t c k).2 ≡ none
      → T.find_row t.request_id (promote_at T json K s t c k).0.db ≡ ok o
      → get T json K (promote_at T json K s t c k).0 t.request_id ≡ ok (some (stored t c))
  unfolding row_of
  get-promote_at s t c k o entries_back tags_back small =
      get_of (promote_at-Promoted T json K laws s t c k)
    where
      get_of :
          {out : Outcome T json K}
          → Promoted T json K laws s t c k out
          → out.2 ≡ none
          → T.find_row t.request_id out.0.db ≡ ok o
          → get T json K out.0 t.request_id ≡ ok (some (stored t c))
      get_of (saved {out} {entries} {tags} got got_tags (appended new added called fine)) h found =
          let there : o ≡ some (row_of t entries tags c) =
            laws.find_found t.request_id out.0.db o found
            ∙ (ap (find_id t.request_id) added
                ∙ find_id-snoc (row_of t entries tags c) (laws.rows s.db) new) in
          get_read out.0 t.request_id (row_of t entries tags c) t.entries (stored_tags t.tags)
            (found ∙ ap ok there) (entries_back entries got)
            (tags_of-tags_column t.tags tags tags_back got_tags)
          ∙ ap (λ q. ok (some q)) (trace_of-row_of t entries tags c (stored_tags t.tags) small refl)
      get_of (saved _ _ (refused same kept failed)) h found = cc (failed, h)
      get_of (not_marshalled e) h found = cc (ap (λ o. o.2) e, h)

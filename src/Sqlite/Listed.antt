-- ===== src/Sqlite/Listed.antt =====
-- The summaries of `ListTraces` beside the traces of `Get`.
use promolog.Prelude.{ℤ, List, [], ◌∷◌, Option, none, some, ◌≡◌, Str, Dict, map}
use promolog.Trace.{Trace, TraceSummary}
use promolog.Sqlite.Row.{Row, Json, tags_of}
use promolog.Sqlite.Table.{Result, ok, Cursor, finished, Table}
use promolog.Sqlite.Store.{StoreError, summary_of, read_trace}
use promolog.Sqlite.Query.{TraceFilter, count_query, list_query}
use promolog.Sqlite.Listing.{ListError, Reader, summary_of_row, list_traces}

module _ (T : Table) (json : Json) (left_tags : Str → Option (Dict Str)) where
  -- What `Get` reads of a row.
  abbrev pub trace_of : Row → Result (StoreError T.Error) (Option Trace)
  trace_of r = read_trace T json Unit r (json.unmarshal_entries r.entries) (tags_of json r.tags)

  -- Each summary is that of the trace which `Get` makes of the row, where it makes one.
  abbrev pub IsBeside : List Row → List TraceSummary → Type 0
  IsBeside [] [] = Unit
  IsBeside [] (m ∷ ms) = ⊥
  IsBeside (r ∷ rs) [] = ⊥
  IsBeside (r ∷ rs) (m ∷ ms) =
      ((t : Trace) → trace_of r ≡ ok (some t) → m ≡ summary_of t r.created_at) × IsBeside rs ms

  module _ {S E : Type 0} (reader : Reader S E) (split_fields : Str → List Str)
      (scan_int : Str → Option ℤ) (f : TraceFilter) (s : S) where
    abbrev pub counted : Result E ℤ
    counted =
        reader.query_count (count_query split_fields scan_int f).0
          (count_query split_fields scan_int f).1 s

    abbrev pub selected : Result E (Cursor E)
    selected =
        reader.query_rows (list_query split_fields scan_int f).0
          (list_query split_fields scan_int f).1 s

    abbrev pub listing : List TraceSummary × ℤ × Option (ListError E)
    listing = list_traces json left_tags reader split_fields scan_int f s

    -- A page that was listed without an error.
    abbrev pub Page : Type 0
    Page =
        (total : ℤ) × (c : Cursor E) × (counted ≡ ok total)
        × (selected ≡ ok c)
        × (c.end ≡ finished)
        × (listing ≡ (map (summary_of_row json left_tags) c.found, total, none))
        × IsBeside c.found listing.0

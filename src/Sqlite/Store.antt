-- ===== src/Sqlite/Store.antt =====
-- `Promote`, `Get`, `DeleteTrace` and `SetOnPromote` of sqlite/store.go, and `WireExporter` of
-- promolog.go. A nil error is `none`. The callback acts on the state `K` of the program around the
-- store.
use promolog.Prelude.{ℕ, ◌==◌, List, Option, none, some, Str, Dict, if◌then◌else◌}
use promolog.Trace.{Entry, Trace, TraceSummary, Time}
use promolog.Sqlite.Row.{Row, Json, row_of, tags_column, tags_of, trace_of_row}
use promolog.Sqlite.Table.{Result, ok, err, Table}

pub data StoreError (E : Type 0) : Type 0 where
  marshal_entries_failed : StoreError E
  marshal_tags_failed : StoreError E
  insert_trace_failed : E → StoreError E
  duplicate_trace : StoreError E
  scan_trace_failed : E → StoreError E
  unmarshal_entries_failed : StoreError E
  unmarshal_tags_failed : StoreError E
  delete_trace_failed : E → StoreError E

pub record Store (S K : Type 0) : Type 0 where
  pub db : S
  pub on_promote : Option (TraceSummary → K → K)

unfoldable pub new_store : {S K : Type 0} → S → Store S K
new_store db = record { db = db; on_promote = none }

unfoldable pub set_on_promote :
    {S K : Type 0} → Option (TraceSummary → K → K) → Store S K → Store S K
set_on_promote fn s = record { db = s.db; on_promote = fn }

unfoldable pub call_on_promote : {K : Type 0} → Option (TraceSummary → K → K) → TraceSummary → K → K
call_on_promote none summary k = k
call_on_promote (some fn) summary k = fn summary k

-- The summary that `promoteAt` passes to the callback.
unfoldable pub summary_of : Trace → Time → TraceSummary
summary_of t created_at = record {
  request_id = t.request_id;
  parent_request_id = t.parent_request_id;
  error_chain = t.error_chain;
  status_code = t.status_code;
  route = t.route;
  method = t.method;
  remote_ip = t.remote_ip;
  user_id = t.user_id;
  tags = t.tags;
  created_at = created_at;
  kind = t.kind;
  operation_id = t.operation_id;
  operation_name = t.operation_name;
  origin_request_id = t.origin_request_id;
  status = t.status;
  started_at = t.started_at;
  duration = t.duration;
}

-- The goroutine of `WireExporter`. A nil trace is `ok none`.
unfoldable pub export_trace :
    {X G : Type 0}
    → (Str → G → G × Result X (Option Trace))
    → (Trace → G → G)
    → TraceSummary
    → G
    → G
export_trace get_trace export summary g =
    let read = get_trace summary.request_id g in
    elim read.1 [ err e ↦ read.0 | ok none ↦ read.0 | ok (some trace) ↦ export trace read.0 ]

-- `spawn` starts a goroutine.
unfoldable pub wire_exporter :
    {S K G X : Type 0}
    → ((G → G) → K → K)
    → (Trace → G → G)
    → (Str → G → G × Result X (Option Trace))
    → Store S K
    → Store S K
wire_exporter spawn export get_trace s =
    set_on_promote (some (λ summary k. spawn (export_trace get_trace export summary) k)) s

module _ (T : Table) (json : Json) (K : Type 0) where
  abbrev pub Outcome : Type 0
  Outcome = Store T.State K × K × Option (StoreError T.Error)

  -- What `promoteAt` does with the result of the INSERT.
  unfoldable pub finish_promote :
      Store T.State K → TraceSummary → K → T.State → Result T.Error ℕ → Outcome
  finish_promote s summary k db (err e) =
      (record { db = db; on_promote = s.on_promote }, k, some (insert_trace_failed e))
  finish_promote s summary k db (ok n) =
      if n == 0 then (record { db = db; on_promote = s.on_promote }, k, some duplicate_trace) else (
        record { db = db; on_promote = s.on_promote },
        call_on_promote s.on_promote summary k,
        none,
      )

  unfoldable pub insert_trace : Store T.State K → Row → TraceSummary → K → Outcome
  insert_trace s r summary k =
      let res = T.insert_row r s.db in finish_promote s summary k res.0 res.1

  unfoldable pub promote_at : Store T.State K → Trace → Time → K → Outcome
  promote_at s t created_at k = elim (json.marshal_entries t.entries) [
    | none ↦ (s, k, some marshal_entries_failed)
    | some entries ↦ elim (tags_column json t.tags) [
      | none ↦ (s, k, some marshal_tags_failed)
      | some tags ↦ insert_trace s (row_of t entries tags created_at) (summary_of t created_at) k
    ]
  ]

  unfoldable pub promote : Store T.State K → Trace → Time → K → Outcome
  promote s t now k = promote_at s t now k

  unfoldable pub read_trace :
      Row
      → Option (List Entry)
      → Option (Option (Dict Str))
      → Result (StoreError T.Error) (Option Trace)
  read_trace r none tags = err unmarshal_entries_failed
  read_trace r (some entries) none = err unmarshal_tags_failed
  read_trace r (some entries) (some tags) = ok (some (trace_of_row r entries tags))

  unfoldable pub get : Store T.State K → Str → Result (StoreError T.Error) (Option Trace)
  get s request_id = elim (T.find_row request_id s.db) [
    | err e ↦ err (scan_trace_failed e)
    | ok none ↦ ok none
    | ok (some r) ↦ read_trace r (json.unmarshal_entries r.entries) (tags_of json r.tags)
  ]

  unfoldable pub delete_trace :
      Store T.State K → Str → Store T.State K × Option (StoreError T.Error)
  delete_trace s request_id =
      let res = T.delete_row request_id s.db in
      (
        record { db = res.0; on_promote = s.on_promote },
        elim res.1 [ err e ↦ some (delete_trace_failed e) | ok n ↦ none ],
      )

-- ===== src/Sqlite/Examples.antt =====
-- Tests of the store on a table in memory, and its theorems there.
use promolog.Prelude.{
  ℕ, pos, List, [], ◌∷◌, Option, none, some, ◌≡◌, ◌≢◌, refl, ap, ◌+◌, Bool, false, Str, lit, str_eq,
  str_eq_refl, subst, Dict, if◌then◌else◌,
}
use promolog.Trace.{Entry, Trace}
use promolog.Sqlite.Row.{Row, Json, row_of, tags_column}
use promolog.Sqlite.Table.{ok, has_id, find_id}
use promolog.Sqlite.Store.{
  StoreError, Store, new_store, set_on_promote, call_on_promote, summary_of, finish_promote,
  insert_trace, promote_at, get,
}
use promolog.Sqlite.Unique.{NodupIds}
use promolog.Sqlite.Invariant.{promotes, here, next, Reach-NodupIds}
use promolog.Sqlite.Memory.{memory, memory_laws}
use promolog.Sqlite.Promoted.{promote_at_all_or_nothing}
use promolog.Sqlite.Saved.{stored, TagsReadBack, get-promote_at}

abbrev no_match : Str → Str → Option Bool
no_match pattern name = some false

abbrev entry : Entry
entry = record { time = pos 5; level = lit "ERROR"; message = lit "boom"; attrs = none }

abbrev acme_tags : Dict Str
acme_tags = (lit "tenant", lit "acme") ∷ []

-- JSON that knows one list of entries and one map of tags.
abbrev small_json : Json
small_json = record {
  marshal_entries = λ entries. some (lit "[{}]");
  unmarshal_entries = λ text. if str_eq text (lit "[{}]") then some (entry ∷ []) else none;
  marshal_tags = λ m. some (lit "{}");
  unmarshal_tags = λ text. if str_eq text (lit "{}") then some acme_tags else none;
}

abbrev operation : Trace
operation = record {
  request_id = lit "op-1";
  parent_request_id = [];
  error_chain = lit "boom";
  status_code = pos 0;
  route = [];
  method = [];
  user_agent = [];
  remote_ip = [];
  user_id = [];
  tags = some acme_tags;
  entries = entry ∷ [];
  request_body = [];
  response_body = [];
  created_at = pos 0;
  kind = lit "operation";
  operation_id = lit "op-1";
  operation_name = lit "job";
  origin_request_id = [];
  status = lit "error";
  started_at = pos 7;
  duration = pos 2500000;
}

-- A store whose callback counts the summaries.
abbrev counting_store : Store (List Row) ℕ
counting_store = set_on_promote (some (λ summary n. n + 1)) (new_store [])

abbrev after_promote : Store (List Row) ℕ × ℕ × Option (StoreError ℕ)
after_promote = promote_at memory small_json ℕ counting_store operation (pos 9) 0

promoted_once : after_promote.1 ≡ 1
unfolding promote_at insert_trace finish_promote tags_column row_of has_id set_on_promote new_store
    call_on_promote
promoted_once = refl

-- The second promote of a trace is refused, without a call of the callback.
promoted_twice : (promote_at memory small_json ℕ after_promote.0 operation (pos 10) 1).1 ≡ 1
unfolding promote_at insert_trace finish_promote tags_column row_of has_id set_on_promote new_store
    call_on_promote str_eq lit
promoted_twice = refl

entries_back :
    (x : Str)
    → small_json.marshal_entries operation.entries ≡ some x
    → small_json.unmarshal_entries x ≡ some operation.entries
entries_back x h =
    let same : lit "[{}]" ≡ x = cc h in
    subst (λ y. small_json.unmarshal_entries y ≡ some operation.entries) same
      (ap (λ b. if b then some (entry ∷ []) else none) (str_eq_refl (lit "[{}]")))

tags_back : TagsReadBack memory small_json ℕ memory_laws operation.tags
unfolding lit str_eq
tags_back x h =
    let same : lit "{}" ≡ x = cc h in
    subst (λ y. (y ≢ []) × (small_json.unmarshal_tags y ≡ some acme_tags)) same ((λ e. cc e), refl)

after_promote_fine : after_promote.2 ≡ none
unfolding promote_at insert_trace finish_promote tags_column row_of has_id set_on_promote new_store
    call_on_promote
after_promote_fine = refl

promote_at_all_or_nothing_example :
    (after_promote.2 ≡ none
      → (has_id (lit "op-1") [] ≡ false)
        × ((r : Row) × (r.request_id ≡ lit "op-1") × (after_promote.0.db ≡ r ∷ []))
        × (after_promote.1
            ≡ call_on_promote counting_store.on_promote (summary_of operation (pos 9)) 0))
    × ((e : StoreError ℕ)
        → after_promote.2 ≡ some e
        → (after_promote.0.db ≡ []) × (after_promote.1 ≡ 0))
unfolding set_on_promote new_store
promote_at_all_or_nothing_example =
    promote_at_all_or_nothing memory small_json ℕ memory_laws counting_store operation (pos 9) 0

get-promote_at_example :
    get memory small_json ℕ after_promote.0 (lit "op-1")
    ≡ ok (some (stored memory small_json ℕ memory_laws operation (pos 9)))
get-promote_at_example =
    get-promote_at memory small_json ℕ memory_laws counting_store operation (pos 9) 0
      (find_id (lit "op-1") after_promote.0.db) entries_back tags_back refl after_promote_fine refl

-- Two promotes of one trace, the second of which fails, and a promote of another.
used_store :
    NodupIds
      (promote_at memory small_json ℕ
        (promote_at memory small_json ℕ counting_store operation (pos 9) 0).0
        operation
        (pos 10)
        1).0.db
unfolding set_on_promote new_store
used_store =
    Reach-NodupIds no_match memory memory_laws small_json ℕ tt
      (next (next here (promotes operation (pos 9) 0)) (promotes operation (pos 10) 1))

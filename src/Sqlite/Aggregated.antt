-- ===== src/Sqlite/Aggregated.antt =====
-- What `Aggregate` returns, by the rows of the table.
use mathlib.Core.Path.{fun_ext}
use promolog.Prelude.{
  ℕ, ℤ, pos, List, [], ◌∷◌, Bool, inl, inr, ◌&&◌, none, some, Option-cases, ◌≡◌, refl, sym, ap, ◌∙◌,
  subst, Str, lit, str_eq, All, map, keep, take,
}
use promolog.Trace.{Time}
use promolog.Sqlite.Row.{Row}
use promolog.Sqlite.Table.{
  Result, Result-cases, ok, err, CursorEnd, finished, scan_error, iterate_error,
}
use promolog.Sqlite.Query.{Arg}
use promolog.Sqlite.Aggregate.{
  AggregateFilter, AggregateResult, unsupported_group_by, Counts, column_of, least_count,
  aggregate_query, top_query, nonempty_chains, finish_top, top_errors, collect_results,
  finish_groups, aggregate_column, aggregate,
}
use promolog.Sqlite.Issued.{
  groups_select, top_select, groups_text, top_text, in_window, hold_window, hold_group, Issued,
  issued_groups, issued_top,
}
use promolog.Sqlite.Select.{Select, select_text, select_args, IsGrouped, column_text, IsAnswer}

abbrev pub group_of : AggregateResult → Str × ℕ
group_of r = (r.key, r.count)

chain_column :
    (number_text : ℤ → Str) (r : Row)
    → column_text number_text (lit "error_chain") r ≡ r.error_chain
unfolding lit str_eq
chain_column number_text r = refl

module _ (f : AggregateFilter) (now : Time) where
  module _ (number_text : ℤ → Str) where
    -- A trace of the window in a group.
    abbrev in_group : Str → Str → Row → Bool
    in_group col key r = in_window f now r && str_eq (column_text number_text col r) key

    -- The most frequent error chains of a group, without the empty one.
    pub record IsTop (col : Str) (rows : List Row) (r : AggregateResult) : Type 0 where
      pub chains : List (Str × ℕ)
      pub ranked :
          IsGrouped
            (λ q. q.error_chain)
            (keep (λ q. in_window f now q && str_eq (column_text number_text col q) r.key) rows)
            (pos 1)
            chains
      pub first_five : r.top_errors ≡ nonempty_chains (take 5 chains)

    pub record IsAggregate (rows : List Row) (results : List AggregateResult) : Type 0 where
      pub column : Str
      pub supported : column_of f.group_by ≡ some column
      pub grouped :
          IsGrouped
            (column_text number_text column)
            (keep (in_window f now) rows)
            (least_count f)
            (map group_of results)
      pub tops : All (IsTop column rows) results

    module _ {S E : Type 0} (query_counts : Str → List Arg → S → Result E (Counts E)) (s : S)
        (rows : List Row) where
      -- Where the database answers the statements of the call, it does so as it documents.
      abbrev pub Documented : Str → Type 0
      Documented col =
          (q : Select) (c : Counts E)
          → Issued f now number_text col q
          → query_counts (select_text q) (select_args q) s ≡ ok c
          → c.end ≡ finished
          → IsAnswer number_text q rows c.found

      -- The statement is answered to its end.
      abbrev pub IsAnswered : Select → Type 0
      IsAnswered q =
          (c : Counts E) × (query_counts (select_text q) (select_args q) s ≡ ok c)
          × (c.end ≡ finished)

      finish_top_ok :
          (found : List (Str × ℕ)) (x : CursorEnd E) (tops : List Str)
          → finish_top found x ≡ ok tops
          → (x ≡ finished) × (nonempty_chains found ≡ tops)
      unfolding finish_top
      finish_top_ok found finished tops h = (refl, cc h)
      finish_top_ok found (scan_error e) tops h = cc h
      finish_top_ok found (iterate_error e) tops h = cc h

      asked_top :
          (col key : Str)
          → query_counts (top_query col f now key).0 (top_query col f now key).1 s
            ≡ query_counts
                (select_text (top_select f now col key))
                (select_args (top_select f now col key))
                s
      asked_top col key = ap (λ q. query_counts q.0 q.1 s) (top_text f now col key)

      top_errors_ok :
          (col key : Str) (tops : List Str)
          → top_errors query_counts col f now key s ≡ ok tops
          → (c : Counts E) × (query_counts
                (select_text (top_select f now col key))
                (select_args (top_select f now col key))
                s
              ≡ ok c)
            × (c.end ≡ finished)
            × (nonempty_chains c.found ≡ tops)
      unfolding top_errors
      top_errors_ok col key tops h =
          elim (Result-cases
            (query_counts (top_query col f now key).0 (top_query col f now key).1 s)) [
              | inr (e, failed) ↦ cc (rw (failed, top_errors) at h)
              | inl (c, got) ↦
                  let (end, chains) =
                    finish_top_ok c.found c.end tops (rw (got, top_errors) at h) in
                  (c, sym (asked_top col key) ∙ got, end, chains)
            ]

      IsTop-of :
          (col key : Str) (count : ℕ) (tops : List Str)
          → Documented col
          → top_errors query_counts col f now key s ≡ ok tops
          → IsTop col rows (record { key = key; count = count; top_errors = tops })
      IsTop-of col key count tops law h =
          let (c, got, end, chains) = top_errors_ok col key tops h in
          let answer = law (top_select f now col key) c (issued_top key) got end in
          record {
            chains = answer.all;
            ranked =
                subst (λ k. IsGrouped k (keep (in_group col key) rows) (pos 1) answer.all)
                  (fun_ext (chain_column number_text))
                  (subst
                    (λ p.
                      IsGrouped (column_text number_text (lit "error_chain")) (keep p rows) (pos 1)
                        answer.all)
                    (fun_ext (hold_group f now number_text col key)) answer.grouped);
            first_five = sym chains ∙ ap nonempty_chains answer.first;
          }

      collect_results_ok :
          (col : Str) (found : List (Str × ℕ)) (results : List AggregateResult)
          → Documented col
          → collect_results query_counts col f now found s ≡ ok results
          → (map group_of results ≡ found) × All (IsTop col rows) results
      unfolding collect_results
      collect_results_ok col [] results law h =
          let same : [] ≡ results = cc h in
          subst (λ rs. (map group_of rs ≡ []) × All (IsTop col rows) rs) same (refl, tt)
      collect_results_ok col ((key, count) ∷ found) results law h =
          elim (Result-cases (top_errors query_counts col f now key s)) [
            | inr (e, failed) ↦ cc (rw (failed, collect_results) at h)
            | inl (tops, got) ↦
                elim (Result-cases (collect_results query_counts col f now found s)) [
                  | inr (e, failed) ↦ cc (rw (got, failed, collect_results) at h)
                  | inl (others, more) ↦
                      let r : AggregateResult = record {
                        key = key;
                        count = count;
                        top_errors = tops;
                      } in
                      let same : r ∷ others ≡ results = cc (rw (got, more, collect_results) at h) in
                      let (keys, all) = collect_results_ok col found others law more in
                      subst
                        (λ rs. (map group_of rs ≡ (key, count) ∷ found) × All (IsTop col rows) rs)
                        same
                        (
                          ap (λ l. (key, count) ∷ l) keys,
                          (IsTop-of col key count tops law got, all),
                        )
                ]
          ]

      finish_groups_ok :
          (col : Str) (found : List (Str × ℕ)) (x : CursorEnd E) (results : List AggregateResult)
          → finish_groups query_counts col f now found x s ≡ ok results
          → (x ≡ finished) × (collect_results query_counts col f now found s ≡ ok results)
      unfolding finish_groups
      finish_groups_ok col found finished results h = (refl, h)
      finish_groups_ok col found (scan_error e) results h = cc h
      finish_groups_ok col found (iterate_error e) results h = cc h

      results_ok :
          (col : Str) (results : List AggregateResult)
          → Documented col
          → column_of f.group_by ≡ some col
          → aggregate_column query_counts col f now s ≡ ok results
          → IsAggregate rows results
      unfolding aggregate_column
      results_ok col results law supported h =
          elim (Result-cases
            (query_counts (aggregate_query col f now).0 (aggregate_query col f now).1 s)) [
              | inr (e, failed) ↦ cc (rw (failed, aggregate_column) at h)
              | inl (c, got) ↦
                  let (end, collected) =
                    finish_groups_ok col c.found c.end results (rw (got, aggregate_column) at h) in
                  let (keys, tops) = collect_results_ok col c.found results law collected in
                  let asked =
                    sym (ap (λ q. query_counts q.0 q.1 s) (groups_text f now col)) ∙ got in
                  let answer = law (groups_select f now col) c issued_groups asked end in
                  record {
                    column = col;
                    supported = supported;
                    grouped =
                        subst
                          (λ l.
                            IsGrouped (column_text number_text col) (keep (in_window f now) rows)
                              (least_count f) l)
                          (sym (keys ∙ answer.first))
                          (subst
                            (λ p.
                              IsGrouped (column_text number_text col) (keep p rows) (least_count f)
                                answer.all)
                            (fun_ext (hold_window f now number_text)) answer.grouped);
                    tops = tops;
                  }
            ]

      top_errors_total :
          (col key : Str)
          → IsAnswered (top_select f now col key)
          → (tops : List Str) × (top_errors query_counts col f now key s ≡ ok tops)
      unfolding top_errors finish_top
      top_errors_total col key (c, got, end) =
          let asked = asked_top col key ∙ got in
          (nonempty_chains c.found, rw (asked, top_errors, end) refl)

      collect_results_total :
          (col : Str)
          → ((key : Str) → IsAnswered (top_select f now col key))
          → (found : List (Str × ℕ))
          → (results : List AggregateResult) × (collect_results query_counts col f now found s
              ≡ ok results)
      unfolding collect_results
      collect_results_total col answered [] = ([], refl)
      collect_results_total col answered ((key, count) ∷ found) =
          let (tops, got) = top_errors_total col key (answered key) in
          let (results, more) = collect_results_total col answered found in
          (
            record { key = key; count = count; top_errors = tops } ∷ results,
            rw (got, more, collect_results) refl,
          )

      aggregate_supported :
          (col : Str)
          → column_of f.group_by ≡ some col
          → aggregate query_counts f now s ≡ aggregate_column query_counts col f now s
      unfolding aggregate
      aggregate_supported col supported = rw (supported, aggregate) refl

      aggregate_total :
          (col : Str)
          → column_of f.group_by ≡ some col
          → IsAnswered (groups_select f now col)
          → ((key : Str) → IsAnswered (top_select f now col key))
          → (results : List AggregateResult) × (aggregate query_counts f now s ≡ ok results)
      unfolding aggregate_column finish_groups
      aggregate_total col supported (c, got, end) answered =
          let asked = ap (λ q. query_counts q.0 q.1 s) (groups_text f now col) ∙ got in
          let (results, collected) = collect_results_total col answered c.found in
          (results, aggregate_supported col supported ∙ rw (asked, aggregate_column, end) collected)

      aggregate_unsupported :
          column_of f.group_by ≡ none
          → aggregate query_counts f now s ≡ err (unsupported_group_by f.group_by)
      unfolding aggregate
      aggregate_unsupported h = rw (h, aggregate) refl

      aggregate_ok :
          (results : List AggregateResult)
          → ((col : Str) → column_of f.group_by ≡ some col → Documented col)
          → aggregate query_counts f now s ≡ ok results
          → IsAggregate rows results
      aggregate_ok results law h = elim (Option-cases (column_of f.group_by)) [
        | inl missing ↦ cc (h, aggregate_unsupported missing)
        | inr (col, supported) ↦
            results_ok col results (law col supported) supported
              (sym (aggregate_supported col supported) ∙ h)
      ]

      -- Where the database answers the statements of the call as documented, the results of `Aggregate` are the groups of the
      -- traces in the window by a supported column: each value once, with its number, those and only those with
      -- the least count, the larger ones first, each with the non-empty ones of its five most frequent error chains. If
      -- the column is supported and every statement is answered to its end, there are results; if the
      -- column is not supported, the error says so.
      pub aggregate-IsAggregate :
          ((col : Str) → column_of f.group_by ≡ some col → Documented col)
          → ((results : List AggregateResult)
              → aggregate query_counts f now s ≡ ok results
              → IsAggregate rows results)
            × ((col : Str)
                → column_of f.group_by ≡ some col
                → IsAnswered (groups_select f now col)
                → ((key : Str) → IsAnswered (top_select f now col key))
                → (results : List AggregateResult) × (aggregate query_counts f now s ≡ ok results))
            × (column_of f.group_by ≡ none
                → aggregate query_counts f now s ≡ err (unsupported_group_by f.group_by))
      aggregate-IsAggregate law =
          (λ results h. aggregate_ok results law h, aggregate_total, aggregate_unsupported)

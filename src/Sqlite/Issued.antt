-- ===== src/Sqlite/Issued.antt =====
-- The statements that `Aggregate` sends, as texts and by their meaning.
use mathlib.Core.Bool.{and-true}
use promolog.Prelude.{
  ℤ, pos, ltb_ℤ, leb_ℤ, List, [], ◌∷◌, ◌++◌, Bool, true, Bool-cases, inl, inr, ◌&&◌, none, some,
  ◌≡◌, refl, Str, lit, str_eq, if◌then◌else◌,
}
use promolog.Trace.{Time}
use promolog.Decimal.{decimal}
use promolog.Sqlite.Row.{Row}
use promolog.Sqlite.Cleanup.{cutoff_of}
use promolog.Sqlite.Query.{where_string, join_and}
use promolog.Sqlite.Aggregate.{
  AggregateFilter, window_clauses, least_count, aggregate_query, top_query,
}
use promolog.Sqlite.Select.{
  Condition, since, column_is, Select, select_text, select_args, column_text, all_hold,
}

module _ (f : AggregateFilter) (now : Time) where
  -- The window as a condition.
  abbrev pub window_conditions : List Condition
  window_conditions = if ltb_ℤ (pos 0) f.window then since (cutoff_of now f.window) ∷ [] else []

  abbrev pub groups_select : Str → Select
  groups_select col = record {
    column = col;
    name = lit "cnt";
    conditions = window_conditions;
    least = some (least_count f);
    limit = none;
  }

  abbrev pub top_select : Str → Str → Select
  top_select col key = record {
    column = lit "error_chain";
    name = lit "ecnt";
    conditions = window_conditions ++ column_is col key ∷ [];
    least = none;
    limit = some 5;
  }

  pub groups_text :
      (col : Str)
      → aggregate_query col f now
        ≡ (select_text (groups_select col), select_args (groups_select col))
  unfolding aggregate_query window_clauses where_string join_and lit
  groups_text col = elim (Bool-cases (ltb_ℤ (pos 0) f.window)) [
    | inl window ↦ rw window refl
    | inr always ↦ rw always refl
  ]

  pub top_text :
      (col key : Str)
      → top_query col f now key
        ≡ (select_text (top_select col key), select_args (top_select col key))
  unfolding top_query aggregate_query window_clauses where_string join_and lit decimal
  top_text col key = elim (Bool-cases (ltb_ℤ (pos 0) f.window)) [
    | inl window ↦ rw window refl
    | inr always ↦ rw always refl
  ]

  -- A trace of the window, which takes in every trace where it is not positive.
  abbrev pub in_window : Row → Bool
  in_window r = if ltb_ℤ (pos 0) f.window then leb_ℤ (cutoff_of now f.window) r.created_at else true

  module _ (number_text : ℤ → Str) where
    pub hold_window : (r : Row) → all_hold number_text window_conditions r ≡ in_window r
    hold_window r = elim (Bool-cases (ltb_ℤ (pos 0) f.window)) [
      | inl window ↦ rw window (and-true (leb_ℤ (cutoff_of now f.window) r.created_at))
      | inr always ↦ rw always refl
    ]

    pub hold_group :
        (col key : Str) (r : Row)
        → all_hold number_text (window_conditions ++ column_is col key ∷ []) r
          ≡ (in_window r && str_eq (column_text number_text col r) key)
    hold_group col key r = elim (Bool-cases (ltb_ℤ (pos 0) f.window)) [
      | inl window ↦ rw (window, and-true (str_eq (column_text number_text col r) key)) refl
      | inr always ↦ rw (always, and-true (str_eq (column_text number_text col r) key)) refl
    ]

    -- The statements of a call for a column.
    pub data Issued (col : Str) : Select → Type 0 where
      issued_groups : Issued col (groups_select col)
      issued_top : (key : Str) → Issued col (top_select col key)

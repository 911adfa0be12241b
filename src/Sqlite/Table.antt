-- ===== src/Sqlite/Table.antt =====
-- The statements that sqlite/store.go executes on `error_traces`, and what SQLite documents of them:
-- each one is atomic, `request_id` is unique, `INSERT OR IGNORE` skips a duplicate, and a condition
-- selects exactly the rows that meet it, in an order that is not fixed. SQLite compares times as the
-- texts that the driver binds for them.
use mathlib.Core.List.{Perm}
use promolog.Trace.{Time, Duration, time_add}
use promolog.Prelude.{
  ◌⊎◌, inl, inr, refl, ltb_ℤ, leb_ℤ, eqb_ℤ, pos, length, ◌+◌, ℕ, List, [], ◌∷◌, ◌++◌, Bool, true,
  false, not, ◌||◌, Option, none, some, ◌≡◌, Str, str_eq, keep, if◌then◌else◌,
}
use promolog.Sqlite.Row.{Row}

pub data Result (E A : Type 0) : Type 0 where
  ok : A → Result E A
  err : E → Result E A

pub Result-cases :
    {E A : Type 0} (r : Result E A) → ((a : A) × (r ≡ ok a)) ⊎ ((e : E) × (r ≡ err e))
Result-cases (ok a) = inl (a, refl)
Result-cases (err e) = inr (e, refl)

-- How the iteration over the rows of a SELECT ends.
pub data CursorEnd (E : Type 0) : Type 0 where
  finished : CursorEnd E
  scan_error : E → CursorEnd E
  iterate_error : E → CursorEnd E

pub record Cursor (E : Type 0) : Type 0 where
  pub found : List Row
  pub end : CursorEnd E

-- A time as an argument: the driver binds the text of the clock in its zone, `zone` ahead of UTC, with
-- the offset behind it.
pub record Stamp : Type 0 where
  pub instant : Time
  pub zone : Duration

pub record Table : Type 1 where
  pub State : Type 0
  pub Error : Type 0
  pub insert_row : Row → State → State × Result Error ℕ
  pub find_row : Str → State → Result Error (Option Row)
  pub delete_row : Str → State → State × Result Error ℕ
  pub rows_before : Stamp → State → Result Error (Cursor Error)
  pub delete_before : Stamp → State → State × Result Error ℕ

-- `created_at < ?`, a comparison of texts. The text of `created_at` is that of its UTC clock, and
-- `+00:00` stands before every other offset.
abbrev pub is_before : Stamp → Row → Bool
is_before t r =
    if eqb_ℤ t.zone (pos 0)
    then ltb_ℤ r.created_at t.instant
    else leb_ℤ r.created_at (time_add t.instant t.zone)

unfoldable pub has_id : Str → List Row → Bool
has_id id [] = false
has_id id (r ∷ rs) = str_eq r.request_id id || has_id id rs

unfoldable pub find_id : Str → List Row → Option Row
find_id id [] = none
find_id id (r ∷ rs) = if str_eq r.request_id id then some r else find_id id rs

-- What the rows are after a statement, where every `created_at` was stored in UTC, and the number of rows that it changed.
pub record IsSqlTable (T : Table) : Type 0 where
  pub rows : T.State → List Row
  pub insert_new :
      (r : Row) (s : T.State) (n : ℕ)
      → has_id r.request_id (rows s) ≡ false
      → (T.insert_row r s).1 ≡ ok n
      → (rows (T.insert_row r s).0 ≡ rows s ++ r ∷ []) × (n ≡ 1)
  pub insert_ignored :
      (r : Row) (s : T.State) (n : ℕ)
      → has_id r.request_id (rows s) ≡ true
      → (T.insert_row r s).1 ≡ ok n
      → (rows (T.insert_row r s).0 ≡ rows s) × (n ≡ 0)
  pub insert_failed :
      (r : Row) (s : T.State) (e : T.Error)
      → (T.insert_row r s).1 ≡ err e
      → rows (T.insert_row r s).0 ≡ rows s
  pub find_found :
      (id : Str) (s : T.State) (o : Option Row) → T.find_row id s ≡ ok o → o ≡ find_id id (rows s)
  pub deleted :
      (id : Str) (s : T.State) (n : ℕ)
      → (T.delete_row id s).1 ≡ ok n
      → (rows (T.delete_row id s).0 ≡ keep (λ r. not (str_eq r.request_id id)) (rows s))
        × (n + length (rows (T.delete_row id s).0) ≡ length (rows s))
  pub delete_failed :
      (id : Str) (s : T.State) (e : T.Error)
      → (T.delete_row id s).1 ≡ err e
      → rows (T.delete_row id s).0 ≡ rows s
  pub found_before :
      (t : Stamp) (s : T.State) (c : Cursor T.Error)
      → T.rows_before t s ≡ ok c
      → c.end ≡ finished
      → Perm c.found (keep (is_before t) (rows s))
  pub deleted_before :
      (t : Stamp) (s : T.State) (n : ℕ)
      → (T.delete_before t s).1 ≡ ok n
      → (rows (T.delete_before t s).0 ≡ keep (λ r. not (is_before t r)) (rows s))
        × (n + length (rows (T.delete_before t s).0) ≡ length (rows s))
  pub delete_before_failed :
      (t : Stamp) (s : T.State) (e : T.Error)
      → (T.delete_before t s).1 ≡ err e
      → rows (T.delete_before t s).0 ≡ rows s

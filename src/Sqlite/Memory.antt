-- ===== src/Sqlite/Memory.antt =====
-- A table of traces in memory: a list of rows, whose statements never fail.
use mathlib.Core.List.{Perm}
use mathlib.Core.List.Perm
use promolog.Prelude.{
  ℕ, ◌+◌, ◌-◌, ◌≤◌, List, [], ◌∷◌, ◌++◌, ◌≡◌, refl, subst, Bool, Bool-cases, inl, inr, true, false,
  not, str_eq, keep, length, arith, if◌then◌else◌,
}
use promolog.Sqlite.Row.{Row}
use promolog.Sqlite.Table.{
  Result, ok, err, Table, IsSqlTable, Cursor, finished, has_id, find_id, is_before, Stamp,
}

abbrev pub insert_memory : Row → List Row → List Row × Result ℕ ℕ
insert_memory r rows = if has_id r.request_id rows then (rows, ok 0) else (rows ++ r ∷ [], ok 1)

-- What a DELETE leaves, and the number of rows that are gone.
abbrev pub delete_memory : (Row → Bool) → List Row → List Row × Result ℕ ℕ
delete_memory p rows = (keep p rows, ok (length rows - length (keep p rows)))

-- A table in memory, whose statements never fail.
abbrev pub memory : Table
memory = record {
  State = List Row;
  Error = ℕ;
  insert_row = insert_memory;
  find_row = λ id rows. ok (find_id id rows);
  delete_row = λ id rows. delete_memory (λ r. not (str_eq r.request_id id)) rows;
  rows_before = λ t rows. ok (record { found = keep (is_before t) rows; end = finished });
  delete_before = λ t rows. delete_memory (λ r. not (is_before t r)) rows;
}

pub memory_new :
    (r : Row) (rows : List Row) (n : ℕ)
    → has_id r.request_id rows ≡ false
    → (insert_memory r rows).1 ≡ ok n
    → ((insert_memory r rows).0 ≡ rows ++ r ∷ []) × (n ≡ 1)
memory_new r rows n new h = (rw new, cc (rw new at h))

pub memory_there :
    (r : Row) (rows : List Row) (n : ℕ)
    → has_id r.request_id rows ≡ true
    → (insert_memory r rows).1 ≡ ok n
    → ((insert_memory r rows).0 ≡ rows) × (n ≡ 0)
memory_there r rows n there h = (rw there, cc (rw there at h))

pub memory_failed :
    (r : Row) (rows : List Row) (e : ℕ)
    → (insert_memory r rows).1 ≡ err e
    → (insert_memory r rows).0 ≡ rows
memory_failed r rows e h = elim (Bool-cases (has_id r.request_id rows)) [
  | inl there ↦ cc (rw there at h)
  | inr new ↦ cc (rw new at h)
]

length-keep_le : (p : Row → Bool) (rows : List Row) → length (keep p rows) ≤ length rows
length-keep_le p [] = omega arith
length-keep_le p (r ∷ rows) = ground (arith, length-keep_le p rows)

pub memory_deleted :
    (p : Row → Bool) (rows : List Row) (n : ℕ)
    → (delete_memory p rows).1 ≡ ok n
    → ((delete_memory p rows).0 ≡ keep p rows) × (n + length (keep p rows) ≡ length rows)
memory_deleted p rows n h =
    let number : length rows - length (keep p rows) ≡ n = cc h in
    (refl, omega (arith, number, length-keep_le p rows))

pub memory_found :
    (t : Stamp) (rows : List Row) (c : Cursor ℕ)
    → memory.rows_before t rows ≡ ok c
    → Perm c.found (keep (is_before t) rows)
memory_found t rows c h =
    let same : record { found = keep (is_before t) rows; end = finished } ≡ c = cc h in
    subst (λ d. Perm d.found (keep (is_before t) rows)) same (Perm.refl (keep (is_before t) rows))

abbrev pub memory_laws : IsSqlTable memory
memory_laws = record {
  rows = λ rows. rows;
  insert_new = memory_new;
  insert_ignored = memory_there;
  insert_failed = memory_failed;
  find_found = λ id rows o h. cc h;
  deleted = λ id rows n h. memory_deleted (λ r. not (str_eq r.request_id id)) rows n h;
  delete_failed = λ id rows e h. cc h;
  found_before = λ t rows c h end. memory_found t rows c h;
  deleted_before = λ t rows n h. memory_deleted (λ r. not (is_before t r)) rows n h;
  delete_before_failed = λ t rows e h. cc h;
}

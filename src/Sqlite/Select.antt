-- ===== src/Sqlite/Select.antt =====
-- A statement that counts the traces of each value of a column, as SQL text and by what SQLite documents
-- of it. `number_text` is the decimal form of an integer.
use promolog.Prelude.{
  ℕ, ◌≤◌, ℤ, pos, leb_ℤ, ◌≤ℤ◌, List, [], ◌∷◌, ◌++◌, Bool, true, false, ◌&&◌, ◌||◌, Option, none,
  some, ◌≡◌, Str, lit, str_eq, All, keep, length, take, if◌then◌else◌,
}
use promolog.Trace.{Time}
use promolog.Decimal.{decimal}
use promolog.Sqlite.Row.{Row}
use promolog.Sqlite.Query.{Arg, text_arg, int_arg, time_arg}

pub data Condition : Type 0 where
  since : Time → Condition
  column_is : Str → Str → Condition

-- `SELECT column, COUNT(*) AS name`, with a least count and a limit where there is one.
pub record Select : Type 0 where
  pub column : Str
  pub name : Str
  pub conditions : List Condition
  pub least : Option ℤ
  pub limit : Option ℕ

-- Each text stands before the rest of the statement.
abbrev pub condition_text : Condition → Str → Str
condition_text (since t) rest = lit "created_at >= ?" ++ rest
condition_text (column_is col key) rest = col ++ (lit " = ?" ++ rest)

abbrev pub and_text : List Condition → Str → Str
and_text [] rest = rest
and_text (c ∷ cs) rest = lit " AND " ++ condition_text c (and_text cs rest)

abbrev pub where_text : List Condition → Str → Str
where_text [] rest = rest
where_text (c ∷ cs) rest = lit " WHERE " ++ condition_text c (and_text cs rest)

abbrev pub having_text : Str → Option ℤ → Str → Str
having_text name none rest = rest
having_text name (some n) rest = lit " HAVING " ++ (name ++ (lit " >= ?" ++ rest))

abbrev pub limit_text : Option ℕ → Str
limit_text none = []
limit_text (some n) = lit " LIMIT " ++ decimal n

abbrev pub select_text : Select → Str
select_text q =
    lit "SELECT "
    ++ (q.column
        ++ (lit ", COUNT(*) AS "
            ++ (q.name
                ++ (lit " FROM error_traces"
                    ++ where_text q.conditions (
                        lit " GROUP BY "
                        ++ (q.column
                            ++ having_text q.name q.least (
                                lit " ORDER BY "
                                ++ (q.name ++ (lit " DESC" ++ limit_text q.limit)))))))))

abbrev pub condition_args : List Condition → List Arg → List Arg
condition_args [] rest = rest
condition_args (since t ∷ cs) rest = time_arg t ∷ condition_args cs rest
condition_args (column_is col key ∷ cs) rest = text_arg key ∷ condition_args cs rest

abbrev pub least_args : Option ℤ → List Arg
least_args none = []
least_args (some n) = int_arg n ∷ []

abbrev pub select_args : Select → List Arg
select_args q = condition_args q.conditions (least_args q.least)

-- The number of a group with a key; a group has at least one trace.
abbrev pub count_of : (Row → Str) → Str → List Row → ℕ
count_of key k rows = length (keep (λ r. str_eq (key r) k) rows)

abbrev pub has_group : Str → List (Str × ℕ) → Bool
has_group k [] = false
has_group k ((j, n) ∷ found) = str_eq j k || has_group k found

abbrev pub IsDistinct : List (Str × ℕ) → Type 0
IsDistinct [] = Unit
IsDistinct ((k, n) ∷ found) = (has_group k found ≡ false) × IsDistinct found

abbrev pub IsDescending : List (Str × ℕ) → Type 0
IsDescending [] = Unit
IsDescending ((k, n) ∷ found) = All (λ p. p.1 ≤ n) found × IsDescending found

-- The groups of some rows by a key, each once with its number, those of a least number at the least, the larger
-- ones first.
pub record IsGrouped (key : Row → Str) (rows : List Row) (least : ℤ) (found : List (Str × ℕ))
    : Type 0 where
  pub counted : All (λ p. (p.1 ≡ count_of key p.0 rows) × (least ≤ℤ pos p.1) × (1 ≤ p.1)) found
  pub complete :
      (k : Str)
      → least ≤ℤ pos (count_of key k rows)
      → 1 ≤ count_of key k rows
      → has_group k found ≡ true
  pub distinct : IsDistinct found
  pub descending : IsDescending found

module _ (number_text : ℤ → Str) where
  abbrev pub column_text : Str → Row → Str
  column_text col r =
      if str_eq col (lit "route")
      then r.route
      else if str_eq col (lit "status_code")
      then number_text r.status_code
      else if str_eq col (lit "method")
      then r.method
      else r.error_chain

  abbrev pub holds : Condition → Row → Bool
  holds (since t) r = leb_ℤ t r.created_at
  holds (column_is col key) r = str_eq (column_text col r) key

  abbrev pub all_hold : List Condition → Row → Bool
  all_hold [] r = true
  all_hold (c ∷ cs) r = holds c r && all_hold cs r

  abbrev pub least_of : Option ℤ → ℤ
  least_of none = pos 1
  least_of (some n) = n

  -- The first rows of an answer.
  abbrev pub limited : Option ℕ → List (Str × ℕ) → List (Str × ℕ)
  limited none all = all
  limited (some n) all = take n all

  -- What the statement answers for a table of some rows.
  pub record IsAnswer (q : Select) (rows : List Row) (found : List (Str × ℕ)) : Type 0 where
    pub all : List (Str × ℕ)
    pub grouped :
        IsGrouped (column_text q.column) (keep (all_hold q.conditions) rows) (least_of q.least) all
    pub first : found ≡ limited q.limit all

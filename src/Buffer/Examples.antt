-- ===== src/Buffer/Examples.antt =====
-- Tests of `Buffer`, and its theorems at concrete inputs.
use mathlib.Core.List.{Perm}
use promolog.Prelude.{
  ℕ, ◌+◌, ◌-◌, ◌≤◌, ◌≡◌, refl, List, [], ◌∷◌, some, none, arith, pos, pos_part, ltb_ℤ, length,
  if◌then◌else◌, lit, str_eq,
}
use promolog.Trace.{Entry}
use promolog.Buffer.{Buffer, new_buffer, append, append_all, get_entries, elided_entry, tag, tags}
use promolog.Buffer.Window.{window, get_entries-append_all, append_all_bounds}
use promolog.Buffer.Concurrent.{
  Reach, left_logs, right_logs, here, next, start, finish, unlimited_loses_nothing,
  limited_counts_all,
}
use promolog.Buffer.Tags.{lookup_tag, tags-tag}

abbrev log_line : ℕ → Entry
log_line n = record { time = pos n; level = lit "INFO"; message = []; attrs = none }

abbrev five_lines : List Entry
five_lines = log_line 1 ∷ log_line 2 ∷ log_line 3 ∷ log_line 4 ∷ log_line 5 ∷ []

-- A limit of 3 keeps the first entry and the last two.
three_of_five :
    get_entries (pos 9) (append_all (new_buffer (pos 3)) five_lines)
    ≡ log_line 1 ∷ elided_entry (pos 9) 2 3 ∷ log_line 4 ∷ log_line 5 ∷ []
unfolding get_entries append_all append new_buffer
three_of_five = refl

elided_text :
    (elided_entry (pos 9) 12 30).message ≡ lit "promolog: 12 log entries elided (buffer limit 30)"
unfolding elided_entry lit promolog.Decimal.decimal
elided_text = refl

get_entries-append_all_example :
    get_entries (pos 9) (append_all (new_buffer (pos 3)) five_lines)
    ≡ (if ltb_ℤ (pos 0) (pos 3) then window (pos 9) (pos_part (pos 3)) five_lines else five_lines)
get_entries-append_all_example = get_entries-append_all (pos 9) (pos 3) five_lines

five_lines_bounded :
    (length (get_entries (pos 9) (append_all (new_buffer (pos 3)) five_lines)) ≤ 3 + 1)
    × ((append_all (new_buffer (pos 3)) five_lines).total ≡ length five_lines)
    × ((append_all (new_buffer (pos 3)) five_lines).elided ≡ length five_lines - 3)
five_lines_bounded = append_all_bounds (pos 9) 3 five_lines (omega arith)

abbrev both_logged : ℕ → Buffer
both_logged n = append (append (append (new_buffer (pos n)) (log_line 1)) (log_line 7)) (log_line 2)

schedule :
    (n : ℕ)
    → Reach
        (start (new_buffer (pos n)) (log_line 1 ∷ log_line 2 ∷ []) (log_line 7 ∷ []))
        (finish (both_logged n))
schedule n = next (left_logs _ (log_line 1) (log_line 2 ∷ []) (log_line 7 ∷ [])) (
    next (right_logs _ (log_line 7) (log_line 2 ∷ []) [])
      (next (left_logs _ (log_line 2) [] []) here))

two_writers : Perm (get_entries (pos 9) (both_logged 0)) (log_line 1 ∷ log_line 2 ∷ log_line 7 ∷ [])
two_writers =
    unlimited_loses_nothing (pos 9) (log_line 1 ∷ log_line 2 ∷ []) (log_line 7 ∷ []) (both_logged 0)
      (schedule 0)

two_limited_writers :
    ((both_logged 2).total ≡ 2 + 1) × (length (get_entries (pos 9) (both_logged 2)) ≤ 2 + 1)
two_limited_writers =
    limited_counts_all (pos 9) 2 (log_line 1 ∷ log_line 2 ∷ []) (log_line 7 ∷ []) (both_logged 2)
      (omega arith) (schedule 2)

tag_read :
    (lookup_tag (lit "b") (tags (tag (lit "a") (lit "1") (new_buffer (pos 2)))) ≡ (
      if str_eq (lit "a") (lit "b")
      then some (lit "1")
      else lookup_tag (lit "b") (tags (new_buffer (pos 2)))))
    × (get_entries (pos 9) (tag (lit "a") (lit "1") (new_buffer (pos 2)))
        ≡ get_entries (pos 9) (new_buffer (pos 2)))
tag_read = tags-tag (pos 9) (lit "a") (lit "1") (lit "b") (new_buffer (pos 2))

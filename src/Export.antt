-- ===== src/Export.antt =====
-- export/: the two exporters of promoted traces, JSON lines and webhook. Both write the same JSON object
-- of a trace: its members under their names, without those that `omitempty` leaves out.
pub mod Json
pub mod Webhook
pub mod Lines
pub mod Sent
mod Examples
use promolog.Prelude.{
  ℕ, suc, ◌/◌, ℤ, pos, negsuc, sub_ℕ, eqb_ℤ, List, [], ◌∷◌, ◌++◌, Bool, true, false, Option, none,
  some, Str, lit, Dict, is_empty, if◌then◌else◌,
}
use promolog.Trace.{Entry, Duration}

-- `d.Milliseconds()`, which rounds towards zero.
unfoldable pub milliseconds : Duration → ℤ
milliseconds (pos n) = pos (n / 1000000)
milliseconds (negsuc n) = sub_ℕ 0 (suc n / 1000000)

-- The values of the members.
pub data Value : Type 0 where
  text : Str → Value
  number : ℤ → Value
  texts : Dict Str → Value
  entries : List Entry → Value

abbrev pub Object : Type 0
Object = List (Str × Value)

-- A member with `omitempty`.
unfoldable pub optional_text : Str → Str → Object → Object
optional_text key s rest = if is_empty s then rest else (key, text s) ∷ rest

unfoldable pub optional_number : Str → ℤ → Object → Object
optional_number key n rest = if eqb_ℤ n (pos 0) then rest else (key, number n) ∷ rest

unfoldable pub optional_texts : Str → Option (Dict Str) → Object → Object
optional_texts key none rest = rest
optional_texts key (some []) rest = rest
optional_texts key (some (e ∷ m)) rest = (key, texts (e ∷ m)) ∷ rest

unfoldable pub optional_entries : Str → List Entry → Object → Object
optional_entries key [] rest = rest
optional_entries key (e ∷ es) rest = (key, entries (e ∷ es)) ∷ rest

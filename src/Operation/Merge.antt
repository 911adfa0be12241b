-- ===== src/Operation/Merge.antt =====
-- The tags of an operation's trace: a tag set on the buffer wins over an attribute of the start.
use promolog.Prelude.{
  last_value, or_else, or_else-none, or_else_assoc, Bool, true, false, ◌≡◌, refl, ap, ◌∙◌, sym,
  List, [], ◌∷◌, Option, none, some, arith, inl, inr, Option-cases, if◌then◌else◌, Str, str_eq,
  str_eq_iff, Dict, lookup, insert, lookup-insert,
}
use promolog.Buffer.Tags.{lookup_tag}
use promolog.Operation.{add_missing, merge_missing, operation_tags, OperationAttr, attr_map}

lookup-add_missing :
    (j k v : Str) (m : Dict Str)
    → lookup j (add_missing k v m (lookup k m))
      ≡ or_else (lookup j m) (if str_eq k j then some v else none)
lookup-add_missing j k v m = elim (Option-cases (lookup k m)) [
  | inl missing ↦ rw (missing, lookup-insert k j v m) (ground (arith, str_eq_iff k j))
  | inr (w, found) ↦ rw found (ground (arith, str_eq_iff k j))
]

or_else-if :
    (b : Bool) (v : Str) (o : Option Str)
    → or_else (if b then some v else none) o ≡ (if b then some v else o)
or_else-if true v o = refl
or_else-if false v o = refl

lookup-merge_missing :
    (j : Str) (attrs m : Dict Str)
    → lookup j (merge_missing attrs m) ≡ or_else (lookup j m) (lookup j attrs)
unfolding merge_missing lookup
lookup-merge_missing j [] m = or_else-none (lookup j m)
lookup-merge_missing j ((k, v) ∷ attrs) m =
    lookup-merge_missing j attrs (add_missing k v m (lookup k m))
    ∙ ap (λ o. or_else o (lookup j attrs)) (lookup-add_missing j k v m)
    ∙ or_else_assoc (lookup j m) (if str_eq k j then some v else none) (lookup j attrs)
    ∙ ap (or_else (lookup j m)) (or_else-if (str_eq k j) v (lookup j attrs))

-- The tags of an operation's trace map a key to the value that the buffer's tags have for it, and
-- where they have none to the value of the operation's attribute of that name, if there is one.
pub operation_tags_lem :
    (j : Str) (attrs : Dict Str) (buffer_tags : Option (Dict Str))
    → lookup_tag j (operation_tags attrs buffer_tags)
      ≡ or_else (lookup_tag j buffer_tags) (lookup j attrs)
unfolding operation_tags lookup_tag lookup
operation_tags_lem j [] none = refl
operation_tags_lem j [] (some m) = or_else-none (lookup j m)
operation_tags_lem j (a ∷ attrs) none = lookup-merge_missing j (a ∷ attrs) []
operation_tags_lem j (a ∷ attrs) (some m) = lookup-merge_missing j (a ∷ attrs) m

abbrev pub pairs : List OperationAttr → Dict Str
pairs [] = []
pairs (a ∷ attrs) = (a.key, a.value) ∷ pairs attrs

-- Of several attributes with one key the last one counts.
pub lookup-attr_map :
    (j : Str) (attrs : List OperationAttr) (m : Dict Str)
    → lookup j (attr_map m attrs) ≡ or_else (last_value j (pairs attrs)) (lookup j m)
unfolding attr_map last_value
lookup-attr_map j [] m = refl
lookup-attr_map j (a ∷ attrs) m =
    lookup-attr_map j attrs (insert a.key a.value m)
    ∙ ap (or_else (last_value j (pairs attrs))) (lookup-insert a.key j a.value m)
    ∙ sym (
        or_else_assoc (last_value j (pairs attrs)) (if str_eq a.key j then some a.value else none)
          (lookup j m)
        ∙ ap (or_else (last_value j (pairs attrs)))
            (or_else-if (str_eq a.key j) a.value (lookup j m)))

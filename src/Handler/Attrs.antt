-- ===== src/Handler/Attrs.antt =====
-- The attributes of a captured entry.
use promolog.Prelude.{
  List, [], ◌∷◌, ◌++◌, Option, none, some, ◌≡◌, refl, ap, sym, ◌∙◌, arith, Bool-cases, inl, inr,
  if◌then◌else◌, Str, lit, str_eq, str_eq_iff, Dict, lookup, insert, lookup-insert, or_else,
  or_else-none, or_else_assoc, last_value,
}
use promolog.Buffer.Tags.{lookup_tag}
use promolog.Context.{Context, Operation, get_operation}
use promolog.Handler.{
  Attr, LogRecord, Handler, put_attrs, put_operation, nil_if_empty, captured_entry,
}

abbrev pub attr_pairs : List Attr → List (Str × Str)
attr_pairs [] = []
attr_pairs (a ∷ rest) = (a.key, a.value) ∷ attr_pairs rest

-- An attribute of a record, unless it is the request ID.
abbrev pub visible : Str → List (Str × Str) → Option Str
visible j pairs = if str_eq j (lit "request_id") then none else last_value j pairs

lookup-put_attrs :
    (j : Str) (attrs : List Attr) (m : Dict Str)
    → lookup j (put_attrs attrs m) ≡ or_else (visible j (attr_pairs attrs)) (lookup j m)
unfolding put_attrs last_value
lookup-put_attrs j [] m = ground arith
lookup-put_attrs j (a ∷ rest) m = ground (
  arith,
  lookup-put_attrs j rest m,
  lookup-put_attrs j rest (insert a.key a.value m),
  lookup-insert a.key j a.value m,
  str_eq_iff a.key (lit "request_id"),
  str_eq_iff j (lit "request_id"),
  str_eq_iff a.key j,
)

last_value-append :
    (j : Str) (xs ys : List (Str × Str))
    → last_value j (xs ++ ys) ≡ or_else (last_value j ys) (last_value j xs)
unfolding last_value
last_value-append j [] ys = or_else-none (last_value j ys)
last_value-append j ((k, v) ∷ xs) ys =
    ap (λ o. or_else o (if str_eq k j then some v else none)) (last_value-append j xs ys)
    ∙ or_else_assoc (last_value j ys) (last_value j xs) (if str_eq k j then some v else none)

visible-append :
    (j : Str) (xs ys : List (Str × Str))
    → or_else (visible j ys) (visible j xs) ≡ visible j (xs ++ ys)
visible-append j xs ys = elim (Bool-cases (str_eq j (lit "request_id"))) [
  | inl hidden ↦ rw hidden
  | inr shown ↦ rw shown (sym (last_value-append j xs ys))
]

lookup_tag-nil_if_empty : (j : Str) (m : Dict Str) → lookup_tag j (nil_if_empty m) ≡ lookup j m
unfolding lookup_tag lookup
lookup_tag-nil_if_empty j [] = refl
lookup_tag-nil_if_empty j (e ∷ m) = refl

-- The ID of the operation, under the key that `Handle` uses for it.
abbrev pub operation_attr : Str → Option Operation → Option Str
operation_attr j none = none
operation_attr j (some op) = if str_eq (lit "operation_id") j then some op.id else none

lookup-put_operation :
    (j : Str) (o : Option Operation) (m : Dict Str)
    → lookup j (put_operation o m) ≡ or_else (operation_attr j o) (lookup j m)
unfolding put_operation
lookup-put_operation j none m = refl
lookup-put_operation j (some op) m = ground (arith, lookup-insert (lit "operation_id") j op.id m)

-- The attributes of a captured entry: under `operation_id` the ID of the context's operation,
-- whatever the record says; under `request_id` nothing, unless that is the operation's key; and
-- under any other key the last value given, the handler's attributes before the record's.
pub captured_entry-attrs :
    (Inner Out : Type 0) (h : Handler Inner Out) (ctx : Context) (r : LogRecord) (j : Str)
    → lookup_tag j (captured_entry Inner Out h ctx r).attrs
      ≡ or_else
          (operation_attr j (get_operation ctx))
          (visible j (attr_pairs h.attrs ++ attr_pairs r.attrs))
unfolding captured_entry lookup
captured_entry-attrs Inner Out h ctx r j =
    let base = put_attrs h.attrs [] in
    lookup_tag-nil_if_empty j (put_operation (get_operation ctx) (put_attrs r.attrs base))
    ∙ lookup-put_operation j (get_operation ctx) (put_attrs r.attrs base)
    ∙ ap (or_else (operation_attr j (get_operation ctx))) (
        lookup-put_attrs j r.attrs base
        ∙ ap (or_else (visible j (attr_pairs r.attrs)))
            (lookup-put_attrs j h.attrs [] ∙ sym (or_else-none (visible j (attr_pairs h.attrs))))
        ∙ visible-append j (attr_pairs h.attrs) (attr_pairs r.attrs))

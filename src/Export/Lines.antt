-- ===== src/Export/Lines.antt =====
-- What the JSON exporter writes: a line for each trace.
use promolog.Prelude.{
  ◌==◌, List, [], ◌∷◌, ◌++◌, false, inl, inr, Option, none, some, Option-cases, ◌≡◌, refl, sym, ap,
  ◌∙◌, All, Str, append_assoc, append-nil, if◌then◌else◌,
}
use promolog.Trace.{Trace, Time}
use promolog.Export.Json.{JsonExporter, JsonText, export_text, export_json}

-- The lines of a text, each ended by a newline; what follows the last newline is no line.
abbrev pub lines_from : Str → Str → List Str
lines_from line [] = []
lines_from line (c ∷ s) =
    let ended = lines_from [] s in
    let longer = lines_from (line ++ c ∷ []) s in if c == b'\n' then line ∷ ended else longer

abbrev pub lines : Str → List Str
lines s = lines_from [] s

abbrev pub OneLine : Str → Type 0
OneLine s = All (λ c. (c == b'\n') ≡ false) s

lines_from-OneLine :
    (line s rest : Str) → OneLine s → lines_from line (s ++ b'\n' ∷ rest) ≡ (line ++ s) ∷ lines rest
lines_from-OneLine line [] rest h = ap (λ l. l ∷ lines rest) (sym (append-nil line))
lines_from-OneLine line (c ∷ s) rest (e, h) = rw e (
    lines_from-OneLine (line ++ c ∷ []) s rest h
    ∙ ap (λ l. l ∷ lines rest) (append_assoc line (c ∷ []) s))

module _ {V X : Type 0} (json : JsonText V) (format : Time → Str) (e : JsonExporter)
    (marshal_error : X) where
  -- A writer that takes every write.
  abbrev pub append_text : Str → Str → Str × Option X
  append_text w b = (w ++ b, none)

  -- The writer behind the exports of some traces, in their order, and the errors.
  unfoldable pub export_all : List Trace → Str → Str
  export_all [] w = w
  export_all (t ∷ ts) w = export_all ts (export_json json append_text marshal_error format e t w).0

  -- The texts of the traces that can be marshalled.
  abbrev pub marshalled : List Trace → List Str
  marshalled [] = []
  marshalled (t ∷ ts) = elim (export_text json format e t) [
    | none ↦ marshalled ts
    | some b ↦ b ∷ marshalled ts
  ]

  marshalled-some :
      (t : Trace) (ts : List Trace) (b : Str)
      → export_text json format e t ≡ some b
      → marshalled (t ∷ ts) ≡ b ∷ marshalled ts
  marshalled-some t ts b made = rw (made, marshalled)

  marshalled-none :
      (t : Trace) (ts : List Trace)
      → export_text json format e t ≡ none
      → marshalled (t ∷ ts) ≡ marshalled ts
  marshalled-none t ts refused = rw (refused, marshalled)

  abbrev ended : List Str → Str
  ended [] = []
  ended (b ∷ bs) = b ++ b'\n' ∷ ended bs

  export_json-refused :
      (t : Trace) (w : Str)
      → export_text json format e t ≡ none
      → (export_json json append_text marshal_error format e t w).0 ≡ w
  unfolding export_json
  export_json-refused t w refused = rw (refused, export_json)

  export_json-made :
      (t : Trace) (w b : Str)
      → export_text json format e t ≡ some b
      → (export_json json append_text marshal_error format e t w).0 ≡ w ++ (b ++ b'\n' ∷ [])
  unfolding export_json
  export_json-made t w b made = rw (made, export_json)

  export_all-ended : (ts : List Trace) (w : Str) → export_all ts w ≡ w ++ ended (marshalled ts)
  unfolding export_all
  export_all-ended [] w = sym (append-nil w)
  export_all-ended (t ∷ ts) w = elim (Option-cases (export_text json format e t)) [
    | inl refused ↦
        ap (export_all ts) (export_json-refused t w refused)
        ∙ (export_all-ended ts w ∙ ap (λ l. w ++ ended l) (sym (marshalled-none t ts refused)))
    | inr (b, made) ↦
        ap (export_all ts) (export_json-made t w b made)
        ∙ (export_all-ended ts (w ++ (b ++ b'\n' ∷ []))
            ∙ (append_assoc w (b ++ b'\n' ∷ []) (ended (marshalled ts))
                ∙ (ap (λ l. w ++ l) (append_assoc b (b'\n' ∷ []) (ended (marshalled ts)))
                    ∙ ap (λ l. w ++ ended l) (sym (marshalled-some t ts b made)))))
  ]

  lines-ended : (bs : List Str) → All OneLine bs → lines (ended bs) ≡ bs
  lines-ended [] h = refl
  lines-ended (b ∷ bs) (one, h) =
      lines_from-OneLine [] b (ended bs) one ∙ ap (λ l. b ∷ l) (lines-ended bs h)

  -- Where the texts of encoding/json hold no newline, what the exporter has written for some traces,
  -- to a writer that takes every write, falls into as many lines as traces could be marshalled: their
  -- texts, in the order of the exports.
  pub lines-export_all :
      (ts : List Trace) → All OneLine (marshalled ts) → lines (export_all ts []) ≡ marshalled ts
  lines-export_all ts h = ap lines (export_all-ended ts []) ∙ lines-ended (marshalled ts) h

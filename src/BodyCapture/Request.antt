-- ===== src/BodyCapture/Request.antt =====
-- What the middleware stores of a request body, and which bytes the handler behind it reads.
use promolog.Prelude.{
  ℕ, zero, suc, ◌+◌, ◌≤◌, ◌<◌, [], ◌∷◌, ◌++◌, Option, none, some, ◌≡◌, ◌≢◌, refl, sym, ap, ◌∙◌,
  if_same, ge→ltb, ◌⊎◌, inl, inr, ltb, lt→ltb, if◌then◌else◌, length, take, drop, take-append-drop,
  arith, Str, is_empty, is_empty_of_ne,
}
use promolog.BodyCapture.{
  BodyCaptureConfig, redact, Body, read_limited, prepend, capture_read, capture_request,
}

take-take : (n m : ℕ) (xs : Str) → n ≤ m → take n (take m xs) ≡ take n xs
take-take zero m xs h = refl
take-take (suc n) zero xs h = elim h [ ]
take-take (suc n) (suc m) [] h = refl
take-take (suc n) (suc m) (x ∷ xs) h = ap (λ l. x ∷ l) (take-take n m xs (omega arith))

is_empty-take_positive : (n : ℕ) (xs : Str) → 0 < n → is_empty (take n xs) ≡ is_empty xs
is_empty-take_positive zero xs h = elim h [ ]
is_empty-take_positive (suc n) [] h = refl
is_empty-take_positive (suc n) (x ∷ xs) h = refl

module _ (cfg : BodyCaptureConfig) where
  -- The redactor's answer to a copy of the first bytes of a text, as many as the limit allows.
  abbrev pub redacted : Str → Str × Str × Str
  redacted text = redact cfg.redactor (take cfg.max_body_size text) []

  -- One byte more than the limit.
  abbrev pub cut : ℕ
  cut = cfg.max_body_size + 1

  -- Its answer to these bytes in the array of a body, with the byte behind the limit, if there is one.
  abbrev pub redacted_in_place : Str → Str × Str × Str
  redacted_in_place text =
      redact cfg.redactor (take cfg.max_body_size text) (drop cfg.max_body_size (take cut text))

  module _ {X : Type 0} where
    abbrev rest_of : Body X → Body X
    rest_of b = record b { bytes = drop cut b.bytes }

    reassembled : (b : Body X) → prepend (take cut b.bytes) (rest_of b) ≡ b
    reassembled b = ap (λ l. record b { bytes = l }) (take-append-drop cut b.bytes)

    nothing_read :
        (b : Body X)
        → b.bytes ≡ []
        → capture_read cfg (take cut b.bytes) none (rest_of b) ≡ (none, b)
    unfolding capture_read
    nothing_read b empty =
        rw (is_empty-take_positive cut b.bytes (omega arith), ap is_empty empty)
          (ap (λ q. (none, q)) (reassembled b))

    -- What the handler behind reads after the redactor.
    abbrev pub after_redactor : Body X → Body X
    after_redactor b = record b {
      bytes = ((redacted_in_place b.bytes).0 ++ (redacted_in_place b.bytes).1) ++ drop cut b.bytes;
    }

    untouched :
        (b : Body X)
        → (redacted_in_place b.bytes).0 ≡ take cfg.max_body_size b.bytes
        → (redacted_in_place b.bytes).1 ≡ drop cfg.max_body_size (take cut b.bytes)
        → after_redactor b ≡ b
    untouched b same same' =
        ap (λ l. record b { bytes = l })
          (ap (λ l. (l ++ (redacted_in_place b.bytes).1) ++ drop cut b.bytes)
              (same ∙ sym (take-take cfg.max_body_size cut b.bytes (omega arith)))
            ∙ (ap (λ l. (take cfg.max_body_size (take cut b.bytes) ++ l) ++ drop cut b.bytes) same'
                ∙ (ap (λ l. l ++ drop cut b.bytes)
                      (take-append-drop cfg.max_body_size (take cut b.bytes))
                    ∙ take-append-drop cut b.bytes)))

    something_read :
        (b : Body X)
        → b.bytes ≢ []
        → capture_read cfg (take cut b.bytes) none (rest_of b)
          ≡ (some (redacted_in_place b.bytes).2, after_redactor b)
    unfolding capture_read
    something_read b nonempty = rw (
      is_empty-take_positive cut b.bytes (omega arith),
      is_empty_of_ne b.bytes nonempty,
      take-take cfg.max_body_size cut b.bytes (omega arith),
    )

    failed_read :
        (b : Body X) (f : Option X)
        → f ≢ none
        → capture_read cfg (take cut b.bytes) f (rest_of b) ≡ (none, b)
    unfolding capture_read
    failed_read b none failed = absurd (failed refl)
    failed_read b (some e) failed = ap (λ q. (none, q)) (reassembled b)

    empty_read :
        (b : Body X) (f : Option X)
        → b.bytes ≡ []
        → capture_read cfg (take cut b.bytes) f (rest_of b) ≡ (none, b)
    empty_read b none empty = nothing_read b empty
    empty_read b (some e) empty = failed_read b (some e) (λ h. cc h)

    -- The error that the middleware sees.
    abbrev seen : Body X → Option X
    seen b = if ltb (length b.bytes) cut then b.failure else none

    unseen_error : (b : Body X) → (b.failure ≡ none) ⊎ (cut ≤ length b.bytes) → seen b ≡ none
    unseen_error b (inl fine) = rw fine (if_same (ltb (length b.bytes) cut) none)
    unseen_error b (inr long) = rw (ge→ltb (length b.bytes) cut long)

    short_body_error : (b : Body X) → length b.bytes < cut → seen b ≡ b.failure
    short_body_error b short = rw (lt→ltb (length b.bytes) cut short)

    -- Where the body has bytes and no error within one byte more than the limit, the redactor's
    -- answer to the first bytes, as many as the limit allows, is stored; the handler behind reads
    -- these bytes, and the byte behind them if there is one, as the redactor left them, and then the
    -- rest and the error, which is the body as it came if the redactor wrote to neither. In every
    -- other case nothing is stored and the handler reads the body as it came.
    pub capture_request_cases :
        (b : Body X)
        → (b.bytes ≢ []
            → (b.failure ≡ none) ⊎ (cut ≤ length b.bytes)
            → (capture_request cfg b ≡ (some (redacted_in_place b.bytes).2, after_redactor b))
              × ((redacted_in_place b.bytes).0 ≡ take cfg.max_body_size b.bytes
                  → (redacted_in_place b.bytes).1 ≡ drop cfg.max_body_size (take cut b.bytes)
                  → (capture_request cfg b).1 ≡ b))
          × (b.bytes ≡ [] → capture_request cfg b ≡ (none, b))
          × (b.failure ≢ none → length b.bytes < cut → capture_request cfg b ≡ (none, b))
    unfolding capture_request read_limited
    capture_request_cases b = (
      λ nonempty why.
          let read =
            ap (λ f. capture_read cfg (take cut b.bytes) f (rest_of b)) (unseen_error b why)
            ∙ something_read b nonempty in
          (read, λ same same'. ap (λ q. q.1) read ∙ untouched b same same'),
      λ empty. empty_read b (seen b) empty,
      λ failed short. failed_read b (seen b) (λ h. failed (sym (short_body_error b short) ∙ h)),
    )

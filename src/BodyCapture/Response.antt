-- ===== src/BodyCapture/Response.antt =====
-- What the middleware stores of the bytes that a handler writes.
use promolog.Prelude.{
  ℕ, zero, suc, ◌+◌, ◌-◌, ◌<◌, List, [], ◌∷◌, ◌++◌, some, ◌≡◌, ◌≢◌, refl, sym, ap, ◌∙◌, subst,
  Bool-cases, ◌⊎◌, inl, inr, ltb, if◌then◌else◌, length, take, take_all, length-append,
  append_assoc, append-nil, arith, Str,
}
use promolog.BodyCapture.{
  BodyCaptureConfig, redact, CaptureResponseWriter, fresh_capture, capture_write, capture_all,
}
use promolog.BodyCapture.Request.{redacted}

take-append :
    (n : ℕ) (xs ys : Str) → take n (xs ++ ys) ≡ take n xs ++ take (n - length (take n xs)) ys
take-append zero xs ys = refl
take-append (suc n) [] ys = let same : suc n ≡ suc n - 0 = omega arith in ap (λ k. take k ys) same
take-append (suc n) (x ∷ xs) ys =
    let same : n - length (take n xs) ≡ suc n - suc (length (take n xs)) = omega arith in
    ap (λ l. x ∷ l) (take-append n xs ys) ∙ ap (λ k. x ∷ (take n xs ++ take k ys)) same

-- The bytes of all writes, in order.
abbrev pub joined : List Str → Str
joined [] = []
joined (b ∷ bs) = b ++ joined bs

first_bytes : (n : ℕ) (b : Str) → (if ltb n (length b) then take n b else b) ≡ take n b
first_bytes n b = elim (Bool-cases (ltb n (length b))) [
  | inl longer ↦ rw longer
  | inr fits ↦ rw fits (sym (take_all n b (ground arith)))
]

length-take_positive : (n : ℕ) (xs : Str) → 0 < n → xs ≢ [] → 0 < length (take n xs)
length-take_positive zero xs h some_byte = elim h [ ]
length-take_positive (suc n) [] h some_byte = absurd (some_byte refl)
length-take_positive (suc n) (x ∷ xs) h some_byte = omega arith

module _ (cfg : BodyCaptureConfig) where
  -- What the writer has captured of the bytes written, and stored of what it captured.
  record Follows (crw : CaptureResponseWriter) (written : Str) : Type 0 where
    buffered : crw.cap_buf ≡ take cfg.max_body_size written
    counted : crw.captured ≡ length crw.cap_buf
    shown : (crw.captured ≡ 0) ⊎ (crw.stored ≡ some (redact cfg.redactor crw.cap_buf []).2)

  -- The writer after it has captured the first bytes of `b` for which there is room.
  abbrev grown : CaptureResponseWriter → Str → CaptureResponseWriter
  grown crw b =
      let part = take (cfg.max_body_size - crw.captured) b in
      record {
        cap_buf = crw.cap_buf ++ part;
        captured = crw.captured + length part;
        stored = some (redact cfg.redactor (crw.cap_buf ++ part) []).2;
      }

  capture_write-cases :
      (crw : CaptureResponseWriter) (b : Str)
      → capture_write cfg crw b
        ≡ (if ltb 0 (cfg.max_body_size - crw.captured) then grown crw b else crw)
  unfolding capture_write
  capture_write-cases crw b = rw (first_bytes (cfg.max_body_size - crw.captured) b)

  grown_buffer :
      (crw : CaptureResponseWriter) (written b : Str)
      → Follows crw written
      → crw.cap_buf ++ take (cfg.max_body_size - crw.captured) b
        ≡ take cfg.max_body_size (written ++ b)
  grown_buffer crw written b f =
      rw (f.counted, f.buffered) (sym (take-append cfg.max_body_size written b))

  grown-Follows :
      (crw : CaptureResponseWriter) (written b : Str)
      → Follows crw written
      → Follows (grown crw b) (written ++ b)
  grown-Follows crw written b f = record {
    buffered = grown_buffer crw written b f;
    counted =
        ap (λ n. n + length (take (cfg.max_body_size - crw.captured) b)) f.counted
        ∙ sym (length-append crw.cap_buf (take (cfg.max_body_size - crw.captured) b));
    shown = inr refl;
  }

  -- Where no room is left, the bytes change nothing.
  full-Follows :
      (crw : CaptureResponseWriter) (written b : Str)
      → Follows crw written
      → cfg.max_body_size - crw.captured ≡ 0
      → Follows crw (written ++ b)
  full-Follows crw written b f full = record {
    buffered =
        sym (append-nil crw.cap_buf)
        ∙ (ap (λ n. crw.cap_buf ++ take n b) (sym full) ∙ grown_buffer crw written b f);
    counted = f.counted;
    shown = f.shown;
  }

  capture_write-Follows :
      (crw : CaptureResponseWriter) (written b : Str)
      → Follows crw written
      → Follows (capture_write cfg crw b) (written ++ b)
  capture_write-Follows crw written b f =
      subst (λ c. Follows c (written ++ b)) (sym (capture_write-cases crw b))
        (elim (Bool-cases (ltb 0 (cfg.max_body_size - crw.captured))) [
          | inl room ↦ rw room (grown-Follows crw written b f)
          | inr full ↦ rw full (full-Follows crw written b f (ground arith))
        ])

  capture_all-Follows :
      (crw : CaptureResponseWriter) (written : Str) (bs : List Str)
      → Follows crw written
      → Follows (capture_all cfg crw bs) (written ++ joined bs)
  unfolding capture_all
  capture_all-Follows crw written [] f = subst (Follows crw) (sym (append-nil written)) f
  capture_all-Follows crw written (b ∷ bs) f =
      subst (Follows (capture_all cfg (capture_write cfg crw b) bs))
        (append_assoc written b (joined bs))
        (capture_all-Follows (capture_write cfg crw b) (written ++ b) bs
          (capture_write-Follows crw written b f))

  -- If the limit is not 0 and the handler writes at least one byte, what is stored after its writes is
  -- the redaction of the first bytes of all that it wrote, as many as the limit allows.
  pub capture_all-stored :
      (bs : List Str)
      → 0 < cfg.max_body_size
      → joined bs ≢ []
      → (capture_all cfg fresh_capture bs).stored ≡ some (redacted cfg (joined bs)).2
  capture_all-stored bs room some_byte =
      let f = capture_all-Follows fresh_capture [] bs (record {
        buffered = sym (take_all cfg.max_body_size [] (omega arith));
        counted = refl;
        shown = inl refl;
      }) in
      elim f.shown [
        | inl nothing ↦
            let captured : 0 < length (take cfg.max_body_size (joined bs)) =
              length-take_positive cfg.max_body_size (joined bs) room some_byte in
            let counted : (capture_all cfg fresh_capture bs).captured
                ≡ length (take cfg.max_body_size (joined bs)) =
              f.counted ∙ ap length f.buffered in
            absurd (omega arith)
        | inr stored ↦ stored ∙ ap (λ l. some (redact cfg.redactor l []).2) f.buffered
      ]

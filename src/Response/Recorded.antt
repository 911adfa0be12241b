-- ===== src/Response/Recorded.antt =====
-- What the wrapper remembers, and that it hides nothing from the writer below.
use promolog.Prelude.{
  Bool, ℤ, pos, true, false, List, [], ◌∷◌, ◌++◌, ◌≡◌, refl, ap, sym, ◌∙◌, arith, All, append_assoc,
  append-nil,
}
use promolog.Http.{Call, write_header, write, flush, hijack, Abilities}
use promolog.Http.Sent.{is_informational, sent_status}
use promolog.Response.{
  ResponseWriter, fresh_writer, note, pass, pass_all, wrap_response_writer, variant_abilities,
}

-- No call announces an informational status.
abbrev pub IsFinal : Call → Type 0
IsFinal (write_header code) = is_informational code ≡ false
IsFinal _ = Unit

-- No `WriteHeader` comes before the first `Write`.
abbrev no_header : List Call → Bool
no_header [] = true
no_header (write_header code ∷ cs) = false
no_header (write b ∷ cs) = true
no_header (flush ∷ cs) = no_header cs
no_header (hijack ∷ cs) = no_header cs

-- The handler does not flush before it sets its status, and does not hijack before it answers.
abbrev pub is_settled : List Call → Bool
is_settled [] = true
is_settled (write_header code ∷ cs) = true
is_settled (write b ∷ cs) = true
is_settled (flush ∷ cs) = no_header cs
is_settled (hijack ∷ cs) = false

wrapped_abilities : (w : Abilities) → variant_abilities (wrap_response_writer w) ≡ w
unfolding variant_abilities wrap_response_writer
wrapped_abilities w = ground arith

module _ {W : Type 0} (send : W → Call → W) where
  pass_all-written :
      (cs : List Call) (code : ℤ) (w : W)
      → (pass_all send (record { status_code = code; written = true }, w) cs).0
        ≡ record { status_code = code; written = true }
  unfolding pass_all pass note
  pass_all-written [] code w = refl
  pass_all-written (write_header c ∷ cs) code w = pass_all-written cs code (send w (write_header c))
  pass_all-written (write b ∷ cs) code w = pass_all-written cs code (send w (write b))
  pass_all-written (flush ∷ cs) code w = pass_all-written cs code (send w flush)
  pass_all-written (hijack ∷ cs) code w = pass_all-written cs code (send w hijack)

  no_header-recorded :
      (cs : List Call) (w : W)
      → no_header cs ≡ true
      → (pass_all send (fresh_writer, w) cs).0.status_code ≡ pos 200
  unfolding pass_all pass note
  no_header-recorded [] w h = refl
  no_header-recorded (write_header c ∷ cs) w h = cc h
  no_header-recorded (write b ∷ cs) w h =
      ap (λ b. b.status_code) (pass_all-written cs (pos 200) (send w (write b)))
  no_header-recorded (flush ∷ cs) w h = no_header-recorded cs (send w flush) h
  no_header-recorded (hijack ∷ cs) w h = no_header-recorded cs (send w hijack) h

  -- Where no call announces an informational status, and the handler neither flushes before it sets
  -- its status nor hijacks the connection before it answers, the status that the wrapper holds after
  -- the handler's calls is the one that net/http sends to the client.
  pub recorded-sent_status :
      (cs : List Call) (w : W)
      → All IsFinal cs
      → is_settled cs ≡ true
      → (pass_all send (fresh_writer, w) cs).0.status_code ≡ sent_status cs
  unfolding pass_all pass note sent_status
  recorded-sent_status [] w h settled = refl
  recorded-sent_status (write_header c ∷ cs) w (final, h) settled =
      rw final (ap (λ b. b.status_code) (pass_all-written cs c (send w (write_header c))))
  recorded-sent_status (write b ∷ cs) w h settled =
      ap (λ b. b.status_code) (pass_all-written cs (pos 200) (send w (write b)))
  recorded-sent_status (flush ∷ cs) w h settled = no_header-recorded cs (send w flush) settled
  recorded-sent_status (hijack ∷ cs) w h settled = cc settled

-- Every call reaches the wrapped writer, in order and as it was made: a writer that logs its calls
-- ends with the handler's list of calls behind what it had. And the wrapper is a Flusher, and a
-- Hijacker, exactly where the wrapped writer is.
pub pass_all_transparent :
    (cs before : List Call) (base : ResponseWriter) (w : Abilities)
    → ((pass_all (λ log c. log ++ c ∷ []) (base, before) cs).1 ≡ before ++ cs)
      × (variant_abilities (wrap_response_writer w) ≡ w)
unfolding pass_all pass
pass_all_transparent [] before base w = (sym (append-nil before), wrapped_abilities w)
pass_all_transparent (c ∷ cs) before base w =
    let (logged, same) = pass_all_transparent cs (before ++ c ∷ []) (note c base) w in
    (logged ∙ append_assoc before (c ∷ []) cs, same)

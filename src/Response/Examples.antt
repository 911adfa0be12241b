-- ===== src/Response/Examples.antt =====
-- Tests of the response wrapper, and its theorems at concrete calls.
use promolog.Prelude.{pos, true, false, List, [], ◌∷◌, ◌++◌, ◌≡◌, refl, lit, All}
use promolog.Http.{Call, write_header, write, flush}
use promolog.Http.Sent.{sent_status, is_informational}
use promolog.Response.{fresh_writer, pass_all, pass, note, wrap_response_writer, variant_abilities}
use promolog.Response.Recorded.{IsFinal, recorded-sent_status, pass_all_transparent}

-- A writer below that logs its calls.
abbrev log_call : List Call → Call → List Call
log_call calls c = calls ++ c ∷ []

abbrev failing : List Call
failing = write_header (pos 500) ∷ flush ∷ write (lit "x") ∷ write_header (pos 200) ∷ []

first_status : (pass_all log_call (fresh_writer, []) failing).0.status_code ≡ pos 500
unfolding pass_all pass note
first_status = refl

failing-IsFinal : All IsFinal failing
unfolding is_informational
failing-IsFinal = (refl, (tt, (tt, (refl, tt))))

recorded-sent_status_example :
    (pass_all log_call (fresh_writer, []) failing).0.status_code ≡ sent_status failing
recorded-sent_status_example = recorded-sent_status log_call failing [] failing-IsFinal refl

calls_pass :
    ((pass_all log_call (fresh_writer, flush ∷ []) failing).1 ≡ flush ∷ failing)
    × (variant_abilities (wrap_response_writer (record { flusher = true; hijacker = false }))
        ≡ record { flusher = true; hijacker = false })
calls_pass =
    pass_all_transparent failing (flush ∷ []) fresh_writer
      (record { flusher = true; hijacker = false })

-- ===== src/Http/Sent.antt =====
-- The status that net/http sends to the client, as its documentation has it: the code of the first
-- `WriteHeader` that is not informational, or 200 where a `Write`, a `Flush` or the end of the handler
-- comes first. An informational code, 100 to 199 but not 101, is sent ahead and decides nothing. After
-- a `Hijack` it sends none, which is 0 here.
use promolog.Prelude.{ℤ, pos, Bool, List, [], ◌∷◌, leb_ℤ, eqb_ℤ, not, ◌&&◌, if◌then◌else◌}
use promolog.Http.{Call, write_header, write, flush, hijack}

unfoldable pub is_informational : ℤ → Bool
is_informational code = leb_ℤ (pos 100) code && (leb_ℤ code (pos 199) && not (eqb_ℤ code (pos 101)))

unfoldable pub sent_status : List Call → ℤ
sent_status [] = pos 200
sent_status (write_header code ∷ cs) =
    let later = sent_status cs in if is_informational code then later else code
sent_status (write b ∷ cs) = pos 200
sent_status (flush ∷ cs) = pos 200
sent_status (hijack ∷ cs) = pos 0

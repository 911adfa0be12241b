-- ===== src/Buffer/Window.antt =====
-- What a buffer returns after any number of appends: everything, or the first and last entries
-- with a note of how many are missing between them.
use promolog.Prelude.{
  ℕ, zero, suc, ℤ, pos, negsuc, pos_part, ltb_ℤ, ◌+◌, ◌-◌, ◌/◌, ◌≤◌, ◌<◌, max, ◌≡◌, refl, sym, ap,
  ◌∙◌, List, [], ◌∷◌, ◌++◌, append_assoc, append-nil, arith, leb, if◌then◌else◌, length, set, take,
  drop, lt→ltb, ge→ltb, le→leb, gt→leb, ne→==, eq→==, length-append, length-take, length-drop,
  take-append-drop, take_all, drop_all, take-append_le, drop-append_le, drop_one-drop,
  set-append_last,
}
use native.Mathlib.Decide.{dec_lt, dec_le}
use promolog.Trace.{Entry, Time}
use promolog.Buffer.{
  Buffer, new_buffer, empty_buffer, overwrite_oldest, append_limited, append, elided_entry,
  get_entries, append_all,
}

-- The last entries that a full ring shows: from position `max h (n - t)` on.
abbrev tail_from : ℕ → ℕ → ℕ
tail_from limit n = max (limit / 2) (n - (limit - limit / 2))

-- A limited buffer after the appends of `xs`.
pub record Holds (b : Buffer) (limit : ℕ) (xs : List Entry) : Type 0 where
  pub limit_is : b.limit ≡ limit
  pub head_is : b.head ≡ take (limit / 2) xs
  pub tail_is : b.tail ≡ drop (tail_from limit (length xs)) xs
  pub elided_is : b.elided ≡ length xs - limit
  pub total_is : b.total ≡ length xs

overwrite_oldest-drop :
    (n : ℕ) (t : List Entry) (e : Entry)
    → length t ≡ n
    → 0 < n
    → overwrite_oldest n t e ≡ drop 1 t ++ e ∷ []
overwrite_oldest-drop n [] e h p = absurd (omega arith)
overwrite_oldest-drop n (x ∷ t) e h p = rw (take_all (suc (length t)) t (omega arith)) (
    (ap (λ i. set (t ++ drop (length t) (x ∷ t)) i e) index)
    ∙ set-append_last t (drop (length t) (x ∷ t)) e (omega (arith, length-drop (length t) (x ∷ t))))
  where
    index : n - 1 ≡ length t
    index = omega arith

-- The three places an entry can go to, in the order of the code's tests.
head-Holds :
    (b : Buffer) (limit : ℕ) (xs : List Entry) (e : Entry)
    → Holds b limit xs
    → length xs < limit / 2
    → Holds (append_limited b e) limit (xs ++ e ∷ [])
unfolding append_limited
head-Holds b limit xs e h small =
    let fits : length b.head < b.limit / 2 =
      rw (h.head_is, take_all (limit / 2) xs (omega arith), h.limit_is) small in
    rw (lt→ltb (length b.head) (b.limit / 2) fits) record {
      limit_is = h.limit_is;
      head_is =
          ap (λ l. l ++ e ∷ []) (h.head_is ∙ take_all (limit / 2) xs (omega arith))
          ∙ sym (take_all (limit / 2) (xs ++ e ∷ []) (omega (arith, length-append xs (e ∷ []))));
      tail_is =
          h.tail_is
          ∙ drop_all (tail_from limit (length xs)) xs (omega arith)
          ∙ sym (
              drop_all (tail_from limit (length (xs ++ e ∷ []))) (xs ++ e ∷ [])
                (omega (arith, length-append xs (e ∷ []))));
      elided_is = omega (arith, h.elided_is, length-append xs (e ∷ []));
      total_is = omega (arith, h.total_is, length-append xs (e ∷ []));
    }

head_full :
    (b : Buffer) (limit : ℕ) (xs : List Entry)
    → Holds b limit xs
    → limit / 2 ≤ length xs
    → length b.head ≡ limit / 2
head_full b limit xs h big = ap length h.head_is ∙ omega (arith, length-take (limit / 2) xs)

length-tail :
    (b : Buffer) (limit : ℕ) (xs : List Entry)
    → Holds b limit xs
    → length b.tail ≡ length xs - tail_from limit (length xs)
length-tail b limit xs h = ap length h.tail_is ∙ length-drop (tail_from limit (length xs)) xs

tail-Holds :
    (b : Buffer) (limit : ℕ) (xs : List Entry) (e : Entry)
    → Holds b limit xs
    → limit / 2 ≤ length xs
    → length xs < limit
    → Holds (append_limited b e) limit (xs ++ e ∷ [])
unfolding append_limited
tail-Holds b limit xs e h big small =
    rw
      (
        ge→ltb (length b.head) (b.limit / 2) (omega (arith, head_full b limit xs h big)),
        lt→ltb (length b.tail) (b.limit - b.limit / 2) (omega (arith, length-tail b limit xs h)),
      )
      record {
        limit_is = h.limit_is;
        head_is = h.head_is ∙ sym (take-append_le (limit / 2) xs (e ∷ []) big);
        tail_is =
            ap (λ l. l ++ e ∷ []) h.tail_is
            ∙ sym (drop-append_le (tail_from limit (length xs)) xs (e ∷ []) (omega arith))
            ∙ ap (λ k. drop k (xs ++ e ∷ [])) (omega (arith, length-append xs (e ∷ [])));
        elided_is = omega (arith, h.elided_is, length-append xs (e ∷ []));
        total_is = omega (arith, h.total_is, length-append xs (e ∷ []));
      }

ring-Holds :
    (b : Buffer) (limit : ℕ) (xs : List Entry) (e : Entry)
    → 0 < limit
    → Holds b limit xs
    → limit ≤ length xs
    → Holds (append_limited b e) limit (xs ++ e ∷ [])
unfolding append_limited
ring-Holds b limit xs e p h big =
    let full : length b.tail ≡ b.limit - b.limit / 2 = omega (arith, length-tail b limit xs h) in
    rw
      (
        ge→ltb (length b.head) (b.limit / 2) (omega (arith, head_full b limit xs h)),
        ge→ltb (length b.tail) (b.limit - b.limit / 2) (omega arith),
      )
      record {
        limit_is = h.limit_is;
        head_is = h.head_is ∙ sym (take-append_le (limit / 2) xs (e ∷ []) (omega arith));
        tail_is =
            overwrite_oldest-drop (b.limit - b.limit / 2) b.tail e full (omega arith)
            ∙ ap (λ l. drop 1 l ++ e ∷ []) h.tail_is
            ∙ ap (λ l. l ++ e ∷ []) (drop_one-drop (tail_from limit (length xs)) xs)
            ∙ sym (drop-append_le (suc (tail_from limit (length xs))) xs (e ∷ []) (omega arith))
            ∙ ap (λ k. drop k (xs ++ e ∷ [])) {x = suc (tail_from limit (length xs))}
                (omega (arith, length-append xs (e ∷ [])));
        elided_is = omega (arith, h.elided_is, length-append xs (e ∷ []));
        total_is = omega (arith, h.total_is, length-append xs (e ∷ []));
      }

append-Holds :
    (b : Buffer) (limit : ℕ) (xs : List Entry) (e : Entry)
    → 0 < limit
    → Holds b limit xs
    → Holds (append b e) limit (xs ++ e ∷ [])
unfolding append
append-Holds b limit xs e p h =
    rw (ne→== b.limit 0 (omega (arith, h.limit_is))) (elim (dec_lt (length xs) (limit / 2)) [
      | yes in_head ↦ head-Holds b limit xs e h in_head
      | no past ↦ elim (dec_lt (length xs) limit) [
        | yes in_tail ↦ tail-Holds b limit xs e h (omega arith) in_tail
        | no over ↦ ring-Holds b limit xs e p h (omega arith)
      ]
    ])

append_all-Holds :
    (b : Buffer) (limit : ℕ) (xs es : List Entry)
    → 0 < limit
    → Holds b limit xs
    → Holds (append_all b es) limit (xs ++ es)
unfolding append_all
append_all-Holds b limit xs [] p h = rw append-nil h
append_all-Holds b limit xs (e ∷ es) p h =
    rw append_assoc at
      (append_all-Holds (append b e) limit (xs ++ e ∷ []) es p (append-Holds b limit xs e p h))

empty-Holds : (limit : ℕ) → Holds (empty_buffer limit) limit []
empty-Holds limit = record {
  limit_is = refl;
  head_is = sym (take_all (limit / 2) [] (omega arith));
  tail_is = sym (drop_all (tail_from limit 0) [] (omega arith));
  elided_is = omega arith;
  total_is = refl;
}

-- What `Entries` returns of the log `xs`: all of it where it fits, and else its first `limit / 2`
-- and its last `limit - limit / 2` entries round a note of how many are missing.
abbrev pub window : Time → ℕ → List Entry → List Entry
window now limit xs =
    if leb (length xs) limit
    then xs
    else take (limit / 2) xs
      ++ elided_entry now (length xs - limit) limit ∷ drop (length xs - (limit - limit / 2)) xs

get_entries-Holds :
    (now : Time) (b : Buffer) (limit : ℕ) (xs : List Entry)
    → 0 < limit
    → Holds b limit xs
    → get_entries now b ≡ window now limit xs
unfolding get_entries
get_entries-Holds now b limit xs p h =
    rw (ne→== b.limit 0 (omega (arith, h.limit_is)), h.elided_is, h.limit_is, h.head_is, h.tail_is)
      (elim (dec_le (length xs) limit) [
        | yes fits ↦
            rw (ge→ltb 0 (length xs - limit) (omega arith), le→leb (length xs) limit fits)
              (ap (λ k. take (limit / 2) xs ++ drop k xs) {x = tail_from limit (length xs)}
                  {y = limit / 2} (omega arith)
                ∙ take-append-drop (limit / 2) xs)
        | no over ↦
            rw (lt→ltb 0 (length xs - limit) (omega arith), gt→leb (length xs) limit (omega arith))
              (ap
                (λ k. take (limit / 2) xs ++ elided_entry now (length xs - limit) limit ∷ drop k xs)
                {x = tail_from limit (length xs)} (omega arith))
      ])

append-unlimited :
    (b : Buffer) (e : Entry) → b.limit ≡ 0 → append b e ≡ record b { entries = b.entries ++ e ∷ [] }
unfolding append
append-unlimited b e z = rw (eq→== b.limit 0 z)

get_entries-unlimited :
    (now : Time) (b : Buffer) (es : List Entry)
    → b.limit ≡ 0
    → get_entries now (append_all b es) ≡ b.entries ++ es
unfolding get_entries append_all
get_entries-unlimited now b [] z = rw (eq→== b.limit 0 z) (sym (append-nil b.entries))
get_entries-unlimited now b (e ∷ es) z =
    ap (λ c. get_entries now (append_all c es)) (append-unlimited b e z)
    ∙ get_entries-unlimited now (record b { entries = b.entries ++ e ∷ [] }) es z
    ∙ append_assoc b.entries (e ∷ []) es

pub new_buffer-pos : (n : ℕ) → new_buffer (pos n) ≡ empty_buffer n
unfolding new_buffer
new_buffer-pos n = rw (ge→ltb (n + 0) 0 (omega arith))

new_buffer-negsuc : (n : ℕ) → new_buffer (negsuc n) ≡ empty_buffer 0
unfolding new_buffer
new_buffer-negsuc n = rw (lt→ltb 0 (0 + suc n) (omega arith))

-- A buffer made by `NewBuffer(n)` that has taken the entries `xs` in turn returns: for `n ≤ 0` all
-- of `xs`; for `0 < n` all of `xs` if there are at most `n`, and else the first `n / 2` and the
-- last `n - n / 2` of them round one synthetic entry that counts the others.
pub get_entries-append_all :
    (now : Time) (n : ℤ) (xs : List Entry)
    → get_entries now (append_all (new_buffer n) xs)
      ≡ (if ltb_ℤ (pos 0) n then window now (pos_part n) xs else xs)
unfolding new_buffer
get_entries-append_all now (pos zero) xs = get_entries-unlimited now (empty_buffer 0) xs refl
get_entries-append_all now (pos (suc n)) xs =
    rw (new_buffer-pos (suc n), lt→ltb 0 (suc n + 0) (omega arith))
      (get_entries-Holds now (append_all (empty_buffer (suc n)) xs) (suc n) xs (omega arith)
        (append_all-Holds (empty_buffer (suc n)) (suc n) [] xs (omega arith) (empty-Holds (suc n))))
get_entries-append_all now (negsuc n) xs =
    rw (new_buffer-negsuc n, ge→ltb (0 + suc n) 0 (omega arith))
      (get_entries-unlimited now (empty_buffer 0) xs refl)

length-window :
    (now : Time) (limit : ℕ) (xs : List Entry)
    → 0 < limit
    → length (window now limit xs) ≤ limit + 1
length-window now limit xs p = elim (dec_le (length xs) limit) [
  | yes fits ↦ rw (le→leb (length xs) limit fits) (omega arith)
  | no over ↦ rw (gt→leb (length xs) limit (omega arith)) (
      omega (
        arith,
        length-append (take (limit / 2) xs) (
            elided_entry now (length xs - limit) limit ∷ drop (length xs - (limit - limit / 2)) xs),
        length-take (limit / 2) xs,
        length-drop (length xs - (limit - limit / 2)) xs,
      ))
]

-- With a positive limit `n`, what `Entries` returns has at most `n + 1` entries, however many
-- were appended, and the buffer's counters say how many came (`total`) and how many of them are
-- gone (`elided`).
pub append_all_bounds :
    (now : Time) (n : ℕ) (xs : List Entry)
    → 0 < n
    → (length (get_entries now (append_all (new_buffer (pos n)) xs)) ≤ n + 1)
      × ((append_all (new_buffer (pos n)) xs).total ≡ length xs)
      × ((append_all (new_buffer (pos n)) xs).elided ≡ length xs - n)
append_all_bounds now zero xs p = absurd (omega arith)
append_all_bounds now (suc n) xs p =
    let h = append_all-Holds (empty_buffer (suc n)) (suc n) [] xs p (empty-Holds (suc n)) in
    rw (new_buffer-pos (suc n)) (
      rw (get_entries-Holds now (append_all (empty_buffer (suc n)) xs) (suc n) xs p h)
          (length-window now (suc n) xs p),
      h.total_is,
      h.elided_is,
    )

-- ===== src/Buffer/Concurrent.antt =====
-- Two goroutines that log into one buffer. The mutex makes each `Append` one step; which goroutine
-- moves next is the scheduler's choice.
use mathlib.Core.List.{Perm, perm_middle}
use mathlib.Core.List
use mathlib.Core.List.Perm
use native.Mathlib.Bridge.{from_ℕ}
use promolog.Prelude.{
  ℕ, suc, ◌+◌, ◌≤◌, ◌<◌, ◌≡◌, refl, sym, ap, ◌∙◌, subst, List, [], ◌∷◌, ◌++◌, append-nil, pos,
  length, length-append,
}
use promolog.Trace.{Entry, Time}
use promolog.Buffer.{Buffer, new_buffer, append, append_all, get_entries}
use promolog.Buffer.Window.{get_entries-append_all, append_all_bounds}

-- The buffer, and what each goroutine still has to log.
pub record Pair : Type 0 where
  pub buffer : Buffer
  pub left : List Entry
  pub right : List Entry

pub data Step : Pair → Pair → Type 0 where
  left_logs :
      (b : Buffer) (e : Entry) (xs ys : List Entry)
      → Step
          (record { buffer = b; left = e ∷ xs; right = ys })
          (record { buffer = append b e; left = xs; right = ys })
  right_logs :
      (b : Buffer) (e : Entry) (xs ys : List Entry)
      → Step
          (record { buffer = b; left = xs; right = e ∷ ys })
          (record { buffer = append b e; left = xs; right = ys })

pub data Reach : Pair → Pair → Type 0 where
  here : {s : Pair} → Reach s s
  next : {s t u : Pair} → Step s t → Reach t u → Reach s u

length-from_ℕ : (xs : List Entry) → length xs ≡ from_ℕ (List.length xs)
length-from_ℕ [] = refl
length-from_ℕ (x ∷ xs) = ap suc (length-from_ℕ xs)

length-perm : {xs ys : List Entry} → Perm xs ys → length xs ≡ length ys
length-perm {xs} {ys} p = length-from_ℕ xs ∙ ap from_ℕ (Perm.length-eq p) ∙ sym (length-from_ℕ ys)

-- A schedule that got so far: the entries in the order of the mutex.
record Log (s t : Pair) : Type 0 where
  order : List Entry
  runs : t.buffer ≡ append_all s.buffer order
  perm : Perm (order ++ (t.left ++ t.right)) (s.left ++ s.right)

extend : {s t u : Pair} → Step s t → Log t u → Log s u
unfolding append_all
extend (left_logs b e xs ys) l = record {
  order = e ∷ l.order;
  runs = l.runs;
  perm = Perm.cons e l.perm;
}
extend (right_logs b e xs ys) l = record {
  order = e ∷ l.order;
  runs = l.runs;
  perm = Perm.trans (Perm.cons e l.perm) (Perm.symm (perm_middle xs ys));
}

Reach-Log : {s t : Pair} → Reach s t → Log s t
unfolding append_all
Reach-Log {s} here = record { order = []; runs = refl; perm = Perm.refl (s.left ++ s.right) }
Reach-Log (next st r) = extend st (Reach-Log r)

abbrev pub start : Buffer → List Entry → List Entry → Pair
start b xs ys = record { buffer = b; left = xs; right = ys }

abbrev pub finish : Buffer → Pair
finish b = start b [] []

-- Whatever the schedule of two goroutines that log `xs` and `ys` into a fresh unlimited buffer,
-- `Entries` returns a permutation of `xs ++ ys` at the end: no entry is lost and none is doubled.
pub unlimited_loses_nothing :
    (now : Time) (xs ys : List Entry) (b : Buffer)
    → Reach (start (new_buffer (pos 0)) xs ys) (finish b)
    → Perm (get_entries now b) (xs ++ ys)
unlimited_loses_nothing now xs ys b r =
    let l = Reach-Log r in
    subst (λ zs. Perm zs (xs ++ ys))
      (append-nil l.order
        ∙ sym (ap (get_entries now) l.runs ∙ get_entries-append_all now (pos 0) l.order))
      l.perm

-- Whatever the schedule of two goroutines that log `xs` and `ys` into a fresh buffer of positive
-- limit `n`, at the end the counter of appends is the number of entries of both, and what
-- `Entries` returns has at most `n + 1` entries.
pub limited_counts_all :
    (now : Time) (n : ℕ) (xs ys : List Entry) (b : Buffer)
    → 0 < n
    → Reach (start (new_buffer (pos n)) xs ys) (finish b)
    → (b.total ≡ length xs + length ys) × (length (get_entries now b) ≤ n + 1)
limited_counts_all now n xs ys b p r =
    let l = Reach-Log r in
    let k = append_all_bounds now n l.order p in rw l.runs (k.1 ∙ counted l, k.0)
  where
    counted :
        (l : Log (start (new_buffer (pos n)) xs ys) (finish b))
        → length l.order ≡ length xs + length ys
    counted l = ap length (sym (append-nil l.order)) ∙ length-perm l.perm ∙ length-append xs ys

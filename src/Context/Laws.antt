-- ===== src/Context/Laws.antt =====
-- Pointers into the heap of buffers: what a write changes, and what it leaves alone.
use promolog.Prelude.{
  ℕ, zero, suc, ◌<◌, List, [], ◌∷◌, ◌++◌, some, ◌≡◌, ◌≢◌, refl, ap, length, get_elem?, set, arith,
  Option-cases, inl, inr,
}
use promolog.Buffer.{Buffer}
use promolog.Context.{Heap, alloc, update}

module _ {ℓ} {A : Type ℓ} where
  get_elem?-set_self :
      (xs : List A) (i : ℕ) (v a : A) → get_elem? xs i ≡ some a → get_elem? (set xs i v) i ≡ some v
  get_elem?-set_self [] i v a h = cc h
  get_elem?-set_self (x ∷ xs) zero v a h = refl
  get_elem?-set_self (x ∷ xs) (suc i) v a h = get_elem?-set_self xs i v a h

  get_elem?-set_ne :
      (xs : List A) (i j : ℕ) (v : A) → i ≢ j → get_elem? (set xs i v) j ≡ get_elem? xs j
  get_elem?-set_ne [] i j v h = refl
  get_elem?-set_ne (x ∷ xs) zero zero v h = absurd (h refl)
  get_elem?-set_ne (x ∷ xs) zero (suc j) v h = refl
  get_elem?-set_ne (x ∷ xs) (suc i) zero v h = refl
  get_elem?-set_ne (x ∷ xs) (suc i) (suc j) v h = get_elem?-set_ne xs i j v (λ e. h (ap suc e))

  get_elem?-append_lt :
      (xs ys : List A) (i : ℕ) → i < length xs → get_elem? (xs ++ ys) i ≡ get_elem? xs i
  get_elem?-append_lt [] ys i h = elim h [ ]
  get_elem?-append_lt (x ∷ xs) ys zero h = refl
  get_elem?-append_lt (x ∷ xs) ys (suc i) h = get_elem?-append_lt xs ys i (omega arith)

  get_elem?-append_last : (xs : List A) (y : A) → get_elem? (xs ++ y ∷ []) (length xs) ≡ some y
  get_elem?-append_last [] y = refl
  get_elem?-append_last (x ∷ xs) y = get_elem?-append_last xs y

pub update_self :
    (f : Buffer → Buffer) (p : ℕ) (heap : Heap) (b : Buffer)
    → get_elem? heap p ≡ some b
    → get_elem? (update f p heap) p ≡ some (f b)
unfolding update
update_self f p heap b h = rw (h, update) (get_elem?-set_self heap p (f b) b h)

pub update_other :
    (f : Buffer → Buffer) (p q : ℕ) (heap : Heap)
    → p ≢ q
    → get_elem? (update f p heap) q ≡ get_elem? heap q
unfolding update
update_other f p q heap h = elim (Option-cases (get_elem? heap p)) [
  | inl missing ↦ rw (missing, update)
  | inr (b, found) ↦ rw (found, update) (get_elem?-set_ne heap p q (f b) h)
]

pub alloc_new : (heap : Heap) (b : Buffer) → get_elem? (alloc heap b) (length heap) ≡ some b
alloc_new heap b = get_elem?-append_last heap b

pub alloc_old :
    (heap : Heap) (b : Buffer) (q : ℕ)
    → q < length heap
    → get_elem? (alloc heap b) q ≡ get_elem? heap q
alloc_old heap b q h = get_elem?-append_lt heap (b ∷ []) q h

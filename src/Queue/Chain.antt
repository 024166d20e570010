-- ===== src/Queue/Chain.antt =====
-- The threads that a queue holds, in order.
use os.Base.{
  has, ℕ, ◌≡◌, refl, ◌≢◌, inl, inr, true, false, ◌||◌, ◌==◌, List, [], ◌∷◌, ◌++◌, arith, ==_ne,
  ==_self, Bool-cases, ap, sym, ◌∙◌,
}
use os.Queue.{Heap, Queue, set_next}

abbrev pub Distinct : List ℕ → Type 0
Distinct [] = Unit {0}
Distinct (x ∷ xs) = (has x xs ≡ false) × Distinct xs

-- From `p` the `next` fields lead through the threads `xs` to NULL.
abbrev pub Chain : Heap → ℕ → List ℕ → Type 0
Chain h p [] = p ≡ 0
Chain h p (x ∷ xs) = (p ≡ x) × (x ≢ 0) × Chain h (h x).next xs

abbrev pub last_of : ℕ → List ℕ → ℕ
last_of d [] = d
last_of d (x ∷ xs) = last_of x xs

pub record IsQueue (h : Heap) (q : Queue) (xs : List ℕ) : Type 0 where
  pub chain : Chain h q.head xs
  pub last : q.tail ≡ last_of 0 xs
  pub distinct : Distinct xs

-- The `next` fields of the threads `xs` are the same in both heaps.
abbrev pub SameNext : List ℕ → Heap → Heap → Type 0
SameNext xs h h' = (t : ℕ) → has t xs ≡ true → (h' t).next ≡ (h t).next

pub Chain-frame :
    (h h' : Heap) (p : ℕ) (xs : List ℕ) → SameNext xs h h' → Chain h p xs → Chain h' p xs
Chain-frame h h' p [] same c = c
Chain-frame h h' p (x ∷ xs) same (e, ne, c) = (
  e,
  ne,
  rw (same x (ground arith)) (Chain-frame h h' (h x).next xs (λ t m. same t (ground arith)) c),
)

pub IsQueue-frame :
    {h h' : Heap} {q : Queue} {xs : List ℕ} → SameNext xs h h' → IsQueue h q xs → IsQueue h' q xs
IsQueue-frame {h} {h'} {q} {xs} same is = record {
  chain = Chain-frame h h' q.head xs same is.chain;
  last = is.last;
  distinct = is.distinct;
}

pub has-append : (t : ℕ) (xs ys : List ℕ) → has t (xs ++ ys) ≡ (has t xs || has t ys)
has-append t [] ys = refl
has-append t (x ∷ xs) ys = ground (arith, has-append t xs ys)

pub Distinct-snoc :
    (t : ℕ) (xs : List ℕ) → has t xs ≡ false → Distinct xs → Distinct (xs ++ (t ∷ []))
Distinct-snoc t [] out d = (refl, tt)
Distinct-snoc t (x ∷ xs) out (new, d) =
    (ground (arith, has-append x xs (t ∷ [])), Distinct-snoc t xs (ground arith) d)

pub last_of-snoc : (d t : ℕ) (xs : List ℕ) → last_of d (xs ++ (t ∷ [])) ≡ t
last_of-snoc d t [] = refl
last_of-snoc d t (x ∷ xs) = last_of-snoc x t xs

pub has-last_of : (x : ℕ) (xs : List ℕ) → has (last_of x xs) (x ∷ xs) ≡ true
has-last_of x [] = ground arith
has-last_of x (y ∷ ys) = ground (arith, has-last_of y ys)

-- A write to the `next` field of a thread outside leaves a chain alone.
pub Chain-set_next :
    (h : Heap) (p t n : ℕ) (xs : List ℕ)
    → has t xs ≡ false
    → Chain h p xs
    → Chain (set_next h t n) p xs
Chain-set_next h p t n xs out c =
    Chain-frame h (set_next h t n) p xs
      (λ u m. elim (Bool-cases (u == t)) [
        | inl e ↦ let e' : u ≡ t = ground arith in cc
        | inr ne ↦ rw ne
      ])
      c

pub next-set_next_self : (h : Heap) (t n : ℕ) → (set_next h t n t).next ≡ n
next-set_next_self h t n = rw (==_self t)

pub next-set_next_ne : (h : Heap) (t n u : ℕ) → u ≢ t → (set_next h t n u).next ≡ (h u).next
next-set_next_ne h t n u ne = rw (==_ne u t ne)

-- A thread in a list is not one outside it.
pub ne_of_has : (t u : ℕ) (xs : List ℕ) → has t xs ≡ false → has u xs ≡ true → u ≢ t
ne_of_has t u xs out in_list e = cc (ap (λ (v : ℕ). has v xs) e)

-- Linking a new last thread behind the old one.
pub Chain-link :
    (h : Heap) (p t x : ℕ) (xs : List ℕ)
    → t ≢ 0
    → has t (x ∷ xs) ≡ false
    → Distinct (x ∷ xs)
    → (h t).next ≡ 0
    → Chain h p (x ∷ xs)
    → Chain (set_next h (last_of x xs) t) p (x ∷ (xs ++ (t ∷ [])))
Chain-link h p t x [] ne out d end (e, xne, c) =
    let apart : t ≢ x = ground arith in
    (e, xne, (next-set_next_self h x t, ne, next-set_next_ne h x t t apart ∙ end))
Chain-link h p t x (y ∷ ys) ne out (new, d) end (e, xne, c) =
    let apart : x ≢ last_of y ys =
      λ e'. ne_of_has x (last_of y ys) (y ∷ ys) new (has-last_of y ys) (sym e') in
    let linked = Chain-link h (h x).next t y ys ne (ground arith) d end c in
    (e, xne, rw (next-set_next_ne h (last_of y ys) t x apart) linked)

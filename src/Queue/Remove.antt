-- ===== src/Queue/Remove.antt =====
-- remove_from_sleep_queue: unlinking a thread from the middle of a queue.
use os.Base.{
  has, ℕ, zero, suc, ◌≤◌, ◌≡◌, refl, ◌≢◌, inl, inr, true, false, ◌==◌, if◌then◌else◌, List, [], ◌∷◌,
  arith, ==_ne, ==_self, Bool-cases, ap, sym, ◌∙◌, subst, length,
}
use os.Queue.{Heap, Queue, set_next, find_prev, remove}
use os.Queue.Chain.{
  Distinct, Chain, last_of, IsQueue, has-last_of, Chain-set_next, next-set_next_self,
  next-set_next_ne, ne_of_has,
}
use os.Queue.Fifo.{dequeue-cons}
use os.Queue.Fields.{SameFields, SameFields-set_next, SameFields-dequeue}

-- The list without the first occurrence of a thread.
abbrev pub erase : ℕ → List ℕ → List ℕ
erase t [] = []
erase t (x ∷ xs) = if x == t then xs else x ∷ erase t xs

has-erase : (u t : ℕ) (xs : List ℕ) → has u xs ≡ false → has u (erase t xs) ≡ false
has-erase u t [] out = refl
has-erase u t (x ∷ xs) out = ground (arith, has-erase u t xs)

pub Distinct-erase : (t : ℕ) (xs : List ℕ) → Distinct xs → Distinct (erase t xs)
Distinct-erase t [] d = tt
Distinct-erase t (x ∷ xs) (new, d) = elim (Bool-cases (x == t)) [
  | inl e ↦ rw e d
  | inr ne ↦ rw ne (has-erase x t xs new, Distinct-erase t xs d)
]

erase_none : (t : ℕ) (xs : List ℕ) → has t xs ≡ false → erase t xs ≡ xs
erase_none t [] out = refl
erase_none t (x ∷ xs) out = ground (arith, erase_none t xs)

find_prev_on :
    (h : Heap) (t f x : ℕ)
    → x ≢ 0
    → (h x).next ≢ t
    → find_prev h t (suc f) x ≡ find_prev h t f (h x).next
unfolding find_prev
find_prev_on h t f x xne ne = rw (==_ne x 0 xne, ==_ne (h x).next t ne)

find_prev_here : (h : Heap) (t f x : ℕ) → x ≢ 0 → (h x).next ≡ t → find_prev h t (suc f) x ≡ x
unfolding find_prev
find_prev_here h t f x xne e =
    let hit : ((h x).next == t) ≡ true = ground (arith, e) in rw (==_ne x 0 xne, hit)

-- The first thread of a chain that does not hold `t` is not `t`.
head_ne : (h : Heap) (t p : ℕ) (xs : List ℕ) → t ≢ 0 → has t xs ≡ false → Chain h p xs → p ≢ t
head_ne h t p [] ne out c = ground (arith, c)
head_ne h t p (x ∷ xs) ne out (e, xne, c) = ground (arith, e)

-- The walk goes off the end of a chain that does not hold the thread.
find_prev_none :
    (h : Heap) (t f p : ℕ) (xs : List ℕ)
    → t ≢ 0
    → has t xs ≡ false
    → length xs ≤ f
    → Chain h p xs
    → find_prev h t f p ≡ 0
unfolding find_prev
find_prev_none h t zero p [] ne out le c = c
find_prev_none h t (suc f) p [] ne out le c = ground (arith, c)
find_prev_none h t zero p (x ∷ xs) ne out le c = absurd (omega arith)
find_prev_none h t (suc f) p (x ∷ xs) ne out le (e, xne, c) = rw e (
    find_prev_on h t f x xne (head_ne h t (h x).next xs ne (ground arith) c)
    ∙ find_prev_none h t f (h x).next xs ne (ground arith) (omega arith) c)

-- What the walk finds: the thread in front of `t`, and the queue once it is unlinked.
record Unlinked (h : Heap) (t p c x : ℕ) (xs : List ℕ) : Type 0 where
  found : (h c).next ≡ t
  nonzero : c ≢ 0
  member : has c (x ∷ xs) ≡ true
  apart : c ≢ t
  chain : Chain (set_next h c (h t).next) p (erase t (x ∷ xs))
  last : last_of 0 (erase t (x ∷ xs)) ≡ (if t == last_of x xs then c else last_of x xs)

-- `t` comes right behind `x`.
Unlinked-here :
    (h : Heap) (t p x : ℕ) (ys : List ℕ)
    → Distinct (x ∷ (t ∷ ys))
    → Chain h p (x ∷ (t ∷ ys))
    → Unlinked h t p x x (t ∷ ys)
Unlinked-here h t p x ys (new, (out, d)) (e, xne, (et, tne, c)) =
    let apart : (x == t) ≡ false = ground arith in
    record {
      found = et;
      nonzero = xne;
      member = ground arith;
      apart = ground arith;
      chain =
          rw (apart, ==_self t)
            (
              e,
              xne,
              rw (next-set_next_self h x (h t).next)
                  (Chain-set_next h (h t).next x (h t).next ys (ground arith) c),
            );
      last = rw (apart, ==_self t) (last_here ys out);
    }
  where
    last_here :
        (zs : List ℕ)
        → has t zs ≡ false
        → last_of x zs ≡ (if t == last_of t zs then x else last_of t zs)
    last_here [] o = rw (==_self t)
    last_here (z ∷ zs) o =
        let ne : t ≢ last_of z zs =
          λ e'. ne_of_has t (last_of z zs) (z ∷ zs) o (has-last_of z zs) (sym e') in
        rw (==_ne t (last_of z zs) ne)

-- `t` comes further on.
Unlinked-on :
    (h : Heap) (t p c x y : ℕ) (ys : List ℕ)
    → x ≢ t
    → y ≢ t
    → Distinct (x ∷ (y ∷ ys))
    → Chain h p (x ∷ (y ∷ ys))
    → Unlinked h t (h x).next c y ys
    → Unlinked h t p c x (y ∷ ys)
Unlinked-on h t p c x y ys ne yne (new, d) (e, xne, rest) u =
    let apart : x ≢ c = λ e'. ne_of_has x c (y ∷ ys) new u.member (sym e') in
    record {
      found = u.found;
      nonzero = u.nonzero;
      member = ground (arith, u.member);
      apart = u.apart;
      chain = rw (==_ne x t ne) (e, xne, rw (next-set_next_ne h c (h t).next x apart) u.chain);
      last = rw (==_ne x t ne, ==_ne y t yne) (rw (==_ne y t yne) at u.last);
    }

find_prev_some :
    (h : Heap) (t f p x : ℕ) (xs : List ℕ)
    → x ≢ t
    → has t xs ≡ true
    → Distinct (x ∷ xs)
    → length (x ∷ xs) ≤ f
    → Chain h p (x ∷ xs)
    → Unlinked h t p (find_prev h t f p) x xs
find_prev_some h t f p x [] ne m d le c = cc
find_prev_some h t zero p x (y ∷ ys) ne m d le c = absurd (omega arith)
find_prev_some h t (suc f) p x (y ∷ ys) ne m d le c = elim (Bool-cases (y == t)) [
  | inl hit ↦
      let e : y ≡ t = ground arith in
      rw (c.0, find_prev_here h t f x c.1 (c.2.0 ∙ e))
        (subst (λ z. Unlinked h t x x x (z ∷ ys)) (sym e)
          (Unlinked-here h t x x ys (subst (λ z. Distinct (x ∷ (z ∷ ys))) e d)
            (subst (λ z. Chain h x (x ∷ (z ∷ ys))) e (refl, c.1, c.2))))
  | inr miss ↦
      let yne : y ≢ t = ground arith in
      let later : has t ys ≡ true = ground arith in
      rw (c.0, find_prev_on h t f x c.1 (λ e. yne (sym c.2.0 ∙ e)))
        (Unlinked-on h t x (find_prev h t f (h x).next) x y ys ne yne d (refl, c.1, c.2)
          (find_prev_some h t f (h x).next y ys yne later d.1 (omega arith) c.2))
]

has-erase_self : (t : ℕ) (xs : List ℕ) → Distinct xs → has t (erase t xs) ≡ false
has-erase_self t [] d = refl
has-erase_self t (x ∷ xs) (new, d) = elim (Bool-cases (x == t)) [
  | inl e ↦ let e' : x ≡ t = ground arith in rw e (subst (λ z. has z xs ≡ false) e' new)
  | inr ne ↦ rw ne (ground (arith, has-erase_self t xs d))
]

-- No block outside the list `xs` changes, and the blocks differ in their `next` fields at most.
abbrev pub SameBut : List ℕ → Heap → Heap → Type 0
SameBut xs h h' = ((u : ℕ) → has u xs ≡ false → h' u ≡ h u) × SameFields h h'

abbrev Removed : Heap → ℕ → List ℕ → ℕ × Heap × Queue → Type 0
Removed h t xs (r, h', q') =
    (r ≡ (if has t xs then t else 0)) × IsQueue h' q' (erase t xs) × SameBut xs h h'

module _ (f : ℕ) (h : Heap) (q : Queue) (t x : ℕ) (xs : List ℕ) (le : length (x ∷ xs) ≤ f)
    (is : IsQueue h q (x ∷ xs)) where
  some_head : (q.head == 0) ≡ false
  some_head = ground (arith, is.chain)

  remove_head : (x == t) ≡ true → Removed h t (x ∷ xs) (remove f h q t)
  unfolding remove
  remove_head hit =
      let e : x ≡ t = ground arith in
      let at_head : (q.head == t) ≡ true = ground (arith, is.chain) in
      let at_x : (t == x) ≡ true = ground arith in
      let (got, queue, same, _) = dequeue-cons h q x xs is in
      rw (some_head, at_head, at_x, hit)
        (
          got ∙ e,
          queue,
          (λ u a. same u refl (λ e'. ground (arith, a, e')), λ u. SameFields-dequeue h q u),
        )

  remove_inside : (x == t) ≡ false → has t xs ≡ true → Removed h t (x ∷ xs) (remove f h q t)
  unfolding remove
  remove_inside miss member =
      let ne : x ≢ t = ground arith in
      let not_head : (q.head == t) ≡ false = ground (arith, is.chain) in
      let c = find_prev h t f q.head in
      let u : Unlinked h t q.head (find_prev h t f q.head) x xs =
        find_prev_some h t f q.head x xs ne member is.distinct le is.chain in
      let hit : ((h c).next == t) ≡ true = ground (arith, u.found) in
      let new : (t == x) ≡ false = ground arith in
      let out = has-erase_self t (x ∷ xs) is.distinct in
      rw (some_head, not_head, ==_ne c 0 u.nonzero, hit, new, member)
        (
          refl,
          record {
            chain =
                Chain-set_next (set_next h c (h t).next) q.head t 0 (erase t (x ∷ xs)) out u.chain;
            last = tail_of c u.last;
            distinct = Distinct-erase t (x ∷ xs) is.distinct;
          },
          (
            λ v a.
                let b : v ≢ t = λ e. ground (arith, a, e, member) in
                rw (==_ne v t b, ==_ne v c (λ e. ne_of_has v c (x ∷ xs) a u.member (sym e))),
            λ v.
                SameFields-set_next (set_next h c (h t).next) t 0 v
                ∙ SameFields-set_next h c (h t).next v,
          ),
        )
    where
      tail_of :
          (k : ℕ) {d : ℕ}
          → d ≡ (if t == last_of x xs then k else last_of x xs)
          → (if t == q.tail then k else q.tail) ≡ d
      tail_of k e = ap (λ (z : ℕ). if t == z then k else z) is.last ∙ sym e

  remove_outside :
      t ≢ 0 → (x == t) ≡ false → has t xs ≡ false → Removed h t (x ∷ xs) (remove f h q t)
  unfolding remove
  remove_outside ne miss out =
      let not_head : (q.head == t) ≡ false = ground (arith, is.chain) in
      let new : (t == x) ≡ false = ground arith in
      let off = find_prev_none h t f q.head (x ∷ xs) ne (ground arith) le is.chain in
      rw (some_head, not_head, off, new, out, miss, erase_none t xs out)
        (refl, is, (λ v a. refl, λ v. refl))

-- Removing a thread, not NULL, from a queue takes out that thread alone and keeps the order of the
-- rest; a thread that is not in the queue gives NULL. A walk of as many steps as the queue has
-- threads is enough. No block outside the queue changes, that of a thread to remove included, and
-- no field of a block but `next`.
pub remove-IsQueue :
    (f : ℕ) (h : Heap) (q : Queue) (t : ℕ) (xs : List ℕ)
    → t ≢ 0
    → length xs ≤ f
    → IsQueue h q xs
    → let (r, h', q') = remove f h q t in
      (r ≡ (if has t xs then t else 0)) × IsQueue h' q' (erase t xs) × SameBut xs h h'
unfolding remove
remove-IsQueue f h q t [] ne le is =
    let none : (q.head == 0) ≡ true = ground (arith, is.chain) in
    rw none (refl, is, (λ u a. refl, λ u. refl))
remove-IsQueue f h q t (x ∷ xs) ne le is = elim (Bool-cases (x == t)) [
  | inl hit ↦ remove_head f h q t x xs le is hit
  | inr miss ↦ elim (Bool-cases (has t xs)) [
    | inl member ↦ remove_inside f h q t x xs le is miss member
    | inr out ↦ remove_outside f h q t x xs le is ne miss out
  ]
]

-- ===== src/Queue/Fifo.antt =====
-- Enqueueing and dequeueing: a queue is a first-in first-out list of threads.
use os.Base.{
  has, ℕ, ◌≡◌, refl, ◌≢◌, true, false, ◌==◌, if◌then◌else◌, List, [], ◌∷◌, ◌++◌, arith, ==_ne, sym,
  ◌∙◌, subst,
}
use os.Queue.{Heap, Queue, set_next, enqueue, dequeue}
use os.Queue.Chain.{
  Chain, last_of, IsQueue, Distinct-snoc, last_of-snoc, has-last_of, Chain-set_next,
  next-set_next_self, Chain-link, ne_of_has,
}

-- The heaps agree but for the `next` field of the threads in `xs` and of `t`.
abbrev pub SameOutside : List ℕ → ℕ → Heap → Heap → Type 0
SameOutside xs t h h' = (u : ℕ) → has u xs ≡ false → u ≢ t → h' u ≡ h u

-- Enqueueing a thread, not NULL and not in the queue, puts it at the end, and changes no block but
-- that of the thread and those of the queue.
pub enqueue-IsQueue :
    (h : Heap) (q : Queue) (t : ℕ) (xs : List ℕ)
    → t ≢ 0
    → has t xs ≡ false
    → IsQueue h q xs
    → let (h', q') = enqueue h q t in IsQueue h' q' (xs ++ (t ∷ [])) × SameOutside xs t h h'
unfolding enqueue
enqueue-IsQueue h q t [] ne out is = rw (is.chain) (
  record { chain = (refl, ne, next-set_next_self h t 0); last = refl; distinct = (refl, tt) },
  λ u a b. rw (==_ne u t b),
)
enqueue-IsQueue h q t (x ∷ xs) ne out is =
    let (e, xne, rest) = is.chain in
    let some_head : (q.head == 0) ≡ false = ground arith in
    let h1 = set_next h t 0 in
    let before : Chain h1 q.head (x ∷ xs) = Chain-set_next h q.head t 0 (x ∷ xs) out is.chain in
    let linked = Chain-link h1 q.head t x xs ne out is.distinct (next-set_next_self h t 0) before in
    rw some_head (
      record {
        chain =
            subst (λ z. Chain (set_next h1 z t) q.head (x ∷ (xs ++ (t ∷ [])))) (sym is.last) linked;
        last = sym (last_of-snoc x t xs);
        distinct = Distinct-snoc t (x ∷ xs) out is.distinct;
      },
      λ u a b.
          let apart : u ≢ q.tail =
            λ e'. ne_of_has u (last_of x xs) (x ∷ xs) a (has-last_of x xs) (sym (e' ∙ is.last)) in
          rw (==_ne u q.tail apart, ==_ne u t b),
    )

-- The part of dequeue-cons that depends on what stays behind.
tail_after :
    (h : Heap) (q : Queue) (x n : ℕ) (xs : List ℕ)
    → q.tail ≡ last_of x xs
    → Chain h n xs
    → (if n == 0 then 0 else q.tail) ≡ last_of 0 xs
tail_after h q x n [] e c = rw c
tail_after h q x n (y ∷ ys) e (c, ne, rest) = ground (arith, e)

-- A thread that is dequeued is the first of the queue; the rest keep their order, and no other block
-- changes.
pub dequeue-cons :
    (h : Heap) (q : Queue) (x : ℕ) (xs : List ℕ)
    → IsQueue h q (x ∷ xs)
    → let (t, h', q') = dequeue h q in
      (t ≡ x) × IsQueue h' q' xs × SameOutside [] x h h' × ((h' x).next ≡ 0)
unfolding dequeue
dequeue-cons h q x xs is =
    let (e, xne, rest) = is.chain in
    let some_head : (q.head == 0) ≡ false = ground arith in
    let next_chain : Chain h (h q.head).next xs = subst (λ z. Chain h (h z).next xs) (sym e) rest in
    let out : has q.head xs ≡ false = subst (λ z. has z xs ≡ false) (sym e) is.distinct.0 in
    rw some_head (
      e,
      record {
        chain = Chain-set_next h (h q.head).next q.head 0 xs out next_chain;
        last = tail_after h q x (h q.head).next xs is.last next_chain;
        distinct = is.distinct.1;
      },
      λ u _ ne. rw (==_ne u q.head (λ e'. ne (e' ∙ e))),
      subst (λ z. (set_next h q.head 0 z).next ≡ 0) e (next-set_next_self h q.head 0),
    )

-- Dequeueing from an empty queue gives NULL and changes nothing.
pub dequeue-nil : (h : Heap) (q : Queue) → IsQueue h q [] → dequeue h q ≡ (0, h, q)
unfolding dequeue
dequeue-nil h q is = let no_head : (q.head == 0) ≡ true = ground (arith, is.chain) in rw no_head

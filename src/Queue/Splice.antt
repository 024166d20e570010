-- ===== src/Queue/Splice.antt =====
-- Unlinking a thread whose predecessor is known.
use os.Base.{
  has, ℕ, ◌≡◌, refl, ◌≢◌, true, false, ◌==◌, if◌then◌else◌, List, [], ◌∷◌, ◌++◌, arith, ==_ne,
  ==_self, sym,
}
use os.Queue.{Heap, Queue, set_next}
use os.Queue.Chain.{
  Distinct, Chain, last_of, IsQueue, has-append, has-last_of, Chain-set_next, next-set_next_self,
  next-set_next_ne, ne_of_has,
}

Distinct-drop : (t : ℕ) (xs ys : List ℕ) → Distinct (xs ++ (t ∷ ys)) → Distinct (xs ++ ys)
Distinct-drop t [] ys (out, d) = d
Distinct-drop t (x ∷ xs) ys (new, d) =
    (ground (arith, has-append x xs (t ∷ ys), has-append x xs ys), Distinct-drop t xs ys d)

pub has_middle : (t : ℕ) (xs ys : List ℕ) → Distinct (xs ++ (t ∷ ys)) → has t (xs ++ ys) ≡ false
has_middle t [] ys (out, d) = out
has_middle t (x ∷ xs) ys (new, d) = ground (arith, has-append x xs (t ∷ ys), has_middle t xs ys d)

-- The chain without `t`, once the thread in front of `t` points behind it.
Chain-splice :
    (h : Heap) (p x t : ℕ) (xs ys : List ℕ)
    → Distinct (x ∷ (xs ++ (t ∷ ys)))
    → Chain h p (x ∷ (xs ++ (t ∷ ys)))
    → Chain (set_next h (last_of x xs) (h t).next) p (x ∷ (xs ++ ys))
Chain-splice h p x t [] ys (new, (out, d)) (e, xne, (et, tne, c)) = (
  e,
  xne,
  rw (next-set_next_self h x (h t).next)
      (Chain-set_next h (h t).next x (h t).next ys (ground arith) c),
)
Chain-splice h p x t (y ∷ xs) ys (new, d) (e, xne, c) =
    let member : has (last_of y xs) (y ∷ (xs ++ (t ∷ ys))) ≡ true =
      ground (arith, has-append (last_of y xs) xs (t ∷ ys), has-last_of y xs) in
    let apart : x ≢ last_of y xs =
      λ e'. ne_of_has x (last_of y xs) (y ∷ (xs ++ (t ∷ ys))) new member (sym e') in
    (
      e,
      xne,
      rw (next-set_next_ne h (last_of y xs) (h t).next x apart)
          (Chain-splice h (h x).next y t xs ys d c),
    )

last_of-append : (d t : ℕ) (xs ys : List ℕ) → last_of d (xs ++ (t ∷ ys)) ≡ last_of t ys
last_of-append d t [] ys = refl
last_of-append d t (x ∷ xs) ys = last_of-append x t xs ys

-- The last thread once `t` is gone.
last_without :
    (d t : ℕ) (xs ys : List ℕ)
    → has t ys ≡ false
    → (if t == last_of t ys then last_of d xs else last_of t ys) ≡ last_of d (xs ++ ys)
last_without d t [] [] out = rw (==_self t)
last_without d t (x ∷ xs) [] out = last_without x t xs [] out
last_without d t xs (y ∷ ys) out =
    let ne : t ≢ last_of y ys =
      λ e. ne_of_has t (last_of y ys) (y ∷ ys) out (has-last_of y ys) (sym e) in
    rw (==_ne t (last_of y ys) ne) (sym (last_of-append d y xs ys))

first_nonzero :
    (h : Heap) (p d : ℕ) (xs ys : List ℕ) → d ≢ 0 → Chain h p (xs ++ ys) → last_of d xs ≢ 0
first_nonzero h p d [] ys ne c = ne
first_nonzero h p d (x ∷ xs) ys ne (e, xne, c) = first_nonzero h (h x).next x xs ys xne c

-- The heap and the queue once `t`, behind `prev`, is unlinked.
abbrev pub unlink_heap : Heap → ℕ → ℕ → Heap
unlink_heap h t prev = if prev == 0 then h else set_next h prev (h t).next

abbrev pub unlink_queue : Heap → Queue → ℕ → ℕ → Queue
unlink_queue h q t prev = record {
  head = if prev == 0 then (h t).next else q.head;
  tail = if t == q.tail then prev else q.tail;
}

-- Unlinking a thread whose predecessor is known keeps the order of the others.
pub unlink-IsQueue :
    (h : Heap) (q : Queue) (t prev : ℕ) (xs ys : List ℕ)
    → prev ≡ last_of 0 xs
    → IsQueue h q (xs ++ (t ∷ ys))
    → IsQueue (unlink_heap h t prev) (unlink_queue h q t prev) (xs ++ ys)
unlink-IsQueue h q t prev [] ys e is =
    let new_tail : (if t == q.tail then 0 else q.tail) ≡ last_of 0 ys =
      rw is.last (last_without 0 t [] ys is.distinct.0) in
    rw e (record { chain = is.chain.2; last = new_tail; distinct = is.distinct.1 })
unlink-IsQueue h q t prev (x ∷ xs) ys e is =
    let (e', xne, c) = is.chain in
    let ne = first_nonzero h (h x).next x xs (t ∷ ys) xne c in
    let new_tail : (if t == q.tail then last_of x xs else q.tail) ≡ last_of x (xs ++ ys) =
      rw (is.last, last_of-append x t xs ys) (last_without x t xs ys (out xs is.distinct.1)) in
    rw (e, ==_ne (last_of x xs) 0 ne)
      (record {
        chain = Chain-splice h q.head x t xs ys is.distinct is.chain;
        last = new_tail;
        distinct = Distinct-drop t (x ∷ xs) ys is.distinct;
      })
  where
    out : (zs : List ℕ) → Distinct (zs ++ (t ∷ ys)) → has t ys ≡ false
    out [] d = d.0
    out (z ∷ zs) d = out zs d.1

-- ===== src/Queue/Fields.antt =====
-- The fields of a block that linking leaves alone, and thread_enqueue.
use os.Base.{
  has, ℕ, ◌≡◌, ◌≢◌, inl, inr, false, ◌==◌, List, [], ◌∷◌, ◌++◌, arith, ==_ne, ==_self, Bool-cases,
  ap, sym, ◌∙◌,
}
use os.Queue.{Tcb, Heap, Queue, set_next, set_state, ready, enqueue, ready_enqueue, dequeue}
use os.Queue.Chain.{IsQueue, IsQueue-frame}
use os.Queue.Fifo.{SameOutside, enqueue-IsQueue}

-- The blocks differ in their `next` fields at most.
abbrev pub SameFields : Heap → Heap → Type 0
SameFields h h' = (u : ℕ) → record (h' u) { next = 0 } ≡ record (h u) { next = 0 }

pub SameFields-set_next : (h : Heap) (t n : ℕ) → SameFields h (set_next h t n)
SameFields-set_next h t n u = elim (Bool-cases (u == t)) [
  | inl e ↦
      let e' : u ≡ t = ground arith in rw e (ap (λ (v : ℕ). record (h v) { next = 0 }) (sym e'))
  | inr ne ↦ rw ne
]

pub SameFields-enqueue : (h : Heap) (q : Queue) (t : ℕ) → SameFields h (enqueue h q t).0
unfolding enqueue
SameFields-enqueue h q t u = elim (Bool-cases (q.head == 0)) [
  | inl e ↦ rw e (SameFields-set_next h t 0 u)
  | inr ne ↦ rw ne (SameFields-set_next (set_next h t 0) q.tail t u ∙ SameFields-set_next h t 0 u)
]

pub SameFields-dequeue : (h : Heap) (q : Queue) → SameFields h (dequeue h q).1
unfolding dequeue
SameFields-dequeue h q u = elim (Bool-cases (q.head == 0)) [
  | inl e ↦ rw e
  | inr ne ↦ rw ne (SameFields-set_next h q.head 0 u)
]

-- The blocks differ in their `next` and `state` fields at most.
abbrev pub SameRest : Heap → Heap → Type 0
SameRest h h' =
    (u : ℕ) → record (h' u) { next = 0; state = 0 } ≡ record (h u) { next = 0; state = 0 }

pub SameFields-SameRest : (h h' : Heap) → SameFields h h' → SameRest h h'
SameFields-SameRest h h' same u = ap (λ (c : Tcb). record c { state = 0 }) (same u)

pub SameRest-set_state : (h : Heap) (t st : ℕ) → SameRest h (set_state h t st)
SameRest-set_state h t st u = elim (Bool-cases (u == t)) [
  | inl e ↦
      let e' : u ≡ t = ground arith in
      rw e (ap (λ (v : ℕ). record (h v) { next = 0; state = 0 }) (sym e'))
  | inr ne ↦ rw ne
]

pub time-SameFields :
    (h h' : Heap) → SameFields h h' → (u : ℕ) → (h' u).wakeup_time ≡ (h u).wakeup_time
time-SameFields h h' same u = ap (λ (c : Tcb). c.wakeup_time) (same u)

pub state-SameFields : (h h' : Heap) → SameFields h h' → (u : ℕ) → (h' u).state ≡ (h u).state
state-SameFields h h' same u = ap (λ (c : Tcb). c.state) (same u)

pub next-set_state : (h : Heap) (t st u : ℕ) → (set_state h t st u).next ≡ (h u).next
next-set_state h t st u = elim (Bool-cases (u == t)) [
  | inl e ↦ let e' : u ≡ t = ground arith in rw e (ap (λ (v : ℕ). (h v).next) (sym e'))
  | inr ne ↦ rw ne
]

pub time-set_state : (h : Heap) (t st u : ℕ) → (set_state h t st u).wakeup_time ≡ (h u).wakeup_time
time-set_state h t st u = elim (Bool-cases (u == t)) [
  | inl e ↦ let e' : u ≡ t = ground arith in rw e (ap (λ (v : ℕ). (h v).wakeup_time) (sym e'))
  | inr ne ↦ rw ne
]

pub state-set_state_self : (h : Heap) (t st : ℕ) → (set_state h t st t).state ≡ st
state-set_state_self h t st = rw (==_self t)

pub block-set_state_ne : (h : Heap) (t st u : ℕ) → u ≢ t → set_state h t st u ≡ h u
block-set_state_ne h t st u ne = rw (==_ne u t ne)

pub IsQueue-set_state :
    {h : Heap} {q : Queue} {xs : List ℕ} (t st : ℕ)
    → IsQueue h q xs
    → IsQueue (set_state h t st) q xs
IsQueue-set_state {h} t st is = IsQueue-frame (λ u _. next-set_state h t st u) is

-- A thread that becomes ready is the last of the queue, and no block but those of the queue and its
-- own changes.
pub ready_enqueue-IsQueue :
    (h : Heap) (q : Queue) (t : ℕ) (xs : List ℕ)
    → t ≢ 0
    → has t xs ≡ false
    → IsQueue h q xs
    → let (h', q') = ready_enqueue h q t in
      IsQueue h' q' (xs ++ (t ∷ [])) × SameOutside xs t h h' × ((h' t).state ≡ ready)
unfolding ready_enqueue
ready_enqueue-IsQueue h q t xs ne out is =
    let (queue, same) = enqueue-IsQueue h q t xs ne out is in
    let h1 = (enqueue h q t).0 in
    (
      IsQueue-set_state t ready queue,
      λ u a b. block-set_state_ne h1 t ready u b ∙ same u a b,
      state-set_state_self h1 t ready,
    )

pub SameRest-ready_enqueue : (h : Heap) (q : Queue) (t : ℕ) → SameRest h (ready_enqueue h q t).0
unfolding ready_enqueue
SameRest-ready_enqueue h q t u =
    SameRest-set_state (enqueue h q t).0 t ready u
    ∙ SameFields-SameRest h (enqueue h q t).0 (SameFields-enqueue h q t) u

pub time-ready_enqueue :
    (h : Heap) (q : Queue) (t u : ℕ) → ((ready_enqueue h q t).0 u).wakeup_time ≡ (h u).wakeup_time
unfolding ready_enqueue
time-ready_enqueue h q t u =
    time-set_state (enqueue h q t).0 t ready u
    ∙ time-SameFields h (enqueue h q t).0 (SameFields-enqueue h q t) u

pub state-ready_enqueue :
    (h : Heap) (q : Queue) (t u : ℕ) → u ≢ t → ((ready_enqueue h q t).0 u).state ≡ (h u).state
unfolding ready_enqueue
state-ready_enqueue h q t u ne =
    ap (λ (c : Tcb). c.state) (block-set_state_ne (enqueue h q t).0 t ready u ne)
    ∙ state-SameFields h (enqueue h q t).0 (SameFields-enqueue h q t) u

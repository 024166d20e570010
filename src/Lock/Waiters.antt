-- ===== src/Lock/Waiters.antt =====
-- Waking up a waiting thread: mutex_unlock and sem_post.
use os.Base.{
  has, ℕ, ◌+◌, ◌^◌, ◌<◌, ◌≡◌, refl, ◌≢◌, true, false, ◌||◌, leb, ◌==◌, List, [], ◌∷◌, ◌++◌, arith,
  ==_ne, ap, ◌∙◌, u32, append-nil,
}
use os.Queue.{Tcb, Queue, set_state, ready, ready_enqueue, dequeue}
use os.Queue.Chain.{IsQueue, IsQueue-frame, ne_of_has}
use os.Queue.Fifo.{dequeue-cons, dequeue-nil}
use os.Queue.Fields.{block-set_state_ne, ready_enqueue-IsQueue, IsQueue-set_state}
use os.Thread.{Kernel}
use os.Lock.{Mutex, Semaphore, wake_waiter, mutex_unlock, sem_post, wait_round, sem_wait}

-- The threads `zs` wait in the queue `q`, the threads `ys` are ready, and no thread does both.
pub record Waiters (s : Kernel) (q : Queue) (zs ys : List ℕ) : Type 0 where
  pub wait : IsQueue s.tcb q zs
  pub ready : IsQueue s.tcb s.ready_queue ys
  pub apart : (t : ℕ) → has t zs ≡ true → has t ys ≡ false

abbrev pub first : List ℕ → List ℕ
first [] = []
first (x ∷ xs) = x ∷ []

abbrev pub rest : List ℕ → List ℕ
rest [] = []
rest (x ∷ xs) = xs

wake_waiter-Waiters :
    (s : Kernel) (q : Queue) (zs ys : List ℕ)
    → Waiters s q zs ys
    → let (s', q') = wake_waiter s q in
      IsQueue s'.tcb q' (rest zs)
      × IsQueue s'.tcb s'.ready_queue (ys ++ first zs)
      × ((t : ℕ) → has t (first zs) ≡ true → (s'.tcb t).state ≡ ready)
      × (s'.current ≡ s.current)
unfolding wake_waiter
wake_waiter-Waiters s q [] ys is =
    rw (dequeue-nil s.tcb q is.wait, append-nil ys) (is.wait, is.ready, λ t m. cc, refl)
wake_waiter-Waiters s q (x ∷ zs) ys is =
    let (got, queue, same, _) = dequeue-cons s.tcb q x zs is.wait in
    let (_, h, q') = dequeue s.tcb q in
    let h1 = set_state h x ready in
    let xne : x ≢ 0 = is.wait.chain.1 in
    let out : has x ys ≡ false = is.apart x (ground arith) in
    let before : IsQueue h1 s.ready_queue ys = IsQueue-set_state x ready (
      IsQueue-frame {h' = h}
        (λ u m. ap (λ (c : Tcb). c.next) (same u refl (ne_of_has x u ys out m))) is.ready) in
    let (after, outside, state) = ready_enqueue-IsQueue h1 s.ready_queue x ys xne out before in
    let waiting : IsQueue (ready_enqueue h1 s.ready_queue x).0 q' zs =
      IsQueue-frame
        (λ u m.
          let away : has u ys ≡ false = is.apart u (ground arith) in
          let other : u ≢ x = ne_of_has x u zs is.wait.distinct.0 m in
          ap (λ (c : Tcb). c.next) (outside u away other ∙ block-set_state_ne h x ready u other))
        queue in
    rw (got, ==_ne x 0 xne)
      (waiting, after, λ t m. let e : t ≡ x = ground arith in rw e state, refl)

-- The owner of a mutex that unlocks it leaves it free, the thread that waited longest becomes the last
-- that is ready, if one waits, and the others wait on in their order. No thread that waits is ready.
pub mutex_unlock-Waiters :
    (s : Kernel) (m : Mutex) (zs ys : List ℕ)
    → m.owner ≡ s.current
    → Waiters s m.wait zs ys
    → let (s', m') = mutex_unlock s m in
      (m'.locked ≡ false)
      × (m'.owner ≡ 0)
      × IsQueue s'.tcb m'.wait (rest zs)
      × IsQueue s'.tcb s'.ready_queue (ys ++ first zs)
      × ((t : ℕ) → has t (first zs) ≡ true → (s'.tcb t).state ≡ ready)
      × (s'.interrupts ≡ true)
unfolding mutex_unlock
mutex_unlock-Waiters s m zs ys own is =
    let mine : (m.owner == s.current) ≡ true = ground (arith, own) in
    let (waiting, others, states, _) = wake_waiter-Waiters s m.wait zs ys is in
    rw mine (refl, refl, waiting, others, states, refl)

-- Posting a semaphore adds one to a count that fits, and the thread that waited longest becomes the
-- last that is ready, if one waits; the others wait on in their order. No thread that waits is ready.
pub sem_post-Waiters :
    (s : Kernel) (sem : Semaphore) (zs ys : List ℕ)
    → sem.count + 1 < 2 ^ 31
    → Waiters s sem.wait zs ys
    → let (s', sem') = sem_post s sem in
      (sem'.count ≡ sem.count + 1)
      × IsQueue s'.tcb sem'.wait (rest zs)
      × IsQueue s'.tcb s'.ready_queue (ys ++ first zs)
      × ((t : ℕ) → has t (first zs) ≡ true → (s'.tcb t).state ≡ ready)
      × (s'.interrupts ≡ true)
unfolding sem_post
sem_post-Waiters s sem zs ys fits is =
    let (waiting, others, states, _) = wake_waiter-Waiters s sem.wait zs ys is in
    (omega arith, waiting, others, states, refl)

-- After a post to a semaphore whose count is not negative and can count up, a thread that asks for it
-- gets it at once, and the count is back to what it was.
pub sem_wait-sem_post :
    (f : ℕ) (s s' : Kernel) (sem : Semaphore)
    → sem.count + 1 < 2 ^ 31
    → let (got, _, sem') = sem_wait f s' (sem_post s sem).1 in
      (got ≡ true) × (sem'.count ≡ sem.count)
unfolding sem_wait wait_round sem_post
sem_wait-sem_post f s s' sem fits =
    let positive : ((u32 (sem.count + 1) == 0) || leb (2 ^ 31) (u32 (sem.count + 1))) ≡ false =
      ground arith in
    rw positive (refl, omega arith)

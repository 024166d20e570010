-- ===== src/Thread/Sleep.antt =====
-- wake_sleeping_threads: the threads that are due move from the sleep queue to the ready queue.
use os.Base.{
  has, ℕ, ◌≡◌, ◌≢◌, inl, inr, true, false, leb, ◌==◌, if◌then◌else◌, List, [], ◌∷◌, ◌++◌, arith,
  ==_ne, Bool-cases, ap, sym, ◌∙◌, subst,
}
use os.Queue.{Tcb, Heap, Queue, set_next, set_state, ready, ready_enqueue}
use os.Queue.Chain.{
  Distinct, Chain, last_of, IsQueue, SameNext, IsQueue-frame, has-append, has-last_of, ne_of_has,
}
use os.Queue.Splice.{has_middle, unlink_heap, unlink-IsQueue}
use os.Queue.Fields.{
  SameFields, SameFields-set_next, state-SameFields, SameRest, SameRest-set_state,
  SameRest-ready_enqueue, SameFields-SameRest, ready_enqueue-IsQueue, state-ready_enqueue,
}
use os.Thread.{Kernel, wake_one}

-- Of a list of threads with wake-up times `w`, those that are due, and those that are not.
abbrev pub due : (ℕ → ℕ) → ℕ → List ℕ → List ℕ
due w now [] = []
due w now (x ∷ xs) = if leb (w x) now then x ∷ due w now xs else due w now xs

abbrev pub waiting : (ℕ → ℕ) → ℕ → List ℕ → List ℕ
waiting w now [] = []
waiting w now (x ∷ xs) = if leb (w x) now then waiting w now xs else x ∷ waiting w now xs

-- The threads `xs` sleep and the threads `ys` are ready, both in this order, and `w` gives the times
-- at which threads are to wake up.
pub record Queues (w : ℕ → ℕ) (s : Kernel) (xs ys : List ℕ) : Type 0 where
  pub times : (t : ℕ) → (s.tcb t).wakeup_time ≡ w t
  pub sleep : IsQueue s.tcb s.sleep_queue xs
  pub ready : IsQueue s.tcb s.ready_queue ys
  pub apart : (t : ℕ) → has t xs ≡ true → has t ys ≡ false

module _ (s : Kernel) (t prev : ℕ) where
  abbrev unlinked : Heap
  unlinked = unlink_heap s.tcb t prev

  abbrev cleared : Heap
  cleared = set_state (set_next unlinked t 0) t ready

  same-unlinked : (u : ℕ) → u ≢ prev → unlinked u ≡ s.tcb u
  same-unlinked u ne = elim (Bool-cases (prev == 0)) [
    | inl e ↦ rw e
    | inr more ↦ rw (more, ==_ne u prev ne)
  ]

  same-cleared : (u : ℕ) → u ≢ t → cleared u ≡ unlinked u
  same-cleared u ne = rw (==_ne u t ne)

  fields-unlinked : SameFields s.tcb unlinked
  fields-unlinked u = elim (Bool-cases (prev == 0)) [
    | inl e ↦ rw e
    | inr more ↦ rw more (SameFields-set_next s.tcb prev (s.tcb t).next u)
  ]

  pub SameRest-wake_one : SameRest s.tcb (wake_one s t prev).tcb
  unfolding wake_one
  SameRest-wake_one u =
      SameRest-ready_enqueue cleared s.ready_queue t u
      ∙ SameRest-set_state (set_next unlinked t 0) t ready u
      ∙ SameFields-SameRest unlinked (set_next unlinked t 0) (SameFields-set_next unlinked t 0) u
      ∙ SameFields-SameRest s.tcb unlinked fields-unlinked u

  pub state-wake_one_ne : (u : ℕ) → u ≢ t → ((wake_one s t prev).tcb u).state ≡ (s.tcb u).state
  unfolding wake_one
  state-wake_one_ne u ne =
      state-ready_enqueue cleared s.ready_queue t u ne
      ∙ ap (λ (c : Tcb). c.state) (same-cleared u ne)
      ∙ state-SameFields s.tcb unlinked fields-unlinked u

-- Facts on the members of chains.
member_nonzero : (h : Heap) (p u : ℕ) (xs : List ℕ) → Chain h p xs → has u xs ≡ true → u ≢ 0
member_nonzero h p u [] c m = cc
member_nonzero h p u (x ∷ xs) (e, ne, c) m = elim (Bool-cases (u == x)) [
  | inl hit ↦ ground arith
  | inr miss ↦ member_nonzero h (h x).next u xs c (ground arith)
]

pub Distinct-apart :
    (u : ℕ) (xs ys : List ℕ) → Distinct (xs ++ ys) → has u xs ≡ true → has u ys ≡ false
Distinct-apart u [] ys d m = cc
Distinct-apart u (x ∷ xs) ys (new, d) m = elim (Bool-cases (u == x)) [
  | inl hit ↦
      let e : u ≡ x = ground arith in
      subst (λ v. has v ys ≡ false) (sym e) (ground (arith, has-append x xs ys))
  | inr miss ↦ Distinct-apart u xs ys d (ground arith)
]

-- The thread in front, or NULL, is not in a chain of other threads.
ne_prev :
    (h : Heap) (p u : ℕ) (xs ys : List ℕ)
    → Chain h p ys
    → ((v : ℕ) → has v xs ≡ true → has v ys ≡ false)
    → has u ys ≡ true
    → u ≢ last_of 0 xs
ne_prev h p u [] ys c apart m = member_nonzero h p u ys c m
ne_prev h p u (x ∷ xs) ys c apart m =
    ne_of_has (last_of x xs) u ys (apart (last_of x xs) (has-last_of x xs)) m

-- One wake-up moves one thread, and leaves the links behind it alone.
module _ (w : ℕ → ℕ) (s : Kernel) (t prev : ℕ) (pre post ys : List ℕ) (e : prev ≡ last_of 0 pre)
    (chain : Chain s.tcb t (t ∷ post)) (qs : Queues w s (pre ++ (t ∷ post)) ys) where
  out_sleep : has t (pre ++ post) ≡ false
  out_sleep = has_middle t pre post qs.sleep.distinct

  was_asleep : (u : ℕ) → has u (pre ++ post) ≡ true → has u (pre ++ (t ∷ post)) ≡ true
  was_asleep u m = ground (arith, has-append u pre post, has-append u pre (t ∷ post))

  out_ready : has t ys ≡ false
  out_ready = qs.apart t (ground (arith, has-append t pre (t ∷ post)))

  ready_ne_prev : (u : ℕ) → has u ys ≡ true → u ≢ prev
  ready_ne_prev u m =
      let apart : (v : ℕ) → has v pre ≡ true → has v ys ≡ false =
        λ v mv. qs.apart v (ground (arith, has-append v pre (t ∷ post))) in
      λ e'. ne_prev s.tcb s.ready_queue.head u pre ys qs.ready.chain apart m (e' ∙ e)

  rest_ne_prev : (u : ℕ) → has u post ≡ true → u ≢ prev
  rest_ne_prev u m e' =
      let later : has u (t ∷ post) ≡ true = ground arith in
      ne_prev s.tcb t u pre (t ∷ post) chain
        (λ v. Distinct-apart v pre (t ∷ post) qs.sleep.distinct) later (e' ∙ e)

  ready_cleared : IsQueue (cleared s t prev) s.ready_queue ys
  ready_cleared =
      IsQueue-frame
        (λ u m.
          let ne = ne_of_has t u ys out_ready m in
          ap (λ (c : Tcb). c.next)
            (same-cleared s t prev u ne ∙ same-unlinked s t prev u (ready_ne_prev u m)))
        qs.ready

  abbrev enqueued : Heap × Queue
  enqueued = ready_enqueue (cleared s t prev) s.ready_queue t

  enqueued-lem :
      IsQueue enqueued.0 enqueued.1 (ys ++ (t ∷ []))
      × ((u : ℕ) → has u ys ≡ false → u ≢ t → enqueued.0 u ≡ cleared s t prev u)
      × ((enqueued.0 t).state ≡ ready)
  enqueued-lem =
      ready_enqueue-IsQueue (cleared s t prev) s.ready_queue t ys chain.1 out_ready ready_cleared

  same-enqueued : (u : ℕ) → has u (pre ++ post) ≡ true → enqueued.0 u ≡ unlinked s t prev u
  same-enqueued u m =
      let ne = ne_of_has t u (pre ++ post) out_sleep m in
      enqueued-lem.1 u (qs.apart u (was_asleep u m)) ne ∙ same-cleared s t prev u ne

  -- No thread that neither sleeps nor is ready is touched.
  pub wake_one_outside :
      (u : ℕ) → has u pre ≡ false → u ≢ t → has u ys ≡ false → (wake_one s t prev).tcb u ≡ s.tcb u
  unfolding wake_one
  wake_one_outside u off ne idle =
      enqueued-lem.1 u idle ne ∙ same-cleared s t prev u ne ∙ elim (Bool-cases (prev == 0)) [
        | inl none ↦ rw none
        | inr some_prev ↦ same-unlinked s t prev u (λ e'.
            ne_of_has u (last_of 0 pre) pre off
              (last_member pre (subst (λ (p : ℕ). (p == 0) ≡ false) e some_prev)) (sym (e' ∙ e)))
      ]
    where
      last_member : (zs : List ℕ) → (last_of 0 zs == 0) ≡ false → has (last_of 0 zs) zs ≡ true
      last_member [] ne' = cc
      last_member (z ∷ zs) ne' = has-last_of z zs

  pub wake_one-Queues :
      let s' = wake_one s t prev in
      Queues w s' (pre ++ post) (ys ++ (t ∷ []))
      × ((s'.tcb t).state ≡ ready)
      × SameNext post s.tcb s'.tcb
  unfolding wake_one
  wake_one-Queues = (
    record {
      times = λ u. ap (λ (c : Tcb). c.wakeup_time) (SameRest-wake_one s t prev u) ∙ qs.times u;
      sleep =
          IsQueue-frame (λ u m. ap (λ (c : Tcb). c.next) (same-enqueued u m))
            (unlink-IsQueue s.tcb s.sleep_queue t prev pre post e qs.sleep);
      ready = enqueued-lem.0;
      apart = λ u m.
          let ne = ne_of_has t u (pre ++ post) out_sleep m in
          let old = qs.apart u (was_asleep u m) in ground (arith, has-append u ys (t ∷ []));
    },
    enqueued-lem.2,
    λ u m.
        let asleep : has u (pre ++ post) ≡ true = ground (arith, has-append u pre post) in
        ap (λ (c : Tcb). c.next)
          (same-enqueued u asleep ∙ same-unlinked s t prev u (rest_ne_prev u m)),
  )

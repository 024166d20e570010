-- ===== src/Thread/Schedule.antt =====
-- schedule: which thread runs next, and what becomes of the queues.
use os.Base.{
  has, ℕ, ◌≤◌, ◌≡◌, refl, ◌≢◌, inl, inr, false, not, ◌&&◌, ◌==◌, if◌then◌else◌, List, [], ◌∷◌, ◌++◌,
  arith, length, ==_ne, Bool-cases, ap, sym, ◌∙◌, subst, append-nil,
}
use os.Queue.{Tcb, set_state, ready, running, dequeue}
use os.Queue.Chain.{IsQueue-frame, has-append, ne_of_has}
use os.Queue.Fifo.{dequeue-cons, dequeue-nil}
use os.Queue.Fields.{
  SameFields-dequeue, time-SameFields, time-set_state, state-set_state_self, block-set_state_ne,
  ready_enqueue-IsQueue, time-ready_enqueue, IsQueue-set_state,
}
use os.Thread.{Kernel, wake_sleeping_threads, requeue_current, switch_thread, pick_next, schedule}
use os.Thread.Sleep.{due, waiting, Queues}
use os.Thread.Wake.{wake_sleeping_threads-Woken}

abbrev pub first_or : ℕ → List ℕ → ℕ
first_or d [] = d
first_or d (x ∷ xs) = x

abbrev pub rest_of : List ℕ → List ℕ
rest_of [] = []
rest_of (x ∷ xs) = xs

-- The current thread, if it is running.
abbrev pub yields : Kernel → List ℕ
yields s =
    if not (s.current == 0) && ((s.tcb s.current).state == running) then s.current ∷ [] else []

-- The running thread is in neither queue.
abbrev pub RunsAlone : Kernel → List ℕ → List ℕ → Type 0
RunsAlone s xs ys =
    (s.tcb s.current).state ≡ running → (has s.current xs ≡ false) × (has s.current ys ≡ false)

Queues-switch :
    (w : ℕ → ℕ) (s : Kernel) (t : ℕ) (xs ys : List ℕ)
    → Queues w s xs ys
    → let s' = switch_thread s t in
      Queues w s' xs ys × (s'.current ≡ t) × ((s'.tcb t).state ≡ running)
unfolding switch_thread
Queues-switch w s t xs ys qs = elim (Bool-cases (s.current == t)) [
  | inl e ↦ rw e (
    record {
      times = λ u. time-set_state s.tcb t running u ∙ qs.times u;
      sleep = IsQueue-set_state t running qs.sleep;
      ready = IsQueue-set_state t running qs.ready;
      apart = qs.apart;
    },
    refl,
    state-set_state_self s.tcb t running,
  )
  | inr ne ↦ rw ne (
    record {
      times = λ u. time-set_state s.tcb t running u ∙ qs.times u;
      sleep = IsQueue-set_state t running qs.sleep;
      ready = IsQueue-set_state t running qs.ready;
      apart = qs.apart;
    },
    refl,
    state-set_state_self s.tcb t running,
  )
]

Queues-requeue :
    (w : ℕ → ℕ) (s : Kernel) (xs ys : List ℕ)
    → Queues w s xs ys
    → RunsAlone s xs ys
    → Queues w (requeue_current s) xs (ys ++ yields s)
unfolding requeue_current
Queues-requeue w s xs ys qs alone =
    elim (Bool-cases (not (s.current == 0) && ((s.tcb s.current).state == running))) [
      | inl go ↦
          let c = s.current in
          let h = set_state s.tcb c ready in
          let ne : c ≢ 0 = ground arith in
          let (out_sleep, out_ready) = alone (ground arith) in
          let (queue, same, _) =
            ready_enqueue-IsQueue h s.ready_queue c ys ne out_ready
              (IsQueue-set_state c ready qs.ready) in
          rw go (record {
            times = λ u.
                time-ready_enqueue h s.ready_queue c u
                ∙ time-set_state s.tcb c ready u
                ∙ qs.times u;
            sleep =
                IsQueue-frame
                  (λ u m.
                    let other = ne_of_has c u xs out_sleep m in
                    ap (λ (k : Tcb). k.next)
                      (same u (qs.apart u m) other ∙ block-set_state_ne s.tcb c ready u other))
                  qs.sleep;
            ready = queue;
            apart = λ u m.
                let other = ne_of_has c u xs out_sleep m in
                let old = qs.apart u m in ground (arith, has-append u ys (c ∷ []));
          })
      | inr stay ↦ rw stay (subst (λ zs. Queues w s xs zs) (sym (append-nil ys)) qs)
    ]

abbrev Picked : (ℕ → ℕ) → Kernel → ℕ → List ℕ → List ℕ → Type 0
Picked w s' main xs order =
    (s'.current ≡ first_or main order)
    × Queues w s' xs (rest_of order)
    × ((s'.tcb s'.current).state ≡ running)

Picked-switch :
    (w : ℕ → ℕ) (s : Kernel) (t : ℕ) (xs ys : List ℕ)
    → Queues w s xs ys
    → let s' = switch_thread s t in
      (s'.current ≡ t) × Queues w s' xs ys × ((s'.tcb s'.current).state ≡ running)
Picked-switch w s t xs ys qs =
    let (queues, at_t, is_running) = Queues-switch w s t xs ys qs in
    (at_t, queues, rw at_t is_running)

pick_next-Picked :
    (w : ℕ → ℕ) (s : Kernel) (xs order : List ℕ)
    → s.kernel_thread ≢ 0
    → Queues w s xs order
    → Picked w (pick_next s) s.kernel_thread xs order
unfolding pick_next
pick_next-Picked w s xs [] ne qs =
    let main = s.kernel_thread in
    let qs' : Queues w (record s { tcb = set_state s.tcb main running }) xs [] = record {
      times = λ u. time-set_state s.tcb main running u ∙ qs.times u;
      sleep = IsQueue-set_state main running qs.sleep;
      ready = IsQueue-set_state main running qs.ready;
      apart = qs.apart;
    } in
    rw (dequeue-nil s.tcb s.ready_queue qs.ready, ==_ne main 0 ne)
      (elim (Bool-cases ((s.tcb main).state == running)) [
        | inl e ↦ rw e (Picked-switch w s main xs [] qs)
        | inr other ↦
            rw other
              (Picked-switch w (record s { tcb = set_state s.tcb main running }) main xs [] qs')
      ])
pick_next-Picked w s xs (x ∷ ys) ne qs =
    let (got, queue, same, _) = dequeue-cons s.tcb s.ready_queue x ys qs.ready in
    let (_, h, q) = dequeue s.tcb s.ready_queue in
    let xne : x ≢ 0 = qs.ready.chain.1 in
    let qs' : Queues w (record s { tcb = h; ready_queue = q }) xs ys = record {
      times = λ u. time-SameFields s.tcb h (SameFields-dequeue s.tcb s.ready_queue) u ∙ qs.times u;
      sleep =
          IsQueue-frame
            (λ u m.
              let out = qs.apart u m in
              let other : u ≢ x = ground arith in ap (λ (k : Tcb). k.next) (same u refl other))
            qs.sleep;
      ready = queue;
      apart = λ u m. let out = qs.apart u m in ground arith;
    } in
    rw (got, ==_ne x 0 xne) (Picked-switch w (record s { tcb = h; ready_queue = q }) x xs ys qs')

same-requeue :
    (s : Kernel)
    → ((requeue_current s).ticks ≡ s.ticks) × ((requeue_current s).kernel_thread ≡ s.kernel_thread)
unfolding requeue_current
same-requeue s = elim (Bool-cases (not (s.current == 0) && ((s.tcb s.current).state == running))) [
  | inl go ↦ rw go (refl, refl)
  | inr stay ↦ rw stay (refl, refl)
]

-- The queues when schedule has woken the threads that are due
pub wake-requeue :
    (w : ℕ → ℕ) (f : ℕ) (s : Kernel) (xs ys : List ℕ)
    → length xs ≤ f
    → Queues w s xs ys
    → RunsAlone s xs ys
    → let k = wake_sleeping_threads f (requeue_current s) in
      Queues w k (waiting w s.ticks xs) ((ys ++ yields s) ++ due w s.ticks xs)
      × (k.kernel_thread ≡ s.kernel_thread)
wake-requeue w f s xs ys le qs alone =
    let k = requeue_current s in
    let (same_ticks, same_main) = same-requeue s in
    let woken =
      wake_sleeping_threads-Woken w f k xs (ys ++ yields s) le
        (Queues-requeue w s xs ys qs alone) in
    (
      subst
          (λ n.
            Queues w (wake_sleeping_threads f k) (waiting w n xs) ((ys ++ yields s) ++ due w n xs))
          same_ticks woken.queues,
      ap (λ (s' : Kernel). s'.kernel_thread) woken.frame ∙ same_main,
    )

-- The scheduler is a round robin: a running thread goes behind the threads that are ready, the
-- sleeping threads that are due go behind it, and the first of them all runs next, or the kernel's
-- main thread if there is none. The others stay ready in this order, and the threads that are not due
-- sleep on. The sleeping and the ready threads are different, a running thread is in neither queue,
-- and there is a main thread. A walk of as many steps as threads sleep is enough.
pub schedule-round_robin :
    (w : ℕ → ℕ) (f : ℕ) (s : Kernel) (xs ys : List ℕ)
    → length xs ≤ f
    → s.kernel_thread ≢ 0
    → Queues w s xs ys
    → RunsAlone s xs ys
    → let s' = schedule f s in
      let order = (ys ++ yields s) ++ due w s.ticks xs in
      (s'.current ≡ first_or s.kernel_thread order)
      × Queues w s' (waiting w s.ticks xs) (rest_of order)
      × ((s'.tcb s'.current).state ≡ running)
unfolding schedule
schedule-round_robin w f s xs ys le ne qs alone =
    let k = wake_sleeping_threads f (requeue_current s) in
    let (queues, main) = wake-requeue w f s xs ys le qs alone in
    let order = (ys ++ yields s) ++ due w s.ticks xs in
    subst (λ d. Picked w (schedule f s) d (waiting w s.ticks xs) order) main
      (pick_next-Picked w k (waiting w s.ticks xs) order (λ e. ne (sym main ∙ e)) queues)

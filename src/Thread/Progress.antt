-- ===== src/Thread/Progress.antt =====
-- A thread that is ready runs in its turn.
use os.Base.{
  has, ℕ, ◌≤◌, ◌≡◌, refl, ◌≢◌, inl, inr, false, ◌==◌, if◌then◌else◌, List, [], ◌∷◌, ◌++◌, arith,
  length, Bool-cases, ap, sym, ◌∙◌, subst, append_assoc,
}
use os.Queue.{running, set_state, dequeue}
use os.Thread.{Kernel, wake_sleeping_threads, requeue_current, switch_thread, pick_next, schedule}
use os.Thread.Sleep.{due, waiting, Queues}
use os.Thread.Schedule.{yields, RunsAlone, wake-requeue, schedule-round_robin}

-- The timer interrupts the running threads, and shows another time each time: schedule runs once more
-- than there are times.
abbrev pub turns : ℕ → List ℕ → Kernel → Kernel
turns f [] s = schedule f s
turns f (now ∷ nows) s = turns f nows (record (schedule f s) { ticks = now })

length-waiting : (w : ℕ → ℕ) (now : ℕ) (xs : List ℕ) → length (waiting w now xs) ≤ length xs
length-waiting w now [] = omega arith
length-waiting w now (x ∷ xs) = ground (arith, length-waiting w now xs)

kernel_thread-switch_thread :
    (s : Kernel) (t : ℕ) → (switch_thread s t).kernel_thread ≡ s.kernel_thread
unfolding switch_thread
kernel_thread-switch_thread s t = elim (Bool-cases (s.current == t)) [
  | inl e ↦ rw e refl
  | inr e ↦ rw e refl
]

kernel_thread-pick_next : (s : Kernel) → (pick_next s).kernel_thread ≡ s.kernel_thread
unfolding pick_next
kernel_thread-pick_next s =
    let (next, h, queue) = dequeue s.tcb s.ready_queue in
    let chosen = record s { tcb = h; ready_queue = queue } in
    let main = s.kernel_thread in
    let main_tcb = if (h main).state == running then h else set_state h main running in
    elim (Bool-cases ((dequeue s.tcb s.ready_queue).0 == 0)) [
      | inr some_thread ↦ rw some_thread (kernel_thread-switch_thread chosen next)
      | inl empty ↦ elim (Bool-cases (main == 0)) [
        | inl gone ↦ rw (empty, gone) refl
        | inr there ↦
            rw (empty, there) (kernel_thread-switch_thread (record chosen { tcb = main_tcb }) main)
      ]
    ]

kernel_thread-schedule :
    (w : ℕ → ℕ) (f : ℕ) (s : Kernel) (xs ys : List ℕ)
    → length xs ≤ f
    → Queues w s xs ys
    → RunsAlone s xs ys
    → (schedule f s).kernel_thread ≡ s.kernel_thread
unfolding schedule
kernel_thread-schedule w f s xs ys le qs alone =
    kernel_thread-pick_next (wake_sleeping_threads f (requeue_current s))
    ∙ (wake-requeue w f s xs ys le qs alone).1

-- The first ready thread is in no list behind it.
first_alone :
    (w : ℕ → ℕ) (k : Kernel) (x : ℕ) (xs ys : List ℕ)
    → Queues w k xs (x ∷ ys)
    → (has x xs ≡ false) × (has x ys ≡ false)
first_alone w k x xs ys qs = (
  (elim (Bool-cases (has x xs)) [
    | inr out ↦ out
    | inl in_list ↦ absurd (let twice = qs.apart x in_list in ground arith)
  ]),
  qs.ready.distinct.0,
)

-- What a turn leaves to a thread behind the first.
abbrev behind : (ℕ → ℕ) → Kernel → List ℕ → List ℕ → List ℕ
behind w s xs ys = (ys ++ yields s) ++ due w s.ticks xs

Queues-tick :
    (w : ℕ → ℕ) (s : Kernel) (now : ℕ) (xs ys : List ℕ)
    → Queues w s xs ys
    → Queues w (record s { ticks = now }) xs ys
Queues-tick w s now xs ys qs = record {
  times = qs.times;
  sleep = qs.sleep;
  ready = qs.ready;
  apart = qs.apart;
}

-- If only the timer interrupts the running threads, a thread that is ready runs after as many more
-- calls of schedule as there are ready threads in front of it, whatever the timer shows at each of
-- them. The sleeping and the ready threads are different, a running thread is in neither queue,
-- there is a main thread, and a walk takes as many steps as threads sleep.
pub turns-reaches :
    (w : ℕ → ℕ) (f : ℕ) (nows : List ℕ) (s : Kernel) (xs before : List ℕ) (t : ℕ) (after : List ℕ)
    → length xs ≤ f
    → s.kernel_thread ≢ 0
    → Queues w s xs (before ++ (t ∷ after))
    → RunsAlone s xs (before ++ (t ∷ after))
    → length nows ≡ length before
    → (turns f nows s).current ≡ t
turns-reaches w f [] s xs [] t after le ne qs alone e =
    (schedule-round_robin w f s xs (t ∷ after) le ne qs alone).0
turns-reaches w f (now ∷ nows) s xs [] t after le ne qs alone e = absurd (omega (arith, e))
turns-reaches w f [] s xs (x ∷ before) t after le ne qs alone e = absurd (omega (arith, e))
turns-reaches w f (now ∷ nows) s xs (x ∷ before) t after le ne qs alone e =
    let ys = before ++ (t ∷ after) in
    let (at_x, queues, _) = schedule-round_robin w f s xs (x ∷ ys) le ne qs alone in
    let (woken, _) = wake-requeue w f s xs (x ∷ ys) le qs alone in
    let (out_sleep, out_ready) =
      first_alone w (wake_sleeping_threads f (requeue_current s)) x (waiting w s.ticks xs)
        (behind w s xs ys) woken in
    let more = (after ++ yields s) ++ due w s.ticks xs in
    let shape : behind w s xs ys ≡ before ++ (t ∷ more) =
      ap (λ zs. zs ++ due w s.ticks xs) (append_assoc before (t ∷ after) (yields s))
      ∙ append_assoc before (t ∷ (after ++ yields s)) (due w s.ticks xs) in
    let s1 = record (schedule f s) { ticks = now } in
    let sleeping = waiting w s.ticks xs in
    turns-reaches w f nows s1 sleeping before t more (omega (arith, length-waiting w s.ticks xs))
      (λ gone. ne (sym (kernel_thread-schedule w f s xs (x ∷ ys) le qs alone) ∙ gone))
      (subst (λ zs. Queues w s1 sleeping zs) shape
        (Queues-tick w (schedule f s) now sleeping (behind w s xs ys) queues))
      (subst (λ zs. RunsAlone s1 sleeping zs) shape (λ _. rw at_x (out_sleep, out_ready)))
      (omega (arith, e))

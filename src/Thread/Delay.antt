-- ===== src/Thread/Delay.antt =====
-- ThreadSleepMS and ThreadSleepSecond.
use os.Base.{
  has, ℕ, ◌+◌, ◌*◌, ◌/◌, ◌^◌, ◌<◌, ◌≡◌, refl, ◌≢◌, inl, inr, Bool, true, false, leb, ◌==◌,
  if◌then◌else◌, List, [], ◌∷◌, ◌++◌, arith, length, ==_ne, ==_self, Bool-cases, ap, sym, ◌∙◌,
  subst, u64, append-nil,
}
use os.Queue.{Tcb, Heap, Queue, update, set_state, blocked, running, enqueue}
use os.Queue.Chain.{has-append, IsQueue, IsQueue-frame, ne_of_has}
use os.Queue.Fifo.{enqueue-IsQueue}
use os.Queue.Fields.{
  SameFields-enqueue, time-SameFields, state-SameFields, time-set_state, state-set_state_self,
  IsQueue-set_state,
}
use os.Thread.{Kernel, schedule, sleep_until, thread_sleep_ms, thread_sleep_second}
use os.Thread.Sleep.{due, waiting, Queues}
use os.Thread.Schedule.{first_or, rest_of, yields, schedule-round_robin}

-- The wake-up times once thread `c` waits for `time`.
abbrev pub wake_at : (ℕ → ℕ) → ℕ → ℕ → ℕ → ℕ
wake_at w c time t = if t == c then time else w t

due-snoc :
    (w : ℕ → ℕ) (now c time : ℕ) (xs : List ℕ)
    → now < time
    → has c xs ≡ false
    → due (wake_at w c time) now (xs ++ (c ∷ [])) ≡ due w now xs
due-snoc w now c time [] late out =
    let hit : leb time now ≡ false = ground arith in rw (==_self c, hit)
due-snoc w now c time (x ∷ xs) late out =
    let other : x ≢ c = ground arith in
    rw (==_ne x c other, due-snoc w now c time xs late (ground arith))

waiting-snoc :
    (w : ℕ → ℕ) (now c time : ℕ) (xs : List ℕ)
    → now < time
    → has c xs ≡ false
    → waiting (wake_at w c time) now (xs ++ (c ∷ [])) ≡ waiting w now xs ++ (c ∷ [])
waiting-snoc w now c time [] late out =
    let hit : leb time now ≡ false = ground arith in rw (==_self c, hit)
waiting-snoc w now c time (x ∷ xs) late out =
    let other : x ≢ c = ground arith in
    rw (==_ne x c other, waiting-snoc w now c time xs late (ground arith)) (push (leb (w x) now))
  where
    push :
        (b : Bool)
        → (if b then waiting w now xs ++ (c ∷ []) else x ∷ (waiting w now xs ++ (c ∷ [])))
          ≡ (if b then waiting w now xs else x ∷ waiting w now xs) ++ (c ∷ [])
    push true = refl
    push false = refl

length-snoc : (c : ℕ) (xs : List ℕ) → length (xs ++ (c ∷ [])) ≡ length xs + 1
length-snoc c [] = refl
length-snoc c (x ∷ xs) = omega (arith, length-snoc c xs)

yields_none : (s : Kernel) → (s.tcb s.current).state ≢ running → yields s ≡ []
yields_none s ne =
    let off : ((s.tcb s.current).state == running) ≡ false = ground arith in
    elim (Bool-cases (s.current == 0)) [ inl e ↦ rw e | inr some_thread ↦ rw (some_thread, off) ]

module _ (w : ℕ → ℕ) (f : ℕ) (s : Kernel) (xs ys : List ℕ) (time : ℕ) (ne : s.current ≢ 0)
    (out_sleep : has s.current xs ≡ false) (out_ready : has s.current ys ≡ false)
    (qs : Queues w s xs ys) where
  abbrev timed : Heap
  timed = update s.tcb s.current (record (s.tcb s.current) { wakeup_time = time })

  abbrev halted : Heap
  halted = set_state timed s.current blocked

  next-timed : (u : ℕ) → (timed u).next ≡ (s.tcb u).next
  next-timed u = elim (Bool-cases (u == s.current)) [
    | inl e ↦
        let e' : u ≡ s.current = ground arith in rw e (ap (λ (v : ℕ). (s.tcb v).next) (sym e'))
    | inr other ↦ rw other
  ]

  time-timed : (u : ℕ) → (timed u).wakeup_time ≡ wake_at w s.current time u
  time-timed u = elim (Bool-cases (u == s.current)) [
    | inl e ↦ rw e
    | inr other ↦ rw other (qs.times u)
  ]

  IsQueue-halted : {q : Queue} {zs : List ℕ} → IsQueue s.tcb q zs → IsQueue halted q zs
  IsQueue-halted is =
      IsQueue-set_state s.current blocked (IsQueue-frame {h' = timed} (λ u _. next-timed u) is)

  abbrev asleep : Kernel
  asleep =
      let (h, queue) = enqueue halted s.sleep_queue s.current in
      record s { tcb = h; sleep_queue = queue; interrupts = false }

  Queues-asleep : Queues (wake_at w s.current time) asleep (xs ++ (s.current ∷ [])) ys
  Queues-asleep =
      let c = s.current in
      let (queue, same) =
        enqueue-IsQueue halted s.sleep_queue c xs ne out_sleep (IsQueue-halted qs.sleep) in
      let fields = SameFields-enqueue halted s.sleep_queue c in
      let h = (enqueue halted s.sleep_queue c).0 in
      record {
        times = λ u.
            time-SameFields halted h fields u ∙ time-set_state timed c blocked u ∙ time-timed u;
        sleep = queue;
        ready =
            IsQueue-frame
              (λ u m.
                let other = ne_of_has c u ys out_ready m in
                let away : has u xs ≡ false = elim (Bool-cases (has u xs)) [
                  | inl inside ↦ let no = qs.apart u inside in cc
                  | inr outside ↦ outside
                ] in
                ap (λ (k : Tcb). k.next) (same u away other))
              (IsQueue-halted qs.ready);
        apart = λ u m. elim (Bool-cases (u == c)) [
          | inl e ↦
              let e' : u ≡ c = ground arith in subst (λ v. has v ys ≡ false) (sym e') out_ready
          | inr other ↦ qs.apart u (ground (arith, has-append u xs (c ∷ [])))
        ];
      }

  state-asleep : (asleep.tcb s.current).state ≡ blocked
  state-asleep =
      state-SameFields halted asleep.tcb (SameFields-enqueue halted s.sleep_queue s.current)
        s.current
      ∙ state-set_state_self timed s.current blocked

  pub sleep_until-lem :
      s.ticks < time
      → length xs < f
      → s.kernel_thread ≢ 0
      → let s' = sleep_until f s time in
        let order = ys ++ due w s.ticks xs in
        (s'.current ≡ first_or s.kernel_thread order)
        × Queues
            (wake_at w s.current time)
            s'
            (waiting w s.ticks xs ++ (s.current ∷ []))
            (rest_of order)
        × ((s'.tcb s'.current).state ≡ running)
  unfolding sleep_until
  sleep_until-lem late enough main =
      let c = s.current in
      let off : (asleep.tcb c).state ≢ running =
        λ e. absurd (omega (arith, sym e ∙ state-asleep)) in
      let order : (ys ++ yields asleep) ++ due (wake_at w c time) s.ticks (xs ++ (c ∷ []))
          ≡ ys ++ due w s.ticks xs =
        rw (yields_none asleep off, append-nil ys, due-snoc w s.ticks c time xs late out_sleep) in
      let (next, queues, is_running) =
        schedule-round_robin (wake_at w c time) f asleep (xs ++ (c ∷ [])) ys
          (omega (arith, length-snoc c xs)) main Queues-asleep (λ e. absurd (off e)) in
      (
        next ∙ ap (λ zs. first_or s.kernel_thread zs) order,
        subst
            (λ zs.
              Queues (wake_at w c time) (schedule f asleep) zs (rest_of (ys ++ due w s.ticks xs)))
            (waiting-snoc w s.ticks c time xs late out_sleep)
            (subst
              (λ zs.
                Queues (wake_at w c time) (schedule f asleep)
                  (waiting (wake_at w c time) s.ticks (xs ++ (c ∷ []))) (rest_of zs))
              order queues),
        is_running,
      )

-- The current thread that calls ThreadSleepMS for `ms` milliseconds goes behind the sleeping threads
-- and is to wake up `ms` ticks from now, at a thousand ticks a second; the first thread that is
-- ready, or else due, runs, or the kernel's main thread, which must exist. The calling thread must be
-- in neither queue, the count not zero, and the count times the frequency and the time of the wake-up
-- must fit in 64 bits. A walk of more steps than threads sleep is enough.
pub thread_sleep_ms-Queues :
    (w : ℕ → ℕ) (f : ℕ) (s : Kernel) (xs ys : List ℕ) (ms : ℕ)
    → s.current ≢ 0
    → has s.current xs ≡ false
    → has s.current ys ≡ false
    → Queues w s xs ys
    → ms ≢ 0
    → ms * 1000 < 2 ^ 64
    → s.ticks + ms < 2 ^ 64
    → length xs < f
    → s.kernel_thread ≢ 0
    → let s' = thread_sleep_ms f s ms in
      let order = ys ++ due w s.ticks xs in
      (s'.current ≡ first_or s.kernel_thread order)
      × Queues
          (wake_at w s.current (s.ticks + ms))
          s'
          (waiting w s.ticks xs ++ (s.current ∷ []))
          (rest_of order)
      × ((s'.tcb s'.current).state ≡ running)
unfolding thread_sleep_ms
thread_sleep_ms-Queues w f s xs ys ms ne out_sleep out_ready qs some_ms fits fits' enough main =
    let time : u64 (s.ticks + u64 (ms * 1000) / 1000) ≡ s.ticks + ms = omega arith in
    rw (==_ne ms 0 some_ms, time)
      (sleep_until-lem w f s xs ys (s.ticks + ms) ne out_sleep out_ready qs (omega arith) enough
        main)

-- ThreadSleepSecond for `n` seconds, not zero, puts the current thread, which must be in neither queue,
-- behind the sleeping threads, to wake up `n * 1000` ticks from now if that time fits in 64 bits; the
-- first thread that is ready, or else due, runs, or the kernel's main thread, which must exist. A walk
-- of more steps than threads sleep is enough.
pub thread_sleep_second-Queues :
    (w : ℕ → ℕ) (f : ℕ) (s : Kernel) (xs ys : List ℕ) (n : ℕ)
    → s.current ≢ 0
    → has s.current xs ≡ false
    → has s.current ys ≡ false
    → Queues w s xs ys
    → n ≢ 0
    → s.ticks + n * 1000 < 2 ^ 64
    → length xs < f
    → s.kernel_thread ≢ 0
    → let s' = thread_sleep_second f s n in
      let order = ys ++ due w s.ticks xs in
      (s'.current ≡ first_or s.kernel_thread order)
      × Queues
          (wake_at w s.current (s.ticks + n * 1000))
          s'
          (waiting w s.ticks xs ++ (s.current ∷ []))
          (rest_of order)
      × ((s'.tcb s'.current).state ≡ running)
unfolding thread_sleep_second
thread_sleep_second-Queues w f s xs ys n ne out_sleep out_ready qs some_n fits enough main =
    let time : u64 (s.ticks + u64 (n * 1000)) ≡ s.ticks + n * 1000 = omega arith in
    rw (==_ne n 0 some_n, time)
      (sleep_until-lem w f s xs ys (s.ticks + n * 1000) ne out_sleep out_ready qs (omega arith)
        enough main)

-- ===== src/Thread/Wake.antt =====
-- The loop of wake_sleeping_threads.
use os.Base.{
  has, ℕ, zero, suc, ◌≤◌, ◌≡◌, refl, ◌≢◌, inl, inr, Bool, true, false, leb, ◌==◌, if◌then◌else◌,
  List, [], ◌∷◌, ◌++◌, arith, length, Bool-cases, ap, sym, ◌∙◌, subst, append-nil, append_assoc,
}
use os.Queue.{ready}
use os.Queue.Chain.{has-append, Distinct, Chain, last_of, last_of-snoc, Chain-frame}
use os.Queue.Fields.{SameRest}
use os.Thread.{Kernel, wake_one, wake_loop, wake_sleeping_threads}
use os.Thread.Sleep.{
  due, waiting, Queues, Distinct-apart, state-wake_one_ne, SameRest-wake_one, wake_one_outside,
  wake_one-Queues,
}

-- What waking up the threads of `rest` that are due makes of the state.
pub record Woken (w : ℕ → ℕ) (s s' : Kernel) (pre rest ys : List ℕ) : Type 0 where
  pub queues : Queues w s' (pre ++ waiting w s.ticks rest) (ys ++ due w s.ticks rest)
  pub readied : (t : ℕ) → has t (due w s.ticks rest) ≡ true → (s'.tcb t).state ≡ ready
  pub others : (t : ℕ) → has t (due w s.ticks rest) ≡ false → (s'.tcb t).state ≡ (s.tcb t).state
  pub fields : SameRest s.tcb s'.tcb
  pub outside :
      (t : ℕ) → has t pre ≡ false → has t rest ≡ false → has t ys ≡ false → s'.tcb t ≡ s.tcb t
  pub frame :
      s' ≡ record s { tcb = s'.tcb; ready_queue = s'.ready_queue; sleep_queue = s'.sleep_queue }

has-due : (w : ℕ → ℕ) (now t : ℕ) (xs : List ℕ) → has t xs ≡ false → has t (due w now xs) ≡ false
has-due w now t [] out = refl
has-due w now t (x ∷ xs) out = ground (arith, has-due w now t xs)

Woken-none :
    (w : ℕ → ℕ) (s : Kernel) (pre ys : List ℕ) → Queues w s (pre ++ []) ys → Woken w s s pre [] ys
Woken-none w s pre ys qs = record {
  queues = subst (λ zs. Queues w s (pre ++ []) zs) (sym (append-nil ys)) qs;
  readied = λ t m. cc;
  others = λ t m. refl;
  fields = λ t. refl;
  outside = λ t a b c. refl;
  frame = refl;
}

module _ (w : ℕ → ℕ) (s s' : Kernel) (t prev : ℕ) (pre post ys : List ℕ) where
  Woken-due :
      prev ≡ last_of 0 pre
      → Chain s.tcb t (t ∷ post)
      → Queues w s (pre ++ (t ∷ post)) ys
      → leb (w t) s.ticks ≡ true
      → Woken w (wake_one s t prev) s' pre post (ys ++ (t ∷ []))
      → Woken w s s' pre (t ∷ post) ys
  unfolding wake_one
  Woken-due e chain qs hit more =
      let (_, is_ready, _) = wake_one-Queues w s t prev pre post ys e chain qs in
      let out : has t post ≡ false =
        Distinct-apart t (pre ++ (t ∷ [])) post
          (subst Distinct (sym (append_assoc pre (t ∷ []) post)) qs.sleep.distinct)
          (ground (arith, has-append t pre (t ∷ []))) in
      record {
        queues = rw hit (
            subst (λ zs. Queues w s' (pre ++ waiting w s.ticks post) zs)
              (append_assoc ys (t ∷ []) (due w s.ticks post)) more.queues);
        readied = λ u m. elim (Bool-cases (u == t)) [
          | inl same ↦
              let e' : u ≡ t = ground arith in
              rw e' (more.others t (has-due w s.ticks t post out) ∙ is_ready)
          | inr other ↦ more.readied u (ground arith)
        ];
        others = λ u m.
            let ne : u ≢ t = ground arith in
            more.others u (ground arith) ∙ state-wake_one_ne s t prev u ne;
        fields = λ u. more.fields u ∙ SameRest-wake_one s t prev u;
        outside = λ u a b c.
            let ne : u ≢ t = ground arith in
            more.outside u a (ground arith) (ground (arith, has-append u ys (t ∷ [])))
            ∙ wake_one_outside w s t prev pre post ys e chain qs u a ne c;
        frame = more.frame;
      }

  Woken-waiting :
      leb (w t) s.ticks ≡ false
      → Woken w s s' (pre ++ (t ∷ [])) post ys
      → Woken w s s' pre (t ∷ post) ys
  Woken-waiting miss more = record {
    queues = rw miss (
        subst (λ zs. Queues w s' zs (ys ++ due w s.ticks post))
          (append_assoc pre (t ∷ []) (waiting w s.ticks post)) more.queues);
    readied = λ u m. more.readied u (ground arith);
    others = λ u m. more.others u (ground arith);
    fields = more.fields;
    outside =
        λ u a b c. more.outside u (ground (arith, has-append u pre (t ∷ []))) (ground arith) c;
    frame = more.frame;
  }

pub wake_loop-Woken :
    (w : ℕ → ℕ) (f : ℕ) (s : Kernel) (current prev : ℕ) (pre rest ys : List ℕ)
    → length rest ≤ f
    → prev ≡ last_of 0 pre
    → Chain s.tcb current rest
    → Queues w s (pre ++ rest) ys
    → Woken w s (wake_loop f s current prev) pre rest ys
unfolding wake_loop
wake_loop-Woken w zero s current prev pre [] ys le e c qs = Woken-none w s pre ys qs
wake_loop-Woken w (suc f) s current prev pre [] ys le e c qs =
    let stop : (current == 0) ≡ true = ground arith in rw stop (Woken-none w s pre ys qs)
wake_loop-Woken w zero s current prev pre (t ∷ post) ys le e c qs = absurd (omega arith)
wake_loop-Woken w (suc f) s current prev pre (t ∷ post) ys le e (at_t, tne, c) qs =
    let go : (t == 0) ≡ false = ground arith in
    let next = (s.tcb t).next in
    rw (at_t, go, qs.times t)
      (elim (Bool-cases (leb (w t) s.ticks)) [
        | inl hit ↦
            let (woken, _, same) = wake_one-Queues w s t prev pre post ys e (refl, tne, c) qs in
            let chain = Chain-frame s.tcb (wake_one s t prev).tcb next post same c in
            rw hit (
              Woken-due w s (wake_loop f (wake_one s t prev) next prev) t prev pre post ys e
                (refl, tne, c) qs hit
                (wake_loop-Woken w f (wake_one s t prev) next prev pre post (ys ++ (t ∷ []))
                  (omega arith) e chain woken))
        | inr miss ↦ rw miss (
            Woken-waiting w s (wake_loop f s next t) t prev pre post ys miss (
              wake_loop-Woken w f s next t (pre ++ (t ∷ [])) post ys (omega arith)
                (sym (last_of-snoc 0 t pre)) c
                (subst (λ zs. Queues w s zs ys) (sym (append_assoc pre (t ∷ []) post)) qs)))
      ])

Woken-restore :
    (w : ℕ → ℕ) (b : Bool) (s s' : Kernel) (pre rest ys : List ℕ)
    → Woken w (record s { interrupts = false }) s' pre rest ys
    → Woken w
        (record s { interrupts = b })
        (if b then record s' { interrupts = true } else s')
        pre
        rest
        ys
Woken-restore w true s s' pre rest ys more = record {
  queues = record {
    times = more.queues.times;
    sleep = more.queues.sleep;
    ready = more.queues.ready;
    apart = more.queues.apart;
  };
  readied = more.readied;
  others = more.others;
  fields = more.fields;
  outside = more.outside;
  frame = ap (λ (k : Kernel). record k { interrupts = true }) more.frame;
}
Woken-restore w false s s' pre rest ys more = more

-- wake_sleeping_threads makes ready exactly the threads that are due, behind those that are ready
-- and in the order in which they sleep; the others sleep on in their order and keep their states.
-- Of a control block no field but `next` and `state` changes, that of a thread that neither sleeps
-- nor is ready does not change at all, and no global changes but the two queues. No thread both
-- sleeps and is ready before, and a walk of as many steps as threads sleep is enough.
pub wake_sleeping_threads-Woken :
    (w : ℕ → ℕ) (f : ℕ) (s : Kernel) (xs ys : List ℕ)
    → length xs ≤ f
    → Queues w s xs ys
    → Woken w s (wake_sleeping_threads f s) [] xs ys
unfolding wake_sleeping_threads
wake_sleeping_threads-Woken w f s xs ys le qs =
    let masked = record s { interrupts = false } in
    let start : Queues w masked xs ys = record {
      times = qs.times;
      sleep = qs.sleep;
      ready = qs.ready;
      apart = qs.apart;
    } in
    Woken-restore w s.interrupts s (wake_loop f masked s.sleep_queue.head 0) [] xs ys
      (wake_loop-Woken w f masked s.sleep_queue.head 0 [] xs ys le refl qs.sleep.chain start)

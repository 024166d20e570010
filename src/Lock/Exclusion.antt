-- ===== src/Lock/Exclusion.antt =====
-- The mutex under threads that lock and unlock it in any order: where each thread stands, the steps
-- they take, and that one thread at most is inside.
use os.Base.{
  ℕ, ◌≡◌, refl, ◌≢◌, inl, inr, Bool, true, false, not, ◌&&◌, ◌==◌, if◌then◌else◌, arith, ==_ne,
  Bool-cases, ap, sym, ◌∙◌,
}
use os.Thread.{Kernel}
use os.Lock.{Mutex, mutex_init, lock_round, mutex_lock, mutex_unlock, mutex_is_owned_by_current}

-- Where a thread stands: it has not got the mutex and does not ask for it, it is in the loop of
-- mutex_lock, or mutex_lock has returned.
pub data Phase : Type 0 where
  outside : Phase
  waiting : Phase
  inside : Phase

abbrev pub is_inside : Phase → Bool
is_inside outside = false
is_inside waiting = false
is_inside inside = true

pub record System : Type 0 where
  pub kernel : Kernel
  pub mutex : Mutex
  pub phase : ℕ → Phase

abbrev pub set_phase : (ℕ → Phase) → ℕ → Phase → ℕ → Phase
set_phase p t x u = if u == t then x else p u

abbrev pub after_lock : System → Bool × Kernel × Mutex → System
after_lock a (got, s, m) = record {
  kernel = s;
  mutex = m;
  phase = set_phase a.phase a.kernel.current (if got then inside else waiting);
}

-- The current thread calls mutex_lock, goes on in its loop, or calls mutex_unlock.
abbrev pub call_lock : ℕ → System → System
call_lock f a = after_lock a (mutex_lock f a.kernel a.mutex)

abbrev pub go_on : ℕ → System → System
go_on f a = after_lock a (lock_round f a.kernel a.mutex)

abbrev pub call_unlock : System → System
call_unlock a =
    let (s, m) = mutex_unlock a.kernel a.mutex in
    let owned = mutex_is_owned_by_current a.kernel a.mutex in
    record {
      kernel = s;
      mutex = m;
      phase = if owned then set_phase a.phase a.kernel.current outside else a.phase;
    }

-- A step of the current thread, or of the rest of the kernel, which can change anything but the mutex.
pub data Step (f : ℕ) : System → System → Type 0 where
  lock : (a : System) → a.kernel.current ≢ 0 → Step f a (call_lock f a)
  again :
      (a : System)
      → a.kernel.current ≢ 0
      → a.phase a.kernel.current ≡ waiting
      → Step f a (go_on f a)
  unlock : (a : System) → a.kernel.current ≢ 0 → Step f a (call_unlock a)
  other : (a : System) (s : Kernel) → Step f a (record a { kernel = s })

pub data Reachable (f : ℕ) : System → Type 0 where
  start :
      (s : Kernel) → Reachable f (record { kernel = s; mutex = mutex_init; phase = λ t. outside })
  step : (a b : System) → Reachable f a → Step f a b → Reachable f b

pub record Owned (a : System) : Type 0 where
  pub locked : a.mutex.locked ≡ not (a.mutex.owner == 0)
  pub holder : (t : ℕ) → is_inside (a.phase t) ≡ (not (a.mutex.owner == 0) && (a.mutex.owner == t))

-- The current thread takes the free mutex.
Owned-taken :
    (a : System) (s : Kernel)
    → a.kernel.current ≢ 0
    → a.mutex.locked ≡ false
    → Owned a
    → Owned (record {
      kernel = s;
      mutex = record a.mutex { locked = true; owner = a.kernel.current };
      phase = set_phase a.phase a.kernel.current inside;
    })
Owned-taken a s ne free o = record {
  locked = rw (==_ne a.kernel.current 0 ne);
  holder = λ t. elim (Bool-cases (t == a.kernel.current)) [
    | inl e ↦
        let back : (a.kernel.current == t) ≡ true = ground arith in
        rw (e, back, ==_ne a.kernel.current 0 ne)
    | inr away ↦
        let back : (a.kernel.current == t) ≡ false = ground arith in
        let old : is_inside (a.phase t) ≡ false = o.holder t ∙ ground (arith, o.locked, free) in
        rw (away, back, ==_ne a.kernel.current 0 ne) old
  ];
}

-- The current thread, which does not hold the mutex, waits.
Owned-waits :
    (a : System) (s : Kernel) (m : Mutex)
    → (a.mutex.owner == a.kernel.current) ≡ false
    → m.locked ≡ a.mutex.locked
    → m.owner ≡ a.mutex.owner
    → Owned a
    → Owned (record { kernel = s; mutex = m; phase = set_phase a.phase a.kernel.current waiting })
Owned-waits a s m apart same_locked same_owner o = record {
  locked = rw (same_owner, same_locked) o.locked;
  holder = λ t. elim (Bool-cases (t == a.kernel.current)) [
    | inl e ↦
        let e' : t ≡ a.kernel.current = ground arith in
        let back : (a.mutex.owner == t) ≡ false = ground arith in
        rw (e, same_owner, back) (ground arith)
    | inr away ↦ rw (away, same_owner) (o.holder t)
  ];
}

Owned-round :
    (f : ℕ) (a : System) (s : Kernel)
    → a.kernel.current ≢ 0
    → s.current ≡ a.kernel.current
    → (a.mutex.owner == a.kernel.current) ≡ false
    → Owned a
    → Owned (after_lock a (lock_round f s a.mutex))
unfolding lock_round
Owned-round f a s ne same apart o = elim (Bool-cases a.mutex.locked) [
  | inl busy ↦ rw busy (Owned-waits a _ _ apart (sym busy) refl o)
  | inr free ↦ rw (free, same) (Owned-taken a _ ne free o)
]

Owned-lock : (f : ℕ) (a : System) → a.kernel.current ≢ 0 → Owned a → Owned (call_lock f a)
unfolding mutex_lock
Owned-lock f a ne o = elim (Bool-cases (a.mutex.owner == a.kernel.current)) [
  | inl mine ↦ rw mine (record {
    locked = o.locked;
    holder = λ t. elim (Bool-cases (t == a.kernel.current)) [
      | inl e ↦ rw e (ground arith)
      | inr away ↦ rw away (o.holder t)
    ];
  })
  | inr apart ↦ rw apart (Owned-round f a (record a.kernel { interrupts = false }) ne refl apart o)
]

Owned-unlock : (a : System) → a.kernel.current ≢ 0 → Owned a → Owned (call_unlock a)
unfolding mutex_unlock mutex_is_owned_by_current
Owned-unlock a ne o = elim (Bool-cases (a.mutex.owner == a.kernel.current)) [
  | inl mine ↦ rw mine (record {
    locked = refl;
    holder = λ t. elim (Bool-cases (t == a.kernel.current)) [
      | inl e ↦ rw e
      | inr away ↦
          let other : (a.mutex.owner == t) ≡ false = ground arith in
          let old : is_inside (a.phase t) ≡ false = o.holder t ∙ ground arith in rw away old
    ];
  })
  | inr apart ↦ rw apart (record { locked = o.locked; holder = o.holder })
]

Owned-Step : (f : ℕ) (a b : System) → Step f a b → Owned a → Owned b
Owned-Step f _ _ (lock a ne) o = Owned-lock f a ne o
Owned-Step f _ _ (again a ne asks) o =
    let apart : (a.mutex.owner == a.kernel.current) ≡ false =
      ground (arith, o.holder a.kernel.current, ap is_inside asks) in
    Owned-round f a a.kernel ne refl apart o
Owned-Step f _ _ (unlock a ne) o = Owned-unlock a ne o
Owned-Step f _ _ (other a s) o = record { locked = o.locked; holder = o.holder }

pub Owned-Reachable : (f : ℕ) (a : System) → Reachable f a → Owned a
unfolding mutex_init
Owned-Reachable f _ (start s) = record { locked = refl; holder = λ t. refl }
Owned-Reachable f _ (step a b r move) = Owned-Step f a b move (Owned-Reachable f a r)

-- In every state that is reached from the initialised mutex, however the threads lock and unlock it,
-- two threads that are inside are the same one.
pub exclusion :
    (f : ℕ) (a : System) (t u : ℕ) → Reachable f a → a.phase t ≡ inside → a.phase u ≡ inside → t ≡ u
exclusion f a t u r in_t in_u =
    let o = Owned-Reachable f a r in
    let own_t : (a.mutex.owner == t) ≡ true = ground (arith, o.holder t, ap is_inside in_t) in
    let own_u : (a.mutex.owner == u) ≡ true = ground (arith, o.holder u, ap is_inside in_u) in
    ground arith

-- In every state that the threads reach, mutex_is_owned_by_current tells whether the current thread,
-- which is not NULL, is inside, and the mutex is locked exactly if its owner is inside.
pub mutex_is_owned_by_current-is_inside :
    (f : ℕ) (a : System)
    → a.kernel.current ≢ 0
    → Reachable f a
    → (mutex_is_owned_by_current a.kernel a.mutex ≡ is_inside (a.phase a.kernel.current))
      × (is_inside (a.phase a.mutex.owner) ≡ a.mutex.locked)
unfolding mutex_is_owned_by_current
mutex_is_owned_by_current-is_inside f a ne r =
    let o = Owned-Reachable f a r in
    (ground (arith, o.holder a.kernel.current), ground (arith, o.holder a.mutex.owner, o.locked))

-- ===== src/Lock/Tests.antt =====
-- The theorems on the locks at four threads: 10 and 20 wait, 30 is ready and 40 runs.
use os.Base.{has, ℕ, ◌≡◌, refl, ◌≢◌, true, false, ◌==◌, if◌then◌else◌, [], ◌∷◌, arith}
use os.Queue.{Tcb, ready}
use os.Queue.Chain.{IsQueue}
use os.Thread.{Kernel}
use os.Lock.{
  Mutex, Semaphore, mutex_init, mutex_unlock, mutex_lock, lock_round, mutex_is_owned_by_current,
}
use os.Lock.Waiters.{Waiters, mutex_unlock-Waiters}
use os.Lock.Exclusion.{
  System, outside, inside, lock, Reachable, start, step, call_lock, is_inside, exclusion,
  mutex_is_owned_by_current-is_inside,
}

abbrev block : ℕ → ℕ → Tcb
block state next = record {
  id = 0;
  state = state;
  kernel_stack = 0x8000;
  stack_size = 4096;
  next = next;
  position = 0;
  wakeup_time = 0;
  use_vmm = false;
  vmm = 0;
  user_entry = 0;
  user_rsp = 0;
  stack = 0;
  rsp = 0;
}

abbrev machine : Kernel
machine = record {
  tcb = λ t. block (if t == 40 then 1 else 2) (if t == 10 then 20 else 0);
  ready_queue = record { head = 30; tail = 30 };
  sleep_queue = record { head = 0; tail = 0 };
  current = 40;
  kernel_thread = 50;
  prev = 0;
  ticks = 7;
  interrupts = true;
  pml4 = λ v. v;
  kernel_pml4 = 0x7000;
  target_cr3 = 0;
  rsp0 = 0;
  syscall_rsp = 0;
}

abbrev held : Mutex
held = record { locked = true; owner = 40; wait = record { head = 10; tail = 20 } }

abbrev one_left : Semaphore
one_left = record { count = 0; wait = record { head = 10; tail = 20 } }

apart_machine : (t : ℕ) → has t (10 ∷ (20 ∷ [])) ≡ true → has t (30 ∷ []) ≡ false
apart_machine t m = ground arith

machine-Waiters : Waiters machine (record { head = 10; tail = 20 }) (10 ∷ (20 ∷ [])) (30 ∷ [])
machine-Waiters = record {
  wait = record {
    chain = (refl, ground arith, (refl, ground arith, refl));
    last = refl;
    distinct = (refl, (refl, tt));
  };
  ready = record { chain = (refl, ground arith, refl); last = refl; distinct = (refl, tt) };
  apart = apart_machine;
}

mutex_unlock-Waiters_example :
    let (s', m') = mutex_unlock machine held in
    (m'.locked ≡ false)
    × (m'.owner ≡ 0)
    × IsQueue s'.tcb m'.wait (20 ∷ [])
    × IsQueue s'.tcb s'.ready_queue (30 ∷ (10 ∷ []))
    × ((t : ℕ) → has t (10 ∷ []) ≡ true → (s'.tcb t).state ≡ ready)
    × (s'.interrupts ≡ true)
mutex_unlock-Waiters_example =
    mutex_unlock-Waiters machine held (10 ∷ (20 ∷ [])) (30 ∷ []) refl machine-Waiters

abbrev fresh : System
fresh = record { kernel = machine; mutex = mutex_init; phase = λ t. outside }

fresh-lock : Reachable 0 (call_lock 0 fresh)
fresh-lock = step fresh (call_lock 0 fresh) (start machine) (lock fresh (ground arith))

taken : (call_lock 0 fresh).phase 40 ≡ inside
unfolding mutex_lock lock_round mutex_init
taken = refl

exclusion_example : ◌≡◌ {A = ℕ} 40 40
exclusion_example = exclusion 0 (call_lock 0 fresh) 40 40 fresh-lock taken taken

is_current : (call_lock 0 fresh).kernel.current ≢ 0
unfolding mutex_lock lock_round mutex_init
is_current = ground arith

mutex_is_owned_by_current-is_inside_example :
    let a = call_lock 0 fresh in
    (mutex_is_owned_by_current a.kernel a.mutex ≡ is_inside (a.phase a.kernel.current))
    × (is_inside (a.phase a.mutex.owner) ≡ a.mutex.locked)
mutex_is_owned_by_current-is_inside_example =
    mutex_is_owned_by_current-is_inside 0 (call_lock 0 fresh) is_current fresh-lock

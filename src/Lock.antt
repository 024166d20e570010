-- ===== src/Lock.antt =====
-- Kernel/kernel/Thread.c: the mutex and the semaphore, and Kernel/include/Thread.h. Each routine runs
-- with interrupts off until it returns or switches to another thread; a thread that had to wait goes
-- on at the test of its loop, which is a round of its own here.
pub mod Waiters
pub mod Exclusion
mod Tests
use os.Base.{ℕ, ◌+◌, ◌-◌, ◌^◌, Bool, true, false, not, ◌||◌, leb, ◌==◌, if◌then◌else◌, u32}
use os.Queue.{Queue, empty, set_state, ready, blocked, enqueue, ready_enqueue, dequeue}
use os.Thread.{Kernel, schedule}

-- mutex_t, but for `lock_count`, which no code uses
pub record Mutex : Type 0 where
  pub locked : Bool
  pub owner : ℕ
  pub wait : Queue

-- semaphore_t: `count` is the 32 bits of an `int`.
pub record Semaphore : Type 0 where
  pub count : ℕ
  pub wait : Queue

-- thread_enqueue_wait of the current thread, which is blocked, and schedule.
unfoldable pub block_current : ℕ → Kernel → Queue → Kernel × Queue
block_current f s q =
    let (h, q') = enqueue (set_state s.tcb s.current blocked) q s.current in
    (schedule f (record s { tcb = h }), q')

-- The first waiting thread, if any, becomes ready.
unfoldable pub wake_waiter : Kernel → Queue → Kernel × Queue
wake_waiter s q =
    let (waiter, h, q') = dequeue s.tcb q in
    let (h', r) = ready_enqueue (set_state h waiter ready) s.ready_queue waiter in
    if waiter == 0 then (record s { tcb = h }, q') else (record s { tcb = h'; ready_queue = r }, q')

-- mutex_init
unfoldable pub mutex_init : Mutex
mutex_init = record { locked = false; owner = 0; wait = empty }

-- A round of the loop in mutex_lock: is the mutex taken, and what follows.
unfoldable pub lock_round : ℕ → Kernel → Mutex → Bool × Kernel × Mutex
lock_round f s m =
    let (s', q) = block_current f s m.wait in
    if m.locked
    then (false, s', record m { wait = q })
    else (true, record s { interrupts = true }, record m { locked = true; owner = s.current })

-- mutex_lock, up to its first switch: does the calling thread own the mutex?
unfoldable pub mutex_lock : ℕ → Kernel → Mutex → Bool × Kernel × Mutex
mutex_lock f s m =
    if m.owner == s.current
    then (true, record s { interrupts = true }, m)
    else lock_round f (record s { interrupts = false }) m

-- mutex_unlock
unfoldable pub mutex_unlock : Kernel → Mutex → Kernel × Mutex
mutex_unlock s m =
    let (s', q) = wake_waiter s m.wait in
    if m.owner == s.current
    then (record s' { interrupts = true }, record { locked = false; owner = 0; wait = q })
    else (record s { interrupts = true }, m)

-- mutex_is_owned_by_current
unfoldable pub mutex_is_owned_by_current : Kernel → Mutex → Bool
mutex_is_owned_by_current s m = m.owner == s.current

-- sem_init
unfoldable pub sem_init : ℕ → Semaphore
sem_init value = record { count = value; wait = empty }

-- A round of the loop in sem_wait, interrupts off: is the semaphore taken, and what follows.
unfoldable pub wait_round : ℕ → Kernel → Semaphore → Bool × Kernel × Semaphore
wait_round f s sem =
    let (s', q) = block_current f s sem.wait in
    if (sem.count == 0) || leb (2 ^ 31) sem.count
    then (false, s', record sem { wait = q })
    else (true, record s { interrupts = true }, record sem { count = sem.count - 1 })

-- sem_wait, up to its first switch
unfoldable pub sem_wait : ℕ → Kernel → Semaphore → Bool × Kernel × Semaphore
sem_wait f s sem = wait_round f (record s { interrupts = false }) sem

-- sem_post
unfoldable pub sem_post : Kernel → Semaphore → Kernel × Semaphore
sem_post s sem =
    let (s', q) = wake_waiter s sem.wait in
    (record s' { interrupts = true }, record { count = u32 (sem.count + 1); wait = q })

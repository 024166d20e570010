-- ===== src/Queue.antt =====
-- Kernel/kernel/Thread.c: the thread control blocks, and the linked queues that run through their
-- `next` fields. A thread is the address of its block; a block is a page of its own, so blocks do not
-- overlap and the heap of blocks is a function from addresses. NULL is 0.
pub mod Chain
pub mod Fifo
pub mod Remove
pub mod Splice
pub mod Fields
mod Tests
use os.Base.{
  ℕ, zero, suc, ◌+◌, Bool, true, false, ◌&&◌, ◌||◌, not, ◌==◌, if◌then◌else◌, List, [], ◌∷◌,
}

-- thread_t, with the saved stack pointer of its context
pub record Tcb : Type 0 where
  pub id : ℕ
  pub state : ℕ
  pub kernel_stack : ℕ
  pub stack_size : ℕ
  pub next : ℕ
  pub position : ℕ
  pub wakeup_time : ℕ
  pub use_vmm : Bool
  pub vmm : ℕ
  pub user_entry : ℕ
  pub user_rsp : ℕ
  pub stack : ℕ
  pub rsp : ℕ

abbrev pub ready : ℕ
ready = 0

abbrev pub running : ℕ
running = 1

abbrev pub blocked : ℕ
blocked = 2

abbrev pub terminated : ℕ
terminated = 3

abbrev pub Heap : Type 0
Heap = ℕ → Tcb

abbrev pub update : Heap → ℕ → Tcb → Heap
update h t c x = if x == t then c else h x

abbrev pub set_next : Heap → ℕ → ℕ → Heap
set_next h t n = update h t (record (h t) { next = n })

abbrev pub set_state : Heap → ℕ → ℕ → Heap
set_state h t st = update h t (record (h t) { state = st })

-- A queue's head and tail pointers.
pub record Queue : Type 0 where
  pub head : ℕ
  pub tail : ℕ

abbrev pub empty : Queue
empty = record { head = 0; tail = 0 }

-- sleep_enqueue; thread_enqueue_wait and sem_enqueue_wait are the same code on other queues.
unfoldable pub enqueue : Heap → Queue → ℕ → Heap × Queue
enqueue h q t =
    let h1 = set_next h t 0 in
    if q.head == 0
    then (h1, record { head = t; tail = t })
    else (set_next h1 q.tail t, record { head = q.head; tail = t })

-- thread_enqueue: the state is set at the end.
unfoldable pub ready_enqueue : Heap → Queue → ℕ → Heap × Queue
ready_enqueue h q t = let (h1, q1) = enqueue h q t in (set_state h1 t ready, q1)

-- thread_dequeue, sleep_dequeue, thread_dequeue_wait and sem_dequeue_wait: the thread or NULL.
unfoldable pub dequeue : Heap → Queue → ℕ × Heap × Queue
dequeue h q =
    let n = (h q.head).next in
    if q.head == 0
    then (0, h, q)
    else (q.head, set_next h q.head 0, record { head = n; tail = if n == 0 then 0 else q.tail })

-- The search for the predecessor of a thread: `while (curr && curr->next != target)`.
unfoldable pub find_prev : Heap → ℕ → ℕ → ℕ → ℕ
find_prev h target zero curr = curr
find_prev h target (suc f) curr =
    let rest = find_prev h target f (h curr).next in
    if curr == 0 then curr else (if (h curr).next == target then curr else rest)

-- remove_from_sleep_queue: the thread taken out, or NULL. `f` bounds the walk.
unfoldable pub remove : ℕ → Heap → Queue → ℕ → ℕ × Heap × Queue
remove f h q target =
    let curr = find_prev h target f q.head in
    let found = not (curr == 0) && ((h curr).next == target) in
    let h1 = set_next h curr (h target).next in
    if q.head == 0
    then (0, h, q)
    else (if q.head == target
        then dequeue h q
        else (if found
            then (
              target,
              set_next h1 target 0,
              record { head = q.head; tail = if target == q.tail then curr else q.tail },
            )
            else (0, h, q)))

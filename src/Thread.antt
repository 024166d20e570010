-- ===== src/Thread.antt =====
-- Kernel/kernel/Thread.c: the scheduler and the sleeping threads, on one processor. A routine runs up
-- to a switch of threads: `schedule` gives the state in which switch_to is entered. The page table,
-- and the stacks for the TSS and for system calls, are the values that the code computes; the switch
-- itself is assembly, and what follows it (the clean-up of a terminated thread) is not modelled.
pub mod Sleep
pub mod Wake
pub mod Schedule
pub mod Progress
pub mod Delay
mod Tests
use os.Base.{
  ℕ, zero, suc, ◌+◌, ◌*◌, ◌/◌, Bool, true, false, ◌&&◌, not, leb, ◌==◌, if◌then◌else◌, u64,
}
use os.Queue.{
  Heap, Queue, set_next, set_state, update, ready, running, blocked, enqueue, ready_enqueue,
  dequeue,
}

-- The globals that the scheduler reads and writes, the timer's ticks, and the interrupt flag.
-- `pml4` is the Pml4 field of the descriptors of virtual memory, `target_cr3` the page table that the
-- last switch loads, 0 for none.
pub record Kernel : Type 0 where
  pub tcb : Heap
  pub ready_queue : Queue
  pub sleep_queue : Queue
  pub current : ℕ
  pub kernel_thread : ℕ
  pub prev : ℕ
  pub ticks : ℕ
  pub interrupts : Bool
  pub pml4 : ℕ → ℕ
  pub kernel_pml4 : ℕ
  pub target_cr3 : ℕ
  pub rsp0 : ℕ
  pub syscall_rsp : ℕ

-- PIT_CLOCK_FREQ
abbrev pub pit_clock_freq : ℕ
pit_clock_freq = 1000

-- The loop of wake_sleeping_threads takes `current`, behind `prev`, out of the sleep queue.
unfoldable pub wake_one : Kernel → ℕ → ℕ → Kernel
wake_one s current prev =
    let next = (s.tcb current).next in
    let h1 = if prev == 0 then s.tcb else set_next s.tcb prev next in
    let sleeping : Queue = record {
      head = if prev == 0 then next else s.sleep_queue.head;
      tail = if current == s.sleep_queue.tail then prev else s.sleep_queue.tail;
    } in
    let h2 = set_state (set_next h1 current 0) current ready in
    let (h3, queue) = ready_enqueue h2 s.ready_queue current in
    record s { tcb = h3; ready_queue = queue; sleep_queue = sleeping }

-- The loop at `current`, behind `prev`. `f` bounds the walk.
unfoldable pub wake_loop : ℕ → Kernel → ℕ → ℕ → Kernel
wake_loop zero s current prev = s
wake_loop (suc f) s current prev =
    let next = (s.tcb current).next in
    let wake = wake_loop f (wake_one s current prev) next prev in
    let stay = wake_loop f s next current in
    if current == 0 then s else (if leb (s.tcb current).wakeup_time s.ticks then wake else stay)

-- wake_sleeping_threads: interrupts are off in the loop and come back as they were.
unfoldable pub wake_sleeping_threads : ℕ → Kernel → Kernel
wake_sleeping_threads f s =
    let woken = wake_loop f (record s { interrupts = false }) s.sleep_queue.head 0 in
    if s.interrupts then record woken { interrupts = true } else woken

-- `schedule` puts a current thread that is running behind the ready threads.
unfoldable pub requeue_current : Kernel → Kernel
requeue_current s =
    let (h, queue) = ready_enqueue (set_state s.tcb s.current ready) s.ready_queue s.current in
    if not (s.current == 0) && ((s.tcb s.current).state == running)
    then record s { tcb = h; ready_queue = queue }
    else s

-- `schedule` once it has the next thread.
unfoldable pub switch_thread : Kernel → ℕ → Kernel
switch_thread s next =
    let tcb = set_state s.tcb next running in
    let page_table =
      if (tcb next).use_vmm
      then s.pml4 (tcb next).vmm
      else (if (tcb s.current).use_vmm then s.kernel_pml4 else 0) in
    let top = u64 ((tcb next).kernel_stack + (tcb next).stack_size) in
    let switched = record s { tcb = tcb; prev = s.current; current = next } in
    if s.current == next
    then record switched { prev = 0 }
    else record switched { target_cr3 = page_table; rsp0 = top; syscall_rsp = top }

-- `schedule` takes the next thread from the ready queue, or else the kernel's main thread.
unfoldable pub pick_next : Kernel → Kernel
pick_next s =
    let (next, h, queue) = dequeue s.tcb s.ready_queue in
    let chosen = record s { tcb = h; ready_queue = queue } in
    let main = s.kernel_thread in
    let main_tcb = if (h main).state == running then h else set_state h main running in
    let fallback = switch_thread (record chosen { tcb = main_tcb }) main in
    if next == 0 then (if main == 0 then chosen else fallback) else switch_thread chosen next

-- schedule, up to the switch. `f` bounds the walk through the sleeping threads.
unfoldable pub schedule : ℕ → Kernel → Kernel
schedule f s = pick_next (wake_sleeping_threads f (requeue_current s))

-- A thread goes to sleep until the timer shows `wakeup`, and others run.
unfoldable pub sleep_until : ℕ → Kernel → ℕ → Kernel
sleep_until f s wakeup =
    let c = s.current in
    let timed = update s.tcb c (record (s.tcb c) { wakeup_time = wakeup }) in
    let (h, queue) = enqueue (set_state timed c blocked) s.sleep_queue c in
    schedule f (record s { tcb = h; sleep_queue = queue; interrupts = false })

-- ThreadSleepMS, up to the switch
unfoldable pub thread_sleep_ms : ℕ → Kernel → ℕ → Kernel
thread_sleep_ms f s ms =
    if ms == 0 then s else sleep_until f s (u64 (s.ticks + u64 (ms * pit_clock_freq) / 1000))

-- ThreadSleepSecond, up to the switch
unfoldable pub thread_sleep_second : ℕ → Kernel → ℕ → Kernel
thread_sleep_second f s n =
    if n == 0 then s else sleep_until f s (u64 (s.ticks + u64 (n * pit_clock_freq)))

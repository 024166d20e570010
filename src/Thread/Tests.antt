-- ===== src/Thread/Tests.antt =====
-- The theorems on the scheduler at five threads: 10 and 20 sleep, 30 is ready, 40 runs, and 50 is the
-- kernel's main thread.
use os.Base.{has, ℕ, ◌≡◌, refl, true, false, ◌==◌, if◌then◌else◌, [], ◌∷◌, arith}
use os.Queue.{Tcb, running}
use os.Thread.{Kernel, wake_sleeping_threads, schedule, thread_sleep_ms}
use os.Thread.Sleep.{Queues}
use os.Thread.Wake.{Woken, wake_sleeping_threads-Woken}
use os.Thread.Schedule.{RunsAlone, schedule-round_robin}
use os.Thread.Progress.{turns, turns-reaches}
use os.Thread.Delay.{wake_at, thread_sleep_ms-Queues}

abbrev block : ℕ → ℕ → ℕ → Tcb
block state next wakeup = record {
  id = 0;
  state = state;
  kernel_stack = 0x8000;
  stack_size = 4096;
  next = next;
  position = 0;
  wakeup_time = wakeup;
  use_vmm = false;
  vmm = 0;
  user_entry = 0;
  user_rsp = 0;
  stack = 0;
  rsp = 0;
}

abbrev time_of : ℕ → ℕ
time_of t = if t == 10 then 5 else (if t == 20 then 90 else 0)

abbrev machine : Kernel
machine = record {
  tcb = λ t.
      block (if t == 40 then 1 else (if t == 30 then 0 else 2)) (if t == 10 then 20 else 0)
        (time_of t);
  ready_queue = record { head = 30; tail = 30 };
  sleep_queue = record { head = 10; tail = 20 };
  current = 40;
  kernel_thread = 50;
  prev = 0;
  ticks = 7;
  interrupts = true;
  pml4 = λ v. v;
  kernel_pml4 = 0x7000;
  target_cr3 = 0;
  rsp0 = 0;
  syscall_rsp = 0;
}

apart_machine : (t : ℕ) → has t (10 ∷ (20 ∷ [])) ≡ true → has t (30 ∷ []) ≡ false
apart_machine t m = ground arith

machine-Queues : Queues time_of machine (10 ∷ (20 ∷ [])) (30 ∷ [])
machine-Queues = record {
  times = λ t. refl;
  sleep = record {
    chain = (refl, ground arith, (refl, ground arith, refl));
    last = refl;
    distinct = (refl, (refl, tt));
  };
  ready = record { chain = (refl, ground arith, refl); last = refl; distinct = (refl, tt) };
  apart = apart_machine;
}

wake_sleeping_threads-Woken_example :
    Woken time_of machine (wake_sleeping_threads 2 machine) [] (10 ∷ (20 ∷ [])) (30 ∷ [])
wake_sleeping_threads-Woken_example =
    wake_sleeping_threads-Woken time_of 2 machine (10 ∷ (20 ∷ [])) (30 ∷ []) (omega arith)
      machine-Queues

machine-alone : RunsAlone machine (10 ∷ (20 ∷ [])) (30 ∷ [])
machine-alone e = (refl, refl)

schedule-round_robin_example :
    let s' = schedule 2 machine in
    (s'.current ≡ 30)
    × Queues time_of s' (20 ∷ []) (40 ∷ (10 ∷ []))
    × ((s'.tcb s'.current).state ≡ running)
schedule-round_robin_example =
    schedule-round_robin time_of 2 machine (10 ∷ (20 ∷ [])) (30 ∷ []) (omega arith) (ground arith)
      machine-Queues machine-alone

thread_sleep_ms-Queues_example :
    let s' = thread_sleep_ms 3 machine 25 in
    (s'.current ≡ 30)
    × Queues (wake_at time_of 40 32) s' (20 ∷ (40 ∷ [])) (10 ∷ [])
    × ((s'.tcb s'.current).state ≡ running)
thread_sleep_ms-Queues_example =
    thread_sleep_ms-Queues time_of 3 machine (10 ∷ (20 ∷ [])) (30 ∷ []) 25 (ground arith) refl refl
      machine-Queues (ground arith) (omega arith) (omega arith) (omega arith) (ground arith)

-- Another thread, 60, is ready behind 30.
abbrev busy : Kernel
busy = record machine {
  tcb = λ t.
      block (if t == 40 then 1 else (if t == 30 then 0 else (if t == 60 then 0 else 2)))
        (if t == 10 then 20 else (if t == 30 then 60 else 0)) (time_of t);
  ready_queue = record { head = 30; tail = 60 };
}

busy-Queues : Queues time_of busy (10 ∷ (20 ∷ [])) (30 ∷ (60 ∷ []))
busy-Queues = record {
  times = λ t. refl;
  sleep = record {
    chain = (refl, ground arith, (refl, ground arith, refl));
    last = refl;
    distinct = (refl, (refl, tt));
  };
  ready = record {
    chain = (refl, ground arith, (refl, ground arith, refl));
    last = refl;
    distinct = (refl, (refl, tt));
  };
  apart = λ t m. ground arith;
}

busy-alone : RunsAlone busy (10 ∷ (20 ∷ [])) (30 ∷ (60 ∷ []))
busy-alone e = (refl, refl)

turns-reaches_example : (turns 2 (8 ∷ []) busy).current ≡ 60
turns-reaches_example =
    turns-reaches time_of 2 (8 ∷ []) busy (10 ∷ (20 ∷ [])) (30 ∷ []) 60 [] (omega arith)
      (ground arith) busy-Queues busy-alone refl

-- ===== src/Queue/Tests.antt =====
-- The theorems on queues of threads at three threads, in the queue one after another.
use os.Base.{ℕ, ◌≡◌, refl, false, ◌==◌, if◌then◌else◌, [], ◌∷◌, arith}
use os.Queue.{Tcb, Heap, Queue, remove}
use os.Queue.Chain.{IsQueue}
use os.Queue.Remove.{SameBut, remove-IsQueue}

abbrev block : ℕ → Tcb
block next = record {
  id = 0;
  state = 2;
  kernel_stack = 0;
  stack_size = 4096;
  next = next;
  position = 0;
  wakeup_time = 0;
  use_vmm = false;
  vmm = 0;
  user_entry = 0;
  user_rsp = 0;
  stack = 0;
  rsp = 0;
}

abbrev three_heap : Heap
three_heap t = block (if t == 10 then 20 else (if t == 20 then 30 else 0))

abbrev three : Queue
three = record { head = 10; tail = 30 }

three-IsQueue : IsQueue three_heap three (10 ∷ (20 ∷ (30 ∷ [])))
three-IsQueue = record {
  chain = (refl, ground arith, (refl, ground arith, (refl, ground arith, refl)));
  last = refl;
  distinct = (refl, (refl, (refl, tt)));
}

remove-IsQueue_example :
    let (r, h', q') = remove 3 three_heap three 20 in
    (r ≡ 20) × IsQueue h' q' (10 ∷ (30 ∷ [])) × SameBut (10 ∷ (20 ∷ (30 ∷ []))) three_heap h'
remove-IsQueue_example =
    remove-IsQueue 3 three_heap three 20 (10 ∷ (20 ∷ (30 ∷ []))) (ground arith) (omega arith)
      three-IsQueue

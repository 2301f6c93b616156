-- ===== src/Examples/Rwlocks.antt =====
-- The theorems on `RWLock`, applied.
use libtask_annotation.Base.{inl, inr, refl, arith, [], ◌∷◌, List, Ptr, update, true, ◌∉◌}
use libtask_annotation.World.{World}
use libtask_annotation.Flow.{Returns}
use libtask_annotation.Tasklist.{addtask, deltask}
use libtask_annotation.Tasklist.Links.{IsQueue}
use libtask_annotation.Task.{
  has_stack, make_ready, taskready, taskstate, with_state, taskswitch, needstack, contextswitch,
}
use libtask_annotation.Rwlock.{
  runlock, wunlock, rlock_core, wlock_core, wait_write, if_no_readers, next_writer, admit_writer,
}
use libtask_annotation.Rwlock.Take.{head-empty}
use libtask_annotation.Rwlock.Exclusive.{Exclusive}
use libtask_annotation.Rwlock.Uses.{
  IsAwake, Uses, begins, goes_on, takes_read, parks_write, leaves_read, others, Uses-Exclusive,
}
use libtask_annotation.Rwlock.Handover.{View, IsRwlock, runlock-settled, wunlock-settled}
use libtask_annotation.Examples.{no_tasks, fresh_world, linked}
use libtask_annotation.Examples.Runs.{left_by}
use libtask_annotation.Examples.Locks.{waiting_tasks}

-- The tasks 5 and 6 wait to read what 9 writes.
abbrev written : World
written = record waiting_tasks {
  rwlocks = λ _. record {
    readers = 0;
    writer = 9;
    rwaiting = record { head = 5; tail = 6 };
    wwaiting = no_tasks;
  };
}

abbrev written_view : View
written_view = record {
  readers = 0;
  writer = 9;
  rwaiting = 5 ∷ 6 ∷ [];
  wwaiting = [];
  ready = 7 ∷ [];
}

written-IsRwlock : IsRwlock written 1 written_view
written-IsRwlock = record {
  readers = refl;
  writer = refl;
  rwaiting = record { chain = ground arith };
  wwaiting = record { chain = (refl, refl) };
  ready = record { chain = ground arith };
  apart = λ a i. refl;
  reading = λ a i. ground arith;
  writing = λ a i. ground arith;
}

wunlock-settled_example :
    Returns
      (λ _ v.
        IsRwlock v 1 (record {
          readers = 2;
          writer = 0;
          rwaiting = [];
          wwaiting = [];
          ready = 7 ∷ 5 ∷ 6 ∷ [];
        }))
      (wunlock 3 1 written)
wunlock-settled_example =
    wunlock-settled 3 1 written written_view written-IsRwlock (ground arith) refl (omega arith)
      (omega arith)

-- The tasks 5 and 6 wait to write what one task reads.
abbrev read_once : World
read_once = record waiting_tasks {
  rwlocks = λ _. record {
    readers = 1;
    writer = 0;
    rwaiting = no_tasks;
    wwaiting = record { head = 5; tail = 6 };
  };
}

abbrev read_view : View
read_view = record { readers = 1; writer = 0; rwaiting = []; wwaiting = 5 ∷ 6 ∷ []; ready = 7 ∷ [] }

read_once-IsRwlock : IsRwlock read_once 1 read_view
read_once-IsRwlock = record {
  readers = refl;
  writer = refl;
  rwaiting = record { chain = (refl, refl) };
  wwaiting = record { chain = ground arith };
  ready = record { chain = ground arith };
  apart = λ a i. ground arith;
  reading = λ a i. ground arith;
  writing = λ a i. ground arith;
}

runlock-settled_example :
    Returns
      (λ _ v.
        IsRwlock v 1 (record {
          readers = 0;
          writer = 5;
          rwaiting = [];
          wwaiting = 6 ∷ [];
          ready = 7 ∷ 5 ∷ [];
        }))
      (runlock 1 read_once)
runlock-settled_example =
    runlock-settled 1 read_once read_view 0 read_once-IsRwlock refl (omega arith)

-- The task 9 asks for a lock that 8 writes.
abbrev wanted : World
wanted = record written {
  rwlocks = λ _. record {
    readers = 0;
    writer = 8;
    rwaiting = record { head = 5; tail = 6 };
    wwaiting = no_tasks;
  };
}

abbrev wanted_view : View
wanted_view = record {
  readers = 0;
  writer = 8;
  rwaiting = 5 ∷ 6 ∷ [];
  wwaiting = [];
  ready = 7 ∷ [];
}

wanted-IsRwlock : IsRwlock wanted 1 wanted_view
wanted-IsRwlock = record {
  readers = refl;
  writer = refl;
  rwaiting = record { chain = ground arith };
  wwaiting = record { chain = (refl, refl) };
  ready = record { chain = ground arith };
  apart = λ a i. refl;
  reading = λ a i. ground arith;
  writing = λ a i. ground arith;
}

-- The task 5 runs, and the lock 1 is free.
abbrev unread : World
unread = record fresh_world { task = λ p. linked 0 0; taskcount = 2; taskrunning = 5 }

unread-IsRwlock :
    IsRwlock unread 1 (record { readers = 0; writer = 0; rwaiting = []; wwaiting = []; ready = [] })
unread-IsRwlock = record {
  readers = refl;
  writer = refl;
  rwaiting = record { chain = (refl, refl) };
  wwaiting = record { chain = (refl, refl) };
  ready = record { chain = (refl, refl) };
  apart = λ a i. absurd (cc);
  reading = λ a i. absurd (cc);
  writing = λ a i. absurd (cc);
}

-- It reads, and then 7 runs.
abbrev read_by_one : World
read_by_one = record unread {
  taskrunning = 7;
  rwlocks =
      update unread.rwlocks 1
        (record { readers = 1; writer = 0; rwaiting = no_tasks; wwaiting = no_tasks });
}

none_wait : (xs : List Ptr) → IsQueue read_by_one.task no_tasks xs → 7 ∉ xs
none_wait xs q = elim (head-empty read_by_one.task no_tasks xs q) [
  | inl (head, e) ↦ rw e refl
  | inr (ne, e) ↦ absurd (ne refl)
]

seven-IsAwake : IsAwake 1 read_by_one
seven-IsAwake = record {
  running = ground arith;
  stack = unfold has_stack in refl;
  apart = λ s q.
      (none_wait s.rwaiting q.rwaiting, none_wait s.wwaiting q.wwaiting, none_wait s.ready q.ready);
}

-- 7 waits to write, and 5 runs again and ends its reading, which lets 7 in.
abbrev seven_waits : World
seven_waits = left_by (wlock_core 1 true read_by_one)

abbrev seven_let_in : World
seven_let_in = left_by (runlock 1 (record seven_waits { taskrunning = 5 }))

same_lock :
    (w : World) (r : Ptr) (s : View)
    → IsRwlock w 1 s
    → (rs : List Ptr) × IsRwlock (record w { taskrunning = r }) 1 (record s { ready = rs })
same_lock w r s q = (
  s.ready,
  record {
    readers = q.readers;
    writer = q.writer;
    rwaiting = q.rwaiting;
    wwaiting = q.wwaiting;
    ready = q.ready;
    apart = q.apart;
    reading = q.reading;
    writing = q.writing;
  },
)

let_in : Uses 1 seven_let_in
unfolding rlock_core wlock_core wait_write taskstate with_state taskswitch needstack contextswitch
    has_stack runlock if_no_readers next_writer admit_writer taskready make_ready addtask deltask
let_in =
    goes_on
      (goes_on
        (goes_on
          (goes_on
            (goes_on (begins unread [] unread-IsRwlock)
              (takes_read _ (record read_by_one { taskrunning = 5 }) true (ground arith) refl))
            (others _ read_by_one (same_lock _ 7)))
          (parks_write _ seven_waits _ seven-IsAwake refl))
        (others _ (record seven_waits { taskrunning = 5 }) (same_lock _ 5)))
      (leaves_read _ seven_let_in (ground arith) (ground arith) refl)

Uses-Exclusive_example : (s : View) × IsRwlock seven_let_in 1 s × Exclusive s
Uses-Exclusive_example = Uses-Exclusive let_in

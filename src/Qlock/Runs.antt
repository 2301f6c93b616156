-- ===== src/Qlock/Runs.antt =====
-- The tasks of a process that use one `QLock`: the functions of qlock.c and `schedule`, which is a turn
-- of `taskscheduler`, run on the state of the process; what is left of a `_qlock` that has given up
-- the processor goes on when its task runs again.
use libtask_annotation.Base.{
  ◌≡◌, ◌≢◌, Ptr, Bool, true, Option, none, some, List, [], ◌∈◌, ◌∉◌, update, IsDistinct,
}
use libtask_annotation.World.{World}
use libtask_annotation.Flow.{Flow, done, switch}
use libtask_annotation.Task.{has_stack, make_ready}
use libtask_annotation.Sched.{run, schedule}
use libtask_annotation.Qlock.{qlock_core, qunlock}
use libtask_annotation.Qlock.Spec.{Lock}
use libtask_annotation.Qlock.Refine.{IsLock}

-- `behind t` is what is left of the `_qlock` in which the task `t` has given up the processor.
pub record Process : Type 0 where
  pub world : World
  pub behind : Ptr → Option (World → Flow Bool)

-- A task runs, and is not inside `_qlock`.
abbrev pub Outside : Process → Type 0
Outside c = (c.world.taskrunning ≢ 0) × (c.behind c.world.taskrunning ≡ none)

pub data Run (l : Ptr) : Process → Process → Type 0 where
  -- `qlock` or `canqlock` returns.
  takes :
      (c : Process) (block got : Bool) (v : World)
      → Outside c
      → qlock_core l block c.world ≡ done got v
      → Run l c (record c { world = v })
  -- `qlock` gives up the processor.
  parks :
      (c : Process) (v : World) (k : World → Flow Bool)
      → Outside c
      → has_stack 0 c.world ≡ true
      → qlock_core l true c.world ≡ switch v k
      → Run l c (record {
        world = record v { taskrunning = 0 };
        behind = update c.behind c.world.taskrunning (some k);
      })
  -- The owner calls `qunlock`.
  unlocks :
      (c : Process) (v : World)
      → Outside c
      → (c.world.qlocks l).owner ≡ c.world.taskrunning
      → qunlock l c.world ≡ done tt v
      → Run l c (record c { world = v })
  -- The running task gives up the processor, ready as in `taskyield`, or not.
  passes :
      (c : Process)
      → Outside c
      → Run l c
          (record c { world = record (make_ready c.world.taskrunning c.world) { taskrunning = 0 } })
  rests :
      (c : Process) → Outside c → Run l c (record c { world = record c.world { taskrunning = 0 } })
  -- A task that waits for something else, or is new, is made ready.
  wakes :
      (c : Process) (t : Ptr)
      → t ≢ 0
      → t ≢ c.world.taskrunning
      → c.behind t ≡ none
      → ((s : Lock) → IsLock c.world l s → t ∉ s.ready)
      → Run l c (record c { world = make_ready t c.world })
  -- `taskscheduler` runs a task.
  schedules :
      (c : Process) (t : Ptr) (v : World)
      → c.world.taskrunning ≡ 0
      → schedule c.world ≡ run t v
      → Run l c (record c { world = v })
  -- A task that runs again goes on inside `_qlock`, which returns.
  resumes :
      (c : Process) (k : World → Flow Bool) (got : Bool) (v : World)
      → c.world.taskrunning ≢ 0
      → c.behind c.world.taskrunning ≡ some k
      → k c.world ≡ done got v
      → Run l c (record { world = v; behind = update c.behind c.world.taskrunning none })
  -- Code that leaves the lock and the run queue as they are.
  others :
      (c : Process) (v : World)
      → v.taskrunning ≡ c.world.taskrunning
      → ((s : Lock) → IsLock c.world l s → IsLock v l s)
      → Run l c (record c { world = v })

-- How the process goes on from a free lock, for which no task waits, with the tasks `ts` ready.
pub data Runs (l : Ptr) : Process → Type 0 where
  begins :
      (w : World) (ts : List Ptr)
      → w.taskrunning ≡ 0
      → IsDistinct ts
      → ((a : Ptr) → a ∈ ts → a ≢ 0)
      → IsLock w l (record { owner = 0; waiting = []; ready = ts })
      → Runs l (record { world = w; behind = λ _. none })
  goes_on : {c d : Process} → Runs l c → Run l c d → Runs l d

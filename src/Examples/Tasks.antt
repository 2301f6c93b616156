-- ===== src/Examples/Tasks.antt =====
-- The theorems on tasks and the scheduler, applied.
use libtask_annotation.Base.{
  ℕ, ◌+◌, ◌<◌, ◌≢◌, Ptr, none, ◌≡◌, refl, arith, [], ◌∷◌, ◌==◌, if◌then◌else◌,
}
use libtask_annotation.World.{World}
use libtask_annotation.Flow.{Returns, pure, ◌>>◌}
use libtask_annotation.Task.Create.{taskcreate, remove_alltask}
use libtask_annotation.Task.Slots.{IsIndexed, IsLive, taskcreate-IsLive, remove_alltask-Removed}
use libtask_annotation.Task.{taskyield}
use libtask_annotation.Sched.{Code, System, taskscheduler}
use libtask_annotation.Sched.Turns.{
  Turn-nil, Appends-bind, Fair, Tame, Served, taskyield-Appends, taskscheduler-Served,
}
use libtask_annotation.Sched.Fifo.{IsReady}
use libtask_annotation.Examples.{linked, fresh_world}

-- The tasks 5 and 7 in slots 0 and 1, both ready.
abbrev two_tasks : World
two_tasks = record fresh_world {
  task = λ p. if p == 5 then linked 0 7 else record (linked 5 0) { alltaskslot = 1 };
  taskcount = 2;
  taskrunqueue = record { head = 5; tail = 7 };
  alltask = λ i. if i == 0 then 5 else 7;
  allcap = 64;
  nalltask = 2;
  taskidgen = 2;
}

two_tasks-IsIndexed : IsIndexed two_tasks
two_tasks-IsIndexed = record { room = ground arith; slot = λ i lt. ground arith }

five-IsLive : IsLive two_tasks 5
five-IsLive = record { below = ground arith; found = refl }

seven-IsLive : IsLive two_tasks 7
seven-IsLive = record { below = ground arith; found = refl }

two_tasks-IsReady : IsReady two_tasks (5 ∷ 7 ∷ [])
two_tasks-IsReady = record { chain = ground arith }

taskcreate-IsLive_example :
    Returns
      (λ id v.
        (id ≡ 3)
        × IsIndexed v
        × IsLive v 1000
        × ((u : Ptr) → IsLive two_tasks u → IsLive v u)
        × (v.taskcount ≡ 3))
      (taskcreate 600 1000 2000 30 40 8192 two_tasks)
taskcreate-IsLive_example =
    taskcreate-IsLive 600 1000 2000 30 40 8192 two_tasks (ground arith) (ground arith)
      (λ i lt. ground arith) two_tasks-IsIndexed

remove_alltask-Removed_example :
    IsIndexed (remove_alltask 5 two_tasks)
    × ((remove_alltask 5 two_tasks).nalltask + 1 ≡ two_tasks.nalltask)
    × ((i : ℕ)
        → i < (remove_alltask 5 two_tasks).nalltask
        → (remove_alltask 5 two_tasks).alltask i ≢ 5)
    × ((u : Ptr) → IsLive two_tasks u → u ≢ 5 → IsLive (remove_alltask 5 two_tasks) u)
remove_alltask-Removed_example = remove_alltask-Removed two_tasks 5 two_tasks-IsIndexed five-IsLive

-- Every function gives up the processor once.
abbrev yielding : Code
yielding fn arg = taskyield >> pure tt

yielding-Fair : Fair yielding
yielding-Fair = λ fn arg w xs turn.
    Appends-bind xs (taskyield w) (λ _. pure tt) (taskyield-Appends w xs turn)
      (λ a v ys turn'. ([], Turn-nil v ys turn'))

-- No task has begun.
abbrev begun : System
begun = record { world = two_tasks; resume = λ _. none }

begun-Tame : Tame begun
begun-Tame = λ t k e. absurd (ground arith)

taskscheduler-Served_example : Served 7 (taskscheduler yielding 1 begun)
taskscheduler-Served_example =
    taskscheduler-Served yielding yielding-Fair begun (5 ∷ []) 7 [] begun-Tame two_tasks-IsReady

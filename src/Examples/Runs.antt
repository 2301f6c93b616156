-- ===== src/Examples/Runs.antt =====
-- Two tasks that use one lock, and the theorems on them, applied.
use libtask_annotation.Base.{
  ◌≡◌, ◌≢◌, ◌⊎◌, refl, arith, Bool, true, [], ◌∷◌, ◌∈◌, ◌==◌, if◌then◌else◌, some, none, update,
}
use libtask_annotation.World.{World}
use libtask_annotation.Flow.{Flow, done, switch, exits, aborts, out_of_fuel}
use libtask_annotation.Tasklist.{addtask, deltask}
use libtask_annotation.Task.{
  has_stack, make_ready, taskready, taskstate, with_state, taskswitch, needstack, contextswitch,
}
use libtask_annotation.Sched.{schedule, switch_to}
use libtask_annotation.Qlock.{qlock_core, qunlock, wait_qlock, unwait_qlock}
use libtask_annotation.Qlock.Spec.{Lock}
use libtask_annotation.Qlock.Refine.{IsLock}
use libtask_annotation.Qlock.Runs.{
  Process, Runs, begins, goes_on, takes, parks, unlocks, passes, rests, schedules,
}
use libtask_annotation.Qlock.Resumed.{resumed-returns, waiting-served}
use libtask_annotation.Examples.{linked, fresh_world}

-- The state that the code leaves, and how it goes on.
abbrev pub left_by : {A : Type 0} → Flow A → World
left_by (done a w) = w
left_by (switch w k) = w
left_by (exits n w) = w
left_by (aborts w) = w
left_by (out_of_fuel w) = w

abbrev rest_of : Flow Bool → World → Flow Bool
rest_of (done a w) = done a
rest_of (switch w k) = k
rest_of (exits n w) = exits n
rest_of (aborts w) = aborts
rest_of (out_of_fuel w) = out_of_fuel

-- The tasks 5 and 7 are ready, and the lock 1 is free.
abbrev both_ready : World
both_ready = record fresh_world {
  task = λ p. if p == 5 then linked 0 7 else (if p == 7 then linked 5 0 else linked 0 0);
  taskcount = 2;
  taskrunqueue = record { head = 5; tail = 7 };
}

both_ready-IsLock : IsLock both_ready 1 (record { owner = 0; waiting = []; ready = 5 ∷ 7 ∷ [] })
both_ready-IsLock = record {
  owner = refl;
  waiting = record { chain = (refl, refl) };
  ready = record { chain = ground arith };
  apart = λ a i. absurd (cc);
}

begun : Runs 1 (record { world = both_ready; behind = λ _. none })
begun =
    begins both_ready (5 ∷ 7 ∷ []) refl (refl, (refl, tt)) (λ a i. ground arith) both_ready-IsLock

-- The first takes the lock and yields.
abbrev first_runs : World
first_runs = switch_to 5 both_ready

abbrev first_took : World
first_took = left_by (qlock_core 1 true first_runs)

abbrev first_yielded : World
first_yielded = record (make_ready 5 first_took) { taskrunning = 0 }

-- The second waits for it.
abbrev second_runs : World
second_runs = switch_to 7 first_yielded

abbrev second_left : World
second_left = record (left_by (qlock_core 1 true second_runs)) { taskrunning = 0 }

abbrev second_rest : World → Flow Bool
second_rest = rest_of (qlock_core 1 true second_runs)

abbrev second_waits : Process
second_waits = record { world = second_left; behind = update (λ _. none) 7 (some second_rest) }

first_has : Runs 1 (record { world = first_took; behind = λ _. none })
unfolding schedule switch_to qlock_core
first_has =
    goes_on (goes_on begun (schedules _ 5 first_runs refl refl))
      (takes _ true true first_took (ground arith, refl) refl)

second_has_waited : Runs 1 second_waits
unfolding schedule switch_to qlock_core make_ready has_stack addtask deltask wait_qlock taskstate
    with_state taskswitch needstack contextswitch
second_has_waited =
    goes_on
      (goes_on (goes_on first_has (passes _ (ground arith, refl)))
        (schedules _ 7 second_runs refl refl))
      (parks _ (left_by (qlock_core 1 true second_runs)) second_rest (ground arith, refl) refl refl)

-- The first goes on and unlocks, and rests; the second runs again.
abbrev first_unlocked : World
first_unlocked = left_by (qunlock 1 (switch_to 5 second_left))

abbrev second_again : World
second_again = switch_to 7 (record first_unlocked { taskrunning = 0 })

second_runs_again : Runs 1 (record { world = second_again; behind = second_waits.behind })
unfolding qunlock unwait_qlock taskready schedule switch_to qlock_core make_ready has_stack addtask
    deltask wait_qlock taskstate with_state taskswitch needstack contextswitch
second_runs_again =
    goes_on
      (goes_on
        (goes_on (goes_on second_has_waited (schedules _ 5 (switch_to 5 second_left) refl refl))
          (unlocks _ first_unlocked (ground arith, refl) refl refl))
        (rests _ (ground arith, refl)))
      (schedules _ 7 second_again refl refl)

resumed-returns_example :
    ((second_again.qlocks 1).owner ≡ second_again.taskrunning)
    × (second_rest second_again ≡ done true second_again)
resumed-returns_example =
    resumed-returns second_rest second_runs_again (unfold switch_to in ground arith)
      (unfold switch_to in refl)

waiting-served_example :
    (s : Lock) × IsLock second_left 1 s
    × (((7 ∈ s.waiting) × (s.owner ≢ 0))
        ⊎ ((s.owner ≡ 7) × ((7 ∈ s.ready) ⊎ (second_left.taskrunning ≡ 7))))
waiting-served_example = waiting-served 7 second_rest second_has_waited refl

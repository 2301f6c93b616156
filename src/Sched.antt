-- ===== src/Sched.antt =====
-- `taskscheduler` and `taskstart` of task.c: the loop that runs the tasks in turn.
pub mod Fifo
pub mod Turns
use libtask_annotation.Base.{
  ℕ, zero, suc, ◌*◌, Ptr, true, false, Option, none, some, update, ◌==◌, if◌then◌else◌, inc32,
}
use libtask_annotation.World.{World}
use libtask_annotation.Flow.{Flow, Cmd, done, switch, exits, aborts, out_of_fuel, ◌>>◌}
use libtask_annotation.Tasklist.{deltask}
use libtask_annotation.Task.{taskexit}
use libtask_annotation.Task.Pointer.{split_pointer, join_pointer}
use libtask_annotation.Task.Create.{taskcreate, after_run}

-- What one round of the loop does first: end the process, or run a task.
pub data Pick : Type 0 where
  stop : ℕ → Pick
  run : Ptr → World → Pick

-- The state in which `t`, the head of the run queue, is switched to.
unfoldable pub switch_to : Ptr → World → World
switch_to t w =
    let (m, q) = deltask w.task w.taskrunqueue t in
    record w {
      task = update m t (record (m t) { ready = false });
      taskrunqueue = q;
      taskrunning = t;
      tasknswitch = inc32 w.tasknswitch;
    }

unfoldable pub schedule : World → Pick
schedule w =
    if w.taskcount == 0
    then stop w.taskexitval
    else (if w.taskrunqueue.head == 0
        then stop 1
        else run w.taskrunqueue.head (switch_to w.taskrunqueue.head w))

-- The functions that tasks run, by their pointers: `code fn arg` is a call of `fn(arg)`.
abbrev pub Code : Type 0
Code = ℕ → ℕ → Cmd (Unit {0})

-- The words are those that `makecontext` hands on.
unfoldable pub taskstart : Code → (words : ℕ × ℕ) → Cmd (Unit {0})
taskstart code words w =
    let t = join_pointer words in (code (w.task t).startfn (w.task t).startarg >> taskexit 0) w

-- The process: its state, and where each task that has run goes on.
pub record System : Type 0 where
  pub world : World
  pub resume : Ptr → Option (World → Flow (Unit {0}))

pub data Outcome : Type 0 where
  runs : System → Outcome
  exited : ℕ → Outcome
  aborted : Outcome

-- The task goes on until it gives up the processor.
unfoldable pub slice : Code → System → Ptr → Cmd (Unit {0})
slice code s t w = elim (s.resume t) [ none ↦ taskstart code (split_pointer t) w | some k ↦ k w ]

-- Back in the scheduler. The record of a task that has ended may be used again.
unfoldable pub settle : System → Ptr → Flow (Unit {0}) → Outcome
settle s t (done _ v) = runs (record { world = after_run t v; resume = update s.resume t none })
settle s t (switch v k) = runs (record {
  world = after_run t v;
  resume = update s.resume t (if (v.task t).exiting then none else some k);
})
settle s t (exits n v) = exited n
settle s t (aborts v) = aborted
settle s t (out_of_fuel v) = aborted

-- One round of `taskscheduler`.
unfoldable pub round : Code → System → Outcome
round code s = elim (schedule s.world) [
  | stop n ↦ exited n
  | run t w ↦ settle s t (slice code s t w)
]

-- `for(;;)`, for as many rounds as there is fuel.
unfoldable pub taskscheduler : Code → ℕ → System → Outcome
taskscheduler code zero s = runs s
taskscheduler code (suc n) s = elim (round code s) [
  | runs s' ↦ taskscheduler code n s'
  | exited k ↦ exited k
  | aborted ↦ aborted
]

-- The stack of the first task, if the program has set no `mainstacksize`.
abbrev main_stack : (mainstacksize : ℕ) → ℕ
main_stack mainstacksize = if mainstacksize == 0 then 256 * 1024 else mainstacksize

-- The process once `main` has created the first task, before it enters the scheduler.
unfoldable pub started : Flow ℕ → Outcome
started (done id v) = runs (record { world = v; resume = λ _. none })
started (switch v k) = aborted
started (exits n v) = exited n
started (aborts v) = aborted
started (out_of_fuel v) = aborted

-- `main`; `taskmainstart_fn` is the address of `taskmainstart`.
unfoldable pub main :
    Code → (fuel sizeof_task fresh grown taskmainstart_fn mainstacksize : ℕ) → World → Outcome
main code fuel sizeof_task fresh grown taskmainstart_fn mainstacksize w =
    elim (started
      (taskcreate sizeof_task fresh grown taskmainstart_fn 0 (main_stack mainstacksize) w)) [
        | runs s ↦ taskscheduler code fuel s
        | exited n ↦ exited n
        | aborted ↦ aborted
      ]

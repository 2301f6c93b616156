-- ===== src/Task/Create.antt =====
-- `taskalloc` and `taskcreate` of task.c, and the end of a task in `taskscheduler`. `malloc` and
-- `realloc` are not code of the library: what they return is an argument, and 0 is failure.
use libtask_annotation.Base.{
  ℕ, ◌+◌, ◌-◌, ◌%◌, Ptr, false, update, ◌==◌, if◌then◌else◌, inc32, dec32,
}
use libtask_annotation.World.{Task, World}
use libtask_annotation.Flow.{Cmd, pure, abort, get, modify, ◌>>=◌, ◌>>◌}
use libtask_annotation.Task.{taskready}

-- `memset(t, 0, sizeof *t)`
abbrev pub zeroed : Task
zeroed = record {
  name = "";
  state = "";
  next = 0;
  prev = 0;
  allnext = 0;
  allprev = 0;
  alarmtime = 0;
  id = 0;
  stk = 0;
  stksize = 0;
  exiting = false;
  alltaskslot = 0;
  system = false;
  ready = false;
  startfn = 0;
  startarg = 0;
  udata = 0;
}

-- The stack lies behind the `sizeof_task` bytes of the record.
unfoldable pub taskalloc : (sizeof_task fresh fn arg stack : ℕ) → Cmd Ptr
taskalloc sizeof_task fresh fn arg stack = if fresh == 0 then abort else do
  modify λ w. record w {
    taskidgen = inc32 w.taskidgen;
    task = update w.task fresh (record zeroed {
      stk = fresh + sizeof_task;
      stksize = stack;
      id = inc32 w.taskidgen;
      startfn = fn;
      startarg = arg;
    });
  }
  pure fresh

-- The array grows by 64 cells whenever its length is a multiple of 64.
unfoldable pub grow_alltask : (grown : Ptr) → Cmd (Unit {0})
grow_alltask grown w =
    if w.nalltask % 64 == 0
    then (if grown == 0 then abort w else pure tt (record w { allcap = w.nalltask + 64 }))
    else pure tt w

-- `t->alltaskslot = nalltask; alltask[nalltask++] = t;`
unfoldable pub append_alltask : Ptr → World → World
append_alltask t w = record w {
  task = update w.task t (record (w.task t) { alltaskslot = w.nalltask });
  alltask = update w.alltask w.nalltask t;
  nalltask = w.nalltask + 1;
}

unfoldable pub taskcreate : (sizeof_task fresh grown fn arg stack : ℕ) → Cmd ℕ
unfolding taskalloc taskready
taskcreate sizeof_task fresh grown fn arg stack = do
  t ← taskalloc sizeof_task fresh fn arg stack
  modify λ w. record w { taskcount = inc32 w.taskcount }
  w ← get
  let id = (w.task t).id
  grow_alltask grown
  modify (append_alltask t)
  taskready t
  pure id

-- The last task of `alltask` moves to the slot of `t`.
unfoldable pub remove_alltask : Ptr → World → World
remove_alltask t w =
    let i = (w.task t).alltaskslot in
    let last = w.alltask (w.nalltask - 1) in
    record w {
      nalltask = w.nalltask - 1;
      alltask = update w.alltask i last;
      task = update w.task last (record (w.task last) { alltaskslot = i });
    }

-- What the scheduler does once the task `t` has switched back to it.
unfoldable pub after_run : Ptr → World → World
after_run t w =
    let w' = record w { taskrunning = 0 } in
    if (w.task t).exiting
    then remove_alltask t
        (if (w.task t).system then w' else record w' { taskcount = dec32 w.taskcount })
    else w'

-- ===== src/Task.antt =====
-- The operations of task.c on tasks: making one ready, giving up the processor, ending.
pub mod Create
pub mod Slots
pub mod Pointer
pub mod Switch
pub mod Info
use libtask_annotation.Base.{
  ℕ, ◌+◌, ◌-◌, ◌%◌, ◌^◌, Ptr, Bool, true, String, ◌||◌, not, update, ltb, leb, ◌==◌, if◌then◌else◌,
  dec32,
}
use libtask_annotation.World.{Task, World}
use libtask_annotation.Flow.{Cmd, switch, done, pure, abort, exit, get, modify, ◌>>=◌, ◌>>◌}
use libtask_annotation.Tasklist.{addtask}

-- The running task's own record.
abbrev pub self : World → Task
self w = w.task w.taskrunning

abbrev pub set_self : World → Task → World
set_self w t = record w { task = update w.task w.taskrunning t }

-- `t->ready = 1; addtask(&taskrunqueue, t);`
unfoldable pub make_ready : Ptr → World → World
make_ready t w =
    let (m, q) = addtask (update w.task t (record (w.task t) { ready = true })) w.taskrunqueue t in
    record w { task = m; taskrunqueue = q }

unfoldable pub taskready : Ptr → Cmd (Unit {0})
taskready t = modify (make_ready t)

-- `needstack(n)`: the local variable must lie `256 + n` bytes above the bottom of the stack.
unfoldable pub has_stack : ℕ → World → Bool
has_stack n w = not (leb w.sp (self w).stk || ltb (w.sp - (self w).stk) (256 + n))

unfoldable pub needstack : ℕ → Cmd (Unit {0})
needstack n w = if has_stack n w then done tt w else abort w

unfoldable pub contextswitch : Cmd (Unit {0})
contextswitch w = switch w (λ v. done tt v)

unfoldable pub taskswitch : Cmd (Unit {0})
taskswitch = needstack 0 >> contextswitch

-- `taskstate` and `taskname`, given the text that the format makes.
unfoldable pub with_state : String → World → World
with_state text w = set_self w (record (self w) { state = text })

unfoldable pub taskstate : String → Cmd (Unit {0})
taskstate text = modify (with_state text)

unfoldable pub taskname : String → Cmd (Unit {0})
taskname text = modify (λ w. set_self w (record (self w) { name = text }))

-- `tasknswitch - n - 1`, of ints.
abbrev pub switches_since : ℕ → ℕ → ℕ
switches_since now n = (now + (2 ^ 32 - n) + (2 ^ 32 - 1)) % 2 ^ 32

unfoldable pub taskyield : Cmd ℕ
taskyield = do
  before ← get
  taskready before.taskrunning
  taskstate "yield"
  taskswitch
  after ← get
  pure (switches_since after.tasknswitch before.tasknswitch)

unfoldable pub anyready : World → Bool
anyready w = not (w.taskrunqueue.head == 0)

unfoldable pub taskexitall : ℕ → Cmd (Unit {0})
taskexitall val = exit val

unfoldable pub taskexit : ℕ → Cmd (Unit {0})
taskexit val = do
  modify (λ w. record w { taskexitval = val })
  modify (λ w. set_self w (record (self w) { exiting = true }))
  taskswitch

unfoldable pub tasksystem : Cmd (Unit {0})
tasksystem = modify λ w.
    if (self w).system
    then w
    else record (set_self w (record (self w) { system = true })) { taskcount = dec32 w.taskcount }

unfoldable pub taskid : World → ℕ
taskid w = (self w).id

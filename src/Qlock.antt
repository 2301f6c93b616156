-- ===== src/Qlock.antt =====
-- `QLock` of qlock.c: a lock with a queue of waiting tasks.
pub mod Spec
pub mod Refine
pub mod Protocol
pub mod Runs
pub mod Outcomes
pub mod Keeps
pub mod Resumed
pub mod Frame
use libtask_annotation.Base.{ℕ, Ptr, Bool, true, false, update, ◌==◌, if◌then◌else◌, not}
use libtask_annotation.World.{QLock, World}
use libtask_annotation.Flow.{Cmd, pure, abort, get, put, modify, ◌>>=◌, ◌>>◌}
use libtask_annotation.Tasklist.{addtask, deltask}
use libtask_annotation.Task.{taskready, taskstate, taskswitch}

abbrev pub set_qlock : Ptr → QLock → World → World
set_qlock l q w = record w { qlocks = update w.qlocks l q }

-- `addtask(&l->waiting, taskrunning)`
unfoldable pub wait_qlock : Ptr → World → World
wait_qlock l w =
    let (m, q) = addtask w.task (w.qlocks l).waiting w.taskrunning in
    record w { task = m; qlocks = update w.qlocks l (record (w.qlocks l) { waiting = q }) }

-- `_qlock`; 1 and 0 are `true` and `false`.
unfoldable pub qlock_core : Ptr → Bool → Cmd Bool
qlock_core l block = do
  w ← get
  if (w.qlocks l).owner == 0
      then (do modify (set_qlock l (record (w.qlocks l) { owner = w.taskrunning })); pure true)
      else (if not block then pure false else do
        modify (wait_qlock l)
        taskstate "qlock"
        taskswitch
        v ← get
        if (v.qlocks l).owner == v.taskrunning then pure true else abort)

unfoldable pub qlock : Ptr → Cmd (Unit {0})
qlock l = do _ ← qlock_core l true; pure tt

unfoldable pub canqlock : Ptr → Cmd Bool
canqlock l = qlock_core l false

-- `deltask(&l->waiting, ready)`
unfoldable pub unwait_qlock : Ptr → Ptr → World → World
unwait_qlock l ready w =
    let (m, q) = deltask w.task (w.qlocks l).waiting ready in
    record w { task = m; qlocks = update w.qlocks l (record (w.qlocks l) { waiting = q }) }

unfoldable pub qunlock : Ptr → Cmd (Unit {0})
qunlock l = do
  w ← get
  if (w.qlocks l).owner == 0 then abort else do
    let ready = (w.qlocks l).waiting.head
    put (set_qlock l (record (w.qlocks l) { owner = ready }) w)
    if ready == 0 then pure tt else (do modify (unwait_qlock l ready); taskready ready)

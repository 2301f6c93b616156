-- ===== src/Rwlock.antt =====
-- `RWLock` of qlock.c: many readers or one writer, and a queue of tasks for each.
pub mod Exclusive
pub mod Uses
pub mod Handover
pub mod Take
use libtask_annotation.Base.{
  ℕ, zero, suc, Ptr, Bool, true, false, not, ◌&&◌, update, ◌==◌, if◌then◌else◌, inc32, dec32,
}
use libtask_annotation.World.{RwLock, World}
use libtask_annotation.Flow.{Cmd, out_of_fuel, pure, abort, get, modify, ◌>>=◌, ◌>>◌}
use libtask_annotation.Tasklist.{addtask, deltask}
use libtask_annotation.Task.{taskready, taskstate, taskswitch}

abbrev pub set_rwlock : Ptr → RwLock → World → World
set_rwlock l x w = record w { rwlocks = update w.rwlocks l x }

-- `addtask(&l->rwaiting, taskrunning)` and `addtask(&l->wwaiting, taskrunning)`
unfoldable pub wait_read : Ptr → World → World
wait_read l w =
    let (m, q) = addtask w.task (w.rwlocks l).rwaiting w.taskrunning in
    record w { task = m; rwlocks = update w.rwlocks l (record (w.rwlocks l) { rwaiting = q }) }

unfoldable pub wait_write : Ptr → World → World
wait_write l w =
    let (m, q) = addtask w.task (w.rwlocks l).wwaiting w.taskrunning in
    record w { task = m; rwlocks = update w.rwlocks l (record (w.rwlocks l) { wwaiting = q }) }

-- `_rlock`: a reader also waits for the writers that wait.
unfoldable pub rlock_core : Ptr → Bool → Cmd Bool
rlock_core l block = do
  w ← get
  if ((w.rwlocks l).writer == 0) && ((w.rwlocks l).wwaiting.head == 0)
      then (do
        modify (set_rwlock l (record (w.rwlocks l) { readers = inc32 (w.rwlocks l).readers }))
        pure true)
      else (if not block
          then pure false
          else (do modify (wait_read l); taskstate "rlock"; taskswitch; pure true))

unfoldable pub rlock : Ptr → Cmd (Unit {0})
rlock l = do _ ← rlock_core l true; pure tt

unfoldable pub canrlock : Ptr → Cmd Bool
canrlock l = rlock_core l false

-- `_wlock`
unfoldable pub wlock_core : Ptr → Bool → Cmd Bool
wlock_core l block = do
  w ← get
  if ((w.rwlocks l).writer == 0) && ((w.rwlocks l).readers == 0)
      then (do modify (set_rwlock l (record (w.rwlocks l) { writer = w.taskrunning })); pure true)
      else (if not block
          then pure false
          else (do modify (wait_write l); taskstate "wlock"; taskswitch; pure true))

unfoldable pub wlock : Ptr → Cmd (Unit {0})
wlock l = do _ ← wlock_core l true; pure tt

unfoldable pub canwlock : Ptr → Cmd Bool
canwlock l = wlock_core l false

-- `deltask(&l->wwaiting, t); l->writer = t;`, and `deltask(&l->rwaiting, t); l->readers++;`.
unfoldable pub admit_writer : Ptr → Ptr → World → World
admit_writer l t w =
    let (m, q) = deltask w.task (w.rwlocks l).wwaiting t in
    record w {
      task = m;
      rwlocks = update w.rwlocks l (record (w.rwlocks l) { wwaiting = q; writer = t });
    }

unfoldable pub admit_reader : Ptr → Ptr → World → World
admit_reader l t w =
    let (m, q) = deltask w.task (w.rwlocks l).rwaiting t in
    record w {
      task = m;
      rwlocks =
          update w.rwlocks l
            (record (w.rwlocks l) { rwaiting = q; readers = inc32 (w.rwlocks l).readers });
    }

-- The last statement of `runlock` and of `wunlock`, once `t` is the head of `wwaiting`.
unfoldable pub next_writer : Ptr → Ptr → Cmd (Unit {0})
next_writer l t = if t == 0 then pure tt else (do modify (admit_writer l t); taskready t)

unfoldable pub if_no_readers : Ptr → Cmd (Unit {0})
if_no_readers l = do
  w ← get
  if (w.rwlocks l).readers == 0 then next_writer l (w.rwlocks l).wwaiting.head else pure tt

unfoldable pub runlock : Ptr → Cmd (Unit {0})
runlock l = do
  modify (λ w. set_rwlock l (record (w.rwlocks l) { readers = dec32 (w.rwlocks l).readers }) w)
  if_no_readers l

-- The body of the loop of `wunlock`, and what follows, once `t` is the head of `rwaiting`.
unfoldable pub wake_reader : Ptr → (rest : Cmd (Unit {0})) → (t : Ptr) → Cmd (Unit {0})
wake_reader l rest t =
    if t == 0 then if_no_readers l else (do modify (admit_reader l t); taskready t; rest)

unfoldable pub wake_readers : (fuel : ℕ) → Ptr → Cmd (Unit {0})
wake_readers zero l = out_of_fuel
wake_readers (suc fuel) l =
    let rest = wake_readers fuel l in do w ← get; wake_reader l rest (w.rwlocks l).rwaiting.head

unfoldable pub wunlock : (fuel : ℕ) → Ptr → Cmd (Unit {0})
wunlock fuel l = do
  w ← get
  if (w.rwlocks l).writer == 0 then abort else do
    modify (set_rwlock l (record (w.rwlocks l) { writer = 0 }))
    if (w.rwlocks l).readers == 0 then wake_readers fuel l else abort

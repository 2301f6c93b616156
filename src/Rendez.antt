-- ===== src/Rendez.antt =====
-- rendez.c: condition variables, on which tasks sleep until others wake them up.
pub mod Wakeup
pub mod Sleep
use libtask_annotation.Base.{
  ℕ, zero, suc, ◌+◌, Ptr, Bool, true, false, not, ◌&&◌, update, ◌==◌, if◌then◌else◌,
}
use libtask_annotation.World.{Rendez, World}
use libtask_annotation.Flow.{Cmd, out_of_fuel, pure, get, modify, ◌>>=◌, ◌>>◌}
use libtask_annotation.Tasklist.{addtask, deltask}
use libtask_annotation.Task.{taskready, taskstate, taskswitch}
use libtask_annotation.Qlock.{qlock, qunlock}

-- `addtask(&r->waiting, taskrunning)`
unfoldable pub wait_rendez : Ptr → World → World
wait_rendez r w =
    let (m, q) = addtask w.task (w.rendezs r).waiting w.taskrunning in
    record w { task = m; rendezs = update w.rendezs r (record (w.rendezs r) { waiting = q }) }

-- `deltask(&r->waiting, t)`
unfoldable pub unwait_rendez : Ptr → Ptr → World → World
unwait_rendez r t w =
    let (m, q) = deltask w.task (w.rendezs r).waiting t in
    record w { task = m; rendezs = update w.rendezs r (record (w.rendezs r) { waiting = q }) }

unfoldable pub tasksleep : Ptr → Cmd (Unit {0})
tasksleep r = do
  modify (wait_rendez r)
  w ← get
  if (w.rendezs r).l == 0 then pure tt else qunlock (w.rendezs r).l
  taskstate "sleep"
  taskswitch
  v ← get
  if (v.rendezs r).l == 0 then pure tt else qlock (v.rendezs r).l

-- The rest of the loop's body, once `t` is the head of the list.
unfoldable pub wake_first : Ptr → (rest : Cmd ℕ) → (i : ℕ) → (t : Ptr) → Cmd ℕ
wake_first r rest i t =
    if t == 0 then pure i else (do modify (unwait_rendez r t); taskready t; rest)

-- The loop of `_taskwakeup`, which has woken `i` tasks; it returns how many it wakes in all.
unfoldable pub wakeup_loop : (fuel : ℕ) → Ptr → (all : Bool) → (i : ℕ) → Cmd ℕ
wakeup_loop zero r all i = out_of_fuel
wakeup_loop (suc fuel) r all i =
    let rest = wakeup_loop fuel r all (i + 1) in
    if (i == 1) && not all
    then pure i
    else do w ← get; wake_first r rest i (w.rendezs r).waiting.head

-- `_taskwakeup`
unfoldable pub wakeup : (fuel : ℕ) → Ptr → Bool → Cmd ℕ
wakeup fuel r all = wakeup_loop fuel r all 0

unfoldable pub taskwakeup : (fuel : ℕ) → Ptr → Cmd ℕ
taskwakeup fuel r = wakeup fuel r false

unfoldable pub taskwakeupall : (fuel : ℕ) → Ptr → Cmd ℕ
taskwakeupall fuel r = wakeup fuel r true

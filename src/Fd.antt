-- ===== src/Fd.antt =====
-- fd.c: tasks that wait for a time or for a file, and the system task that wakes them up. The clock
-- and `poll` are the system's: their answers are parameters, one for each call.
pub mod Poller
pub mod Io
pub mod Wait
pub mod Write
pub mod Insert
pub mod Order
pub mod Delay
pub mod Due
pub mod Files
use libtask_annotation.Base.{
  ℕ, zero, suc, ◌+◌, ◌-◌, ◌*◌, ◌/◌, ◌%◌, ◌^◌, Ptr, Bool, true, false, Option, none, some, not, ◌&&◌,
  update, ltb, leb, ◌==◌, if◌then◌else◌, inc32, dec32,
}
use libtask_annotation.World.{Tasklist, World}
use libtask_annotation.Flow.{Cmd, done, out_of_fuel, pure, abort, get, modify, ◌>>=◌, ◌>>◌}
use libtask_annotation.Tasklist.{Tasks, set_next, set_prev, deltask}
use libtask_annotation.Task.{self, taskready, taskstate, taskswitch}
use libtask_annotation.Task.Create.{taskcreate}

-- The loop of `taskdelay`: the first task from `t` on that is not to wake before `when`, or `nil`.
unfoldable pub first_later : (fuel : ℕ) → Tasks → (when : ℕ) → Ptr → Option Ptr
first_later zero m when t = none
first_later (suc fuel) m when t =
    let rest = first_later fuel m when (m t).next in
    if t == 0 then some 0 else (if ltb (m t).alarmtime when then rest else some t)

-- The links of `x` itself, which goes before `t`, or to the end where `t` is `nil`.
unfoldable pub aim : Tasks → Tasklist → (x t : Ptr) → Tasks
aim m l x t =
    if t == 0 then set_next (set_prev m x l.tail) x 0 else set_next (set_prev m x (m t).prev) x t

-- `t->alarmtime = when`
unfoldable pub set_alarm : Tasks → Ptr → (when : ℕ) → Tasks
set_alarm m x when = update m x (record (m x) { alarmtime = when })

-- `if(t->prev) … else …` and `if(t->next) … else …`: the neighbours of `x` lead to it.
unfoldable pub join_forward : Tasks → Tasklist → Ptr → Tasks × Tasklist
join_forward m l x =
    if (m x).prev == 0 then (m, record l { head = x }) else (set_next m (m x).prev x, l)

unfoldable pub join_backward : Tasks → Tasklist → Ptr → Tasks × Tasklist
join_backward m l x =
    if (m x).next == 0 then (m, record l { tail = x }) else (set_prev m (m x).next x, l)

-- Lines 106 to 130: `x` goes before `t` in the list, to wake at `when`.
unfoldable pub insert_sleeper : Tasks → Tasklist → (x t : Ptr) → (when : ℕ) → Tasks × Tasklist
insert_sleeper m l x t when =
    let (m', l') = join_forward (set_alarm (aim m l x t) x when) l x in join_backward m' l' x

unfoldable pub fall_asleep : (t : Ptr) → (when : ℕ) → World → World
fall_asleep t when w =
    let (m, l) = insert_sleeper w.task w.sleeping w.taskrunning t when in
    record w { task = m; sleeping = l }

-- `if(!t->system && sleepingcounted++ == 0) taskcount++;`, and its inverse in `fdtask`.
unfoldable pub count_sleeper : Ptr → World → World
count_sleeper t w = if (w.task t).system then w else record w {
  sleepingcounted = inc32 w.sleepingcounted;
  taskcount = if w.sleepingcounted == 0 then inc32 w.taskcount else w.taskcount;
}

unfoldable pub uncount_sleeper : Ptr → World → World
uncount_sleeper t w = if (w.task t).system then w else record w {
  sleepingcounted = dec32 w.sleepingcounted;
  taskcount = if dec32 w.sleepingcounted == 0 then dec32 w.taskcount else w.taskcount;
}

-- `gettimeofday`: seconds and microseconds, or failure.
module _ (gettimeofday : ℕ → Option (ℕ × ℕ)) where
  unfoldable pub nsec : Cmd ℕ
  nsec w = elim (gettimeofday w.readings) [
    | none ↦ done (2 ^ 64 - 1) (record w { readings = w.readings + 1 })
    | some (sec, usec) ↦
        done ((sec * 1000000000 + usec * 1000) % 2 ^ 64) (record w { readings = w.readings + 1 })
  ]

-- `if(!startedfdtask){ … }`; `fdtask_fn` is the address of `fdtask`.
unfoldable pub start_fdtask : (sizeof_task fresh grown fdtask_fn : ℕ) → Cmd (Unit {0})
start_fdtask sizeof_task fresh grown fdtask_fn = do
  w ← get
  if w.startedfdtask then pure tt else do
    modify λ v. record v { startedfdtask = true }
    _ ← taskcreate sizeof_task fresh grown fdtask_fn 0 32768
    pure tt

unfoldable pub delay_at : Option Ptr → (when : ℕ) → Cmd (Unit {0})
delay_at none when = out_of_fuel
delay_at (some t) when = do
  modify (fall_asleep t when)
  modify λ w. count_sleeper w.taskrunning w
  taskswitch

unfoldable pub taskdelay :
    (gettimeofday : ℕ → Option (ℕ × ℕ)) (fuel sizeof_task fresh grown fdtask_fn ms : ℕ) → Cmd ℕ
taskdelay gettimeofday fuel sizeof_task fresh grown fdtask_fn ms = do
  start_fdtask sizeof_task fresh grown fdtask_fn
  now ← nsec gettimeofday
  let when = (now + ms * 1000000) % 2 ^ 64
  w ← get
  delay_at (first_later fuel w.task when w.sleeping.head) when
  later ← nsec gettimeofday
  pure ((later + (2 ^ 64 - now)) % 2 ^ 64 / 1000000 % 2 ^ 32)

-- The bits of `events` are the system's.
unfoldable pub fdwait :
    (pollin pollout sizeof_task fresh grown fdtask_fn fd rw : ℕ) → Cmd (Unit {0})
fdwait pollin pollout sizeof_task fresh grown fdtask_fn fd rw = do
  start_fdtask sizeof_task fresh grown fdtask_fn
  w ← get
  if leb 1024 w.npollfd then abort else do
    taskstate (
        if rw == 114
        then "fdwait for read"
        else (if rw == 119 then "fdwait for write" else "fdwait for error"))
    modify λ v. record v {
      polltask = update v.polltask v.npollfd v.taskrunning;
      pollfd = update v.pollfd v.npollfd (record {
        fd = fd;
        events = if rw == 114 then pollin else (if rw == 119 then pollout else 0);
        revents = 0;
      });
      npollfd = v.npollfd + 1;
    }
    taskswitch

-- ===== src/Fd/Poller.antt =====
-- `fdtask` of fd.c: the system task that polls, and wakes up those whose time or file has come.
use libtask_annotation.Base.{
  ℕ, zero, suc, ◌+◌, ◌-◌, ◌/◌, ◌%◌, ◌^◌, Ptr, Bool, Option, ◌&&◌, update, ltb, leb, ◌==◌,
  if◌then◌else◌,
}
use libtask_annotation.World.{World}
use libtask_annotation.Flow.{Cmd, out_of_fuel, pure, get, modify, ◌>>=◌, ◌>>◌}
use libtask_annotation.Tasklist.{deltask}
use libtask_annotation.Task.{taskready, taskstate, taskname, tasksystem, taskyield, taskexitall}
use libtask_annotation.Fd.{nsec, uncount_sleeper}

-- `deltask(&sleeping, t)`
unfoldable pub unsleep : Ptr → World → World
unsleep t w = let (m, l) = deltask w.task w.sleeping t in record w { task = m; sleeping = l }

-- The body of the last loop of `fdtask`, once `t` is the head of the list, and the loop.
unfoldable pub wake_due : (rest : Cmd (Unit {0})) → (now : ℕ) → (t : Ptr) → Cmd (Unit {0})
wake_due rest now t = do
  w ← get
  if t == 0
      then pure tt
      else (if leb (w.task t).alarmtime now
          then (do modify (unsleep t); modify (uncount_sleeper t); taskready t; rest)
          else pure tt)

unfoldable pub wake_sleepers : (fuel now : ℕ) → Cmd (Unit {0})
wake_sleepers zero now = out_of_fuel
wake_sleepers (suc fuel) now =
    let rest = wake_sleepers fuel now in do w ← get; wake_due rest now w.sleeping.head

-- The time that `poll` may take: an int, -1 for no limit.
unfoldable pub poll_ms : (now : ℕ) → World → ℕ
poll_ms now w =
    let t = (w.task w.sleeping.head).alarmtime in
    if leb t now
    then 0
    else (if leb t ((now + 5000000000) % 2 ^ 64) then (t - now) / 1000000 % 2 ^ 32 else 5000)

-- The entry of the last file takes the place of entry `i`.
unfoldable pub drop_fd : (i : ℕ) → World → World
drop_fd i w = record w {
  npollfd = w.npollfd - 1;
  pollfd = update w.pollfd i (w.pollfd (w.npollfd - 1));
  polltask = update w.polltask i (w.polltask (w.npollfd - 1));
}

-- The two loops over the files: each step makes a task ready or goes on to the next entry.
unfoldable pub wake_fds : (fuel i : ℕ) → Cmd (Unit {0})
wake_fds zero i = out_of_fuel
wake_fds (suc fuel) i =
    let again = wake_fds fuel i in
    let next = wake_fds fuel (i + 1) in
    do
      w ← get
      if ltb i w.npollfd
          then (if (w.pollfd i).revents == 0
              then next
              else (do taskready (w.polltask i); modify (drop_fd i); again))
          else pure tt

-- `while(taskyield() > 0) ;`
unfoldable pub yield_all : (fuel : ℕ) → Cmd (Unit {0})
yield_all zero = out_of_fuel
yield_all (suc fuel) =
    let rest = yield_all fuel in
    do n ← taskyield; if ltb 0 n && ltb n (2 ^ 31) then rest else pure tt

-- What `poll` answers: an error, which is `EINTR` or not, or the `revents` of each entry.
pub data Polled : Type 0 where
  failed : (eintr : Bool) → Polled
  events : (ℕ → ℕ) → Polled

module _ (gettimeofday : ℕ → Option (ℕ × ℕ)) (poll : ℕ → World → (ms : ℕ) → Polled) (fuel : ℕ) where
  unfoldable pub poll_time : Cmd ℕ
  poll_time = do
    w ← get
    if w.sleeping.head == 0
        then pure (2 ^ 32 - 1)
        else (do now ← nsec gettimeofday; v ← get; pure (poll_ms now v))

  -- What one round does with the answer of `poll`.
  unfoldable pub serve : Polled → Cmd (Unit {0})
  serve (failed eintr) = if eintr then pure tt else taskexitall 0
  serve (events f) = do
    modify λ w. record w {
      pollfd = λ i. if ltb i w.npollfd then record (w.pollfd i) { revents = f i } else w.pollfd i;
    }
    w ← get
    wake_fds fuel 0
    now ← nsec gettimeofday
    wake_sleepers fuel now

  unfoldable pub poll_round : Cmd (Unit {0})
  poll_round = do
    yield_all fuel
    taskstate "poll"
    ms ← poll_time
    w ← get
    modify λ v. record v { polls = v.polls + 1 }
    serve (poll w.polls w ms)

  -- `for(;;)`, for as many rounds as `n`.
  unfoldable pub poll_rounds : (n : ℕ) → Cmd (Unit {0})
  poll_rounds zero = out_of_fuel
  poll_rounds (suc n) = let rest = poll_rounds n in do poll_round; rest

  unfoldable pub fdtask : (rounds : ℕ) → Cmd (Unit {0})
  fdtask rounds = do tasksystem; taskname "fdtask"; poll_rounds rounds

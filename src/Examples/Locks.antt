-- ===== src/Examples/Locks.antt =====
-- The theorems on locks and on `Rendez`, applied.
use libtask_annotation.Base.{
  ◌++◌, ◌≡◌, ◌≢◌, refl, arith, true, [], ◌∷◌, ◌==◌, if◌then◌else◌, update,
}
use libtask_annotation.World.{World}
use libtask_annotation.Flow.{Returns, Switches, done, aborts}
use libtask_annotation.Task.{has_stack}
use libtask_annotation.Qlock.{qlock, qlock_core, qunlock}
use libtask_annotation.Qlock.Spec.{released, Lock}
use libtask_annotation.Qlock.Refine.{IsLock, qlock_core-queued, qunlock-released}
use libtask_annotation.Rendez.Sleep.{Guards, tasksleep-Guards}
use libtask_annotation.Rendez.{tasksleep, taskwakeupall}
use libtask_annotation.Rendez.Wakeup.{Sleeps, taskwakeupall-all}
use libtask_annotation.Examples.{linked, no_tasks, fresh_world}

-- The tasks 5 and 6 wait, 7 is ready and 9 runs.
abbrev pub waiting_tasks : World
waiting_tasks = record fresh_world {
  task = λ p. if p == 5 then linked 0 6 else (if p == 6 then linked 5 0 else linked 0 0);
  taskcount = 4;
  taskrunning = 9;
  taskrunqueue = record { head = 7; tail = 7 };
}

-- They wait for the lock 1, which 9 holds; the lock 2 is free.
abbrev held : World
held = record waiting_tasks {
  qlocks = λ l.
      if l == 1
      then record { owner = 9; waiting = record { head = 5; tail = 6 } }
      else record { owner = 0; waiting = no_tasks };
}

abbrev held_lock : Lock
held_lock = record { owner = 9; waiting = 5 ∷ 6 ∷ []; ready = 7 ∷ [] }

held-IsLock : IsLock held 1 held_lock
held-IsLock = record {
  owner = refl;
  waiting = record { chain = ground arith };
  ready = record { chain = ground arith };
  apart = λ a i. ground arith;
}

qunlock-released_example :
    Returns
      (λ _ v. IsLock v 1 (record { owner = 5; waiting = 6 ∷ []; ready = 7 ∷ 5 ∷ [] }))
      (qunlock 1 held)
qunlock-released_example = qunlock-released 1 held held_lock held-IsLock (ground arith)

-- The task 9 asks for the lock 1 while 8 holds it.
abbrev contested : World
contested = record held {
  qlocks = update held.qlocks 1 (record { owner = 8; waiting = record { head = 5; tail = 6 } });
}

contested-IsLock : IsLock contested 1 (record held_lock { owner = 8 })
contested-IsLock = record {
  owner = refl;
  waiting = record { chain = ground arith };
  ready = record { chain = ground arith };
  apart = λ a i. ground arith;
}

qlock_core-queued_example :
    Switches
      (λ v k.
        IsLock v 1 (record { owner = 8; waiting = 5 ∷ 6 ∷ 9 ∷ []; ready = 7 ∷ [] })
        × ((u : World) → (u.qlocks 1).owner ≡ u.taskrunning → k u ≡ done true u)
        × ((u : World) → (u.qlocks 1).owner ≢ u.taskrunning → k u ≡ aborts u))
      (qlock_core 1 true contested)
qlock_core-queued_example =
    qlock_core-queued 1 contested (record held_lock { owner = 8 }) contested-IsLock (ground arith)
      (ground arith) refl refl (unfold has_stack in refl)

-- The tasks 5 and 6 sleep.
abbrev sleeping : World
sleeping = record waiting_tasks {
  rendezs = λ _. record { l = 0; waiting = record { head = 5; tail = 6 } };
}

sleeping-Sleeps : Sleeps sleeping 1 (5 ∷ 6 ∷ []) (7 ∷ [])
sleeping-Sleeps = record {
  waiting = record { chain = ground arith };
  ready = record { chain = ground arith };
  apart = λ a i. ground arith;
}

taskwakeupall-all_example :
    Returns (λ n v. (n ≡ 2) × Sleeps v 1 [] (7 ∷ 5 ∷ 6 ∷ [])) (taskwakeupall 3 1 sleeping)
taskwakeupall-all_example =
    taskwakeupall-all 3 sleeping 1 (5 ∷ 6 ∷ []) (7 ∷ []) (omega arith) sleeping-Sleeps

-- The task 9 holds the lock 1, for which 5 and 6 wait, and goes to sleep on a condition variable.
abbrev guarding : World
guarding = record held { rendezs = λ _. record { l = 1; waiting = no_tasks } }

guarding-Guards : Guards guarding 2 held_lock []
guarding-Guards = record {
  lock = record {
    owner = refl;
    waiting = held-IsLock.waiting;
    ready = record { chain = ground arith };
    apart = held-IsLock.apart;
  };
  sleepers = record {
    waiting = record { chain = ground arith };
    ready = record { chain = ground arith };
    apart = λ a i. ground arith;
  };
  apart = λ a i. ground arith;
}

tasksleep-Guards_example :
    Switches
      (λ v k.
        Guards v 2 (released held_lock) ([] ++ 9 ∷ [])
        × ((u : World) → (u.rendezs 2).l ≢ 0 → k u ≡ qlock (u.rendezs 2).l u))
      (tasksleep 2 guarding)
tasksleep-Guards_example =
    tasksleep-Guards 2 guarding held_lock [] (ground arith) (ground arith) guarding-Guards
      (ground arith) (unfold has_stack in refl)

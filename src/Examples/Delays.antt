-- ===== src/Examples/Delays.antt =====
-- The theorems on the tasks that sleep in `taskdelay`, applied.
use libtask_annotation.Base.{◌≡◌, ◌==◌, refl, arith, [], ◌∷◌, if◌then◌else◌}
use libtask_annotation.World.{World}
use libtask_annotation.Flow.{Returns, Switches, done}
use libtask_annotation.Task.{has_stack}
use libtask_annotation.Fd.{first_later, delay_at}
use libtask_annotation.Fd.Delay.{Sleepers, Placed, delay_at-Placed}
use libtask_annotation.Fd.Poller.{wake_sleepers, wake_fds}
use libtask_annotation.Fd.Files.{Served, wake_fds-Served}
use libtask_annotation.Fd.Due.{Waits, IsDue, wake_sleepers-due}
use libtask_annotation.Examples.{linked, fresh_world}

-- The tasks 5 and 6 sleep until 10 and 30, 7 is ready and 9 runs.
abbrev two_asleep : World
two_asleep = record fresh_world {
  task = λ p.
      if p == 5
      then record (linked 0 6) { alarmtime = 10 }
      else (if p == 6 then record (linked 5 0) { alarmtime = 30 } else linked 0 0);
  taskrunning = 9;
  taskrunqueue = record { head = 7; tail = 7 };
  sleeping = record { head = 5; tail = 6 };
}

two_asleep-Sleepers : Sleepers two_asleep (5 ∷ 6 ∷ [])
two_asleep-Sleepers = record {
  queue = record { chain = ground arith };
  sorted = (λ a i. ground arith, (λ a i. ground arith, tt));
}

delay_at-Placed_example :
    Switches
      (λ v k. Placed v 9 20 (5 ∷ 6 ∷ []) × (k ≡ done tt))
      (delay_at (first_later 3 two_asleep.task 20 5) 20 two_asleep)
delay_at-Placed_example =
    delay_at-Placed 3 two_asleep 20 (5 ∷ 6 ∷ []) (omega arith) two_asleep-Sleepers (ground arith)
      refl (unfold has_stack in refl)

two_asleep-Waits : Waits two_asleep (5 ∷ 6 ∷ []) (7 ∷ [])
two_asleep-Waits = record {
  sleeping = record { chain = ground arith };
  ready = record { chain = ground arith };
  apart = λ a i. ground arith;
}

five-IsDue : IsDue two_asleep.task 20 (5 ∷ []) (6 ∷ [])
five-IsDue = record { due = λ a i. ground arith; later = λ a i. ground arith }

wake_sleepers-due_example :
    Returns (λ _ v. Waits v (6 ∷ []) (7 ∷ 5 ∷ [])) (wake_sleepers 2 20 two_asleep)
wake_sleepers-due_example =
    wake_sleepers-due 2 20 two_asleep (5 ∷ []) (6 ∷ []) (7 ∷ []) (omega arith) two_asleep-Waits
      five-IsDue

-- The tasks 5, 6 and 7 wait for files; those of 5 and 7 have events.
abbrev three_files : World
three_files = record fresh_world {
  pollfd = λ i. record { fd = i; events = 1; revents = if i == 1 then 0 else 1 };
  polltask = λ i. if i == 0 then 5 else (if i == 1 then 6 else 7);
  npollfd = 3;
}

wake_fds-Served_example : Returns (λ _ v. Served three_files v 0) (wake_fds 4 0 three_files)
wake_fds-Served_example = wake_fds-Served 4 three_files (omega arith)

-- ===== src/Examples.antt =====
-- Concrete states of the process, on which the theorems are applied.
mod Runs
mod Lists
mod Tasks
mod Locks
mod Rwlocks
mod Delays
mod Meeting
mod Contexts
mod Channels
mod Printing
mod Network
mod Relaying
mod Words
use libtask_annotation.Base.{ℕ, Ptr, false, [], ◌==◌, if◌then◌else◌}
use libtask_annotation.World.{Task, Tasklist, QLock, RwLock, Rendez, Alt, Altarray, Channel, World}
use libtask_annotation.Task.Create.{zeroed}

abbrev pub no_tasks : Tasklist
no_tasks = record { head = 0; tail = 0 }

-- A task with these links.
abbrev pub linked : (prev next : Ptr) → Task
linked p n = record zeroed { prev = p; next = n }

abbrev pub no_entries : Altarray
no_entries = record { a = λ _. 0; n = 0; m = 0 }

-- A channel at which four messages of two bytes fit; two are there, in slots 3 and 0.
abbrev pub wrapped : Channel
wrapped = record {
  bufsize = 4;
  elemsize = 2;
  buf = 100;
  nbuf = 2;
  off = 3;
  asend = no_entries;
  arecv = no_entries;
}

-- No task exists, and every byte holds its own address.
abbrev pub fresh_world : World
fresh_world = record {
  task = λ _. zeroed;
  taskcount = 0;
  tasknswitch = 0;
  taskexitval = 0;
  taskrunning = 0;
  taskrunqueue = no_tasks;
  alltask = λ _. 0;
  allcap = 0;
  nalltask = 0;
  taskidgen = 0;
  sp = 100000;
  qlocks = λ _. record { owner = 0; waiting = no_tasks };
  rwlocks = λ _. record { readers = 0; writer = 0; rwaiting = no_tasks; wwaiting = no_tasks };
  rendezs = λ _. record { l = 0; waiting = no_tasks };
  mem = λ a. a;
  chans = λ _. wrapped;
  alts = λ _. record { c = 1; v = 0; op = 0; task = 0; xalt = 0 };
  draws = 0;
  pollfd = λ _. record { fd = 0; events = 0; revents = 0 };
  polltask = λ _. 0;
  npollfd = 0;
  startedfdtask = false;
  sleeping = no_tasks;
  sleepingcounted = 0;
  readings = 0;
  polls = 0;
  calls = [];
  errno = 0;
}

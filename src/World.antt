-- ===== src/World.antt =====
-- The state of the process: the statics of task.c and fd.c, and the stores of the objects that the
-- functions of the library reach by pointers.
mod Structs
pub use Structs.*
use libtask_annotation.Base.{ℕ, Ptr, Bool, List}

pub record World : Type 0 where
  -- Every `Task`, by its pointer.
  pub task : Ptr → Task
  pub taskcount : ℕ
  pub tasknswitch : ℕ
  pub taskexitval : ℕ
  pub taskrunning : Ptr
  pub taskrunqueue : Tasklist
  pub alltask : ℕ → Ptr
  -- How many cells `alltask` has been allocated.
  pub allcap : ℕ
  pub nalltask : ℕ
  pub taskidgen : ℕ
  -- The address of a local variable of `needstack`: the machine's stack pointer.
  pub sp : ℕ
  pub qlocks : Ptr → QLock
  pub rwlocks : Ptr → RwLock
  pub rendezs : Ptr → Rendez
  -- The bytes that messages and channel buffers are made of.
  pub mem : ℕ → ℕ
  pub chans : Ptr → Channel
  pub alts : Ptr → Alt
  -- How often `rand` has been called.
  pub draws : ℕ
  pub pollfd : ℕ → Pollfd
  pub polltask : ℕ → Ptr
  pub npollfd : ℕ
  pub startedfdtask : Bool
  pub sleeping : Tasklist
  pub sleepingcounted : ℕ
  -- How often the clock has been read, and `poll` called.
  pub readings : ℕ
  pub polls : ℕ
  -- The calls of the system that have been made, the last one first, and `errno`.
  pub calls : List Call
  pub errno : ℕ

-- ===== src/World/Structs.antt =====
-- The structs of task.h and taskimpl.h, and the statics of task.c and fd.c.
-- `int` flags that only hold 0 and 1 are Booleans; `int` and `unsigned int` counters are the bit
-- patterns of `Base.Words`. Pointers to structs are keys of stores.
use libtask_annotation.Base.{ℕ, Ptr, Bool, String, List}

-- `struct Task`. The buffers `name` and `state` are the texts in them; `context` is machine state.
pub record Task : Type 0 where
  pub name : String
  pub state : String
  pub next : Ptr
  pub prev : Ptr
  pub allnext : Ptr
  pub allprev : Ptr
  pub alarmtime : ℕ
  pub id : ℕ
  pub stk : ℕ
  pub stksize : ℕ
  pub exiting : Bool
  pub alltaskslot : ℕ
  pub system : Bool
  pub ready : Bool
  pub startfn : ℕ
  pub startarg : ℕ
  pub udata : Ptr

-- `struct Tasklist`
pub record Tasklist : Type 0 where
  pub head : Ptr
  pub tail : Ptr

-- `struct QLock`
pub record QLock : Type 0 where
  pub owner : Ptr
  pub waiting : Tasklist

-- `struct RWLock`
pub record RwLock : Type 0 where
  pub readers : ℕ
  pub writer : Ptr
  pub rwaiting : Tasklist
  pub wwaiting : Tasklist

-- `struct Rendez`
pub record Rendez : Type 0 where
  pub l : Ptr
  pub waiting : Tasklist

-- `struct Alt`; `v` is an address of bytes.
pub record Alt : Type 0 where
  pub c : Ptr
  pub v : ℕ
  pub op : ℕ
  pub task : Ptr
  pub xalt : Ptr

-- `struct Altarray`: `a` is the array, of which `m` cells are allocated.
pub record Altarray : Type 0 where
  pub a : ℕ → Ptr
  pub n : ℕ
  pub m : ℕ

-- `struct Channel`; `buf` is an address of bytes.
pub record Channel : Type 0 where
  pub bufsize : ℕ
  pub elemsize : ℕ
  pub buf : ℕ
  pub nbuf : ℕ
  pub off : ℕ
  pub asend : Altarray
  pub arecv : Altarray

-- `struct pollfd` of the system, as far as fd.c uses it.
pub record Pollfd : Type 0 where
  pub fd : ℕ
  pub events : ℕ
  pub revents : ℕ

-- The calls of the system that fd.c and net.c make, on file descriptors.
pub data Call : Type 0 where
  read write : (fd buf n : ℕ) → Call
  getfl : (fd : ℕ) → Call
  setfl : (fd flags : ℕ) → Call
  socket : (tcp : Bool) → Call
  bind : (fd ip port : ℕ) → Call
  listen : (fd n : ℕ) → Call
  accept : (fd : ℕ) → Call
  connect : (fd ip port : ℕ) → Call
  getpeername : (fd : ℕ) → Call
  getsockopt : (fd level option : ℕ) → Call
  setsockopt : (fd level option value : ℕ) → Call
  close : (fd : ℕ) → Call
  shutdown : (fd how : ℕ) → Call
  gethostbyname : (name : List ℕ) → Call

-- ===== src/Lib.antt =====
-- libtask: tasks (coroutines) that give up the processor by themselves, and the locks, condition
-- variables and channels by which they wait for each other.
--
-- The parts of the program, and the modules that model them:
--   task.h, taskimpl.h   the structs, and the statics of task.c: World and World/Structs. Pointers
--                        are keys of stores, so that an object that two parts share is one object.
--   task.c, its end      addtask and deltask: Tasklist. Tasklist/Seg and Tasklist/Links say what list
--                        the links stand for; Tasklist/Delete and Tasklist/Frame what deltask does to
--                        its list and to others.
--   task.c               taskready, taskswitch, taskyield, taskexit, needstack and the like: Task.
--                        taskalloc, taskcreate and the end of a task: Task/Create; the array alltask:
--                        Task/Slots. What taskinfo prints, and the like: Task/Info. How a pointer
--                        reaches a new context: Task/Pointer.
--                        taskstart, taskscheduler and main: Sched, Sched/Fifo; that every ready
--                        task has its turn: Sched/Turns.
--   qlock.c              QLock: Qlock. Qlock/Spec is what a lock promises, Qlock/Refine relates the
--                        functions to it, and Qlock/Frame says what qunlock leaves as it is.
--                        Qlock/Runs is a process whose tasks use a lock, by the functions of qlock.c
--                        and schedule of Sched; Qlock/Outcomes, Qlock/Keeps and
--                        Qlock/Resumed show that it keeps to the steps of Qlock/Protocol, on what the
--                        lock promises, and what becomes of the tasks that wait. RWLock: Rwlock; Rwlock/Take and
--                        Rwlock/Handover relate its functions to what the lock stands for, on
--                        which Rwlock/Exclusive has steps; Rwlock/Uses is a process whose tasks use a
--                        lock by the functions of qlock.c.
--   rendez.c             Rendez; tasksleep and its lock: Rendez/Sleep; Rendez/Wakeup.
--   channel.c            altcanexec, altqueue, altdequeue, altcopy: Channel, over Channel/Bytes and
--                        Channel/Array. chancreate: Channel/Create. altexec, chanalt and _chanop:
--                        Channel/Alts. The ring of the buffer as a list of messages: Channel/Fifo;
--                        what altcopy does to it: Channel/Transfer, Channel/Copy. The arrays of waiting operations:
--                        Channel/Entries; who waits at which channel, and how whole arrays of Alts
--                        are queued and taken out: Channel/Waiting, Channel/Leaving,
--                        Channel/Joining, Channel/Parting. How chanalt picks: Channel/Select; how it
--                        waits: Channel/Parking; how altexec meets a task that waits: Channel/Copied,
--                        Channel/Meeting, Channel/Exec, and from the wait to the return:
--                        Channel/Rendezvous. The operations of one channel: Channel/Ops. The
--                        functions that send longs and pointers: Channel/Longs, Channel/Words.
--   fd.c                 taskdelay and fdwait: Fd. fdtask: Fd/Poller. The sorted list of the tasks that
--                        sleep: Fd/Insert, Fd/Order, Fd/Delay; how it is served: Fd/Due. The
--                        loops over the files: Fd/Files.
--   fd.c, its end        fdread, fdread1, fdwrite, fdnoblock, and the oracle that answers calls of the
--                        system: Fd/Io. Calls and waits as parts of other functions: Fd/Wait; what
--                        fdwrite writes: Fd/Write.
--   print.c              Print; the text of a number: Print/Number, and its value: Print/Digits. The
--                        bytes that a field takes: Print/Buffer; the text that a format stands for:
--                        Print/Render; that the buffer is never overrun: Print/Bounds.
--   net.c                parseip: Net/Parseip over Net/Strtoul (strtoul of the C library). The other
--                        functions: Net/Dial. Addresses as text: Net/Decimal, Net/RoundTrip. What
--                        becomes of the sockets: Net/Sockets.
--   context.c            makecontext: Context, and Context/Amd64, X86, Arm, Mips and Power, with the
--                        structs of the ucontext headers; where a new context starts: Context/Entry.
--   asm.S                getmcontext and setmcontext of amd64: Context/Asm; how a context comes back:
--                        Context/Resume. taskalloc, makecontext and setmcontext together:
--                        Context/Start.
--   tcpproxy.c           Proxy, a program on the library; what its tasks read and write: Proxy/Relay.
-- Examples has concrete states of the process, on which the theorems are applied.
-- The locks, Rendez and channels put the running task in a list of their own by addtask, call
-- taskswitch, and make tasks ready by taskready when it is their turn; the scheduler takes tasks
-- from the run queue only.
--
-- The functions keep the names of the source; _qlock, _rlock, _wlock, _taskwakeup and _chanop are
-- qlock_core, rlock_core, wlock_core, wakeup and chanop. Code that may switch is a Flow (Flow.antt):
-- it returns, or gives up the processor and goes on later in any state, or ends the process. A
-- function that also changes a list in the source is a step on the World in the model. Counters of
-- type int or unsigned int that the source may wrap are numbers below 2 ^ 32 with the wrap-around
-- written out (Base/Words); nalltask, alltaskslot, npollfd and the
-- sizes and counts of print.c and fdwrite are plain numbers.
--
-- Bounds and fuel: the loops of wunlock, taskwakeup and taskwakeupall take fuel, and one more than
-- the tasks that wait is enough. The loops over an array of Alts take fuel for its length. The loop
-- of taskscheduler and that of fdtask have no end of their own, and their fuel is the number of
-- rounds. The loops of fd.c over the tasks that sleep take fuel for each of them and one more.
--
-- The loop of rwtask takes fuel for each time the other end sends, and one more; that of tcpproxy's
-- taskmain has no end of its own.
-- The loops of fdread, fdread1 and fdwrite have as many rounds as the system answers EAGAIN, or takes
-- less than all; their fuel is the number of rounds. The digits of a number take 64 rounds, which is
-- enough for 64 bits in base 2 and above. vfprint looks for the NUL in the 256 bytes of its buffer.
--
-- Parameters: malloc and realloc (the addresses that they return), rand (its draws), gettimeofday
-- and poll (their answers), the other calls of the system and of the resolver (an oracle that answers
-- by all the calls before, Fd/Io), the text of strerror(errno), what lies on the stack where the code
-- reads a variable that it has not written, and the code that the tasks run. taskstate and taskname
-- are given the text that their format makes.
--
-- Not modelled: swapcontext and the assembly of machines other than amd64, chanfree (it only hands
-- memory back), the handlers of signals, the printing of messages before abort and exit, and the
-- example programs but for tcpproxy.
pub mod Base
pub mod World
pub mod Flow
pub mod Tasklist
pub mod Task
pub mod Sched
pub mod Qlock
pub mod Channel
pub mod Context
pub mod Rendez
pub mod Rwlock
pub mod Fd
pub mod Print
pub mod Net
pub mod Proxy
pub mod Examples

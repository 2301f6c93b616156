-- ===== src/Proxy.antt =====
-- tcpproxy.c: a program on the library, which joins two connections by two tasks.
pub mod Relay
use libtask_annotation.Base.{
  ℕ, zero, suc, ◌+◌, ◌*◌, ◌/◌, ◌%◌, ◌^◌, Ptr, true, Option, none, some, not, Text, List, [], ◌∷◌,
  ◌==◌, if◌then◌else◌,
}
use libtask_annotation.World.{read, shutdown, close}
use libtask_annotation.Flow.{Cmd, abort, exit, out_of_fuel, pure, get, modify, ◌>>=◌, ◌>>◌}
use libtask_annotation.Print.{put}
use libtask_annotation.Fd.Io.{Reply, fails, gives, Os, ask, fdread, fdwrite, fdnoblock}
use libtask_annotation.Task.Create.{taskcreate}
use libtask_annotation.Net.Parseip.{Ip}
use libtask_annotation.Net.Dial.{netannounce, netaccept, netdial}

-- An int, as its four bytes.
abbrev pub int_bytes : ℕ → List ℕ
int_bytes x = x % 256 ∷ x / 256 % 256 ∷ x / 256 ^ 2 % 256 ∷ x / 256 ^ 3 % 256 ∷ []

unfoldable pub int_at : (ℕ → ℕ) → (a : ℕ) → ℕ
int_at m a = m a + 256 * m (a + 1) + 256 ^ 2 * m (a + 2) + 256 ^ 3 * m (a + 3)

-- `fresh` is what `malloc` returns.
unfoldable pub mkfd2 : (fresh fd1 fd2 : ℕ) → Cmd Ptr
mkfd2 fresh fd1 fd2 = if fresh == 0 then abort else do
  modify λ w. record w { mem = put (put w.mem fresh (int_bytes fd1)) (fresh + 4) (int_bytes fd2) }
  pure fresh

module _ (os : Os) (shut_wr : ℕ) where
  -- What the loop of `rwtask` does with the answer of `fdread`; `tries` bounds the loops of the
  -- library.
  unfoldable pub pass_on : (tries wfd buf : ℕ) → (rest : Cmd (Unit {0})) → Reply → Cmd (Unit {0})
  pass_on tries wfd buf rest (fails e) = pure tt
  pass_on tries wfd buf rest (gives n) =
      if n == 0 then pure tt else (do fdwrite os (suc n) tries wfd buf n; rest)

  -- The loop of `rwtask`.
  unfoldable pub relay : (fuel tries rfd wfd buf : ℕ) → Cmd (Unit {0})
  relay zero tries rfd wfd buf = out_of_fuel
  relay (suc fuel) tries rfd wfd buf =
      let rest = relay fuel tries rfd wfd buf in
      do n ← fdread os tries rfd buf 2048; pass_on tries wfd buf rest n

  -- `rwtask`, with its buffer at `buf`.
  unfoldable pub rwtask : (fuel tries buf a : ℕ) → Cmd (Unit {0})
  rwtask fuel tries buf a = do
    w ← get
    relay fuel tries (int_at w.mem a) (int_at w.mem (a + 4)) buf
    ask os (shutdown (int_at w.mem (a + 4)) shut_wr)
    ask os (close (int_at w.mem a))
    pure tt

-- The addresses that `malloc` and `realloc` return in the course of the program, by the number of
-- the call, and the addresses of its functions.
pub record Heap : Type 0 where
  pub pairs : ℕ → ℕ
  pub tasks : ℕ → ℕ
  pub grown : ℕ → ℕ
  pub rwtask_fn : ℕ
  pub proxytask_fn : ℕ

-- `STACK`
abbrev stack : ℕ
stack = 32768

-- The two tasks of a connection, the calls of `malloc` counted from `i`.
unfoldable pub join : Os → Heap → (i fd remotefd : ℕ) → Cmd (Unit {0})
join os heap i fd remotefd = do
  a ← mkfd2 (heap.pairs i) fd remotefd
  taskcreate os.sizeof_task (heap.tasks i) (heap.grown i) heap.rwtask_fn a stack
  b ← mkfd2 (heap.pairs (i + 1)) remotefd fd
  taskcreate os.sizeof_task (heap.tasks (i + 1)) (heap.grown (i + 1)) heap.rwtask_fn b stack
  pure tt

module _ (os : Os) (heap : Heap) (junk : Ip) (stale : ℕ) (server : Text) (port : ℕ) where
  -- `proxytask`; its argument is the connection, as an int.
  unfoldable pub proxytask : (i v : ℕ) → Cmd (Unit {0})
  proxytask i v = do
    remotefd ← netdial os junk stale true server port
    elim remotefd [
      | none ↦ (do ask os (close (v % 2 ^ 32)); pure tt)
      | some fd ↦ join os heap i (v % 2 ^ 32) fd
    ]

-- The loop of `taskmain`: the address and the port of the other end go to `remote` and `rport`.
unfoldable pub accept_loop :
    Os → Heap → (errstr : Text) → (fuel i fd remote rport : ℕ) → Cmd (Unit {0})
accept_loop os heap errstr zero i fd remote rport = out_of_fuel
accept_loop os heap errstr (suc fuel) i fd remote rport =
    let rest = accept_loop os heap errstr fuel (i + 1) fd remote rport in
    do
      cfd ← netaccept os errstr fd remote rport
      elim cfd [
        | none ↦ pure tt
        | some c ↦ (do
          taskcreate os.sizeof_task (heap.tasks i) (heap.grown i) heap.proxytask_fn c stack
          rest)
      ]

-- `taskmain`, given the number that `atoi` makes of its first argument.
unfoldable pub taskmain :
    Os
    → Heap
    → (errstr : Text) → (junk : Ip) → (fuel argc localport remote rport : ℕ) → Cmd (Unit {0})
taskmain os heap errstr junk fuel argc localport remote rport =
    if not (argc == 4) then exit 1 else do
      fd ← netannounce os junk true none localport
      elim fd [
        | none ↦ exit 1
        | some fd ↦ (do fdnoblock os fd; accept_loop os heap errstr fuel 0 fd remote rport)
      ]

-- ===== src/Fd/Io.antt =====
-- The functions of fd.c that read and write. The system is an oracle: what a call answers may depend
-- on all calls before it.
use libtask_annotation.Base.{ℕ, zero, suc, ◌+◌, ◌-◌, ◌^◌, List, ◌∷◌, ltb, ◌==◌, if◌then◌else◌}
use Prim.Native.Nat.{bit_or}
use libtask_annotation.World.{Call, read, write, getfl, setfl}
use libtask_annotation.Flow.{Cmd, out_of_fuel, done, pure, ◌>>=◌, ◌>>◌}
use libtask_annotation.Fd.{fdwait}

-- The answer to a call: -1 with `errno`, or a number.
pub data Reply : Type 0 where
  fails : (errno : ℕ) → Reply
  gives : ℕ → Reply

-- What the system answers, the constants that the source names, and what `fdwait` needs to start
-- `fdtask`.
pub record Os : Type 0 where
  pub answer : List Call → Reply
  -- The address and the port, as they lie in memory, that the call of `accept` has filled in.
  pub peer_ip : List Call → ℕ
  pub peer_port : List Call → ℕ
  pub eagain : ℕ
  pub einprogress : ℕ
  pub econnrefused : ℕ
  pub sol_socket : ℕ
  pub ipproto_tcp : ℕ
  pub so_type : ℕ
  pub so_reuseaddr : ℕ
  pub so_broadcast : ℕ
  pub so_error : ℕ
  pub tcp_nodelay : ℕ
  pub nonblock : ℕ
  pub pollin : ℕ
  pub pollout : ℕ
  pub sizeof_task : ℕ
  pub fresh : ℕ
  pub grown : ℕ
  pub fdtask_fn : ℕ

-- The answer `r` to the call `c`.
unfoldable pub note : Call → (r : Reply) → Cmd Reply
note c (fails e) w = done (fails e) (record w { calls = c ∷ w.calls; errno = e })
note c (gives n) w = done (gives n) (record w { calls = c ∷ w.calls })

module _ (os : Os) where
  -- A call is noted, and answered.
  unfoldable pub ask : Call → Cmd Reply
  ask c w = note c (os.answer (c ∷ w.calls)) w

  unfoldable pub wait_for : (fd rw : ℕ) → Cmd (Unit {0})
  wait_for fd rw = fdwait os.pollin os.pollout os.sizeof_task os.fresh os.grown os.fdtask_fn fd rw

  -- What a loop does with the answer of `read` or `write`: `EAGAIN` means to wait and try again.
  unfoldable pub retry : (fd rw : ℕ) → (again : Cmd Reply) → Reply → Cmd Reply
  retry fd rw again (gives m) = pure (gives m)
  retry fd rw again (fails e) =
      if e == os.eagain then (do wait_for fd rw; again) else pure (fails e)

  unfoldable pub fdread : (fuel fd buf n : ℕ) → Cmd Reply
  fdread zero fd buf n = out_of_fuel
  fdread (suc fuel) fd buf n =
      let again = fdread fuel fd buf n in do m ← ask (read fd buf n); retry fd b'r' again m

  -- `do fdwait(fd, 'r'); while(…)`
  unfoldable pub fdread1 : (fuel fd buf n : ℕ) → Cmd Reply
  fdread1 fuel fd buf n = do wait_for fd b'r'; fdread fuel fd buf n

  -- The inner loop of `fdwrite`.
  unfoldable pub write_some : (fuel fd buf n : ℕ) → Cmd Reply
  write_some zero fd buf n = out_of_fuel
  write_some (suc fuel) fd buf n =
      let again = write_some fuel fd buf n in do m ← ask (write fd buf n); retry fd b'w' again m

  -- What the outer loop does once `m` bytes are written.
  unfoldable pub wrote : (rest : ℕ → Cmd Reply) → (tot : ℕ) → Reply → Cmd Reply
  wrote rest tot (fails e) = pure (fails e)
  wrote rest tot (gives m) = if m == 0 then pure (gives tot) else rest (tot + m)

  -- The outer loop, with `tot` bytes written; `tries` bounds the inner loop.
  unfoldable pub write_from : (fuel tries fd buf n tot : ℕ) → Cmd Reply
  write_from zero tries fd buf n tot = out_of_fuel
  write_from (suc fuel) tries fd buf n tot =
      let rest = write_from fuel tries fd buf n in
      if ltb tot n
      then (do m ← write_some tries fd (buf + tot) (n - tot); wrote rest tot m)
      else pure (gives tot)

  unfoldable pub fdwrite : (fuel tries fd buf n : ℕ) → Cmd Reply
  fdwrite fuel tries fd buf n = write_from fuel tries fd buf n 0

  -- `fcntl(fd, F_GETFL)|O_NONBLOCK`; -1 has all bits.
  unfoldable pub flags_of : Reply → ℕ
  flags_of (fails _) = 2 ^ 32 - 1
  flags_of (gives n) = bit_or n os.nonblock

  -- `fcntl(fd, F_SETFL, fcntl(fd, F_GETFL)|O_NONBLOCK)`
  unfoldable pub fdnoblock : (fd : ℕ) → Cmd Reply
  fdnoblock fd = do flags ← ask (getfl fd); ask (setfl fd (flags_of flags))

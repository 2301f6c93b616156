-- ===== src/Net/Dial.antt =====
-- The functions of net.c that look up names, dial, listen and accept. The calls of the system and of
-- the resolver are those of Fd/Io; 32-bit words lie in memory with the low byte first.
use libtask_annotation.Base.{
  ℕ, ◌+◌, ◌*◌, ◌/◌, ◌%◌, ◌^◌, Bool, true, false, not, Option, none, some, List, [], ◌∷◌, ◌==◌,
  if◌then◌else◌, String, Text, codes,
}
use libtask_annotation.World.{
  socket, bind, listen, accept, connect, getpeername, getsockopt, setsockopt, close, gethostbyname,
}
use libtask_annotation.Flow.{Cmd, abort, out_of_fuel, pure, get, modify, ◌>>=◌, ◌>>◌}
use libtask_annotation.Task.{taskstate}
use libtask_annotation.Fd.Io.{Reply, fails, gives, Os, ask, wait_for, fdnoblock}
use libtask_annotation.Print.{Arg, word, Printed, printed, asserts, undefined, put, snprint}
use libtask_annotation.Net.Parseip.{Ip, parseip}

-- `*(uint32_t*)addr`, and the bytes of such a word.
unfoldable pub ip_word : Ip → ℕ
ip_word ip = ip.b0 + 256 * ip.b1 + 256 ^ 2 * ip.b2 + 256 ^ 3 * ip.b3

unfoldable pub ip_bytes : ℕ → Ip
ip_bytes a = record {
  b0 = a % 256;
  b1 = a / 256 % 256;
  b2 = a / 256 ^ 2 % 256;
  b3 = a / 256 ^ 3 % 256;
}

-- `htons`, which is also `ntohs`: the two low bytes, swapped.
unfoldable pub htons : ℕ → ℕ
htons x = x % 256 * 256 + x / 256 % 256

-- The name stands for any address.
unfoldable pub is_star : Text → Bool
is_star (c ∷ []) = c == b'*'
is_star _ = false

abbrev pub ip_format : Text
ip_format = codes "%d.%d.%d.%d"

abbrev pub ip_args : Ip → List Arg
ip_args ip = word ip.b0 ∷ word ip.b1 ∷ word ip.b2 ∷ word ip.b3 ∷ []

-- What the code does with the memory that a print leaves.
unfoldable pub keep : Printed → Cmd (Unit {0})
keep (printed m) = modify λ w. record w { mem = m }
keep asserts = abort
keep undefined = out_of_fuel

-- `if(port) *port = ntohs(sa.sin_port);` on the memory.
unfoldable pub with_port : (port net : ℕ) → (ℕ → ℕ) → ℕ → ℕ
with_port port net m =
    if port == 0 then m else put m port (htons net % 256 ∷ htons net / 256 ∷ 0 ∷ 0 ∷ [])

-- The text that the state is set to, and -1.
unfoldable pub give_up : String → Cmd (Option ℕ)
give_up text = do taskstate text; pure none

module _ (os : Os) where
  -- `close(fd)` on the way out.
  unfoldable pub close_failed : String → (fd : ℕ) → Cmd (Option ℕ)
  close_failed text fd = do taskstate text; ask os (close fd); pure none

  -- The address of `name`; `junk` is what the stack holds.
  unfoldable pub netlookup : (junk : Ip) → (name : Text) → Cmd (Option ℕ)
  netlookup junk name = elim (parseip junk name) [
    | some ip ↦ pure (some (ip_word ip))
    | none ↦ do
      taskstate "netlookup"
      he ← ask os (gethostbyname name)
      elim he [
        | gives a ↦ do taskstate "netlookup succeeded"; pure (some a)
        | fails _ ↦ give_up "netlookup failed"
      ]
  ]

  -- The option that lets a port be used again, for a socket that says its type.
  unfoldable pub reuse_typed : (fd : ℕ) → Reply → Cmd (Unit {0})
  reuse_typed fd (fails _) = pure tt
  reuse_typed fd (gives _) = do ask os (setsockopt fd os.sol_socket os.so_reuseaddr 1); pure tt

  unfoldable pub reuse : (fd : ℕ) → Cmd (Unit {0})
  reuse fd = do n ← ask os (getsockopt fd os.sol_socket os.so_type); reuse_typed fd n

  unfoldable pub listen_to : (fd : ℕ) → Cmd (Unit {0})
  listen_to fd = do ask os (listen fd 16); pure tt

  -- `netannounce`, once `bind` has answered.
  unfoldable pub bound : (istcp : Bool) → (fd : ℕ) → Reply → Cmd (Option ℕ)
  bound istcp fd (fails _) = close_failed "bind failed" fd
  bound istcp fd (gives _) = do
    (if istcp then listen_to fd else pure tt)
    fdnoblock os fd
    taskstate "netannounce succeeded"
    pure (some fd)

  -- `netannounce`, once `socket` has answered.
  unfoldable pub announce_on : (istcp : Bool) → (ip port : ℕ) → Reply → Cmd (Option ℕ)
  announce_on istcp ip port (fails _) = give_up "socket failed"
  announce_on istcp ip port (gives fd) = do
    (if istcp then reuse fd else pure tt)
    b ← ask os (bind fd ip (htons port))
    bound istcp fd b

  -- `netannounce`, once the address is known.
  unfoldable pub announce_at : (istcp : Bool) → (ip port : ℕ) → Cmd (Option ℕ)
  announce_at istcp ip port = do s ← ask os (socket istcp); announce_on istcp ip port s

  -- No server, or a star, stands for the address 0.
  unfoldable pub netannounce :
      (junk : Ip) → (istcp : Bool) → (server : Option Text) → (port : ℕ) → Cmd (Option ℕ)
  netannounce junk istcp none port = do taskstate "netannounce"; announce_at istcp 0 port
  netannounce junk istcp (some name) port = do
    taskstate "netannounce"
    if is_star name then announce_at istcp 0 port else do
      found ← netlookup junk name
      elim found [ none ↦ give_up "netlookup failed" | some ip ↦ announce_at istcp ip port ]

  -- `netaccept`, once `accept` has answered.
  unfoldable pub accepted : (errstr : Text) → (server port : ℕ) → Reply → Cmd (Option ℕ)
  accepted errstr server port (fails _) = give_up "accept failed"
  accepted errstr server port (gives cfd) = do
    w ← get
    (if server == 0
        then pure tt
        else keep
            (snprint errstr w.mem server 16 ip_format (ip_args (ip_bytes (os.peer_ip w.calls)))))
    modify λ v. record v { mem = with_port port (os.peer_port w.calls) v.mem }
    fdnoblock os cfd
    ask os (setsockopt cfd os.ipproto_tcp os.tcp_nodelay 1)
    taskstate "netaccept succeeded"
    pure (some cfd)

  -- `server` and `port` are addresses, or nil.
  unfoldable pub netaccept : (errstr : Text) → (fd server port : ℕ) → Cmd (Option ℕ)
  netaccept errstr fd server port = do
    wait_for os fd b'r'
    taskstate "netaccept"
    c ← ask os (accept fd)
    accepted errstr server port c

  -- Whether `connect` leaves no connection that could still come up.
  unfoldable pub refused : Reply → Bool
  refused (gives _) = false
  refused (fails e) = not (e == os.einprogress)

  -- The error of the connection: `n`, where `getsockopt` writes it, with `junk` in it before.
  unfoldable pub error_of : (junk : ℕ) → Reply → ℕ
  error_of junk (gives e) = if e == 0 then os.econnrefused else e
  error_of junk (fails _) = if junk == 0 then os.econnrefused else junk

  -- `netdial`, once `getpeername` has answered.
  unfoldable pub at_peer : (junk fd : ℕ) → Reply → Cmd (Option ℕ)
  at_peer junk fd (gives _) = do taskstate "connect succeeded"; pure (some fd)
  at_peer junk fd (fails _) = do
    e ← ask os (getsockopt fd os.sol_socket os.so_error)
    ask os (close fd)
    taskstate "connect failed"
    modify λ w. record w { errno = error_of junk e }
    pure none

  -- `netdial`, once the socket is writable.
  unfoldable pub connected : (junk fd : ℕ) → Cmd (Option ℕ)
  connected junk fd = do peer ← ask os (getpeername fd); at_peer junk fd peer

  -- The option for udp.
  unfoldable pub broadcast : (istcp : Bool) → (fd : ℕ) → Cmd (Unit {0})
  broadcast true fd = pure tt
  broadcast false fd = do ask os (setsockopt fd os.sol_socket os.so_broadcast 1); pure tt

  -- `netdial`, once `socket` has answered.
  unfoldable pub dial_on : (stale : ℕ) → (istcp : Bool) → (ip port : ℕ) → Reply → Cmd (Option ℕ)
  dial_on stale istcp ip port (fails _) = give_up "socket failed"
  dial_on stale istcp ip port (gives fd) = do
    fdnoblock os fd
    broadcast istcp fd
    c ← ask os (connect fd ip (htons port))
    if refused c
        then close_failed "connect failed" fd
        else do wait_for os fd b'w'; connected (if istcp then stale else 1) fd

  -- `netdial`, once the name is looked up.
  unfoldable pub dial_at : (stale : ℕ) → (istcp : Bool) → (port : ℕ) → Option ℕ → Cmd (Option ℕ)
  dial_at stale istcp port none = pure none
  dial_at stale istcp port (some ip) = do
    taskstate "netdial"
    s ← ask os (socket istcp)
    dial_on stale istcp ip port s

  -- `stale` is what the stack holds where `netdial` keeps `n`.
  unfoldable pub netdial :
      (junk : Ip) → (stale : ℕ) → (istcp : Bool) → (server : Text) → (port : ℕ) → Cmd (Option ℕ)
  netdial junk stale istcp server port = do
    found ← netlookup junk server
    dial_at stale istcp port found

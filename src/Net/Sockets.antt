-- ===== src/Net/Sockets.antt =====
-- What the functions of net.c do with the sockets that they open.
use libtask_annotation.Base.{
  ℕ, ◌≤◌, ◌<◌, ◌≡◌, ◌≢◌, ◌⊎◌, inl, inr, ◌/◌, ◌%◌, Bool-cases, refl, ap, ap₂, sym, subst, ◌∙◌, Bool,
  true, false, Option, none, some, List, [], ◌∷◌, ◌++◌, ◌==◌, if◌then◌else◌, String, Text, arith,
  length,
}
use libtask_annotation.World.{
  Call, socket, bind, listen, accept, connect, getpeername, getsockopt, setsockopt, close, getfl,
  setfl, World,
}
use libtask_annotation.Flow.{Cmd, done, pure, ◌>>◌, Ends, Ends-bind, if-Ends}
use libtask_annotation.Task.{taskstate, with_state}
use libtask_annotation.Fd.Io.{Reply, fails, gives, Os}
use libtask_annotation.Fd.Wait.{ask-Ends, told-Ends, wait_for-Ends, Nonblocking, fdnoblock-Ends}
use libtask_annotation.Print.{put}
use libtask_annotation.Net.Parseip.{Ip, parseip}
use libtask_annotation.Net.Dial.{
  ip_word, ip_bytes, htons, is_star, keep, with_port, give_up, close_failed, netlookup, reuse_typed,
  reuse, listen_to, announce_at, bound, announce_on, netannounce, accepted, netaccept, refused,
  at_peer, connected, broadcast, dial_on, dial_at, netdial,
}
use libtask_annotation.Net.RoundTrip.{IsIp, dotted, parseip-dotted, length-dotted, snprint-dotted}

-- What `netdial` leaves of its socket `fd`: a connection whose other end is known, or nothing.
abbrev pub Dialled : (os : Os) → (fd : ℕ) → Option ℕ → World → Type 0
Dialled os fd (some x) w =
    (n : ℕ) × (cs : List Call) × (x ≡ fd)
    × (w.calls ≡ getpeername fd ∷ cs)
    × (os.answer w.calls ≡ gives n)
Dialled os fd none w = (cs : List Call) × (w.calls ≡ close fd ∷ cs)

module _ (os : Os) (fd : ℕ) where
  close_failed-Dialled :
      (text : String) (w : World) → Ends (Dialled os fd) (close_failed os text fd w)
  unfolding close_failed taskstate with_state
  close_failed-Dialled text w =
      ask-Ends os (Dialled os fd) (close fd) (λ _. pure none) (with_state text w)
        (λ r v e a m. (w.calls, e))

  at_peer-Dialled :
      (junk : ℕ) (cs : List Call) (r : Reply) (w : World)
      → w.calls ≡ getpeername fd ∷ cs
      → os.answer w.calls ≡ r
      → Ends (Dialled os fd) (at_peer os junk fd r w)
  unfolding at_peer taskstate with_state
  at_peer-Dialled junk cs (gives x) w noted said = (x, cs, refl, noted, said)
  at_peer-Dialled junk cs (fails x) w noted said =
      ask-Ends os (Dialled os fd) (getsockopt fd os.sol_socket os.so_error) _ w
        (λ e v ev sv mv. ask-Ends os (Dialled os fd) (close fd) _ v (λ d u eu su mu. (v.calls, eu)))

  connected-Dialled : (junk : ℕ) (w : World) → Ends (Dialled os fd) (connected os junk fd w)
  unfolding connected
  connected-Dialled junk w =
      ask-Ends os (Dialled os fd) (getpeername fd) (at_peer os junk fd) w
        (λ r v e a m. at_peer-Dialled junk w.calls r v e (ap os.answer e ∙ a))

  broadcast-Ends :
      (istcp : Bool) (f : Cmd (Option ℕ)) (w : World)
      → ((v : World) → Ends (Dialled os fd) (f v))
      → Ends (Dialled os fd) ((broadcast os istcp fd >> f) w)
  unfolding broadcast
  broadcast-Ends true f w next = next w
  broadcast-Ends false f w next =
      told-Ends os (Dialled os fd) (setsockopt fd os.sol_socket os.so_broadcast 1) f w
        (λ v e m. next v)

  dial_on-Dialled :
      (stale : ℕ) (istcp : Bool) (ip port : ℕ) (w : World)
      → Ends (Dialled os fd) (dial_on os stale istcp ip port (gives fd) w)
  unfolding dial_on
  dial_on-Dialled stale istcp ip port w =
      fdnoblock-Ends os (Dialled os fd) fd _ w (λ flags u nb eu mu. broadcast-Ends istcp _ u (λ v.
        ask-Ends os (Dialled os fd) (connect fd ip (htons port)) _ v (λ c x ex sx mx.
          if-Ends (Dialled os fd) (refused os c) (close_failed os "connect failed" fd) _ x
            (close_failed-Dialled "connect failed" x)
            (wait_for-Ends os (Dialled os fd) fd b'w' _ x
              (λ y. connected-Dialled (if istcp then stale else 1) y)))))

  -- Netdial, whose server is found and whose socket is opened, comes to its end whatever the
  -- other tasks do while it waits, or ends the process. It returns the socket, after getpeername
  -- has named the other end, or it fails and the last call it makes closes the socket.
  pub netdial-Dialled :
      (junk : Ip) (stale : ℕ) (istcp : Bool) (server : Text) (port ip : ℕ) (w v : World)
      → netlookup os junk server w ≡ done (some ip) v
      → os.answer (socket istcp ∷ v.calls) ≡ gives fd
      → Ends (Dialled os fd) (netdial os junk stale istcp server port w)
  unfolding netdial dial_at taskstate with_state
  netdial-Dialled junk stale istcp server port ip w v found opened = rw found (
      ask-Ends os (Dialled os fd) (socket istcp) (dial_on os stale istcp ip port)
        (with_state "netdial" v)
        (λ r u e a m.
          subst (λ (s : Reply). Ends (Dialled os fd) (dial_on os stale istcp ip port s u))
            (sym opened ∙ a) (dial_on-Dialled stale istcp ip port u)))

abbrev pub listening : (istcp : Bool) → (fd : ℕ) → List Call
listening true fd = listen fd 16 ∷ []
listening false fd = []

-- What `netannounce` leaves of its socket `fd`: one that is bound to the address, listens if it is for
-- tcp, and does not block; or nothing, if it was not to be bound.
abbrev pub Announced : (os : Os) → (istcp : Bool) → (fd ip port : ℕ) → Option ℕ → World → Type 0
Announced os istcp fd ip port (some x) w =
    (flags : ℕ) × (n : ℕ) × (cs : List Call) × (x ≡ fd)
    × (os.answer (bind fd ip (htons port) ∷ cs) ≡ gives n)
    × Nonblocking os fd (listening istcp fd ++ bind fd ip (htons port) ∷ cs) flags
    × (w.calls ≡ setfl fd flags ∷ getfl fd ∷ (listening istcp fd ++ bind fd ip (htons port) ∷ cs))
Announced os istcp fd ip port none w =
    (e : ℕ) × (cs : List Call) × (os.answer (bind fd ip (htons port) ∷ cs) ≡ fails e)
    × (w.calls ≡ close fd ∷ bind fd ip (htons port) ∷ cs)

listen-noted :
    (os : Os) (istcp : Bool) (fd : ℕ) (w : World)
    → Ends
        (λ _ v. v.calls ≡ listening istcp fd ++ w.calls)
        ((if istcp then listen_to os fd else pure tt) w)
unfolding listen_to
listen-noted os true fd w =
    ask-Ends os (λ _ v. v.calls ≡ listen fd 16 ∷ w.calls) (listen fd 16) (λ _. pure tt) w
      (λ r v e a m. e)
listen-noted os false fd w = refl

module _ (os : Os) (istcp : Bool) (fd ip port : ℕ) where
  reuse_typed-Ends : (r : Reply) (w : World) → Ends (λ _ _. Unit {0}) (reuse_typed os fd r w)
  unfolding reuse_typed
  reuse_typed-Ends (fails e) w = tt
  reuse_typed-Ends (gives n) w =
      ask-Ends os (λ _ _. Unit {0}) (setsockopt fd os.sol_socket os.so_reuseaddr 1) (λ _. pure tt) w
        (λ r v e a m. tt)

  reuse-Ends : (w : World) → Ends (λ _ _. Unit {0}) ((if istcp then reuse os fd else pure tt) w)
  unfolding reuse
  reuse-Ends w =
      if-Ends (λ _ _. Unit {0}) istcp (reuse os fd) (pure tt) w
        (ask-Ends os (λ _ _. Unit {0}) (getsockopt fd os.sol_socket os.so_type) (reuse_typed os fd)
          w (λ r v e a m. reuse_typed-Ends r v))
        tt

  bound-Announced :
      (r : Reply) (cs : List Call) (w : World)
      → w.calls ≡ bind fd ip (htons port) ∷ cs
      → os.answer (bind fd ip (htons port) ∷ cs) ≡ r
      → Ends (Announced os istcp fd ip port) (bound os istcp fd r w)
  unfolding bound close_failed taskstate with_state
  bound-Announced (fails e) cs w noted said =
      ask-Ends os (Announced os istcp fd ip port) (close fd) (λ _. pure none)
        (with_state "bind failed" w)
        (λ r v c a m. (e, cs, said, c ∙ ap (λ (xs : List Call). close fd ∷ xs) noted))
  bound-Announced (gives n) cs w noted said =
      Ends-bind _ (Announced os istcp fd ip port) ((if istcp then listen_to os fd else pure tt) w) _
        (listen-noted os istcp fd w)
        (λ u v p. fdnoblock-Ends os (Announced os istcp fd ip port) fd _ v (λ flags x nb e m. (
          flags,
          n,
          cs,
          refl,
          said,
          subst (λ (xs : List Call). Nonblocking os fd xs flags)
              (p ∙ ap (λ (xs : List Call). listening istcp fd ++ xs) noted) nb,
          e
              ∙ ap (λ (xs : List Call). setfl fd flags ∷ getfl fd ∷ xs)
                  (p ∙ ap (λ (xs : List Call). listening istcp fd ++ xs) noted),
        )))

  announce_on-Announced :
      (w : World) → Ends (Announced os istcp fd ip port) (announce_on os istcp ip port (gives fd) w)
  unfolding announce_on
  announce_on-Announced w =
      Ends-bind _ (Announced os istcp fd ip port) ((if istcp then reuse os fd else pure tt) w) _
        (reuse-Ends w)
        (λ u v p.
          ask-Ends os (Announced os istcp fd ip port) (bind fd ip (htons port)) _ v
            (λ r x e a m. bound-Announced r v.calls x e a))

  -- netannounce of a server that is named, not by a star, is found and whose socket is opened,
  -- comes to its end. Either bind to the address and the port in network order has succeeded,
  -- listen has followed if it is for tcp, and the flags that F_GETFL answered are set again with
  -- O_NONBLOCK (or -1, if F_GETFL failed), and it returns the socket; or bind has failed and the
  -- next call, which is the last, closes the socket.
  pub netannounce-Announced :
      (junk : Ip) (name : Text) (w v : World)
      → is_star name ≡ false
      → netlookup os junk name (with_state "netannounce" w) ≡ done (some ip) v
      → os.answer (socket istcp ∷ v.calls) ≡ gives fd
      → Ends (Announced os istcp fd ip port) (netannounce os junk istcp (some name) port w)
  unfolding netannounce announce_at taskstate
  netannounce-Announced junk name w v named found opened =
      rw (named, found)
        (ask-Ends os (Announced os istcp fd ip port) (socket istcp) (announce_on os istcp ip port) v
          (λ r u e a m.
            subst
              (λ (s : Reply).
                Ends (Announced os istcp fd ip port) (announce_on os istcp ip port s u))
              (sym opened ∙ a) (announce_on-Announced u)))

pub netlookup-dotted :
    (os : Os) (junk ip : Ip) (w : World)
    → IsIp ip
    → netlookup os junk (dotted ip) w ≡ done (some (ip_word ip)) w
unfolding netlookup
netlookup-dotted os junk ip w v = rw (netlookup, parseip-dotted junk ip v) refl

ip_bytes-IsIp : (a : ℕ) → IsIp (ip_bytes a)
unfolding ip_bytes
ip_bytes-IsIp a = record { b0 = omega arith; b1 = omega arith; b2 = omega arith; b3 = omega arith }

-- A place for a port, if there is one, gets the `int` whose low bytes are those of `net`, which is in
-- network order, the other way round.
abbrev pub HasPort : (port net : ℕ) → (before after : ℕ → ℕ) → Type 0
HasPort port net m g =
    ((port ≡ 0) × (g ≡ m))
    ⊎ ((port ≢ 0) × (g ≡ put m port (net / 256 % 256 ∷ net % 256 ∷ 0 ∷ 0 ∷ [])))

with_port-HasPort : (port net : ℕ) (m : ℕ → ℕ) → HasPort port net m (with_port port net m)
unfolding with_port htons
with_port-HasPort port net m = elim (Bool-cases (port == 0)) [
  | inl nil ↦ rw nil (inl (ground arith, refl))
  | inr place ↦ rw place (
      inr (
        ground arith,
        ap₂ (λ (a b : ℕ). put m port (a ∷ b ∷ 0 ∷ 0 ∷ [])) (omega arith) (omega arith),
      ))
]

-- What `netaccept` hands out: the connection that the system has accepted, which does not block, and
-- the address and the port of its other end in memory.
abbrev pub Accepted : (os : Os) → (junk : Ip) → (fd server port : ℕ) → Option ℕ → World → Type 0
Accepted os junk fd server port none w =
    (e : ℕ) × (cs : List Call) × (w.calls ≡ accept fd ∷ cs) × (os.answer (accept fd ∷ cs) ≡ fails e)
Accepted os junk fd server port (some cfd) w =
    (cs : List Call) × (flags : ℕ) × (m : ℕ → ℕ) × (s : Text) × (os.answer (accept fd ∷ cs)
      ≡ gives cfd)
    × (w.calls
        ≡ setsockopt cfd os.ipproto_tcp os.tcp_nodelay 1
          ∷ setfl cfd flags
          ∷ getfl cfd
          ∷ accept fd
          ∷ cs)
    × Nonblocking os cfd (accept fd ∷ cs) flags
    × HasPort port (os.peer_port (accept fd ∷ cs)) (put m server (s ++ 0 ∷ [])) w.mem
    × (length s ≤ 15)
    × (parseip junk s ≡ some (ip_bytes (os.peer_ip (accept fd ∷ cs))))

module _ (os : Os) (errstr : Text) (junk : Ip) (fd server port : ℕ) where
  accepted-Accepted :
      (r : Reply) (cs : List Call) (w : World)
      → 0 < server
      → w.calls ≡ accept fd ∷ cs
      → os.answer (accept fd ∷ cs) ≡ r
      → Ends (Accepted os junk fd server port) (accepted os errstr server port r w)
  unfolding accepted give_up keep taskstate with_state
  accepted-Accepted (fails e) cs w place noted said = (e, cs, noted, said)
  accepted-Accepted (gives cfd) cs w place noted said =
      let ip = ip_bytes (os.peer_ip (accept fd ∷ cs)) in
      let v = ip_bytes-IsIp (os.peer_ip (accept fd ∷ cs)) in
      let there : (server == 0) ≡ false = ground arith in
      rw (there, noted, snprint-dotted errstr w.mem server ip v)
        (fdnoblock-Ends os (Accepted os junk fd server port) cfd _
          (record w {
            mem =
                with_port port (os.peer_port (accept fd ∷ cs))
                  (put w.mem server (dotted ip ++ 0 ∷ []));
            calls = accept fd ∷ cs;
          })
          (λ flags x nb e m.
            ask-Ends os (Accepted os junk fd server port)
              (setsockopt cfd os.ipproto_tcp os.tcp_nodelay 1) _ x
              (λ r u eu su mu. (
                cs,
                flags,
                w.mem,
                dotted ip,
                said,
                eu ∙ ap (λ (xs : List Call). setsockopt cfd os.ipproto_tcp os.tcp_nodelay 1 ∷ xs) e,
                nb,
                subst
                    (HasPort port (os.peer_port (accept fd ∷ cs))
                      (put w.mem server (dotted ip ++ 0 ∷ [])))
                    (sym (mu ∙ m))
                    (with_port-HasPort port (os.peer_port (accept fd ∷ cs))
                      (put w.mem server (dotted ip ++ 0 ∷ []))),
                length-dotted ip,
                parseip-dotted junk ip v,
              ))))

  -- Netaccept, given a place for the text of the address, comes to its end whatever the other
  -- tasks do while it waits, or ends the process. If accept fails, nothing follows. Else it
  -- returns the connection, after the flags that F_GETFL answered have been set again with
  -- O_NONBLOCK (or -1, if F_GETFL failed) and the delay has been turned off; it has written the
  -- port of the other end, in the order of the machine, if there is a place for it, and a text
  -- of at most 15 bytes and a NUL, which parseip reads as the address of the other end.
  pub netaccept-Accepted :
      (w : World)
      → 0 < server
      → Ends (Accepted os junk fd server port) (netaccept os errstr fd server port w)
  unfolding netaccept taskstate with_state
  netaccept-Accepted w place = wait_for-Ends os (Accepted os junk fd server port) fd b'r' _ w (λ v.
      ask-Ends os (Accepted os junk fd server port) (accept fd) (accepted os errstr server port)
        (with_state "netaccept" v) (λ r u e a m. accepted-Accepted r v.calls u place e a))

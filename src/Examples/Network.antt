-- ===== src/Examples/Network.antt =====
-- The theorems on net.c, on `fdwrite` and on the pointer of a new context, applied.
use libtask_annotation.Base.{◌≡◌, refl, arith, true, some, List, [], ◌∷◌}
use libtask_annotation.World.{Call, write, socket, accept, connect, gethostbyname}
use libtask_annotation.Flow.{Ends, Returns}
use libtask_annotation.Task.{with_state}
use libtask_annotation.Fd.Io.{Reply, fails, gives, Os, fdwrite}
use libtask_annotation.Fd.Write.{Pieces, Takes, fdwrite-Pieces}
use libtask_annotation.Net.Parseip.{Ip, parseip}
use libtask_annotation.Net.Dial.{ip_word, is_star, netannounce, netaccept, netdial}
use libtask_annotation.Net.Decimal.{byte_text}
use libtask_annotation.Net.RoundTrip.{IsIp, dotted, parseip-dotted}
use libtask_annotation.Net.Sockets.{
  Dialled, netdial-Dialled, Announced, netannounce-Announced, Accepted, netaccept-Accepted,
  netlookup-dotted,
}
use libtask_annotation.Examples.{fresh_world}

-- A new socket is 5, a connection that is accepted is 6, a connection takes its time, a write takes a
-- byte, and no name is known.
abbrev answers : List Call → Reply
answers [] = gives 0
answers (socket tcp ∷ cs) = gives 5
answers (accept fd ∷ cs) = gives 6
answers (connect fd ip port ∷ cs) = fails 115
answers (write fd b n ∷ cs) = gives 1
answers (gethostbyname name ∷ cs) = fails 2
answers (_ ∷ cs) = gives 0

abbrev pub linux : Os
linux = record {
  answer = answers;
  peer_ip = λ _. 16820416;
  peer_port = λ _. 20480;
  eagain = 11;
  einprogress = 115;
  econnrefused = 111;
  sol_socket = 1;
  ipproto_tcp = 6;
  so_type = 3;
  so_reuseaddr = 2;
  so_broadcast = 6;
  so_error = 4;
  tcp_nodelay = 1;
  nonblock = 2048;
  pollin = 1;
  pollout = 4;
  sizeof_task = 1000;
  fresh = 50000;
  grown = 60000;
  fdtask_fn = 70000;
}

abbrev local_ip : Ip
local_ip = record { b0 = 192; b1 = 168; b2 = 0; b3 = 1 }

abbrev no_ip : Ip
no_ip = record { b0 = 0; b1 = 0; b2 = 0; b3 = 0 }

local_ip-IsIp : IsIp local_ip
local_ip-IsIp = record { b0 = omega arith; b1 = omega arith; b2 = omega arith; b3 = omega arith }

parseip-dotted_example : parseip no_ip (dotted local_ip) ≡ some local_ip
parseip-dotted_example = parseip-dotted no_ip local_ip local_ip-IsIp

netdial-Dialled_example :
    Ends (Dialled linux 5) (netdial linux no_ip 0 true (dotted local_ip) 80 fresh_world)
netdial-Dialled_example =
    netdial-Dialled linux 5 no_ip 0 true (dotted local_ip) 80 (ip_word local_ip) fresh_world
      fresh_world (netlookup-dotted linux no_ip local_ip fresh_world local_ip-IsIp) refl

netannounce-Announced_example :
    Ends
      (Announced linux true 5 (ip_word local_ip) 80)
      (netannounce linux no_ip true (some (dotted local_ip)) 80 fresh_world)
netannounce-Announced_example =
    netannounce-Announced linux true 5 (ip_word local_ip) 80 no_ip (dotted local_ip) fresh_world
      (with_state "netannounce" fresh_world) (unfold is_star dotted byte_text in refl)
      (netlookup-dotted linux no_ip local_ip (with_state "netannounce" fresh_world) local_ip-IsIp)
      (unfold with_state in refl)

netaccept-Accepted_example :
    Ends (Accepted linux no_ip 5 1000 2000) (netaccept linux [] 5 1000 2000 fresh_world)
netaccept-Accepted_example = netaccept-Accepted linux [] no_ip 5 1000 2000 fresh_world (omega arith)

linux-Takes : Takes linux 4
linux-Takes b k cs more = (1, refl, omega arith, omega arith)

fdwrite-Pieces_example :
    Returns
      (λ r v. (r ≡ gives 3) × Pieces linux 4 1000 3 [] v.calls)
      (fdwrite linux 4 1 4 1000 3 fresh_world)
fdwrite-Pieces_example = fdwrite-Pieces linux 4 linux-Takes 4 0 1000 3 fresh_world (omega arith)

-- ===== src/Examples/Relaying.antt =====
-- The theorem on tcpproxy, applied.
use libtask_annotation.Base.{
  ℕ, ◌-◌, inl, inr, refl, arith, List, [], ◌∷◌, ◌==◌, if◌then◌else◌, Bool-cases,
}
use libtask_annotation.World.{Call, read}
use libtask_annotation.Flow.{Returns, ◌>>=◌}
use libtask_annotation.Fd.Io.{Reply, fails, gives, Os}
use libtask_annotation.Fd.Write.{Takes}
use libtask_annotation.Proxy.{mkfd2, rwtask}
use libtask_annotation.Proxy.Relay.{Supplies, Relayed, rwtask-Relayed}
use libtask_annotation.Examples.{fresh_world}
use libtask_annotation.Examples.Network.{linux}

-- The other end sends twice, and resets the connection.
abbrev sends_left : List Call → ℕ
sends_left [] = 2
sends_left (read fd b n ∷ cs) = sends_left cs - 1
sends_left (_ ∷ cs) = sends_left cs

-- Three bytes each time; a write takes a byte.
abbrev talks : List Call → Reply
talks (read fd b n ∷ cs) = if sends_left cs == 0 then fails 104 else gives 3
talks _ = gives 1

abbrev talking : Os
talking = record linux { answer = talks }

talking-Takes : Takes talking 4
talking-Takes b k cs more = (1, refl, omega arith, omega arith)

talking-Supplies : Supplies talking 3 4 1000 sends_left
talking-Supplies = record {
  reads = λ cs. elim (Bool-cases (sends_left cs == 0)) [
    | inl over ↦ inr (inl (104, rw over refl, ground arith))
    | inr more ↦ inr (inr (3, rw more refl, omega arith, ground arith))
  ];
  writes = λ b n cs. refl;
}

rwtask-Relayed_example :
    Returns
      (λ _ v. Relayed talking 1 3 4 1000 fresh_world v)
      ((mkfd2 500 3 4 >>= rwtask talking 1 3 1 1000) fresh_world)
rwtask-Relayed_example =
    rwtask-Relayed talking 1 3 4 1000 sends_left talking-Takes talking-Supplies 3 0 500 fresh_world
      (omega arith) (ground arith) (omega arith) (omega arith)

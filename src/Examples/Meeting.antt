-- ===== src/Examples/Meeting.antt =====
-- The theorems on tasks that wait at channels, applied.
use libtask_annotation.Base.{
  ℕ, ◌-◌, ◌<◌, ◌∷◌, Option, update, ◌≡◌, inl, inr, refl, Ptr, arith, some, [], ◌==◌, if◌then◌else◌,
}
use libtask_annotation.World.{Alt, Altarray, Channel, World}
use libtask_annotation.Flow.{Flow, done, switch, Returns, Switches, ◌>>◌}
use libtask_annotation.Task.{has_stack, needstack, taskswitch, contextswitch}
use libtask_annotation.Sched.Fifo.{IsReady}
use libtask_annotation.Tasklist.Links.{IsQueue-nil}
use libtask_annotation.Channel.{
  altalldequeue, altqueue, with_chanarray, otherop, altcanexec, can_exec, chanarray, chanend,
  chansnd, chanrcv,
}
use libtask_annotation.Channel.Fifo.{IsRing}
use libtask_annotation.Channel.Entries.{occurs}
use libtask_annotation.Channel.Alts.{
  alt_body, exec_one, or_wait, alt_wait, mark, alts_len, queue_all, count_can, chanalt, altexec,
}
use libtask_annotation.Channel.Copy.{Meets, Passed}
use libtask_annotation.Channel.Select.{marked}
use libtask_annotation.Channel.Waiting.{Roomy, Rings}
use libtask_annotation.Channel.Joining.{adds, AreOps}
use libtask_annotation.Channel.Parting.{AllWait}
use libtask_annotation.Channel.Meeting.{SameWaits, Parked, Met, altalldequeue-queue_all}
use libtask_annotation.Channel.Parking.{Waits, chanalt-Waits}
use libtask_annotation.Channel.Array.{addarray}
use libtask_annotation.Channel.Rendezvous.{Agree, altexec-resumed}
use libtask_annotation.Channel.Exec.{partner, altexec-Met}
use libtask_annotation.Examples.{wrapped, fresh_world}

abbrev seven : ℕ → ℕ
seven _ = 7

-- The one entry 12.
abbrev one_waits : Altarray
one_waits = record { a = λ _. 12; n = 1; m = 16 }

abbrev nobody : Altarray
nobody = record { a = λ _. 0; n = 0; m = 0 }

-- A channel without a buffer.
abbrev direct : Channel
direct = record wrapped { bufsize = 0; nbuf = 0; off = 0; asend = nobody; arecv = nobody }

-- At 12 stands an array with one receive, and at 11 a send, at channel 1.
abbrev two_alts : Ptr → Alt
two_alts p =
    if p == 11
    then record { c = 1; v = 300; op = chansnd; task = 0; xalt = 0 }
    else (if p == 12
        then record { c = 1; v = 400; op = chanrcv; task = 7; xalt = 12 }
        else record { c = 0; v = 0; op = chanend; task = 0; xalt = 0 })

-- The task 9 is to receive, and no task waits.
abbrev lonely : World
lonely = record fresh_world { taskrunning = 9; chans = λ _. direct; alts = two_alts }

-- The task 7 waits with its receive, and 9 is to send.
abbrev awaited : World
awaited = record lonely { chans = λ _. record direct { arecv = one_waits } }

len-lonely : alts_len 5 lonely 12 ≡ some 1
unfolding alts_len
len-lonely = refl

ops-lonely : AreOps 1 two_alts 12
ops-lonely = λ i lt. inl (inr (ground arith))

Roomy-lonely : Roomy lonely 3
Roomy-lonely = record { fits = λ c op h. ground arith; small = λ c op h. ground arith }

altalldequeue-queue_all_example :
    Returns
      (λ _ v. Rings lonely v × SameWaits lonely v)
      ((queue_all 1 12 >> altalldequeue 5 12) lonely)
altalldequeue-queue_all_example =
    altalldequeue-queue_all 5 1 12 lonely 2 len-lonely ops-lonely Roomy-lonely

count-lonely : count_can 1 lonely 12 ≡ 0
unfolding count_can altcanexec can_exec chanarray
count-lonely = refl

chanalt-Waits_example :
    Switches
      (λ v resume. Waits (marked 1 12 lonely) 9 v 5 1 12 2 resume)
      (chanalt seven 5 12 lonely)
chanalt-Waits_example =
    chanalt-Waits seven 5 1 12 lonely 2 len-lonely ops-lonely Roomy-lonely refl
      (unfold has_stack in refl) count-lonely

Roomy-awaited : Roomy awaited 3
Roomy-awaited = record { fits = λ c op h. ground arith; small = λ c op h. ground arith }

all-awaited : AllWait awaited 1 two_alts 12
unfolding adds occurs
all-awaited = λ c op p h. ground arith

len-awaited : alts_len 5 awaited 12 ≡ some 1
unfolding alts_len
len-awaited = refl

awaited-Parked : Parked 5 awaited 12 1 3
awaited-Parked = record {
  len = len-awaited;
  ops = ops-lonely;
  room = Roomy-awaited;
  all = all-awaited;
}

direct-IsRing : (ar : Altarray) → IsRing (record direct { arecv = ar })
direct-IsRing ar = record {
  used = omega arith;
  start = omega arith;
  small = omega arith;
  bytes = omega arith;
  buf = ground arith;
}

awaited-Meets : Meets awaited 1 11 12
awaited-Meets = record {
  sender = (ground arith, refl, refl);
  receiver = (ground arith, refl, refl);
  ring = direct-IsRing one_waits;
  wanted = ground arith;
  outside = inr (omega arith);
  apart = inr (omega arith);
}

altexec-Met_example : Returns (λ _ v. Met awaited 1 11 12 12 1 3 [] v) (altexec seven 5 11 awaited)
altexec-Met_example =
    altexec-Met seven 5 awaited 1 11 12 11 one_waits 1 3 [] (unfold chanarray in refl) (omega arith)
      awaited-Meets (inl (refl, refl)) awaited-Parked (ground arith) refl (IsQueue-nil _)

-- The task 9 has given up the processor in `chanalt`, and goes on with `resume`.
abbrev waiting : World
waiting = record lonely {
  alts = mark 1 12 12 9 two_alts;
  chans = update lonely.chans 1 (record direct { arecv = addarray nobody 12 });
}

abbrev resume : World → Flow (Option ℕ)
resume u = done (some ((u.alts 12).xalt - 12)) u

lonely-waits : chanalt seven 5 12 lonely ≡ switch waiting resume
unfolding chanalt needstack has_stack alts_len alt_body exec_one count_can altcanexec can_exec
    chanarray or_wait alt_wait queue_all altqueue with_chanarray taskswitch contextswitch mark
lonely-waits = refl

-- The task 8 runs, and has written an entry that sends.
abbrev sending : World
sending = record waiting {
  taskrunning = 8;
  alts = update waiting.alts 21 (record { c = 1; v = 300; op = chansnd; task = 0; xalt = 0 });
}

sending-Meets : Meets sending 1 21 12
unfolding mark
sending-Meets = record {
  sender = (ground arith, refl, refl);
  receiver = (ground arith, refl, refl);
  ring = direct-IsRing (addarray nobody 12);
  wanted = ground arith;
  outside = inr (omega arith);
  apart = inr (omega arith);
}

sending-Agree : Agree 1 sending.alts waiting.alts 12
sending-Agree = λ i le. ground arith

sending-found :
    chanarray (sending.chans (sending.alts 21).c) (otherop (sending.alts 21).op)
    ≡ some (addarray nobody 12)
unfolding mark chanarray
sending-found = refl

sending-partner : (0 < (addarray nobody 12).n) × (partner seven sending (addarray nobody 12) ≡ 12)
unfolding addarray
sending-partner = (omega arith, refl)

altexec-resumed_example :
    Returns
      (λ _ z. Passed sending 1 21 12 z × IsReady z (9 ∷ []) × (resume z ≡ done (some 0) z))
      (altexec seven 5 21 sending)
altexec-resumed_example =
    altexec-resumed seven 5 1 12 lonely 2 len-lonely ops-lonely Roomy-lonely refl
      (unfold has_stack in refl) count-lonely waiting resume lonely-waits sending sending-Agree refl
      21 1 21 12 0 (addarray nobody 12) [] (omega arith) sending-found sending-partner.0
      sending-partner.1 sending-Meets (inl (refl, refl)) (ground arith) refl (IsQueue-nil _)

-- ===== src/Channel/Exec.antt =====
-- `altexec` where another task waits at the channel.
use libtask_annotation.Base.{
  ℕ, ◌+◌, ◌%◌, ◌<◌, ◌≡◌, ◌≢◌, ◌∉◌, refl, ap, ◌∙◌, Ptr, Option, some, false, List, arith, ◌==◌,
}
use libtask_annotation.World.{Altarray, World}
use libtask_annotation.Flow.{Returns, Returns-mono}
use libtask_annotation.Sched.Fifo.{IsReady}
use libtask_annotation.Channel.{otherop, chanarray}
use libtask_annotation.Channel.Alts.{draw, meet, exec_against, altexec}
use libtask_annotation.Channel.Copy.{Meets}
use libtask_annotation.Channel.Parting.{alts_len-alts}
use libtask_annotation.Channel.Meeting.{InTurn, Parked, Met, meet-Met}

-- After a call of `rand`.
abbrev drawn : World → World
drawn w = record w { draws = w.draws + 1 }

drawn-Meets : (w : World) (c s r : Ptr) → Meets w c s r → Meets (drawn w) c s r
drawn-Meets w c s r h = record {
  sender = h.sender;
  receiver = h.receiver;
  ring = h.ring;
  wanted = h.wanted;
  outside = h.outside;
  apart = h.apart;
}

drawn-Parked :
    (fuel : ℕ) (w : World) (other : Ptr) (n k : ℕ)
    → Parked fuel w other n k
    → Parked fuel (drawn w) other n k
drawn-Parked fuel w other n k h = record {
  len = alts_len-alts fuel w (drawn w) (w.alts other).xalt refl ∙ h.len;
  ops = h.ops;
  room = record { fits = h.room.fits; small = h.room.small };
  all = h.all;
}

drawn-Met :
    (w v : World) (c s r other : Ptr) (n k : ℕ) (xs : List Ptr)
    → Met (drawn w) c s r other n k xs v
    → Met w c s r other n k xs v
drawn-Met w v c s r other n k xs h = record {
  passed = record { ring = h.passed.ring; fifo = h.passed.fifo };
  room = h.room;
  gone = h.gone;
  chosen = h.chosen;
  ready = h.ready;
}

-- The waiting operation that the draw of `rand` names.
abbrev pub partner : (ℕ → ℕ) → World → Altarray → Ptr
partner rand w ar = ar.a (rand w.draws % ar.n)

altexec-meet :
    (rand : ℕ → ℕ) (fuel : ℕ) (a : Ptr) (ar : Altarray) (w : World)
    → chanarray (w.chans (w.alts a).c) (otherop (w.alts a).op) ≡ some ar
    → 0 < ar.n
    → altexec rand fuel a w ≡ meet rand fuel a (partner rand w ar) (drawn w)
unfolding altexec
altexec-meet rand fuel a ar w found some_wait =
    let busy : (ar.n == 0) ≡ false = ground arith in
    ap (λ (o : Option Altarray). exec_against rand fuel a o w) found
    ∙ (unfold exec_against draw in rw busy refl)

-- altexec of an operation, when other tasks wait at its channel to do the opposite, carries it
-- out with the waiting one that the draw of rand names: the sender's message goes behind those
-- in the channel and the oldest goes to the receiver, every entry of the waiting task's array is
-- taken out of those that wait at the channels, once for each time it stands there, and nothing
-- else is, the waiting operation is recorded in its array as the one that was carried out, and
-- its task is ready behind the others. The places of the messages are apart as for altcopy, the
-- entries of the array all wait, no array of a channel is near the overflow of its counters, and
-- the waiting task is not ready yet.
pub altexec-Met :
    (rand : ℕ → ℕ) (fuel : ℕ) (w : World) (c s r a : Ptr) (ar : Altarray) (n k : ℕ) (xs : List Ptr)
    → chanarray (w.chans (w.alts a).c) (otherop (w.alts a).op) ≡ some ar
    → 0 < ar.n
    → Meets w c s r
    → InTurn s r a (partner rand w ar)
    → Parked fuel w (partner rand w ar) n k
    → (w.alts (partner rand w ar)).task ≢ 0
    → (w.alts (partner rand w ar)).task ∉ xs
    → IsReady w xs
    → Returns (λ _ v. Met w c s r (partner rand w ar) n k xs v) (altexec rand fuel a w)
altexec-Met rand fuel w c s r a ar n k xs found some_wait h turn parked placed out q =
    let other = partner rand w ar in
    rw (altexec-meet rand fuel a ar w found some_wait) (
      Returns-mono (λ _ v. Met (drawn w) c s r other n k xs v) (λ _ v. Met w c s r other n k xs v)
        (meet rand fuel a other (drawn w)) (λ _ v m. drawn-Met w v c s r other n k xs m)
        (meet-Met rand fuel (drawn w) c s r a other n k xs (drawn-Meets w c s r h) turn
          (drawn-Parked fuel w other n k parked) placed out q))

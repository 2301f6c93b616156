-- ===== src/Channel/Copy.antt =====
-- `altcopy` moves messages first in, first out.
use libtask_annotation.Base.{◌<◌, ◌≡◌, ◌≢◌, Ptr, [], ◌∷◌, ◌++◌, arith, dec_lt}
use libtask_annotation.World.{World}
use libtask_annotation.Flow.{Returns, Returns-mono}
use libtask_annotation.Channel.{copy_between, altcopy, chansnd, chanrcv}
use libtask_annotation.Channel.Bytes.{read, Apart}
use libtask_annotation.Channel.Fifo.{IsRing, OffBuffer, message}
use libtask_annotation.Channel.Transfer.{
  queued, copy_between-send, copy_between-receive, copy_between-direct, copy_between-exchange,
}

-- A sender `s` and a receiver `r` of one channel, with the memory that they name.
pub record Meets (w : World) (c s r : Ptr) : Type 0 where
  pub sender : (s ≢ 0) × ((w.alts s).op ≡ chansnd) × ((w.alts s).c ≡ c)
  pub receiver : (r ≢ 0) × ((w.alts r).op ≡ chanrcv) × ((w.alts r).c ≡ c)
  pub ring : IsRing (w.chans c)
  pub wanted : (w.alts r).v ≢ 0
  pub outside : OffBuffer (w.chans c) (w.alts r).v (w.chans c).elemsize
  pub apart : Apart (w.alts r).v (w.chans c).elemsize (w.alts s).v (w.chans c).elemsize

-- The message of `s` has gone behind those in the channel, and the first of them to `r`.
pub record Passed (w : World) (c s r : Ptr) (v : World) : Type 0 where
  pub ring : IsRing (v.chans c)
  pub fifo :
      read v.mem (w.alts r).v (w.chans c).elemsize ∷ queued v c
      ≡ queued w c ++ message w.mem (w.alts s).v (w.chans c).elemsize ∷ []

copy_between-Passed :
    (c s r : Ptr) (w : World)
    → Meets w c s r
    → Returns (λ _ v. Passed w c s r v) (copy_between c s r w)
copy_between-Passed c s r w h =
    Returns-mono _ (λ _ v. Passed w c s r v) (copy_between c s r w)
      (λ _ v (ring, fifo). record { ring = ring; fifo = fifo })
      (elim (dec_lt 0 (w.chans c).nbuf) [
        | yes some ↦
            copy_between-exchange c s r w h.sender.0 h.receiver.0 h.ring some h.wanted h.outside
              h.apart
        | no none ↦
            copy_between-direct c s r w h.sender.0 h.receiver.0 h.ring (omega arith) h.wanted
              h.outside
      ])

-- altcopy of a sender and a receiver of one channel, given in either order, puts the sender's
-- message behind those in the channel's buffer and gives the receiver the oldest, whether the
-- channel has a buffer or not; the channel stays a well-formed ring. The receiver's place is not
-- nil and overlaps neither the buffer nor the sender's bytes.
pub altcopy-fifo :
    (c s r : Ptr) (w : World)
    → Meets w c s r
    → Returns (λ _ v. Passed w c s r v) (altcopy s r w)
      × Returns (λ _ v. Passed w c s r v) (altcopy r s w)
altcopy-fifo c s r w h =
    let e : altcopy s r w ≡ copy_between c s r w =
      unfold altcopy in ground (arith, h.sender, h.receiver) in
    let e' : altcopy r s w ≡ copy_between c s r w =
      unfold altcopy in ground (arith, h.sender, h.receiver) in
    (rw e (copy_between-Passed c s r w h), rw e' (copy_between-Passed c s r w h))

-- altcopy of a sender alone, at a channel with room in its buffer, puts its message behind the
-- others; the channel is and stays a well-formed ring.
pub altcopy-send :
    (s : Ptr) (w : World)
    → s ≢ 0
    → (w.alts s).op ≡ chansnd
    → IsRing (w.chans (w.alts s).c)
    → (w.chans (w.alts s).c).nbuf < (w.chans (w.alts s).c).bufsize
    → Returns
        (λ _ v.
          IsRing (v.chans (w.alts s).c)
          × (queued v (w.alts s).c
              ≡ queued w (w.alts s).c
                ++ message w.mem (w.alts s).v (w.chans (w.alts s).c).elemsize ∷ []))
        (altcopy s 0 w)
altcopy-send s w ne op ring room =
    let e : altcopy s 0 w ≡ copy_between (w.alts s).c s 0 w = unfold altcopy in ground arith in
    rw e (copy_between-send (w.alts s).c s w ne ring room)

-- altcopy of a receiver alone, at a channel with messages, gives it the oldest and leaves the
-- others in order; the channel is and stays a well-formed ring, and the receiver's place is not
-- nil and outside the buffer.
pub altcopy-receive :
    (r : Ptr) (w : World)
    → r ≢ 0
    → (w.alts r).op ≡ chanrcv
    → IsRing (w.chans (w.alts r).c)
    → 0 < (w.chans (w.alts r).c).nbuf
    → (w.alts r).v ≢ 0
    → OffBuffer (w.chans (w.alts r).c) (w.alts r).v (w.chans (w.alts r).c).elemsize
    → Returns
        (λ _ v.
          IsRing (v.chans (w.alts r).c)
          × (read v.mem (w.alts r).v (w.chans (w.alts r).c).elemsize ∷ queued v (w.alts r).c
              ≡ queued w (w.alts r).c))
        (altcopy r 0 w)
altcopy-receive r w ne op ring some wanted outside =
    let e : altcopy r 0 w ≡ copy_between (w.alts r).c 0 r w = unfold altcopy in ground arith in
    rw e (copy_between-receive (w.alts r).c r w ne ring some wanted outside)

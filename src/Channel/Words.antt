-- ===== src/Channel/Words.antt =====
-- A 64-bit word that is sent is the word that is received.
use libtask_annotation.Base.{
  ℕ, zero, suc, ◌+◌, ◌/◌, ◌^◌, ◌<◌, ◌≡◌, ◌≢◌, refl, ap, ap₂, sym, subst, ◌∙◌, Bool, true, false,
  List, [], ◌∷◌, ◌++◌, arith, ◌==◌, length,
}
use libtask_annotation.World.{World}
use libtask_annotation.Flow.{Returns, Returns-bind, Returns-mono}
use libtask_annotation.Task.{has_stack}
use libtask_annotation.Print.{put}
use libtask_annotation.Print.Buffer.{Holds, put-Holds, put-outside}
use libtask_annotation.Channel.{chansnd, chanrcv}
use libtask_annotation.Channel.Alts.{chanop}
use libtask_annotation.Channel.Bytes.{Memory, read, read-ext}
use libtask_annotation.Channel.Fifo.{IsRing, OffBuffer, Beside, message, outside-contents}
use libtask_annotation.Channel.Transfer.{queued}
use libtask_annotation.Channel.Ops.{Idle, Sent, chanop-Sent, chanop-Received}
use libtask_annotation.Channel.Longs.{
  bytes_of, word_of, set_local, get_local, send_word, receive_word,
}

word_of-bytes_of : (x : ℕ) → x < 2 ^ 64 → word_of (bytes_of 8 x) ≡ x
unfolding word_of bytes_of
word_of-bytes_of x lt = omega arith

length-bytes_of : (n x : ℕ) → length (bytes_of n x) ≡ n
unfolding bytes_of
length-bytes_of zero x = refl
length-bytes_of (suc n) x = ap suc (length-bytes_of n (x / 256))

read-Holds : (m : Memory) (p : ℕ) (s : List ℕ) → Holds m p s → read m p (length s) ≡ s
unfolding read Holds
read-Holds m p [] h = refl
read-Holds m p (b ∷ s) h = ap₂ ◌∷◌ h.0 (read-Holds m (p + 1) s h.1)

put-Beside : (m : Memory) (p : ℕ) (s : List ℕ) → Beside m (put m p s) p (length s)
put-Beside m p s q k apart =
    read-ext m (put m p s) q q k (λ i lt. put-outside m p s (q + i) (ground arith))

module _ (c local val : ℕ) (w : World) where
  set_local-queued :
      IsRing (w.chans c)
      → OffBuffer (w.chans c) local 8
      → queued (set_local local val w) c ≡ queued w c
  unfolding set_local
  set_local-queued ring off =
      outside-contents w.mem (put w.mem local (bytes_of 8 val)) (w.chans c) local 8 ring off (
        subst (λ (n : ℕ). Beside w.mem (put w.mem local (bytes_of 8 val)) local n)
          (length-bytes_of 8 val) (put-Beside w.mem local (bytes_of 8 val)))

  set_local-message : local ≢ 0 → message (set_local local val w).mem local 8 ≡ bytes_of 8 val
  unfolding set_local message
  set_local-message there =
      let m = put w.mem local (bytes_of 8 val) in
      let held : read m local 8 ≡ bytes_of 8 val =
        subst (λ (n : ℕ). read m local n ≡ bytes_of 8 val) (length-bytes_of 8 val)
          (read-Holds m local (bytes_of 8 val) (put-Holds w.mem local (bytes_of 8 val))) in
      let t : (local == 0) ≡ false = ground arith in rw t held

abbrev oldest : List (List ℕ) → List ℕ
oldest [] = []
oldest (b ∷ bs) = b

abbrev younger : List (List ℕ) → List (List ℕ)
younger [] = []
younger (b ∷ bs) = bs

module _ (rand : ℕ → ℕ) (fuel : ℕ) (canblock : Bool) (frame local c : ℕ) (w : World)
    (placed : frame ≢ 0) (stack : has_stack 512 w ≡ true) (ring : IsRing (w.chans c))
    (words : (w.chans c).elemsize ≡ 8) (there : local ≢ 0)
    (off : OffBuffer (w.chans c) local 8) where
  -- Sending a word, waiting or not, to a channel of 8-byte messages that has room and at which
  -- no task waits to receive, succeeds and puts the bytes of the word behind the messages in the
  -- channel. The task has stack left, the two variables are not at nil, the variable of the word
  -- lies outside the buffer, the channel is and stays a well-formed ring, and the fuel is 2 or
  -- more.
  pub send_word-Sent :
      (val : ℕ)
      → (w.chans c).nbuf < (w.chans c).bufsize
      → Idle w c chansnd
      → Returns
          (Sent w c (bytes_of 8 val))
          (send_word rand (suc (suc fuel)) canblock frame local c val w)
  unfolding send_word
  send_word-Sent val room idle =
      let u = set_local local val w in
      let same : u.chans ≡ w.chans = unfold set_local in refl in
      let stack' : has_stack 512 u ≡ true = unfold has_stack set_local in stack in
      let sent : message u.mem local (u.chans c).elemsize ≡ bytes_of 8 val =
        rw (same, words) (set_local-message c local val w there) in
      Returns-mono _ (Sent w c (bytes_of 8 val))
        (chanop rand (suc (suc fuel)) frame c chansnd local canblock u)
        (λ ok v q. (
          q.0,
          q.1,
          q.2
              ∙ ap₂ (λ (xs : List (List ℕ)) (b : List ℕ). xs ++ b ∷ [])
                  (set_local-queued c local val w ring off) sent,
        ))
        (chanop-Sent rand fuel frame c local canblock u placed stack' (rw same ring) (rw same room)
          (rw same idle))

  -- Receiving a word, waiting or not, from a channel of 8-byte messages whose oldest message is
  -- the bytes of a 64-bit word and at which no task waits to send, returns this word and leaves
  -- the other messages. The task has stack left, the two variables are not at nil, the variable
  -- of the word lies outside the buffer, the channel is and stays a well-formed ring, and the
  -- fuel is 2 or more.
  pub receive_word-Received :
      (val : ℕ) (rest : List (List ℕ))
      → val < 2 ^ 64
      → 0 < (w.chans c).nbuf
      → queued w c ≡ bytes_of 8 val ∷ rest
      → Idle w c chanrcv
      → Returns
          (λ x v. (x ≡ val) × IsRing (v.chans c) × (queued v c ≡ rest))
          (receive_word rand (suc (suc fuel)) canblock frame local c w)
  unfolding receive_word get_local
  receive_word-Received val rest lt full first idle =
      Returns-bind _ _ (chanop rand (suc (suc fuel)) frame c chanrcv local canblock w) _
        (chanop-Received rand fuel frame c local canblock w placed stack ring full there
          (subst (λ (n : ℕ). OffBuffer (w.chans c) local n) (sym words) off) idle)
        (λ ok v q.
          let e = q.2 ∙ first in
          (
            subst (λ (n : ℕ). word_of (read v.mem local n) ≡ val) words
                (ap (λ (xs : List (List ℕ)). word_of (oldest xs)) e ∙ word_of-bytes_of val lt),
            q.1,
            ap younger e,
          ))

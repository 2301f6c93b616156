-- ===== src/Channel/Ops.antt =====
-- The operations of one channel that are built on `chanalt`, where no task waits at the channel.
use libtask_annotation.Base.{
  ℕ, suc, ◌+◌, ◌<◌, ◌≡◌, ◌≢◌, refl, ap, ◌∙◌, Ptr, Bool, true, false, Option, some, List, [], ◌∷◌,
  ◌++◌, arith, ◌==◌,
}
use libtask_annotation.World.{Altarray, World}
use libtask_annotation.Flow.{pure, and_then, and_then_assoc, Returns, Returns-bind, Returns-mono}
use libtask_annotation.Task.{has_stack}
use libtask_annotation.Channel.{
  chansnd, chanrcv, otherop, chanarray, can_exec, altcanexec, altcopy, is_last,
}
use libtask_annotation.Channel.Alts.{
  alts_len, mark, count_can, exec_against, altexec, chanalt, with_alts, chanop,
}
use libtask_annotation.Channel.Bytes.{read}
use libtask_annotation.Channel.Fifo.{IsRing, OffBuffer, message}
use libtask_annotation.Channel.Transfer.{queued}
use libtask_annotation.Channel.Copy.{altcopy-send, altcopy-receive}
use libtask_annotation.Channel.Select.{marked, chanalt-picks}

-- The first entry of the array, and that the second ends it.
with_alts-first :
    (frame c : Ptr) (op p : ℕ) (canblock : Bool) (w : World)
    → (((with_alts frame c op p canblock w).alts frame).op ≡ op)
      × (((with_alts frame c op p canblock w).alts frame).c ≡ c)
      × (((with_alts frame c op p canblock w).alts frame).v ≡ p)
unfolding with_alts
with_alts-first frame c op p canblock w = ground arith

with_alts-last :
    (frame c : Ptr) (op p : ℕ) (canblock : Bool) (w : World)
    → is_last ((with_alts frame c op p canblock w).alts (frame + 1)).op ≡ true
unfolding with_alts
with_alts-last frame c op p canblock w = ground arith

alts_len-pair :
    (fuel frame : ℕ) (u : World)
    → is_last (u.alts frame).op ≡ false
    → is_last (u.alts (frame + 1)).op ≡ true
    → alts_len (suc (suc fuel)) u frame ≡ some 1
unfolding alts_len
alts_len-pair fuel frame u more last = rw (more, last) refl

-- The world in which the only entry of the array at `a` is carried out.
abbrev chosen : (a : Ptr) → World → World
chosen a u = record (marked 1 a u) { draws = u.draws + 1 }

chosen-first :
    (a : Ptr) (u : World)
    → (((chosen a u).alts a).op ≡ (u.alts a).op)
      × (((chosen a u).alts a).c ≡ (u.alts a).c)
      × (((chosen a u).alts a).v ≡ (u.alts a).v)
chosen-first a u = unfold mark in ground arith

-- `altexec` where no other task waits.
altexec-alone :
    (rand : ℕ → ℕ) (fuel : ℕ) (a : Ptr) (ar : Altarray) (v : World)
    → chanarray (v.chans (v.alts a).c) (otherop (v.alts a).op) ≡ some ar
    → ar.n ≡ 0
    → altexec rand fuel a v ≡ altcopy a 0 v
unfolding altexec
altexec-alone rand fuel a ar v found idle =
    let alone : (ar.n == 0) ≡ true = ground arith in
    ap (λ (o : Option Altarray). exec_against rand fuel a o v) found
    ∙ (unfold exec_against in rw alone refl)

module _ (rand : ℕ → ℕ) (fuel : ℕ) (a : Ptr) (u : World) (stack : has_stack 512 u ≡ true)
    (more : is_last (u.alts a).op ≡ false) (last : is_last (u.alts (a + 1)).op ≡ true)
    (can : altcanexec u a ≡ true) where
  chanalt-one :
      chanalt rand (suc (suc fuel)) a u
      ≡ and_then (altexec rand (suc (suc fuel)) a (chosen a u)) (λ _. pure (some 0))
  chanalt-one =
      let some_can : 0 < count_can 1 u a = unfold count_can in rw can (omega arith) in
      let (k, lt, ok, before, e) =
        chanalt-picks rand (suc (suc fuel)) a 1 u stack (alts_len-pair fuel a u more last)
          some_can in
      let first : k ≡ 0 = omega arith in let at : a + 0 ≡ a = omega arith in e ∙ rw (first, at) refl

-- A channel at which no task waits to do the other operation.
abbrev pub Idle : World → (c : Ptr) → (op : ℕ) → Type 0
Idle w c op = (ar : Altarray) × (chanarray (w.chans c) (otherop op) ≡ some ar) × (ar.n ≡ 0)

module _ (rand : ℕ → ℕ) (fuel : ℕ) (frame c : Ptr) (op p : ℕ) (canblock : Bool) (w : World) where
  -- The world in which the operation is carried out.
  abbrev pub asked : World
  asked = chosen frame (with_alts frame c op p canblock w)

  asked-first :
      ((asked.alts frame).op ≡ op) × ((asked.alts frame).c ≡ c) × ((asked.alts frame).v ≡ p)
  asked-first =
      let (o, x, v) = with_alts-first frame c op p canblock w in
      let (o', x', v') = chosen-first frame (with_alts frame c op p canblock w) in
      (o' ∙ o, x' ∙ x, v' ∙ v)

  chanop-alone :
      has_stack 512 w ≡ true
      → is_last op ≡ false
      → can_exec (w.chans c) op ≡ true
      → Idle w c op
      → chanop rand (suc (suc fuel)) frame c op p canblock w
        ≡ and_then (altcopy frame 0 asked) (λ _. pure true)
  unfolding chanop
  chanop-alone stack more can (ar, found, idle) =
      let u = with_alts frame c op p canblock w in
      let (o, x, v) = with_alts-first frame c op p canblock w in
      let (o', x', v') = asked-first in
      let stack' : has_stack 512 u ≡ true = unfold has_stack with_alts in stack in
      let same : u.chans ≡ w.chans = unfold with_alts in refl in
      let can' : altcanexec u frame ≡ true = unfold altcanexec in rw (o, x, same) can in
      let one =
        chanalt-one rand fuel frame u stack' (rw o more) (with_alts-last frame c op p canblock w)
          can' in
      let alone =
        altexec-alone rand (suc (suc fuel)) frame ar asked (rw (o', x', same) found) idle in
      rw (one, alone) (and_then_assoc (altcopy frame 0 asked) (λ _. pure (some 0)) _)

-- What the operation that sends `p` leaves of the channel: the message is behind the others.
abbrev pub Sent : (w : World) → (c : Ptr) → (message : List ℕ) → Bool → World → Type 0
Sent w c message ok v = (ok ≡ true) × IsRing (v.chans c) × (queued v c ≡ queued w c ++ message ∷ [])

-- What the operation that receives at `p` leaves: the oldest message is there.
abbrev pub Received : (w : World) → (c p : Ptr) → Bool → World → Type 0
Received w c p ok v =
    (ok ≡ true) × IsRing (v.chans c) × (read v.mem p (w.chans c).elemsize ∷ queued v c ≡ queued w c)

-- The copies, of worlds `w` with the array of `_chanop` added.
send-at :
    (s c p : Ptr) (v w : World)
    → s ≢ 0
    → ((v.alts s).op ≡ chansnd) × ((v.alts s).c ≡ c) × ((v.alts s).v ≡ p)
    → v.chans ≡ w.chans
    → v.mem ≡ w.mem
    → IsRing (w.chans c)
    → (w.chans c).nbuf < (w.chans c).bufsize
    → Returns (λ _ u. Sent w c (message w.mem p (w.chans c).elemsize) true u) (altcopy s 0 v)
send-at s c p v w placed (o, x, b) same bytes ring room =
    let ring' : IsRing (v.chans (v.alts s).c) = rw (same, x) ring in
    let room' : (v.chans (v.alts s).c).nbuf < (v.chans (v.alts s).c).bufsize = rw (same, x) room in
    rw (← same, ← bytes, ← x, ← b)
      (Returns-mono _ _ (altcopy s 0 v) (λ a u q. (refl, q.0, q.1))
        (altcopy-send s v placed o ring' room'))

receive-at :
    (r c p : Ptr) (v w : World)
    → r ≢ 0
    → ((v.alts r).op ≡ chanrcv) × ((v.alts r).c ≡ c) × ((v.alts r).v ≡ p)
    → v.chans ≡ w.chans
    → v.mem ≡ w.mem
    → IsRing (w.chans c)
    → 0 < (w.chans c).nbuf
    → p ≢ 0
    → OffBuffer (w.chans c) p (w.chans c).elemsize
    → Returns (λ _ u. Received w c p true u) (altcopy r 0 v)
receive-at r c p v w placed (o, x, b) same bytes ring full wanted off =
    let ring' : IsRing (v.chans (v.alts r).c) = rw (same, x) ring in
    let some' : 0 < (v.chans (v.alts r).c).nbuf = rw (same, x) full in
    let wanted' : (v.alts r).v ≢ 0 = rw b wanted in
    let off' : OffBuffer (v.chans (v.alts r).c) (v.alts r).v (v.chans (v.alts r).c).elemsize =
      rw (same, x, b) off in
    rw (← same, ← x, ← b)
      (Returns-mono _ _ (altcopy r 0 v) (λ a u q. (refl, q.0, q.1 ∙ rw bytes refl))
        (altcopy-receive r v placed o ring' some' wanted' off'))

module _ (rand : ℕ → ℕ) (fuel : ℕ) (frame c p : Ptr) (canblock : Bool) (w : World)
    (placed : frame ≢ 0) (stack : has_stack 512 w ≡ true) (ring : IsRing (w.chans c)) where
  pub chanop-Sent :
      (w.chans c).nbuf < (w.chans c).bufsize
      → Idle w c chansnd
      → Returns
          (Sent w c (message w.mem p (w.chans c).elemsize))
          (chanop rand (suc (suc fuel)) frame c chansnd p canblock w)
  chanop-Sent room idle =
      let v = asked rand fuel frame c chansnd p canblock w in
      let can : can_exec (w.chans c) chansnd ≡ true = unfold can_exec in ground arith in
      rw (chanop-alone rand fuel frame c chansnd p canblock w stack refl can idle) (
        Returns-bind _ (Sent w c (message w.mem p (w.chans c).elemsize)) (altcopy frame 0 v)
          (λ _. pure true)
          (send-at frame c p v w placed (asked-first rand fuel frame c chansnd p canblock w)
            (unfold with_alts in refl) (unfold with_alts in refl) ring room)
          (λ a u q. q))

  pub chanop-Received :
      0 < (w.chans c).nbuf
      → p ≢ 0
      → OffBuffer (w.chans c) p (w.chans c).elemsize
      → Idle w c chanrcv
      → Returns (Received w c p) (chanop rand (suc (suc fuel)) frame c chanrcv p canblock w)
  chanop-Received full wanted off idle =
      let v = asked rand fuel frame c chanrcv p canblock w in
      let used = ring.used in
      let can : can_exec (w.chans c) chanrcv ≡ true = unfold can_exec in ground arith in
      rw (chanop-alone rand fuel frame c chanrcv p canblock w stack refl can idle) (
        Returns-bind _ (Received w c p) (altcopy frame 0 v) (λ _. pure true)
          (receive-at frame c p v w placed (asked-first rand fuel frame c chanrcv p canblock w)
            (unfold with_alts in refl) (unfold with_alts in refl) ring full wanted off)
          (λ a u q. q))

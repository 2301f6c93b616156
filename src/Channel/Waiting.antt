-- ===== src/Channel/Waiting.antt =====
-- Which operations wait on a channel: `altqueue` and `altdequeue` on the arrays of all channels, as
-- bags.
use libtask_annotation.Base.{
  ℕ, suc, ◌+◌, ◌*◌, ◌^◌, ◌≤◌, ◌<◌, ◌≡◌, ◌⊎◌, inl, inr, refl, sym, subst, Ptr, true, false, ◌&&◌,
  some, arith, ◌==◌, if◌then◌else◌, Bool-cases,
}
use libtask_annotation.World.{Alt, Altarray, Channel, World}
use libtask_annotation.Flow.{done, Returns}
use libtask_annotation.Channel.{chansnd, chanrcv, chanarray, with_chanarray, set_chan, altqueue}
use libtask_annotation.Channel.Array.{addarray}
use libtask_annotation.Channel.Entries.{occurs, IsSized, addarray-occurs}

-- The operations that can wait.
abbrev pub IsOp : ℕ → Type 0
IsOp op = (op ≡ chansnd) ⊎ (op ≡ chanrcv)

abbrev pub side : Channel → ℕ → Altarray
side x op = if op == chansnd then x.asend else x.arecv

-- How often the entry `p` waits on `c` to do `op`.
abbrev pub waits : World → (c : Ptr) → (op : ℕ) → (p : Ptr) → ℕ
waits w c op p = occurs (side (w.chans c) op).a (side (w.chans c) op).n p

-- Whether the entry `b` is the one, `p`, that waits on `c` to do `op`.
abbrev pub entry : (Ptr → Alt) → (b c : Ptr) → (op : ℕ) → (p : Ptr) → ℕ
entry f b c op p = if (f b).c == c && ((f b).op == op && (b == p)) then 1 else 0

-- Each array is allocated as far as it is used, and can grow `k` times before its counters overflow.
pub record Roomy (w : World) (k : ℕ) : Type 0 where
  pub fits : (c op : ℕ) → IsOp op → (side (w.chans c) op).n ≤ (side (w.chans c) op).m
  pub small : (c op : ℕ) → IsOp op → (side (w.chans c) op).m + 16 * k < 2 ^ 31

pub Roomy-IsSized : (w : World) (k c op : ℕ) → IsOp op → Roomy w k → IsSized (side (w.chans c) op)
Roomy-IsSized w k c op h r =
    let f = r.fits c op h in let s = r.small c op h in record { fits = f; small = omega arith }

-- What changes where only arrays of channels do.
abbrev pub Rings : World → World → Type 0
Rings w v =
    (v ≡ record w { chans = v.chans })
    × ((c : Ptr)
        → v.chans c ≡ record (w.chans c) { asend = (v.chans c).asend; arecv = (v.chans c).arecv })

pub chanarray-side : (x : Channel) (op : ℕ) → IsOp op → chanarray x op ≡ some (side x op)
unfolding chanarray
chanarray-side x op h = ground arith

-- The world with another array of the entry `b`.
abbrev pub put_side : (w : World) → (b : Ptr) → Altarray → World
put_side w b ar = set_chan (w.alts b).c (with_chanarray (w.chans (w.alts b).c) (w.alts b).op ar) w

pub side-put_side :
    (w : World) (b : Ptr) (ar : Altarray) (c op : ℕ)
    → IsOp (w.alts b).op
    → IsOp op
    → side ((put_side w b ar).chans c) op
      ≡ (if (w.alts b).c == c && ((w.alts b).op == op) then ar else side (w.chans c) op)
unfolding with_chanarray
side-put_side w b ar c op h h' = ground arith

pub Rings-put_side :
    (w : World) (b : Ptr) (ar : Altarray) → IsOp (w.alts b).op → Rings w (put_side w b ar)
unfolding with_chanarray
Rings-put_side w b ar h = (refl, λ c. ground arith)

altqueue_lem :
    (b : Ptr) (w : World)
    → IsOp (w.alts b).op
    → altqueue b w ≡ done tt (put_side w b (addarray (side (w.chans (w.alts b).c) (w.alts b).op) b))
unfolding altqueue
altqueue_lem b w h = rw (altqueue, chanarray-side (w.chans (w.alts b).c) (w.alts b).op h) refl

-- What `altqueue` of `b` does.
pub record Queued (w v : World) (b : Ptr) (k : ℕ) : Type 0 where
  pub rings : Rings w v
  pub room : Roomy v k
  pub more : (c op p : ℕ) → IsOp op → waits v c op p ≡ waits w c op p + entry w.alts b c op p

-- What holds of the channel and the operation of `b` holds where the test of `side-put_side` does.
pub same_side :
    (P : ℕ → ℕ → Type 0) (w : World) (b c op : ℕ)
    → ((w.alts b).c == c && ((w.alts b).op == op)) ≡ true
    → P (w.alts b).c (w.alts b).op
    → P c op
same_side P w b c op h p =
    let ec : (w.alts b).c ≡ c = ground arith in
    let eo : (w.alts b).op ≡ op = ground arith in
    subst (P c) eo (subst (λ (c : ℕ). P c (w.alts b).op) ec p)

addarray-small :
    (x : Altarray) (b : Ptr) (k : ℕ)
    → x.m + 16 * suc k < 2 ^ 31
    → (addarray x b).m + 16 * k < 2 ^ 31
unfolding addarray
addarray-small x b k s = ground arith

pub entry-here :
    (f : Ptr → Alt) (b c : Ptr) (op : ℕ) (p : Ptr)
    → ((f b).c == c && ((f b).op == op)) ≡ true
    → entry f b c op p ≡ (if b == p then 1 else 0)
entry-here f b c op p h = ground arith

pub entry-other :
    (f : Ptr → Alt) (b c : Ptr) (op : ℕ) (p : Ptr)
    → ((f b).c == c && ((f b).op == op)) ≡ false
    → entry f b c op p ≡ 0
entry-other f b c op p h = ground arith

put_side-added :
    (w : World) (b : Ptr) (k : ℕ)
    → IsOp (w.alts b).op
    → Roomy w (suc k)
    → Queued w (put_side w b (addarray (side (w.chans (w.alts b).c) (w.alts b).op) b)) b k
put_side-added w b k h r =
    let x = w.alts b in
    let ar = side (w.chans x.c) x.op in
    let sized = Roomy-IsSized w (suc k) x.c x.op h r in
    record {
      rings = Rings-put_side w b (addarray ar b) h;
      room = record {
        fits = λ c op h'.
            rw (side-put_side w b (addarray ar b) c op h h')
              (elim (Bool-cases (x.c == c && (x.op == op))) [
                | inl here ↦ rw here (addarray-occurs ar b 0 sized).1
                | inr other ↦ rw other (r.fits c op h')
              ]);
        small = λ c op h'.
            rw (side-put_side w b (addarray ar b) c op h h')
              (elim (Bool-cases (x.c == c && (x.op == op))) [
                | inl here ↦
                    rw here (addarray-small (side (w.chans x.c) x.op) b k (r.small x.c x.op h))
                | inr other ↦ let s = r.small c op h' in rw other (omega arith)
              ]);
      };
      more = λ c op p h'.
          rw (side-put_side w b (addarray ar b) c op h h')
            (elim (Bool-cases (x.c == c && (x.op == op))) [
              | inl here ↦
                  rw (here, entry-here w.alts b c op p here)
                    (same_side
                      (λ c op.
                        occurs (addarray ar b).a (addarray ar b).n p
                        ≡ waits w c op p + (if b == p then 1 else 0))
                      w b c op here (addarray-occurs ar b p sized).2)
              | inr other ↦ rw (other, entry-other w.alts b c op p other) (omega arith)
            ]);
    }

-- altqueue adds its operation, once, to those that wait, and changes nothing else.
pub altqueue-Queued :
    (b : Ptr) (w : World) (k : ℕ)
    → IsOp (w.alts b).op
    → Roomy w (suc k)
    → Returns (λ _ v. Queued w v b k) (altqueue b w)
altqueue-Queued b w k h r =
    subst (Returns (λ _ v. Queued w v b k)) (sym (altqueue_lem b w h)) (put_side-added w b k h r)

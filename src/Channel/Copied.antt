-- ===== src/Channel/Copied.antt =====
-- What `altcopy` leaves as it is: the operations that wait, and all but channels and bytes.
use libtask_annotation.Base.{
  ℕ, zero, suc, ◌≡◌, ◌≢◌, inl, inr, refl, ap, sym, subst, ◌∙◌, Ptr, false, ◌∷◌, arith, ◌==◌,
  Bool-cases,
}
use libtask_annotation.World.{Channel, World}
use libtask_annotation.Flow.{Returns, Returns-both}
use libtask_annotation.Channel.{copy_between, altcopy, take_element, put_element, slot}
use libtask_annotation.Channel.Bytes.{Memory, read}
use libtask_annotation.Channel.Fifo.{items, contents, IsRing}
use libtask_annotation.Channel.Transfer.{queued}
use libtask_annotation.Channel.Copy.{Meets, Passed, altcopy-fifo}
use libtask_annotation.Channel.Entries.{occurs}
use libtask_annotation.Channel.Waiting.{side, waits, Roomy, Rings}

-- What changes where only bytes and the counters of channels do.
abbrev pub Copied : World → World → Type 0
Copied w v =
    (v ≡ record w { mem = v.mem; chans = v.chans })
    × ((c : Ptr)
        → v.chans c ≡ record (w.chans c) { nbuf = (v.chans c).nbuf; off = (v.chans c).off })

take_element-Copied : (c dst : Ptr) (w : World) → Copied w (take_element c dst w)
unfolding take_element
take_element-Copied c dst w = (refl, λ d. ground arith)

put_element-Copied : (c src : Ptr) (w : World) → Copied w (put_element c src w)
unfolding put_element
put_element-Copied c src w = (refl, λ d. ground arith)

Copied-trans : (u v w : World) → Copied u v → Copied v w → Copied u w
Copied-trans u v w r s = (
  s.0 ∙ ap (λ (x : World). record x { mem = w.mem; chans = w.chans }) r.0,
  λ c.
      s.1 c
      ∙ ap (λ (x : Channel). record x { nbuf = (w.chans c).nbuf; off = (w.chans c).off }) (r.1 c),
)

copy_between-Copied :
    (c s r : Ptr) (w : World)
    → s ≢ 0
    → r ≢ 0
    → IsRing (w.chans c)
    → Returns (λ _ v. Copied w v) (copy_between c s r w)
unfolding copy_between
copy_between-Copied c s r w ne ne' ring = elim (Bool-cases ((w.chans c).nbuf == 0)) [
  | inl empty ↦
      let s0 : (s == 0) ≡ false = ground arith in
      let r0 : (r == 0) ≡ false = ground arith in rw (s0, r0, empty) (refl, λ d. refl)
  | inr full ↦
      let used = ring.used in
      let s0 : (s == 0) ≡ false = ground arith in
      let r0 : (r == 0) ≡ false = ground arith in
      let b0 : ((w.chans c).bufsize == 0) ≡ false = ground arith in
      let u = take_element c (w.alts r).v w in
      rw (s0, r0, full, b0)
        (Copied-trans w u (put_element c (w.alts s).v u) (take_element-Copied c (w.alts r).v w)
          (put_element-Copied c (w.alts s).v u))
]

-- The message has been passed, and nothing else has changed.
pub altcopy-Copied :
    (c s r : Ptr) (w : World)
    → Meets w c s r
    → Returns (λ _ v. Passed w c s r v × Copied w v) (altcopy s r w)
      × Returns (λ _ v. Passed w c s r v × Copied w v) (altcopy r s w)
altcopy-Copied c s r w h =
    let e : altcopy s r w ≡ copy_between c s r w =
      unfold altcopy in ground (arith, h.sender, h.receiver) in
    let e' : altcopy r s w ≡ copy_between c s r w =
      unfold altcopy in ground (arith, h.sender, h.receiver) in
    let (passed, passed') = altcopy-fifo c s r w h in
    let copied = copy_between-Copied c s r w h.sender.0 h.receiver.0 h.ring in
    (
      Returns-both _ _ (altcopy s r w) passed (rw e copied),
      Returns-both _ _ (altcopy r s w) passed' (rw e' copied),
    )

pub Copied-waits : (w v : World) (c op p : ℕ) → Copied w v → waits v c op p ≡ waits w c op p
Copied-waits w v c op p r = ap (λ (x : Channel). occurs (side x op).a (side x op).n p) (r.1 c)

pub Copied-Roomy : (w v : World) (k : ℕ) → Copied w v → Roomy w k → Roomy v k
Copied-Roomy w v k r room = record {
  fits = λ c op h. rw (ap (λ (x : Channel). side x op) (r.1 c)) (room.fits c op h);
  small = λ c op h. rw (ap (λ (x : Channel). side x op) (r.1 c)) (room.small c op h);
}

-- The arrays of a channel are no part of its ring.
items-arrays :
    (m : Memory) (x : Channel) (n off : ℕ) (y : Channel)
    → items m (record x { asend = y.asend; arecv = y.arecv }) n off ≡ items m x n off
unfolding items
items-arrays m x zero off y = refl
items-arrays m x (suc n) off y = ap (◌∷◌ (read m (slot x off) x.elemsize)) (items-arrays m x n _ y)

IsRing-arrays : (x y : Channel) → IsRing x → IsRing (record x { asend = y.asend; arecv = y.arecv })
IsRing-arrays x y r = record {
  used = r.used;
  start = r.start;
  small = r.small;
  bytes = r.bytes;
  buf = r.buf;
}

Rings-queued : (v u : World) (c : Ptr) → Rings v u → queued u c ≡ queued v c
Rings-queued v u c r =
    ap (λ (x : World). contents x.mem (u.chans c)) r.0
    ∙ ap (contents v.mem) (r.1 c)
    ∙ unfold contents in items-arrays v.mem (v.chans c) (v.chans c).nbuf (v.chans c).off (u.chans c)

pub Rings-Passed : (w v u : World) (c s r : Ptr) → Rings v u → Passed w c s r v → Passed w c s r u
Rings-Passed w v u c s r rings p = record {
  ring = subst IsRing (sym (rings.1 c)) (IsRing-arrays (v.chans c) (u.chans c) p.ring);
  fifo =
      let bytes : u.mem ≡ v.mem = ap (λ (x : World). x.mem) rings.0 in
      rw (Rings-queued v u c rings, bytes) p.fifo;
}

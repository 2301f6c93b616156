-- ===== src/Channel/Transfer.antt =====
-- What the parts of `altcopy` do to the messages in a channel.
use libtask_annotation.Base.{
  ℕ, ◌+◌, ◌%◌, ◌^◌, ◌<◌, ◌≡◌, ◌≢◌, inl, inr, sym, ap, ap₂, ◌∙◌, Ptr, List, [], ◌∷◌, ◌++◌, true,
  false, arith, ◌==◌, ==_refl, if◌then◌else◌, inc32, dec32,
}
use native.Mathlib.Nat.{mod-lt}
use libtask_annotation.World.{World}
use libtask_annotation.Flow.{Returns}
use libtask_annotation.Channel.{slot, put_element, take_element, copy_between}
use libtask_annotation.Channel.Bytes.{read, Apart}
use libtask_annotation.Channel.Fifo.{
  IsRing, OffBuffer, contents, message, put-contents, take-contents, read-amove, read-amove-Apart,
  amove-contents, contents-nil, slot-OffBuffer, message-amove-Apart,
}

-- The messages in the channel at `c`.
abbrev pub queued : World → Ptr → List (List ℕ)
queued w c = contents w.mem (w.chans c)

put_element-chan :
    (c : Ptr) (src : ℕ) (w : World)
    → (put_element c src w).chans c ≡ record (w.chans c) { nbuf = inc32 (w.chans c).nbuf }
unfolding put_element
put_element-chan c src w = rw (==_refl c)

put_element-queued :
    (c : Ptr) (src : ℕ) (w : World)
    → IsRing (w.chans c)
    → (w.chans c).nbuf < (w.chans c).bufsize
    → IsRing ((put_element c src w).chans c)
      × (queued (put_element c src w) c ≡ queued w c ++ message w.mem src (w.chans c).elemsize ∷ [])
put_element-queued c src w r room = (
  rw (put_element-chan c src w) (record {
    used = omega (arith, r.small);
    start = r.start;
    small = r.small;
    bytes = r.bytes;
    buf = r.buf;
  }),
  rw (put_element-chan c src w) (unfold put_element in put-contents w.mem (w.chans c) src r room),
)

take_element-chan :
    (c : Ptr) (dst : ℕ) (w : World)
    → (take_element c dst w).chans c ≡ record (w.chans c) {
      nbuf = dec32 (w.chans c).nbuf;
      off = if inc32 (w.chans c).off == (w.chans c).bufsize then 0 else inc32 (w.chans c).off;
    }
unfolding take_element
take_element-chan c dst w = rw (==_refl c)

take_element-queued :
    (c : Ptr) (dst : ℕ) (w : World)
    → IsRing (w.chans c)
    → 0 < (w.chans c).nbuf
    → dst ≢ 0
    → OffBuffer (w.chans c) dst (w.chans c).elemsize
    → IsRing ((take_element c dst w).chans c)
      × (read (take_element c dst w).mem dst (w.chans c).elemsize ∷ queued (take_element c dst w) c
          ≡ queued w c)
take_element-queued c dst w r some ne apart = (
  rw (take_element-chan c dst w) (record {
    used = omega (arith, r.small, r.used);
    start = ground (arith, r.start, r.small, r.used);
    small = r.small;
    bytes = r.bytes;
    buf = r.buf;
  }),
  rw (take_element-chan c dst w)
      (unfold take_element in take-contents w.mem (w.chans c) dst r some ne apart),
)

Apart-sym : (p n q k : ℕ) → Apart p n q k → Apart q k p n
Apart-sym p n q k (inl h) = inr h
Apart-sym p n q k (inr h) = inl h

-- To put a message into the buffer changes no bytes outside of it.
put_element-read :
    (c : Ptr) (src p n : ℕ) (w : World)
    → IsRing (w.chans c)
    → (w.chans c).nbuf < (w.chans c).bufsize
    → OffBuffer (w.chans c) p n
    → read (put_element c src w).mem p n ≡ read w.mem p n
unfolding put_element
put_element-read c src p n w ring room apart =
    let x = w.chans c in
    let k = (x.off + x.nbuf) % 2 ^ 32 % x.bufsize in
    let lt : k < x.bufsize = mod-lt ((x.off + x.nbuf) % 2 ^ 32) (omega arith) in
    read-amove-Apart w.mem (slot x k) src x.elemsize p n
      (Apart-sym p n (slot x k) x.elemsize (slot-OffBuffer x p n k ring apart lt))

take_element-message :
    (c : Ptr) (dst v : ℕ) (w : World)
    → Apart dst (w.chans c).elemsize v (w.chans c).elemsize
    → message (take_element c dst w).mem v ((take_element c dst w).chans c).elemsize
      ≡ message w.mem v (w.chans c).elemsize
take_element-message c dst v w apart = rw (take_element-chan c dst w) (
    unfold take_element in
    message-amove-Apart w.mem dst _ (w.chans c).elemsize v (w.chans c).elemsize apart)

-- A sender alone: its message goes behind the others.
pub copy_between-send :
    (c s : Ptr) (w : World)
    → s ≢ 0
    → IsRing (w.chans c)
    → (w.chans c).nbuf < (w.chans c).bufsize
    → Returns
        (λ _ v.
          IsRing (v.chans c)
          × (queued v c ≡ queued w c ++ message w.mem (w.alts s).v (w.chans c).elemsize ∷ []))
        (copy_between c s 0 w)
unfolding copy_between
copy_between-send c s w ne r room =
    let e : (s == 0) ≡ false = ground arith in
    let e' : ((w.chans c).bufsize == 0) ≡ false = ground arith in
    rw (e, e') (put_element-queued c (w.alts s).v w r room)

pub copy_between-receive :
    (c r : Ptr) (w : World)
    → r ≢ 0
    → IsRing (w.chans c)
    → 0 < (w.chans c).nbuf
    → (w.alts r).v ≢ 0
    → OffBuffer (w.chans c) (w.alts r).v (w.chans c).elemsize
    → Returns
        (λ _ v.
          IsRing (v.chans c)
          × (read v.mem (w.alts r).v (w.chans c).elemsize ∷ queued v c ≡ queued w c))
        (copy_between c 0 r w)
unfolding copy_between
copy_between-receive c r w ne ring some ne' apart =
    let e : (r == 0) ≡ false = ground arith in
    rw e (take_element-queued c (w.alts r).v w ring some ne' apart)

-- Both at a channel without messages: the message goes from one to the other.
pub copy_between-direct :
    (c s r : Ptr) (w : World)
    → s ≢ 0
    → r ≢ 0
    → IsRing (w.chans c)
    → (w.chans c).nbuf ≡ 0
    → (w.alts r).v ≢ 0
    → OffBuffer (w.chans c) (w.alts r).v (w.chans c).elemsize
    → Returns
        (λ _ v.
          IsRing (v.chans c)
          × (read v.mem (w.alts r).v (w.chans c).elemsize ∷ queued v c
              ≡ queued w c ++ message w.mem (w.alts s).v (w.chans c).elemsize ∷ []))
        (copy_between c s r w)
unfolding copy_between
copy_between-direct c s r w ne ne' ring empty ne'' apart =
    let e : (s == 0) ≡ false = ground arith in
    let e' : (r == 0) ≡ false = ground arith in
    let e'' : ((w.chans c).nbuf == 0) ≡ true = ground arith in
    let n = (w.chans c).elemsize in
    let none : queued w c ≡ [] = contents-nil w.mem (w.chans c) empty in
    rw (e, e', e'')
      (
        ring,
        ap₂ ◌∷◌ (read-amove w.mem (w.alts r).v (w.alts s).v n ne'')
              (amove-contents w.mem (w.chans c) (w.alts r).v (w.alts s).v n ring apart ∙ none)
            ∙ ap (λ (q : List (List ℕ)). q ++ message w.mem (w.alts s).v n ∷ []) (sym none),
      )

-- Both at a channel with messages: the receiver takes the oldest, and the sender's goes last.
pub copy_between-exchange :
    (c s r : Ptr) (w : World)
    → s ≢ 0
    → r ≢ 0
    → IsRing (w.chans c)
    → 0 < (w.chans c).nbuf
    → (w.alts r).v ≢ 0
    → OffBuffer (w.chans c) (w.alts r).v (w.chans c).elemsize
    → Apart (w.alts r).v (w.chans c).elemsize (w.alts s).v (w.chans c).elemsize
    → Returns
        (λ _ v.
          IsRing (v.chans c)
          × (read v.mem (w.alts r).v (w.chans c).elemsize ∷ queued v c
              ≡ queued w c ++ message w.mem (w.alts s).v (w.chans c).elemsize ∷ []))
        (copy_between c s r w)
unfolding copy_between
copy_between-exchange c s r w ne ne' ring some ne'' apart apart' =
    let e : (s == 0) ≡ false = ground arith in
    let e' : (r == 0) ≡ false = ground arith in
    let e'' : ((w.chans c).nbuf == 0) ≡ false = ground arith in
    let b : ((w.chans c).bufsize == 0) ≡ false = ground (arith, ring.used) in
    let n = (w.chans c).elemsize in
    let w' = take_element c (w.alts r).v w in
    let took = take_element-queued c (w.alts r).v w ring some ne'' apart in
    let room : (w'.chans c).nbuf < (w'.chans c).bufsize =
      rw (take_element-chan c (w.alts r).v w) (omega (arith, ring.used, ring.small)) in
    let off : OffBuffer (w'.chans c) (w.alts r).v n =
      rw (take_element-chan c (w.alts r).v w) apart in
    let put = put_element-queued c (w.alts s).v w' took.0 room in
    rw (e, e', e'', b)
      (
        put.0,
        ap₂ ◌∷◌ (put_element-read c (w.alts s).v (w.alts r).v n w' took.0 room off) put.1
            ∙ ap₂ (λ (q : List (List ℕ)) (a : List ℕ). q ++ a ∷ []) took.1
                (take_element-message c (w.alts r).v (w.alts s).v w apart'),
      )

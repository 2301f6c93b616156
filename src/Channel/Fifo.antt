-- ===== src/Channel/Fifo.antt =====
-- The ring of a channel's buffer, as the list of the messages in it, oldest first.
use libtask_annotation.Base.{
  ℕ, zero, suc, ◌+◌, ◌-◌, ◌*◌, ◌%◌, ◌^◌, ◌≤◌, ◌<◌, ◌≡◌, ◌≢◌, inl, inr, refl, ap, ap₂, subst, ◌∙◌,
  List, [], ◌∷◌, ◌++◌, arith, ◌==◌, if◌then◌else◌, dec_lt, ltb, inc32, dec32, sym,
}
use native.Mathlib.Nat.{mod-eq_of_lt, mod-eq-sub-mod}
use libtask_annotation.World.{Channel}
use libtask_annotation.Channel.{amove, slot}
use libtask_annotation.Channel.Bytes.{
  Memory, read, zeros, Apart, read-memmove, read-memmove-Apart, read-clear, read-clear-Apart,
  slots-Apart,
}

abbrev pub next : (bufsize off : ℕ) → ℕ
next b off = if off + 1 == b then 0 else off + 1

-- The slot that lies `n` behind `off`.
abbrev pub behind : (bufsize off n : ℕ) → ℕ
behind b off n = if ltb (off + n) b then off + n else off + n - b

-- The `n` messages from slot `off` on.
unfoldable pub items : Memory → Channel → (n off : ℕ) → List (List ℕ)
items m x zero off = []
items m x (suc n) off = read m (slot x off) x.elemsize ∷ items m x n (next x.bufsize off)

unfoldable pub contents : Memory → Channel → List (List ℕ)
contents m x = items m x x.nbuf x.off

-- The message that `amove` reads at `v`: `nil` stands for zeros.
unfoldable pub message : Memory → (v n : ℕ) → List ℕ
message m v n = if v == 0 then zeros n else read m v n

-- The counters of the ring are in range, and its bytes are addressed without overflow.
pub record IsRing (x : Channel) : Type 0 where
  pub used : x.nbuf ≤ x.bufsize
  pub start : x.off ≤ x.bufsize - 1
  pub small : x.bufsize < 2 ^ 31
  pub bytes : x.bufsize * x.elemsize < 2 ^ 32
  pub buf : x.buf ≢ 0

abbrev Skips : Channel → (n off j : ℕ) → Type 0
Skips x zero off j = Unit
Skips x (suc n) off j = (off ≢ j) × Skips x n (next x.bufsize off) j

behind-next : (b off k : ℕ) → off < b → suc k < b → behind b (next b off) k ≡ behind b off (suc k)
behind-next b off k lt room = ground arith

Skips-behind :
    (x : Channel) (n off k : ℕ)
    → off < x.bufsize
    → n ≤ k
    → k < x.bufsize
    → Skips x n off (behind x.bufsize off k)
Skips-behind x zero off k lt le room = tt
Skips-behind x (suc n) off zero lt le room = absurd (omega arith)
Skips-behind x (suc n) off (suc k) lt le room = (
  ground arith,
  subst (Skips x n (next x.bufsize off)) (behind-next x.bufsize off k lt room)
      (Skips-behind x n (next x.bufsize off) k (ground arith) (omega arith) (omega arith)),
)

Skips-bufsize : (x : Channel) (n off : ℕ) → off < x.bufsize → Skips x n off x.bufsize
Skips-bufsize x zero off lt = tt
Skips-bufsize x (suc n) off lt =
    (omega arith, Skips-bufsize x n (next x.bufsize off) (ground arith))

items-ext :
    (m g : Memory) (x : Channel) (n off j : ℕ)
    → ((i : ℕ)
        → i < x.bufsize
        → i ≢ j
        → read g (slot x i) x.elemsize ≡ read m (slot x i) x.elemsize)
    → off < x.bufsize
    → Skips x n off j
    → items g x n off ≡ items m x n off
unfolding items
items-ext m g x zero off j same lt s = refl
items-ext m g x (suc n) off j same lt s =
    ap₂ ◌∷◌ (same off lt s.0) (items-ext m g x n (next x.bufsize off) j same (ground arith) s.1)

items-snoc :
    (m : Memory) (x : Channel) (n off : ℕ)
    → off < x.bufsize
    → n < x.bufsize
    → items m x (suc n) off
      ≡ items m x n off ++ read m (slot x (behind x.bufsize off n)) x.elemsize ∷ []
unfolding items
items-snoc m x zero off lt room = ap (λ (k : ℕ). read m (slot x k) x.elemsize ∷ []) (ground arith)
items-snoc m x (suc n) off lt room = ap (◌∷◌ (read m (slot x off) x.elemsize)) (
    items-snoc m x n (next x.bufsize off) (ground arith) (omega arith)
    ∙ ap (λ (k : ℕ). items m x n (next x.bufsize off) ++ read m (slot x k) x.elemsize ∷ [])
        (behind-next x.bufsize off n lt room))

-- The bytes of slot `i` and where they lie.
slot-eq : (x : Channel) (i : ℕ) → IsRing x → i < x.bufsize → slot x i ≡ x.buf + i * x.elemsize
slot-eq x i r lt = grind (arith, r.bytes)

-- The slots of a ring are different ranges of bytes.
slot-Apart :
    (x : Channel) (i j : ℕ)
    → IsRing x
    → i < x.bufsize
    → j < x.bufsize
    → i ≢ j
    → Apart (slot x j) x.elemsize (slot x i) x.elemsize
slot-Apart x i j r lt lt' ne =
    rw (slot-eq x i r lt, slot-eq x j r lt') (slots-Apart x.buf x.elemsize j i (λ e. ne (sym e)))

pub read-amove :
    (m : Memory) (dst src n : ℕ) → dst ≢ 0 → read (amove m dst src n) dst n ≡ message m src n
unfolding amove message
read-amove m dst src n ne = ground (arith, read-memmove m dst src n, read-clear m dst n)

pub read-amove-Apart :
    (m : Memory) (dst src n p k : ℕ) → Apart dst n p k → read (amove m dst src n) p k ≡ read m p k
unfolding amove
read-amove-Apart m dst src n p k apart =
    ground (arith, read-memmove-Apart m dst src n p k apart, read-clear-Apart m dst n p k apart)

-- The counters do not change where the slots are.
items-counters :
    (m : Memory) (x : Channel) (nbuf start n off : ℕ)
    → items m (record x { nbuf = nbuf; off = start }) n off ≡ items m x n off
unfolding items
items-counters m x nbuf start zero off = refl
items-counters m x nbuf start (suc n) off =
    ap (◌∷◌ (read m (slot x off) x.elemsize)) (items-counters m x nbuf start n (next x.bufsize off))

-- The slot that `altcopy` computes for a new message.
free_slot : (off n b : ℕ) → off < b → n < b → b < 2 ^ 31 → (off + n) % 2 ^ 32 % b ≡ behind b off n
free_slot off n b lt room small =
    let word : (off + n) % 2 ^ 32 ≡ off + n = omega arith in
    rw word (elim (dec_lt (off + n) b) [
      | yes h ↦ mod-eq_of_lt h ∙ ground arith
      | no h ↦ mod-eq-sub-mod (omega arith) ∙ mod-eq_of_lt (omega arith) ∙ ground arith
    ])

slot-ne_zero : (x : Channel) (i : ℕ) → IsRing x → slot x i ≢ 0
slot-ne_zero x i r = let ne = r.buf in omega arith

-- A message goes behind the others.
pub put-contents :
    (m : Memory) (x : Channel) (src : ℕ)
    → IsRing x
    → x.nbuf < x.bufsize
    → contents
        (amove m (slot x ((x.off + x.nbuf) % 2 ^ 32 % x.bufsize)) src x.elemsize)
        (record x { nbuf = inc32 x.nbuf })
      ≡ contents m x ++ message m src x.elemsize ∷ []
unfolding contents
put-contents m x src r room =
    let start : x.off < x.bufsize = omega (arith, r.start) in
    let k = behind x.bufsize x.off x.nbuf in
    let g = amove m (slot x k) src x.elemsize in
    let more : inc32 x.nbuf ≡ suc x.nbuf = omega (arith, r.small) in
    let inside : k < x.bufsize = ground arith in
    rw (free_slot x.off x.nbuf x.bufsize start room r.small, more)
      (items-counters g x (suc x.nbuf) x.off (suc x.nbuf) x.off
        ∙ items-snoc g x x.nbuf x.off start room
        ∙ ap₂ (λ (a b : List (List ℕ)). a ++ b)
            (items-ext m g x x.nbuf x.off k
              (λ i lt ne.
                read-amove-Apart m (slot x k) src x.elemsize (slot x i) x.elemsize
                  (slot-Apart x i k r lt inside ne))
              start (Skips-behind x x.nbuf x.off x.nbuf start (omega arith) room))
            (ap (λ (a : List ℕ). a ∷ [])
              (read-amove m (slot x k) src x.elemsize (slot-ne_zero x k r))))

-- The bytes of the buffer.
abbrev pub OffBuffer : Channel → (p n : ℕ) → Type 0
OffBuffer x p n = Apart p n x.buf (x.bufsize * x.elemsize)

pub slot-OffBuffer :
    (x : Channel) (p n i : ℕ)
    → IsRing x
    → OffBuffer x p n
    → i < x.bufsize
    → Apart p n (slot x i) x.elemsize
slot-OffBuffer x p n i r (inl h) lt = inl (omega (arith, slot-eq x i r lt))
slot-OffBuffer x p n i r (inr h) lt = inr (rw (slot-eq x i r lt) (grind arith))

-- Memory `g` differs from `m` in the `n` bytes at `p` only.
abbrev pub Beside : (m g : Memory) → (p n : ℕ) → Type 0
Beside m g p n = (q k : ℕ) → Apart p n q k → read g q k ≡ read m q k

-- What happens outside of the buffer changes no message.
outside-items :
    (m g : Memory) (x : Channel) (p n k off : ℕ)
    → IsRing x
    → OffBuffer x p n
    → Beside m g p n
    → off < x.bufsize
    → items g x k off ≡ items m x k off
outside-items m g x p n k off r apart beside start =
    items-ext m g x k off x.bufsize
      (λ i lt ne. beside (slot x i) x.elemsize (slot-OffBuffer x p n i r apart lt)) start
      (Skips-bufsize x k off start)

pub outside-contents :
    (m g : Memory) (x : Channel) (p n : ℕ)
    → IsRing x
    → OffBuffer x p n
    → Beside m g p n
    → contents g x ≡ contents m x
unfolding contents items
outside-contents m g x p n r apart beside = elim (dec_lt x.off x.bufsize) [
  | yes start ↦ outside-items m g x p n x.nbuf x.off r apart beside start
  | no h ↦
      let none : x.nbuf ≡ 0 = omega (arith, r.start, r.used) in
      ap (λ (k : ℕ). items g x k x.off) none ∙ ap (λ (k : ℕ). items m x k x.off) (sym none)
]

-- A write outside of the buffer changes no message.
pub amove-contents :
    (m : Memory) (x : Channel) (dst src n : ℕ)
    → IsRing x
    → OffBuffer x dst n
    → contents (amove m dst src n) x ≡ contents m x
amove-contents m x dst src n r apart =
    outside-contents m (amove m dst src n) x dst n r apart
      (λ q k a. read-amove-Apart m dst src n q k a)

message-slot :
    (m : Memory) (x : Channel) (i : ℕ)
    → IsRing x
    → message m (slot x i) x.elemsize ≡ read m (slot x i) x.elemsize
unfolding message
message-slot m x i r = ground (arith, slot-ne_zero x i r)

-- The oldest message goes to `dst`, and the others stay.
pub take-contents :
    (m : Memory) (x : Channel) (dst : ℕ)
    → IsRing x
    → 0 < x.nbuf
    → dst ≢ 0
    → OffBuffer x dst x.elemsize
    → read (amove m dst (slot x x.off) x.elemsize) dst x.elemsize
        ∷ contents (amove m dst (slot x x.off) x.elemsize) (record x {
          nbuf = dec32 x.nbuf;
          off = if inc32 x.off == x.bufsize then 0 else inc32 x.off;
        })
      ≡ contents m x
unfolding contents items
take-contents m x dst r some ne apart =
    let start : x.off < x.bufsize = omega (arith, r.start, r.used) in
    let g = amove m dst (slot x x.off) x.elemsize in
    let k = x.nbuf - 1 in
    let fewer : dec32 x.nbuf ≡ k = omega (arith, r.used, r.small) in
    let on : (if inc32 x.off == x.bufsize then 0 else inc32 x.off) ≡ next x.bufsize x.off =
      ground (arith, r.small) in
    ap₂ ◌∷◌ (read-amove m dst (slot x x.off) x.elemsize ne ∙ message-slot m x x.off r) (
      ap₂ (λ (n o : ℕ). items g (record x { nbuf = n; off = o }) n o) fewer on
      ∙ items-counters g x k (next x.bufsize x.off) k (next x.bufsize x.off)
      ∙ outside-items m g x dst x.elemsize k (next x.bufsize x.off) r apart
          (λ q j a. read-amove-Apart m dst (slot x x.off) x.elemsize q j a) (ground arith))
    ∙ ap (λ (n : ℕ). items m x n x.off) (let h : suc k ≡ x.nbuf = omega arith in h)

pub contents-nil : (m : Memory) (x : Channel) → x.nbuf ≡ 0 → contents m x ≡ []
unfolding contents items
contents-nil m x none = ap (λ (k : ℕ). items m x k x.off) none

pub message-amove-Apart :
    (m : Memory) (dst src n v k : ℕ)
    → Apart dst n v k
    → message (amove m dst src n) v k ≡ message m v k
unfolding message
message-amove-Apart m dst src n v k apart = ground (arith, read-amove-Apart m dst src n v k apart)

-- ===== src/Channel/Bytes.antt =====
-- The bytes of memory, `memmove` and `memset` on them, and what a range of bytes holds.
use libtask_annotation.Base.{
  ℕ, zero, suc, ◌+◌, ◌-◌, ◌*◌, ◌≤◌, ◌<◌, ◌≡◌, ◌≢◌, ◌⊎◌, inl, inr, refl, ◌&&◌, List, [], ◌∷◌, arith,
  leb, ltb, dec_lt, if◌then◌else◌,
}

abbrev pub Memory : Type 0
Memory = ℕ → ℕ

-- `memmove(dst, src, n)`: the bytes read are the old ones, also where the ranges overlap.
unfoldable pub memmove : Memory → (dst src n : ℕ) → Memory
memmove m dst src n a = if leb dst a && ltb a (dst + n) then m (src + (a - dst)) else m a

-- `memset(dst, 0, n)`
unfoldable pub clear : Memory → (dst n : ℕ) → Memory
clear m dst n a = if leb dst a && ltb a (dst + n) then 0 else m a

-- The `n` bytes at `p`.
unfoldable pub read : Memory → (p n : ℕ) → List ℕ
read m p zero = []
read m p (suc n) = m p ∷ read m (p + 1) n

unfoldable pub zeros : ℕ → List ℕ
zeros zero = []
zeros (suc n) = 0 ∷ zeros n

-- The `n` bytes at `p` and the `k` bytes at `q` do not overlap.
abbrev pub Apart : (p n q k : ℕ) → Type 0
Apart p n q k = (p + n ≤ q) ⊎ (q + k ≤ p)

pub read-ext :
    (m g : Memory) (p q n : ℕ) → ((i : ℕ) → i < n → g (p + i) ≡ m (q + i)) → read g p n ≡ read m q n
unfolding read
read-ext m g p q zero same = refl
read-ext m g p q (suc n) same =
    ground (arith, same 0, read-ext m g (p + 1) (q + 1) n (λ i lt. ground (arith, same (i + 1))))

pub read-memmove : (m : Memory) (dst src n : ℕ) → read (memmove m dst src n) dst n ≡ read m src n
read-memmove m dst src n = read-ext m _ dst src n (λ i lt. unfold memmove in ground arith)

pub read-memmove-Apart :
    (m : Memory) (dst src n p k : ℕ) → Apart dst n p k → read (memmove m dst src n) p k ≡ read m p k
read-memmove-Apart m dst src n p k apart =
    read-ext m _ p p k (λ i lt. unfold memmove in ground arith)

pub read-clear-Apart :
    (m : Memory) (dst n p k : ℕ) → Apart dst n p k → read (clear m dst n) p k ≡ read m p k
read-clear-Apart m dst n p k apart = read-ext m _ p p k (λ i lt. unfold clear in ground arith)

zeros-read : (g : Memory) (p n : ℕ) → ((i : ℕ) → i < n → g (p + i) ≡ 0) → read g p n ≡ zeros n
unfolding read zeros
zeros-read g p zero same = refl
zeros-read g p (suc n) same =
    ground (arith, same 0, zeros-read g (p + 1) n (λ i lt. ground (arith, same (i + 1))))

pub read-clear : (m : Memory) (dst n : ℕ) → read (clear m dst n) dst n ≡ zeros n
read-clear m dst n = zeros-read _ dst n (λ i lt. unfold clear in ground arith)

-- Different slots of an array of `e`-byte elements do not overlap.
pub slots-Apart : (buf e i j : ℕ) → i ≢ j → Apart (buf + i * e) e (buf + j * e) e
slots-Apart buf e i j ne = elim (dec_lt i j) [
  | yes h ↦ inl (grind arith)
  | no h ↦ inr (grind arith)
]

-- ===== src/Channel/Entries.antt =====
-- The entries of an `Altarray`, as a bag: `addarray`, `delarray` and the search of `altdequeue`.
use libtask_annotation.Base.{
  ℕ, zero, suc, ◌+◌, ◌-◌, ◌^◌, ◌≤◌, ◌<◌, ◌≡◌, ◌≢◌, ◌⊎◌, inl, inr, refl, ap, ◌∙◌, Ptr, none, some,
  arith, update, ◌==◌, if◌then◌else◌, dec_lt, inc32, dec32, Bool-cases,
}
use libtask_annotation.World.{Altarray}
use libtask_annotation.Channel.Array.{addarray, delarray, find_from}

-- How often `p` stands among the first `n` cells.
unfoldable pub occurs : (ℕ → Ptr) → (n : ℕ) → Ptr → ℕ
occurs a zero p = 0
occurs a (suc n) p = occurs a n p + (if a n == p then 1 else 0)

occurs-update_of_le :
    (a : ℕ → Ptr) (n i : ℕ) (v p : Ptr) → n ≤ i → occurs (update a i v) n p ≡ occurs a n p
unfolding occurs
occurs-update_of_le a zero i v p h = refl
occurs-update_of_le a (suc n) i v p h = ground (arith, occurs-update_of_le a n i v p)

occurs-update :
    (a : ℕ → Ptr) (n i : ℕ) (v p : Ptr)
    → i < n
    → occurs (update a i v) n p + (if a i == p then 1 else 0)
      ≡ occurs a n p + (if v == p then 1 else 0)
unfolding occurs
occurs-update a zero i v p h = absurd (omega arith)
occurs-update a (suc n) i v p h = elim (dec_lt i n) [
  | yes below ↦ ground (arith, occurs-update a n i v p)
  | no last ↦ ground (arith, occurs-update_of_le a n i v p)
]

-- The array is allocated as far as it is used, and its counters do not overflow.
pub record IsSized (x : Altarray) : Type 0 where
  pub fits : x.n ≤ x.m
  pub small : x.m < 2 ^ 31

occurs-last :
    (a : ℕ → Ptr) (n : ℕ) (v p : Ptr)
    → occurs (update a n v) (suc n) p ≡ occurs a n p + (if v == p then 1 else 0)
unfolding occurs
occurs-last a n v p = ground (arith, occurs-update_of_le a n n v p)

occurs-move :
    (a : ℕ → Ptr) (i k : ℕ) (p : Ptr)
    → i < suc k
    → occurs (update a i (a k)) k p + (if a i == p then 1 else 0) ≡ occurs a (suc k) p
unfolding occurs
occurs-move a i k p lt = elim (dec_lt i k) [
  | yes below ↦ ground (arith, occurs-update a k i (a k) p)
  | no last ↦ ground (arith, occurs-update_of_le a k i (a k) p)
]

-- addarray writes inside the array that it may have grown, adds the entry once, and keeps the
-- others, where less than 2^31 cells were allocated.
pub addarray-occurs :
    (x : Altarray) (alt p : Ptr)
    → IsSized x
    → (x.n < (addarray x alt).m)
      × ((addarray x alt).n ≤ (addarray x alt).m)
      × (occurs (addarray x alt).a (addarray x alt).n p
          ≡ occurs x.a x.n p + (if alt == p then 1 else 0))
unfolding addarray
addarray-occurs x alt p s =
    let more : inc32 x.n ≡ suc x.n = omega (arith, s.fits, s.small) in
    (
      ground (arith, s.fits, s.small),
      ground (arith, s.fits, s.small),
      rw more (occurs-last x.a x.n alt p),
    )

-- delarray takes out what stood at the index, which is one of the array, once, and keeps the
-- others.
pub delarray-occurs :
    (x : Altarray) (i : ℕ) (p : Ptr)
    → IsSized x
    → i < x.n
    → ((delarray x i).n < x.n)
      × (occurs (delarray x i).a (delarray x i).n p + (if x.a i == p then 1 else 0)
          ≡ occurs x.a x.n p)
unfolding delarray
delarray-occurs x i p s lt =
    let k = x.n - 1 in
    let less : dec32 x.n ≡ k = omega (arith, s.fits, s.small) in
    let full : suc k ≡ x.n = omega arith in
    (
      omega (arith, less),
      rw less (occurs-move x.a i k p (omega arith)) ∙ ap (λ (n : ℕ). occurs x.a n p) full,
    )

-- The loop of altdequeue finds an index of the entry, or the entry is not among those searched.
pub find_from-some :
    (a : ℕ → Ptr) (alt : Ptr) (i left : ℕ)
    → ((k : ℕ) × (find_from a alt i left ≡ some k) × (i ≤ k) × (k < i + left) × (a k ≡ alt))
      ⊎ ((find_from a alt i left ≡ none) × ((k : ℕ) → i ≤ k → k < i + left → a k ≢ alt))
unfolding find_from
find_from-some a alt i zero = inr (refl, λ k le lt e. omega arith)
find_from-some a alt i (suc left) = elim (Bool-cases (a i == alt)) [
  | inl hit ↦ inl (i, rw hit, omega arith, omega arith, ground arith)
  | inr miss ↦ rw miss (elim (find_from-some a alt (i + 1) left) [
    | inl (k, e, le, lt, at) ↦ inl (k, e, omega arith, omega arith, at)
    | inr (e, out) ↦ inr (e, λ k le lt. ground (arith, out k))
  ])
]

-- ===== src/Channel/Select.antt =====
-- How `chanalt` picks an operation, and what it does when none can be carried out.
use libtask_annotation.Base.{
  ℕ, zero, suc, ◌+◌, ◌-◌, ◌%◌, ◌≤◌, ◌<◌, ◌≡◌, ◌⊎◌, inl, inr, refl, sym, ap, ◌∙◌, Ptr, Option, none,
  some, true, false, arith, ◌==◌, Bool-cases, update,
}
use native.Mathlib.Nat.{mod-lt}
use libtask_annotation.World.{World, Alt}
use libtask_annotation.Flow.{Flow, done, pure, and_then, and_then_assoc}
use libtask_annotation.Channel.{altcanexec, channoblk, is_last}
use libtask_annotation.Task.{has_stack, needstack}
use libtask_annotation.Channel.Alts.{
  count_can, nth_can, exec_one, alt_wait, draw, mark, alts_len, chanalt, altexec, or_wait, alt_body,
  exec_at,
}

shift :
    (w : World) (a : Ptr) (k : ℕ)
    → altcanexec w (a + 1 + k) ≡ true
    → altcanexec w (a + suc k) ≡ true
shift w a k can = let e : a + suc k ≡ a + 1 + k = omega arith in rw e can

-- The loop of chanalt finds the entry that it is to run: for each j below the count there is one
-- among the entries, it can be carried out, and exactly j before it can.
pub nth_can-some :
    (n : ℕ) (w : World) (a : Ptr) (i j : ℕ)
    → j < count_can n w a
    → (k : ℕ) × (nth_can n w a i j ≡ some (i + k))
      × (k < n)
      × (altcanexec w (a + k) ≡ true)
      × (count_can k w a ≡ j)
unfolding nth_can count_can
nth_can-some zero w a i j h = absurd (omega arith)
nth_can-some (suc n) w a i j h = elim (Bool-cases (altcanexec w a)) [
  | inl can ↦ elim (Bool-cases (j == 0)) [
    | inl first ↦
        let a' : a + 0 ≡ a = omega arith in
        let i' : i + 0 ≡ i = omega arith in
        (0, rw (can, first, i') refl, omega arith, rw a' can, ground arith)
    | inr not_first ↦
        let (k, e, lt, ok, before) = nth_can-some n w (a + 1) (i + 1) (j - 1) (ground arith) in
        (
          suc k,
          rw (can, not_first) (e ∙ ap (λ (x : ℕ). some x) (omega arith)),
          omega arith,
          shift w a k ok,
          rw can (ground (arith, before)),
        )
  ]
  | inr cannot ↦
      let (k, e, lt, ok, before) = nth_can-some n w (a + 1) (i + 1) j (ground arith) in
      (
        suc k,
        rw cannot (e ∙ ap (λ (x : ℕ). some x) (omega arith)),
        omega arith,
        shift w a k ok,
        rw cannot (ground (arith, before)),
      )
]

-- `mark` changes neither the operation nor the channel of an entry.
pub mark-op :
    (n : ℕ) (a base t : Ptr) (f : Ptr → Alt) (b : Ptr)
    → ((mark n a base t f b).op ≡ (f b).op) × ((mark n a base t f b).c ≡ (f b).c)
unfolding mark
mark-op zero a base t f b = (refl, refl)
mark-op (suc n) a base t f b =
    ground (arith, mark-op n (a + 1) base t (update f a (record (f a) { task = t; xalt = base })) b)

-- The entry at `b` of an array of `n` entries at `a`, and every other: what it is when `t` has filled
-- in the array.
abbrev pub FilledAs : (n : ℕ) → (a base t b : Ptr) → Alt → Alt → Type 0
FilledAs n a base t b x y =
    (y.c ≡ x.c)
    × (y.v ≡ x.v)
    × (y.op ≡ x.op)
    × (a ≤ b → b < a + n → (y.task ≡ t) × (y.xalt ≡ base))
    × (b < a ⊎ (a + n ≤ b) → y ≡ x)

mark-Filled :
    (n : ℕ) (a base t : Ptr) (f : Ptr → Alt) (b : Ptr)
    → FilledAs n a base t b (f b) (mark n a base t f b)
unfolding mark
mark-Filled zero a base t f b = (refl, refl, refl, λ le lt. absurd (omega arith), λ out. refl)
mark-Filled (suc n) a base t f b =
    let g = update f a (record (f a) { task = t; xalt = base }) in
    let (c, v, op, inside, outside) = mark-Filled n (a + 1) base t g b in
    (
      ground (arith, c),
      ground (arith, v),
      ground (arith, op),
      λ le lt. elim (Bool-cases (b == a)) [
        | inl here ↦ ground (arith, outside)
        | inr other ↦ inside (ground arith) (ground arith)
      ],
      λ out. elim out [
        | inl lt ↦ outside (inl (omega arith)) ∙ ground arith
        | inr le ↦ outside (inr (omega arith)) ∙ ground arith
      ],
    )

-- The state in which `chanalt` has filled in its array.
abbrev pub marked : (n : ℕ) → Ptr → World → World
marked n a w = record w { alts = mark n a a w.taskrunning w.alts }

altcanexec-marked :
    (n : ℕ) (a : Ptr) (w : World) (b : Ptr) → altcanexec (marked n a w) b ≡ altcanexec w b
unfolding altcanexec
altcanexec-marked n a w b = let (op, c) = mark-op n a a w.taskrunning w.alts b in rw (op, c)

count_can-ext :
    (n : ℕ) (w v : World) (a : Ptr)
    → ((b : Ptr) → altcanexec v b ≡ altcanexec w b)
    → count_can n v a ≡ count_can n w a
unfolding count_can
count_can-ext zero w v a same = refl
count_can-ext (suc n) w v a same = ground (arith, same a, count_can-ext n w v (a + 1) same)

alts_len-later :
    (w : World) (a : Ptr) (n : ℕ)
    → is_last (w.alts a).op ≡ false
    → is_last (w.alts (a + n)).op ≡ true
    → 0 < n
alts_len-later w a zero more last =
    let e : a + 0 ≡ a = omega arith in let h = rw e at last in ground arith
alts_len-later w a (suc n) more last = omega arith

alts_len-some :
    (fuel : ℕ) (w : World) (a : Ptr) (n : ℕ)
    → n < fuel
    → is_last (w.alts (a + n)).op ≡ true
    → (k : ℕ) × (alts_len fuel w a ≡ some k) × (k ≤ n) × (is_last (w.alts (a + k)).op ≡ true)
unfolding alts_len
alts_len-some zero w a n lt last = absurd (omega arith)
alts_len-some (suc fuel) w a n lt last = elim (Bool-cases (is_last (w.alts a).op)) [
  | inl here ↦ (0, rw here, omega arith, let e : a + 0 ≡ a = omega arith in rw e here)
  | inr more ↦
      let later = alts_len-later w a n more last in
      let (k, e, le, ok) =
        alts_len-some fuel w (a + 1) (n - 1) (omega (arith, later))
          (let q : a + 1 + (n - 1) ≡ a + n = omega (arith, later) in rw q last) in
      (
        suc k,
        rw (more, e),
        omega (arith, later),
        let q : a + suc k ≡ a + 1 + k = omega arith in rw q ok,
      )
]

alt_wait-noblock :
    (n : ℕ) (a : Ptr) (w : World) → (w.alts (a + n)).op ≡ channoblk → alt_wait n a w ≡ done none w
unfolding alt_wait
alt_wait-noblock n a w e = rw e

pub exec_one-none :
    (rand : ℕ → ℕ) (fuel n : ℕ) (a : Ptr) (w : World)
    → count_can n w a ≡ 0
    → exec_one rand fuel n a w ≡ done none w
unfolding exec_one
exec_one-none rand fuel n a w e = rw e

exec_one-some :
    (rand : ℕ → ℕ) (fuel n k : ℕ) (a : Ptr) (w : World)
    → 0 < count_can n w a
    → nth_can n (record w { draws = w.draws + 1 }) a 0 (rand w.draws % count_can n w a) ≡ some k
    → exec_one rand fuel n a w
      ≡ and_then (altexec rand fuel (a + k) (record w { draws = w.draws + 1 })) (λ _. pure (some k))
unfolding exec_one draw
exec_one-some rand fuel n k a w can e =
    let t : (count_can n w a == 0) ≡ false = ground arith in rw (t, e) (unfold exec_at in refl)

module _ (rand : ℕ → ℕ) (fuel : ℕ) (a : Ptr) (n : ℕ) (w : World) (stack : has_stack 512 w ≡ true)
    (len : alts_len fuel w a ≡ some n) where
  pub chanalt-len :
      chanalt rand fuel a w ≡ and_then (exec_one rand fuel n a (marked n a w)) (or_wait n a)
  unfolding chanalt needstack
  chanalt-len = rw (stack, len) (unfold alt_body in refl)

  pub marked-count : count_can n (marked n a w) a ≡ count_can n w a
  marked-count = count_can-ext n w (marked n a w) a (altcanexec-marked n a w)

  -- chanalt on an array that ends in CHANNOBLK, none of whose operations can be carried out,
  -- returns -1 and changes nothing but the entries of its array: each gets the running task and
  -- the start of the array, and keeps its channel, its operation and the place of its message.
  -- The task has stack left and the array ends within the fuel.
  pub chanalt-noblock :
      count_can n w a ≡ 0
      → (w.alts (a + n)).op ≡ channoblk
      → (v : World) × (chanalt rand fuel a w ≡ done none v)
        × (v ≡ record w { alts = v.alts })
        × ((b : Ptr) → FilledAs n a a w.taskrunning b (w.alts b) (v.alts b))
  chanalt-noblock cannot last = (
    marked n a w,
    chanalt-len
        ∙ ap (λ (f : Flow (Option ℕ)). and_then f (or_wait n a))
            (exec_one-none rand fuel n a (marked n a w) (marked-count ∙ cannot))
        ∙ unfold or_wait in
          alt_wait-noblock n a (marked n a w)
            ((mark-op n a a w.taskrunning w.alts (a + n)).0 ∙ last),
    refl,
    λ b. mark-Filled n a a w.taskrunning w.alts b,
  )

  -- If some operations of its array can be carried out, chanalt carries out exactly one of them
  -- and returns its index: among those that can, the one that the draw of rand names. The task
  -- has stack left and the array ends within the fuel.
  pub chanalt-picks :
      0 < count_can n w a
      → (k : ℕ) × (k < n)
        × (altcanexec w (a + k) ≡ true)
        × (count_can k w a ≡ rand w.draws % count_can n w a)
        × (chanalt rand fuel a w
            ≡ and_then
                (altexec rand fuel (a + k) (record (marked n a w) { draws = w.draws + 1 }))
                (λ _. pure (some k)))
  chanalt-picks can =
      let v : World = record (marked n a w) { draws = w.draws + 1 } in
      let same : (b : Ptr) → altcanexec v b ≡ altcanexec w b =
        λ b. unfold altcanexec in altcanexec-marked n a w b in
      let count : count_can n v a ≡ count_can n w a = count_can-ext n w v a same in
      let j = rand w.draws % count_can n w a in
      let (k, e, lt, ok, before) = nth_can-some n v a 0 j (rw count (mod-lt (rand w.draws) can)) in
      (
        k,
        lt,
        sym (same (a + k)) ∙ ok,
        sym (count_can-ext k w v a same) ∙ before,
        chanalt-len
            ∙ ap (λ (f : Flow (Option ℕ)). and_then f (or_wait n a))
                (exec_one-some rand fuel n k a (marked n a w) (rw marked-count can) (
                  ap (λ (c : ℕ). nth_can n v a 0 (rand w.draws % c)) marked-count
                  ∙ e
                  ∙ ap (λ (x : ℕ). some x) (omega arith)))
            ∙ and_then_assoc (altexec rand fuel (a + k) v) (λ _. pure (some k)) (or_wait n a)
            ∙ unfold or_wait in refl,
      )

-- ===== src/Task/Pointer.antt =====
-- How a pointer reaches a new context: taskalloc splits it in two words, which makecontext hands on,
-- and taskstart joins them. `uint` has 32 bits and `ulong` 64.
use libtask_annotation.Base.{ℕ, ◌*◌, ◌/◌, ◌%◌, ◌^◌, ◌<◌, ◌≡◌, arith, bit_or_word}
use Prim.Native.Nat.{bit_or}

-- `y` and `x` of `taskalloc`.
unfoldable pub split_pointer : ℕ → ℕ × ℕ
split_pointer z = (z % 2 ^ 32, z / 2 ^ 16 / 2 ^ 16 % 2 ^ 32)

-- `z` of `taskstart`; `x<<16` is a `uint`.
unfoldable pub join_pointer : ℕ × ℕ → ℕ
join_pointer (y, x) = bit_or (x * 2 ^ 16 % 2 ^ 32 * 2 ^ 16 % 2 ^ 64) y

-- taskstart joins the 64-bit pointer that taskalloc has split, but for its upper 16 bits, which
-- are lost.
pub join_pointer-split_pointer : (z : ℕ) → z < 2 ^ 64 → join_pointer (split_pointer z) ≡ z % 2 ^ 48
unfolding join_pointer split_pointer
join_pointer-split_pointer z lt =
    let shifted : z / 2 ^ 16 / 2 ^ 16 % 2 ^ 32 * 2 ^ 16 % 2 ^ 32 * 2 ^ 16 % 2 ^ 64
        ≡ z / 2 ^ 32 % 2 ^ 16 * 2 ^ 32 =
      omega arith in
    let low = bit_or_word (z / 2 ^ 32 % 2 ^ 16) (z % 2 ^ 32) (omega arith) in
    rw (shifted, low) (omega arith)

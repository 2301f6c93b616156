-- ===== src/Base/Bits.antt =====
-- `|` of numbers that have no bit in common.
use Prim.Native.Nat.{
  ℕ, zero, suc, ◌+◌, ◌*◌, ◌/◌, ◌^◌, ◌≤◌, ◌<◌, max, bit_or, digits, bit_or-bitwise,
}
use mathlib.Core.Path.{◌≡◌, refl, ◌∙◌}
use native.Mathlib.Omega.{arith}

-- `x`, with `k` zeros behind its binary digits.
abbrev doubled : (k x : ℕ) → ℕ
doubled zero x = x
doubled (suc k) x = doubled k x * 2

abbrev or_digits : (n a b : ℕ) → ℕ
or_digits n a b = digits (λ b. b) max n a b

or_digits-disjoint :
    (k n a x y : ℕ) → a ≡ doubled k x → y < doubled k 1 → a ≤ n → or_digits n a y ≡ a + y
or_digits-disjoint k zero zero x y e lt le = omega arith
or_digits-disjoint k (suc n) zero x y e lt le = omega arith
or_digits-disjoint k zero (suc a) x y e lt le = absurd (omega arith)
or_digits-disjoint zero (suc n) (suc a) x y e lt le = omega (
  arith,
  or_digits-disjoint zero n (suc a / 2) (suc a / 2) (y / 2) refl (omega arith) (omega arith),
)
or_digits-disjoint (suc k) (suc n) (suc a) x y e lt le =
    omega (
      arith,
      or_digits-disjoint k n (suc a / 2) x (y / 2) (omega arith) (omega arith) (omega arith),
    )

pub bit_or_word : (x y : ℕ) → y < 2 ^ 32 → bit_or (x * 2 ^ 32) y ≡ x * 2 ^ 32 + y
bit_or_word x y lt =
    bit_or-bitwise (x * 2 ^ 32) y
    ∙ or_digits-disjoint 32 (x * 2 ^ 32) (x * 2 ^ 32) x y (omega arith) (omega arith) (omega arith)

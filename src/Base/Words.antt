-- ===== src/Base/Words.antt =====
-- 32-bit counters: `int` and `unsigned int` fields are kept as their bit patterns.
use Prim.Native.Nat.{ℕ, ◌+◌, ◌%◌, ◌^◌, ◌-◌}

-- `++x`
abbrev pub inc32 : ℕ → ℕ
inc32 x = (x + 1) % 2 ^ 32

-- `--x`: -1 is the pattern of all ones.
abbrev pub dec32 : ℕ → ℕ
dec32 x = (x + (2 ^ 32 - 1)) % 2 ^ 32

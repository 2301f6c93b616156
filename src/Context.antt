-- ===== src/Context.antt =====
-- `makecontext` of context.c, for the machines whose system has none, and the stack that taskalloc
-- of task.c gives to a new task. Addresses are numbers below 2 ^ 32 or 2 ^ 64, and a store is the
-- words at addresses.
pub mod Amd64
pub mod X86
pub mod Arm
pub mod Mips
pub mod Power
pub mod Entry
pub mod Asm
pub mod Resume
pub mod Start
use libtask_annotation.Base.{ℕ, zero, suc, ◌+◌, ◌-◌, ◌*◌, ◌%◌, ◌^◌, update, ltb, if◌then◌else◌}

-- `stack_t` of the system, as far as the library uses it.
pub record Stack : Type 0 where
  pub ss_sp : ℕ
  pub ss_size : ℕ

-- `t->context.uc.uc_stack` in taskalloc; `stksize-64` is a `uint`.
unfoldable pub task_stack : (stk stksize : ℕ) → Stack
task_stack stk stksize = record { ss_sp = stk + 8; ss_size = (stksize + (2 ^ 32 - 64)) % 2 ^ 32 }

-- `n` bytes below `sp`, of addresses with `w` bits.
abbrev pub below : (w sp n : ℕ) → ℕ
below w sp n = (sp + (2 ^ w - n)) % 2 ^ w

-- `(uintptr_t)sp - (uintptr_t)sp%16`
abbrev pub align16 : ℕ → ℕ
align16 sp = sp - sp % 16

-- `n` ints at `sp` and behind it.
unfoldable pub put_ints : (n : ℕ) → (sp : ℕ) → (ℕ → ℕ) → (ℕ → ℕ) → ℕ → ℕ
put_ints zero sp args m = m
put_ints (suc n) sp args m = update (put_ints n sp args m) (sp + 4 * n) (args n)

-- `for(i=0; i<4 && i<argc; i++)`, with `left` values of `i` up to 4: argument `i` goes to register
-- `i + first`.
unfoldable pub put_regs : (left first i argc : ℕ) → (ℕ → ℕ) → (ℕ → ℕ) → ℕ → ℕ
put_regs zero first i argc args regs = regs
put_regs (suc left) first i argc args regs =
    let rest = put_regs left first (i + 1) argc args (update regs (i + first) (args i)) in
    if ltb i argc then rest else regs

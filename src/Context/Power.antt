-- ===== src/Context/Power.antt =====
-- `struct mcontext` and `struct ucontext` of power-ucontext.h, and `makecontext` for power, whose
-- longs have 32 bits.
use libtask_annotation.Base.{ℕ, ◌+◌, ◌*◌, ◌/◌, ◌%◌, ◌^◌}
use libtask_annotation.Context.{Stack, below}

pub record Mcontext : Type 0 where
  pub pc : ℕ
  pub cr : ℕ
  pub ctr : ℕ
  pub xer : ℕ
  pub sp : ℕ
  pub toc : ℕ
  pub r3 : ℕ
  pub gpr : ℕ → ℕ

pub record Ucontext : Type 0 where
  pub uc_stack : Stack
  pub uc_sigmask : ℕ
  pub mc : Mcontext

-- Of the arguments only the first is handed on.
unfoldable pub makecontext : Ucontext → (func argc : ℕ) → (ℕ → ℕ) → Ucontext
makecontext uc func argc args =
    let tos = (uc.uc_stack.ss_sp + 4 * (uc.uc_stack.ss_size / 4)) % 2 ^ 32 in
    record uc { mc = record uc.mc { pc = func; sp = below 32 tos 64; r3 = args 0 } }

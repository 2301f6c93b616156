-- ===== src/Context/Arm.antt =====
-- `makecontext` for arm, on the fields of the system's `ucontext_t` that it uses.
use libtask_annotation.Base.{ℕ, ◌+◌, ◌*◌, ◌/◌, ◌%◌, ◌^◌, update}
use libtask_annotation.Context.{Stack, put_regs}

-- `gregs` is the array in `uc_mcontext`.
pub record Ucontext : Type 0 where
  pub uc_stack : Stack
  pub gregs : ℕ → ℕ

unfoldable pub makecontext : Ucontext → (fn argc : ℕ) → (ℕ → ℕ) → Ucontext
makecontext uc fn argc args =
    let sp = (uc.uc_stack.ss_sp + 4 * (uc.uc_stack.ss_size / 4)) % 2 ^ 32 in
    record uc { gregs = update (update (put_regs 4 0 0 argc args uc.gregs) 13 sp) 14 fn }

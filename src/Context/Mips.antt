-- ===== src/Context/Mips.antt =====
-- `struct mcontext` and `struct ucontext` of mips-ucontext.h, and `makecontext` for mips.
use libtask_annotation.Base.{ℕ, ◌+◌, ◌*◌, ◌/◌, ◌%◌, ◌^◌, update}
use libtask_annotation.Context.{Stack, put_regs}

pub record Mcontext : Type 0 where
  pub mc_onstack : ℕ
  pub mc_pc : ℕ
  pub mc_regs : ℕ → ℕ
  pub sr : ℕ
  pub mullo : ℕ
  pub mulhi : ℕ
  pub mc_fpused : ℕ
  pub mc_fpregs : ℕ → ℕ
  pub mc_fpc_eir : ℕ
  pub mc_tls : ℕ
  pub spare : ℕ → ℕ

pub record Ucontext : Type 0 where
  pub uc_sigmask : ℕ
  pub uc_mcontext : Mcontext
  pub uc_link : ℕ
  pub uc_stack : Stack
  pub uc_flags : ℕ
  pub spare : ℕ → ℕ

unfoldable pub makecontext : Ucontext → (fn argc : ℕ) → (ℕ → ℕ) → Ucontext
makecontext uc fn argc args =
    let sp = (uc.uc_stack.ss_sp + 4 * (uc.uc_stack.ss_size / 4)) % 2 ^ 32 in
    record uc {
      uc_mcontext = record uc.uc_mcontext {
        mc_regs = update (update (put_regs 4 4 0 argc args uc.uc_mcontext.mc_regs) 29 sp) 31 fn;
      };
    }

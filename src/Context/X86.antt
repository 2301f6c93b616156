-- ===== src/Context/X86.antt =====
-- `struct mcontext` and `struct ucontext` of 386-ucontext.h, and `makecontext` for x86.
use libtask_annotation.Base.{ℕ, ◌+◌, ◌*◌, ◌/◌, ◌%◌, ◌^◌, update}
use libtask_annotation.Context.{Stack, below, align16, put_ints}

pub record Mcontext : Type 0 where
  pub mc_onstack : ℕ
  pub mc_gs : ℕ
  pub mc_fs : ℕ
  pub mc_es : ℕ
  pub mc_ds : ℕ
  pub mc_edi : ℕ
  pub mc_esi : ℕ
  pub mc_ebp : ℕ
  pub mc_isp : ℕ
  pub mc_ebx : ℕ
  pub mc_edx : ℕ
  pub mc_ecx : ℕ
  pub mc_eax : ℕ
  pub mc_trapno : ℕ
  pub mc_err : ℕ
  pub mc_eip : ℕ
  pub mc_cs : ℕ
  pub mc_eflags : ℕ
  pub mc_esp : ℕ
  pub mc_ss : ℕ
  pub mc_fpregs : ℕ → ℕ
  pub spare : ℕ → ℕ

pub record Ucontext : Type 0 where
  pub uc_sigmask : ℕ
  pub uc_mcontext : Mcontext
  pub uc_link : ℕ
  pub uc_stack : Stack
  pub spare : ℕ → ℕ

-- Where the arguments of a new context lie.
unfoldable pub args_sp : Stack → (argc : ℕ) → ℕ
args_sp s argc = align16 (below 32 ((s.ss_sp + 4 * (s.ss_size / 4)) % 2 ^ 32) (4 * argc))

-- The return address, 0, lies below the arguments.
unfoldable pub makecontext : Ucontext → (func argc : ℕ) → (ℕ → ℕ) → (ℕ → ℕ) → Ucontext × (ℕ → ℕ)
makecontext uc func argc args m =
    let sp = args_sp uc.uc_stack argc in
    let m' = put_ints argc sp args m in
    (
      record uc { uc_mcontext = record uc.uc_mcontext { mc_eip = func; mc_esp = below 32 sp 4 } },
      update m' (below 32 sp 4) 0,
    )

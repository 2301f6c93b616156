-- ===== src/Context/Amd64.antt =====
-- `struct mcontext` and `struct ucontext` of amd64-ucontext.h, and `makecontext` for amd64.
use libtask_annotation.Base.{
  ℕ, ◌+◌, ◌-◌, ◌*◌, ◌/◌, ◌%◌, ◌^◌, Option, none, some, not, update, ltb, ◌==◌, if◌then◌else◌,
}
use libtask_annotation.Context.{Stack, below, align16}

pub record Mcontext : Type 0 where
  pub mc_onstack : ℕ
  pub mc_rdi : ℕ
  pub mc_rsi : ℕ
  pub mc_rdx : ℕ
  pub mc_rcx : ℕ
  pub mc_r8 : ℕ
  pub mc_r9 : ℕ
  pub mc_rax : ℕ
  pub mc_rbx : ℕ
  pub mc_rbp : ℕ
  pub mc_r10 : ℕ
  pub mc_r11 : ℕ
  pub mc_r12 : ℕ
  pub mc_r13 : ℕ
  pub mc_r14 : ℕ
  pub mc_r15 : ℕ
  pub mc_trapno : ℕ
  pub mc_addr : ℕ
  pub mc_flags : ℕ
  pub mc_err : ℕ
  pub mc_rip : ℕ
  pub mc_cs : ℕ
  pub mc_rflags : ℕ
  pub mc_rsp : ℕ
  pub mc_ss : ℕ
  pub mc_len : ℕ
  pub mc_fpformat : ℕ
  pub mc_ownedfp : ℕ
  pub mc_fpstate : ℕ → ℕ
  pub mc_spare : ℕ → ℕ

pub record Ucontext : Type 0 where
  pub uc_sigmask : ℕ
  pub uc_mcontext : Mcontext
  pub uc_link : ℕ
  pub uc_stack : Stack
  pub spare : ℕ → ℕ

-- `memset(&ucp->uc_mcontext, 0, sizeof ucp->uc_mcontext)`
abbrev cleared : Mcontext
cleared = record {
  mc_onstack = 0;
  mc_rdi = 0;
  mc_rsi = 0;
  mc_rdx = 0;
  mc_rcx = 0;
  mc_r8 = 0;
  mc_r9 = 0;
  mc_rax = 0;
  mc_rbx = 0;
  mc_rbp = 0;
  mc_r10 = 0;
  mc_r11 = 0;
  mc_r12 = 0;
  mc_r13 = 0;
  mc_r14 = 0;
  mc_r15 = 0;
  mc_trapno = 0;
  mc_addr = 0;
  mc_flags = 0;
  mc_err = 0;
  mc_rip = 0;
  mc_cs = 0;
  mc_rflags = 0;
  mc_rsp = 0;
  mc_ss = 0;
  mc_len = 0;
  mc_fpformat = 0;
  mc_ownedfp = 0;
  mc_fpstate = λ _. 0;
  mc_spare = λ _. 0;
}

-- `va_arg(va, int)` as a `long`.
abbrev pub long_of_int : ℕ → ℕ
long_of_int x = if ltb x (2 ^ 31) then x else x + (2 ^ 64 - 2 ^ 32)

-- Where the stack of a new context with `argc` arguments starts.
unfoldable pub first_sp : Stack → (argc : ℕ) → ℕ
first_sp s argc =
    below 64 (align16 (below 64 ((s.ss_sp + 8 * (s.ss_size / 8)) % 2 ^ 64) (8 * argc))) 8

-- `none` is the fault at address 0.
unfoldable pub makecontext :
    Ucontext → (func argc : ℕ) → (ℕ → ℕ) → (ℕ → ℕ) → Option (Ucontext × (ℕ → ℕ))
makecontext uc func argc args m =
    if not (argc == 2)
    then none
    else (let sp = first_sp uc.uc_stack argc in
        some (
          record uc {
            uc_mcontext = record cleared {
              mc_rdi = long_of_int (args 0);
              mc_rsi = long_of_int (args 1);
              mc_rip = func;
              mc_rsp = sp;
            };
          },
          update m sp 0,
        ))

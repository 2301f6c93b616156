-- ===== src/Examples/Contexts.antt =====
-- The theorems on contexts, applied.
use libtask_annotation.Base.{
  ℕ, inl, zero, suc, List, [], ◌∷◌, ◌+◌, ◌≡◌, refl, arith, some, update, ◌==◌, if◌then◌else◌,
}
use libtask_annotation.Context.{task_stack}
use libtask_annotation.Context.Amd64
use libtask_annotation.Context.X86
use libtask_annotation.Context.Asm.{Machine, addr, run, getmcontext, setmcontext}
use libtask_annotation.Context.Resume.{Lie, Stored, Resumed, setmcontext-getmcontext}
use libtask_annotation.Context.Entry.{halves, Called, x86_makecontext-Called}
use libtask_annotation.Context.Start.{Entered, setmcontext-Entered}
use libtask_annotation.Task.Pointer.{split_pointer}

abbrev zeros : ℕ → ℕ
zeros _ = 0

-- Every word holds its own address.
abbrev own : ℕ → ℕ
own a = a

-- The fields that lie at 9000, in a memory `m`.
abbrev fields : (ℕ → ℕ) → Amd64.Mcontext
fields m = record {
  mc_onstack = m 9000;
  mc_rdi = m 9008;
  mc_rsi = m 9016;
  mc_rdx = m 9024;
  mc_rcx = m 9032;
  mc_r8 = m 9040;
  mc_r9 = m 9048;
  mc_rax = m 9056;
  mc_rbx = m 9064;
  mc_rbp = m 9072;
  mc_r10 = m 9080;
  mc_r11 = m 9088;
  mc_r12 = m 9096;
  mc_r13 = m 9104;
  mc_r14 = m 9112;
  mc_r15 = m 9120;
  mc_trapno = m 9128;
  mc_addr = m 9136;
  mc_flags = m 9144;
  mc_err = m 9152;
  mc_rip = m 9160;
  mc_cs = m 9168;
  mc_rflags = m 9176;
  mc_rsp = m 9184;
  mc_ss = m 9192;
  mc_len = 0;
  mc_fpformat = 0;
  mc_ownedfp = 0;
  mc_fpstate = zeros;
  mc_spare = zeros;
}

-- The `n` words at `off(p)` and behind.
found : (ℕ → ℕ) → (p off n : ℕ) → List ℕ
found m p off zero = []
found m p off (suc n) = m (addr p off) ∷ found m p (off + 8) n

found-Lie : (m : ℕ → ℕ) (p off n : ℕ) → Lie m p off (found m p off n)
unfolding found
found-Lie m p off zero = tt
found-Lie m p off (suc n) = (refl, found-Lie m p (off + 8) n)

all_same : (m : ℕ → ℕ) → Stored m 9000 (fields m)
unfolding found
all_same m = found-Lie m 9000 0 25

-- The machine calls `getmcontext` with its stack at 8000 and the context at 9000.
abbrev calling : Machine
calling = record {
  regs = λ r. if r == 5 then 9000 else (if r == 7 then 8000 else 100 + r);
  rip = 0;
  mem = own;
}

abbrev after : Machine
after = run getmcontext calling

-- Another one, with the same context.
abbrev calling_back : Machine
calling_back = record { regs = λ _. 9000; rip = 0; mem = after.mem }

setmcontext-getmcontext_example : Resumed (run getmcontext calling) (run setmcontext calling_back)
setmcontext-getmcontext_example =
    setmcontext-getmcontext calling calling_back (fields after.mem) (omega arith)
      (omega arith, inl (omega arith)) (all_same after.mem) refl (all_same after.mem)

abbrev no_stack : X86.Ucontext
no_stack = record {
  uc_sigmask = 0;
  uc_mcontext = record {
    mc_onstack = 0;
    mc_gs = 0;
    mc_fs = 0;
    mc_es = 0;
    mc_ds = 0;
    mc_edi = 0;
    mc_esi = 0;
    mc_ebp = 0;
    mc_isp = 0;
    mc_ebx = 0;
    mc_edx = 0;
    mc_ecx = 0;
    mc_eax = 0;
    mc_trapno = 0;
    mc_err = 0;
    mc_eip = 0;
    mc_cs = 0;
    mc_eflags = 0;
    mc_esp = 0;
    mc_ss = 0;
    mc_fpregs = zeros;
    spare = zeros;
  };
  uc_link = 0;
  uc_stack = record { ss_sp = 0; ss_size = 0 };
  spare = zeros;
}

x86_makecontext-Called_example :
    let r =
      X86.makecontext
        (record no_stack { uc_stack = task_stack 10000 8192 })
        4096
        2
        (halves (7, 9))
        own in
    Called 4096 7 9 10000 8192 own r.1 r.0.uc_mcontext
x86_makecontext-Called_example =
    x86_makecontext-Called no_stack 4096 7 9 10000 8192 own (omega arith) (omega arith)

abbrev blank : Amd64.Ucontext
blank = record {
  uc_sigmask = 0;
  uc_mcontext = fields zeros;
  uc_link = 0;
  uc_stack = record { ss_sp = 0; ss_size = 0 };
  spare = zeros;
}

-- The context that `makecontext` makes of it, for the pointer 5000000.
abbrev made : Amd64.Ucontext
made = record blank {
  uc_stack = record { ss_sp = 10008; ss_size = 8128 };
  uc_mcontext = record (fields zeros) { mc_rdi = 5000000; mc_rip = 4096; mc_rsp = 18104 };
}

-- The words of `made` lie at 9000.
abbrev starting : Machine
starting = record {
  regs = λ _. 9000;
  rip = 0;
  mem = λ a.
      if a == 9008 then 5000000 else (if a == 9160 then 4096 else (if a == 9184 then 18104 else 0));
}

made-lem :
    Amd64.makecontext
      (record blank { uc_stack = task_stack 10000 8192 })
      4096
      2
      (halves (split_pointer 5000000))
      own
    ≡ some (made, update own 18104 0)
unfolding Amd64.makecontext Amd64.first_sp task_stack split_pointer
made-lem = refl

setmcontext-Entered_example : Entered 4096 5000000 10000 8192 (run setmcontext starting)
setmcontext-Entered_example =
    setmcontext-Entered blank 4096 5000000 10000 8192 own (update own 18104 0) made starting
      (omega arith) (omega arith) (omega arith) (omega arith) made-lem (all_same starting.mem)
      (omega arith)

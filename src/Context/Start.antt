-- ===== src/Context/Start.antt =====
-- How a new task starts, on amd64: taskalloc, makecontext, setmcontext.
use libtask_annotation.Base.{
  ℕ, ◌+◌, ◌%◌, ◌^◌, ◌≤◌, ◌<◌, ◌≡◌, ap, sym, subst, ◌∙◌, arith, Option, none, some,
}
use libtask_annotation.Task.Pointer.{split_pointer, join_pointer}
use libtask_annotation.Context.{task_stack}
use libtask_annotation.Context.Amd64
use libtask_annotation.Context.Asm.{Machine, run, setmcontext, rdi, rsi, rsp}
use libtask_annotation.Context.Resume.{Stored, Runs, setmcontext-Runs}
use libtask_annotation.Context.Entry.{OnStack, Enters, halves, amd64_makecontext-Enters}

-- The machine has entered `func` as if it had been called, on the stack of the task `stk`, with the
-- pointer `z` in its first two arguments.
pub record Entered (func z stk stksize : ℕ) (s : Machine) : Type 0 where
  pub starts : s.rip ≡ func
  pub pointer : join_pointer (s.regs rdi % 2 ^ 32, s.regs rsi % 2 ^ 32) ≡ z % 2 ^ 48
  pub on : OnStack stk stksize (s.regs rsp)
  pub aligned : (s.regs rsp + 8) % 16 ≡ 0

Runs-Entered :
    (func z stk stksize : ℕ) (m m' : ℕ → ℕ) (c : Amd64.Mcontext) (s : Machine)
    → Enters func z stk stksize m m' c
    → Runs s c
    → Entered func z stk stksize s
Runs-Entered func z stk stksize m m' c s e r = record {
  starts = r.ip ∙ e.starts;
  pointer = rw (r.arguments.0, r.arguments.1) e.pointer;
  on = subst (OnStack stk stksize) (sym r.sp) e.on;
  aligned = rw r.sp e.aligned;
}

-- The context lies below the stack.
Enters-Entered :
    (func z stk stksize : ℕ) (m m' : ℕ → ℕ) (c : Amd64.Mcontext) (n : Machine)
    → stk + stksize < 2 ^ 64
    → Enters func z stk stksize m m' c
    → Stored n.mem (n.regs rdi) c
    → n.regs rdi + 200 ≤ stk
    → Entered func z stk stksize (run setmcontext n)
Enters-Entered func z stk stksize m m' c n fits e stored below =
    let low = e.on.low in
    let high = e.on.high in
    Runs-Entered func z stk stksize m m' c (run setmcontext n) e
      (setmcontext-Runs n c stored (omega (arith, high)) (λ q. omega (arith, low, high, q)))

-- The context of a result of `makecontext`.
made_context : Amd64.Ucontext → Option (Amd64.Ucontext × (ℕ → ℕ)) → Amd64.Ucontext
made_context uc none = uc
made_context uc (some (c, m)) = c

-- On amd64, setmcontext of the context that makecontext has made, for the stack that taskalloc
-- gives to a task of at least 128 bytes, enters the function as a call does: the stack pointer
-- is in the stack, with the words that are left free at both ends, and 8 below a multiple of 16;
-- and from the two words that are handed on taskstart joins the pointer that taskalloc has
-- split, but for its upper 16 bits. The context lies in memory, below the stack, which ends
-- below 2^64.
pub setmcontext-Entered :
    (uc : Amd64.Ucontext) (func z stk stksize : ℕ) (m m' : ℕ → ℕ) (c : Amd64.Ucontext) (n : Machine)
    → z < 2 ^ 64
    → 128 ≤ stksize
    → stksize < 2 ^ 32
    → stk + stksize < 2 ^ 64
    → Amd64.makecontext
        (record uc { uc_stack = task_stack stk stksize })
        func
        2
        (halves (split_pointer z))
        m
      ≡ some (c, m')
    → Stored n.mem (n.regs rdi) c.uc_mcontext
    → n.regs rdi + 200 ≤ stk
    → Entered func z stk stksize (run setmcontext n)
unfolding made_context
setmcontext-Entered uc func z stk stksize m m' c n lt big small fits made stored below =
    let (c', g, made', e) = amd64_makecontext-Enters uc func z stk stksize m lt big small fits in
    let same : c' ≡ c = ap (made_context c) (sym made' ∙ made) in
    Enters-Entered func z stk stksize m g c'.uc_mcontext n fits e
      (subst (λ (d : Amd64.Ucontext). Stored n.mem (n.regs rdi) d.uc_mcontext) (sym same) stored)
      below

-- ===== src/Context/Entry.antt =====
-- How a new task starts: on the stack that taskalloc gives to it, with what makecontext hands on.
use libtask_annotation.Base.{
  ℕ, ◌+◌, ◌-◌, ◌*◌, ◌/◌, ◌%◌, ◌^◌, ◌≤◌, ◌<◌, ◌≡◌, ◌≢◌, ◌⊎◌, refl, arith, some, ◌==◌, if◌then◌else◌,
}
use libtask_annotation.Task.Pointer.{split_pointer, join_pointer, join_pointer-split_pointer}
use libtask_annotation.Context.{task_stack, below, put_ints, put_regs}
use libtask_annotation.Context.Amd64
use libtask_annotation.Context.X86
use libtask_annotation.Context.Mips
use libtask_annotation.Context.Arm
use libtask_annotation.Context.Power

-- The stack pointer lies in the stack, with the words that taskalloc leaves free at both ends.
pub record OnStack (stk stksize sp : ℕ) : Type 0 where
  pub low : stk + 8 ≤ sp
  pub high : sp ≤ stk + stksize - 56

task_stack-top :
    (stk stksize : ℕ)
    → 128 ≤ stksize
    → stksize < 2 ^ 32
    → ((task_stack stk stksize).ss_sp ≡ stk + 8) × ((task_stack stk stksize).ss_size ≡ stksize - 64)
unfolding task_stack
task_stack-top stk stksize big small = (refl, omega arith)

first_sp-OnStack :
    (stk stksize : ℕ)
    → 128 ≤ stksize
    → stksize < 2 ^ 32
    → stk + stksize < 2 ^ 64
    → OnStack stk stksize (Amd64.first_sp (task_stack stk stksize) 2)
      × ((Amd64.first_sp (task_stack stk stksize) 2 + 8) % 16 ≡ 0)
unfolding Amd64.first_sp
first_sp-OnStack stk stksize big small fits =
    let (at, size) = task_stack-top stk stksize big small in
    rw (at, size) (record { low = omega arith; high = omega arith }, omega arith)

low_half : (x : ℕ) → x < 2 ^ 32 → Amd64.long_of_int x % 2 ^ 32 ≡ x
low_half x lt = ground arith

-- The arguments that taskalloc hands on.
abbrev pub halves : ℕ × ℕ → ℕ → ℕ
halves (y, x) i = if i == 0 then y else x

-- The context enters `func` as if it had been called, on the stack of the task `stk`, and the
-- pointer `z` is handed on in two registers.
pub record Enters (func z stk stksize : ℕ) (m m' : ℕ → ℕ) (c : Amd64.Mcontext) : Type 0 where
  pub starts : c.mc_rip ≡ func
  pub pointer : join_pointer (c.mc_rdi % 2 ^ 32, c.mc_rsi % 2 ^ 32) ≡ z % 2 ^ 48
  pub on : OnStack stk stksize c.mc_rsp
  pub aligned : (c.mc_rsp + 8) % 16 ≡ 0
  pub back : m' c.mc_rsp ≡ 0
  pub kept : (a : ℕ) → a ≢ c.mc_rsp → m' a ≡ m a

handed :
    (z : ℕ)
    → z < 2 ^ 64
    → join_pointer (
      Amd64.long_of_int (halves (split_pointer z) 0) % 2 ^ 32,
      Amd64.long_of_int (halves (split_pointer z) 1) % 2 ^ 32,
    )
      ≡ z % 2 ^ 48
unfolding split_pointer
handed z lt =
    rw (low_half (z % 2 ^ 32) (omega arith), low_half (z / 2 ^ 16 / 2 ^ 16 % 2 ^ 32) (omega arith))
      (join_pointer-split_pointer z lt)

pub amd64_makecontext-Enters :
    (uc : Amd64.Ucontext) (func z stk stksize : ℕ) (m : ℕ → ℕ)
    → z < 2 ^ 64
    → 128 ≤ stksize
    → stksize < 2 ^ 32
    → stk + stksize < 2 ^ 64
    → (c : Amd64.Ucontext) × (m' : ℕ → ℕ) × (Amd64.makecontext
          (record uc { uc_stack = task_stack stk stksize })
          func
          2
          (halves (split_pointer z))
          m
        ≡ some (c, m'))
      × Enters func z stk stksize m m' c.uc_mcontext
unfolding Amd64.makecontext
amd64_makecontext-Enters uc func z stk stksize m lt big small fits =
    let (on, aligned) = first_sp-OnStack stk stksize big small fits in
    (
      _,
      _,
      refl,
      record {
        starts = refl;
        pointer = handed z lt;
        on = on;
        aligned = aligned;
        back = ground arith;
        kept = λ a ne. ground arith;
      },
    )

-- What a function finds on the stack when it has been called with two arguments.
pub record Called (func y x stk stksize : ℕ) (m m' : ℕ → ℕ) (c : X86.Mcontext) : Type 0 where
  pub starts : c.mc_eip ≡ func
  pub back : m' c.mc_esp ≡ 0
  pub first : m' (c.mc_esp + 4) ≡ y
  pub second : m' (c.mc_esp + 8) ≡ x
  pub on : OnStack stk stksize c.mc_esp
  pub fits : c.mc_esp + 12 ≤ stk + stksize - 56
  pub aligned : (c.mc_esp + 4) % 16 ≡ 0
  pub kept : (a : ℕ) → (a < c.mc_esp ⊎ c.mc_esp + 8 < a) → m' a ≡ m a

args_sp-range :
    (stk stksize : ℕ)
    → 128 ≤ stksize
    → stk + stksize < 2 ^ 32
    → (stk + 12 ≤ X86.args_sp (task_stack stk stksize) 2)
      × (X86.args_sp (task_stack stk stksize) 2 + 8 ≤ stk + stksize - 56)
      × (X86.args_sp (task_stack stk stksize) 2 % 16 ≡ 0)
unfolding X86.args_sp
args_sp-range stk stksize big fits =
    let (at, size) = task_stack-top stk stksize big (omega arith) in
    rw (at, size) (omega arith, omega arith, omega arith)

-- On x86, makecontext with two arguments, for the stack that taskalloc gives to a task of at
-- least 128 bytes, leaves a context that starts at the function with 0 as its return address and
-- the arguments behind it, all of it in the stack and nothing else written, and the arguments at
-- a multiple of 16. The stack ends below 2^32.
pub x86_makecontext-Called :
    (uc : X86.Ucontext) (func y x stk stksize : ℕ) (m : ℕ → ℕ)
    → 128 ≤ stksize
    → stk + stksize < 2 ^ 32
    → let r =
        X86.makecontext
          (record uc { uc_stack = task_stack stk stksize })
          func
          2
          (halves (y, x))
          m in
      Called func y x stk stksize m r.1 r.0.uc_mcontext
unfolding X86.makecontext put_ints
x86_makecontext-Called uc func y x stk stksize m big fits =
    let (low, high, aligned) = args_sp-range stk stksize big fits in
    let sp = X86.args_sp (task_stack stk stksize) 2 in
    let down : below 32 sp 4 ≡ sp - 4 = omega (arith, low, high) in
    rw down (record {
      starts = refl;
      back = ground (arith, low);
      first = ground (arith, low);
      second = ground (arith, low);
      on = record { low = omega (arith, low); high = omega (arith, low, high) };
      fits = omega (arith, low, high);
      aligned = omega (arith, low, aligned);
      kept = λ a out. ground (arith, low);
    })

-- On the machines that take their arguments in registers and a return address from one, the new
-- context starts with them, at the top of its stack.
pub registers_makecontext-OnStack :
    (mips : Mips.Ucontext) (arm : Arm.Ucontext) (power : Power.Ucontext) (func y x stk stksize : ℕ)
    → 128 ≤ stksize
    → stk + stksize < 2 ^ 32
    → let s = task_stack stk stksize in
      let regs =
        (Mips.makecontext
          (record mips { uc_stack = s })
          func
          2
          (halves (y, x))).uc_mcontext.mc_regs in
      let gregs = (Arm.makecontext (record arm { uc_stack = s }) func 2 (halves (y, x))).gregs in
      let mc = (Power.makecontext (record power { uc_stack = s }) func 2 (halves (y, x))).mc in
      ((regs 4 ≡ y) × (regs 5 ≡ x) × (regs 31 ≡ func) × OnStack stk stksize (regs 29))
      × ((gregs 0 ≡ y) × (gregs 1 ≡ x) × (gregs 14 ≡ func) × OnStack stk stksize (gregs 13))
      × ((mc.r3 ≡ y)
          × (mc.pc ≡ func)
          × OnStack stk stksize mc.sp
          × (mc.sp + 64 ≤ stk + stksize - 56))
unfolding Mips.makecontext Arm.makecontext Power.makecontext put_regs task_stack
registers_makecontext-OnStack mips arm power func y x stk stksize big fits =
    let top : OnStack stk stksize
        ((stk + 8 + 4 * ((stksize + (2 ^ 32 - 64)) % 2 ^ 32 / 4)) % 2 ^ 32) =
      record { low = omega arith; high = omega arith } in
    (
      (refl, refl, refl, top),
      (refl, refl, refl, top),
      (refl, refl, record { low = omega arith; high = omega arith }, omega arith),
    )

-- ===== src/Context/Asm.antt =====
-- `getmcontext` and `setmcontext` of asm.S, for amd64: the instructions, and what a machine does
-- with them. Registers have numbers, and memory is the words of 8 bytes at addresses.
use libtask_annotation.Base.{ℕ, ◌+◌, ◌-◌, ◌%◌, ◌^◌, update, List, [], ◌∷◌}

abbrev pub rax : ℕ
rax = 0

abbrev pub rbx : ℕ
rbx = 1

abbrev pub rcx : ℕ
rcx = 2

abbrev pub rdx : ℕ
rdx = 3

abbrev pub rsi : ℕ
rsi = 4

abbrev pub rdi : ℕ
rdi = 5

abbrev pub rbp : ℕ
rbp = 6

abbrev pub rsp : ℕ
rsp = 7

abbrev pub r8 : ℕ
r8 = 8

abbrev pub r9 : ℕ
r9 = 9

abbrev pub r10 : ℕ
r10 = 10

abbrev pub r11 : ℕ
r11 = 11

abbrev pub r12 : ℕ
r12 = 12

abbrev pub r13 : ℕ
r13 = 13

abbrev pub r14 : ℕ
r14 = 14

abbrev pub r15 : ℕ
r15 = 15

pub record Machine : Type 0 where
  pub regs : ℕ → ℕ
  pub rip : ℕ
  pub mem : ℕ → ℕ

pub data Instr : Type 0 where
  -- `movq off(base), dst` and `movq src, off(base)`
  load : (off base dst : ℕ) → Instr
  store : (src off base : ℕ) → Instr
  -- `movq $n, dst` and `movq $n, off(base)`
  set : (n dst : ℕ) → Instr
  store_number : (n off base : ℕ) → Instr
  -- `leaq off(base), dst`
  lea : (off base dst : ℕ) → Instr
  -- `pushq off(base)`
  push : (off base : ℕ) → Instr

-- The address `off(p)`.
abbrev pub addr : (p off : ℕ) → ℕ
addr p off = (p + off) % 2 ^ 64

-- The address of the word that is pushed on the stack at `sp`.
abbrev pub under : ℕ → ℕ
under sp = (sp + (2 ^ 64 - 8)) % 2 ^ 64

abbrev set_reg : (dst v : ℕ) → Machine → Machine
set_reg dst v m = record m { regs = update m.regs dst v }

unfoldable pub step : Instr → Machine → Machine
step (load off base dst) m = set_reg dst (m.mem (addr (m.regs base) off)) m
step (store src off base) m = record m { mem = update m.mem (addr (m.regs base) off) (m.regs src) }
step (set n dst) m = set_reg dst n m
step (store_number n off base) m = record m { mem = update m.mem (addr (m.regs base) off) n }
step (lea off base dst) m = set_reg dst (addr (m.regs base) off) m
step (push off base) m =
    let sp = under (m.regs rsp) in
    record m { regs = update m.regs rsp sp; mem = update m.mem sp (m.mem (addr (m.regs base) off)) }

-- The instructions, and `ret` behind them.
unfoldable pub run : List Instr → Machine → Machine
run [] m = record m { rip = m.mem (m.regs rsp); regs = update m.regs rsp (addr (m.regs rsp) 8) }
run (i ∷ is) m = run is (step i m)

abbrev pub setmcontext : List Instr
setmcontext =
    load 16 rdi rsi
    ∷ load 24 rdi rdx
    ∷ load 32 rdi rcx
    ∷ load 40 rdi r8
    ∷ load 48 rdi r9
    ∷ load 56 rdi rax
    ∷ load 64 rdi rbx
    ∷ load 72 rdi rbp
    ∷ load 80 rdi r10
    ∷ load 88 rdi r11
    ∷ load 96 rdi r12
    ∷ load 104 rdi r13
    ∷ load 112 rdi r14
    ∷ load 120 rdi r15
    ∷ load 184 rdi rsp
    ∷ push 160 rdi
    ∷ load 8 rdi rdi
    ∷ []

abbrev pub getmcontext : List Instr
getmcontext =
    store rdi 8 rdi
    ∷ store rsi 16 rdi
    ∷ store rdx 24 rdi
    ∷ store rcx 32 rdi
    ∷ store r8 40 rdi
    ∷ store r9 48 rdi
    ∷ store_number 1 56 rdi
    ∷ store rbx 64 rdi
    ∷ store rbp 72 rdi
    ∷ store r10 80 rdi
    ∷ store r11 88 rdi
    ∷ store r12 96 rdi
    ∷ store r13 104 rdi
    ∷ store r14 112 rdi
    ∷ store r15 120 rdi
    ∷ load 0 rsp rcx
    ∷ store rcx 160 rdi
    ∷ lea 8 rsp rcx
    ∷ store rcx 184 rdi
    ∷ load 32 rdi rcx
    ∷ set 0 rax
    ∷ []

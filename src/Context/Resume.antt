-- ===== src/Context/Resume.antt =====
-- How a context comes back: `setmcontext` of what `getmcontext` or `makecontext` has left.
use libtask_annotation.Base.{
  ℕ, suc, zero, ◌+◌, ◌*◌, ◌^◌, ◌<◌, ◌≤◌, ◌⊎◌, ◌≡◌, ◌≢◌, refl, ap, sym, subst, ◌∙◌, arith, List, [],
  ◌∷◌,
}
use libtask_annotation.Context.Asm.{
  Machine, addr, under, step, run, getmcontext, setmcontext, rax, rbx, rcx, rdx, rsi, rdi, rbp, rsp,
  r8, r9, r10, r11, r12, r13, r14, r15,
}
use libtask_annotation.Context.Amd64.{Mcontext}

-- The fields of a context, in the order of the struct.
abbrev pub longs : Mcontext → List ℕ
longs c =
    c.mc_onstack ∷ c.mc_rdi ∷ c.mc_rsi ∷ c.mc_rdx ∷ c.mc_rcx ∷ c.mc_r8 ∷ c.mc_r9 ∷ c.mc_rax
    ∷ c.mc_rbx ∷ c.mc_rbp ∷ c.mc_r10 ∷ c.mc_r11 ∷ c.mc_r12 ∷ c.mc_r13 ∷ c.mc_r14 ∷ c.mc_r15
    ∷ c.mc_trapno ∷ c.mc_addr ∷ c.mc_flags ∷ c.mc_err ∷ c.mc_rip ∷ c.mc_cs ∷ c.mc_rflags ∷ c.mc_rsp
    ∷ c.mc_ss ∷ []

-- The words of the list lie in memory, from `off(p)` on.
abbrev pub Lie : (ℕ → ℕ) → (p off : ℕ) → List ℕ → Type 0
Lie m p off [] = Unit {0}
Lie m p off (x ∷ xs) = (m (addr p off) ≡ x) × Lie m p (off + 8) xs

-- The context `c` lies in memory at `p`.
abbrev pub Stored : (ℕ → ℕ) → (p : ℕ) → Mcontext → Type 0
Stored m p c = Lie m p 0 (longs c)

-- Word `i` of the list; there are no others.
unfoldable word : List ℕ → ℕ → ℕ
word [] i = 0
word (x ∷ xs) zero = x
word (x ∷ xs) (suc i) = word xs i

count_words : List ℕ → ℕ
count_words [] = 0
count_words (x ∷ xs) = suc (count_words xs)

Lie-word :
    (m : ℕ → ℕ) (p off : ℕ) (xs : List ℕ) (i : ℕ)
    → i < count_words xs
    → Lie m p off xs
    → m (addr p (off + 8 * i)) ≡ word xs i
unfolding word count_words
Lie-word m p off [] i lt h = absurd (omega arith)
Lie-word m p off (x ∷ xs) zero lt h = subst (λ (a : ℕ). m (addr p a) ≡ x) (omega arith) h.0
Lie-word m p off (x ∷ xs) (suc i) lt h =
    subst (λ (a : ℕ). m (addr p a) ≡ word xs i) (omega arith)
      (Lie-word m p (off + 8) xs i (omega arith) h.1)

Stored-word :
    (m : ℕ → ℕ) (p : ℕ) (c : Mcontext)
    → Stored m p c
    → (i : ℕ) → i < 25
    → m (addr p (8 * i)) ≡ word (longs c) i
Stored-word m p c h i lt =
    subst (λ (a : ℕ). m (addr p a) ≡ word (longs c) i) (omega arith)
      (Lie-word m p 0 (longs c) i (unfold count_words in lt) h)

-- The machine runs in the context `c`.
pub record Runs (m : Machine) (c : Mcontext) : Type 0 where
  pub ip : m.rip ≡ c.mc_rip
  pub sp : m.regs rsp ≡ c.mc_rsp
  pub arguments :
      (m.regs rdi ≡ c.mc_rdi)
      × (m.regs rsi ≡ c.mc_rsi)
      × (m.regs rdx ≡ c.mc_rdx)
      × (m.regs rcx ≡ c.mc_rcx)
      × (m.regs r8 ≡ c.mc_r8)
      × (m.regs r9 ≡ c.mc_r9)
  pub result : m.regs rax ≡ c.mc_rax
  pub saved :
      (m.regs rbx ≡ c.mc_rbx)
      × (m.regs rbp ≡ c.mc_rbp)
      × (m.regs r12 ≡ c.mc_r12)
      × (m.regs r13 ≡ c.mc_r13)
      × (m.regs r14 ≡ c.mc_r14)
      × (m.regs r15 ≡ c.mc_r15)
  pub scratch : (m.regs r10 ≡ c.mc_r10) × (m.regs r11 ≡ c.mc_r11)

-- setmcontext of a context in memory goes on in it.
pub setmcontext-Runs :
    (m : Machine) (c : Mcontext)
    → Stored m.mem (m.regs rdi) c
    → c.mc_rsp < 2 ^ 64
    → under c.mc_rsp ≢ addr (m.regs rdi) 8
    → Runs (run setmcontext m) c
unfolding run step word
setmcontext-Runs m c stored small apart = record {
  ip = ip;
  sp = sp;
  arguments = (
    first,
    h 2 (omega arith),
    h 3 (omega arith),
    h 4 (omega arith),
    h 5 (omega arith),
    h 6 (omega arith),
  );
  result = h 7 (omega arith);
  saved = (
    h 8 (omega arith),
    h 9 (omega arith),
    h 12 (omega arith),
    h 13 (omega arith),
    h 14 (omega arith),
    h 15 (omega arith),
  );
  scratch = (h 10 (omega arith), h 11 (omega arith));
}
  where
    h : (i : ℕ) → i < 25 → m.mem (addr (m.regs rdi) (8 * i)) ≡ word (longs c) i
    h = Stored-word m.mem (m.regs rdi) c stored

    at : m.mem (addr (m.regs rdi) 184) ≡ c.mc_rsp
    at = h 23 (omega arith)

    ip : (run setmcontext m).rip ≡ c.mc_rip
    ip = let e = h 20 (omega arith) in ground (arith, e)

    sp : (run setmcontext m).regs rsp ≡ c.mc_rsp
    sp = rw at (omega (arith, small))

    first : (run setmcontext m).regs rdi ≡ c.mc_rdi
    first = let e = h 1 (omega arith) in rw at (ground (arith, e, apart))

-- The word at `sp` lies outside the context at `p`, which does not wrap around.
abbrev pub Outside : (p sp : ℕ) → Type 0
Outside p sp = (p + 200 ≤ 2 ^ 64) × ((sp + 8 ≤ p) ⊎ (p + 200 ≤ sp))

-- What `getmcontext` is to leave in the context: 1 is what it returns when it comes back.
pub record Saves (m : Machine) (c : Mcontext) : Type 0 where
  pub ip : c.mc_rip ≡ m.mem (m.regs rsp)
  pub sp : c.mc_rsp ≡ addr (m.regs rsp) 8
  pub result : c.mc_rax ≡ 1
  pub saved :
      (c.mc_rbx ≡ m.regs rbx)
      × (c.mc_rbp ≡ m.regs rbp)
      × (c.mc_r12 ≡ m.regs r12)
      × (c.mc_r13 ≡ m.regs r13)
      × (c.mc_r14 ≡ m.regs r14)
      × (c.mc_r15 ≡ m.regs r15)

getmcontext-Saves :
    (m : Machine) (c : Mcontext)
    → m.regs rsp < 2 ^ 64
    → Outside (m.regs rdi) (m.regs rsp)
    → ((i : ℕ) → i < 25 → (run getmcontext m).mem (addr (m.regs rdi) (8 * i)) ≡ word (longs c) i)
    → Saves m c
unfolding run step word
getmcontext-Saves m c small apart h = record {
  ip = let e = h 20 (omega arith) in (ground (arith, e, apart.0, apart.1));
  sp = let e = h 23 (omega arith) in ground (arith, e);
  result = let e = h 7 (omega arith) in ground (arith, e);
  saved = (
    let e = h 8 (omega arith) in ground (arith, e),
    let e = h 9 (omega arith) in ground (arith, e),
    let e = h 12 (omega arith) in ground (arith, e),
    let e = h 13 (omega arith) in ground (arith, e),
    let e = h 14 (omega arith) in ground (arith, e),
    let e = h 15 (omega arith) in ground (arith, e),
  );
}

-- The registers that a function leaves as they are.
abbrev pub SameSaved : (f g : ℕ → ℕ) → Type 0
SameSaved f g =
    (f rbx ≡ g rbx)
    × (f rbp ≡ g rbp)
    × (f r12 ≡ g r12)
    × (f r13 ≡ g r13)
    × (f r14 ≡ g r14)
    × (f r15 ≡ g r15)

-- `r` has returned from `getmcontext` and `s` from it again, after `setmcontext`.
pub record Resumed (r s : Machine) : Type 0 where
  pub first : r.regs rax ≡ 0
  pub again : s.regs rax ≡ 1
  pub ip : s.rip ≡ r.rip
  pub sp : s.regs rsp ≡ r.regs rsp
  pub saved : SameSaved s.regs r.regs

-- Where `getmcontext` returns to.
getmcontext-ip :
    (m : Machine)
    → m.regs rsp < 2 ^ 64
    → Outside (m.regs rdi) (m.regs rsp)
    → (run getmcontext m).rip ≡ m.mem (m.regs rsp)
unfolding run step
getmcontext-ip m small apart = ground (arith, apart.0, apart.1)

-- It returns 0, and keeps the stack and the registers that belong to the caller.
getmcontext-first : (m : Machine) → (run getmcontext m).regs rax ≡ 0
unfolding run step
getmcontext-first m = refl

getmcontext-rsp : (m : Machine) → (run getmcontext m).regs rsp ≡ addr (m.regs rsp) 8
unfolding run step
getmcontext-rsp m = refl

getmcontext-saved :
    (m : Machine) (f : ℕ → ℕ) → SameSaved f m.regs → SameSaved f (run getmcontext m).regs
unfolding run step
getmcontext-saved m f same = same

-- On amd64, getmcontext returns 0, and if a machine calls setmcontext later, with the same
-- context whose words are as they were left, it comes out of getmcontext again: at the same
-- place, with the same stack pointer and the same values in the registers that a function leaves
-- as they are, and 1 is returned. The return address of the first call does not lie in the
-- context.
pub setmcontext-getmcontext :
    (m n : Machine) (c : Mcontext)
    → m.regs rsp < 2 ^ 64
    → Outside (m.regs rdi) (m.regs rsp)
    → Stored (run getmcontext m).mem (m.regs rdi) c
    → n.regs rdi ≡ m.regs rdi
    → Stored n.mem (n.regs rdi) c
    → Resumed (run getmcontext m) (run setmcontext n)
setmcontext-getmcontext m n c small apart h same kept =
    let g =
      getmcontext-Saves m c small apart (Stored-word (run getmcontext m).mem (m.regs rdi) c h) in
    let gs = g.sp in
    let own : addr (m.regs rdi) 8 ≢ m.regs rsp = λ e. ground (arith, apart.0, apart.1) in
    let back : under c.mc_rsp ≡ m.regs rsp = omega (arith, gs, small) in
    let s =
      setmcontext-Runs n c kept (omega (arith, gs))
        (λ e. own (sym (sym back ∙ e ∙ ap (λ (p : ℕ). addr p 8) same))) in
    record {
      first = getmcontext-first m;
      again = s.result ∙ g.result;
      ip = s.ip ∙ g.ip ∙ sym (getmcontext-ip m small apart);
      sp = s.sp ∙ g.sp ∙ sym (getmcontext-rsp m);
      saved = getmcontext-saved m (run setmcontext n).regs (
        s.saved.0 ∙ g.saved.0,
        s.saved.1 ∙ g.saved.1,
        s.saved.2 ∙ g.saved.2,
        s.saved.3 ∙ g.saved.3,
        s.saved.4 ∙ g.saved.4,
        s.saved.5 ∙ g.saved.5,
      );
    }

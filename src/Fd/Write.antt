-- ===== src/Fd/Write.antt =====
-- `fdwrite` of fd.c over a system that takes at least a byte of each write.
use libtask_annotation.Base.{
  ℕ, zero, suc, ◌+◌, ◌-◌, ◌≤◌, ◌<◌, ◌≡◌, refl, ap, subst, false, List, ◌∷◌, ltb, ◌==◌, arith,
  Bool-cases, inl, inr,
}
use libtask_annotation.World.{Call, write, World}
use libtask_annotation.Flow.{done, Returns, Returns-mono}
use libtask_annotation.Fd.Io.{gives, Os, note, ask, retry, write_some, wrote, write_from, fdwrite}

-- The writes that put `n` bytes at `buf` into `fd`: each asks for all that are left.
pub data Pieces (os : Os) (fd : ℕ) : (buf n : ℕ) → (before after : List Call) → Type 0 where
  nothing : {b : ℕ} {cs : List Call} → Pieces os fd b 0 cs cs
  piece :
      {b n : ℕ} {cs ds : List Call} (m : ℕ)
      → os.answer (write fd b n ∷ cs) ≡ gives m
      → 0 < m
      → m ≤ n
      → Pieces os fd (b + m) (n - m) (write fd b n ∷ cs) ds
      → Pieces os fd b n cs ds

-- Each write is taken, at least in part.
abbrev pub Takes : (os : Os) → (fd : ℕ) → Type 0
Takes os fd =
    (b k : ℕ) (cs : List Call)
    → 0 < k
    → (m : ℕ) × (os.answer (write fd b k ∷ cs) ≡ gives m) × (0 < m) × (m ≤ k)

write_some-gives :
    (os : Os) (tries fd b k m : ℕ) (w : World)
    → os.answer (write fd b k ∷ w.calls) ≡ gives m
    → write_some os (suc tries) fd b k w
      ≡ done (gives m) (record w { calls = write fd b k ∷ w.calls })
unfolding write_some ask note retry
write_some-gives os tries fd b k m w e = rw e refl

module _ (os : Os) (fd : ℕ) (takes : Takes os fd) where
  write_from-Pieces :
      (fuel tries buf n tot : ℕ) (w : World)
      → tot ≤ n
      → n - tot < fuel
      → Returns
          (λ r v. (r ≡ gives n) × Pieces os fd (buf + tot) (n - tot) w.calls v.calls)
          (write_from os fuel (suc tries) fd buf n tot w)
  unfolding write_from wrote
  write_from-Pieces zero tries buf n tot w le enough = elim enough [ ]
  write_from-Pieces (suc fuel) tries buf n tot w le enough = elim (Bool-cases (ltb tot n)) [
    | inr all ↦
        let e : tot ≡ n = ground arith in
        let z : n - tot ≡ 0 = omega arith in rw (all, z) (ap (λ (x : ℕ). gives x) e, nothing)
    | inl more ↦
        let left : 0 < n - tot = ground arith in
        let t = takes (buf + tot) (n - tot) w.calls left in
        let some_bytes : (t.0 == 0) ≡ false = ground arith in
        let w' = record w { calls = write fd (buf + tot) (n - tot) ∷ w.calls } in
        let next : buf + (tot + t.0) ≡ buf + tot + t.0 = omega arith in
        let rest : n - (tot + t.0) ≡ n - tot - t.0 = omega arith in
        rw (more, write_some-gives os tries fd (buf + tot) (n - tot) t.0 w t.1, some_bytes)
          (Returns-mono _ _ (write_from os fuel (suc tries) fd buf n (tot + t.0) w')
            (λ r v p. (
              p.0,
              piece t.0 t.1 t.2 t.3 (
                  subst (λ (x : ℕ). Pieces os fd x (n - tot - t.0) w'.calls v.calls) next
                    (subst (λ (x : ℕ). Pieces os fd (buf + (tot + t.0)) x w'.calls v.calls) rest
                      p.1)),
            ))
            (write_from-Pieces fuel tries buf n (tot + t.0) w' (omega arith) (omega arith)))
  ]

  -- fdwrite returns n, with fuel for each byte and one more, over a system that takes at least a
  -- byte of each write and no more than asked for; its writes follow each other in the buffer,
  -- each asks for all the bytes that are left, and none is left behind the last.
  pub fdwrite-Pieces :
      (fuel tries buf n : ℕ) (w : World)
      → n < fuel
      → Returns
          (λ r v. (r ≡ gives n) × Pieces os fd buf n w.calls v.calls)
          (fdwrite os fuel (suc tries) fd buf n w)
  unfolding fdwrite
  fdwrite-Pieces fuel tries buf n w enough =
      let at : buf + 0 ≡ buf = omega arith in
      let whole : n - 0 ≡ n = omega arith in
      subst
        (λ (x : ℕ).
          Returns (λ r v. (r ≡ gives n) × Pieces os fd x n w.calls v.calls)
            (fdwrite os fuel (suc tries) fd buf n w))
        at
        (subst
          (λ (x : ℕ).
            Returns (λ r v. (r ≡ gives n) × Pieces os fd (buf + 0) x w.calls v.calls)
              (fdwrite os fuel (suc tries) fd buf n w))
          whole (write_from-Pieces fuel tries buf n 0 w (omega arith) (omega arith)))

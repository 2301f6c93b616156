-- ===== src/Channel/Leaving.antt =====
-- Which operations wait on a channel: what `altdequeue` takes out.
use libtask_annotation.Base.{
  ℕ, zero, suc, ◌+◌, ◌≤◌, ◌<◌, ◌≡◌, ◌≢◌, inl, inr, refl, sym, subst, Ptr, ◌&&◌, some, arith, ◌==◌,
  if◌then◌else◌, Bool-cases,
}
use libtask_annotation.World.{Altarray, World}
use libtask_annotation.Flow.{done, Returns}
use libtask_annotation.Channel.{altdequeue}
use libtask_annotation.Channel.Array.{delarray, find_from}
use libtask_annotation.Channel.Entries.{occurs, IsSized, delarray-occurs, find_from-some}
use libtask_annotation.Channel.Waiting.{
  IsOp, side, waits, entry, Roomy, Roomy-IsSized, Rings, chanarray-side, put_side, side-put_side,
  Rings-put_side, same_side, entry-here, entry-other,
}

-- What `altdequeue` of `b` does.
pub record Left (w v : World) (b : Ptr) (k : ℕ) : Type 0 where
  pub rings : Rings w v
  pub room : Roomy v k
  pub less : (c op p : ℕ) → IsOp op → waits v c op p + entry w.alts b c op p ≡ waits w c op p

occurs-none : (a : ℕ → Ptr) (n : ℕ) (p : Ptr) → ((k : ℕ) → k < n → a k ≢ p) → occurs a n p ≡ 0
unfolding occurs
occurs-none a zero p out = refl
occurs-none a (suc n) p out =
    let last = out n (omega arith) in
    let rest = occurs-none a n p (λ k lt. out k (omega arith)) in ground (arith, rest, last)

delarray-m : (x : Altarray) (i : ℕ) → (delarray x i).m ≡ x.m
unfolding delarray
delarray-m x i = refl

delarray-fits : (x : Altarray) (i : ℕ) → IsSized x → i < x.n → (delarray x i).n ≤ (delarray x i).m
delarray-fits x i s lt =
    let (fewer, kept) = delarray-occurs x i 0 s lt in
    rw (delarray-m x i) (omega (arith, s.fits, fewer))

put_side-removed :
    (w : World) (b : Ptr) (k i : ℕ)
    → IsOp (w.alts b).op
    → Roomy w k
    → i < (side (w.chans (w.alts b).c) (w.alts b).op).n
    → (side (w.chans (w.alts b).c) (w.alts b).op).a i ≡ b
    → Left w (put_side w b (delarray (side (w.chans (w.alts b).c) (w.alts b).op) i)) b k
put_side-removed w b k i h r lt at =
    let x = w.alts b in
    let ar = side (w.chans x.c) x.op in
    let sized = Roomy-IsSized w k x.c x.op h r in
    record {
      rings = Rings-put_side w b (delarray ar i) h;
      room = record {
        fits = λ c op h'.
            rw (side-put_side w b (delarray ar i) c op h h')
              (elim (Bool-cases (x.c == c && (x.op == op))) [
                | inl here ↦ rw here (delarray-fits ar i sized lt)
                | inr other ↦ rw other (r.fits c op h')
              ]);
        small = λ c op h'.
            rw (side-put_side w b (delarray ar i) c op h h')
              (elim (Bool-cases (x.c == c && (x.op == op))) [
                | inl here ↦ rw (here, delarray-m ar i) (r.small x.c x.op h)
                | inr other ↦ rw other (r.small c op h')
              ]);
      };
      less = λ c op p h'.
          rw (side-put_side w b (delarray ar i) c op h h')
            (elim (Bool-cases (x.c == c && (x.op == op))) [
              | inl here ↦
                  rw (here, entry-here w.alts b c op p here)
                    (same_side
                      (λ c op.
                        occurs (delarray ar i).a (delarray ar i).n p + (if b == p then 1 else 0)
                        ≡ waits w c op p)
                      w b c op here
                      (subst
                        (λ (y : Ptr).
                          occurs (delarray ar i).a (delarray ar i).n p + (if y == p then 1 else 0)
                          ≡ waits w x.c x.op p)
                        at (delarray-occurs ar i p sized lt).1))
              | inr other ↦ rw (other, entry-other w.alts b c op p other) (omega arith)
            ]);
    }

altdequeue_lem :
    (b : Ptr) (w : World) (i : ℕ)
    → IsOp (w.alts b).op
    → let ar = side (w.chans (w.alts b).c) (w.alts b).op in
      find_from ar.a b 0 ar.n ≡ some i → altdequeue b w ≡ done tt (put_side w b (delarray ar i))
unfolding altdequeue
altdequeue_lem b w i h e =
    rw (altdequeue, chanarray-side (w.chans (w.alts b).c) (w.alts b).op h, e) refl

-- altdequeue of an operation that waits returns.
pub altdequeue-Left :
    (w : World) (b : Ptr) (k : ℕ)
    → IsOp (w.alts b).op
    → Roomy w k
    → 1 ≤ waits w (w.alts b).c (w.alts b).op b
    → Returns (λ _ v. Left w v b k) (altdequeue b w)
altdequeue-Left w b k h r here =
    let ar = side (w.chans (w.alts b).c) (w.alts b).op in
    elim (find_from-some ar.a b 0 ar.n) [
      | inl (i, e, le, lt, at) ↦
          subst (Returns (λ _ v. Left w v b k)) (sym (altdequeue_lem b w i h e))
            (put_side-removed w b k i h r (omega arith) at)
      | inr (e, out) ↦
          let no_entry : occurs ar.a ar.n b ≡ 0 =
            occurs-none ar.a ar.n b (λ j lt. out j (omega arith) (omega arith)) in
          absurd (omega (arith, here, no_entry))
    ]

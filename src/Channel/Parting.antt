-- ===== src/Channel/Parting.antt =====
-- The arrays of `Alt`s that `altalldequeue` takes out of the channels, as bags.
use libtask_annotation.Base.{
  ℕ, zero, suc, ◌+◌, ◌≤◌, ◌≡◌, ◌≢◌, ◌⊎◌, inl, inr, refl, sym, subst, ◌∙◌, Ptr, true, false, Option,
  none, some, arith, ◌==◌, if◌then◌else◌, Bool-cases,
}
use libtask_annotation.World.{Alt, World}
use libtask_annotation.Flow.{done, pure, and_then, Returns, Returns-bind, Returns-mono}
use libtask_annotation.Channel.{channop, is_last, altdequeue, altalldequeue}
use libtask_annotation.Channel.Alts.{alts_len}
use libtask_annotation.Channel.Waiting.{IsOp, waits, entry, Roomy, Rings}
use libtask_annotation.Channel.Leaving.{Left, altdequeue-Left}
use libtask_annotation.Channel.Joining.{
  adds, AreOps, AreOps-first, AreOps-rest, Rings-alts, Rings-refl, Rings-trans, entry-channop,
}

-- The `n` entries from `a` on do not wait any more.
pub record Parted (w v : World) (n : ℕ) (a : Ptr) (k : ℕ) : Type 0 where
  pub rings : Rings w v
  pub room : Roomy v k
  pub less : (c op p : ℕ) → IsOp op → waits v c op p + adds n w.alts a c op p ≡ waits w c op p

Parted-step :
    (u v w : World) (n : ℕ) (a : Ptr) (k : ℕ)
    → Left u v a k
    → Parted v w n (a + 1) k
    → Parted u w (suc n) a k
unfolding adds
Parted-step u v w n a k q j =
    let same = Rings-alts u v q.rings in
    record {
      rings = Rings-trans u v w q.rings j.rings;
      room = j.room;
      less = λ c op p h.
          let first = q.less c op p h in
          let rest : waits w c op p + adds n u.alts (a + 1) c op p ≡ waits v c op p =
            rw (← same) (j.less c op p h) in
          omega (arith, first, rest);
    }

Left-idle : (w : World) (a : Ptr) (k : ℕ) → (w.alts a).op ≡ channop → Roomy w k → Left w w a k
Left-idle w a k e r = record {
  rings = Rings-refl w;
  room = r;
  less = λ c op p h. rw (entry-channop w.alts a c op p e h) (omega arith);
}

-- The length of an array that has a first entry.
one_more :
    (o : Option ℕ) (n : ℕ)
    → (let o' : Option ℕ = elim o [ none ↦ none | some m ↦ some (suc m) ] in o') ≡ some n
    → (m : ℕ) × (n ≡ suc m) × (o ≡ some m)
one_more none n e = ground arith
one_more (some m) n e = (m, ground arith, refl)

pub alts_len-cases :
    (fuel n : ℕ) (w : World) (a : Ptr)
    → alts_len (suc fuel) w a ≡ some n
    → ((is_last (w.alts a).op ≡ true) × (n ≡ 0))
      ⊎ ((m : ℕ) × (is_last (w.alts a).op ≡ false)
          × (n ≡ suc m)
          × (alts_len fuel w (a + 1) ≡ some m))
unfolding alts_len
alts_len-cases fuel n w a e = elim (Bool-cases (is_last (w.alts a).op)) [
  | inl last ↦ inl (last, (let z : some 0 ≡ some n = rw last at e in ground arith))
  | inr more ↦
      let (m, e', f) = one_more (alts_len fuel w (a + 1)) n (rw more at e) in inr (m, more, e', f)
]

pub alts_len-alts :
    (fuel : ℕ) (w v : World) (a : Ptr) → v.alts ≡ w.alts → alts_len fuel v a ≡ alts_len fuel w a
unfolding alts_len
alts_len-alts zero w v a e = refl
alts_len-alts (suc fuel) w v a e = rw (alts_len-alts fuel w v (a + 1) e, e) refl

-- Every entry of the array waits, as often as it stands in the array.
abbrev pub AllWait : World → (n : ℕ) → (f : Ptr → Alt) → Ptr → Type 0
AllWait w n f a = (c op p : ℕ) → IsOp op → adds n f a c op p ≤ waits w c op p

entry-own : (f : Ptr → Alt) (b : Ptr) → entry f b (f b).c (f b).op b ≡ 1
entry-own f b = ground arith

AllWait-first :
    (w : World) (n : ℕ) (a : Ptr)
    → IsOp (w.alts a).op
    → AllWait w (suc n) w.alts a
    → 1 ≤ waits w (w.alts a).c (w.alts a).op a
unfolding adds
AllWait-first w n a h all =
    let enough = all (w.alts a).c (w.alts a).op a h in
    let own = entry-own w.alts a in omega (arith, enough, own)

AllWait-rest :
    (w v : World) (n : ℕ) (a : Ptr) (k : ℕ)
    → Left w v a k
    → AllWait w (suc n) w.alts a
    → AllWait v n w.alts (a + 1)
unfolding adds
AllWait-rest w v n a k l all = λ c op p h.
    let enough = all c op p h in let less = l.less c op p h in omega (arith, enough, less)

-- The next round of altalldequeue.
altalldequeue-more :
    (fuel : ℕ) (a : Ptr) (w : World)
    → is_last (w.alts a).op ≡ false
    → altalldequeue (suc fuel) a w
      ≡ and_then
          ((if (w.alts a).op == channop then pure tt else altdequeue a) w)
          (λ _. altalldequeue fuel (a + 1))
unfolding altalldequeue
altalldequeue-more fuel a w more = elim (Bool-cases ((w.alts a).op == channop)) [
  | inl idle ↦ rw (more, idle) refl
  | inr working ↦ rw (more, working) refl
]

leave_one-Left :
    (a : Ptr) (w : World) (n k : ℕ)
    → IsOp (w.alts a).op ⊎ ((w.alts a).op ≡ channop)
    → Roomy w k
    → AllWait w (suc n) w.alts a
    → Returns (λ _ v. Left w v a k) ((if (w.alts a).op == channop then pure tt else altdequeue a) w)
leave_one-Left a w n k (inl works) r all =
    let working : ((w.alts a).op == channop) ≡ false = ground arith in
    rw working (altdequeue-Left w a k works r (AllWait-first w n a works all))
leave_one-Left a w n k (inr idle) r all =
    let doing : ((w.alts a).op == channop) ≡ true = ground arith in
    rw doing (Left-idle w a k idle r)

Parted-zero : (w : World) (a : Ptr) (k : ℕ) → Roomy w k → Parted w w 0 a k
unfolding adds
Parted-zero w a k r = record { rings = Rings-refl w; room = r; less = λ c op p h. omega arith }

altalldequeue-last :
    (fuel : ℕ) (a : Ptr) (w : World)
    → is_last (w.alts a).op ≡ true
    → altalldequeue (suc fuel) a w ≡ done tt w
unfolding altalldequeue
altalldequeue-last fuel a w last = rw last refl

pub alts_len-zero : (n : ℕ) (w : World) (a : Ptr) → alts_len 0 w a ≢ some n
unfolding alts_len
alts_len-zero n w a e = ground arith

-- Taking out an array whose operations all wait returns, and takes out each of them once.
pub altalldequeue-Parted :
    (fuel n : ℕ) (a : Ptr) (w : World) (k : ℕ)
    → alts_len fuel w a ≡ some n
    → AreOps n w.alts a
    → Roomy w k
    → AllWait w n w.alts a
    → Returns (λ _ v. Parted w v n a k) (altalldequeue fuel a w)
altalldequeue-Parted zero n a w k len h r all = absurd (alts_len-zero n w a len)
altalldequeue-Parted (suc fuel) n a w k len h r all = elim (alts_len-cases fuel n w a len) [
  | inl (last, e) ↦
      subst (λ (n : ℕ). Returns (λ _ v. Parted w v n a k) (altalldequeue (suc fuel) a w)) (sym e)
        (subst (Returns (λ _ v. Parted w v 0 a k)) (sym (altalldequeue-last fuel a w last))
          (Parted-zero w a k r))
  | inr (m, more, e, len') ↦
      let h' : AreOps (suc m) w.alts a = subst (λ (n : ℕ). AreOps n w.alts a) e h in
      let all' : AllWait w (suc m) w.alts a = subst (λ (n : ℕ). AllWait w n w.alts a) e all in
      subst (λ (n : ℕ). Returns (λ _ v. Parted w v n a k) (altalldequeue (suc fuel) a w)) (sym e)
        (subst (Returns (λ _ v. Parted w v (suc m) a k)) (sym (altalldequeue-more fuel a w more)) (
          Returns-bind (λ _ v. Left w v a k) (λ _ v. Parted w v (suc m) a k) _
            (λ _. altalldequeue fuel (a + 1))
            (leave_one-Left a w m k (AreOps-first m w.alts a h') r all')
            (λ _ v l.
              let same = Rings-alts w v l.rings in
              Returns-mono (λ _ u. Parted v u m (a + 1) k) _ (altalldequeue fuel (a + 1) v)
                (λ _ u q. Parted-step w v u m a k l q)
                (altalldequeue-Parted fuel m (a + 1) v k
                  (alts_len-alts fuel w v (a + 1) same ∙ len')
                  (subst (λ (f : Ptr → Alt). AreOps m f (a + 1)) (sym same)
                    (AreOps-rest m w.alts a h'))
                  l.room
                  (subst (λ (f : Ptr → Alt). AllWait v m f (a + 1)) (sym same)
                    (AllWait-rest w v m a k l all'))))))
]

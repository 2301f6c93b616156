-- ===== src/Channel/Joining.antt =====
-- The arrays of `Alt`s that `chanalt` queues and `altalldequeue` takes out again, as bags.
use libtask_annotation.Base.{
  ℕ, zero, suc, ◌+◌, ◌<◌, ◌≡◌, ◌⊎◌, inl, inr, refl, ap, sym, subst, ◌∙◌, Ptr, true, false, arith,
  ◌==◌, if◌then◌else◌,
}
use libtask_annotation.World.{Alt, Channel, World}
use libtask_annotation.Flow.{pure, Returns, Returns-bind, Returns-mono}
use libtask_annotation.Channel.{channop, altqueue}
use libtask_annotation.Channel.Alts.{queue_all}
use libtask_annotation.Channel.Waiting.{IsOp, waits, entry, Roomy, Rings, Queued, altqueue-Queued}

-- How many of the `n` entries from `a` on wait, as `p`, on `c` to do `op`.
unfoldable pub adds : (n : ℕ) → (Ptr → Alt) → (a c : Ptr) → (op : ℕ) → (p : Ptr) → ℕ
adds zero f a c op p = 0
adds (suc n) f a c op p = entry f a c op p + adds n f (a + 1) c op p

-- The `n` entries from `a` on send, receive or do nothing.
abbrev pub AreOps : (ℕ) → (Ptr → Alt) → Ptr → Type 0
AreOps n f a = (i : ℕ) → i < n → IsOp (f (a + i)).op ⊎ ((f (a + i)).op ≡ channop)

pub AreOps-first :
    (n : ℕ) (f : Ptr → Alt) (a : Ptr) → AreOps (suc n) f a → IsOp (f a).op ⊎ ((f a).op ≡ channop)
AreOps-first n f a h =
    subst (λ (b : Ptr). IsOp (f b).op ⊎ ((f b).op ≡ channop)) (omega arith) (h 0 (omega arith))

pub AreOps-rest : (n : ℕ) (f : Ptr → Alt) (a : Ptr) → AreOps (suc n) f a → AreOps n f (a + 1)
AreOps-rest n f a h = λ i lt.
    subst (λ (b : Ptr). IsOp (f b).op ⊎ ((f b).op ≡ channop)) (omega arith)
      (h (suc i) (omega arith))

pub Rings-alts : (w v : World) → Rings w v → v.alts ≡ w.alts
Rings-alts w v r = ap (λ (u : World). u.alts) r.0

pub Rings-refl : (w : World) → Rings w w
Rings-refl w = (refl, λ c. refl)

pub Rings-trans : (u v w : World) → Rings u v → Rings v w → Rings u w
Rings-trans u v w r s = (
  s.0 ∙ ap (λ (x : World). record x { chans = w.chans }) r.0,
  λ c.
      s.1 c
      ∙ ap (λ (x : Channel). record x { asend = (w.chans c).asend; arecv = (w.chans c).arecv })
          (r.1 c),
)

-- An entry that does nothing waits nowhere.
pub entry-channop :
    (f : Ptr → Alt) (b c : Ptr) (op : ℕ) (p : Ptr)
    → (f b).op ≡ channop
    → IsOp op
    → entry f b c op p ≡ 0
entry-channop f b c op p e h = ground arith

-- The `n` entries from `a` on wait too.
pub record Joined (w v : World) (n : ℕ) (a : Ptr) (k : ℕ) : Type 0 where
  pub rings : Rings w v
  pub room : Roomy v k
  pub more : (c op p : ℕ) → IsOp op → waits v c op p ≡ waits w c op p + adds n w.alts a c op p

Joined-step :
    (u v w : World) (n : ℕ) (a : Ptr) (k : ℕ)
    → Queued u v a (n + k)
    → Joined v w n (a + 1) k
    → Joined u w (suc n) a k
unfolding adds
Joined-step u v w n a k q j =
    let same = Rings-alts u v q.rings in
    record {
      rings = Rings-trans u v w q.rings j.rings;
      room = j.room;
      more = λ c op p h.
          let first = q.more c op p h in
          let rest : waits w c op p ≡ waits v c op p + adds n u.alts (a + 1) c op p =
            rw (← same) (j.more c op p h) in
          omega (arith, first, rest);
    }

-- An entry that does nothing queues nothing.
Queued-idle :
    (w : World) (a : Ptr) (k : ℕ) → (w.alts a).op ≡ channop → Roomy w (suc k) → Queued w w a k
Queued-idle w a k e r = record {
  rings = Rings-refl w;
  room = record { fits = r.fits; small = λ c op h. let s = r.small c op h in omega arith };
  more = λ c op p h. rw (entry-channop w.alts a c op p e h) (omega arith);
}

queue_one-Queued :
    (a : Ptr) (w : World) (k : ℕ)
    → IsOp (w.alts a).op ⊎ ((w.alts a).op ≡ channop)
    → Roomy w (suc k)
    → Returns (λ _ v. Queued w v a k) ((if (w.alts a).op == channop then pure tt else altqueue a) w)
queue_one-Queued a w k (inl works) r =
    let working : ((w.alts a).op == channop) ≡ false = ground arith in
    rw working (altqueue-Queued a w k works r)
queue_one-Queued a w k (inr idle) r =
    let doing : ((w.alts a).op == channop) ≡ true = ground arith in
    rw doing (Queued-idle w a k idle r)

-- Queueing an array that has room adds each of its operations, as often as it stands in the array.
pub queue_all-Joined :
    (n : ℕ) (a : Ptr) (w : World) (k : ℕ)
    → AreOps n w.alts a
    → Roomy w (n + k)
    → Returns (λ _ v. Joined w v n a k) (queue_all n a w)
unfolding queue_all
queue_all-Joined zero a w k h r = record {
  rings = Rings-refl w;
  room = subst (Roomy w) (omega arith) r;
  more = λ c op p h'. unfold adds in omega arith;
}
queue_all-Joined (suc n) a w k h r =
    Returns-bind (λ _ v. Queued w v a (n + k)) (λ _ v. Joined w v (suc n) a k)
      ((if (w.alts a).op == channop then pure tt else altqueue a) w) (λ _. queue_all n (a + 1))
      (queue_one-Queued a w (n + k) (AreOps-first n w.alts a h) (subst (Roomy w) (omega arith) r))
      (λ _ v q.
        Returns-mono (λ _ u. Joined v u n (a + 1) k) _ (queue_all n (a + 1) v)
          (λ _ u j. Joined-step w v u n a k q j)
          (queue_all-Joined n (a + 1) v k
            (subst (λ (f : Ptr → Alt). AreOps n f (a + 1)) (sym (Rings-alts w v q.rings))
              (AreOps-rest n w.alts a h))
            q.room))

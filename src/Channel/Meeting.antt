-- ===== src/Channel/Meeting.antt =====
-- Two operations that meet at a channel: one that is carried out now, and one whose task waits.
use libtask_annotation.Base.{
  ℕ, ◌+◌, ◌≡◌, ◌≢◌, ◌≤◌, ◌⊎◌, inl, inr, ◌∉◌, refl, ap, sym, subst, ◌∙◌, Ptr, List, [], ◌∷◌, ◌++◌,
  some, arith,
}
use libtask_annotation.World.{Alt, World}
use libtask_annotation.Flow.{done, ◌>>◌, Returns, Returns-bind, Returns-mono}
use libtask_annotation.Task.{make_ready, taskready}
use libtask_annotation.Sched.Fifo.{IsReady, make_ready-IsReady}
use libtask_annotation.Channel.{altcopy, altalldequeue}
use libtask_annotation.Channel.Alts.{alts_len, queue_all, set_chosen, meet}
use libtask_annotation.Channel.Copy.{Meets, Passed}
use libtask_annotation.Channel.Waiting.{IsOp, waits, Roomy, Rings}
use libtask_annotation.Channel.Joining.{
  adds, AreOps, Rings-alts, Rings-trans, Joined, queue_all-Joined,
}
use libtask_annotation.Channel.Parting.{Parted, AllWait, alts_len-alts, altalldequeue-Parted}
use libtask_annotation.Channel.Copied.{
  Copied, altcopy-Copied, Copied-waits, Copied-Roomy, Rings-Passed,
}

-- Who waits, as bags, is the same.
abbrev pub SameWaits : World → World → Type 0
SameWaits w v = (c op p : ℕ) → IsOp op → waits v c op p ≡ waits w c op p

pub Joined-AllWait :
    (w v : World) (n : ℕ) (a : Ptr) (k : ℕ) → Joined w v n a k → AllWait v n w.alts a
Joined-AllWait w v n a k j = λ c op p h. let more = j.more c op p h in omega (arith, more)

SameWaits-back :
    (w v u : World) (n : ℕ) (a : Ptr) (k : ℕ) → Joined w v n a k → Parted v u n a k → SameWaits w u
SameWaits-back w v u n a k j q = λ c op p h.
    let more = j.more c op p h in
    let less : waits u c op p + adds n w.alts a c op p ≡ waits v c op p =
      rw (← Rings-alts w v j.rings) (q.less c op p h) in
    omega (arith, more, less)

-- altalldequeue of an array that chanalt has just queued returns, and takes out exactly what was
-- added: the operations that wait at each channel are as before, as bags, and nothing but arrays
-- of channels has changed. The operations send, receive or do nothing, and no array of a channel
-- is near the overflow of its counters.
pub altalldequeue-queue_all :
    (fuel n : ℕ) (a : Ptr) (w : World) (k : ℕ)
    → alts_len fuel w a ≡ some n
    → AreOps n w.alts a
    → Roomy w (n + k)
    → Returns (λ _ v. Rings w v × SameWaits w v) ((queue_all n a >> altalldequeue fuel a) w)
altalldequeue-queue_all fuel n a w k len ops room =
    Returns-bind (λ _ v. Joined w v n a k) (λ _ v. Rings w v × SameWaits w v) (queue_all n a w)
      (λ _. altalldequeue fuel a) (queue_all-Joined n a w k ops room)
      (λ _ v j.
        let same = Rings-alts w v j.rings in
        Returns-mono (λ _ u. Parted v u n a k) (λ _ u. Rings w u × SameWaits w u)
          (altalldequeue fuel a v)
          (λ _ u q. (Rings-trans w v u j.rings q.rings, SameWaits-back w v u n a k j q))
          (altalldequeue-Parted fuel n a v k (alts_len-alts fuel w v a same ∙ len)
            (subst (λ (f : Ptr → Alt). AreOps n f a) (sym same) ops) j.room
            (subst (λ (f : Ptr → Alt). AllWait v n f a) (sym same) (Joined-AllWait w v n a k j))))

-- The operation `other` waits, with the `n` entries of its array.
pub record Parked (fuel : ℕ) (w : World) (other : Ptr) (n k : ℕ) : Type 0 where
  pub len : alts_len fuel w (w.alts other).xalt ≡ some n
  pub ops : AreOps n w.alts (w.alts other).xalt
  pub room : Roomy w k
  pub all : AllWait w n w.alts (w.alts other).xalt

-- The message has been passed, and the task of `other` is ready, behind the others; it waits with
-- none of its entries any more, and finds `other` at the head of its array.
pub record Met (w : World) (c s r other : Ptr) (n k : ℕ) (xs : List Ptr) (v : World) : Type 0 where
  pub passed : Passed w c s r v
  pub room : Roomy v k
  pub gone :
      (c op p : ℕ)
      → IsOp op
      → waits v c op p + adds n w.alts (w.alts other).xalt c op p ≡ waits w c op p
  pub chosen : (v.alts (w.alts other).xalt).xalt ≡ other
  pub ready : IsReady v (xs ++ (w.alts other).task ∷ [])

module _ (w : World) (c s r other : Ptr) (n k : ℕ) (xs : List Ptr) where
  -- Once the message is passed and the entries are taken out.
  abbrev finish : World → World
  finish u = make_ready ((set_chosen other u).alts other).task (set_chosen other u)

  finish-Passed : (u : World) → Passed w c s r u → Passed w c s r (finish u)
  unfolding make_ready set_chosen
  finish-Passed u p = record { ring = p.ring; fifo = p.fifo }

  finish-Roomy : (u : World) → Roomy u k → Roomy (finish u) k
  unfolding make_ready set_chosen
  finish-Roomy u p = record { fits = p.fits; small = p.small }

  finish-waits : (u : World) → SameWaits u (finish u)
  unfolding make_ready set_chosen
  finish-waits u = λ c op p h. refl

  finish-chosen : (u : World) → u.alts ≡ w.alts → ((finish u).alts (w.alts other).xalt).xalt ≡ other
  unfolding make_ready set_chosen
  finish-chosen u same = rw same (ground arith)

  finish-task :
      (u : World) → u.alts ≡ w.alts → ((set_chosen other u).alts other).task ≡ (w.alts other).task
  unfolding set_chosen
  finish-task u same = rw same (ground arith)

  finish-IsReady :
      (u : World)
      → u.alts ≡ w.alts
      → (w.alts other).task ≢ 0
      → (w.alts other).task ∉ xs
      → IsReady u xs
      → IsReady (finish u) (xs ++ (w.alts other).task ∷ [])
  finish-IsReady u same placed out q =
      let e = finish-task u same in
      subst
        (λ (t : Ptr). IsReady (make_ready t (set_chosen other u)) (xs ++ (w.alts other).task ∷ []))
        (sym e)
        (make_ready-IsReady (w.alts other).task (set_chosen other u) xs placed out
          (unfold set_chosen in q))

  same-IsReady : (v u : World) → Copied w v → Rings v u → IsReady w xs → IsReady u xs
  same-IsReady v u copied rings q =
      let e : u.task ≡ w.task =
        ap (λ (x : World). x.task) rings.0 ∙ ap (λ (x : World). x.task) copied.0 in
      let e' : u.taskrunqueue ≡ w.taskrunqueue =
        ap (λ (x : World). x.taskrunqueue) rings.0 ∙ ap (λ (x : World). x.taskrunqueue) copied.0 in
      rw (e, e') q

  Parked-Parted :
      (fuel : ℕ) (v : World)
      → Parked fuel w other n k
      → Copied w v
      → Returns
          (λ _ u. Parted v u n (w.alts other).xalt k)
          (altalldequeue fuel (v.alts other).xalt v)
  Parked-Parted fuel v parked copied =
      let same : v.alts ≡ w.alts = ap (λ (x : World). x.alts) copied.0 in
      let base = (w.alts other).xalt in
      let moved : base ≡ (v.alts other).xalt = ap (λ (f : Ptr → Alt). (f other).xalt) (sym same) in
      subst (λ (b : Ptr). Returns (λ _ u. Parted v u n base k) (altalldequeue fuel b v)) moved
        (altalldequeue-Parted fuel n base v k (alts_len-alts fuel w v base same ∙ parked.len)
          (subst (λ (f : Ptr → Alt). AreOps n f base) (sym same) parked.ops)
          (Copied-Roomy w v k copied parked.room)
          (λ c op p h.
            subst (λ (f : Ptr → Alt). adds n f base c op p ≤ waits v c op p) (sym same)
              (let kept = Copied-waits w v c op p copied in
                let enough = parked.all c op p h in omega (arith, kept, enough))))

  module _ (placed : (w.alts other).task ≢ 0) (out : (w.alts other).task ∉ xs)
      (q : IsReady w xs) where
    finish-Met :
        (v u : World)
        → Passed w c s r v
        → Copied w v
        → Parted v u n (w.alts other).xalt k
        → Met w c s r other n k xs (finish u)
    finish-Met v u passed copied parted =
        let same_v : v.alts ≡ w.alts = ap (λ (x : World). x.alts) copied.0 in
        let same : u.alts ≡ w.alts = Rings-alts v u parted.rings ∙ same_v in
        record {
          passed = finish-Passed u (Rings-Passed w v u c s r parted.rings passed);
          room = finish-Roomy u parted.room;
          gone = λ c op p h.
              let less : waits u c op p + adds n w.alts (w.alts other).xalt c op p
                  ≡ waits v c op p =
                subst
                  (λ (f : Ptr → Alt).
                    waits u c op p + adds n f (w.alts other).xalt c op p ≡ waits v c op p)
                  same_v (parted.less c op p h) in
              let kept = Copied-waits w v c op p copied in
              let last = finish-waits u c op p h in omega (arith, less, kept, last);
          chosen = finish-chosen u same;
          ready = finish-IsReady u same placed out (same-IsReady v u copied parted.rings q);
        }

    meet_copy :
        (rand : ℕ → ℕ) (fuel : ℕ) (a : Ptr)
        → Parked fuel w other n k
        → Returns (λ _ v. Passed w c s r v × Copied w v) (altcopy a other w)
        → Returns (λ _ v. Met w c s r other n k xs v) (meet rand fuel a other w)
    unfolding meet taskready
    meet_copy rand fuel a parked copied =
        Returns-bind (λ _ v. Passed w c s r v × Copied w v) (λ _ v. Met w c s r other n k xs v)
          (altcopy a other w) _ copied
          (λ _ v p.
            Returns-bind (λ _ u. Parted v u n (w.alts other).xalt k)
              (λ _ v. Met w c s r other n k xs v) (altalldequeue fuel (v.alts other).xalt v)
              (λ _ u. done tt (finish u)) (Parked-Parted fuel v parked p.1)
              (λ _ u q. finish-Met v u p.0 p.1 q))

-- A sender and a receiver of a channel, of which `a` is carried out and `other` waits.
abbrev pub InTurn : (s r a other : Ptr) → Type 0
InTurn s r a other = ((a ≡ s) × (other ≡ r)) ⊎ ((a ≡ r) × (other ≡ s))

altcopy-InTurn :
    (w : World) (c s r a other : Ptr)
    → Meets w c s r
    → InTurn s r a other
    → Returns (λ _ v. Passed w c s r v × Copied w v) (altcopy a other w)
altcopy-InTurn w c s r a other h (inl (ea, eo)) = rw (ea, eo) (altcopy-Copied c s r w h).0
altcopy-InTurn w c s r a other h (inr (ea, eo)) = rw (ea, eo) (altcopy-Copied c s r w h).1

pub meet-Met :
    (rand : ℕ → ℕ) (fuel : ℕ) (w : World) (c s r a other : Ptr) (n k : ℕ) (xs : List Ptr)
    → Meets w c s r
    → InTurn s r a other
    → Parked fuel w other n k
    → (w.alts other).task ≢ 0
    → (w.alts other).task ∉ xs
    → IsReady w xs
    → Returns (λ _ v. Met w c s r other n k xs v) (meet rand fuel a other w)
meet-Met rand fuel w c s r a other n k xs h turn parked placed out q =
    meet_copy w c s r other n k xs placed out q rand fuel a parked
      (altcopy-InTurn w c s r a other h turn)

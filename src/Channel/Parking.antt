-- ===== src/Channel/Parking.antt =====
-- How a task waits in `chanalt`, and how it is woken.
use libtask_annotation.Base.{
  ℕ, zero, suc, ◌+◌, ◌-◌, ◌<◌, ◌≡◌, refl, ap, sym, subst, ◌∙◌, Ptr, Option, some, true, false, not,
  arith, update, ◌==◌,
}
use libtask_annotation.World.{Alt, World}
use libtask_annotation.Flow.{Flow, and_then, done, Switches, Switches-bind}
use libtask_annotation.Task.{has_stack}
use libtask_annotation.Task.Switch.{taskswitch_lem}
use libtask_annotation.Channel.{chanend}
use libtask_annotation.Channel.Alts.{
  alts_len, mark, count_can, queue_all, alt_wait, or_wait, chanalt,
}
use libtask_annotation.Channel.Waiting.{Roomy}
use libtask_annotation.Channel.Joining.{AreOps, Rings-alts, Joined, queue_all-Joined}
use libtask_annotation.Channel.Parting.{AllWait, alts_len-alts}
use libtask_annotation.Channel.Select.{marked, mark-op, chanalt-len, marked-count, exec_one-none}
use libtask_annotation.Channel.Meeting.{Parked, Joined-AllWait}

mark-before : (n : ℕ) (a base t : Ptr) (f : Ptr → Alt) (b : Ptr) → b < a → mark n a base t f b ≡ f b
unfolding mark
mark-before zero a base t f b lt = refl
mark-before (suc n) a base t f b lt =
    mark-before n (a + 1) base t (update f a (record (f a) { task = t; xalt = base })) b
      (omega arith)
    ∙ ground arith

-- Each entry gets its task and the start of its array.
mark-inside :
    (n : ℕ) (a base t : Ptr) (f : Ptr → Alt) (i : ℕ)
    → i < n
    → ((mark n a base t f (a + i)).task ≡ t) × ((mark n a base t f (a + i)).xalt ≡ base)
unfolding mark
mark-inside zero a base t f i lt = absurd (omega arith)
mark-inside (suc n) a base t f zero lt =
    let g = update f a (record (f a) { task = t; xalt = base }) in
    let e : a + 0 ≡ a = omega arith in
    let same = mark-before n (a + 1) base t g a (omega arith) in rw (e, same) (ground arith)
mark-inside (suc n) a base t f (suc i) lt =
    let g = update f a (record (f a) { task = t; xalt = base }) in
    let e : a + suc i ≡ a + 1 + i = omega arith in
    rw e (mark-inside n (a + 1) base t g i (omega arith))

-- The task has given up the processor: each of its entries waits, with the task and the start of
-- the array, and it goes on with the index of the entry that it then finds there.
pub record Waits (w : World) (t : Ptr) (v : World) (fuel n : ℕ) (a : Ptr) (k : ℕ)
    (resume : World → Flow (Option ℕ)) : Type 0 where
  pub joined : Joined w v n a k
  pub parked :
      (i : ℕ)
      → i < n
      → Parked fuel v (a + i) n k × ((v.alts (a + i)).task ≡ t) × ((v.alts (a + i)).xalt ≡ a)
  pub picked : (u : World) (i : ℕ) → (u.alts a).xalt ≡ a + i → resume u ≡ done (some i) u

has_stack-less :
    (w v : World) → v ≡ record w { chans = v.chans } → has_stack 512 w ≡ true → has_stack 0 v ≡ true
unfolding has_stack
has_stack-less w v same h = rw same (ground (arith, h))

resume_at : (u : World) (a : Ptr) (i : ℕ) → (u.alts a).xalt ≡ a + i → (u.alts a).xalt - a ≡ i
resume_at u a i e = rw e (omega arith)

module _ (fuel n : ℕ) (a t : Ptr) (w : World) (k : ℕ) (len : alts_len fuel w a ≡ some n)
    (ops : AreOps n w.alts a) (room : Roomy w (n + k)) (last : (w.alts (a + n)).op ≡ chanend)
    (stack : has_stack 512 w ≡ true)
    (filled : (i : ℕ) → i < n → ((w.alts (a + i)).task ≡ t) × ((w.alts (a + i)).xalt ≡ a)) where
  Joined-Parked :
      (v : World)
      → Joined w v n a k
      → (i : ℕ) → i < n
      → Parked fuel v (a + i) n k × ((v.alts (a + i)).task ≡ t) × ((v.alts (a + i)).xalt ≡ a)
  Joined-Parked v j i lt =
      let same = Rings-alts w v j.rings in
      let at : (v.alts (a + i)).xalt ≡ a =
        ap (λ (f : Ptr → Alt). (f (a + i)).xalt) same ∙ (filled i lt).1 in
      (
        record {
          len = ap (alts_len fuel v) at ∙ alts_len-alts fuel w v a same ∙ len;
          ops =
              subst (λ (b : Ptr). AreOps n v.alts b) (sym at)
                (subst (λ (f : Ptr → Alt). AreOps n f a) (sym same) ops);
          room = j.room;
          all =
              subst (λ (b : Ptr). AllWait v n v.alts b) (sym at)
                (subst (λ (f : Ptr → Alt). AllWait v n f a) (sym same)
                  (Joined-AllWait w v n a k j));
        },
        ap (λ (f : Ptr → Alt). (f (a + i)).task) same ∙ (filled i lt).0,
        at,
      )

  alt_wait-Waits : Switches (λ v resume. Waits w t v fuel n a k resume) (alt_wait n a w)
  unfolding alt_wait
  alt_wait-Waits =
      let ends : (not ((w.alts (a + n)).op == chanend)) ≡ false = ground arith in
      rw ends (
        Switches-bind (λ _ v. Joined w v n a k) (λ v resume. Waits w t v fuel n a k resume)
          (queue_all n a w) _ (queue_all-Joined n a w k ops room)
          (λ _ v j. rw (taskswitch_lem v (has_stack-less w v j.rings.0 stack)) (record {
            joined = j;
            parked = Joined-Parked v j;
            picked = λ u i e. ap (λ (d : ℕ). done (some d) u) (resume_at u a i e);
          })))

alts_len-ext :
    (fuel : ℕ) (w v : World) (a : Ptr)
    → ((b : Ptr) → (v.alts b).op ≡ (w.alts b).op)
    → alts_len fuel v a ≡ alts_len fuel w a
unfolding alts_len
alts_len-ext zero w v a same = refl
alts_len-ext (suc fuel) w v a same = rw (alts_len-ext fuel w v (a + 1) same, same a) refl

-- chanalt on an array that ends in CHANEND, none of whose operations can be carried out, adds
-- each of its operations to those that wait at its channel and gives up the processor. Each then
-- waits as altexec of another task needs it, with the running task and the start of the array;
-- and when the task goes on, chanalt returns the index of the operation that is recorded in the
-- array by then. The operations send, receive or do nothing, the task has stack left, the array
-- ends within the fuel, and no array of a channel is near the overflow of its counters.
pub chanalt-Waits :
    (rand : ℕ → ℕ) (fuel n : ℕ) (a : Ptr) (w : World) (k : ℕ)
    → alts_len fuel w a ≡ some n
    → AreOps n w.alts a
    → Roomy w (n + k)
    → (w.alts (a + n)).op ≡ chanend
    → has_stack 512 w ≡ true
    → count_can n w a ≡ 0
    → Switches
        (λ v resume. Waits (marked n a w) w.taskrunning v fuel n a k resume)
        (chanalt rand fuel a w)
chanalt-Waits rand fuel n a w k len ops room last stack cannot =
    let m = marked n a w in
    let t = w.taskrunning in
    let op : (b : Ptr) → (m.alts b).op ≡ (w.alts b).op = λ b. (mark-op n a a t w.alts b).0 in
    let e : chanalt rand fuel a w ≡ alt_wait n a m =
      chanalt-len rand fuel a n w stack len
      ∙ ap (λ (f : Flow (Option ℕ)). and_then f (or_wait n a))
          (exec_one-none rand fuel n a m (marked-count rand fuel a n w stack len ∙ cannot))
      ∙ unfold or_wait in refl in
    subst (Switches (λ v resume. Waits m t v fuel n a k resume)) (sym e) (
      alt_wait-Waits fuel n a t m k (alts_len-ext fuel w m a op ∙ len)
        (λ i lt. rw (op (a + i)) (ops i lt)) (record { fits = room.fits; small = room.small })
        (op (a + n) ∙ last) (unfold has_stack in stack) (λ i lt. mark-inside n a a t w.alts i lt))

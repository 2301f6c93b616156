-- ===== src/Channel/Rendezvous.antt =====
-- A whole rendezvous: a task waits in `chanalt`, another carries out `altexec`, and the first goes on.
use libtask_annotation.Base.{
  ℕ, zero, suc, ◌+◌, ◌*◌, ◌^◌, ◌<◌, ◌≤◌, ◌≡◌, ◌≢◌, ◌⊎◌, inl, inr, ◌∉◌, refl, ap, sym, subst, ◌∙◌,
  Ptr, Option, some, true, false, List, [], ◌∷◌, ◌++◌, arith, ◌==◌, ◌&&◌, if◌then◌else◌,
}
use libtask_annotation.World.{Alt, Altarray, Channel, World}
use libtask_annotation.Flow.{Flow, done, switch, Returns, Returns-mono, Switches}
use libtask_annotation.Sched.Fifo.{IsReady}
use libtask_annotation.Task.{has_stack}
use libtask_annotation.Channel.{chanend, channop, otherop, chanarray, is_last}
use libtask_annotation.Channel.Alts.{alts_len, count_can, chanalt, altexec}
use libtask_annotation.Channel.Copy.{Meets, Passed}
use libtask_annotation.Channel.Select.{marked}
use libtask_annotation.Channel.Waiting.{IsOp, Roomy, side, entry}
use libtask_annotation.Channel.Entries.{occurs}
use libtask_annotation.Channel.Joining.{adds, AreOps}
use libtask_annotation.Channel.Parting.{AllWait, alts_len-zero, alts_len-cases}
use libtask_annotation.Channel.Meeting.{InTurn, Parked, Met}
use libtask_annotation.Channel.Parking.{Waits, chanalt-Waits}
use libtask_annotation.Channel.Exec.{partner, altexec-Met}

-- The stores have the same entries from `a` on, to the one that ends the array.
abbrev pub Agree : (n : ℕ) → (f g : Ptr → Alt) → (a : Ptr) → Type 0
Agree n f g a = (i : ℕ) → i ≤ n → f (a + i) ≡ g (a + i)

Agree-first : (n : ℕ) (f g : Ptr → Alt) (a : Ptr) → Agree n f g a → f a ≡ g a
Agree-first n f g a h = subst (λ (b : Ptr). f b ≡ g b) (omega arith) (h 0 (omega arith))

Agree-rest : (n : ℕ) (f g : Ptr → Alt) (a : Ptr) → Agree (suc n) f g a → Agree n f g (a + 1)
Agree-rest n f g a h =
    λ i le. subst (λ (b : Ptr). f b ≡ g b) (omega arith) (h (suc i) (omega arith))

alts_len-end :
    (fuel : ℕ) (w : World) (a : Ptr)
    → is_last (w.alts a).op ≡ true
    → alts_len (suc fuel) w a ≡ some 0
unfolding alts_len
alts_len-end fuel w a last = rw last refl

alts_len-more :
    (fuel m : ℕ) (w : World) (a : Ptr)
    → is_last (w.alts a).op ≡ false
    → alts_len fuel w (a + 1) ≡ some m
    → alts_len (suc fuel) w a ≡ some (suc m)
unfolding alts_len
alts_len-more fuel m w a more e = rw (more, e) refl

alts_len-Agree :
    (fuel n : ℕ) (v u : World) (a : Ptr)
    → Agree n u.alts v.alts a
    → alts_len fuel v a ≡ some n
    → alts_len fuel u a ≡ some n
alts_len-Agree zero n v u a h e = absurd (alts_len-zero n v a e)
alts_len-Agree (suc fuel) n v u a h e =
    let op : (u.alts a).op ≡ (v.alts a).op =
      ap (λ (x : Alt). x.op) (Agree-first n u.alts v.alts a h) in
    elim (alts_len-cases fuel n v a e) [
      | inl (last, z) ↦
          alts_len-end fuel u a (ap is_last op ∙ last) ∙ ap (λ (k : ℕ). some k) (sym z)
      | inr (m, more, s, e') ↦
          alts_len-more fuel m u a (ap is_last op ∙ more) (
            alts_len-Agree fuel m v u (a + 1)
              (Agree-rest m u.alts v.alts a (subst (λ (k : ℕ). Agree k u.alts v.alts a) s h)) e')
          ∙ ap (λ (k : ℕ). some k) (sym s)
    ]

adds-Agree :
    (n : ℕ) (f g : Ptr → Alt) (a c op p : ℕ) → Agree n f g a → adds n f a c op p ≡ adds n g a c op p
unfolding adds
adds-Agree zero f g a c op p h = refl
adds-Agree (suc n) f g a c op p h =
    let first : entry f a c op p ≡ entry g a c op p =
      ap (λ (x : Alt). if x.c == c && (x.op == op && (a == p)) then 1 else 0)
        (Agree-first (suc n) f g a h) in
    let rest = adds-Agree n f g (a + 1) c op p (Agree-rest n f g a h) in omega (arith, first, rest)

-- The operation waits on, whatever happens to entries of other arrays.
Parked-Agree :
    (fuel : ℕ) (v u : World) (a i n k : ℕ)
    → i < n
    → Agree n u.alts v.alts a
    → u.chans ≡ v.chans
    → (v.alts (a + i)).xalt ≡ a
    → Parked fuel v (a + i) n k
    → ((u.alts (a + i)).xalt ≡ a) × Parked fuel u (a + i) n k
Parked-Agree fuel v u a i n k lt h chans at p =
    let at' : (u.alts (a + i)).xalt ≡ a = ap (λ (x : Alt). x.xalt) (h i (omega arith)) ∙ at in
    let len : alts_len fuel v a ≡ some n = ap (alts_len fuel v) (sym at) ∙ p.len in
    let ops : AreOps n v.alts a = subst (AreOps n v.alts) at p.ops in
    let all : AllWait v n v.alts a = subst (AllWait v n v.alts) at p.all in
    (
      at',
      record {
        len = ap (alts_len fuel u) at' ∙ alts_len-Agree fuel n v u a h len;
        ops = subst (AreOps n u.alts) (sym at') (λ j below.
            subst (λ (x : Alt). IsOp x.op ⊎ (x.op ≡ channop)) (sym (h j (omega arith)))
              (ops j below));
        room = record {
          fits = λ c op w.
              subst (λ (g : Ptr → Channel). (side (g c) op).n ≤ (side (g c) op).m) (sym chans)
                (p.room.fits c op w);
          small = λ c op w.
              subst (λ (g : Ptr → Channel). (side (g c) op).m + 16 * k < 2 ^ 31) (sym chans)
                (p.room.small c op w);
        };
        all = subst (AllWait u n u.alts) (sym at') (λ c op q w.
            subst
              (λ (g : Ptr → Channel).
                adds n u.alts a c op q ≤ occurs (side (g c) op).a (side (g c) op).n q)
              (sym chans)
              (let same = adds-Agree n u.alts v.alts a c op q h in
                let enough = all c op q w in omega (arith, same, enough)));
      },
    )

module _ (rand : ℕ → ℕ) (fuel n : ℕ) (a : Ptr) (w : World) (k : ℕ)
    (len : alts_len fuel w a ≡ some n) (ops : AreOps n w.alts a) (room : Roomy w (n + k))
    (last : (w.alts (a + n)).op ≡ chanend) (stack : has_stack 512 w ≡ true)
    (cannot : count_can n w a ≡ 0) (v : World) (resume : World → Flow (Option ℕ))
    (waits : chanalt rand fuel a w ≡ switch v resume) where
  waiting : Waits (marked n a w) w.taskrunning v fuel n a k resume
  waiting =
      subst (Switches (λ v resume. Waits (marked n a w) w.taskrunning v fuel n a k resume)) waits
        (chanalt-Waits rand fuel n a w k len ops room last stack cannot)

  module _ (u : World) (same : Agree n u.alts v.alts a) (chans : u.chans ≡ v.chans) (b c s r : Ptr)
      (i : ℕ) (ar : Altarray) (xs : List Ptr) where
    Met-resumed :
        (z : World)
        → i < n
        → Met u c s r (a + i) n k xs z
        → Passed u c s r z × IsReady z (xs ++ w.taskrunning ∷ []) × (resume z ≡ done (some i) z)
    Met-resumed z lt m =
        let (parked, task, base) = waiting.parked i lt in
        let task' : (u.alts (a + i)).task ≡ w.taskrunning =
          ap (λ (x : Alt). x.task) (same i (omega arith)) ∙ task in
        let base' : (u.alts (a + i)).xalt ≡ a =
          ap (λ (x : Alt). x.xalt) (same i (omega arith)) ∙ base in
        (
          m.passed,
          subst (λ (t : Ptr). IsReady z (xs ++ t ∷ [])) task' m.ready,
          waiting.picked z i (subst (λ (p : Ptr). (z.alts p).xalt ≡ a + i) base' m.chosen),
        )

    -- A whole rendezvous. Once chanalt has given up the processor, on an array that ends in
    -- CHANEND and none of whose operations can be carried out, let another task carry out
    -- altexec of an operation, in a state in which the channels and the entries of the array are
    -- as they were left, and let the draw of rand name entry i of the array. Then the sender's
    -- message goes behind those in the channel and the oldest goes to the receiver, the task
    -- that waits is ready behind the others, and when it goes on its chanalt returns i. The
    -- places of the messages are apart as for altcopy, the waiting task is not ready yet and had
    -- stack left, the operations send, receive or do nothing, the array ends within the fuel,
    -- and no array of a channel is near the overflow of its counters.
    pub altexec-resumed :
        i < n
        → chanarray (u.chans (u.alts b).c) (otherop (u.alts b).op) ≡ some ar
        → 0 < ar.n
        → partner rand u ar ≡ a + i
        → Meets u c s r
        → InTurn s r b (a + i)
        → w.taskrunning ≢ 0
        → w.taskrunning ∉ xs
        → IsReady u xs
        → Returns
            (λ _ z.
              Passed u c s r z
              × IsReady z (xs ++ w.taskrunning ∷ [])
              × (resume z ≡ done (some i) z))
            (altexec rand fuel b u)
    altexec-resumed lt found some_wait named h turn placed out q =
        let (parked, task, base) = waiting.parked i lt in
        let task' : (u.alts (partner rand u ar)).task ≡ w.taskrunning =
          ap (λ (p : Ptr). (u.alts p).task) named
          ∙ ap (λ (x : Alt). x.task) (same i (omega arith))
          ∙ task in
        let parked' : Parked fuel u (partner rand u ar) n k =
          subst (λ (p : Ptr). Parked fuel u p n k) (sym named)
            (Parked-Agree fuel v u a i n k lt same chans base parked).1 in
        Returns-mono (λ _ z. Met u c s r (partner rand u ar) n k xs z) _ (altexec rand fuel b u)
          (λ _ z m. Met-resumed z lt (subst (λ (p : Ptr). Met u c s r p n k xs z) named m))
          (altexec-Met rand fuel u c s r b ar n k xs found some_wait h
            (subst (InTurn s r b) (sym named) turn) parked' (λ e. placed (sym task' ∙ e))
            (subst (λ (t : Ptr). t ∉ xs) (sym task') out) q)

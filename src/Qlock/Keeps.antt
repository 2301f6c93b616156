-- ===== src/Qlock/Keeps.antt =====
-- The tasks of a process that use one `QLock` keep to the steps of Qlock/Protocol.
use libtask_annotation.Base.{
  ◌≡◌, ◌≢◌, ◌⊎◌, refl, sym, subst, ◌∙◌, Ptr, Bool, true, false, none, some, [], ◌∷◌, ◌++◌, arith,
  ◌==◌, ◌∉◌, update, Bool-cases, inl, inr,
}
use libtask_annotation.World.{World}
use libtask_annotation.Flow.{Flow, done, switch, aborts, Returns, Switches}
use libtask_annotation.Task.{has_stack, make_ready}
use libtask_annotation.Qlock.{qlock_core, qunlock}
use libtask_annotation.Qlock.Spec.{Lock, taken, queued, released}
use libtask_annotation.Qlock.Refine.{
  IsLock, make_ready-IsLock, qlock_core-free, qlock_core-queued, qunlock-released,
}
use libtask_annotation.Qlock.Frame.{qunlock-Kept, Kept}
use libtask_annotation.Qlock.Protocol.{
  Tasks, IsFree, lock, wait, unlock, yields, leave, wake, Reach, later, Reach-Inv,
}
use libtask_annotation.Qlock.Runs.{Process, Outside}
use libtask_annotation.Qlock.Outcomes.{IsLock-running, IfDone, qlock_core-IfDone}

-- What is left of `_qlock` returns, when its task is the owner.
abbrev pub Returning : Ptr → (World → Flow Bool) → Type 0
Returning l k = (u : World) → (u.qlocks l).owner ≡ u.taskrunning → k u ≡ done true u

-- The process stands for tasks that keep to the protocol.
pub record Keeps (l : Ptr) (c : Process) : Type 0 where
  pub held : Lock
  pub parked : Ptr → Bool
  pub reach : Reach (record { lock = held; running = c.world.taskrunning; parked = parked })
  pub is_lock : IsLock c.world l held
  pub inside :
      (t : Ptr) → parked t ≡ true → (k : World → Flow Bool) × (c.behind t ≡ some k) × Returning l k
  pub outside : (t : Ptr) → parked t ≡ false → c.behind t ≡ none

module _ {l : Ptr} {c : Process} (q : Keeps l c) where
  abbrev pub tasks : Tasks
  tasks = record { lock = q.held; running = c.world.taskrunning; parked = q.parked }

  out-IsFree : (t : Ptr) → c.behind t ≡ none → q.parked t ≡ false
  out-IsFree t out = elim (Bool-cases (q.parked t)) [
    | inl p ↦ let (k, e, r) = q.inside t p in absurd (cc)
    | inr p ↦ p
  ]

  Outside-IsFree : Outside c → IsFree tasks
  Outside-IsFree o = (o.0, out-IsFree c.world.taskrunning o.1)

  -- The lock, the running task and the state change, and no task enters `_qlock`.
  pub moved :
      (v : World) (s : Lock) (r : Ptr)
      → v.taskrunning ≡ r
      → Reach (record { lock = s; running = r; parked = q.parked })
      → IsLock v l s
      → Keeps l (record c { world = v })
  moved v s r e reach is_lock = record {
    held = s;
    parked = q.parked;
    reach = subst (λ x. Reach (record { lock = s; running = x; parked = q.parked })) (sym e) reach;
    is_lock = is_lock;
    inside = q.inside;
    outside = q.outside;
  }

module _ {l : Ptr} (c : Process) (q : Keeps l c) where
  pub takes-Keeps :
      (block got : Bool) (v : World)
      → Outside c
      → qlock_core l block c.world ≡ done got v
      → Keeps l (record c { world = v })
  takes-Keeps block got v o e =
      let w = c.world in
      let r = qlock_core-IfDone l block w q.held q.is_lock in
      let (now, got_it) =
        subst
          (IfDone (λ _ u.
            (u.taskrunning ≡ w.taskrunning)
            × (((q.held.owner ≡ 0) × IsLock u l (taken w.taskrunning q.held)) ⊎ (u ≡ w))))
          e r in
      elim got_it [
        | inl (free, is_lock) ↦
            moved q v (taken w.taskrunning q.held) w.taskrunning now
              (later q.reach (lock (tasks q) (Outside-IsFree q o) free)) is_lock
        | inr same ↦
            moved q v q.held w.taskrunning now q.reach
              (subst (λ (u : World). IsLock u l q.held) (sym same) q.is_lock)
      ]

  pub parks-Keeps :
      (v : World) (k : World → Flow Bool)
      → Outside c
      → has_stack 0 c.world ≡ true
      → qlock_core l true c.world ≡ switch v k
      → Keeps l (record {
        world = record v { taskrunning = 0 };
        behind = update c.behind c.world.taskrunning (some k);
      })
  parks-Keeps v k o room e =
      let w = c.world in
      let inv = Reach-Inv q.reach in
      let held : q.held.owner ≢ 0 = λ free.
        subst (Returns (λ b u. (b ≡ true) × IsLock u l (taken w.taskrunning q.held))) e
          (qlock_core-free l true w q.held q.is_lock free) in
      let (is_lock, returning, aborting) =
        subst
          (Switches (λ u f.
            IsLock u l (queued w.taskrunning q.held)
            × Returning l f
            × ((x : World) → (x.qlocks l).owner ≢ x.taskrunning → f x ≡ aborts x)))
          e
          (qlock_core-queued l w q.held q.is_lock held o.0 (ground (arith, inv.apart w.taskrunning))
            (ground (arith, inv.nonzero w.taskrunning)) room) in
      record {
        held = queued w.taskrunning q.held;
        parked = update q.parked w.taskrunning true;
        reach = later q.reach (wait (tasks q) (Outside-IsFree q o) held);
        is_lock = IsLock-running v l _ 0 is_lock;
        inside = λ t p. elim (Bool-cases (t == w.taskrunning)) [
          | inl it ↦ (k, rw it refl, returning)
          | inr other ↦ rw other (q.inside t (rw other at p))
        ];
        outside = λ t p. elim (Bool-cases (t == w.taskrunning)) [
          | inl it ↦ absurd (ground arith)
          | inr other ↦ rw other (q.outside t (rw other at p))
        ];
      }

  pub unlocks-Keeps :
      (v : World)
      → Outside c
      → (c.world.qlocks l).owner ≡ c.world.taskrunning
      → qunlock l c.world ≡ done tt v
      → Keeps l (record c { world = v })
  unlocks-Keeps v o own e =
      let w = c.world in
      let mine : q.held.owner ≡ w.taskrunning = sym q.is_lock.owner ∙ own in
      let held : q.held.owner ≢ 0 = λ z. o.0 (sym mine ∙ z) in
      let is_lock : IsLock v l (released q.held) =
        subst (Returns (λ _ u. IsLock u l (released q.held))) e
          (qunlock-released l w q.held q.is_lock held) in
      let kept : Kept w v [] =
        subst (Returns (λ _ u. Kept w u [])) e
          (qunlock-Kept l w q.held [] q.is_lock held (λ a i. refl) (λ a i. refl)) in
      moved q v (released q.held) w.taskrunning kept.running
        (later q.reach (unlock (tasks q) (Outside-IsFree q o) mine)) is_lock

  pub passes-Keeps :
      Outside c
      → Keeps l
          (record c { world = record (make_ready c.world.taskrunning c.world) { taskrunning = 0 } })
  passes-Keeps o =
      let w = c.world in
      let t = w.taskrunning in
      let inv = Reach-Inv q.reach in
      let v = make_ready t w in
      let s : Lock = record q.held { ready = q.held.ready ++ t ∷ [] } in
      moved q (record v { taskrunning = 0 }) s 0 refl
        (later q.reach (yields (tasks q) (Outside-IsFree q o)))
        (IsLock-running v l s 0 (
          make_ready-IsLock l t w q.held q.is_lock o.0 (ground (arith, inv.apart t))
            (ground (arith, inv.nonzero t))))

  pub rests-Keeps : Outside c → Keeps l (record c { world = record c.world { taskrunning = 0 } })
  rests-Keeps o =
      moved q (record c.world { taskrunning = 0 }) q.held 0 refl
        (later q.reach (leave (tasks q) (Outside-IsFree q o)))
        (IsLock-running c.world l q.held 0 q.is_lock)

  pub wakes-Keeps :
      (t : Ptr)
      → t ≢ 0
      → t ≢ c.world.taskrunning
      → c.behind t ≡ none
      → ((s : Lock) → IsLock c.world l s → t ∉ s.ready)
      → Keeps l (record c { world = make_ready t c.world })
  wakes-Keeps t ne other out fresh =
      let w = c.world in
      let inv = Reach-Inv q.reach in
      let awake = out-IsFree q t out in
      let s : Lock = record q.held { ready = q.held.ready ++ t ∷ [] } in
      let new = fresh q.held q.is_lock in
      moved q (make_ready t w) s w.taskrunning (unfold make_ready in refl)
        (later q.reach (wake (tasks q) t ne other new awake))
        (make_ready-IsLock l t w q.held q.is_lock ne (ground (arith, inv.apart t)) new)

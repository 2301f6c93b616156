-- ===== src/Qlock/Resumed.antt =====
-- What becomes of a task that gives up the processor inside `_qlock`.
use libtask_annotation.Base.{
  ◌≡◌, ◌≢◌, ◌⊎◌, refl, sym, subst, ◌∙◌, Ptr, Bool, true, false, Option, none, some, List, [], ◌∷◌,
  arith, ◌==◌, ◌∈◌, update, Bool-cases, inl, inr,
}
use libtask_annotation.World.{World}
use libtask_annotation.Flow.{Flow, done, switch, exits, aborts, out_of_fuel}
use libtask_annotation.Sched.{run, schedule}
use libtask_annotation.Qlock.Spec.{Lock}
use libtask_annotation.Qlock.Refine.{IsLock}
use libtask_annotation.Qlock.Protocol.{
  dispatch, resume, Reach, start, later, resumed-owner, parked-served,
}
use libtask_annotation.Qlock.Runs.{
  Process, Run, takes, parks, unlocks, passes, rests, wakes, schedules, resumes, others, Runs,
  begins, goes_on,
}
use libtask_annotation.Qlock.Outcomes.{Picks, schedule-IsLock}
use libtask_annotation.Qlock.Keeps.{
  Returning, Keeps, tasks, moved, takes-Keeps, parks-Keeps, unlocks-Keeps, passes-Keeps,
  rests-Keeps, wakes-Keeps,
}

abbrev Left : Ptr → Option (World → Flow Bool) → Type 0
Left l none = Unit
Left l (some k) = Returning l k

abbrev Leaves : World → Flow Bool → Type 0
Leaves w (done a v) = w ≡ v
Leaves w (switch v k) = Unit
Leaves w (exits n v) = Unit
Leaves w (aborts v) = Unit
Leaves w (out_of_fuel v) = Unit

module _ {l : Ptr} (c : Process) (q : Keeps l c) where
  schedules-Keeps :
      (t : Ptr) (v : World)
      → c.world.taskrunning ≡ 0
      → schedule c.world ≡ run t v
      → Keeps l (record c { world = v })
  schedules-Keeps t v idle e =
      let w = c.world in
      let (ts, first, is_lock, now) =
        subst
          (Picks (λ a u.
            (us : List Ptr) × (q.held.ready ≡ a ∷ us)
            × IsLock u l (record q.held { ready = us })
            × (u.taskrunning ≡ a)))
          e (schedule-IsLock l w q.held q.held.ready q.is_lock) in
      moved q v (record q.held { ready = ts }) t now
        (later q.reach (dispatch (tasks q) t ts idle first)) is_lock

  -- A task that runs again, and is inside `_qlock`, returns from it.
  returns_again :
      (k : World → Flow Bool)
      → c.world.taskrunning ≢ 0
      → c.behind c.world.taskrunning ≡ some k
      → (q.parked c.world.taskrunning ≡ true) × (k c.world ≡ done true c.world)
  returns_again k ne e =
      let w = c.world in
      elim (Bool-cases (q.parked w.taskrunning)) [
        | inr out ↦ let n = q.outside w.taskrunning out in absurd (cc)
        | inl p ↦
            let (k', e', returning) = q.inside w.taskrunning p in
            let own : q.held.owner ≡ w.taskrunning = resumed-owner q.reach ne p in
            let r : Left l (some k) = subst (Left l) (sym e' ∙ e) returning in
            (p, r w (q.is_lock.owner ∙ own))
      ]

  resumes-Keeps :
      (k : World → Flow Bool) (got : Bool) (v : World)
      → c.world.taskrunning ≢ 0
      → c.behind c.world.taskrunning ≡ some k
      → k c.world ≡ done got v
      → Keeps l (record { world = v; behind = update c.behind c.world.taskrunning none })
  resumes-Keeps k got v ne e back =
      let w = c.world in
      let (p, returns) = returns_again k ne e in
      let same : w ≡ v = subst (Leaves w) (sym returns ∙ back) refl in
      let own : q.held.owner ≡ w.taskrunning = resumed-owner q.reach ne p in
      subst
        (λ (u : World). Keeps l (record { world = u; behind = update c.behind w.taskrunning none }))
        same
        (record {
          held = q.held;
          parked = update q.parked w.taskrunning false;
          reach = later q.reach (resume (tasks q) ne p own);
          is_lock = q.is_lock;
          inside = λ t p. elim (Bool-cases (t == w.taskrunning)) [
            | inl it ↦ absurd (ground arith)
            | inr other ↦ rw other (q.inside t (rw other at p))
          ];
          outside = λ t p. elim (Bool-cases (t == w.taskrunning)) [
            | inl it ↦ rw it refl
            | inr other ↦ rw other (q.outside t (rw other at p))
          ];
        })

Run-Keeps : {l : Ptr} {c d : Process} → Run l c d → Keeps l c → Keeps l d
Run-Keeps (takes c block got v o e) q = takes-Keeps c q block got v o e
Run-Keeps (parks c v k o room e) q = parks-Keeps c q v k o room e
Run-Keeps (unlocks c v o own e) q = unlocks-Keeps c q v o own e
Run-Keeps (passes c o) q = passes-Keeps c q o
Run-Keeps (rests c o) q = rests-Keeps c q o
Run-Keeps (wakes c t ne other out fresh) q = wakes-Keeps c q t ne other out fresh
Run-Keeps (schedules c t v idle e) q = schedules-Keeps c q t v idle e
Run-Keeps (resumes c k got v ne e back) q = resumes-Keeps c q k got v ne e back
Run-Keeps (others c v same is_lock) q =
    moved q v q.held c.world.taskrunning same q.reach (is_lock q.held q.is_lock)

Runs-Keeps : {l : Ptr} {c : Process} → Runs l c → Keeps l c
Runs-Keeps (begins w ts idle d ne is_lock) = record {
  held = record { owner = 0; waiting = []; ready = ts };
  parked = λ _. false;
  reach =
      subst
        (λ r. Reach (record {
          lock = record { owner = 0; waiting = []; ready = ts };
          running = r;
          parked = λ _. false;
        }))
        (sym idle) (start ts d ne);
  is_lock = is_lock;
  inside = λ t p. absurd (cc);
  outside = λ t p. refl;
}
Runs-Keeps (goes_on r s) = Run-Keeps s (Runs-Keeps r)

-- However the tasks of a process use a QLock that is free at first: a task that runs again
-- inside _qlock is the owner, and _qlock returns 1, so that the test behind its taskswitch never
-- aborts. Only the owner calls qunlock, a task that has to wait has stack left, the tasks that
-- are ready at first are tasks and different, a task makes another ready only when that is
-- neither ready nor inside _qlock, and other code leaves the lock and the run queue as they are.
pub resumed-returns :
    {l : Ptr} {c : Process} (k : World → Flow Bool)
    → Runs l c
    → c.world.taskrunning ≢ 0
    → c.behind c.world.taskrunning ≡ some k
    → ((c.world.qlocks l).owner ≡ c.world.taskrunning) × (k c.world ≡ done true c.world)
resumed-returns {l} {c} k r ne e =
    let q = Runs-Keeps r in
    let (p, returns) = returns_again c q k ne e in
    (q.is_lock.owner ∙ resumed-owner q.reach ne p, returns)

-- However the tasks of a process use a QLock that is free at first, no task that has given up
-- the processor inside _qlock is forgotten: it is in the queue of the lock, which is held, or it
-- is the owner and is in the run queue or runs. Only the owner calls qunlock, a task that has to
-- wait has stack left, the tasks that are ready at first are tasks and different, a task makes
-- another ready only when that is neither ready nor inside _qlock, and other code leaves the
-- lock and the run queue as they are.
pub waiting-served :
    {l : Ptr} {c : Process} (t : Ptr) (k : World → Flow Bool)
    → Runs l c
    → c.behind t ≡ some k
    → (s : Lock) × IsLock c.world l s
      × (((t ∈ s.waiting) × (s.owner ≢ 0))
          ⊎ ((s.owner ≡ t) × ((t ∈ s.ready) ⊎ (c.world.taskrunning ≡ t))))
waiting-served {l} {c} t k r e =
    let q = Runs-Keeps r in
    elim (Bool-cases (q.parked t)) [
      | inr out ↦ let n = q.outside t out in absurd (cc)
      | inl p ↦ (q.held, q.is_lock, parked-served t q.reach p)
    ]

-- ===== src/Rwlock/Uses.antt =====
-- The tasks of a process that use one `RWLock` by the functions of qlock.c.
use libtask_annotation.Base.{
  ℕ, suc, ◌^◌, ◌<◌, ◌≡◌, ◌≢◌, ◌⊎◌, inl, inr, refl, sym, subst, ◌∙◌, Ptr, Bool, true, false, List,
  [], ◌∷◌, ◌++◌, ◌-◌, length, arith, ◌∉◌, ◌==◌, inc32, Bool-cases, ◌&&◌, ℕ_discrete,
}
use libtask_annotation.World.{World}
use libtask_annotation.Flow.{Flow, done, switch, Returns, Switches}
use libtask_annotation.Task.{has_stack, taskstate}
use libtask_annotation.Qlock.Outcomes.{IfDone, taskswitch-IfDone}
use libtask_annotation.Rwlock.{rlock_core, wlock_core, canrlock, canwlock, runlock, wunlock}
use libtask_annotation.Rwlock.Handover.{View, IsRwlock, settled, runlock-settled, wunlock-settled}
use libtask_annotation.Rwlock.Take.{
  head-empty, canrlock-cases, canwlock-cases, rlock_core-queued, wlock_core-queued,
}
use libtask_annotation.Rwlock.Exclusive.{
  Move, reads, waits_to_read, writes, waits_to_write, ends_reading, ends_writing, Moves, start,
  later, Exclusive, Moves-Exclusive,
}

-- The running task is a task, with stack left, that neither waits for the lock nor is in the run queue.
pub record IsAwake (l : Ptr) (w : World) : Type 0 where
  pub running : w.taskrunning ≢ 0
  pub stack : has_stack 0 w ≡ true
  pub apart :
      (s : View)
      → IsRwlock w l s
      → (w.taskrunning ∉ s.rwaiting) × (w.taskrunning ∉ s.wwaiting) × (w.taskrunning ∉ s.ready)

pub data Use (l : Ptr) : World → World → Type 0 where
  -- `rlock` or `canrlock` returns 1, as one of less than 2^31 readers.
  takes_read :
      (w v : World) (block : Bool)
      → (w.rwlocks l).readers < 2 ^ 31
      → rlock_core l block w ≡ done true v
      → Use l w v
  -- `rlock` gives up the processor.
  parks_read :
      (w v : World) (k : World → Flow Bool)
      → IsAwake l w
      → rlock_core l true w ≡ switch v k
      → Use l w v
  -- `wlock` or `canwlock` returns 1.
  takes_write :
      (w v : World) (block : Bool)
      → w.taskrunning ≢ 0
      → wlock_core l block w ≡ done true v
      → Use l w v
  -- `wlock` gives up the processor.
  parks_write :
      (w v : World) (k : World → Flow Bool)
      → IsAwake l w
      → wlock_core l true w ≡ switch v k
      → Use l w v
  -- `runlock`, when there are readers
  leaves_read :
      (w v : World)
      → (w.rwlocks l).readers ≢ 0
      → (w.rwlocks l).readers < 2 ^ 31
      → runlock l w ≡ done tt v
      → Use l w v
  -- `wunlock`
  leaves_write :
      (w v : World) (fuel : ℕ)
      → (w.rwlocks l).writer ≢ 0
      → ((s : View) → IsRwlock w l s → (length s.rwaiting < fuel) × (length s.rwaiting < 2 ^ 31))
      → wunlock fuel l w ≡ done tt v
      → Use l w v
  -- Code that leaves the lock as it is, and may change the run queue.
  others :
      (w v : World)
      → ((s : View) → IsRwlock w l s → (rs : List Ptr) × IsRwlock v l (record s { ready = rs }))
      → Use l w v

-- How a process goes on from a free lock, for which no task waits.
pub data Uses (l : Ptr) : World → Type 0 where
  begins :
      (w : World) (rs : List Ptr)
      → IsRwlock w l (record { readers = 0; writer = 0; rwaiting = []; wwaiting = []; ready = rs })
      → Uses l w
  goes_on : {w v : World} → Uses l w → Use l w v → Uses l v

-- What the lock stands for has come to be by the steps.
abbrev Stands : Ptr → World → Type 0
Stands l w = (s : View) × IsRwlock w l s × Moves s

rlock_core-taken :
    (l : Ptr) (block : Bool) (w v : World) (s : View)
    → IsRwlock w l s
    → rlock_core l block w ≡ done true v
    → (s.writer ≡ 0) × (s.wwaiting ≡ []) × IsRwlock v l (record s { readers = inc32 s.readers })
unfolding rlock_core canrlock taskstate
rlock_core-taken l block w v s q e =
    elim (Bool-cases (((w.rwlocks l).writer == 0) && ((w.rwlocks l).wwaiting.head == 0))) [
      | inl free ↦
          let same : rlock_core l block w ≡ canrlock l w = rw free refl in
          let r =
            subst
              (Returns (λ got u.
                ((s.writer ≡ 0)
                  × (s.wwaiting ≡ [])
                  × (got ≡ true)
                  × IsRwlock u l (record s { readers = inc32 s.readers }))
                ⊎ (((s.writer ≢ 0) ⊎ (s.wwaiting ≢ [])) × (got ≡ false) × (u ≡ w))))
              (sym same ∙ e) (canrlock-cases l w s q) in
          elim r [ inl (a, b, yes', d) ↦ (a, b, d) | inr (h, no', u) ↦ absurd (cc) ]
      | inr held ↦
          let out : IfDone (λ b _. b ≡ false) (rlock_core l block w) = elim (Bool-cases block) [
            | inl waits ↦ rw (held, waits) (taskswitch-IfDone _ _ _)
            | inr tries ↦ rw (held, tries) refl
          ] in
          let no' : true ≡ false = subst (IfDone (λ b _. b ≡ false)) e out in absurd (cc)
    ]

wlock_core-taken :
    (l : Ptr) (block : Bool) (w v : World) (s : View)
    → IsRwlock w l s
    → wlock_core l block w ≡ done true v
    → (s.writer ≡ 0) × (s.readers ≡ 0) × IsRwlock v l (record s { writer = w.taskrunning })
unfolding wlock_core canwlock taskstate
wlock_core-taken l block w v s q e =
    elim (Bool-cases (((w.rwlocks l).writer == 0) && ((w.rwlocks l).readers == 0))) [
      | inl free ↦
          let same : wlock_core l block w ≡ canwlock l w = rw free refl in
          let r =
            subst
              (Returns (λ got u.
                ((s.writer ≡ 0)
                  × (s.readers ≡ 0)
                  × (got ≡ true)
                  × IsRwlock u l (record s { writer = w.taskrunning }))
                ⊎ (((s.writer ≢ 0) ⊎ (s.readers ≢ 0)) × (got ≡ false) × (u ≡ w))))
              (sym same ∙ e) (canwlock-cases l w s q) in
          elim r [ inl (a, b, yes', d) ↦ (a, b, d) | inr (h, no', u) ↦ absurd (cc) ]
      | inr held ↦
          let out : IfDone (λ b _. b ≡ false) (wlock_core l block w) = elim (Bool-cases block) [
            | inl waits ↦ rw (held, waits) (taskswitch-IfDone _ _ _)
            | inr tries ↦ rw (held, tries) refl
          ] in
          let no' : true ≡ false = subst (IfDone (λ b _. b ≡ false)) e out in absurd (cc)
    ]

-- `rlock` that gives up the processor has found a writer, or one that waits.
rlock_core-held :
    (l : Ptr) (w v : World) (k : World → Flow Bool) (s : View)
    → IsRwlock w l s
    → rlock_core l true w ≡ switch v k
    → (s.writer ≢ 0) ⊎ (s.wwaiting ≢ [])
unfolding rlock_core
rlock_core-held l w v k s q e =
    elim (Bool-cases (((w.rwlocks l).writer == 0) && ((w.rwlocks l).wwaiting.head == 0))) [
      | inl free ↦
          let back : Returns (λ _ _. Unit {0}) (rlock_core l true w) = rw free tt in
          absurd (subst (Returns (λ _ _. Unit {0})) e back)
      | inr held ↦ elim (head-empty w.task (w.rwlocks l).wwaiting s.wwaiting q.wwaiting) [
        | inl (head, none) ↦ inl (ground (arith, q.writer))
        | inr (head, ne) ↦ inr ne
      ]
    ]

wlock_core-held :
    (l : Ptr) (w v : World) (k : World → Flow Bool) (s : View)
    → IsRwlock w l s
    → wlock_core l true w ≡ switch v k
    → (s.writer ≢ 0) ⊎ (s.readers ≢ 0)
unfolding wlock_core
wlock_core-held l w v k s q e =
    elim (Bool-cases (((w.rwlocks l).writer == 0) && ((w.rwlocks l).readers == 0))) [
      | inl free ↦
          let back : Returns (λ _ _. Unit {0}) (wlock_core l true w) = rw free tt in
          absurd (subst (Returns (λ _ _. Unit {0})) e back)
      | inr held ↦ elim (ℕ_discrete s.writer 0) [
        | yes free ↦ inr (ground (arith, q.writer, q.readers))
        | no ne ↦ inl ne
      ]
    ]

Use-Stands : {l : Ptr} {w v : World} → Use l w v → Stands l w → Stands l v
Use-Stands {l} (takes_read w v block few e) (s, q, moves) =
    let (free, none, q') = rlock_core-taken l block w v s q e in
    (
      record s { readers = suc s.readers },
      subst (λ (n : ℕ). IsRwlock v l (record s { readers = n })) (ground (arith, q.readers)) q',
      later moves (reads s free none),
    )
Use-Stands {l} (takes_write w v block ne e) (s, q, moves) =
    let (free, none, q') = wlock_core-taken l block w v s q e in
    (record s { writer = w.taskrunning }, q', later moves (writes s w.taskrunning ne free none))
Use-Stands {l} (parks_read w v k awake e) (s, q, moves) =
    let held = rlock_core-held l w v k s q e in
    let (r, wr, rd) = awake.apart s q in
    let q' =
      subst
        (Switches (λ u f.
          IsRwlock u l (record s { rwaiting = s.rwaiting ++ w.taskrunning ∷ [] })
          × (f ≡ done true)))
        e (rlock_core-queued l w s q held awake.running r wr rd awake.stack) in
    (
      record s { rwaiting = s.rwaiting ++ w.taskrunning ∷ [] },
      q'.0,
      later moves (waits_to_read s w.taskrunning awake.running held),
    )
Use-Stands {l} (parks_write w v k awake e) (s, q, moves) =
    let held = wlock_core-held l w v k s q e in
    let (r, wr, rd) = awake.apart s q in
    let q' =
      subst
        (Switches (λ u f.
          IsRwlock u l (record s { wwaiting = s.wwaiting ++ w.taskrunning ∷ [] })
          × (f ≡ done true)))
        e (wlock_core-queued l w s q held awake.running r wr rd awake.stack) in
    (
      record s { wwaiting = s.wwaiting ++ w.taskrunning ∷ [] },
      q'.0,
      later moves (waits_to_write s w.taskrunning awake.running held),
    )
Use-Stands {l} (leaves_read w v more few e) (s, q, moves) =
    let n : s.readers ≡ suc (s.readers - 1) = ground (arith, q.readers) in
    (
      _,
      subst (Returns (λ _ u. IsRwlock u l (settled (record s { readers = s.readers - 1 })))) e
          (runlock-settled l w s (s.readers - 1) q n (ground (arith, q.readers))),
      later moves (ends_reading s (s.readers - 1) n),
    )
Use-Stands {l} (leaves_write w v fuel held enough e) (s, q, moves) =
    let x = Moves-Exclusive moves in
    let held' : s.writer ≢ 0 = ground (arith, q.writer) in
    (
      _,
      subst
          (Returns (λ _ u. IsRwlock u l (
            settled (record s {
              writer = 0;
              rwaiting = [];
              readers = length s.rwaiting;
              ready = s.ready ++ s.rwaiting;
            }))))
          e (wunlock-settled fuel l w s q held' (x.alone held') (enough s q).0 (enough s q).1),
      later moves (ends_writing s held'),
    )
Use-Stands {l} (others w v same) (s, q, moves) =
    let (rs, q') = same s q in (record s { ready = rs }, q', later moves (Move.others s rs))

Uses-Stands : {l : Ptr} {w : World} → Uses l w → Stands l w
Uses-Stands (begins w rs q) = (_, q, start rs)
Uses-Stands (goes_on u s) = Use-Stands s (Uses-Stands u)

-- However the tasks of a process use an RWLock that is free at first: there are no readers while
-- a task writes, a task waits to write only while another writes or there are readers, and to
-- read only while another writes or waits to write. runlock is called only when there are
-- readers and wunlock only when a task writes, with fuel for each task that waits to read; there
-- are less than 2^31 readers, and less than 2^31 tasks wait to read; a task that has to wait has
-- stack left and is in none of the lists; and other code leaves the lock as it is.
pub Uses-Exclusive : {l : Ptr} {w : World} → Uses l w → (s : View) × IsRwlock w l s × Exclusive s
Uses-Exclusive u = let (s, q, moves) = Uses-Stands u in (s, q, Moves-Exclusive moves)

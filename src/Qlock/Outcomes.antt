-- ===== src/Qlock/Outcomes.antt =====
-- What the functions of qlock.c and `schedule` leave of a `QLock`, by how they end.
use libtask_annotation.Base.{
  ◌≡◌, ◌⊎◌, refl, Ptr, Bool, false, List, [], ◌∷◌, arith, ◌==◌, Bool-cases, inl, inr, ℕ_discrete,
}
use libtask_annotation.World.{World}
use libtask_annotation.Flow.{Flow, done, switch, exits, aborts, out_of_fuel, Cmd, ◌>>◌}
use libtask_annotation.Tasklist.{deltask}
use libtask_annotation.Tasklist.Seg.{SameLinks}
use libtask_annotation.Tasklist.Frame.{deltask-SameLinks}
use libtask_annotation.Tasklist.Links.{IsQueue-frame}
use libtask_annotation.Task.{has_stack, taskswitch, taskstate, needstack, contextswitch}
use libtask_annotation.Sched.{Pick, stop, run, schedule, switch_to}
use libtask_annotation.Sched.Fifo.{
  switch_to-IsReady, schedule-head, schedule-stalled, flag-SameLinks,
}
use libtask_annotation.Qlock.{qlock_core}
use libtask_annotation.Qlock.Spec.{Lock, taken}
use libtask_annotation.Qlock.Refine.{IsLock, set_owner-IsLock}

pub IsLock-running :
    (w : World) (l : Ptr) (s : Lock) (r : Ptr)
    → IsLock w l s
    → IsLock (record w { taskrunning = r }) l s
IsLock-running w l s r q = record {
  owner = q.owner;
  waiting = q.waiting;
  ready = q.ready;
  apart = q.apart;
}

-- What holds of the code when it returns.
abbrev pub IfDone : (Bool → World → Type 0) → Flow Bool → Type 0
IfDone P (done a w) = P a w
IfDone P (switch w k) = Unit
IfDone P (exits n w) = Unit
IfDone P (aborts w) = Unit
IfDone P (out_of_fuel w) = Unit

pub taskswitch-IfDone :
    (P : Bool → World → Type 0) (w : World) (f : Cmd Bool) → IfDone P ((taskswitch >> f) w)
unfolding taskswitch needstack contextswitch
taskswitch-IfDone P w f = elim (Bool-cases (has_stack 0 w)) [
  | inl room ↦ rw room tt
  | inr full ↦ rw full tt
]

pub qlock_core-IfDone :
    (l : Ptr) (block : Bool) (w : World) (s : Lock)
    → IsLock w l s
    → IfDone
        (λ _ v.
          (v.taskrunning ≡ w.taskrunning)
          × (((s.owner ≡ 0) × IsLock v l (taken w.taskrunning s)) ⊎ (v ≡ w)))
        (qlock_core l block w)
unfolding qlock_core taskstate
qlock_core-IfDone l block w s q = elim (Bool-cases ((w.qlocks l).owner == 0)) [
  | inl free ↦ rw free (refl, inl (ground (arith, q.owner), set_owner-IsLock l w s w.taskrunning q))
  | inr held ↦ elim (Bool-cases block) [
    | inl waits ↦ rw (held, waits) (taskswitch-IfDone _ _ _)
    | inr tries ↦ rw (held, tries) (refl, inr refl)
  ]
]

abbrev pub Picks : (Ptr → World → Type 0) → Pick → Type 0
Picks P (stop n) = Unit
Picks P (run t w) = P t w

switch_to-IsLock :
    (l t : Ptr) (w : World) (s : Lock) (ts : List Ptr)
    → IsLock w l (record s { ready = t ∷ ts })
    → IsLock (switch_to t w) l (record s { ready = ts })
unfolding switch_to
switch_to-IsLock l t w s ts q =
    let g = (deltask w.task w.taskrunqueue t).0 in
    let same : SameLinks s.waiting w.task g =
      deltask-SameLinks w.task w.taskrunqueue t ts s.waiting q.ready
        (λ a i. ground (arith, q.apart a)) in
    record {
      owner = q.owner;
      waiting =
          IsQueue-frame g _ (w.qlocks l).waiting s.waiting (flag-SameLinks g t false s.waiting)
            (IsQueue-frame w.task g (w.qlocks l).waiting s.waiting same q.waiting);
      ready = switch_to-IsReady t w ts q.ready;
      apart = λ a i. ground (arith, q.apart a);
    }

pub schedule-IsLock :
    (l : Ptr) (w : World) (s : Lock) (ts : List Ptr)
    → IsLock w l (record s { ready = ts })
    → Picks
        (λ t v.
          (us : List Ptr) × (ts ≡ t ∷ us)
          × IsLock v l (record s { ready = us })
          × (v.taskrunning ≡ t))
        (schedule w)
schedule-IsLock l w s [] q = elim (ℕ_discrete w.taskcount 0) [
  | yes over ↦ unfold schedule in rw over tt
  | no more ↦ rw (schedule-stalled w more q.ready) tt
]
schedule-IsLock l w s (t ∷ ts) q = elim (ℕ_discrete w.taskcount 0) [
  | yes over ↦ unfold schedule in rw over tt
  | no more ↦
      let (e, r, now) = schedule-head w t ts more q.ready in
      rw e (ts, refl, switch_to-IsLock l t w s ts q, now)
]

-- ===== src/Qlock/Refine.antt =====
-- The functions of qlock.c on a `QLock` do what its specification says.
use libtask_annotation.Base.{
  ◌≡◌, ◌≢◌, refl, ap, ◌∙◌, has-append, ==_refl, Ptr, Bool, true, false, String, List, [], ◌∷◌, ◌++◌,
  arith, ◌∉◌, Disjoint, ◌==◌, sym, subst, if◌then◌else◌, ◌⊎◌, inl, inr, Bool-cases,
}
use libtask_annotation.World.{World, QLock}
use libtask_annotation.Flow.{Flow, pure, modify, ◌>>◌, done, aborts, Returns, Switches, Aborts}
use libtask_annotation.Tasklist.Links.{IsQueue, IsQueue-frame, addtask-snoc, head-nil, head-cons}
use libtask_annotation.Tasklist.Seg.{SameLinks}
use libtask_annotation.Tasklist.Delete.{deltask-erase}
use libtask_annotation.Tasklist.Frame.{addtask-SameLinks, deltask-SameLinks}
use libtask_annotation.Sched.Fifo.{IsReady, make_ready-IsReady, make_ready-SameLinks}
use libtask_annotation.Task.{has_stack, make_ready, with_state, taskready}
use libtask_annotation.Task.Switch.{park_lem, with_state-SameLinks}
use libtask_annotation.Qlock.{qlock_core, canqlock, qunlock, wait_qlock, unwait_qlock, set_qlock}
use libtask_annotation.Qlock.Spec.{Lock, taken, queued, hand_over, released}

-- The lock at `l` stands for `s`; no task is both waiting for it and ready.
pub record IsLock (w : World) (l : Ptr) (s : Lock) : Type 0 where
  pub owner : (w.qlocks l).owner ≡ s.owner
  pub waiting : IsQueue w.task (w.qlocks l).waiting s.waiting
  pub ready : IsReady w s.ready
  pub apart : Disjoint s.waiting s.ready

-- A change of the state that keeps the links, the run queue and the lock.
pub IsLock-links :
    (w v : World) (l : Ptr) (s : Lock)
    → ((xs : List Ptr) → SameLinks xs w.task v.task)
    → v.taskrunqueue ≡ w.taskrunqueue
    → v.qlocks l ≡ w.qlocks l
    → IsLock w l s
    → IsLock v l s
IsLock-links w v l s same e f q = record {
  owner = ap (λ (k : QLock). k.owner) f ∙ q.owner;
  waiting =
      rw f (IsQueue-frame w.task v.task (w.qlocks l).waiting s.waiting (same s.waiting) q.waiting);
  ready = rw e (IsQueue-frame w.task v.task w.taskrunqueue s.ready (same s.ready) q.ready);
  apart = q.apart;
}

pub with_state-IsLock :
    (text : String) (w : World) (l : Ptr) (s : Lock) → IsLock w l s → IsLock (with_state text w) l s
with_state-IsLock text w l s q =
    IsLock-links w (with_state text w) l s (with_state-SameLinks text w) (unfold with_state in refl)
      (unfold with_state in refl) q

wait_qlock-IsLock :
    (l : Ptr) (w : World) (s : Lock)
    → IsLock w l s
    → w.taskrunning ≢ 0
    → w.taskrunning ∉ s.waiting
    → w.taskrunning ∉ s.ready
    → IsLock (wait_qlock l w) l (queued w.taskrunning s)
unfolding wait_qlock
wait_qlock-IsLock l w s q ne out out' = record {
  owner = ground (arith, q.owner);
  waiting =
      rw (==_refl l)
        (addtask-snoc w.task (w.qlocks l).waiting w.taskrunning s.waiting ne out q.waiting);
  ready =
      IsQueue-frame w.task _ w.taskrunqueue s.ready
        (addtask-SameLinks w.task (w.qlocks l).waiting w.taskrunning s.waiting s.ready q.waiting
          out' q.apart)
        q.ready;
  apart = λ a i. ground (arith, has-append a s.waiting (w.taskrunning ∷ []), q.apart a);
}

pub unwait_qlock-IsLock :
    (l t : Ptr) (w : World) (s : Lock) (ws : List Ptr)
    → IsLock w l (record s { waiting = t ∷ ws })
    → IsLock (unwait_qlock l t w) l (record s { waiting = ws })
unfolding unwait_qlock
unwait_qlock-IsLock l t w s ws q = record {
  owner = ground (arith, q.owner);
  waiting = rw (==_refl l) (deltask-erase w.task (w.qlocks l).waiting t [] ws q.waiting);
  ready =
      IsQueue-frame w.task _ w.taskrunqueue s.ready
        (deltask-SameLinks w.task (w.qlocks l).waiting t ws s.ready q.waiting q.apart) q.ready;
  apart = λ a i. ground (arith, q.apart a);
}

pub make_ready-IsLock :
    (l t : Ptr) (w : World) (s : Lock)
    → IsLock w l s
    → t ≢ 0
    → t ∉ s.waiting
    → t ∉ s.ready
    → IsLock (make_ready t w) l (record s { ready = s.ready ++ t ∷ [] })
make_ready-IsLock l t w s q ne out out' = record {
  owner = unfold make_ready in q.owner;
  waiting =
      unfold make_ready in
      IsQueue-frame w.task _ (w.qlocks l).waiting s.waiting
        (make_ready-SameLinks t w s.ready s.waiting q.ready out (λ a i. ground (arith, q.apart a)))
        q.waiting;
  ready = make_ready-IsReady t w s.ready ne out' q.ready;
  apart = λ a i. ground (arith, has-append a s.ready (t ∷ []), q.apart a);
}

pub set_owner-IsLock :
    (l : Ptr) (w : World) (s : Lock) (t : Ptr)
    → IsLock w l s
    → IsLock (set_qlock l (record (w.qlocks l) { owner = t }) w) l (taken t s)
set_owner-IsLock l w s t v = record {
  owner = ground arith;
  waiting = rw (==_refl l) v.waiting;
  ready = v.ready;
  apart = v.apart;
}

-- `qlock` and `canqlock` of a free lock take it, without a switch.
pub qlock_core-free :
    (l : Ptr) (block : Bool) (w : World) (s : Lock)
    → IsLock w l s
    → s.owner ≡ 0
    → Returns (λ b v. (b ≡ true) × IsLock v l (taken w.taskrunning s)) (qlock_core l block w)
unfolding qlock_core
qlock_core-free l block w s v free =
    let e : ((w.qlocks l).owner == 0) ≡ true = ground (arith, v.owner) in
    rw e (refl, set_owner-IsLock l w s w.taskrunning v)

-- qlock of a held lock, by a running task that is neither in its queue nor ready and has stack
-- left, puts the task last in the queue and gives up the processor; when the task goes on it
-- returns if it is the owner, and aborts if it is not.
pub qlock_core-queued :
    (l : Ptr) (w : World) (s : Lock)
    → IsLock w l s
    → s.owner ≢ 0
    → w.taskrunning ≢ 0
    → w.taskrunning ∉ s.waiting
    → w.taskrunning ∉ s.ready
    → has_stack 0 w ≡ true
    → Switches
        (λ v k.
          IsLock v l (queued w.taskrunning s)
          × ((u : World) → (u.qlocks l).owner ≡ u.taskrunning → k u ≡ done true u)
          × ((u : World) → (u.qlocks l).owner ≢ u.taskrunning → k u ≡ aborts u))
        (qlock_core l true w)
unfolding qlock_core
qlock_core-queued l w s v held ne out out' stack =
    let e : ((w.qlocks l).owner == 0) ≡ false = ground (arith, v.owner) in
    let v' = wait_qlock l w in
    rw
      (
        e,
        park_lem "qlock" w v' (w.qlocks l).waiting _ (unfold wait_qlock in refl)
            (unfold wait_qlock in refl) (unfold wait_qlock in refl) stack,
      )
      (
        with_state-IsLock "qlock" v' l _ (wait_qlock-IsLock l w s v ne out out'),
        λ u own. ground arith,
        λ u own. ground arith,
      )

-- canqlock never waits: it takes a free lock, and changes nothing if the lock is held.
pub canqlock-cases :
    (l : Ptr) (w : World) (s : Lock)
    → IsLock w l s
    → Returns
        (λ got v.
          ((s.owner ≡ 0) × (got ≡ true) × IsLock v l (taken w.taskrunning s))
          ⊎ ((s.owner ≢ 0) × (got ≡ false) × (v ≡ w)))
        (canqlock l w)
unfolding canqlock qlock_core
canqlock-cases l w s v = elim (Bool-cases ((w.qlocks l).owner == 0)) [
  | inl free ↦ rw free (inl (ground (arith, v.owner), refl, set_owner-IsLock l w s w.taskrunning v))
  | inr held ↦ rw held (inr (ground (arith, v.owner), refl, refl))
]

-- What `qunlock` does once it has seen that `ready` is the first task that waits.
abbrev pub grant : Ptr → World → Ptr → Flow (Unit {0})
grant l w ready =
    (if ready == 0 then pure tt else (do modify (unwait_qlock l ready); taskready ready))
      (set_qlock l (record (w.qlocks l) { owner = ready }) w)

qunlock-queue :
    (l : Ptr) (w : World) (s : Lock) (ws : List Ptr)
    → IsLock w l (record s { waiting = ws })
    → s.owner ≢ 0
    → Returns (λ _ v. IsLock v l (hand_over ws (record s { waiting = ws }))) (qunlock l w)
unfolding qunlock taskready
qunlock-queue l w s [] v held =
    let e : ((w.qlocks l).owner == 0) ≡ false = ground (arith, v.owner) in
    rw e (
      subst (λ h. Returns (λ _ u. IsLock u l (record s { owner = 0; waiting = [] })) (grant l w h))
        (sym (head-nil w.task (w.qlocks l).waiting v.waiting)) (set_owner-IsLock l w _ 0 v))
qunlock-queue l w s (t ∷ ws) v held =
    let e : ((w.qlocks l).owner == 0) ≡ false = ground (arith, v.owner) in
    let head = head-cons w.task (w.qlocks l).waiting t ws v.waiting in
    let e' : (t == 0) ≡ false = ground (arith, head.1) in
    let w' = set_qlock l (record (w.qlocks l) { owner = t }) w in
    let v' = unwait_qlock-IsLock l t w' (record s { owner = t }) ws (set_owner-IsLock l w _ t v) in
    rw e (
      subst
        (λ h.
          Returns
            (λ _ u. IsLock u l (record s { owner = t; waiting = ws; ready = s.ready ++ t ∷ [] }))
            (grant l w h))
        (sym head.0)
        (rw e' (
          make_ready-IsLock l t (unwait_qlock l t w') (record s { owner = t; waiting = ws }) v'
            head.1 v.waiting.chain.3 (v.apart t (ground (arith, ==_refl t))))))

-- qunlock of a held lock gives it to the task that has waited longest and makes this task ready,
-- last in the run queue; with no task waiting the lock is free.
pub qunlock-released :
    (l : Ptr) (w : World) (s : Lock)
    → IsLock w l s
    → s.owner ≢ 0
    → Returns (λ _ v. IsLock v l (released s)) (qunlock l w)
qunlock-released l w s v held = qunlock-queue l w s s.waiting v held

-- To unlock a free lock ends the process.
pub qunlock-Aborts : (l : Ptr) (w : World) → (w.qlocks l).owner ≡ 0 → Aborts (qunlock l w)
unfolding qunlock
qunlock-Aborts l w free = let e : ((w.qlocks l).owner == 0) ≡ true = ground arith in rw e tt

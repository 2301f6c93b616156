-- ===== src/Qlock/Frame.antt =====
-- What `qunlock` leaves as it is.
use libtask_annotation.Base.{
  ◌≡◌, ◌≢◌, refl, ap, sym, subst, ◌∙◌, Ptr, true, false, List, [], ◌∷◌, arith, ◌∉◌, Disjoint, ◌==◌,
  ==_refl, update,
}
use libtask_annotation.World.{Task, World}
use libtask_annotation.Flow.{Returns}
use libtask_annotation.Tasklist.Links.{head-nil, head-cons}
use libtask_annotation.Tasklist.Seg.{SameLinks}
use libtask_annotation.Tasklist.Frame.{deltask-SameLinks, deltask-SameFields, addtask-SameFields}
use libtask_annotation.Sched.Fifo.{make_ready-SameLinks}
use libtask_annotation.Task.{make_ready, taskready}
use libtask_annotation.Qlock.{qunlock, unwait_qlock, set_qlock}
use libtask_annotation.Qlock.Spec.{Lock}
use libtask_annotation.Qlock.Refine.{IsLock, unwait_qlock-IsLock, set_owner-IsLock, grant}

-- The condition variables, the running task, the stacks, and the links of the tasks `ys`.
pub record Kept (w v : World) (ys : List Ptr) : Type 0 where
  pub rendezs : v.rendezs ≡ w.rendezs
  pub running : v.taskrunning ≡ w.taskrunning
  pub sp : v.sp ≡ w.sp
  pub stk : (a : Ptr) → (v.task a).stk ≡ (w.task a).stk
  pub links : SameLinks ys w.task v.task

unwait_qlock-Kept :
    (l t : Ptr) (w : World) (s : Lock) (ws ys : List Ptr)
    → IsLock w l (record s { waiting = t ∷ ws })
    → Disjoint (t ∷ ws) ys
    → Kept w (unwait_qlock l t w) ys
unfolding unwait_qlock
unwait_qlock-Kept l t w s ws ys q apart = record {
  rendezs = refl;
  running = refl;
  sp = refl;
  stk = λ a. ap (λ (x : Task). x.stk) (deltask-SameFields w.task (w.qlocks l).waiting t a);
  links = deltask-SameLinks w.task (w.qlocks l).waiting t ws ys q.waiting apart;
}

make_ready-Kept :
    (l t : Ptr) (w : World) (s : Lock) (ys : List Ptr)
    → IsLock w l s
    → t ∉ ys
    → Disjoint s.ready ys
    → Kept w (make_ready t w) ys
make_ready-Kept l t w s ys q out apart = record {
  rendezs = unfold make_ready in refl;
  running = unfold make_ready in refl;
  sp = unfold make_ready in refl;
  stk = λ a.
      let m = update w.task t (record (w.task t) { ready = true }) in
      let flag : (m a).stk ≡ (w.task a).stk = ground arith in
      unfold make_ready in
      (ap (λ (x : Task). x.stk) (addtask-SameFields m w.taskrunqueue t a) ∙ flag);
  links = make_ready-SameLinks t w s.ready ys q.ready out apart;
}

Kept-trans : {w v u : World} {ys : List Ptr} → Kept w v ys → Kept v u ys → Kept w u ys
Kept-trans p q = record {
  rendezs = q.rendezs ∙ p.rendezs;
  running = q.running ∙ p.running;
  sp = q.sp ∙ p.sp;
  stk = λ a. q.stk a ∙ p.stk a;
  links = λ a i. ((q.links a i).0 ∙ (p.links a i).0, (q.links a i).1 ∙ (p.links a i).1);
}

set_owner-Kept :
    (l t : Ptr) (w : World) (ys : List Ptr)
    → Kept w (set_qlock l (record (w.qlocks l) { owner = t }) w) ys
set_owner-Kept l t w ys = record {
  rendezs = refl;
  running = refl;
  sp = refl;
  stk = λ a. refl;
  links = λ a i. (refl, refl);
}

qunlock-queue-Kept :
    (l : Ptr) (w : World) (s : Lock) (ws ys : List Ptr)
    → IsLock w l (record s { waiting = ws })
    → s.owner ≢ 0
    → Disjoint ws ys
    → Disjoint s.ready ys
    → Returns (λ _ v. Kept w v ys) (qunlock l w)
unfolding qunlock taskready
qunlock-queue-Kept l w s [] ys v held out out' =
    let e : ((w.qlocks l).owner == 0) ≡ false = ground (arith, v.owner) in
    rw e (
      subst (λ h. Returns (λ _ u. Kept w u ys) (grant l w h))
        (sym (head-nil w.task (w.qlocks l).waiting v.waiting)) (set_owner-Kept l 0 w ys))
qunlock-queue-Kept l w s (t ∷ ws) ys v held out out' =
    let e : ((w.qlocks l).owner == 0) ≡ false = ground (arith, v.owner) in
    let head = head-cons w.task (w.qlocks l).waiting t ws v.waiting in
    let e' : (t == 0) ≡ false = ground (arith, head.1) in
    let w' = set_qlock l (record (w.qlocks l) { owner = t }) w in
    let s' = record s { owner = t } in
    let v1 = set_owner-IsLock l w _ t v in
    let v2 = unwait_qlock-IsLock l t w' s' ws v1 in
    rw e (
      subst (λ h. Returns (λ _ u. Kept w u ys) (grant l w h)) (sym head.0)
        (rw e' (
          Kept-trans (set_owner-Kept l t w ys) (
            Kept-trans (unwait_qlock-Kept l t w' s' ws ys v1 out) (
              make_ready-Kept l t (unwait_qlock l t w') (record s' { waiting = ws }) ys v2
                (out t (ground (arith, ==_refl t))) out')))))

pub qunlock-Kept :
    (l : Ptr) (w : World) (s : Lock) (ys : List Ptr)
    → IsLock w l s
    → s.owner ≢ 0
    → Disjoint s.waiting ys
    → Disjoint s.ready ys
    → Returns (λ _ v. Kept w v ys) (qunlock l w)
qunlock-Kept l w s ys v held out out' = qunlock-queue-Kept l w s s.waiting ys v held out out'

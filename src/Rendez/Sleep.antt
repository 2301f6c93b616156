-- ===== src/Rendez/Sleep.antt =====
-- What `tasksleep` does to the lock of the condition variable, and to those that sleep on it.
use libtask_annotation.Base.{
  String, ◌≡◌, ◌≢◌, refl, ap, sym, subst, ◌∙◌, Ptr, true, false, List, [], ◌∷◌, ◌++◌, arith, ◌∉◌,
  Disjoint, has-append, ◌==◌, ==_refl,
}
use libtask_annotation.World.{Task, Rendez, World}
use libtask_annotation.Flow.{Switches, Switches-bind, Returns-both}
use libtask_annotation.Tasklist.Links.{IsQueue-frame, addtask-snoc}
use libtask_annotation.Tasklist.Frame.{addtask-SameLinks, addtask-SameFields}
use libtask_annotation.Task.{self, has_stack, with_state, taskstate}
use libtask_annotation.Task.Switch.{
  taskswitch_lem, has_stack-same, with_state-stk, with_state-SameLinks,
}
use libtask_annotation.Qlock.{qlock, qunlock}
use libtask_annotation.Qlock.Spec.{Lock, hand_over, released}
use libtask_annotation.Qlock.Refine.{IsLock, with_state-IsLock, qunlock-released}
use libtask_annotation.Qlock.Frame.{Kept, qunlock-Kept}
use libtask_annotation.Rendez.{wait_rendez, tasksleep}
use libtask_annotation.Rendez.Wakeup.{Sleeps}

-- The lock of `r` stands for `s`, the tasks `ws` sleep on `r`, and no task is in two lists.
pub record Guards (w : World) (r : Ptr) (s : Lock) (ws : List Ptr) : Type 0 where
  pub lock : IsLock w (w.rendezs r).l s
  pub sleepers : Sleeps w r ws s.ready
  pub apart : Disjoint s.waiting ws

-- A task that is in none of the lists.
abbrev pub Outside : Ptr → Lock → List Ptr → Type 0
Outside t s ws = (t ≢ 0) × (t ∉ ws) × (t ∉ s.waiting) × (t ∉ s.ready)

wait_rendez-lock : (w : World) (r : Ptr) → ((wait_rendez r w).rendezs r).l ≡ (w.rendezs r).l
unfolding wait_rendez
wait_rendez-lock w r = ground (arith, ==_refl r)

wait_rendez-Guards :
    (w : World) (r : Ptr) (s : Lock) (ws : List Ptr)
    → Guards w r s ws
    → Outside w.taskrunning s ws
    → Guards (wait_rendez r w) r s (ws ++ w.taskrunning ∷ [])
unfolding wait_rendez
wait_rendez-Guards w r s ws g (ne, out, out', out'') =
    let t = w.taskrunning in
    let same = addtask-SameLinks w.task (w.rendezs r).waiting t ws in
    let asleep = g.sleepers.waiting in
    record {
      lock = rw (==_refl r) (record {
        owner = g.lock.owner;
        waiting =
            IsQueue-frame w.task _ (w.qlocks (w.rendezs r).l).waiting s.waiting
              (same s.waiting asleep out' (λ a i. ground (arith, g.apart a))) g.lock.waiting;
        ready =
            IsQueue-frame w.task _ w.taskrunqueue s.ready
              (same s.ready asleep out'' g.sleepers.apart) g.lock.ready;
        apart = g.lock.apart;
      });
      sleepers = record {
        waiting = rw (==_refl r) (addtask-snoc w.task (w.rendezs r).waiting t ws ne out asleep);
        ready =
            IsQueue-frame w.task _ w.taskrunqueue s.ready
              (same s.ready asleep out'' g.sleepers.apart) g.lock.ready;
        apart = λ a i. ground (arith, g.sleepers.apart a, has-append a ws (t ∷ []));
      };
      apart = λ a i. ground (arith, g.apart a, has-append a ws (t ∷ []));
    }

released-apart :
    (s : Lock) (qs ws : List Ptr)
    → Disjoint qs ws
    → Disjoint ws s.ready
    → Disjoint ws (hand_over qs s).ready
released-apart s [] ws out out' = out'
released-apart s (q ∷ qs) ws out out' =
    λ a i. ground (arith, out a, out' a, has-append a s.ready (q ∷ []))

released-waiting :
    (s : Lock) (qs ws : List Ptr)
    → Disjoint qs ws
    → Disjoint s.waiting ws
    → Disjoint (hand_over qs s).waiting ws
released-waiting s [] ws out out' = out'
released-waiting s (q ∷ qs) ws out out' = λ a i. ground (arith, out a)

-- The condition variable, once the lock is given up.
Kept-Guards :
    (w v : World) (r : Ptr) (s : Lock) (ws : List Ptr)
    → Guards w r s ws
    → Kept w v ws
    → IsLock v (w.rendezs r).l (released s)
    → Guards v r (released s) ws
Kept-Guards w v r s ws g k q = record {
  lock = subst (λ (f : Ptr → Rendez). IsLock v (f r).l (released s)) (sym k.rendezs) q;
  sleepers = record {
    waiting =
        rw k.rendezs
          (IsQueue-frame w.task v.task (w.rendezs r).waiting ws k.links g.sleepers.waiting);
    ready = q.ready;
    apart = released-apart s s.waiting ws g.apart g.sleepers.apart;
  };
  apart = released-waiting s s.waiting ws g.apart g.apart;
}

with_state-Guards :
    (text : String) (w : World) (r : Ptr) (s : Lock) (ws : List Ptr)
    → Guards w r s ws
    → Guards (with_state text w) r s ws
with_state-Guards text w r s ws g =
    let q = with_state-IsLock text w (w.rendezs r).l s g.lock in
    record {
      lock = unfold with_state in q;
      sleepers = record {
        waiting =
            unfold with_state in
            IsQueue-frame w.task _ (w.rendezs r).waiting ws (with_state-SameLinks text w ws)
              g.sleepers.waiting;
        ready = q.ready;
        apart = g.sleepers.apart;
      };
      apart = g.apart;
    }

-- The stack of a task that only joins a list.
wait_rendez-stack :
    (w v : World) (r : Ptr) (ws : List Ptr) (text : String)
    → Kept (wait_rendez r w) v ws
    → has_stack 0 w ≡ true
    → has_stack 0 (with_state text v) ≡ true
unfolding with_state
wait_rendez-stack w v r ws text k room =
    let run : v.taskrunning ≡ w.taskrunning = k.running ∙ (unfold wait_rendez in refl) in
    let joined : ((wait_rendez r w).task w.taskrunning).stk ≡ (w.task w.taskrunning).stk =
      unfold wait_rendez in
      ap (λ (x : Task). x.stk)
        (addtask-SameFields w.task (w.rendezs r).waiting w.taskrunning w.taskrunning) in
    let stk : (self (with_state text v)).stk ≡ (self w).stk =
      with_state-stk text v v.taskrunning
      ∙ ap (λ (p : Ptr). (v.task p).stk) run
      ∙ k.stk w.taskrunning
      ∙ joined in
    let sp : (with_state text v).sp ≡ w.sp =
      (unfold with_state in refl) ∙ k.sp ∙ (unfold wait_rendez in refl) in
    has_stack-same w (with_state text v) sp stk ∙ room

-- tasksleep on a condition variable whose lock is held puts the running task behind those that
-- sleep on it, unlocks the lock, which goes to the task that has waited longest, and gives up
-- the processor; when the task goes on it asks for the lock. The running task is in none of the
-- lists and has stack left, and no task is in two of them, before and after.
pub tasksleep-Guards :
    (r : Ptr) (w : World) (s : Lock) (ws : List Ptr)
    → (w.rendezs r).l ≢ 0
    → s.owner ≢ 0
    → Guards w r s ws
    → Outside w.taskrunning s ws
    → has_stack 0 w ≡ true
    → Switches
        (λ v k.
          Guards v r (released s) (ws ++ w.taskrunning ∷ [])
          × ((u : World) → (u.rendezs r).l ≢ 0 → k u ≡ qlock (u.rendezs r).l u))
        (tasksleep r w)
unfolding tasksleep taskstate
tasksleep-Guards r w s ws some_lock held g out room =
    let w1 = wait_rendez r w in
    let ws1 = ws ++ w.taskrunning ∷ [] in
    let l = (w1.rendezs r).l in
    let g1 = wait_rendez-Guards w r s ws g out in
    let ne : (l == 0) ≡ false = ground (arith, wait_rendez-lock w r) in
    rw ne (
      Switches-bind _ _ (qunlock l w1) _
        (Returns-both _ _ (qunlock l w1) (qunlock-released l w1 s g1.lock held) (
          qunlock-Kept l w1 s ws1 g1.lock held g1.apart
            (λ a i. ground (arith, g1.sleepers.apart a))))
        (λ a v p.
          let u = with_state "sleep" v in
          rw (taskswitch_lem u (wait_rendez-stack w v r ws1 "sleep" p.1 room)) (
            with_state-Guards "sleep" v r (released s) ws1 (Kept-Guards w1 v r s ws1 g1 p.1 p.0),
            λ x has. ground arith,
          )))

-- ===== src/Rendez/Wakeup.antt =====
-- What `taskwakeup` and `taskwakeupall` do to the tasks that sleep, and what they return.
use libtask_annotation.Base.{
  ℕ, zero, suc, ◌+◌, ◌<◌, ◌≡◌, refl, Ptr, true, false, List, [], ◌∷◌, ◌++◌, arith, append_assoc,
  append-nil, Disjoint, has-append, ◌&&◌, not, ◌==◌, ==_refl, length,
}
use libtask_annotation.World.{World}
use libtask_annotation.Flow.{Cmd, Returns, Returns-mono}
use libtask_annotation.Tasklist.Links.{IsQueue, IsQueue-frame, head-nil, head-cons}
use libtask_annotation.Tasklist.Delete.{deltask-erase}
use libtask_annotation.Tasklist.Frame.{deltask-SameLinks}
use libtask_annotation.Task.{make_ready, taskready}
use libtask_annotation.Sched.Fifo.{IsReady, make_ready-IsReady, make_ready-SameLinks}
use libtask_annotation.Rendez.{
  unwait_rendez, wakeup_loop, wake_first, wakeup, taskwakeup, taskwakeupall,
}

-- The tasks `ws` sleep on `r` and the tasks `rs` are ready, and no task is both.
pub record Sleeps (w : World) (r : Ptr) (ws rs : List Ptr) : Type 0 where
  pub waiting : IsQueue w.task (w.rendezs r).waiting ws
  pub ready : IsReady w rs
  pub apart : Disjoint ws rs

unwait_rendez-Sleeps :
    (w : World) (r t : Ptr) (ws rs : List Ptr)
    → Sleeps w r (t ∷ ws) rs
    → Sleeps (unwait_rendez r t w) r ws rs
unfolding unwait_rendez
unwait_rendez-Sleeps w r t ws rs q = record {
  waiting = rw (==_refl r) (deltask-erase w.task (w.rendezs r).waiting t [] ws q.waiting);
  ready =
      IsQueue-frame w.task _ w.taskrunqueue rs
        (deltask-SameLinks w.task (w.rendezs r).waiting t ws rs q.waiting q.apart) q.ready;
  apart = λ a i. ground (arith, q.apart a);
}

-- The first task that sleeps is ready behind the others.
woken-Sleeps :
    (w : World) (r t : Ptr) (ws rs : List Ptr)
    → Sleeps w r (t ∷ ws) rs
    → Sleeps (make_ready t (unwait_rendez r t w)) r ws (rs ++ t ∷ [])
woken-Sleeps w r t ws rs q =
    let v = unwait_rendez r t w in
    let q' = unwait_rendez-Sleeps w r t ws rs q in
    let ne = (head-cons w.task (w.rendezs r).waiting t ws q.waiting).1 in
    let out = q.apart t (ground (arith, ==_refl t)) in
    record {
      waiting =
          unfold make_ready in
          IsQueue-frame v.task _ (v.rendezs r).waiting ws
            (make_ready-SameLinks t v rs ws q'.ready q.waiting.chain.3
              (λ a i. ground (arith, q'.apart a)))
            q'.waiting;
      ready = make_ready-IsReady t v rs ne out q'.ready;
      apart = λ a i. ground (arith, q'.apart a, q.waiting.chain.3, has-append a rs (t ∷ []));
    }

abbrev woken : Ptr → Ptr → World → World
woken r t w = make_ready t (unwait_rendez r t w)

wake_head :
    (w : World) (r t : Ptr) (ws rs : List Ptr) (rest : Cmd ℕ) (i : ℕ)
    → Sleeps w r (t ∷ ws) rs
    → wake_first r rest i (w.rendezs r).waiting.head w ≡ rest (woken r t w)
unfolding wake_first taskready
wake_head w r t ws rs rest i q =
    let (head, ne) = head-cons w.task (w.rendezs r).waiting t ws q.waiting in
    let e : (t == 0) ≡ false = ground arith in rw (head, e)

all_goes_on : (i : ℕ) → ((i == 1) && not true) ≡ false
all_goes_on i = ground arith

wakeup_loop-all :
    (fuel : ℕ) (w : World) (r : Ptr) (i : ℕ) (ws rs : List Ptr)
    → length ws < fuel
    → Sleeps w r ws rs
    → Returns (λ n v. (n ≡ i + length ws) × Sleeps v r [] (rs ++ ws)) (wakeup_loop fuel r true i w)
unfolding wakeup_loop
wakeup_loop-all zero w r i ws rs lt q = absurd (omega arith)
wakeup_loop-all (suc fuel) w r i [] rs lt q =
    rw (all_goes_on i, head-nil w.task (w.rendezs r).waiting q.waiting)
      (unfold wake_first in (omega arith, rw append-nil q))
wakeup_loop-all (suc fuel) w r i (t ∷ ws) rs lt q =
    let rest =
      wakeup_loop-all fuel _ r (i + 1) ws (rs ++ t ∷ []) (omega arith)
        (woken-Sleeps w r t ws rs q) in
    rw (all_goes_on i, wake_head w r t ws rs (wakeup_loop fuel r true (i + 1)) i q)
      (Returns-mono _ _ (wakeup_loop fuel r true (i + 1) (woken r t w))
        (λ n v (count, s). (omega arith, rw (append_assoc rs (t ∷ []) ws) at s)) rest)

-- Taskwakeupall, with fuel for each task that sleeps, makes all of them ready, in the order in
-- which they went to sleep, and returns their number.
pub taskwakeupall-all :
    (fuel : ℕ) (w : World) (r : Ptr) (ws rs : List Ptr)
    → length ws < fuel
    → Sleeps w r ws rs
    → Returns (λ n v. (n ≡ length ws) × Sleeps v r [] (rs ++ ws)) (taskwakeupall fuel r w)
unfolding taskwakeupall wakeup
taskwakeupall-all fuel w r ws rs lt q =
    Returns-mono _ (λ n v. (n ≡ length ws) × Sleeps v r [] (rs ++ ws)) (wakeup_loop fuel r true 0 w)
      (λ n v (count, s). (omega arith, s)) (wakeup_loop-all fuel w r 0 ws rs lt q)

-- Taskwakeup, with tasks asleep, makes the one ready that has slept longest, leaves the others
-- asleep in their order, and returns 1. The fuel is 2 or more.
pub taskwakeup-first :
    (fuel : ℕ) (w : World) (r t : Ptr) (ws rs : List Ptr)
    → 1 < fuel
    → Sleeps w r (t ∷ ws) rs
    → Returns (λ n v. (n ≡ 1) × Sleeps v r ws (rs ++ t ∷ [])) (taskwakeup fuel r w)
unfolding taskwakeup wakeup wakeup_loop
taskwakeup-first zero w r t ws rs lt q = absurd (omega arith)
taskwakeup-first (suc zero) w r t ws rs lt q = absurd (omega arith)
taskwakeup-first (suc (suc fuel)) w r t ws rs lt q =
    rw (wake_head w r t ws rs (wakeup_loop (suc fuel) r false 1) 0 q)
      (refl, woken-Sleeps w r t ws rs q)

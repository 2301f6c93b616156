-- ===== src/Sched/Fifo.antt =====
-- The run queue is served first in, first out.
use libtask_annotation.Base.{
  Ptr, ◌≡◌, ◌≢◌, refl, List, [], ◌∷◌, ◌++◌, arith, Bool, true, false, ◌∉◌, Disjoint, ◌∙◌, update,
}
use libtask_annotation.World.{World}
use libtask_annotation.Tasklist.{Tasks, deltask}
use libtask_annotation.Tasklist.Seg.{SameLinks}
use libtask_annotation.Tasklist.Links.{IsQueue, IsQueue-frame, head-cons, head-nil, addtask-snoc}
use libtask_annotation.Tasklist.Frame.{addtask-SameLinks}
use libtask_annotation.Tasklist.Delete.{deltask-erase}
use libtask_annotation.Task.{make_ready}
use libtask_annotation.Sched.{stop, run, schedule, switch_to}

-- The tasks that are ready, in the order in which they will run.
abbrev pub IsReady : World → List Ptr → Type 0
IsReady w xs = IsQueue w.task w.taskrunqueue xs

-- The flag `ready` is no link.
pub flag-SameLinks :
    (m : Tasks) (t : Ptr) (b : Bool) (xs : List Ptr)
    → SameLinks xs m (update m t (record (m t) { ready = b }))
flag-SameLinks m t b xs a i = ground arith

pub make_ready-IsReady :
    (t : Ptr) (w : World) (xs : List Ptr)
    → t ≢ 0
    → t ∉ xs
    → IsReady w xs
    → IsReady (make_ready t w) (xs ++ t ∷ [])
unfolding make_ready
make_ready-IsReady t w xs ne out q =
    let m = update w.task t (record (w.task t) { ready = true }) in
    addtask-snoc m w.taskrunqueue t xs ne out
      (IsQueue-frame w.task m w.taskrunqueue xs (flag-SameLinks w.task t true xs) q)

-- The other lists are left alone.
pub make_ready-SameLinks :
    (t : Ptr) (w : World) (xs ys : List Ptr)
    → IsReady w xs
    → t ∉ ys
    → Disjoint xs ys
    → SameLinks ys w.task (make_ready t w).task
unfolding make_ready
make_ready-SameLinks t w xs ys q out apart a i =
    let m = update w.task t (record (w.task t) { ready = true }) in
    let q' = IsQueue-frame w.task m w.taskrunqueue xs (flag-SameLinks w.task t true xs) q in
    let same = addtask-SameLinks m w.taskrunqueue t xs ys q' out apart a i in
    let flag = flag-SameLinks w.task t true ys a i in (same.0 ∙ flag.0, same.1 ∙ flag.1)

pub switch_to-IsReady :
    (t : Ptr) (w : World) (xs : List Ptr) → IsReady w (t ∷ xs) → IsReady (switch_to t w) xs
unfolding switch_to
switch_to-IsReady t w xs q =
    let m = (deltask w.task w.taskrunqueue t).0 in
    IsQueue-frame m _ (deltask w.task w.taskrunqueue t).1 xs (flag-SameLinks m t false xs)
      (deltask-erase w.task w.taskrunqueue t [] xs q)

-- With tasks left and some of them ready, the scheduler runs the task that has been ready
-- longest, and the others keep their order.
pub schedule-head :
    (w : World) (t : Ptr) (xs : List Ptr)
    → w.taskcount ≢ 0
    → IsReady w (t ∷ xs)
    → (schedule w ≡ run t (switch_to t w))
      × IsReady (switch_to t w) xs
      × ((switch_to t w).taskrunning ≡ t)
schedule-head w t xs ne q = (
  unfold schedule in ground (arith, head-cons w.task w.taskrunqueue t xs q),
  switch_to-IsReady t w xs q,
  unfold switch_to in refl,
)

-- With tasks left and none of them ready, the process ends with status 1.
pub schedule-stalled : (w : World) → w.taskcount ≢ 0 → IsReady w [] → schedule w ≡ stop 1
unfolding schedule
schedule-stalled w ne q = ground (arith, head-nil w.task w.taskrunqueue q)

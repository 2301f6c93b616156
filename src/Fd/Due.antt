-- ===== src/Fd/Due.antt =====
-- The loop of `fdtask` that wakes the tasks whose time has come.
use libtask_annotation.Base.{
  ℕ, zero, suc, ◌≡◌, ◌≢◌, ◌≤◌, ◌<◌, ◌==◌, ◌∙◌, ap, Ptr, true, false, List, [], ◌∷◌, ◌++◌, arith,
  ◌∈◌, ◌∉◌, length, Disjoint, has-append, append-nil, append_assoc, ==_refl, leb, Bool-cases, inl,
  inr,
}
use libtask_annotation.World.{World}
use libtask_annotation.Flow.{Cmd, Returns, pure}
use libtask_annotation.Tasklist.{Tasks, deltask, addtask}
use libtask_annotation.Tasklist.Links.{IsQueue, IsQueue-frame, head-nil, head-cons}
use libtask_annotation.Tasklist.Delete.{deltask-erase}
use libtask_annotation.Tasklist.Frame.{deltask-SameLinks}
use libtask_annotation.Task.{make_ready, taskready}
use libtask_annotation.Sched.Fifo.{IsReady, make_ready-IsReady, make_ready-SameLinks}
use libtask_annotation.Fd.{uncount_sleeper}
use libtask_annotation.Fd.Poller.{unsleep, wake_due, wake_sleepers}

-- The tasks `zs` sleep and the tasks `rs` are ready, and no task is both.
pub record Waits (w : World) (zs rs : List Ptr) : Type 0 where
  pub sleeping : IsQueue w.task w.sleeping zs
  pub ready : IsReady w rs
  pub apart : Disjoint zs rs

unsleep-Waits :
    (w : World) (t : Ptr) (zs rs : List Ptr) → Waits w (t ∷ zs) rs → Waits (unsleep t w) zs rs
unfolding unsleep
unsleep-Waits w t zs rs q = record {
  sleeping = deltask-erase w.task w.sleeping t [] zs q.sleeping;
  ready =
      IsQueue-frame w.task (deltask w.task w.sleeping t).0 w.taskrunqueue rs
        (deltask-SameLinks w.task w.sleeping t zs rs q.sleeping q.apart) q.ready;
  apart = λ a i. ground (arith, q.apart a);
}

uncount-Waits :
    (w : World) (t : Ptr) (zs rs : List Ptr) → Waits w zs rs → Waits (uncount_sleeper t w) zs rs
unfolding uncount_sleeper
uncount-Waits w t zs rs q = elim (Bool-cases (w.task t).system) [
  | inl system ↦ rw system q
  | inr user ↦ rw user (record { sleeping = q.sleeping; ready = q.ready; apart = q.apart })
]

ready-Waits :
    (w : World) (t : Ptr) (zs rs : List Ptr)
    → t ≢ 0
    → t ∉ zs
    → t ∉ rs
    → Waits w zs rs
    → Waits (make_ready t w) zs (rs ++ t ∷ [])
ready-Waits w t zs rs ne out out' q = record {
  sleeping =
      unfold make_ready in
      IsQueue-frame w.task (make_ready t w).task w.sleeping zs
        (make_ready-SameLinks t w rs zs q.ready out (λ a i. ground (arith, q.apart a))) q.sleeping;
  ready = make_ready-IsReady t w rs ne out' q.ready;
  apart = λ a i. ground (arith, q.apart a, out, has-append a rs (t ∷ []));
}

abbrev woken : Ptr → World → World
woken t w = make_ready t (uncount_sleeper t (unsleep t w))

woken-Waits :
    (w : World) (t : Ptr) (zs rs : List Ptr)
    → Waits w (t ∷ zs) rs
    → Waits (woken t w) zs (rs ++ t ∷ [])
woken-Waits w t zs rs q =
    ready-Waits (uncount_sleeper t (unsleep t w)) t zs rs
      (head-cons w.task w.sleeping t zs q.sleeping).1 q.sleeping.chain.3
      (q.apart t (ground (arith, ==_refl t)))
      (uncount-Waits (unsleep t w) t zs rs (unsleep-Waits w t zs rs q))

-- No time changes.
make_ready-alarm :
    (w : World) (t a : Ptr) → ((make_ready t w).task a).alarmtime ≡ (w.task a).alarmtime
unfolding make_ready addtask
make_ready-alarm w t a = ground arith

unsleep-alarm :
    (w : World) (t a : Ptr)
    → ((uncount_sleeper t (unsleep t w)).task a).alarmtime ≡ (w.task a).alarmtime
unfolding unsleep uncount_sleeper deltask
unsleep-alarm w t a = ground arith

woken-alarm : (w : World) (t a : Ptr) → ((woken t w).task a).alarmtime ≡ (w.task a).alarmtime
woken-alarm w t a = make_ready-alarm (uncount_sleeper t (unsleep t w)) t a ∙ unsleep-alarm w t a

-- The tasks `xs` are to wake by `now`, and the first of `ys` is not.
pub record IsDue (m : Tasks) (now : ℕ) (xs ys : List Ptr) : Type 0 where
  pub due : (a : Ptr) → a ∈ xs → (m a).alarmtime ≤ now
  pub later : (a : Ptr) → a ∈ ys → now < (m a).alarmtime

wake_due_lem :
    (rest : Cmd (Unit {0})) (now : ℕ) (t : Ptr) (w : World)
    → t ≢ 0
    → (w.task t).alarmtime ≤ now
    → wake_due rest now t w ≡ rest (woken t w)
unfolding wake_due taskready
wake_due_lem rest now t w ne due =
    let e : (t == 0) ≡ false = ground arith in
    let e' : leb (w.task t).alarmtime now ≡ true = ground arith in rw (e, e')

wake_due-head :
    (rest : Cmd (Unit {0})) (now : ℕ) (w : World) (t : Ptr) (zs : List Ptr)
    → IsQueue w.task w.sleeping (t ∷ zs)
    → (w.task t).alarmtime ≤ now
    → wake_due rest now w.sleeping.head w ≡ rest (woken t w)
wake_due-head rest now w t zs q due =
    let (head, ne) = head-cons w.task w.sleeping t zs q in
    ap (λ (p : Ptr). wake_due rest now p w) head ∙ wake_due_lem rest now t w ne due

wake_due-none :
    (rest : Cmd (Unit {0})) (now : ℕ) (w : World) (ys rs : List Ptr)
    → Waits w ys rs
    → ((a : Ptr) → a ∈ ys → now < (w.task a).alarmtime)
    → wake_due rest now w.sleeping.head w ≡ pure tt w
unfolding wake_due
wake_due-none rest now w [] rs q later = rw (head-nil w.task w.sleeping q.sleeping)
wake_due-none rest now w (y ∷ ys) rs q later =
    let (head, ne) = head-cons w.task w.sleeping y ys q.sleeping in
    let lt = later y (ground (arith, ==_refl y)) in
    let e : (y == 0) ≡ false = ground arith in
    let e' : leb (w.task y).alarmtime now ≡ false = ground arith in rw (head, e, e')

-- The last loop of fdtask makes the tasks ready whose time has come, in the order in which they
-- were to wake, and leaves the others asleep. The fuel is more than the tasks that it wakes, and
-- a task whose time has not come is behind those whose time has.
pub wake_sleepers-due :
    (fuel now : ℕ) (w : World) (xs ys rs : List Ptr)
    → length xs < fuel
    → Waits w (xs ++ ys) rs
    → IsDue w.task now xs ys
    → Returns (λ _ v. Waits v ys (rs ++ xs)) (wake_sleepers fuel now w)
unfolding wake_sleepers
wake_sleepers-due zero now w xs ys rs lt q d = absurd (omega arith)
wake_sleepers-due (suc fuel) now w [] ys rs lt q d =
    rw (wake_due-none (wake_sleepers fuel now) now w ys rs q d.later, append-nil) q
wake_sleepers-due (suc fuel) now w (t ∷ xs) ys rs lt q d =
    rw
      (
        wake_due-head (wake_sleepers fuel now) now w t (xs ++ ys) q.sleeping
            (d.due t (ground (arith, ==_refl t))),
        ← append_assoc rs (t ∷ []) xs,
      )
      (wake_sleepers-due fuel now (woken t w) xs ys (rs ++ t ∷ []) (omega arith)
        (woken-Waits w t (xs ++ ys) rs q)
        (record {
          due = λ a i. rw (woken-alarm w t a) (d.due a (ground arith));
          later = λ a i. rw (woken-alarm w t a) (d.later a i);
        }))

-- ===== src/Fd/Delay.antt =====
-- `taskdelay` of fd.c: where the running task goes in the list of those that sleep.
use libtask_annotation.Base.{
  ℕ, ◌≡◌, ◌≢◌, ◌<◌, refl, ap, ◌∙◌, Ptr, true, List, ◌∷◌, ◌++◌, arith, ◌∉◌, length, has-append,
  Bool-cases, inl, inr,
}
use libtask_annotation.World.{World}
use libtask_annotation.Flow.{Switches, done}
use libtask_annotation.Tasklist.{Tasks}
use libtask_annotation.Tasklist.Links.{IsQueue}
use libtask_annotation.Task.{has_stack, self}
use libtask_annotation.Task.Switch.{taskswitch_lem, has_stack-same}
use libtask_annotation.Fd.{
  first_later, fall_asleep, count_sleeper, delay_at, insert_sleeper, join_backward, join_forward,
  set_alarm, aim,
}
use libtask_annotation.Fd.Insert.{first_of, insert_sleeper-IsQueue, insert_sleeper-alarm}
use libtask_annotation.Fd.Order.{Found, AllBefore, IsSorted, first_later-Found, IsSorted-insert}

-- The tasks `zs` sleep, in the order in which they will wake.
pub record Sleepers (w : World) (zs : List Ptr) : Type 0 where
  pub queue : IsQueue w.task w.sleeping zs
  pub sorted : IsSorted w.task zs

-- In `v` the task `x` sleeps until `when`, behind the tasks of `zs` that wake before that and
-- before the others.
pub record Placed (v : World) (x : Ptr) (when : ℕ) (zs : List Ptr) : Type 0 where
  pub before : List Ptr
  pub later : List Ptr
  pub whole : zs ≡ before ++ later
  pub sleepers : Sleepers v (before ++ x ∷ later)
  pub early : AllBefore v.task when before
  pub alarm : (v.task x).alarmtime ≡ when

fall_asleep-Placed :
    (fuel : ℕ) (w : World) (when : ℕ) (zs : List Ptr)
    (found : Found fuel w.task when w.sleeping.head zs)
    → Sleepers w zs
    → w.taskrunning ≢ 0
    → w.taskrunning ∉ zs
    → Placed (fall_asleep (first_of found.later) when w) w.taskrunning when zs
unfolding fall_asleep
fall_asleep-Placed fuel w when zs f s ne out =
    let x = w.taskrunning in
    let m = w.task in
    let t = first_of f.later in
    let same = insert_sleeper-alarm m w.sleeping x t when in
    let out' : x ∉ (f.before ++ f.later) = rw f.whole at out in
    let out_before : x ∉ f.before = ground (arith, has-append x f.before f.later) in
    let out_later : x ∉ f.later = ground (arith, has-append x f.before f.later) in
    record {
      before = f.before;
      later = f.later;
      whole = f.whole;
      sleepers = record {
        queue =
            insert_sleeper-IsQueue m w.sleeping x when f.before f.later ne out_before out_later
              (rw f.whole at s.queue);
        sorted =
            IsSorted-insert m (insert_sleeper m w.sleeping x t when).0 x when f.before f.later same
              out_before out_later f.early f.late (rw f.whole at s.sorted);
      };
      early = λ a i. ground (arith, same a, f.early a);
      alarm = ground (arith, same x);
    }

-- The counters are in no list.
count_sleeper-task :
    (t : Ptr) (w : World)
    → ((count_sleeper t w).task ≡ w.task) × ((count_sleeper t w).sleeping ≡ w.sleeping)
unfolding count_sleeper
count_sleeper-task t w = elim (Bool-cases (w.task t).system) [
  | inl system ↦ rw system (refl, refl)
  | inr user ↦ rw user (refl, refl)
]

count_sleeper_self :
    (t : Ptr) (w : World)
    → ((count_sleeper t w).sp ≡ w.sp) × ((count_sleeper t w).taskrunning ≡ w.taskrunning)
unfolding count_sleeper
count_sleeper_self t w = elim (Bool-cases (w.task t).system) [
  | inl system ↦ rw system (refl, refl)
  | inr user ↦ rw user (refl, refl)
]

fall_asleep-stk :
    (t : Ptr) (when : ℕ) (w : World) (a : Ptr)
    → ((fall_asleep t when w).task a).stk ≡ (w.task a).stk
unfolding fall_asleep insert_sleeper join_backward join_forward set_alarm aim
fall_asleep-stk t when w a = ground arith

Placed-count :
    (v u : World) (x : Ptr) (when : ℕ) (zs : List Ptr)
    → u.task ≡ v.task
    → u.sleeping ≡ v.sleeping
    → Placed v x when zs
    → Placed u x when zs
Placed-count v u x when zs e f p = record {
  before = p.before;
  later = p.later;
  whole = p.whole;
  sleepers = record { queue = rw (e, f) p.sleepers.queue; sorted = rw e p.sleepers.sorted };
  early = rw e p.early;
  alarm = rw e p.alarm;
}

-- Taskdelay, once it has read the clock, puts the running task into the list of the tasks that
-- sleep, behind those that wake before it and before the others, and gives up the processor; the
-- list stays sorted by time. The fuel is more than the tasks that sleep, the running task is
-- none of them, and it has stack left.
pub delay_at-Placed :
    (fuel : ℕ) (w : World) (when : ℕ) (zs : List Ptr)
    → length zs < fuel
    → Sleepers w zs
    → w.taskrunning ≢ 0
    → w.taskrunning ∉ zs
    → has_stack 0 w ≡ true
    → Switches
        (λ v k. Placed v w.taskrunning when zs × (k ≡ done tt))
        (delay_at (first_later fuel w.task when w.sleeping.head) when w)
unfolding delay_at
delay_at-Placed fuel w when zs lt s ne out room =
    let f =
      first_later-Found fuel w.task when 0 w.sleeping.head zs w.sleeping.tail lt s.sorted
        s.queue.chain in
    let v = fall_asleep (first_of f.later) when w in
    let u = count_sleeper v.taskrunning v in
    let tasks = count_sleeper-task v.taskrunning v in
    let selves = count_sleeper_self v.taskrunning v in
    let same_running : v.taskrunning ≡ w.taskrunning = unfold fall_asleep in refl in
    let same_sp : v.sp ≡ w.sp = unfold fall_asleep in refl in
    let stk : (self u).stk ≡ (self w).stk =
      ap (λ (n : Tasks). (n u.taskrunning).stk) tasks.0
      ∙ ap (λ (p : Ptr). (v.task p).stk) (selves.1 ∙ same_running)
      ∙ fall_asleep-stk (first_of f.later) when w w.taskrunning in
    let stack : has_stack 0 u ≡ true = has_stack-same w u (selves.0 ∙ same_sp) stk ∙ room in
    rw (f.stops, taskswitch_lem u stack)
      (
        Placed-count v u w.taskrunning when zs tasks.0 tasks.1
            (fall_asleep-Placed fuel w when zs f s ne out),
        refl,
      )

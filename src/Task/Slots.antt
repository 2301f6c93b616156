-- ===== src/Task/Slots.antt =====
-- The array of all tasks: each task knows its slot, and the array is allocated as far as it is used.
use libtask_annotation.Base.{
  ℕ, ◌+◌, ◌-◌, ◌*◌, ◌/◌, ◌≤◌, ◌<◌, ◌≡◌, ◌≢◌, Ptr, arith, ◌==◌, update, if◌then◌else◌, refl, true,
  false, Bool-cases, inl, inr, ◌%◌, inc32, ap, ◌∙◌,
}
use libtask_annotation.World.{World}
use libtask_annotation.Flow.{Returns, Returns-bind}
use libtask_annotation.Task.{make_ready}
use libtask_annotation.Tasklist.Frame.{addtask-SameFields}
use libtask_annotation.Task.Create.{
  zeroed, remove_alltask, append_alltask, taskcreate, grow_alltask,
}

-- The slots that are used are allocated, and the task in slot `i` has `alltaskslot` `i`.
pub record IsIndexed (w : World) : Type 0 where
  pub room : (w.nalltask + 63) / 64 * 64 ≤ w.allcap
  pub slot : (i : ℕ) → i < w.nalltask → (w.task (w.alltask i)).alltaskslot ≡ i

-- `t` is one of the tasks of the array.
pub record IsLive (w : World) (t : Ptr) : Type 0 where
  pub below : (w.task t).alltaskslot < w.nalltask
  pub found : w.alltask (w.task t).alltaskslot ≡ t

-- The tasks that are left know their slots, and the array is allocated as far as it is used.
remove_alltask-IsIndexed :
    (w : World) (t : Ptr) → IsIndexed w → IsLive w t → IsIndexed (remove_alltask t w)
unfolding remove_alltask
remove_alltask-IsIndexed w t v live = record {
  room = omega (arith, v.room);
  slot = λ i lt. ground (arith, v.slot i, v.slot (w.nalltask - 1));
}

-- Every other task is still there, in the slot that it knows.
remove_alltask-IsLive :
    (w : World) (t u : Ptr)
    → IsIndexed w
    → IsLive w t
    → IsLive w u
    → u ≢ t
    → IsLive (remove_alltask t w) u
unfolding remove_alltask
remove_alltask-IsLive w t u v live other ne = record {
  below = ground (arith, v.slot (w.nalltask - 1));
  found = ground (arith, v.slot (w.nalltask - 1));
}

-- No slot holds the task.
remove_alltask-gone :
    (w : World) (t : Ptr) (i : ℕ)
    → IsIndexed w
    → IsLive w t
    → i < (remove_alltask t w).nalltask
    → (remove_alltask t w).alltask i ≢ t
unfolding remove_alltask
remove_alltask-gone w t i v live lt = ground (arith, v.slot i, v.slot (w.nalltask - 1))

-- When a task of the well-formed array of all tasks ends, there is one task less, no slot holds
-- the one that has ended, and every other is still there, in the slot that it knows; and the
-- array stays well-formed and allocated as far as it is used.
pub remove_alltask-Removed :
    (w : World) (t : Ptr)
    → IsIndexed w
    → IsLive w t
    → IsIndexed (remove_alltask t w)
      × ((remove_alltask t w).nalltask + 1 ≡ w.nalltask)
      × ((i : ℕ) → i < (remove_alltask t w).nalltask → (remove_alltask t w).alltask i ≢ t)
      × ((u : Ptr) → IsLive w u → u ≢ t → IsLive (remove_alltask t w) u)
remove_alltask-Removed w t v live = (
  remove_alltask-IsIndexed w t v live,
  unfold remove_alltask in omega (arith, live.below),
  λ i lt. remove_alltask-gone w t i v live lt,
  λ u other ne. remove_alltask-IsLive w t u v live other ne,
)

-- To make a task ready changes no slot.
pub make_ready-slot :
    (t : Ptr) (w : World) (a : Ptr) → ((make_ready t w).task a).alltaskslot ≡ (w.task a).alltaskslot
unfolding make_ready
make_ready-slot t w a = ground (
  arith,
  addtask-SameFields (update w.task t (record (w.task t) { ready = true })) w.taskrunqueue t a,
)

zero_test : (p : Ptr) → p ≢ 0 → (p == 0) ≡ false
zero_test p ne = ground arith

grow_alltask-room :
    (grown : Ptr) (w : World)
    → grown ≢ 0
    → IsIndexed w
    → Returns
        (λ _ v. (c : ℕ) × (v ≡ record w { allcap = c }) × ((w.nalltask + 64) / 64 * 64 ≤ c))
        (grow_alltask grown w)
unfolding grow_alltask
grow_alltask-room grown w ne v = elim (Bool-cases (w.nalltask % 64 == 0)) [
  | inl full ↦ rw (full, if◌then◌else◌, zero_test grown ne) (_, refl, ground arith)
  | inr part ↦ rw part (_, refl, ground (arith, v.room))
]

append_alltask-IsIndexed :
    (t : Ptr) (w : World)
    → ((i : ℕ) → i < w.nalltask → (w.task (w.alltask i)).alltaskslot ≡ i)
    → ((i : ℕ) → i < w.nalltask → w.alltask i ≢ t)
    → (w.nalltask + 64) / 64 * 64 ≤ w.allcap
    → IsIndexed (append_alltask t w) × IsLive (append_alltask t w) t
unfolding append_alltask
append_alltask-IsIndexed t w slot new room = (
  record { room = ground arith; slot = λ i lt. ground (arith, slot i, new i) },
  record { below = ground arith; found = ground arith },
)

make_ready-IsIndexed : (t : Ptr) (w : World) → IsIndexed w → IsIndexed (make_ready t w)
unfolding make_ready
make_ready-IsIndexed t w v = record {
  room = v.room;
  slot = λ i lt. make_ready-slot t w (w.alltask i) ∙ v.slot i lt;
}

make_ready-IsLive : (t : Ptr) (w : World) (u : Ptr) → IsLive w u → IsLive (make_ready t w) u
unfolding make_ready
make_ready-IsLive t w u v = record {
  below = rw (make_ready-slot t w u) v.below;
  found = ap w.alltask (make_ready-slot t w u) ∙ v.found;
}

append_alltask-IsLive :
    (t : Ptr) (w : World) (u : Ptr) → u ≢ t → IsLive w u → IsLive (append_alltask t w) u
unfolding append_alltask
append_alltask-IsLive t w u ne v = record { below = ground arith; found = ground arith }

-- Taskcreate, given memory at an address that no task has and for a longer array, returns the
-- next id; the new task is in the array of all tasks, every task that was there still is, the
-- array stays well-formed and is allocated as far as it is used, and taskcount is one more.
pub taskcreate-IsLive :
    (sizeof_task fresh grown fn arg stack : ℕ) (w : World)
    → fresh ≢ 0
    → grown ≢ 0
    → ((i : ℕ) → i < w.nalltask → w.alltask i ≢ fresh)
    → IsIndexed w
    → Returns
        (λ id v.
          (id ≡ inc32 w.taskidgen)
          × IsIndexed v
          × IsLive v fresh
          × ((u : Ptr) → IsLive w u → IsLive v u)
          × (v.taskcount ≡ inc32 w.taskcount))
        (taskcreate sizeof_task fresh grown fn arg stack w)
unfolding taskcreate make_ready append_alltask
taskcreate-IsLive sizeof_task fresh grown fn arg stack w ne ok new v = rw (zero_test fresh ne) (
    Returns-bind
      (λ _ u. (c : ℕ) × (u ≡ record w' { allcap = c }) × ((w'.nalltask + 64) / 64 * 64 ≤ c)) _
      (grow_alltask grown w') _ (grow_alltask-room grown w' ok v')
      λ _ u (c, e, room). rw e (
        let g = record w' { allcap = c } in
        let in_array = append_alltask-IsIndexed fresh g v'.slot new room in
        let g' = append_alltask fresh g in
        (
          ground arith,
          make_ready-IsIndexed fresh g' in_array.0,
          make_ready-IsLive fresh g' fresh in_array.1,
          λ u live. make_ready-IsLive fresh g' u (
              append_alltask-IsLive fresh g u (still u live).0
                (record { below = (still u live).1.below; found = (still u live).1.found })),
          refl,
        )))
  where
    w' : World
    w' = record w {
      taskidgen = inc32 w.taskidgen;
      task = update w.task fresh (record zeroed {
        stk = fresh + sizeof_task;
        stksize = stack;
        id = inc32 w.taskidgen;
        startfn = fn;
        startarg = arg;
      });
      taskcount = inc32 w.taskcount;
    }

    v' : IsIndexed w'
    v' = record { room = v.room; slot = λ i lt. ground (arith, new i, v.slot i) }

    still : (u : Ptr) → IsLive w u → (u ≢ fresh) × IsLive w' u
    still u live =
        let apart : u ≢ fresh = λ e. new _ live.below (live.found ∙ e) in
        (apart, record { below = ground arith; found = ground arith })

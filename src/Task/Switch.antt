-- ===== src/Task/Switch.antt =====
-- Giving up the processor, and what of the state the steps before it change.
use libtask_annotation.Base.{◌≡◌, Ptr, true, List, String, arith, ap, ◌∙◌}
use libtask_annotation.World.{World, Task, Tasklist}
use libtask_annotation.Flow.{Flow, Cmd, switch, done, and_then, ◌>>◌}
use libtask_annotation.Task.{
  self, has_stack, needstack, contextswitch, taskswitch, taskstate, with_state,
}
use libtask_annotation.Tasklist.{addtask}
use libtask_annotation.Tasklist.Frame.{addtask-SameFields}
use libtask_annotation.Tasklist.Seg.{SameLinks}

-- With room on the stack, `taskswitch` is a switch to the scheduler that returns when it is resumed.
pub taskswitch_lem : (w : World) → has_stack 0 w ≡ true → taskswitch w ≡ switch w (λ v. done tt v)
unfolding taskswitch needstack contextswitch
taskswitch_lem w h = rw h

pub has_stack-same :
    (w v : World) → v.sp ≡ w.sp → (self v).stk ≡ (self w).stk → has_stack 0 v ≡ has_stack 0 w
unfolding has_stack
has_stack-same w v s k = rw (s, k)

-- The text of the state is no link.
pub with_state-SameLinks :
    (text : String) (w : World) (xs : List Ptr) → SameLinks xs w.task (with_state text w).task
unfolding with_state
with_state-SameLinks text w xs a i = ground arith

pub with_state-stk :
    (text : String) (w : World) (a : Ptr) → ((with_state text w).task a).stk ≡ (w.task a).stk
unfolding with_state
with_state-stk text w a = ground arith

-- The way a task goes to sleep in a list: it has put itself there, and notes why.
pub park_lem :
    {A : Type 0} (text : String) (w v : World) (l : Tasklist) (k : Cmd A)
    → v.task ≡ (addtask w.task l w.taskrunning).0
    → v.sp ≡ w.sp
    → v.taskrunning ≡ w.taskrunning
    → has_stack 0 w ≡ true
    → (taskstate text >> (taskswitch >> k)) v ≡ switch (with_state text v) k
unfolding taskstate with_state
park_lem text w v l k tasks sp run room =
    ap (λ (f : Flow (Unit {0})). and_then f (λ _. k)) (taskswitch_lem (with_state text v) stack)
  where
    stk : (self (with_state text v)).stk ≡ (self w).stk
    stk =
        with_state-stk text v v.taskrunning
        ∙ ap (λ (p : Ptr). (v.task p).stk) run
        ∙ ap (λ (m : Ptr → Task). (m w.taskrunning).stk) tasks
        ∙ ap (λ (t : Task). t.stk) (addtask-SameFields w.task l w.taskrunning w.taskrunning)

    stack : has_stack 0 (with_state text v) ≡ true
    stack = has_stack-same w (with_state text v) sp stk ∙ room

-- ===== src/Tasklist.antt =====
-- The doubly linked lists of task.c: `addtask` and `deltask`. The links are fields of the tasks,
-- so a call changes the store of tasks and the list's header.
pub mod Seg
pub mod Links
pub mod Delete
pub mod Frame
use libtask_annotation.Base.{Ptr, ◌==◌, if◌then◌else◌, update}
use libtask_annotation.World.{Task, Tasklist}

abbrev pub Tasks : Type 0
Tasks = Ptr → Task

-- `p->next = q` and `p->prev = q`
abbrev pub set_next : Tasks → Ptr → Ptr → Tasks
set_next m p q = update m p (record (m p) { next = q })

abbrev pub set_prev : Tasks → Ptr → Ptr → Tasks
set_prev m p q = update m p (record (m p) { prev = q })

unfoldable pub addtask : Tasks → Tasklist → Ptr → Tasks × Tasklist
addtask m l t =
    if l.tail == 0
    then (set_next (set_prev m t 0) t 0, record l { head = t; tail = t })
    else (set_next (set_prev (set_next m l.tail t) t l.tail) t 0, record l { tail = t })

-- The first test of `deltask`: the node before `t`, or the head, skips `t`.
skip_forward : Tasks → Tasklist → Ptr → Tasks × Tasklist
skip_forward m l t =
    if (m t).prev == 0
    then (m, record l { head = (m t).next })
    else (set_next m (m t).prev (m t).next, l)

-- The second test: the node after `t`, or the tail, skips it backwards.
skip_backward : Tasks → Tasklist → Ptr → Tasks × Tasklist
skip_backward m l t =
    if (m t).next == 0
    then (m, record l { tail = (m t).prev })
    else (set_prev m (m t).next (m t).prev, l)

unfoldable pub deltask : Tasks → Tasklist → Ptr → Tasks × Tasklist
unfolding skip_forward skip_backward
deltask m l t = let (m', l') = skip_forward m l t in skip_backward m' l' t

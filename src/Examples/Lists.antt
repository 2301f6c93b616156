-- ===== src/Examples/Lists.antt =====
-- The theorems on lists of tasks, applied.
use libtask_annotation.Base.{Ptr, refl, arith, [], ◌∷◌, ◌==◌, if◌then◌else◌}
use libtask_annotation.World.{Task, Tasklist}
use libtask_annotation.Tasklist.{addtask, deltask}
use libtask_annotation.Tasklist.Links.{IsQueue, addtask-snoc}
use libtask_annotation.Tasklist.Delete.{deltask-erase}
use libtask_annotation.Examples.{linked}

-- The list of the tasks 5, 6 and 7.
abbrev store : Ptr → Task
store p =
    if p == 5
    then linked 0 6
    else (if p == 6 then linked 5 7 else (if p == 7 then linked 6 0 else linked 0 0))

abbrev three : Tasklist
three = record { head = 5; tail = 7 }

three-IsQueue : IsQueue store three (5 ∷ 6 ∷ 7 ∷ [])
three-IsQueue = record { chain = ground arith }

addtask-snoc_example :
    IsQueue (addtask store three 8).0 (addtask store three 8).1 (5 ∷ 6 ∷ 7 ∷ 8 ∷ [])
addtask-snoc_example = addtask-snoc store three 8 (5 ∷ 6 ∷ 7 ∷ []) (ground arith) refl three-IsQueue

deltask-erase_example : IsQueue (deltask store three 6).0 (deltask store three 6).1 (5 ∷ 7 ∷ [])
deltask-erase_example = deltask-erase store three 6 (5 ∷ []) (7 ∷ []) three-IsQueue

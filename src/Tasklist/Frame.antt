-- ===== src/Tasklist/Frame.antt =====
-- What `addtask` and `deltask` leave alone: the other lists, and all fields but the links.
use libtask_annotation.Base.{Ptr, ◌≡◌, List, [], ◌∷◌, arith, ◌∉◌, Disjoint}
use libtask_annotation.World.{Tasklist}
use libtask_annotation.Tasklist.{Tasks, addtask, deltask}
use libtask_annotation.Tasklist.Seg.{SameLinks}
use libtask_annotation.Tasklist.Links.{IsQueue, tail-cons}

pub addtask-SameLinks :
    (m : Tasks) (l : Tasklist) (t : Ptr) (xs ys : List Ptr)
    → IsQueue m l xs
    → t ∉ ys
    → Disjoint xs ys
    → SameLinks ys m (addtask m l t).0
unfolding addtask
addtask-SameLinks m l t [] ys q out apart a i = ground (arith, q.chain)
addtask-SameLinks m l t (x ∷ xs) ys q out apart a i =
    ground (arith, tail-cons m l x xs q, apart l.tail)

pub deltask-SameLinks :
    (m : Tasks) (l : Tasklist) (t : Ptr) (xs ys : List Ptr)
    → IsQueue m l (t ∷ xs)
    → Disjoint (t ∷ xs) ys
    → SameLinks ys m (deltask m l t).0
unfolding deltask
deltask-SameLinks m l t [] ys q apart a i = ground (arith, q.chain)
deltask-SameLinks m l t (x ∷ xs) ys q apart a i = ground (arith, q.chain, apart x)

-- `g` is `m` but for links.
abbrev pub SameFields : Tasks → Tasks → Type 0
SameFields m g = (a : Ptr) → g a ≡ record (m a) { next = (g a).next; prev = (g a).prev }

pub addtask-SameFields : (m : Tasks) (l : Tasklist) (t : Ptr) → SameFields m (addtask m l t).0
unfolding addtask
addtask-SameFields m l t a = ground arith

pub deltask-SameFields : (m : Tasks) (l : Tasklist) (t : Ptr) → SameFields m (deltask m l t).0
unfolding deltask
deltask-SameFields m l t a = ground arith

-- ===== src/Qlock/Spec.antt =====
-- What a `QLock` promises: an owner, and a queue of tasks each of which will be the owner in turn.
use libtask_annotation.Base.{Ptr, List, [], ◌∷◌, ◌++◌}

-- The lock, and the tasks that are ready to run.
pub record Lock : Type 0 where
  pub owner : Ptr
  pub waiting : List Ptr
  pub ready : List Ptr

-- A free lock is taken.
abbrev pub taken : Ptr → Lock → Lock
taken t s = record s { owner = t }

-- A task waits for a lock that is held.
abbrev pub queued : Ptr → Lock → Lock
queued t s = record s { waiting = s.waiting ++ t ∷ [] }

-- The lock goes to the task that has waited longest, which is ready again, or is free.
abbrev pub hand_over : List Ptr → Lock → Lock
hand_over [] s = record s { owner = 0 }
hand_over (t ∷ ws) s = record s { owner = t; waiting = ws; ready = s.ready ++ t ∷ [] }

abbrev pub released : Lock → Lock
released s = hand_over s.waiting s

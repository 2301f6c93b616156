-- ===== src/Task/Info.antt =====
-- What the library tells of its tasks: taskinfo, taskgetname and the like, of task.c, and the first
-- task of main.
use libtask_annotation.Base.{
  ℕ, zero, suc, ◌+◌, Ptr, Option, none, some, List, [], ◌∷◌, ◌==◌, if◌then◌else◌, String, Text,
  codes,
}
use libtask_annotation.World.{World}
use libtask_annotation.Flow.{Cmd, pure, ◌>>◌}
use libtask_annotation.Task.{self, taskname}
use libtask_annotation.Print.{Arg, word, text, fprint}

unfoldable pub taskgetname : World → String
taskgetname w = (self w).name

unfoldable pub taskgetstate : World → String
taskgetstate w = (self w).state

-- `&taskrunning->udata`: the place is known by its task.
unfoldable pub taskdata : World → Ptr
taskdata w = w.taskrunning

-- `taskdebug` returns before it does anything.
unfoldable pub taskdebug : (fmt : Text) → List Arg → Cmd (Unit {0})
taskdebug fmt args = pure tt

-- `extra`
unfoldable pub extra : World → Ptr → Text
extra w t =
    if t == w.taskrunning
    then codes " (running)"
    else (if (w.task t).ready then codes " (ready)" else codes "")

unfoldable pub info_args : World → Ptr → List Arg
info_args w t =
    let x = w.task t in
    word x.id
    ∷ word (if x.system then b's' else b' ')
    ∷ text (codes x.name)
    ∷ text (codes x.state)
    ∷ text (extra w t)
    ∷ []

-- The texts, in order, if each is printed.
abbrev before : Option Text → Option (List Text) → Option (List Text)
before none rest = none
before (some s) none = none
before (some s) (some rest) = some (s ∷ rest)

module _ (errstr : Text) (m : ℕ → ℕ) (buf : ℕ) where
  -- What `fprint(2, …)` writes; `m` is what lies in memory.
  abbrev line : (fmt : Text) → List Arg → Option Text
  line fmt args = fprint (λ fd s. s) errstr m buf 2 fmt args

  -- The loop over `left` tasks of `alltask` from `i` on.
  unfoldable pub info_lines : (left i : ℕ) → World → Option (List Text)
  info_lines zero i w = some []
  info_lines (suc left) i w =
      before (line (codes "%6d%c %-20s %s%s\n") (info_args w (w.alltask i)))
        (info_lines left (i + 1) w)

  unfoldable pub taskinfo : World → Option (List Text)
  taskinfo w = before (line (codes "task list:\n") []) (info_lines w.nalltask 0 w)

-- `taskmain` is the program's.
unfoldable pub taskmainstart : (taskmain : Cmd (Unit {0})) → Cmd (Unit {0})
taskmainstart taskmain = taskname "taskmain" >> taskmain

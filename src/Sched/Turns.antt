-- ===== src/Sched/Turns.antt =====
-- Every ready task has its turn: what the tasks may do to the run queue, and the rounds of the
-- scheduler.
use libtask_annotation.Base.{
  ℕ, ◌≡◌, ◌≢◌, ◌⊎◌, inl, inr, refl, ap, sym, subst, Ptr, Bool, true, false, Option, none, some,
  List, [], ◌∷◌, ◌++◌, ◌∉◌, arith, update, ◌==◌, if◌then◌else◌, Bool-cases, length, String,
  append_assoc, append-nil,
}
use libtask_annotation.World.{World}
use libtask_annotation.Flow.{Flow, Cmd, done, switch, exits, aborts, out_of_fuel, and_then}
use libtask_annotation.Tasklist.Links.{IsQueue-frame, head-cons}
use libtask_annotation.Task.{
  has_stack, taskexit, taskswitch, needstack, contextswitch, taskyield, taskready, make_ready,
  taskstate, with_state,
}
use libtask_annotation.Task.Switch.{with_state-SameLinks}
use libtask_annotation.Task.Create.{after_run, remove_alltask}
use libtask_annotation.Task.Pointer.{split_pointer}
use libtask_annotation.Sched.{
  Code, System, Outcome, runs, exited, aborted, schedule, run, stop, switch_to, slice, taskstart,
  settle, round, taskscheduler,
}
use libtask_annotation.Sched.Fifo.{IsReady, schedule-head, make_ready-IsReady}

-- A task runs, and the others, `xs`, are ready.
pub record Turn (w : World) (xs : List Ptr) : Type 0 where
  pub ready : IsReady w xs
  pub placed : w.taskrunning ≢ 0
  pub out : w.taskrunning ∉ xs

-- Code that, whenever it runs, leaves the tasks that are ready in their places and only puts others
-- behind them.
abbrev pub Appends : {A : Type 0} → List Ptr → Flow A → Type 0
Appends xs (done a v) = (zs : List Ptr) × Turn v (xs ++ zs)
Appends xs (switch v k) =
    ((zs : List Ptr) × IsReady v (xs ++ zs))
    × ((u : World) (ys : List Ptr) → Turn u ys → Appends ys (k u))
Appends xs (exits n v) = Unit {0}
Appends xs (aborts v) = Unit {0}
Appends xs (out_of_fuel v) = ⊥

-- Such are the functions of the tasks.
abbrev pub Fair : Code → Type 0
Fair code = (fn arg : ℕ) (w : World) (xs : List Ptr) → Turn w xs → Appends xs (code fn arg w)

-- And such is what is left of those that have begun.
abbrev pub Tame : System → Type 0
Tame s =
    (t : Ptr) (k : World → Flow (Unit {0}))
    → s.resume t ≡ some k
    → (u : World) (ys : List Ptr) → Turn u ys
    → Appends ys (k u)

append-weaken : {A : Type 0} (xs zs : List Ptr) (r : Flow A) → Appends (xs ++ zs) r → Appends xs r
append-weaken xs zs (done a v) (ys, t) = (zs ++ ys, subst (Turn v) (append_assoc xs zs ys) t)
append-weaken xs zs (switch v k) ((ys, q), rest) =
    ((zs ++ ys, subst (IsReady v) (append_assoc xs zs ys) q), rest)
append-weaken xs zs (exits n v) p = p
append-weaken xs zs (aborts v) p = p
append-weaken xs zs (out_of_fuel v) p = p

pub Appends-bind :
    {A B : Type 0} (xs : List Ptr) (r : Flow A) (f : A → Cmd B)
    → Appends xs r
    → ((a : A) (v : World) (ys : List Ptr) → Turn v ys → Appends ys (f a v))
    → Appends xs (and_then r f)
Appends-bind xs (done a v) f (zs, t) next = append-weaken xs zs (f a v) (next a v (xs ++ zs) t)
Appends-bind xs (switch v k) f (q, rest) next =
    (q, λ u ys t. Appends-bind ys (k u) f (rest u ys t) next)
Appends-bind xs (exits n v) f p next = p
Appends-bind xs (aborts v) f p next = p
Appends-bind xs (out_of_fuel v) f p next = p

pub Turn-nil : (u : World) (ys : List Ptr) → Turn u ys → Turn u (ys ++ [])
Turn-nil u ys t = subst (Turn u) (sym (append-nil ys)) t

-- What `taskexit` writes is no link.
exiting-IsReady :
    (val : ℕ) (w : World) (ys : List Ptr)
    → IsReady w ys
    → IsReady
        (record w {
          taskexitval = val;
          task = update w.task w.taskrunning (record (w.task w.taskrunning) { exiting = true });
        })
        ys
exiting-IsReady val w ys q =
    IsQueue-frame w.task
      (update w.task w.taskrunning (record (w.task w.taskrunning) { exiting = true }))
      w.taskrunqueue ys (λ a i. ground arith) q

taskexit-Appends : (val : ℕ) (w : World) (ys : List Ptr) → Turn w ys → Appends ys (taskexit val w)
unfolding taskexit taskswitch needstack contextswitch
taskexit-Appends val w ys t =
    let v : World = record w {
      taskexitval = val;
      task = update w.task w.taskrunning (record (w.task w.taskrunning) { exiting = true });
    } in
    elim (Bool-cases (has_stack 0 v)) [
      | inl room ↦ rw room (
        ([], subst (IsReady v) (sym (append-nil ys)) (exiting-IsReady val w ys t.ready)),
        λ u zs t. ([], Turn-nil u zs t),
      )
      | inr full ↦ rw full tt
    ]

module _ (code : Code) (fair : Fair code) where
  taskstart-Appends :
      (words : ℕ × ℕ) (w : World) (xs : List Ptr) → Turn w xs → Appends xs (taskstart code words w)
  unfolding taskstart
  taskstart-Appends words w xs t =
      Appends-bind xs (code _ _ w) (λ _. taskexit 0) (fair _ _ w xs t)
        (λ a v ys t'. taskexit-Appends 0 v ys t')

  slice-Appends :
      (s : System) (t : Ptr) (w : World) (xs : List Ptr)
      → Tame s
      → Turn w xs
      → Appends xs (slice code s t w)
  unfolding slice
  slice-Appends s t w xs tame turn = from (s.resume t) refl
    where
      from :
          (o : Option (World → Flow (Unit {0})))
          → s.resume t ≡ o
          → Appends xs (elim o as (λ _. Flow (Unit {0})) [
            | none ↦ taskstart code (split_pointer t) w
            | some k ↦ k w
          ])
      from none e = taskstart-Appends (split_pointer t) w xs turn
      from (some k) e = tame t k e w xs turn

-- Neither is what the scheduler writes once a task has come back to it.
after_run-IsReady :
    (t : Ptr) (w : World) (xs : List Ptr) → IsReady w xs → IsReady (after_run t w) xs
unfolding after_run remove_alltask
after_run-IsReady t w xs q = elim (Bool-cases (w.task t).exiting) [
  | inl over ↦ elim (Bool-cases (w.task t).system) [
    | inl system ↦
        rw (over, system) (IsQueue-frame w.task _ w.taskrunqueue xs (λ a i. ground arith) q)
    | inr user ↦ rw (over, user) (IsQueue-frame w.task _ w.taskrunqueue xs (λ a i. ground arith) q)
  ]
  | inr goes_on ↦ rw goes_on (IsQueue-frame w.task w.task w.taskrunqueue xs (λ a i. (refl, refl)) q)
]

update-Tame :
    (s : System) (t : Ptr) (w : World) (o : Option (World → Flow (Unit {0})))
    → Tame s
    → ((k : World → Flow (Unit {0}))
        → o ≡ some k
        → (u : World) (ys : List Ptr) → Turn u ys
        → Appends ys (k u))
    → Tame (record { world = w; resume = update s.resume t o })
update-Tame s t w o tame new = λ p k e u ys turn. elim (Bool-cases (p == t)) [
  | inl same ↦ new k (rw same at e) u ys turn
  | inr other ↦ tame p k (rw other at e) u ys turn
]

-- The round in which `t` has its turn, unless the process is over.
abbrev pub Served : Ptr → Outcome → Type 0
Served t (runs s) = (schedule s.world ≡ run t (switch_to t s.world)) ⊎ (s.world.taskcount ≡ 0)
Served t (exited n) = Unit {0}
Served t aborted = Unit {0}

-- After a round, the tasks of `xs` are still ready, before others.
abbrev pub Forward : List Ptr → Outcome → Type 0
Forward xs (runs s) = Tame s × ((zs : List Ptr) × IsReady s.world (xs ++ zs))
Forward xs (exited n) = Unit {0}
Forward xs aborted = Unit {0}

resume_of : (World → Flow (Unit {0})) → Option (World → Flow (Unit {0})) → World → Flow (Unit {0})
resume_of k none = k
resume_of k (some k') = k'

-- A task that is not to end goes on as it was left.
kept-Appends :
    (ends : Bool) (k : World → Flow (Unit {0}))
    → ((u : World) (ys : List Ptr) → Turn u ys → Appends ys (k u))
    → (k' : World → Flow (Unit {0})) → (if ends then none else some k) ≡ some k'
    → (u : World) (ys : List Ptr) → Turn u ys
    → Appends ys (k' u)
unfolding resume_of
kept-Appends true k rest k' e = absurd (ground arith)
kept-Appends false k rest k' e =
    subst
      (λ (h : World → Flow (Unit {0})). (u : World) (ys : List Ptr) → Turn u ys → Appends ys (h u))
      (ap (resume_of k) e) rest

settle-Forward :
    (s : System) (t : Ptr) (r : Flow (Unit {0})) (xs : List Ptr)
    → Tame s
    → Appends xs r
    → Forward xs (settle s t r)
unfolding settle
settle-Forward s t (done a v) xs tame (zs, turn) = (
  update-Tame s t (after_run t v) none tame (λ k e. absurd (ground arith)),
  (zs, after_run-IsReady t v (xs ++ zs) turn.ready),
)
settle-Forward s t (switch v k) xs tame ((zs, q), rest) = (
  update-Tame s t (after_run t v) (if (v.task t).exiting then none else some k) tame
      (kept-Appends (v.task t).exiting k rest),
  (zs, after_run-IsReady t v (xs ++ zs) q),
)
settle-Forward s t (exits n v) xs tame p = tt
settle-Forward s t (aborts v) xs tame p = tt
settle-Forward s t (out_of_fuel v) xs tame p = tt

round-stop :
    (code : Code) (s : System) (n : ℕ) → schedule s.world ≡ stop n → round code s ≡ exited n
unfolding round
round-stop code s n e = rw (round, e) refl

round-run :
    (code : Code) (s : System) (t : Ptr) (w : World)
    → schedule s.world ≡ run t w
    → round code s ≡ settle s t (slice code s t w)
unfolding round
round-run code s t w e = rw (round, e) refl

module _ (code : Code) (fair : Fair code) where
  round-Forward :
      (s : System) (x : Ptr) (xs : List Ptr)
      → Tame s
      → IsReady s.world (x ∷ xs)
      → Forward xs (round code s)
  round-Forward s x xs tame q = elim (Bool-cases (s.world.taskcount == 0)) [
    | inl over ↦
        let e : schedule s.world ≡ stop s.world.taskexitval = unfold schedule in rw over refl in
        subst (Forward xs) (sym (round-stop code s s.world.taskexitval e)) tt
    | inr busy ↦
        let first = schedule-head s.world x xs (ground arith) q in
        let turn : Turn (switch_to x s.world) xs = record {
          ready = first.1;
          placed = rw first.2 (head-cons s.world.task s.world.taskrunqueue x xs q).1;
          out = rw first.2 q.chain.3;
        } in
        subst (Forward xs) (sym (round-run code s x (switch_to x s.world) first.0)) (
          settle-Forward s x (slice code s x (switch_to x s.world)) xs tame
            (slice-Appends code fair s x (switch_to x s.world) xs tame turn))
  ]

  -- A task that is ready behind n others has its turn after n rounds of the scheduler, unless
  -- the process is over by then. The functions of the tasks, and what is left of those that have
  -- begun, leave the ready tasks in their places whenever they run, and only put others behind
  -- them, as taskyield does.
  pub taskscheduler-Served :
      (s : System) (xs : List Ptr) (t : Ptr) (ys : List Ptr)
      → Tame s
      → IsReady s.world (xs ++ t ∷ ys)
      → Served t (taskscheduler code (length xs) s)
  unfolding taskscheduler
  taskscheduler-Served s [] t ys tame q = elim (Bool-cases (s.world.taskcount == 0)) [
    | inl over ↦ inr (ground arith)
    | inr busy ↦ inl (schedule-head s.world t ys (ground arith) q).0
  ]
  taskscheduler-Served s (x ∷ xs) t ys tame q =
      elim (round code s)
          as (λ o.
            Forward (xs ++ t ∷ ys) o
            → Served t (elim o as (λ _. Outcome) [
              | runs s' ↦ taskscheduler code (length xs) s'
              | exited k ↦ exited k
              | aborted ↦ aborted
            ])) [
              | runs s' ↦ λ f.
                  taskscheduler-Served s' xs t (ys ++ f.1.0) f.0
                    (subst (IsReady s'.world) (append_assoc xs (t ∷ ys) f.1.0) f.1.1)
              | exited k ↦ λ f. tt
              | aborted ↦ λ f. tt
            ]
        (round-Forward s x (xs ++ t ∷ ys) tame q)

with_state-IsReady :
    (text : String) (w : World) (xs : List Ptr) → IsReady w xs → IsReady (with_state text w) xs
unfolding with_state
with_state-IsReady text w xs q =
    IsQueue-frame w.task _ w.taskrunqueue xs (with_state-SameLinks text w xs) q

-- taskyield puts the task behind the others that are ready.
pub taskyield-Appends : (w : World) (xs : List Ptr) → Turn w xs → Appends xs (taskyield w)
unfolding taskyield taskready taskstate taskswitch needstack contextswitch
taskyield-Appends w xs t =
    let v = with_state "yield" (make_ready w.taskrunning w) in
    let q = make_ready-IsReady w.taskrunning w xs t.placed t.out t.ready in
    elim (Bool-cases (has_stack 0 v)) [
      | inl room ↦ rw room (
        (
          w.taskrunning ∷ [],
          with_state-IsReady "yield" (make_ready w.taskrunning w) (xs ++ w.taskrunning ∷ []) q,
        ),
        λ u zs t. ([], Turn-nil u zs t),
      )
      | inr full ↦ rw full tt
    ]

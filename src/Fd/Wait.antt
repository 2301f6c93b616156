-- ===== src/Fd/Wait.antt =====
-- A call of the system, and a wait for a file, as parts of what a function does: whatever the system
-- answers and the other tasks do, the function goes on.
use Prim.Native.Nat.{bit_or}
use libtask_annotation.Base.{
  ℕ, ◌-◌, ◌^◌, true, leb, ◌≡◌, ◌⊎◌, inl, inr, refl, ap, sym, ◌∙◌, List, ◌∷◌, arith,
}
use libtask_annotation.World.{Call, getfl, setfl, World}
use libtask_annotation.Flow.{
  Flow, Cmd, pure, abort, and_then, ◌>>=◌, ◌>>◌, Ends, Ends-bind, Ends-mono, if-Ends,
}
use libtask_annotation.Task.{taskready, needstack, contextswitch, taskswitch, taskstate}
use libtask_annotation.Task.Create.{taskalloc, grow_alltask, taskcreate}
use libtask_annotation.Fd.{start_fdtask, fdwait}
use libtask_annotation.Fd.Io.{Reply, fails, gives, Os, ask, note, wait_for, flags_of, fdnoblock}

-- The code comes to its end.
abbrev pub Stops : {A : Type 0} → Flow A → Type 0
Stops = Ends (λ _ _. Unit {0})

grow_alltask-Stops : (grown : ℕ) (w : World) → Stops (grow_alltask grown w)
unfolding grow_alltask
grow_alltask-Stops grown w = ground arith

taskalloc-Stops :
    (size fresh fn arg stack : ℕ) (w : World) → Stops (taskalloc size fresh fn arg stack w)
unfolding taskalloc
taskalloc-Stops size fresh fn arg stack w = ground arith

taskswitch-Stops : (w : World) → Stops (taskswitch w)
unfolding taskswitch needstack contextswitch
taskswitch-Stops w = ground arith

taskcreate-Stops :
    (size fresh grown fn arg stack : ℕ) (w : World)
    → Stops (taskcreate size fresh grown fn arg stack w)
unfolding taskcreate taskready
taskcreate-Stops size fresh grown fn arg stack w =
    Ends-bind _ _ (taskalloc size fresh fn arg stack w) _
      (taskalloc-Stops size fresh fn arg stack w)
      (λ t v p. Ends-bind _ _ (grow_alltask grown _) _ (grow_alltask-Stops grown _) (λ u x q. tt))

start_fdtask-Stops :
    (size fresh grown fn : ℕ) (w : World) → Stops (start_fdtask size fresh grown fn w)
unfolding start_fdtask
start_fdtask-Stops size fresh grown fn w = if-Ends _ w.startedfdtask (pure tt) _ w tt (
    Ends-bind _ _ (taskcreate size fresh grown fn 0 32768 (record w { startedfdtask = true })) _
      (taskcreate-Stops size fresh grown fn 0 32768 (record w { startedfdtask = true }))
      (λ t v p. tt))

fdwait-Stops :
    (pollin pollout size fresh grown fn fd rw : ℕ) (w : World)
    → Stops (fdwait pollin pollout size fresh grown fn fd rw w)
unfolding fdwait taskstate
fdwait-Stops pollin pollout size fresh grown fn fd rw w =
    Ends-bind _ _ (start_fdtask size fresh grown fn w) _ (start_fdtask-Stops size fresh grown fn w)
      (λ u v p. if-Ends _ (leb 1024 v.npollfd) abort _ v tt (taskswitch-Stops _))

note-Ends :
    {A : Type 0} (P : A → World → Type 0) (c : Call) (r : Reply) (f : Reply → Cmd A) (w : World)
    → ((v : World) → v.calls ≡ c ∷ w.calls → v.mem ≡ w.mem → Ends P (f r v))
    → Ends P (and_then (note c r w) f)
unfolding note
note-Ends P c (fails e) f w next = next _ refl refl
note-Ends P c (gives n) f w next = next _ refl refl

note-noted :
    (c : Call) (r : Reply) (w : World)
    → Ends (λ s v. (v.calls ≡ c ∷ w.calls) × (s ≡ r) × (v.mem ≡ w.mem)) (note c r w)
unfolding note
note-noted c (fails e) w = (refl, refl, refl)
note-noted c (gives n) w = (refl, refl, refl)

-- The flags that make `fd` nonblocking, behind the calls `cs`: what F_GETFL answers and O_NONBLOCK; or
-- -1, if F_GETFL fails.
abbrev pub Nonblocking : (os : Os) → (fd : ℕ) → (cs : List Call) → (flags : ℕ) → Type 0
Nonblocking os fd cs flags =
    ((n : ℕ) × (os.answer (getfl fd ∷ cs) ≡ gives n) × (flags ≡ bit_or n os.nonblock))
    ⊎ ((e : ℕ) × (os.answer (getfl fd ∷ cs) ≡ fails e) × (flags ≡ 2 ^ 32 - 1))

flags_of-Nonblocking :
    (os : Os) (fd : ℕ) (cs : List Call) (r : Reply)
    → os.answer (getfl fd ∷ cs) ≡ r
    → Nonblocking os fd cs (flags_of os r)
unfolding flags_of
flags_of-Nonblocking os fd cs (fails e) said = inr (e, said, refl)
flags_of-Nonblocking os fd cs (gives n) said = inl (n, said, refl)

fdnoblock-noted :
    (os : Os) (fd : ℕ) (w : World)
    → Ends
        (λ s v.
          (flags : ℕ) × Nonblocking os fd w.calls flags
          × (v.calls ≡ setfl fd flags ∷ getfl fd ∷ w.calls)
          × (v.mem ≡ w.mem))
        (fdnoblock os fd w)
unfolding fdnoblock ask
fdnoblock-noted os fd w =
    Ends-bind _ _ (note (getfl fd) (os.answer (getfl fd ∷ w.calls)) w) _
      (note-noted (getfl fd) (os.answer (getfl fd ∷ w.calls)) w)
      (λ s v p.
        Ends-mono _ _
          (note (setfl fd (flags_of os s)) (os.answer (setfl fd (flags_of os s) ∷ v.calls)) v)
          (λ r u q. (
            flags_of os s,
            flags_of-Nonblocking os fd w.calls s (sym p.1),
            q.0 ∙ ap (λ (cs : List Call). setfl fd (flags_of os s) ∷ cs) p.0,
            q.2 ∙ p.2,
          ))
          (note-noted _ _ v))

module _ {A : Type 0} (os : Os) (P : A → World → Type 0) where
  -- What a call answers, and what is noted of it.
  pub ask-Ends :
      (c : Call) (f : Reply → Cmd A) (w : World)
      → ((r : Reply) (v : World)
          → v.calls ≡ c ∷ w.calls
          → os.answer (c ∷ w.calls) ≡ r
          → v.mem ≡ w.mem
          → Ends P (f r v))
      → Ends P ((ask os c >>= f) w)
  unfolding ask
  ask-Ends c f w next =
      let r = os.answer (c ∷ w.calls) in note-Ends P c r f w (λ v e m. next r v e refl m)

  -- A call whose answer is not looked at.
  pub told-Ends :
      (c : Call) (f : Cmd A) (w : World)
      → ((v : World) → v.calls ≡ c ∷ w.calls → v.mem ≡ w.mem → Ends P (f v))
      → Ends P (((ask os c >> pure tt) >> f) w)
  unfolding ask
  told-Ends c f w next =
      let r = os.answer (c ∷ w.calls) in
      Ends-bind _ P (and_then (note c r w) (λ _. pure tt)) (λ _. f)
        (note-Ends (λ _ v. (v.calls ≡ c ∷ w.calls) × (v.mem ≡ w.mem)) c r (λ _. pure tt) w
          (λ v e m. (e, m)))
        (λ u v p. next v p.0 p.1)

  -- Whatever the other tasks do in the meantime.
  pub wait_for-Ends :
      (fd rw : ℕ) (f : Cmd A) (w : World)
      → ((v : World) → Ends P (f v))
      → Ends P ((wait_for os fd rw >> f) w)
  unfolding wait_for
  wait_for-Ends fd rw f w next =
      Ends-bind _ P (wait_for os fd rw w) (λ _. f)
        (fdwait-Stops os.pollin os.pollout os.sizeof_task os.fresh os.grown os.fdtask_fn fd rw w)
        (λ u v p. next v)

  pub fdnoblock-Ends :
      (fd : ℕ) (f : Cmd A) (w : World)
      → ((flags : ℕ) (v : World)
          → Nonblocking os fd w.calls flags
          → v.calls ≡ setfl fd flags ∷ getfl fd ∷ w.calls
          → v.mem ≡ w.mem
          → Ends P (f v))
      → Ends P ((fdnoblock os fd >> f) w)
  fdnoblock-Ends fd f w next =
      Ends-bind _ P (fdnoblock os fd w) (λ _. f) (fdnoblock-noted os fd w)
        (λ s v p. next p.0 v p.1 p.2 p.3)

-- ===== src/Flow.antt =====
-- Code that may give up the processor. A call of the library returns, switches to the scheduler
-- and goes on later in whatever state the process is in by then, or ends the process.
use libtask_annotation.Base.{ℕ, ◌≡◌, refl, ap, fun_ext, Bool, true, false, if◌then◌else◌}
use libtask_annotation.World.{World}

pub data Flow (A : Type 0) : Type 0 where
  done : A → World → Flow A
  -- `contextswitch(&taskrunning->context, &taskschedcontext)`, and what follows it.
  switch : World → (World → Flow A) → Flow A
  -- `exit(status)`
  exits : ℕ → World → Flow A
  -- `abort()`
  aborts : World → Flow A
  -- The fuel of a loop has run out: this stands for no behaviour of the code.
  out_of_fuel : World → Flow A

abbrev pub Cmd : Type 0 → Type 0
Cmd A = World → Flow A

abbrev pub pure : {A : Type 0} → A → Cmd A
pure = done

abbrev pub abort : {A : Type 0} → Cmd A
abort = aborts

abbrev pub exit : {A : Type 0} → ℕ → Cmd A
exit = exits

module _ {A B : Type 0} where
  abbrev pub and_then : Flow A → (A → Cmd B) → Flow B
  and_then (done a w) f = f a w
  and_then (switch w k) f = switch w (λ v. and_then (k v) f)
  and_then (exits n w) f = exits n w
  and_then (aborts w) f = aborts w
  and_then (out_of_fuel w) f = out_of_fuel w

  infixl 5 ◌>>=◌ ◌>>◌
  abbrev pub ◌>>=◌ : Cmd A → (A → Cmd B) → Cmd B
  m >>= f = λ w. and_then (m w) f

  abbrev pub ◌>>◌ : Cmd A → Cmd B → Cmd B
  m >> k = m >>= λ _. k

-- The state, as a value.
abbrev pub get : Cmd World
get w = done w w

abbrev pub put : World → Cmd (Unit {0})
put w _ = done tt w

abbrev pub modify : (World → World) → Cmd (Unit {0})
modify f w = done tt (f w)

module _ {A : Type 0} where
  -- The code returns, without a switch, and what it returns meets `P`.
  abbrev pub Returns : (A → World → Type 0) → Flow A → Type 0
  Returns P (done a w) = P a w
  Returns P (switch w k) = ⊥
  Returns P (exits n w) = ⊥
  Returns P (aborts w) = ⊥
  Returns P (out_of_fuel w) = ⊥

  -- The code gives up the processor in a state that meets `P`, and goes on as `P` says.
  abbrev pub Switches : (World → (World → Flow A) → Type 0) → Flow A → Type 0
  Switches P (done a w) = ⊥
  Switches P (switch w k) = P w k
  Switches P (exits n w) = ⊥
  Switches P (aborts w) = ⊥
  Switches P (out_of_fuel w) = ⊥

  -- Whatever the other tasks do in between, the code comes to its end or ends the process, and what
  -- it returns meets `P`.
  abbrev pub Ends : (A → World → Type 0) → Flow A → Type 0
  Ends P (done a w) = P a w
  Ends P (switch w k) = (v : World) → Ends P (k v)
  Ends P (exits n w) = Unit {0}
  Ends P (aborts w) = Unit {0}
  Ends P (out_of_fuel w) = ⊥

  -- The process ends by `abort`.
  abbrev pub Aborts : Flow A → Type 0
  Aborts (done a w) = ⊥
  Aborts (switch w k) = ⊥
  Aborts (exits n w) = ⊥
  Aborts (aborts w) = Unit {0}
  Aborts (out_of_fuel w) = ⊥

pub Returns-bind :
    {A B : Type 0} (P : A → World → Type 0) (Q : B → World → Type 0) (r : Flow A) (f : A → Cmd B)
    → Returns P r
    → ((a : A) (w : World) → P a w → Returns Q (f a w))
    → Returns Q (and_then r f)
Returns-bind P Q (done a w) f p next = next a w p
Returns-bind P Q (switch w k) f p next = p
Returns-bind P Q (exits n w) f p next = p
Returns-bind P Q (aborts w) f p next = p
Returns-bind P Q (out_of_fuel w) f p next = p

pub Switches-bind :
    {A B : Type 0} (P : A → World → Type 0) (Q : World → (World → Flow B) → Type 0) (r : Flow A)
    (f : A → Cmd B)
    → Returns P r
    → ((a : A) (w : World) → P a w → Switches Q (f a w))
    → Switches Q (and_then r f)
Switches-bind P Q (done a w) f p next = next a w p
Switches-bind P Q (switch w k) f p next = absurd p
Switches-bind P Q (exits n w) f p next = p
Switches-bind P Q (aborts w) f p next = p
Switches-bind P Q (out_of_fuel w) f p next = p

pub Returns-both :
    {A : Type 0} (P Q : A → World → Type 0) (r : Flow A)
    → Returns P r
    → Returns Q r
    → Returns (λ a w. P a w × Q a w) r
Returns-both P Q (done a w) p q = (p, q)
Returns-both P Q (switch w k) p q = p
Returns-both P Q (exits n w) p q = p
Returns-both P Q (aborts w) p q = p
Returns-both P Q (out_of_fuel w) p q = p

pub Ends-bind :
    {A B : Type 0} (P : A → World → Type 0) (Q : B → World → Type 0) (r : Flow A) (f : A → Cmd B)
    → Ends P r
    → ((a : A) (w : World) → P a w → Ends Q (f a w))
    → Ends Q (and_then r f)
Ends-bind P Q (done a w) f p next = next a w p
Ends-bind P Q (switch w k) f p next = λ v. Ends-bind P Q (k v) f (p v) next
Ends-bind P Q (exits n w) f p next = p
Ends-bind P Q (aborts w) f p next = p
Ends-bind P Q (out_of_fuel w) f p next = p

pub if-Ends :
    {A : Type 0} (P : A → World → Type 0) (b : Bool) (m k : Cmd A) (w : World)
    → Ends P (m w)
    → Ends P (k w)
    → Ends P ((if b then m else k) w)
if-Ends P true m k w p q = p
if-Ends P false m k w p q = q

pub Returns-mono :
    {A : Type 0} (P Q : A → World → Type 0) (r : Flow A)
    → ((a : A) (w : World) → P a w → Q a w)
    → Returns P r
    → Returns Q r
Returns-mono P Q (done a w) weaken p = weaken a w p
Returns-mono P Q (switch w k) weaken p = p
Returns-mono P Q (exits n w) weaken p = p
Returns-mono P Q (aborts w) weaken p = p
Returns-mono P Q (out_of_fuel w) weaken p = p

pub Ends-mono :
    {A : Type 0} (P Q : A → World → Type 0) (r : Flow A)
    → ((a : A) (w : World) → P a w → Q a w)
    → Ends P r
    → Ends Q r
Ends-mono P Q (done a w) weaken p = weaken a w p
Ends-mono P Q (switch w k) weaken p = λ v. Ends-mono P Q (k v) weaken (p v)
Ends-mono P Q (exits n w) weaken p = p
Ends-mono P Q (aborts w) weaken p = p
Ends-mono P Q (out_of_fuel w) weaken p = p

pub and_then_assoc :
    {A B C : Type 0} (r : Flow A) (f : A → Cmd B) (g : B → Cmd C)
    → and_then (and_then r f) g ≡ and_then r (λ a w. and_then (f a w) g)
and_then_assoc (done a w) f g = refl
and_then_assoc (switch w k) f g = ap (switch w) (fun_ext (λ v. and_then_assoc (k v) f g))
and_then_assoc (exits n w) f g = refl
and_then_assoc (aborts w) f g = refl
and_then_assoc (out_of_fuel w) f g = refl

-- ===== src/Channel/Alts.antt =====
-- `altexec`, `chanalt` and the functions built on it, of channel.c. An array of `Alt`s is a run of
-- pointers, `a[i]` at `a + i`; `fuel` bounds the length of the arrays. `rand` is the C library's:
-- its draws are a parameter.
use libtask_annotation.Base.{
  ℕ, zero, suc, ◌+◌, ◌-◌, ◌%◌, Ptr, Bool, true, false, Option, none, some, not, update, ◌==◌,
  if◌then◌else◌, ◌&&◌,
}
use libtask_annotation.World.{Alt, Altarray, World}
use libtask_annotation.Flow.{Cmd, done, out_of_fuel, pure, get, modify, ◌>>=◌, ◌>>◌}
use libtask_annotation.Task.{taskready, taskswitch, needstack}
use libtask_annotation.Channel.{
  chanend, chansnd, chanrcv, channop, channoblk, otherop, chanarray, altcanexec, altqueue,
  altalldequeue, altcopy, is_last,
}

-- The number of entries before the one that ends the array.
unfoldable pub alts_len : (fuel : ℕ) → World → Ptr → Option ℕ
alts_len zero w a = none
alts_len (suc fuel) w a =
    let rest : Option ℕ = elim (alts_len fuel w (a + 1)) [ none ↦ none | some n ↦ some (suc n) ] in
    if is_last (w.alts a).op then some 0 else rest

-- `for(i=0; i<n; i++){ a[i].task = t; a[i].xalt = base; }`, from `a` on.
unfoldable pub mark : (n : ℕ) → (a base t : Ptr) → (Ptr → Alt) → Ptr → Alt
mark zero a base t f = f
mark (suc n) a base t f =
    mark n (a + 1) base t (update f a (record (f a) { task = t; xalt = base }))

-- `ncan`: how many of the `n` entries from `a` on can be carried out.
unfoldable pub count_can : (n : ℕ) → World → Ptr → ℕ
count_can zero w a = 0
count_can (suc n) w a = (if altcanexec w a then 1 else 0) + count_can n w (a + 1)

-- The index, counted from `i`, of the entry at which the loop finds `j-- == 0`.
unfoldable pub nth_can : (n : ℕ) → World → Ptr → (i j : ℕ) → Option ℕ
nth_can zero w a i j = none
nth_can (suc n) w a i j =
    if altcanexec w a && (j == 0)
    then some i
    else nth_can n w (a + 1) (i + 1) (if altcanexec w a then j - 1 else j)

-- `for(i=0; i<n; i++) if(a[i].op != CHANNOP) altqueue(&a[i]);`
unfoldable pub queue_all : (n : ℕ) → Ptr → Cmd (Unit {0})
queue_all zero a = pure tt
queue_all (suc n) a = do
  w ← get
  if (w.alts a).op == channop then pure tt else altqueue a
  queue_all n (a + 1)

-- `other->xalt[0].xalt = other`
unfoldable pub set_chosen : Ptr → World → World
set_chosen other w =
    let base = (w.alts other).xalt in
    record w { alts = update w.alts base (record (w.alts base) { xalt = other }) }

-- What `chanalt` does when no entry can be carried out: `none` is -1.
unfoldable pub alt_wait : (n : ℕ) → Ptr → Cmd (Option ℕ)
alt_wait n a = do
  w ← get
  if not ((w.alts (a + n)).op == chanend)
      then pure none
      else do queue_all n a; taskswitch; v ← get; pure (some ((v.alts a).xalt - a))

unfoldable pub or_wait : (n : ℕ) → Ptr → Option ℕ → Cmd (Option ℕ)
or_wait n a none = alt_wait n a
or_wait n a (some i) = pure (some i)

-- The array of `_chanop`.
unfoldable pub with_alts : (frame c : Ptr) (op p : ℕ) (canblock : Bool) → World → World
with_alts frame c op p canblock w =
    let first = update w.alts frame (record (w.alts frame) { c = c; op = op; v = p }) in
    record w {
      alts =
          update first (frame + 1)
            (record (first (frame + 1)) { op = if canblock then chanend else channoblk });
    }

module _ (rand : ℕ → ℕ) (fuel : ℕ) where
  unfoldable pub draw : Cmd ℕ
  draw w = done (rand w.draws) (record w { draws = w.draws + 1 })

  -- The operation `a` meets the waiting operation `other`.
  unfoldable pub meet : (a other : Ptr) → Cmd (Unit {0})
  meet a other = do
    altcopy a other
    w ← get
    altalldequeue fuel (w.alts other).xalt
    modify (set_chosen other)
    v ← get
    taskready (v.alts other).task

  -- `altexec`, given the array of the operations that wait to do the other.
  unfoldable pub exec_against : Ptr → Option Altarray → Cmd (Unit {0})
  exec_against a none = altcopy a 0
  exec_against a (some ar) =
      if ar.n == 0 then altcopy a 0 else (do r ← draw; meet a (ar.a (r % ar.n)))

  unfoldable pub altexec : Ptr → Cmd (Unit {0})
  altexec a = do w ← get; exec_against a (chanarray (w.chans (w.alts a).c) (otherop (w.alts a).op))

  -- `altexec(&a[i]); return i;`, if the loop has found an entry.
  unfoldable pub exec_at : Ptr → Option ℕ → Cmd (Option ℕ)
  exec_at a none = pure none
  exec_at a (some i) = do altexec (a + i); pure (some i)

  -- The loop that picks an entry, at random among those that can be carried out.
  unfoldable pub exec_one : (n : ℕ) → Ptr → Cmd (Option ℕ)
  exec_one n a = do
    w ← get
    if count_can n w a == 0
        then pure none
        else do r ← draw; v ← get; exec_at a (nth_can n v a 0 (r % count_can n w a))

  -- `chanalt`, once the length of the array is known.
  unfoldable pub alt_body : Option ℕ → Ptr → Cmd (Option ℕ)
  alt_body none a = out_of_fuel
  alt_body (some n) a = do
    modify (λ v. record v { alts = mark n a a v.taskrunning v.alts })
    ran ← exec_one n a
    or_wait n a ran

  unfoldable pub chanalt : Ptr → Cmd (Option ℕ)
  chanalt a = do needstack 512; w ← get; alt_body (alts_len fuel w a) a

  -- `_chanop`; `frame` is where its array of two `Alt`s lies. `true` is 1 and `false` is -1.
  unfoldable pub chanop : (frame c : Ptr) (op p : ℕ) (canblock : Bool) → Cmd Bool
  chanop frame c op p canblock = do
    modify (with_alts frame c op p canblock)
    i ← chanalt frame
    elim i [ none ↦ pure false | some _ ↦ pure true ]

  unfoldable pub chansend : (frame c : Ptr) (v : ℕ) → Cmd Bool
  chansend frame c v = chanop frame c chansnd v true

  unfoldable pub channbsend : (frame c : Ptr) (v : ℕ) → Cmd Bool
  channbsend frame c v = chanop frame c chansnd v false

  unfoldable pub chanrecv : (frame c : Ptr) (v : ℕ) → Cmd Bool
  chanrecv frame c v = chanop frame c chanrcv v true

  unfoldable pub channbrecv : (frame c : Ptr) (v : ℕ) → Cmd Bool
  channbrecv frame c v = chanop frame c chanrcv v false

-- ===== src/Rwlock/Exclusive.antt =====
-- Tasks that use one `RWLock`, as interleaved steps on what the lock stands for. Rwlock/Uses relates
-- the functions of qlock.c to these steps.
use libtask_annotation.Base.{
  ℕ, suc, ◌≡◌, ◌≢◌, ◌⊎◌, inl, inr, refl, Ptr, List, [], ◌∷◌, ◌++◌, arith, ◌==◌, length, Bool-cases,
  ℕ_discrete,
}
use libtask_annotation.Rwlock.Handover.{View, next_in, settled}

pub data Move : View → View → Type 0 where
  -- `rlock` or `canrlock` of a lock that no task writes or waits to write
  reads :
      (s : View) → s.writer ≡ 0 → s.wwaiting ≡ [] → Move s (record s { readers = suc s.readers })
  -- `rlock` of another
  waits_to_read :
      (s : View) (t : Ptr)
      → t ≢ 0
      → (s.writer ≢ 0) ⊎ (s.wwaiting ≢ [])
      → Move s (record s { rwaiting = s.rwaiting ++ t ∷ [] })
  -- `wlock` or `canwlock` of a lock that no task writes or reads
  writes :
      (s : View) (t : Ptr) → t ≢ 0 → s.writer ≡ 0 → s.readers ≡ 0 → Move s (record s { writer = t })
  -- `wlock` of another
  waits_to_write :
      (s : View) (t : Ptr)
      → t ≢ 0
      → (s.writer ≢ 0) ⊎ (s.readers ≢ 0)
      → Move s (record s { wwaiting = s.wwaiting ++ t ∷ [] })
  -- `runlock`
  ends_reading :
      (s : View) (k : ℕ) → s.readers ≡ suc k → Move s (settled (record s { readers = k }))
  -- `wunlock`
  ends_writing :
      (s : View)
      → s.writer ≢ 0
      → Move s (
          settled (record s {
            writer = 0;
            rwaiting = [];
            readers = length s.rwaiting;
            ready = s.ready ++ s.rwaiting;
          }))
  -- Ready tasks come and go.
  others : (s : View) (rs : List Ptr) → Move s (record s { ready = rs })

-- The tasks that wait to write are tasks.
abbrev AllTasks : List Ptr → Type 0
AllTasks [] = Unit
AllTasks (t ∷ ts) = (t ≢ 0) × AllTasks ts

pub record Exclusive (s : View) : Type 0 where
  -- A writer is alone.
  pub alone : s.writer ≢ 0 → s.readers ≡ 0
  -- A task waits to write only while another writes or reads.
  pub wheld : s.wwaiting ≢ [] → (s.writer ≢ 0) ⊎ (s.readers ≢ 0)
  -- A task waits to read only while another writes, or waits to.
  pub rheld : s.rwaiting ≢ [] → (s.writer ≢ 0) ⊎ (s.wwaiting ≢ [])
  pub tasks : AllTasks s.wwaiting

snoc≢nil : (t : Ptr) (ts : List Ptr) → (ts ++ t ∷ []) ≢ []
snoc≢nil t [] = cc
snoc≢nil t (x ∷ xs) = cc

AllTasks-snoc : (ts : List Ptr) (t : Ptr) → t ≢ 0 → AllTasks ts → AllTasks (ts ++ t ∷ [])
AllTasks-snoc [] t ne a = (ne, tt)
AllTasks-snoc (x ∷ xs) t ne a = (a.0, AllTasks-snoc xs t ne a.1)

-- A lock without a writer and without readers lets a writer in.
next_in-Exclusive :
    (s : View) (ws : List Ptr)
    → s.readers ≡ 0
    → s.wwaiting ≡ ws
    → AllTasks ws
    → (s.rwaiting ≢ [] → ws ≢ [])
    → Exclusive (next_in ws s)
next_in-Exclusive s [] none e tasks rheld = record {
  alone = λ ne. none;
  wheld = λ ne. absurd (ne e);
  rheld = λ ne. absurd (rheld ne refl);
  tasks = rw e tt;
}
next_in-Exclusive s (t ∷ ts) none e tasks rheld = record {
  alone = λ ne. none;
  wheld = λ ne. inl tasks.0;
  rheld = λ ne. inl tasks.0;
  tasks = tasks.1;
}

-- A lock without a writer settles to one that excludes.
settled-Exclusive :
    (s : View)
    → s.writer ≡ 0
    → AllTasks s.wwaiting
    → (s.rwaiting ≢ [] → s.wwaiting ≢ [])
    → Exclusive (settled s)
settled-Exclusive s free tasks rheld = elim (Bool-cases (s.readers == 0)) [
  | inl none ↦ rw none (next_in-Exclusive s s.wwaiting (ground arith) refl tasks rheld)
  | inr some ↦ rw some (record {
    alone = λ ne. absurd (ne free);
    wheld = λ ne. inr (ground arith);
    rheld = λ ne. inr (rheld ne);
    tasks = tasks;
  })
]

Move-Exclusive : {s t : View} → Move s t → Exclusive s → Exclusive t
Move-Exclusive (reads s free none) v = record {
  alone = λ ne. absurd (ne free);
  wheld = λ ne. absurd (ne none);
  rheld = v.rheld;
  tasks = v.tasks;
}
Move-Exclusive (waits_to_read s t ne held) v = record {
  alone = v.alone;
  wheld = v.wheld;
  rheld = λ _. held;
  tasks = v.tasks;
}
Move-Exclusive (writes s t ne free none) v = record {
  alone = λ _. none;
  wheld = λ _. inl ne;
  rheld = λ _. inl ne;
  tasks = v.tasks;
}
Move-Exclusive (waits_to_write s t ne held) v = record {
  alone = v.alone;
  wheld = λ _. held;
  rheld = λ _. inr (snoc≢nil t s.wwaiting);
  tasks = AllTasks-snoc s.wwaiting t ne v.tasks;
}
Move-Exclusive (ends_reading s k e) v =
    let free : s.writer ≡ 0 = elim (ℕ_discrete s.writer 0) [
      | yes free ↦ free
      | no held ↦ let none = v.alone held in absurd (omega arith)
    ] in
    settled-Exclusive (record s { readers = k }) free v.tasks
      (λ ne. elim (v.rheld ne) [ inl held ↦ absurd (held free) | inr some ↦ some ])
Move-Exclusive (ends_writing s held) v =
    settled-Exclusive
      (record s {
        writer = 0;
        rwaiting = [];
        readers = length s.rwaiting;
        ready = s.ready ++ s.rwaiting;
      })
      refl v.tasks (λ ne. absurd (ne refl))
Move-Exclusive (others s rs) v = record {
  alone = v.alone;
  wheld = v.wheld;
  rheld = v.rheld;
  tasks = v.tasks;
}

-- The states that a lock comes to, from a free one.
pub data Moves : View → Type 0 where
  start :
      (rs : List Ptr)
      → Moves (record { readers = 0; writer = 0; rwaiting = []; wwaiting = []; ready = rs })
  later : {s t : View} → Moves s → Move s t → Moves t

-- A lock that has come to be as it is by these steps excludes.
pub Moves-Exclusive : {s : View} → Moves s → Exclusive s
Moves-Exclusive (start rs) = record {
  alone = λ ne. refl;
  wheld = λ ne. absurd (ne refl);
  rheld = λ ne. absurd (ne refl);
  tasks = tt;
}
Moves-Exclusive (later r m) = Move-Exclusive m (Moves-Exclusive r)

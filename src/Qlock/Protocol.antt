-- ===== src/Qlock/Protocol.antt =====
-- Tasks that use one `QLock`, as interleaved steps on what the lock promises, where only the owner
-- unlocks. Qlock/Runs relates the functions of qlock.c to these steps.
use libtask_annotation.Base.{
  ◌≡◌, ◌≢◌, ◌⊎◌, refl, Ptr, Bool, true, false, List, [], ◌∷◌, ◌++◌, arith, ◌∈◌, ◌∉◌, update,
  has-append, IsDistinct, IsDistinct-snoc, subst,
}
use libtask_annotation.Qlock.Spec.{Lock, taken, queued, hand_over, released}

-- `running` is 0 while the scheduler runs; `parked t` says that `t` is inside `_qlock`, behind
-- its `taskswitch`.
pub record Tasks : Type 0 where
  pub lock : Lock
  pub running : Ptr
  pub parked : Ptr → Bool

-- What the running task may do only when it is not inside `_qlock`.
abbrev pub IsFree : Tasks → Type 0
IsFree c = (c.running ≢ 0) × (c.parked c.running ≡ false)

pub data Step : Tasks → Tasks → Type 0 where
  -- `qlock` or `canqlock` of a free lock
  lock :
      (c : Tasks)
      → IsFree c
      → c.lock.owner ≡ 0
      → Step c (record c { lock = taken c.running c.lock })
  -- `qlock` of a lock that is held
  wait :
      (c : Tasks)
      → IsFree c
      → c.lock.owner ≢ 0
      → Step c (record c {
        lock = queued c.running c.lock;
        running = 0;
        parked = update c.parked c.running true;
      })
  -- `qunlock`
  unlock :
      (c : Tasks)
      → IsFree c
      → c.lock.owner ≡ c.running
      → Step c (record c { lock = released c.lock })
  -- `taskyield`
  yields :
      (c : Tasks)
      → IsFree c
      → Step c (record c {
        lock = record c.lock { ready = c.lock.ready ++ c.running ∷ [] };
        running = 0;
      })
  -- The task waits for something else, or ends.
  leave : (c : Tasks) → IsFree c → Step c (record c { running = 0 })
  -- A task that waits for something else, or is new, is made ready.
  wake :
      (c : Tasks) (t : Ptr)
      → t ≢ 0
      → t ≢ c.running
      → t ∉ c.lock.ready
      → c.parked t ≡ false
      → Step c (record c { lock = record c.lock { ready = c.lock.ready ++ t ∷ [] } })
  -- `taskscheduler` runs the first task that is ready.
  dispatch :
      (c : Tasks) (t : Ptr) (ts : List Ptr)
      → c.running ≡ 0
      → c.lock.ready ≡ t ∷ ts
      → Step c (record c { lock = record c.lock { ready = ts }; running = t })
  -- `_qlock` goes on behind its `taskswitch`, and finds itself the owner.
  resume :
      (c : Tasks)
      → c.running ≢ 0
      → c.parked c.running ≡ true
      → c.lock.owner ≡ c.running
      → Step c (record c { parked = update c.parked c.running false })

pub record Inv (c : Tasks) : Type 0 where
  -- A free lock has no tasks waiting.
  pub idle : c.lock.owner ≡ 0 → c.lock.waiting ≡ []
  pub distinct : IsDistinct c.lock.waiting
  pub apart :
      (a : Ptr)
      → a ∈ c.lock.waiting
      → (a ∉ c.lock.ready) × (a ≢ c.running) × (c.parked a ≡ true) × (a ≢ 0)
  pub owned :
      (a : Ptr)
      → c.parked a ≡ true
      → (a ∈ c.lock.waiting) ⊎ ((c.lock.owner ≡ a) × ((a ∈ c.lock.ready) ⊎ (c.running ≡ a)))
  pub alive : (a : Ptr) → c.parked a ≡ true → a ≢ 0
  pub ready : IsDistinct c.lock.ready
  pub nonzero : (a : Ptr) → a ∈ c.lock.ready → (a ≢ 0) × (a ≢ c.running)

lock-Inv :
    (c : Tasks)
    → IsFree c
    → c.lock.owner ≡ 0
    → Inv c
    → Inv (record c { lock = taken c.running c.lock })
lock-Inv c fr free v = record {
  idle = λ e. absurd (fr.0 e);
  distinct = v.distinct;
  apart = v.apart;
  owned = λ a p. ground (arith, v.owned a, v.apart a, v.nonzero a, v.idle);
  alive = λ a p. ground (arith, v.alive a);
  ready = v.ready;
  nonzero = v.nonzero;
}

wait-Inv :
    (c : Tasks)
    → IsFree c
    → c.lock.owner ≢ 0
    → Inv c
    → Inv (record c {
      lock = queued c.running c.lock;
      running = 0;
      parked = update c.parked c.running true;
    })
wait-Inv c fr held v = record {
  idle = λ e. absurd (held e);
  distinct =
      IsDistinct-snoc c.lock.waiting c.running v.distinct (ground (arith, v.apart c.running));
  apart =
      λ a i. ground (arith, v.apart a, v.nonzero a, has-append a c.lock.waiting (c.running ∷ []));
  owned = λ a p. ground (arith, v.owned a, has-append a c.lock.waiting (c.running ∷ []));
  alive = λ a p. ground (arith, v.alive a);
  ready = v.ready;
  nonzero = λ a i. ground (arith, v.nonzero a);
}

unlock-Inv :
    (c : Tasks) (ws : List Ptr)
    → IsFree c
    → c.lock.owner ≡ c.running
    → c.lock.waiting ≡ ws
    → Inv c
    → Inv (record c { lock = hand_over ws c.lock })
unlock-Inv c [] fr own e v = record {
  idle = λ _. e;
  distinct = v.distinct;
  apart = v.apart;
  owned = λ a p. ground (arith, v.owned a);
  alive = λ a p. ground (arith, v.alive a);
  ready = v.ready;
  nonzero = v.nonzero;
}
unlock-Inv c (t ∷ ws) fr own e v =
    let d : IsDistinct (t ∷ ws) = subst IsDistinct e v.distinct in
    let out : (a : Ptr)
        → a ∈ (t ∷ ws)
        → (a ∉ c.lock.ready) × (a ≢ c.running) × (c.parked a ≡ true) × (a ≢ 0) =
      λ a i. v.apart a (rw e i) in
    let first = out t (ground arith) in
    record {
      idle = λ z. absurd (first.3 z);
      distinct = d.1;
      apart = λ a i. ground (arith, out a, d.0, has-append a c.lock.ready (t ∷ []));
      owned = λ a p. ground (arith, rw e at (v.owned a p), has-append a c.lock.ready (t ∷ []));
      alive = λ a p. ground (arith, v.alive a);
      ready = IsDistinct-snoc c.lock.ready t v.ready first.0;
      nonzero = λ a i. ground (arith, v.nonzero a, first, has-append a c.lock.ready (t ∷ []));
    }

Step-Inv : {c d : Tasks} → Step c d → Inv c → Inv d
Step-Inv (lock c fr free) v = lock-Inv c fr free v
Step-Inv (wait c fr held) v = wait-Inv c fr held v
Step-Inv (unlock c fr own) v = unlock-Inv c c.lock.waiting fr own refl v
Step-Inv (yields c fr) v = record {
  idle = v.idle;
  distinct = v.distinct;
  apart = λ a i. ground (arith, v.apart a, has-append a c.lock.ready (c.running ∷ []));
  owned = λ a p. ground (arith, v.owned a, has-append a c.lock.ready (c.running ∷ []));
  alive = λ a p. ground (arith, v.alive a);
  ready = IsDistinct-snoc c.lock.ready c.running v.ready (ground (arith, v.nonzero c.running));
  nonzero = λ a i. ground (arith, v.nonzero a, has-append a c.lock.ready (c.running ∷ []));
}
Step-Inv (leave c fr) v = record {
  idle = v.idle;
  distinct = v.distinct;
  apart = λ a i. ground (arith, v.apart a);
  owned = λ a p. ground (arith, v.owned a);
  alive = λ a p. ground (arith, v.alive a);
  ready = v.ready;
  nonzero = λ a i. ground (arith, v.nonzero a);
}
Step-Inv (wake c t ne other out awake) v = record {
  idle = v.idle;
  distinct = v.distinct;
  apart = λ a i. ground (arith, v.apart a, has-append a c.lock.ready (t ∷ []));
  owned = λ a p. ground (arith, v.owned a, has-append a c.lock.ready (t ∷ []));
  alive = λ a p. ground (arith, v.alive a);
  ready = IsDistinct-snoc c.lock.ready t v.ready out;
  nonzero = λ a i. ground (arith, v.nonzero a, has-append a c.lock.ready (t ∷ []));
}
Step-Inv (dispatch c t ts idle r) v =
    let d : IsDistinct (t ∷ ts) = subst IsDistinct r v.ready in
    let first = v.nonzero t (rw r (ground arith)) in
    record {
      idle = v.idle;
      distinct = v.distinct;
      apart = λ a i. let o = rw r at (v.apart a i) in ground arith;
      owned = λ a p. let o = rw r at (v.owned a p) in ground (arith, v.alive a);
      alive = λ a p. ground (arith, v.alive a);
      ready = d.1;
      nonzero =
          λ a i. let o : a ∈ (t ∷ ts) = ground arith in ground (arith, v.nonzero a (rw r o), d.0);
    }
Step-Inv (resume c ne inside own) v = record {
  idle = v.idle;
  distinct = v.distinct;
  apart = λ a i. ground (arith, v.apart a);
  owned = λ a p. ground (arith, v.owned a);
  alive = λ a p. ground (arith, v.alive a);
  ready = v.ready;
  nonzero = v.nonzero;
}

pub data Reach : Tasks → Type 0 where
  -- The lock is free, no task waits for it, and the tasks `ts` are ready.
  start :
      (ts : List Ptr)
      → IsDistinct ts
      → ((a : Ptr) → a ∈ ts → a ≢ 0)
      → Reach (record {
        lock = record { owner = 0; waiting = []; ready = ts };
        running = 0;
        parked = λ _. false;
      })
  later : {c d : Tasks} → Reach c → Step c d → Reach d

pub Reach-Inv : {c : Tasks} → Reach c → Inv c
Reach-Inv (start ts d ne) = record {
  idle = λ _. refl;
  distinct = tt;
  apart = λ a i. cc;
  owned = λ a p. cc;
  alive = λ a p. cc;
  ready = d;
  nonzero = λ a i. (ne a i, ne a i);
}
Reach-Inv (later r s) = Step-Inv s (Reach-Inv r)

-- A task that comes back from its wait is the owner.
pub resumed-owner :
    {c : Tasks} → Reach c → c.running ≢ 0 → c.parked c.running ≡ true → c.lock.owner ≡ c.running
resumed-owner {c} r ne inside =
    let v = Reach-Inv r in ground (arith, v.owned c.running, v.apart c.running)

-- A task that waits is in the queue of a held lock, or is the owner and ready or running.
pub parked-served :
    {c : Tasks} (t : Ptr)
    → Reach c
    → c.parked t ≡ true
    → ((t ∈ c.lock.waiting) × (c.lock.owner ≢ 0))
      ⊎ ((c.lock.owner ≡ t) × ((t ∈ c.lock.ready) ⊎ (c.running ≡ t)))
parked-served {c} t r p = let v = Reach-Inv r in ground (arith, v.owned t p, v.idle)

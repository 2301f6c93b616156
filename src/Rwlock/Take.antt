-- ===== src/Rwlock/Take.antt =====
-- How tasks take an `RWLock`, or wait for it.
use libtask_annotation.Base.{
  ◌≡◌, ◌≢◌, ◌⊎◌, inl, inr, refl, Ptr, true, false, List, [], ◌∷◌, ◌++◌, arith, has-append, ◌==◌,
  ==_refl, inc32, ◌∉◌, Bool-cases, ◌&&◌, String,
}
use libtask_annotation.World.{World, Tasklist}
use libtask_annotation.Flow.{Returns, Switches, done}
use libtask_annotation.Tasklist.{Tasks, addtask}
use libtask_annotation.Tasklist.Links.{IsQueue, IsQueue-frame, addtask-snoc, head-nil, head-cons}
use libtask_annotation.Tasklist.Frame.{addtask-SameLinks}
use libtask_annotation.Task.{has_stack, with_state}
use libtask_annotation.Task.Switch.{with_state-SameLinks, park_lem}
use libtask_annotation.Rwlock.{wait_read, wait_write, rlock_core, canrlock, wlock_core, canwlock}
use libtask_annotation.Rwlock.Handover.{View, IsRwlock}

-- Whether a task waits to write is seen at the head of the list.
pub head-empty :
    (m : Tasks) (l : Tasklist) (ts : List Ptr)
    → IsQueue m l ts
    → ((l.head ≡ 0) × (ts ≡ [])) ⊎ ((l.head ≢ 0) × (ts ≢ []))
head-empty m l [] q = inl (head-nil m l q, refl)
head-empty m l (t ∷ ts) q = let (head, ne) = head-cons m l t ts q in inr (rw head ne, λ e. cc)

-- canrlock never waits: it adds a reader to a lock that no task writes or waits to write, and
-- changes nothing otherwise.
pub canrlock-cases :
    (l : Ptr) (w : World) (s : View)
    → IsRwlock w l s
    → Returns
        (λ got v.
          ((s.writer ≡ 0)
            × (s.wwaiting ≡ [])
            × (got ≡ true)
            × IsRwlock v l (record s { readers = inc32 s.readers }))
          ⊎ (((s.writer ≢ 0) ⊎ (s.wwaiting ≢ [])) × (got ≡ false) × (v ≡ w)))
        (canrlock l w)
unfolding canrlock rlock_core
canrlock-cases l w s q = elim (Bool-cases ((w.rwlocks l).writer == 0)) [
  | inl free ↦ elim (head-empty w.task (w.rwlocks l).wwaiting s.wwaiting q.wwaiting) [
    | inl (none, e) ↦
        let t : ((w.rwlocks l).wwaiting.head == 0) ≡ true = ground arith in
        rw (free, t)
          (inl (
            ground (arith, q.writer),
            e,
            refl,
            record {
              readers = ground (arith, q.readers);
              writer = ground (arith, q.writer);
              rwaiting = rw (==_refl l) q.rwaiting;
              wwaiting = rw (==_refl l) q.wwaiting;
              ready = q.ready;
              apart = q.apart;
              reading = q.reading;
              writing = q.writing;
            },
          ))
    | inr (some, e) ↦
        let t : ((w.rwlocks l).wwaiting.head == 0) ≡ false = ground arith in
        rw (free, t) (inr (inr e, refl, refl))
  ]
  | inr held ↦ rw held (inr (inl (ground (arith, q.writer)), refl, refl))
]

-- canwlock never waits: it takes a lock that no task writes or reads, and changes nothing
-- otherwise.
pub canwlock-cases :
    (l : Ptr) (w : World) (s : View)
    → IsRwlock w l s
    → Returns
        (λ got v.
          ((s.writer ≡ 0)
            × (s.readers ≡ 0)
            × (got ≡ true)
            × IsRwlock v l (record s { writer = w.taskrunning }))
          ⊎ (((s.writer ≢ 0) ⊎ (s.readers ≢ 0)) × (got ≡ false) × (v ≡ w)))
        (canwlock l w)
unfolding canwlock wlock_core
canwlock-cases l w s q = elim (Bool-cases ((w.rwlocks l).writer == 0)) [
  | inl free ↦ elim (Bool-cases ((w.rwlocks l).readers == 0)) [
    | inl none ↦
        rw (free, none)
          (inl (
            ground (arith, q.writer),
            ground (arith, q.readers),
            refl,
            record {
              readers = ground (arith, q.readers);
              writer = ground arith;
              rwaiting = rw (==_refl l) q.rwaiting;
              wwaiting = rw (==_refl l) q.wwaiting;
              ready = q.ready;
              apart = q.apart;
              reading = q.reading;
              writing = q.writing;
            },
          ))
    | inr some ↦ rw (free, some) (inr (inr (ground (arith, q.readers)), refl, refl))
  ]
  | inr held ↦ rw held (inr (inl (ground (arith, q.writer)), refl, refl))
]

with_state-IsRwlock :
    (text : String) (w : World) (l : Ptr) (s : View)
    → IsRwlock w l s
    → IsRwlock (with_state text w) l s
unfolding with_state
with_state-IsRwlock text w l s q =
    let v = with_state text w in
    let same = with_state-SameLinks text w in
    record {
      readers = q.readers;
      writer = q.writer;
      rwaiting =
          IsQueue-frame w.task v.task (w.rwlocks l).rwaiting s.rwaiting (same s.rwaiting)
            q.rwaiting;
      wwaiting =
          IsQueue-frame w.task v.task (w.rwlocks l).wwaiting s.wwaiting (same s.wwaiting)
            q.wwaiting;
      ready = IsQueue-frame w.task v.task w.taskrunqueue s.ready (same s.ready) q.ready;
      apart = q.apart;
      reading = q.reading;
      writing = q.writing;
    }

wait_write-IsRwlock :
    (l : Ptr) (w : World) (s : View)
    → IsRwlock w l s
    → w.taskrunning ≢ 0
    → w.taskrunning ∉ s.rwaiting
    → w.taskrunning ∉ s.wwaiting
    → w.taskrunning ∉ s.ready
    → IsRwlock (wait_write l w) l (record s { wwaiting = s.wwaiting ++ w.taskrunning ∷ [] })
unfolding wait_write
wait_write-IsRwlock l w s q ne out out' out'' =
    let m = w.task in
    let t = w.taskrunning in
    let h = (w.rwlocks l).wwaiting in
    let g = (addtask m h t).0 in
    record {
      readers = ground (arith, q.readers);
      writer = ground (arith, q.writer);
      rwaiting = rw (==_refl l) (
          IsQueue-frame m g (w.rwlocks l).rwaiting s.rwaiting
            (addtask-SameLinks m h t s.wwaiting s.rwaiting q.wwaiting out
              (λ a i. ground (arith, q.apart a)))
            q.rwaiting);
      wwaiting = rw (==_refl l) (addtask-snoc m h t s.wwaiting ne out' q.wwaiting);
      ready =
          IsQueue-frame m g w.taskrunqueue s.ready
            (addtask-SameLinks m h t s.wwaiting s.ready q.wwaiting out'' q.writing) q.ready;
      apart = λ a i. ground (arith, q.apart a, has-append a s.wwaiting (t ∷ []));
      reading = q.reading;
      writing = λ a i. ground (arith, q.writing a, has-append a s.wwaiting (t ∷ []));
    }

-- wlock of a lock that a task writes or reads, by a running task that is in none of its queues
-- and not ready and has stack left, puts the task behind those that wait to write, gives up the
-- processor, and returns when the task goes on.
pub wlock_core-queued :
    (l : Ptr) (w : World) (s : View)
    → IsRwlock w l s
    → (s.writer ≢ 0) ⊎ (s.readers ≢ 0)
    → w.taskrunning ≢ 0
    → w.taskrunning ∉ s.rwaiting
    → w.taskrunning ∉ s.wwaiting
    → w.taskrunning ∉ s.ready
    → has_stack 0 w ≡ true
    → Switches
        (λ v k.
          IsRwlock v l (record s { wwaiting = s.wwaiting ++ w.taskrunning ∷ [] }) × (k ≡ done true))
        (wlock_core l true w)
unfolding wlock_core
wlock_core-queued l w s q held ne out out' out'' stack =
    let v = wait_write l w in
    let e : (((w.rwlocks l).writer == 0) && ((w.rwlocks l).readers == 0)) ≡ false =
      ground (arith, q.writer, q.readers) in
    rw
      (
        e,
        park_lem "wlock" w v (w.rwlocks l).wwaiting (done true) (unfold wait_write in refl)
            (unfold wait_write in refl) (unfold wait_write in refl) stack,
      )
      (with_state-IsRwlock "wlock" v l _ (wait_write-IsRwlock l w s q ne out out' out''), refl)

wait_read-IsRwlock :
    (l : Ptr) (w : World) (s : View)
    → IsRwlock w l s
    → w.taskrunning ≢ 0
    → w.taskrunning ∉ s.rwaiting
    → w.taskrunning ∉ s.wwaiting
    → w.taskrunning ∉ s.ready
    → IsRwlock (wait_read l w) l (record s { rwaiting = s.rwaiting ++ w.taskrunning ∷ [] })
unfolding wait_read
wait_read-IsRwlock l w s q ne out out' out'' =
    let m = w.task in
    let t = w.taskrunning in
    let h = (w.rwlocks l).rwaiting in
    let g = (addtask m h t).0 in
    record {
      readers = ground (arith, q.readers);
      writer = ground (arith, q.writer);
      rwaiting = rw (==_refl l) (addtask-snoc m h t s.rwaiting ne out q.rwaiting);
      wwaiting = rw (==_refl l) (
          IsQueue-frame m g (w.rwlocks l).wwaiting s.wwaiting
            (addtask-SameLinks m h t s.rwaiting s.wwaiting q.rwaiting out' q.apart) q.wwaiting);
      ready =
          IsQueue-frame m g w.taskrunqueue s.ready
            (addtask-SameLinks m h t s.rwaiting s.ready q.rwaiting out'' q.reading) q.ready;
      apart = λ a i. ground (arith, q.apart a, has-append a s.rwaiting (t ∷ []));
      reading = λ a i. ground (arith, q.reading a, has-append a s.rwaiting (t ∷ []));
      writing = q.writing;
    }

-- rlock of a lock that a task writes or waits to write, by a running task that is in none of its
-- queues and not ready and has stack left, puts the task behind those that wait to read, gives
-- up the processor, and returns when the task goes on.
pub rlock_core-queued :
    (l : Ptr) (w : World) (s : View)
    → IsRwlock w l s
    → (s.writer ≢ 0) ⊎ (s.wwaiting ≢ [])
    → w.taskrunning ≢ 0
    → w.taskrunning ∉ s.rwaiting
    → w.taskrunning ∉ s.wwaiting
    → w.taskrunning ∉ s.ready
    → has_stack 0 w ≡ true
    → Switches
        (λ v k.
          IsRwlock v l (record s { rwaiting = s.rwaiting ++ w.taskrunning ∷ [] }) × (k ≡ done true))
        (rlock_core l true w)
unfolding rlock_core
rlock_core-queued l w s q held ne out out' out'' stack =
    let v = wait_read l w in
    let e : (((w.rwlocks l).writer == 0) && ((w.rwlocks l).wwaiting.head == 0)) ≡ false =
      ground (arith, q.writer, head-empty w.task (w.rwlocks l).wwaiting s.wwaiting q.wwaiting) in
    rw
      (
        e,
        park_lem "rlock" w v (w.rwlocks l).rwaiting (done true) (unfold wait_read in refl)
            (unfold wait_read in refl) (unfold wait_read in refl) stack,
      )
      (with_state-IsRwlock "rlock" v l _ (wait_read-IsRwlock l w s q ne out out' out''), refl)

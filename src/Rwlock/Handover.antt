-- ===== src/Rwlock/Handover.antt =====
-- What an `RWLock` passes on when it is unlocked, and to whom.
use libtask_annotation.Base.{
  ℕ, zero, suc, ◌+◌, ◌^◌, ◌<◌, ◌≡◌, ◌≢◌, Ptr, true, false, List, [], ◌∷◌, ◌++◌, arith, append_assoc,
  append-nil, Disjoint, has-append, ◌==◌, ==_refl, length, inc32, ◌∉◌, has, Bool-cases, inl, inr,
  if◌then◌else◌,
}
use libtask_annotation.World.{World}
use libtask_annotation.Flow.{Cmd, Returns}
use libtask_annotation.Tasklist.Links.{IsQueue, IsQueue-frame, head-nil, head-cons}
use libtask_annotation.Tasklist.Delete.{deltask-erase}
use libtask_annotation.Tasklist.Frame.{deltask-SameLinks}
use libtask_annotation.Task.{make_ready, taskready}
use libtask_annotation.Sched.Fifo.{IsReady, make_ready-IsReady, make_ready-SameLinks}
use libtask_annotation.Rwlock.{
  admit_writer, admit_reader, next_writer, if_no_readers, runlock, wake_reader, wake_readers,
  wunlock,
}

-- The lock and the tasks that are ready.
pub record View : Type 0 where
  pub readers : ℕ
  pub writer : Ptr
  pub rwaiting : List Ptr
  pub wwaiting : List Ptr
  pub ready : List Ptr

-- The lock at `l` stands for `s`; no task is in two of its lists.
pub record IsRwlock (w : World) (l : Ptr) (s : View) : Type 0 where
  pub readers : (w.rwlocks l).readers ≡ s.readers
  pub writer : (w.rwlocks l).writer ≡ s.writer
  pub rwaiting : IsQueue w.task (w.rwlocks l).rwaiting s.rwaiting
  pub wwaiting : IsQueue w.task (w.rwlocks l).wwaiting s.wwaiting
  pub ready : IsReady w s.ready
  pub apart : Disjoint s.rwaiting s.wwaiting
  pub reading : Disjoint s.rwaiting s.ready
  pub writing : Disjoint s.wwaiting s.ready

-- One waiting writer is let in, if there is one.
abbrev pub next_in : List Ptr → View → View
next_in [] s = s
next_in (t ∷ ts) s = record s { writer = t; wwaiting = ts; ready = s.ready ++ t ∷ [] }

make_ready-IsRwlock :
    (l t : Ptr) (w : World) (s : View)
    → IsRwlock w l s
    → t ≢ 0
    → t ∉ s.rwaiting
    → t ∉ s.wwaiting
    → t ∉ s.ready
    → IsRwlock (make_ready t w) l (record s { ready = s.ready ++ t ∷ [] })
make_ready-IsRwlock l t w s q ne out out' out'' = record {
  readers = unfold make_ready in q.readers;
  writer = unfold make_ready in q.writer;
  rwaiting =
      unfold make_ready in
      IsQueue-frame w.task _ (w.rwlocks l).rwaiting s.rwaiting
        (make_ready-SameLinks t w s.ready s.rwaiting q.ready out
          (λ a i. ground (arith, q.reading a)))
        q.rwaiting;
  wwaiting =
      unfold make_ready in
      IsQueue-frame w.task _ (w.rwlocks l).wwaiting s.wwaiting
        (make_ready-SameLinks t w s.ready s.wwaiting q.ready out'
          (λ a i. ground (arith, q.writing a)))
        q.wwaiting;
  ready = make_ready-IsReady t w s.ready ne out'' q.ready;
  apart = q.apart;
  reading = λ a i. ground (arith, has-append a s.ready (t ∷ []), q.reading a);
  writing = λ a i. ground (arith, has-append a s.ready (t ∷ []), q.writing a);
}

admit_writer-IsRwlock :
    (l t : Ptr) (w : World) (s : View) (ts : List Ptr)
    → IsRwlock w l (record s { wwaiting = t ∷ ts })
    → IsRwlock (admit_writer l t w) l (record s { wwaiting = ts; writer = t })
unfolding admit_writer
admit_writer-IsRwlock l t w s ts q = record {
  readers = ground (arith, q.readers);
  writer = ground arith;
  rwaiting = rw (==_refl l) (
      IsQueue-frame w.task _ (w.rwlocks l).rwaiting s.rwaiting
        (deltask-SameLinks w.task (w.rwlocks l).wwaiting t ts s.rwaiting q.wwaiting
          (λ a i. ground (arith, q.apart a)))
        q.rwaiting);
  wwaiting = rw (==_refl l) (deltask-erase w.task (w.rwlocks l).wwaiting t [] ts q.wwaiting);
  ready =
      IsQueue-frame w.task _ w.taskrunqueue s.ready
        (deltask-SameLinks w.task (w.rwlocks l).wwaiting t ts s.ready q.wwaiting q.writing) q.ready;
  apart = λ a i. ground (arith, q.apart a);
  reading = q.reading;
  writing = λ a i. ground (arith, q.writing a);
}

admit_reader-IsRwlock :
    (l t : Ptr) (w : World) (s : View) (ts : List Ptr)
    → IsRwlock w l (record s { rwaiting = t ∷ ts })
    → IsRwlock (admit_reader l t w) l (record s { rwaiting = ts; readers = inc32 s.readers })
unfolding admit_reader
admit_reader-IsRwlock l t w s ts q = record {
  readers = ground (arith, q.readers);
  writer = ground (arith, q.writer);
  rwaiting = rw (==_refl l) (deltask-erase w.task (w.rwlocks l).rwaiting t [] ts q.rwaiting);
  wwaiting = rw (==_refl l) (
      IsQueue-frame w.task _ (w.rwlocks l).wwaiting s.wwaiting
        (deltask-SameLinks w.task (w.rwlocks l).rwaiting t ts s.wwaiting q.rwaiting q.apart)
        q.wwaiting);
  ready =
      IsQueue-frame w.task _ w.taskrunqueue s.ready
        (deltask-SameLinks w.task (w.rwlocks l).rwaiting t ts s.ready q.rwaiting q.reading) q.ready;
  apart = λ a i. ground (arith, q.apart a);
  reading = λ a i. ground (arith, q.reading a);
  writing = q.writing;
}

next_writer-next_in :
    (l : Ptr) (w : World) (s : View) (ts : List Ptr)
    → IsRwlock w l (record s { wwaiting = ts })
    → Returns
        (λ _ v. IsRwlock v l (next_in ts (record s { wwaiting = ts })))
        (next_writer l (w.rwlocks l).wwaiting.head w)
next_writer-next_in l w s [] q =
    rw (head-nil w.task (w.rwlocks l).wwaiting q.wwaiting) (unfold next_writer in q)
next_writer-next_in l w s (t ∷ ts) q =
    let (head, ne) = head-cons w.task (w.rwlocks l).wwaiting t ts q.wwaiting in
    let e : (t == 0) ≡ false = ground arith in
    let in_first : has t (t ∷ ts) ≡ true = ground (arith, ==_refl t) in
    rw head (
      unfold next_writer taskready in
      rw e (
        make_ready-IsRwlock l t (admit_writer l t w) (record s { wwaiting = ts; writer = t })
          (admit_writer-IsRwlock l t w s ts q) ne (ground (arith, q.apart t)) q.wwaiting.chain.3
          (q.writing t in_first)))

-- A lock without readers lets one waiting writer in.
abbrev pub settled : View → View
settled s = if s.readers == 0 then next_in s.wwaiting s else s

if_no_readers-settled :
    (l : Ptr) (w : World) (s : View)
    → IsRwlock w l s
    → Returns (λ _ v. IsRwlock v l (settled s)) (if_no_readers l w)
unfolding if_no_readers
if_no_readers-settled l w s q = elim (Bool-cases (s.readers == 0)) [
  | inl none ↦
      let e : ((w.rwlocks l).readers == 0) ≡ true = ground (arith, q.readers) in
      rw (e, none) (next_writer-next_in l w s s.wwaiting q)
  | inr some ↦
      let e : ((w.rwlocks l).readers == 0) ≡ false = ground (arith, q.readers) in rw (e, some) q
]

-- runlock of a lock with readers takes one away, and the last of them (of less than 2^31) lets
-- in the writer that has waited longest.
pub runlock-settled :
    (l : Ptr) (w : World) (s : View) (k : ℕ)
    → IsRwlock w l s
    → s.readers ≡ suc k
    → s.readers < 2 ^ 31
    → Returns (λ _ v. IsRwlock v l (settled (record s { readers = k }))) (runlock l w)
unfolding runlock
runlock-settled l w s k q e small =
    if_no_readers-settled l _ (record s { readers = k })
      (record {
        readers = ground (arith, q.readers);
        writer = ground (arith, q.writer);
        rwaiting = rw (==_refl l) q.rwaiting;
        wwaiting = rw (==_refl l) q.wwaiting;
        ready = q.ready;
        apart = q.apart;
        reading = q.reading;
        writing = q.writing;
      })

wake_reader_lem :
    (l t : Ptr) (rest : Cmd (Unit {0})) (w : World)
    → t ≢ 0
    → wake_reader l rest t w ≡ rest (make_ready t (admit_reader l t w))
unfolding wake_reader taskready
wake_reader_lem l t rest w ne = let e : (t == 0) ≡ false = ground arith in rw e

wake_readers-all :
    (fuel : ℕ) (l : Ptr) (w : World) (s : View) (rs : List Ptr)
    → length rs < fuel
    → s.readers + length rs < 2 ^ 31
    → IsRwlock w l (record s { rwaiting = rs })
    → Returns
        (λ _ v. IsRwlock v l (
          settled
            (record s { rwaiting = []; readers = s.readers + length rs; ready = s.ready ++ rs })))
        (wake_readers fuel l w)
unfolding wake_readers
wake_readers-all zero l w s rs lt small q = absurd (omega arith)
wake_readers-all (suc fuel) l w s [] lt small q =
    let none : s.readers + 0 ≡ s.readers = omega arith in
    rw (head-nil w.task (w.rwlocks l).rwaiting q.rwaiting, none, append-nil)
      (unfold wake_reader in if_no_readers-settled l w (record s { rwaiting = [] }) q)
wake_readers-all (suc fuel) l w s (t ∷ rs) lt small q =
    let (head, ne) = head-cons w.task (w.rwlocks l).rwaiting t rs q.rwaiting in
    let in_first : has t (t ∷ rs) ≡ true = ground (arith, ==_refl t) in
    let more : inc32 s.readers ≡ suc s.readers = omega arith in
    let s' : View = record s { readers = suc s.readers; ready = s.ready ++ t ∷ [] } in
    let next : IsRwlock (make_ready t (admit_reader l t w)) l (record s' { rwaiting = rs }) =
      make_ready-IsRwlock l t (admit_reader l t w)
        (record s { rwaiting = rs; readers = suc s.readers })
        (rw more at (admit_reader-IsRwlock l t w s rs q)) ne q.rwaiting.chain.3 (q.apart t in_first)
        (q.reading t in_first) in
    let count : suc s.readers + length rs ≡ s.readers + suc (length rs) = omega arith in
    rw
      (
        head,
        wake_reader_lem l t (wake_readers fuel l) w ne,
        ← count,
        ← append_assoc s.ready (t ∷ []) rs,
      )
      (wake_readers-all fuel l (make_ready t (admit_reader l t w)) s' rs (omega arith) (omega arith)
        next)

-- wunlock of a lock that a writer holds, with fuel for each reader that waits, makes all of them
-- readers, in order; if there are none, it lets in the writer that has waited longest. Less than
-- 2^31 readers wait.
pub wunlock-settled :
    (fuel : ℕ) (l : Ptr) (w : World) (s : View)
    → IsRwlock w l s
    → s.writer ≢ 0
    → s.readers ≡ 0
    → length s.rwaiting < fuel
    → length s.rwaiting < 2 ^ 31
    → Returns
        (λ _ v. IsRwlock v l (
          settled (record s {
            writer = 0;
            rwaiting = [];
            readers = length s.rwaiting;
            ready = s.ready ++ s.rwaiting;
          })))
        (wunlock fuel l w)
unfolding wunlock
wunlock-settled fuel l w s q held none lt small =
    let e : ((w.rwlocks l).writer == 0) ≡ false = ground (arith, q.writer) in
    let e' : ((w.rwlocks l).readers == 0) ≡ true = ground (arith, q.readers) in
    let zero : 0 + length s.rwaiting ≡ length s.rwaiting = omega arith in
    rw (e, e', ← zero)
      (wake_readers-all fuel l _ (record s { writer = 0; readers = 0 }) s.rwaiting lt (omega arith)
        (record {
          readers = ground (arith, q.readers);
          writer = ground arith;
          rwaiting = rw (==_refl l) q.rwaiting;
          wwaiting = rw (==_refl l) q.wwaiting;
          ready = q.ready;
          apart = q.apart;
          reading = q.reading;
          writing = q.writing;
        }))

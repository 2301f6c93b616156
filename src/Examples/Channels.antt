-- ===== src/Examples/Channels.antt =====
-- The theorems on channels, applied.
use libtask_annotation.Base.{
  ℕ, ltb, ◌≡◌, ◌<◌, ◌%◌, ◌+◌, inr, refl, Ptr, arith, true, none, some, ◌==◌, if◌then◌else◌,
}
use libtask_annotation.World.{World, Altarray}
use libtask_annotation.Flow.{Returns, done, pure, and_then}
use libtask_annotation.Task.{has_stack}
use libtask_annotation.Channel.{
  altcopy, altcanexec, can_exec, chanarray, chansnd, chanrcv, channop, channoblk,
}
use libtask_annotation.Channel.Fifo.{IsRing}
use libtask_annotation.Channel.Entries.{IsSized}
use libtask_annotation.Channel.Alts.{alts_len, count_can, chanalt, altexec}
use libtask_annotation.Channel.Select.{marked, FilledAs, chanalt-noblock, chanalt-picks}
use libtask_annotation.Channel.Create.{IsNew, chancreate, chancreate-IsNew}
use libtask_annotation.Channel.Copy.{Meets, Passed, altcopy-fifo}
use libtask_annotation.Examples.{wrapped, fresh_world}

-- The entry 11 sends the bytes at 300 and the entry 12 receives to 400, at a channel whose two
-- messages are in slots 3 and 0.
abbrev meeting : World
meeting = record fresh_world {
  alts = λ p.
      if p == 11
      then record { c = 1; v = 300; op = chansnd; task = 0; xalt = 0 }
      else record { c = 1; v = 400; op = chanrcv; task = 0; xalt = 0 };
}

wrapped-IsRing : IsRing wrapped
wrapped-IsRing = record {
  used = omega arith;
  start = omega arith;
  small = omega arith;
  bytes = omega arith;
  buf = ground arith;
}

meeting-Meets : Meets meeting 1 11 12
meeting-Meets = record {
  sender = (ground arith, refl, refl);
  receiver = (ground arith, refl, refl);
  ring = wrapped-IsRing;
  wanted = ground arith;
  outside = inr (omega arith);
  apart = inr (omega arith);
}

altcopy-fifo_example :
    Returns (λ _ v. Passed meeting 1 11 12 v) (altcopy 11 12 meeting)
    × Returns (λ _ v. Passed meeting 1 11 12 v) (altcopy 12 11 meeting)
altcopy-fifo_example = altcopy-fifo 1 11 12 meeting meeting-Meets

-- The entries 7, 8 and 7 again, in an array that is full.
abbrev full : Altarray
full = record { a = λ i. if i == 1 then 8 else 7; n = 3; m = 3 }

full-IsSized : IsSized full
full-IsSized = record { fits = omega arith; small = omega arith }

-- An array at 20 of two operations that can be carried out, a send and a receive, and one that
-- cannot; `CHANNOBLK` ends it. The task 9 calls `chanalt`.
abbrev choosing : World
choosing = record fresh_world {
  taskrunning = 9;
  alts = λ p.
      if p == 20
      then record { c = 1; v = 300; op = chansnd; task = 0; xalt = 0 }
      else (if p == 21
          then record { c = 1; v = 0; op = channop; task = 0; xalt = 0 }
          else (if p == 22
              then record { c = 1; v = 400; op = chanrcv; task = 0; xalt = 0 }
              else record { c = 0; v = 0; op = channoblk; task = 0; xalt = 0 }));
}

count-choosing : count_can 3 choosing 20 ≡ 2
unfolding count_can altcanexec can_exec
count-choosing = refl

len-choosing : alts_len 10 choosing 20 ≡ some 3
unfolding alts_len
len-choosing = refl

abbrev seven : ℕ → ℕ
seven _ = 7

chanalt-picks_example :
    (k : ℕ) × (k < 3)
    × (altcanexec choosing (20 + k) ≡ true)
    × (count_can k choosing 20 ≡ 7 % count_can 3 choosing 20)
    × (chanalt seven 10 20 choosing
        ≡ and_then
            (altexec seven 10 (20 + k) (record (marked 3 20 choosing) { draws = 1 }))
            (λ _. pure (some k)))
chanalt-picks_example =
    chanalt-picks seven 10 20 3 choosing (unfold has_stack in refl) len-choosing
      (omega (arith, count-choosing))

-- An array at 30 of one receive, at a channel without a buffer to which no task sends.
abbrev starving : World
starving = record fresh_world {
  taskrunning = 9;
  chans = λ _. record wrapped { bufsize = 0; nbuf = 0; off = 0 };
  alts = λ p.
      if p == 30
      then record { c = 1; v = 400; op = chanrcv; task = 0; xalt = 0 }
      else record { c = 0; v = 0; op = channoblk; task = 0; xalt = 0 };
}

len-starving : alts_len 10 starving 30 ≡ some 1
unfolding alts_len
len-starving = refl

count-starving : count_can 1 starving 30 ≡ 0
unfolding count_can altcanexec can_exec chanarray
count-starving = refl

chanalt-noblock_example :
    (v : World) × (chanalt seven 10 30 starving ≡ done none v)
    × (v ≡ record starving { alts = v.alts })
    × ((b : Ptr) → FilledAs 1 30 30 starving.taskrunning b (starving.alts b) (v.alts b))
chanalt-noblock_example =
    chanalt-noblock seven 10 30 1 starving (unfold has_stack in refl) len-starving count-starving
      refl

-- A heap that answers with the address 1000, unless it is asked for too much.
abbrev heap : ℕ → Ptr
heap size = if ltb 4096 size then 0 else 1000

chancreate-IsNew_example :
    Returns (λ c v. (c ≡ 1000) × IsNew meeting c 96 128 8 4 v) (chancreate 96 heap 8 4 meeting)
chancreate-IsNew_example =
    chancreate-IsNew 96 heap 8 4 meeting (ground arith) (omega arith) (omega arith) (omega arith)

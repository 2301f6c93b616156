-- ===== src/Channel.antt =====
-- Channels, of channel.c: buffers of messages, and the operations that wait on them.
pub mod Bytes
pub mod Array
pub mod Alts
pub mod Fifo
pub mod Transfer
pub mod Copy
pub mod Create
pub mod Entries
pub mod Select
pub mod Ops
pub mod Longs
pub mod Words
pub mod Waiting
pub mod Leaving
pub mod Joining
pub mod Parting
pub mod Copied
pub mod Meeting
pub mod Parking
pub mod Exec
pub mod Rendezvous
use libtask_annotation.Base.{
  ℕ, zero, suc, ◌+◌, ◌-◌, ◌*◌, ◌%◌, ◌^◌, Ptr, Bool, true, false, Option, none, some, not, ◌||◌,
  ◌&&◌, update, ltb, ◌==◌, if◌then◌else◌, inc32, dec32,
}
use libtask_annotation.World.{Alt, Altarray, Channel, World}
use libtask_annotation.Flow.{Cmd, done, out_of_fuel, pure, abort, get, modify, ◌>>=◌, ◌>>◌}
use libtask_annotation.Task.{taskready, taskswitch, needstack}
use Bytes.{Memory, memmove, clear}
use Array.{addarray, delarray, find_from}

-- The operations of an `Alt`.
abbrev pub chanend : ℕ
chanend = 0

abbrev pub chansnd : ℕ
chansnd = 1

abbrev pub chanrcv : ℕ
chanrcv = 2

abbrev pub channop : ℕ
channop = 3

abbrev pub channoblk : ℕ
channoblk = 4

-- `otherop(op)`, of unsigned ints
abbrev pub otherop : ℕ → ℕ
otherop op = (chansnd + chanrcv + 2 ^ 32 - op) % 2 ^ 32

abbrev pub set_chan : Ptr → Channel → World → World
set_chan c x w = record w { chans = update w.chans c x }

-- `chanarray`, and the channel with this array changed.
unfoldable pub chanarray : Channel → ℕ → Option Altarray
chanarray c op =
    if op == chansnd then some c.asend else (if op == chanrcv then some c.arecv else none)

unfoldable pub with_chanarray : Channel → ℕ → Altarray → Channel
with_chanarray c op x =
    if op == chansnd
    then record c { asend = x }
    else (if op == chanrcv then record c { arecv = x } else c)

abbrev has_entries : Option Altarray → Bool
has_entries none = false
has_entries (some x) = not (x.n == 0)

-- `altcanexec`
unfoldable pub can_exec : Channel → ℕ → Bool
unfolding chanarray
can_exec c op =
    if op == channop
    then false
    else (if c.bufsize == 0
        then has_entries (chanarray c (otherop op))
        else (if op == chansnd
            then ltb c.nbuf c.bufsize
            else (if op == chanrcv then ltb 0 c.nbuf else false)))

unfoldable pub altcanexec : World → Ptr → Bool
unfolding can_exec
altcanexec w a = can_exec (w.chans (w.alts a).c) (w.alts a).op

-- A call of `addarray` on `nil` is a fault, which ends the process.
unfoldable pub altqueue : Ptr → Cmd (Unit {0})
altqueue a w =
    let x = w.alts a in
    elim (chanarray (w.chans x.c) x.op) [
      | none ↦ abort w
      | some ar ↦ done tt (set_chan x.c (with_chanarray (w.chans x.c) x.op (addarray ar a)) w)
    ]

unfoldable pub altdequeue : Ptr → Cmd (Unit {0})
altdequeue a w =
    let x = w.alts a in
    elim (chanarray (w.chans x.c) x.op) [
      | none ↦ abort w
      | some ar ↦ elim (find_from ar.a a 0 ar.n) [
        | none ↦ abort w
        | some i ↦ done tt (set_chan x.c (with_chanarray (w.chans x.c) x.op (delarray ar i)) w)
      ]
    ]

-- The entry that ends an array of `Alt`s.
abbrev pub is_last : ℕ → Bool
is_last op = op == chanend || op == channoblk

-- `altalldequeue`, from the entry at `a` on.
unfoldable pub altalldequeue : (fuel : ℕ) → Ptr → Cmd (Unit {0})
altalldequeue zero a = out_of_fuel
altalldequeue (suc fuel) a =
    let rest = altalldequeue fuel (a + 1) in
    do
      w ← get
      if is_last (w.alts a).op
          then pure tt
          else (if (w.alts a).op == channop then rest else (do altdequeue a; rest))

-- `amove`
unfoldable pub amove : Memory → (dst src n : ℕ) → Memory
amove m dst src n =
    if dst == 0 then m else (if src == 0 then clear m dst n else memmove m dst src n)

-- The address of slot `i` of the buffer.
abbrev pub slot : Channel → ℕ → ℕ
slot c i = c.buf + (i * c.elemsize) % 2 ^ 32

-- `if(r){ … }` of `altcopy`: the oldest element goes to `dst`.
unfoldable pub take_element : Ptr → (dst : ℕ) → World → World
take_element c dst w =
    let x = w.chans c in
    record w {
      mem = amove w.mem dst (slot x x.off) x.elemsize;
      chans = update w.chans c (record x {
        nbuf = dec32 x.nbuf;
        off = if inc32 x.off == x.bufsize then 0 else inc32 x.off;
      });
    }

-- `if(s){ … }` of `altcopy`, at a channel with a buffer: the bytes at `src` go behind the others.
unfoldable pub put_element : Ptr → (src : ℕ) → World → World
put_element c src w =
    let x = w.chans c in
    record w {
      mem = amove w.mem (slot x ((x.off + x.nbuf) % 2 ^ 32 % x.bufsize)) src x.elemsize;
      chans = update w.chans c (record x { nbuf = inc32 x.nbuf });
    }

-- `s` sends and `r` receives, and 0 is neither. The remainder by 0 is a fault.
unfoldable pub copy_between : (c s r : Ptr) → Cmd (Unit {0})
copy_between c s r w =
    let x = w.chans c in
    let direct = not (s == 0) && (not (r == 0) && (x.nbuf == 0)) in
    let w' = if r == 0 then w else take_element c (w.alts r).v w in
    if direct
    then done tt (record w { mem = amove w.mem (w.alts r).v (w.alts s).v x.elemsize })
    else (if s == 0
        then done tt w'
        else (if x.bufsize == 0 then abort w' else done tt (put_element c (w.alts s).v w')))

-- `altcopy`
unfoldable pub altcopy : (s r : Ptr) → Cmd (Unit {0})
altcopy s r w =
    if s == 0
    then (if r == 0 then done tt w else abort w)
    else (let swap = (w.alts s).op == chanrcv in
        let s' : Ptr = if swap then r else s in
        let r' : Ptr = if swap then s else r in
        let fine =
          (s' == 0 || (w.alts s').op == chansnd) && (r' == 0 || (w.alts r').op == chanrcv) in
        if fine then copy_between (w.alts s).c s' r' w else abort w)

-- ===== src/Channel/Create.antt =====
-- `chancreate` of channel.c. `malloc` is not code of the library: what it returns for a size is
-- an argument, and 0 is failure.
use libtask_annotation.Base.{
  ℕ, ◌+◌, ◌-◌, ◌*◌, ◌^◌, ◌%◌, ◌≤◌, ◌<◌, ◌≡◌, ◌≢◌, refl, Ptr, false, ltb, [], arith, ◌==◌, ==_refl,
  if◌then◌else◌,
}
use libtask_annotation.World.{Altarray, World}
use libtask_annotation.Flow.{Cmd, Returns, done, exit}
use libtask_annotation.Channel.{set_chan, slot}
use libtask_annotation.Channel.Fifo.{IsRing, contents-nil}
use libtask_annotation.Channel.Transfer.{queued}
use libtask_annotation.Channel.Entries.{IsSized}

-- An array that `memset` has cleared.
abbrev pub no_array : Altarray
no_array = record { a = λ _. 0; n = 0; m = 0 }

-- The argument of `malloc`: the product is an `int`, which wraps round, and is then as wide as a
-- `size_t` of 64 bits.
unfoldable pub alloc_size : (sizeof_channel elemsize bufsize : ℕ) → ℕ
alloc_size sizeof_channel elemsize bufsize =
    let product = bufsize * elemsize % 2 ^ 32 in
    (sizeof_channel + (if ltb product (2 ^ 31) then product else product + (2 ^ 64 - 2 ^ 32)))
    % 2 ^ 64

-- The buffer lies behind the `sizeof_channel` bytes of the struct.
unfoldable pub chancreate :
    (sizeof_channel : ℕ) → (malloc : ℕ → Ptr) → (elemsize bufsize : ℕ) → Cmd Ptr
chancreate sizeof_channel malloc elemsize bufsize w =
    let c = malloc (alloc_size sizeof_channel elemsize bufsize) in
    if c == 0
    then exit 1 w
    else (done c (
        set_chan c
          (record {
            bufsize = bufsize;
            elemsize = elemsize;
            buf = c + sizeof_channel;
            nbuf = 0;
            off = 0;
            asend = no_array;
            arecv = no_array;
          })
          w))

-- A new channel at the start of `size` bytes of memory.
pub record IsNew (w : World) (c : Ptr) (sizeof_channel size bytes count : ℕ) (v : World)
    : Type 0 where
  pub ring : IsRing (v.chans c)
  pub elemsize : (v.chans c).elemsize ≡ bytes
  pub bufsize : (v.chans c).bufsize ≡ count
  -- The slots of the buffer lie behind the struct, in this memory.
  pub behind : (i : ℕ) → c + sizeof_channel ≤ slot (v.chans c) i
  pub within : (i : ℕ) → i < count → slot (v.chans c) i + bytes ≤ c + size
  pub empty : queued v c ≡ []
  pub asend : IsSized (v.chans c).asend × ((v.chans c).asend.n ≡ 0)
  pub arecv : IsSized (v.chans c).arecv × ((v.chans c).arecv.n ≡ 0)
  pub others : (d : Ptr) → d ≢ c → v.chans d ≡ w.chans d

slots-fit : (i bufsize elemsize : ℕ) → i < bufsize → i * elemsize + elemsize ≤ bufsize * elemsize
slots-fit i bufsize elemsize lt = grind arith

alloc_size-fits :
    (sizeof_channel elemsize bufsize : ℕ)
    → sizeof_channel < 2 ^ 31
    → bufsize * elemsize < 2 ^ 31
    → alloc_size sizeof_channel elemsize bufsize ≡ sizeof_channel + bufsize * elemsize
unfolding alloc_size
alloc_size-fits sizeof_channel elemsize bufsize small bytes = ground arith

-- chancreate returns the memory that malloc gives for the struct and the buffer, with a channel
-- of this size of elements and of the buffer, which is a well-formed ring without messages and
-- without waiting operations; the slots of the buffer lie behind the struct and within the
-- memory. No other channel is changed. malloc has not failed, the struct and the buffer are
-- smaller than 2^31 bytes each, and the buffer has less than 2^31 slots.
pub chancreate-IsNew :
    (sizeof_channel : ℕ) (malloc : ℕ → Ptr) (elemsize bufsize : ℕ) (w : World)
    → malloc (sizeof_channel + bufsize * elemsize) ≢ 0
    → sizeof_channel < 2 ^ 31
    → bufsize < 2 ^ 31
    → bufsize * elemsize < 2 ^ 31
    → Returns
        (λ c v.
          (c ≡ malloc (sizeof_channel + bufsize * elemsize))
          × IsNew w c sizeof_channel (sizeof_channel + bufsize * elemsize) elemsize bufsize v)
        (chancreate sizeof_channel malloc elemsize bufsize w)
unfolding chancreate
chancreate-IsNew sizeof_channel malloc elemsize bufsize w ne head small bytes =
    let c = malloc (sizeof_channel + bufsize * elemsize) in
    let e : (c == 0) ≡ false = ground arith in
    rw (alloc_size-fits sizeof_channel elemsize bufsize head bytes, e)
      (
        refl,
        record {
          ring = rw (==_refl c) (record {
            used = omega arith;
            start = omega arith;
            small = small;
            bytes = omega arith;
            buf = ground arith;
          });
          elemsize = rw (==_refl c) refl;
          bufsize = rw (==_refl c) refl;
          behind = λ i. rw (==_refl c) (unfold slot in omega arith);
          within = λ i lt.
              rw (==_refl c)
                (unfold slot in let f = slots-fit i bufsize elemsize lt in omega arith);
          empty = rw (==_refl c) (
              contents-nil w.mem
                (record {
                  bufsize = bufsize;
                  elemsize = elemsize;
                  buf = c + sizeof_channel;
                  nbuf = 0;
                  off = 0;
                  asend = no_array;
                  arecv = no_array;
                })
                refl);
          asend = rw (==_refl c) (record { fits = omega arith; small = omega arith }, refl);
          arecv = rw (==_refl c) (record { fits = omega arith; small = omega arith }, refl);
          others = λ d other. ground arith;
        },
      )

-- ===== src/Channel/Longs.antt =====
-- The functions of channel.c that send and receive 64-bit words: longs, and pointers. The word lies in
-- a variable at `local`, with the low byte first.
use libtask_annotation.Base.{ℕ, zero, suc, ◌+◌, ◌*◌, ◌/◌, ◌%◌, Bool, true, false, List, [], ◌∷◌}
use libtask_annotation.World.{World}
use libtask_annotation.Flow.{Cmd, pure, get, modify, ◌>>=◌, ◌>>◌}
use libtask_annotation.Channel.{chansnd, chanrcv}
use libtask_annotation.Channel.Alts.{chanop}
use libtask_annotation.Channel.Bytes.{read}
use libtask_annotation.Print.{put}

-- The bytes of a word, and the word that bytes are.
unfoldable pub bytes_of : (n x : ℕ) → List ℕ
bytes_of zero x = []
bytes_of (suc n) x = x % 256 ∷ bytes_of n (x / 256)

unfoldable pub word_of : List ℕ → ℕ
word_of [] = 0
word_of (b ∷ bs) = b + 256 * word_of bs

-- An assignment to the variable.
unfoldable pub set_local : (local val : ℕ) → World → World
set_local local val w = record w { mem = put w.mem local (bytes_of 8 val) }

unfoldable pub get_local : (local : ℕ) → World → ℕ
get_local local w = word_of (read w.mem local 8)

module _ (rand : ℕ → ℕ) (fuel : ℕ) where
  -- `_chanop(c, CHANSND, &val, canblock)`
  unfoldable pub send_word : (canblock : Bool) → (frame local c val : ℕ) → Cmd Bool
  send_word canblock frame local c val = do
    modify (set_local local val)
    chanop rand fuel frame c chansnd local canblock

  -- `_chanop(c, CHANRCV, &val, canblock); return val;`, whatever `_chanop` returns.
  unfoldable pub receive_word : (canblock : Bool) → (frame local c : ℕ) → Cmd ℕ
  receive_word canblock frame local c = do
    _ ← chanop rand fuel frame c chanrcv local canblock
    w ← get
    pure (get_local local w)

  unfoldable pub chansendp : (frame local c val : ℕ) → Cmd Bool
  chansendp frame local c val = send_word true frame local c val

  unfoldable pub chanrecvp : (frame local c : ℕ) → Cmd ℕ
  chanrecvp frame local c = receive_word true frame local c

  unfoldable pub channbsendp : (frame local c val : ℕ) → Cmd Bool
  channbsendp frame local c val = send_word false frame local c val

  unfoldable pub channbrecvp : (frame local c : ℕ) → Cmd ℕ
  channbrecvp frame local c = receive_word false frame local c

  unfoldable pub chansendul : (frame local c val : ℕ) → Cmd Bool
  chansendul frame local c val = send_word true frame local c val

  unfoldable pub chanrecvul : (frame local c : ℕ) → Cmd ℕ
  chanrecvul frame local c = receive_word true frame local c

  unfoldable pub channbsendul : (frame local c val : ℕ) → Cmd Bool
  channbsendul frame local c val = send_word false frame local c val

  unfoldable pub channbrecvul : (frame local c : ℕ) → Cmd ℕ
  channbrecvul frame local c = receive_word false frame local c

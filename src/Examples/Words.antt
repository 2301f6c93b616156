-- ===== src/Examples/Words.antt =====
-- The theorems on words that are sent and received, applied.
use libtask_annotation.Base.{◌≡◌, refl, arith, false, [], ◌∷◌, inr}
use libtask_annotation.World.{World}
use libtask_annotation.Flow.{Returns}
use libtask_annotation.Task.{has_stack}
use libtask_annotation.Print.{put}
use libtask_annotation.Channel.{chanarray}
use libtask_annotation.Channel.Bytes.{read}
use libtask_annotation.Channel.Fifo.{IsRing, contents, items}
use libtask_annotation.Channel.Transfer.{queued}
use libtask_annotation.Channel.Ops.{Sent}
use libtask_annotation.Channel.Longs.{bytes_of, send_word, receive_word}
use libtask_annotation.Channel.Words.{send_word-Sent, receive_word-Received}
use libtask_annotation.Examples.{no_entries, wrapped, fresh_world}

-- A channel with room for four words; one is there, in slot 3.
abbrev one_word : World
one_word = record fresh_world {
  taskrunning = 9;
  mem = put (λ _. 0) 1024 (bytes_of 8 258);
  chans = λ _. record wrapped { elemsize = 8; buf = 1000; nbuf = 1 };
}

one_word-IsRing : IsRing (one_word.chans 1)
one_word-IsRing = record {
  used = omega arith;
  start = omega arith;
  small = omega arith;
  bytes = omega arith;
  buf = ground arith;
}

one_word-queued : queued one_word 1 ≡ bytes_of 8 258 ∷ []
unfolding contents items read put bytes_of
one_word-queued = refl

send_word-Sent_example :
    Returns
      (Sent one_word 1 (bytes_of 8 70000))
      (send_word (λ _. 0) 4 false 20 2000 1 70000 one_word)
send_word-Sent_example =
    send_word-Sent (λ _. 0) 2 false 20 2000 1 one_word (ground arith) (unfold has_stack in refl)
      one_word-IsRing refl (ground arith) (inr (omega arith)) 70000 (omega arith)
      (no_entries, unfold chanarray in refl, refl)

receive_word-Received_example :
    Returns
      (λ x v. (x ≡ 258) × IsRing (v.chans 1) × (queued v 1 ≡ []))
      (receive_word (λ _. 0) 4 false 20 2000 1 one_word)
receive_word-Received_example =
    receive_word-Received (λ _. 0) 2 false 20 2000 1 one_word (ground arith)
      (unfold has_stack in refl) one_word-IsRing refl (ground arith) (inr (omega arith)) 258 []
      (omega arith) (omega arith) one_word-queued (no_entries, unfold chanarray in refl, refl)

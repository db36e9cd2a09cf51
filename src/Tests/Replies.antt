-- ===== src/Tests/Replies.antt =====
-- A handler's goroutine on a concrete connection, and the other side of its link.
use plugo.Prelude.{All, ℕ, ◌≡◌, ◌++◌, refl, arith, true, false, List, [], ◌∷◌, map, nat_eq}
use plugo.Io.{ok}
use plugo.Context.{quiet}
use plugo.Codec.{Codec}
use plugo.Talk.{respond}
use plugo.Conn.{Stream, MessageConn, new_message_conn, register_stream}
use plugo.Reader.{channel}
use plugo.Tasks.{task_turn}
use plugo.Generic.{encode_all, lower, decode_response}
use plugo.Generic.Replies.{typed_sender_of, decode_response-lower}
use plugo.System.Sending.{FitsWrite, data_bytes, CanSend}
use plugo.System.Transfer.{Receiving, rounds, recv_all}
use plugo.System.Replying.{sender_of, turns, output-respond}
use plugo.System.Closing.{ClosedBy}
use plugo.Tests.{link, byte_codec}

abbrev codec : Codec ℕ
codec = byte_codec "json"

abbrev idle : MessageConn ℕ
unfolding new_message_conn
idle = new_message_conn link codec true

-- A connection with one open stream, whose id is 1.
abbrev talking : MessageConn ℕ
unfolding register_stream
talking = (register_stream 1 idle).1

abbrev open_one : Stream
open_one = record {
  id = 1;
  recv_ch = record { items = []; capacity = 100; closed = false };
  cancelled = false;
}

abbrev payloads : List (List ℕ)
payloads = (1 ∷ 2 ∷ []) ∷ (3 ∷ []) ∷ []

abbrev replying : MessageConn ℕ
replying = record talking { tasks = (0, respond (sender_of payloads)) ∷ [] }

replying-CanSend : CanSend 1 0 replying
unfolding talking idle
replying-CanSend = record {
  healthy = record { usable = refl; writable = refl };
  stream = open_one;
  found = refl;
  named = refl;
  live = refl;
}

output-respond_example :
    ((turns 2 0 replying).rwc.output ≡ replying.rwc.output ++ data_bytes 1 payloads)
    × ClosedBy 1 0 0
        (replying.rwc.output ++ data_bytes 1 payloads)
        (task_turn channel quiet 0 (turns 2 0 replying))
output-respond_example =
    output-respond 1 0 0 payloads replying (omega arith) replying-CanSend
      (omega arith, (omega arith, tt)) refl

abbrev typed : MessageConn ℕ
typed = record talking { tasks = (0, respond (lower codec (typed_sender_of (5 ∷ 6 ∷ [])))) ∷ [] }

typed-CanSend : CanSend 1 0 typed
unfolding talking idle
typed-CanSend = record {
  healthy = record { usable = refl; writable = refl };
  stream = open_one;
  found = refl;
  named = refl;
  live = refl;
}

abbrev with_input : List ℕ → MessageConn ℕ → MessageConn ℕ
with_input bs m = record m { rwc = record (m.rwc) { input = bs } }

abbrev hearing : MessageConn ℕ
hearing = with_input (turns 2 0 typed).rwc.output talking

hearing-Receiving : Receiving 1 0 [] (turns 2 0 typed).rwc.output hearing
unfolding talking idle
hearing-Receiving = record {
  idle = refl;
  usable = refl;
  incoming = refl;
  known = refl;
  stream = open_one;
  found = refl;
  open_channel = refl;
  wide = refl;
  queued = refl;
}

both_fit : All FitsWrite (encode_all codec (5 ∷ 6 ∷ []))
unfolding encode_all
both_fit = (omega arith, (omega arith, tt))

nothing_written : typed.rwc.output ≡ []
unfolding talking idle
nothing_written = refl

decode_response-lower_example :
    map (decode_response codec) (recv_all 2 0 (rounds 2 hearing)) ≡ ok 5 ∷ ok 6 ∷ []
decode_response-lower_example =
    decode_response-lower codec 1 0 0 0 (5 ∷ 6 ∷ []) typed hearing (omega arith) (ground arith)
      ((5 ∷ [], refl, refl), ((6 ∷ [], refl, refl), tt)) both_fit (omega arith) typed-CanSend
      nothing_written refl hearing-Receiving

-- ===== src/Tests/Streams.antt =====
-- Frames, streams and connections on concrete inputs.
use plugo.Prelude.{
  zero, suc, ap, drop, ◌<◌, ℕ, ◌+◌, ◌≡◌, ◌≢◌, ◌≤◌, ◌^◌, ◌%◌, ◌↔◌, ◌++◌, refl, arith, true, false,
  List, [], ◌∷◌, map, length,
}
use plugo.Io.{ok, panics, Rwc}
use plugo.Context.{quiet, background}
use plugo.Wire.{
  StreamFrame, stream_flag_start, stream_flag_close, stream_flag_data, frame_buffer, put_uint32,
}
use plugo.Wire.RoundTrip.{frame_bytes, read_frame-frame_buffer}
use plugo.Wire.Overflow.{frame_buffer-eq-panics}
use plugo.Conn.{MessageConn, new_message_conn, register_stream, write_data}
use plugo.Reader.{channel, read_frame, loop_turn, panicked, not_found_frame}
use plugo.System.{Act, arrive, turn, starts, polls, closes, run, perform}
use plugo.System.Sound.{IsSound}
use plugo.System.Safety.{loop_turn-ne-panicked, perform-IsSound}
use plugo.System.Storm.{Unaware, InFlight, rally, rally-InFlight}
use plugo.System.Sending.{send_all}
use plugo.System.Writes.{IsHealthy}
use plugo.System.Cut.{cut_message, read_frame-write_data}
use plugo.System.Transfer.{rounds, recv_all, recv_all-send_all}
use plugo.Tests.{link, byte_codec}

abbrev open_frame : StreamFrame
open_frame = record { stream_id = 2; flags = stream_flag_start; payload = 0 ∷ 97 ∷ [] }

abbrev data_in : StreamFrame
data_in = record { stream_id = 2; flags = stream_flag_data; payload = 7 ∷ 8 ∷ [] }

abbrev close_in : StreamFrame
close_in = record { stream_id = 2; flags = stream_flag_close; payload = [] }

-- The peer opens a stream, sends on it and closes it twice; the stream is read and closed here too.
abbrev story : List Act
story =
    starts
    ∷ arrive (
        frame_bytes open_frame
        ++ (frame_bytes data_in ++ (frame_bytes close_in ++ frame_bytes close_in)))
    ∷ turn channel
    ∷ turn channel
    ∷ turn channel
    ∷ turn channel
    ∷ polls 0
    ∷ turn channel
    ∷ closes quiet 0
    ∷ turn channel
    ∷ []

loop_turn-ne-panicked_example :
    loop_turn channel (run story (new_message_conn link (byte_codec "json") true)) ≢ panicked
loop_turn-ne-panicked_example = loop_turn-ne-panicked link (byte_codec "json") true story channel

abbrev idle : MessageConn ℕ
unfolding new_message_conn
idle = new_message_conn link (byte_codec "json") true

-- A connection with one open stream, whose id is 1.
abbrev talking : MessageConn ℕ
unfolding register_stream
talking = (register_stream 1 idle).1

perform-IsSound_example : IsSound (perform (closes quiet 0) talking)
unfolding talking idle
perform-IsSound_example =
    perform-IsSound (closes quiet 0) talking
      (record { entries = ((refl, refl), refl, tt); held = tt; queues = (refl, refl) })

abbrev payloads : List (List ℕ)
payloads = (1 ∷ 2 ∷ []) ∷ [] ∷ (3 ∷ []) ∷ []

abbrev with_input : List ℕ → MessageConn ℕ → MessageConn ℕ
with_input bs m = record m { rwc = record (m.rwc) { input = bs } }

abbrev hearing : MessageConn ℕ
hearing = with_input (send_all 0 payloads talking).rwc.output talking

recv_all-send_all_example :
    (recv_all 3 0 (rounds 3 hearing) ≡ map ok payloads) × ((rounds 3 hearing).rwc.input ≡ [])
unfolding talking idle
recv_all-send_all_example =
    recv_all-send_all 1 0 0 payloads talking hearing (omega arith) (ground arith)
      (omega arith, (omega arith, (omega arith, tt))) (omega arith)
      (record {
        healthy = record { usable = refl; writable = refl };
        stream = record {
          id = 1;
          recv_ch = record { items = []; capacity = 100; closed = false };
          cancelled = false;
        };
        found = refl;
        named = refl;
        live = refl;
      })
      refl
      (record {
        idle = refl;
        usable = refl;
        incoming = refl;
        known = refl;
        stream = record {
          id = 1;
          recv_ch = record { items = []; capacity = 100; closed = false };
          cancelled = false;
        };
        found = refl;
        open_channel = refl;
        wide = refl;
        queued = refl;
      })

Unaware-with : (bs : List ℕ) → Unaware 2 (with_input bs idle)
unfolding idle
Unaware-with bs = record {
  idle = refl;
  healthy = record { usable = refl; writable = refl };
  unknown = refl;
}

-- The close frame of a stream that both sides have closed.
rally-InFlight_example :
    InFlight 2
      (not_found_frame 2)
      (rally 5 (with_input (frame_bytes close_in) idle, with_input [] idle))
unfolding idle
rally-InFlight_example =
    rally-InFlight 4 close_in (with_input (frame_bytes close_in) idle, with_input [] idle)
      (record { short = omega arith; id_fits = omega arith; flags_fit = omega arith })
      (ground arith) refl
      (record {
        left = Unaware-with (frame_bytes close_in);
        right = Unaware-with [];
        incoming = refl;
        quiet_left = refl;
        quiet_right = refl;
        silent = refl;
      })

abbrev framed : Rwc
framed = record link { input = frame_bytes open_frame ++ 9 ∷ [] }

open_frame_bytes : frame_buffer open_frame ≡ ok (frame_bytes open_frame)
unfolding frame_buffer put_uint32
open_frame_bytes = refl

read_frame-frame_buffer_example :
    read_frame framed ≡ (ok open_frame, record framed { input = 9 ∷ [] })
read_frame-frame_buffer_example =
    read_frame-frame_buffer open_frame (frame_bytes open_frame) (9 ∷ []) framed
      (record { short = omega arith; id_fits = omega arith; flags_fit = omega arith }) refl
      open_frame_bytes refl

-- n sevens.
unfoldable sevens : ℕ → List ℕ
sevens zero = []
sevens (suc n) = 7 ∷ sevens n

length-sevens : (n : ℕ) → length (sevens n) ≡ n
unfolding sevens
length-sevens zero = refl
length-sevens (suc n) = ap suc (length-sevens n)

-- Three bytes more than 4 GiB.
abbrev size : ℕ
size = 2 ^ 32 + 3

-- The host's link behind the write, and what the plugin reads of it.
abbrev after_write : MessageConn ℕ
after_write = (write_data background (sevens size) idle).1

abbrev peer : Rwc
peer = record link { input = drop (length idle.rwc.output) after_write.rwc.output ++ [] }

size_long : 2 ^ 32 ≤ length (sevens size)
size_long = omega (arith, length-sevens size)

size_low : length (sevens size) % 2 ^ 32 + 12 < 2 ^ 32
size_low = omega (arith, length-sevens size)

idle-IsHealthy : IsHealthy idle.rwc
unfolding idle
idle-IsHealthy = record { usable = refl; writable = refl }

read_frame-write_data_example :
    ((write_data background (sevens size) idle).0 ≡ ok tt)
    × (read_frame peer ≡ (ok (cut_message (sevens size)), record peer { input = [] }))
    × (length (cut_message (sevens size)).payload ≡ length (sevens size) % 2 ^ 32)
    × (length (cut_message (sevens size)).payload < length (sevens size))
read_frame-write_data_example =
    read_frame-write_data (sevens size) [] idle peer size_long size_low idle-IsHealthy refl refl

frame_buffer-eq-panics_example :
    (frame_buffer data_in ≡ panics) ↔ (2 ^ 32 ≤ length data_in.payload % 2 ^ 32 + 12)
frame_buffer-eq-panics_example = frame_buffer-eq-panics data_in

-- ===== src/Tests/Ends.antt =====
-- The ends of streams and calls, and the ids of streams, on concrete connections.
use plugo.Prelude.{
  if◌then◌else◌, ◌*◌, ◌^◌, false, ◌+◌, ℕ, ◌%◌, ◌≡◌, ◌≢◌, ◌++◌, refl, arith, true, List, [], ◌∷◌,
  none, some, lookup, nat_eq,
}
use plugo.Io.{read_full, unexpected_eof, ok, fail, eof, text_bytes, closed_file, wrapped, write}
use plugo.Context.{background, quiet, conn_with_context}
use plugo.Wire.{frame_buffer}
use plugo.Wire.RoundTrip.{frame_bytes}
use plugo.Conn.{
  MessageConn, new_message_conn, start_read_loop, register_stream, reserve_id, start_stream,
  announce, write_stream_frame,
}
use plugo.Reader.{channel, stream_done, read_frame}
use plugo.Routing.{CallCtx, recv, await_single, call_single_multi}
use plugo.Routing.Cleanup.{call_single_multi-fail}
use plugo.System.Shutdown.{Ended, loop_turn-Ended}
use plugo.System.{Act, starts, registers, arrive, turn, reserves, run, perform}
use plugo.System.Parity.{reserve_times, reserve_times-id, reserve_id-ne}
use plugo.System.Transfer.{Receiving}
use plugo.System.Endings.{
  error_frame, close_frame, result_of, turn_by, recv-error_frame, await_single-close_frame,
}
use plugo.Tests.{link, byte_codec}

abbrev host : MessageConn ℕ
unfolding new_message_conn
host = new_message_conn link (byte_codec "json") true

abbrev plugin : MessageConn ℕ
unfolding new_message_conn
plugin = new_message_conn link (byte_codec "gob") false

host_id :
    (reserve_id (run (reserves ∷ []) (new_message_conn link (byte_codec "json") true))).0 ≡ ok 3
unfolding reserve_id run perform new_message_conn
host_id = refl

plugin_id : (reserve_id (run [] (new_message_conn link (byte_codec "gob") false))).0 ≡ ok 2
unfolding reserve_id run new_message_conn
plugin_id = refl

reserve_id-ne_example : (3 % 2 ≡ 1) × (2 % 2 ≡ 0) × ◌≢◌ {A = ℕ} 3 2
reserve_id-ne_example =
    reserve_id-ne link link (byte_codec "json") (byte_codec "gob") (reserves ∷ []) [] 3 2 host_id
      plugin_id

reserve_times-id_example :
    (reserve_id (reserve_times 3 (new_message_conn link (byte_codec "gob") false))).0
    ≡ ok (((if false then 1 else 2) + 2 * 3) % 2 ^ 32)
reserve_times-id_example = reserve_times-id link (byte_codec "gob") false 3

-- A connection with one open stream under id 1, nothing queued, and bytes to come.
abbrev waiting_for : List ℕ → MessageConn ℕ
waiting_for bs = record (host) {
  rwc = record link { input = bs };
  streams = (1, 0) ∷ [];
  objects =
      record {
        id = 1;
        recv_ch = record { items = []; capacity = 100; closed = false };
        cancelled = false;
      }
      ∷ [];
}

waiting-Receiving : (bs : List ℕ) → Receiving 1 0 [] bs (waiting_for bs)
unfolding host
waiting-Receiving bs = record {
  idle = refl;
  usable = refl;
  incoming = refl;
  known = refl;
  stream = record {
    id = 1;
    recv_ch = record { items = []; capacity = 100; closed = false };
    cancelled = false;
  };
  found = refl;
  open_channel = refl;
  wide = refl;
  queued = refl;
}

abbrev boom : List ℕ
boom = 98 ∷ 111 ∷ 111 ∷ 109 ∷ []

recv-error_frame_example :
    (result_of (
        recv channel background 0 (
          turn_by channel (turn_by channel (waiting_for (frame_bytes (error_frame 1 boom) ++ [])))))
      ≡ some (fail (text_bytes "stream error from peer" boom)))
    × (result_of (
          recv stream_done background 0 (
            turn_by stream_done
              (turn_by channel (waiting_for (frame_bytes (error_frame 1 boom) ++ [])))))
        ≡ some (fail eof))
recv-error_frame_example =
    recv-error_frame 1 0 boom (waiting_for (frame_bytes (error_frame 1 boom) ++ [])) channel
      background (omega arith) (omega arith) (omega arith)
      (waiting-Receiving (frame_bytes (error_frame 1 boom) ++ []))

await_single-close_frame_example :
    result_of (
      await_single channel background quiet 0
        (turn_by channel (waiting_for (frame_bytes (close_frame 1) ++ []))))
    ≡ some (ok [])
await_single-close_frame_example =
    await_single-close_frame 1 0 (waiting_for (frame_bytes (close_frame 1) ++ [])) channel
      background quiet (omega arith) (omega arith)
      (waiting-Receiving (frame_bytes (close_frame 1) ++ []))

abbrev calm : CallCtx
calm = record {
  at_start = background;
  at_send = background;
  pick = channel;
  at_close_write = quiet;
  at_close = quiet;
}

-- A host whose link is closed.
abbrev cut_off : MessageConn ℕ
cut_off = record (host) { rwc = record link { closed = true } }

call_fails :
    (call_single_multi calm boom [] cut_off).0
    ≡ fail (wrapped "failed to write stream frame" closed_file)
unfolding call_single_multi start_stream announce write_stream_frame frame_buffer conn_with_context
    write host reserve_id register_stream
call_fails = refl

call_single_multi-fail_example : lookup 1 (call_single_multi calm boom [] cut_off).1.streams ≡ none
unfolding host
call_single_multi-fail_example =
    call_single_multi-fail calm boom [] cut_off (wrapped "failed to write stream frame" closed_file)
      refl call_fails

-- A connection with a stream, whose peer goes away in the middle of a header.
abbrev cut_header : List Act
cut_header = starts ∷ registers 1 ∷ arrive (0 ∷ 0 ∷ 0 ∷ []) ∷ []

cut_header_reads :
    (read_frame (run cut_header (new_message_conn link (byte_codec "json") true)).rwc).0
    ≡ fail unexpected_eof
unfolding read_frame read_full run perform new_message_conn start_read_loop register_stream
cut_header_reads = refl

loop_turn-Ended_example :
    Ended unexpected_eof
      (run cut_header (new_message_conn link (byte_codec "json") true)).streams
      (perform (turn channel) (run cut_header (new_message_conn link (byte_codec "json") true)))
unfolding run perform new_message_conn start_read_loop register_stream
loop_turn-Ended_example =
    loop_turn-Ended link (byte_codec "json") true cut_header channel unexpected_eof refl
      cut_header_reads

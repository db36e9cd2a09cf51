-- ===== src/System/Writes.antt =====
-- What a write puts on a working connection, and what a turn of the read loop takes off it.
use plugo.Prelude.{ℕ, ◌≡◌, ◌++◌, arith, List, none}
use plugo.Io.{Rwc, ok, refusal, write}
use plugo.Context.{background, conn_with_context}
use plugo.Wire.{StreamFrame}
use plugo.Wire.RoundTrip.{IsSmall, frame_bytes, frame_buffer_small, read_frame-frame_bytes}
use plugo.Conn.{MessageConn, reading, write_stream_frame, write_buffer}
use plugo.Reader.{Pick, loop_turn, receive, dispatch}

-- Neither closed nor past a deadline, and no write fails.
pub record IsHealthy (r : Rwc) : Type 0 where
  pub usable : refusal r ≡ none
  pub writable : r.fault ≡ none

abbrev pub put_output : List ℕ → Rwc → Rwc
put_output bs r = record r { output = r.output ++ bs }

abbrev pub rest_input : List ℕ → Rwc → Rwc
rest_input bs r = record r { input = bs }

pub write_healthy : (bs : List ℕ) (r : Rwc) → IsHealthy r → write bs r ≡ (ok tt, put_output bs r)
unfolding write
write_healthy bs r h = ground arith

module _ {V : Type 0} where
  abbrev pub with_rwc : Rwc → MessageConn V → MessageConn V
  with_rwc r m = record m { rwc = r }

  -- A frame is written whole, at the end of what was written before.
  pub write_stream_frame-frame_bytes :
      (f : StreamFrame) (m : MessageConn V)
      → IsSmall f
      → IsHealthy m.rwc
      → write_stream_frame background f m ≡ (ok tt, with_rwc (put_output (frame_bytes f) m.rwc) m)
  unfolding write_stream_frame conn_with_context
  write_stream_frame-frame_bytes f m s h =
      rw (frame_buffer_small f s.short, write_buffer) (rw (write_healthy (frame_bytes f) m.rwc h))

  -- At the head of its round the loop reads the next frame, and receives it.
  pub loop_turn-frame_bytes :
      (pick : Pick) (f : StreamFrame) (rest : List ℕ) (m : MessageConn V)
      → m.loop ≡ reading
      → IsSmall f
      → refusal m.rwc ≡ none
      → m.rwc.input ≡ frame_bytes f ++ rest
      → loop_turn pick m ≡ receive f (with_rwc (rest_input rest m.rwc) m)
  unfolding loop_turn dispatch
  loop_turn-frame_bytes pick f rest m e s h i =
      rw (e, loop_turn) (rw (read_frame-frame_bytes f rest m.rwc s h i))

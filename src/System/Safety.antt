-- ===== src/System/Safety.antt =====
-- In every history of a connection the read loop never panics.
use plugo.Prelude.{◌≢◌, refl, subst, Bool, List, [], ◌∷◌, arith}
use plugo.Io.{Rwc}
use plugo.Codec.{Codec}
use plugo.Conn.{
  MessageConn, new_message_conn, start_read_loop, handle_single_multi, handle_multi_single,
  handle_bidi, write_data, write_stream_frame, reserve_id,
}
use plugo.Reader.{Pick, Turn, turned, parked, panicked, loop_turn, accept_stream}
use plugo.System.{
  Act, arrive, turn, starts, writes, writes_frame, reads, accepts, reserves, registers, removes,
  sends, polls, selects, cancels, closes_write, closes, closes_conn, handles_single_multi,
  handles_multi_single, handles_bidi, serves, after_turn, perform, run,
}
use plugo.System.Sound.{IsSound, Keeps-cancel_at}
use plugo.System.Steps.{
  IsSafe, loop_turn-IsSafe, objects-IsSound, rwc-IsSound, remove_stream-IsSound,
  register_stream-IsSound,
}
use plugo.System.Serving.{task_turn-IsSound}
use plugo.System.Calls.{
  recv_poll-IsSound, recv_select-IsSound, send-IsSound, close_write-IsSound, close-IsSound,
  close_conn-IsSound, read_data-IsSound, accept_select-IsSound,
}

module _ {V : Type 0} where
  after_turn-IsSound :
      (t : Turn (MessageConn V)) (m : MessageConn V)
      → IsSafe t
      → IsSound m
      → IsSound (after_turn t m)
  after_turn-IsSound (turned m') m s v = s
  after_turn-IsSound parked m s v = v
  after_turn-IsSound panicked m s v = v

  reserve_id-IsSound : (m : MessageConn V) → IsSound m → IsSound (reserve_id m).1
  unfolding reserve_id
  reserve_id-IsSound m v = ground arith

  start_read_loop-IsSound : (m : MessageConn V) → IsSound m → IsSound (start_read_loop m)
  unfolding start_read_loop
  start_read_loop-IsSound m v = record { entries = v.entries; held = v.held; queues = v.queues }

  -- Every act of any goroutine keeps the invariant.
  pub perform-IsSound : (a : Act) (m : MessageConn V) → IsSound m → IsSound (perform a m)
  unfolding perform accept_stream write_data write_stream_frame start_read_loop handle_single_multi
      handle_multi_single handle_bidi
  perform-IsSound (arrive bs) m v = rwc-IsSound m v _
  perform-IsSound (turn pick) m v =
      after_turn-IsSound (loop_turn pick m) m (loop_turn-IsSafe m v pick) v
  perform-IsSound starts m v = start_read_loop-IsSound m v
  perform-IsSound (writes ctx bs) m v = rwc-IsSound m v _
  perform-IsSound (writes_frame ctx f) m v = rwc-IsSound m v _
  perform-IsSound (reads pick ctx) m v = read_data-IsSound m v pick ctx
  perform-IsSound (accepts pick ctx) m v =
      accept_select-IsSound (start_read_loop m) (start_read_loop-IsSound m v) pick ctx
  perform-IsSound reserves m v = reserve_id-IsSound m v
  perform-IsSound (registers id) m v = register_stream-IsSound m v id
  perform-IsSound (removes id) m v = remove_stream-IsSound m v id
  perform-IsSound (sends pick ctx ref bs) m v = send-IsSound m v pick ctx ref bs
  perform-IsSound (polls ref) m v = recv_poll-IsSound m v ref
  perform-IsSound (selects pick ctx ref) m v = recv_select-IsSound m v pick ctx ref
  perform-IsSound (cancels ref) m v = objects-IsSound m v _ (Keeps-cancel_at ref m.objects)
  perform-IsSound (closes_write t ref) m v = close_write-IsSound m v t ref
  perform-IsSound (closes t ref) m v = close-IsSound m v t ref
  perform-IsSound closes_conn m v = close_conn-IsSound m v
  perform-IsSound (handles_single_multi route h) m v = record {
    entries = v.entries;
    held = v.held;
    queues = v.queues;
  }
  perform-IsSound (handles_multi_single route h) m v = record {
    entries = v.entries;
    held = v.held;
    queues = v.queues;
  }
  perform-IsSound (handles_bidi route h) m v = record {
    entries = v.entries;
    held = v.held;
    queues = v.queues;
  }
  perform-IsSound (serves pick t i) m v = task_turn-IsSound pick t i m v

  pub run-IsSound : (l : List Act) (m : MessageConn V) → IsSound m → IsSound (run l m)
  unfolding run
  run-IsSound [] m v = v
  run-IsSound (a ∷ l) m v = run-IsSound l (perform a m) (perform-IsSound a m v)

  pub new_message_conn-IsSound :
      (r : Rwc) (c : Codec V) (b : Bool) → IsSound (new_message_conn r c b)
  unfolding new_message_conn
  new_message_conn-IsSound r c b = record { entries = tt; held = tt; queues = (refl, refl) }

  -- After any acts of any goroutines on a new connection, in any order, whatever bytes the peer sends,
  -- the next act of the read loop does not panic: it closes no channel twice, sends on no closed
  -- channel and follows no nil stream.
  pub loop_turn-ne-panicked :
      (r : Rwc) (c : Codec V) (is_host : Bool) (l : List Act) (pick : Pick)
      → loop_turn pick (run l (new_message_conn r c is_host)) ≢ panicked
  loop_turn-ne-panicked r c is_host l pick e =
      subst IsSafe e
        (loop_turn-IsSafe _ (run-IsSound l _ (new_message_conn-IsSound r c is_host)) pick)

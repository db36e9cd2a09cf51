-- ===== src/System.antt =====
-- Everything that can happen to one connection, as a list of acts of its goroutines in any order: the
-- read loop's rounds, the peer's bytes, and the methods, or the parts of a method between which others
-- may act (the three steps of `Close` stand also alone: `cancels`, `writes_frame`, `removes`).
pub mod Sound
pub mod Serving
pub mod Replying
pub mod Steps
pub mod Calls
pub mod Writes
pub mod Cut
pub mod Closing
pub mod Storm
pub mod Sending
pub mod Transfer
pub mod Safety
pub mod Numbers
pub mod Parity
pub mod Endings
pub mod Shutdown
pub mod Takes
pub mod Progress
pub mod Rest
use plugo.Prelude.{ℕ, ◌++◌, List, [], ◌∷◌}
use plugo.Context.{Ctx, Moment}
use plugo.Wire.{StreamFrame}
use plugo.Talk.{Talk, Collector, SingleMultiHandler}
use plugo.Conn.{
  MessageConn, close_conn, start_read_loop, handle_single_multi, handle_multi_single, handle_bidi,
  write_data, write_stream_frame, remove_stream, cancel_at, reserve_id, register_stream,
}
use plugo.Reader.{
  Pick, Attempt, returned, waits, Turn, turned, parked, panicked, read_data, accept_stream,
  loop_turn,
}
use plugo.Tasks.{task_turn}
use plugo.Stream.{send, recv_poll, recv_select, close_write, close}

pub data Act : Type 0 where
  arrive : List ℕ → Act
  turn : Pick → Act
  starts : Act
  writes : Ctx → List ℕ → Act
  writes_frame : Ctx → StreamFrame → Act
  reads : Pick → Ctx → Act
  accepts : Pick → Ctx → Act
  reserves : Act
  registers : ℕ → Act
  removes : ℕ → Act
  sends : Pick → Ctx → ℕ → List ℕ → Act
  polls : ℕ → Act
  selects : Pick → Ctx → ℕ → Act
  cancels : ℕ → Act
  closes_write : Moment → ℕ → Act
  closes : Moment → ℕ → Act
  closes_conn : Act
  handles_single_multi : List ℕ → SingleMultiHandler → Act
  handles_multi_single : List ℕ → Collector → Act
  handles_bidi : List ℕ → Talk → Act
  serves : Pick → Moment → ℕ → Act

module _ {V : Type 0} where
  -- A call that blocks changes nothing; it is tried again by a later act.
  abbrev pub after : {A : Type 0} → Attempt A (MessageConn V) → MessageConn V → MessageConn V
  after (returned r m') m = m'
  after waits m = m

  abbrev pub after_turn : Turn (MessageConn V) → MessageConn V → MessageConn V
  after_turn (turned m') m = m'
  after_turn parked m = m
  after_turn panicked m = m

  abbrev pub arrival : List ℕ → MessageConn V → MessageConn V
  arrival bs m = record m { rwc = record rwc { input = rwc.input ++ bs } }
    where
      open m use {rwc}

  unfoldable pub perform : Act → MessageConn V → MessageConn V
  perform (arrive bs) m = arrival bs m
  perform (turn pick) m = after_turn (loop_turn pick m) m
  perform starts m = start_read_loop m
  perform (writes ctx bs) m = (write_data ctx bs m).1
  perform (writes_frame ctx f) m = (write_stream_frame ctx f m).1
  perform (reads pick ctx) m = after (read_data pick ctx m) m
  perform (accepts pick ctx) m = after (accept_stream pick ctx m) (start_read_loop m)
  perform reserves m = (reserve_id m).1
  perform (registers id) m = (register_stream id m).1
  perform (removes id) m = remove_stream id m
  perform (sends pick ctx ref bs) m = (send pick ctx ref bs m).1
  perform (polls ref) m = after (recv_poll ref m) m
  perform (selects pick ctx ref) m = after (recv_select pick ctx ref m) m
  perform (cancels ref) m = record m { objects = cancel_at ref m.objects }
  perform (closes_write t ref) m = (close_write t ref m).1
  perform (closes t ref) m = (close t ref m).1
  perform closes_conn m = (close_conn m).1
  perform (handles_single_multi route h) m = handle_single_multi route h m
  perform (handles_multi_single route h) m = handle_multi_single route h m
  perform (handles_bidi route h) m = handle_bidi route h m
  perform (serves pick t i) m = task_turn pick t i m

  unfoldable pub run : List Act → MessageConn V → MessageConn V
  run [] m = m
  run (a ∷ rest) m = run rest (perform a m)

-- ===== src/Stream.antt =====
-- stream.go: the calls on a stream. A stream is an index into the connection's `objects`.
use plugo.Prelude.{
  ℕ, Bool, true, false, List, [], Option, none, some, if◌then◌else◌, ◌||◌, get_elem?, set,
}
use plugo.Io.{
  Failure, eof, canceled, deadline_exceeded, text_bytes, wrapped, Result, ok, fail, panics, Done,
}
use plugo.Context.{Ctx, Moment}
use plugo.Wire.{
  StreamFrame, has_flag, stream_flag_data, stream_flag_close, stream_flag_error,
  stream_flag_close_write,
}
use plugo.Chan
use plugo.Chan.{got, drained, empty}
use plugo.Conn.{Stream, MessageConn, cancel_at, write_stream_frame, remove_stream}
use plugo.Reader.{Pick, channel, stream_done, ctx_done, Attempt, returned, waits}

-- `context.WithTimeout(context.Background(), 2*time.Second)`, with the moment at which it ends.
abbrev pub two_seconds : Moment → Ctx
two_seconds t = record {
  err = none;
  cancellable = true;
  deadline = some 2;
  moment = t;
  cause = deadline_exceeded;
}

-- The select at the head of `Send`: an error if a context is done, either one if both are.
abbrev pub send_gate : Pick → Bool → Option Failure → Option Failure
send_gate p false e = e
send_gate p true none = some (wrapped "stream is closed" canceled)
send_gate ctx_done true (some e) = some e
send_gate _ true (some e) = some (wrapped "stream is closed" canceled)

-- What `Recv` makes of a frame. The second part says that it calls `s.cancel()`.
unfoldable pub read_out : StreamFrame → Result (List ℕ) × Bool
read_out f =
    if has_flag f.flags stream_flag_close || has_flag f.flags stream_flag_close_write
    then (fail eof, has_flag f.flags stream_flag_close)
    else if has_flag f.flags stream_flag_error
    then (fail (text_bytes "stream error from peer" f.payload), true)
    else (ok f.payload, false)

abbrev pub cancel_if : Bool → ℕ → List Stream → List Stream
cancel_if true ref os = cancel_at ref os
cancel_if false ref os = os

module _ {V : Type 0} where
  unfoldable pub send : Pick → Ctx → ℕ → List ℕ → MessageConn V → Done × MessageConn V
  unfolding write_stream_frame
  send pick ctx ref bs m = elim (get_elem? m.objects ref) [
    | none ↦ (panics, m)
    | some s ↦ elim (send_gate pick s.cancelled ctx.err) [
      | some e ↦ (fail e, m)
      | none ↦
          write_stream_frame ctx
            (record { stream_id = s.id; flags = stream_flag_data; payload = bs }) m
    ]
  ]

  -- A receive from `recvCh` that takes a frame; `b` says that this place of the code cancels.
  abbrev pub take_frame : Bool → ℕ → Stream → MessageConn V → Attempt (List ℕ) (MessageConn V)
  take_frame b ref s m = elim (Chan.recv s.recv_ch) [
    | got f c ↦
        (let os = set m.objects ref (record s { recv_ch = c }) in
          let (r, cancels) = read_out f in
          returned r (record m { objects = if b then cancel_if cancels ref os else os }))
    | drained ↦ returned (fail eof) m
    | empty ↦ waits
  ]

  -- The first select of `Recv`; `waits` is its `default`.
  unfoldable pub recv_poll : ℕ → MessageConn V → Attempt (List ℕ) (MessageConn V)
  unfolding read_out
  recv_poll ref m = elim (get_elem? m.objects ref) [
    | none ↦ returned panics m
    | some s ↦ take_frame true ref s m
  ]

  abbrev pub or_eof_now :
      Attempt (List ℕ) (MessageConn V) → MessageConn V → Attempt (List ℕ) (MessageConn V)
  or_eof_now (returned r m') m = returned r m'
  or_eof_now waits m = returned (fail eof) m

  abbrev pub recv_case : Pick → Ctx → ℕ → Stream → MessageConn V → Attempt (List ℕ) (MessageConn V)
  recv_case stream_done ctx ref s m =
      if s.cancelled then or_eof_now (take_frame false ref s m) m else waits
  recv_case ctx_done ctx ref s m = elim ctx.err [ none ↦ waits | some e ↦ returned (fail e) m ]
  recv_case channel ctx ref s m = take_frame true ref s m

  -- The second select of `Recv`: the stream is cancelled, the context is done, or a frame is there.
  unfoldable pub recv_select : Pick → Ctx → ℕ → MessageConn V → Attempt (List ℕ) (MessageConn V)
  unfolding read_out
  recv_select pick ctx ref m = elim (get_elem? m.objects ref) [
    | none ↦ returned panics m
    | some s ↦ recv_case pick ctx ref s m
  ]

  unfoldable pub close_write : Moment → ℕ → MessageConn V → Done × MessageConn V
  unfolding write_stream_frame
  close_write t ref m = elim (get_elem? m.objects ref) [
    | none ↦ (panics, m)
    | some s ↦
        write_stream_frame (two_seconds t)
          (record { stream_id = s.id; flags = stream_flag_close_write; payload = [] }) m
  ]

  -- `Close` cancels, writes the close frame whose error it drops, and removes the stream.
  unfoldable pub close : Moment → ℕ → MessageConn V → Done × MessageConn V
  unfolding write_stream_frame remove_stream
  close t ref m = elim (get_elem? m.objects ref) [
    | none ↦ (panics, m)
    | some s ↦
        (let m₁ = record m { objects = cancel_at ref m.objects } in
          let frame : StreamFrame = record {
            stream_id = s.id;
            flags = stream_flag_close;
            payload = [];
          } in
          (ok tt, remove_stream s.id (write_stream_frame (two_seconds t) frame m₁).1))
  ]

-- ===== src/Routing.antt =====
-- The client's side of conn_routing.go: `CallSingleMulti` and `CallMultiSingle`, and the goroutines that
-- they leave running.
pub mod Cleanup
use plugo.Prelude.{ℕ, Bool, true, false, List, [], none, some}
use plugo.Io.{eof, Result, ok, fail, panics, Done}
use plugo.Io
use plugo.Context.{Ctx, Moment}
use plugo.Wire.{stream_mode_single_multi, stream_mode_multi_single}
use plugo.Chan
use plugo.Chan.{Chan, make, sent, blocks, crashes, got, drained, empty}
use plugo.Conn.{MessageConn, start_stream}
use plugo.Reader.{Pick, ctx_done, Attempt, returned, waits}
use plugo.Stream.{send, recv_poll, recv_select, close_write, close}

-- What the caller's context and the two timeouts say at each call that writes.
pub record CallCtx : Type 0 where
  pub at_start : Ctx
  pub at_send : Ctx
  pub pick : Pick
  pub at_close_write : Moment
  pub at_close : Moment

-- The goroutine of `CallSingleMulti`: in `Recv`, in the select on `respCh`, or gone.
pub data Pump : Type 0 where
  receiving : Pump
  forwarding : List ℕ → Pump
  over : Pump

-- One act of a goroutine with a channel of its own.
pub data Act (S : Type 0) : Type 0 where
  acted : S → Act S
  waiting : Act S
  broken : Act S

-- `if err != nil && err != io.EOF { return nil, err }; return resp, nil`
unfoldable pub single_response : Result (List ℕ) → Result (List ℕ)
single_response (ok resp) = ok resp
single_response (fail eof) = ok []
single_response (fail e) = fail e
single_response panics = panics

module _ {V : Type 0} where
  -- `Recv`: its first select, and then its second.
  unfoldable pub recv : Pick → Ctx → ℕ → MessageConn V → Attempt (List ℕ) (MessageConn V)
  unfolding recv_poll recv_select
  recv pick ctx ref m = elim (recv_poll ref m) [
    | returned r m' ↦ returned r m'
    | waits ↦ recv_select pick ctx ref m
  ]

  -- `s.Close(); return nil, err`
  abbrev pub abandon :
      {A : Type 0} → Moment → ℕ → Io.Failure → MessageConn V → Result A × MessageConn V
  abandon t ref e m = (fail e, (close t ref m).1)

  abbrev pub end_request : CallCtx → ℕ → Done × MessageConn V → Result ℕ × MessageConn V
  end_request cc ref (ok _, m) = (ok ref, m)
  end_request cc ref (fail e, m) = abandon cc.at_close ref e m
  end_request cc ref (panics, m) = (panics, m)

  abbrev pub close_request : CallCtx → ℕ → Done × MessageConn V → Result ℕ × MessageConn V
  close_request cc ref (ok _, m) = end_request cc ref (close_write cc.at_close_write ref m)
  close_request cc ref (fail e, m) = abandon cc.at_close ref e m
  close_request cc ref (panics, m) = (panics, m)

  abbrev pub send_request : CallCtx → List ℕ → Result ℕ × MessageConn V → Result ℕ × MessageConn V
  send_request cc req (ok ref, m) = close_request cc ref (send cc.pick cc.at_send ref req m)
  send_request cc req (fail e, m) = (fail e, m)
  send_request cc req (panics, m) = (panics, m)

  -- `CallSingleMulti` up to its return; the stream's goroutine starts as `receiving` with `make 10`.
  unfoldable pub call_single_multi :
      CallCtx → List ℕ → List ℕ → MessageConn V → Result ℕ × MessageConn V
  unfolding start_stream send close_write close
  call_single_multi cc route req m =
      send_request cc req (start_stream cc.at_start route stream_mode_single_multi m)

  -- The goroutine's deferred calls: `close(respCh)`, then `s.Close()`.
  abbrev pub end_pump :
      Moment → ℕ → Chan (List ℕ) → MessageConn V → Act (Pump × Chan (List ℕ) × MessageConn V)
  end_pump t ref ch m = elim (Chan.close ch) [
    | none ↦ broken
    | some c ↦ acted (over, c, (close t ref m).1)
  ]

  abbrev pub after_recv :
      Moment
      → ℕ
      → Chan (List ℕ)
      → Attempt (List ℕ) (MessageConn V)
      → Act (Pump × Chan (List ℕ) × MessageConn V)
  after_recv t ref ch (returned (ok resp) m) = acted (forwarding resp, ch, m)
  after_recv t ref ch (returned (fail e) m) = end_pump t ref ch m
  after_recv t ref ch (returned panics m) = broken
  after_recv t ref ch waits = waiting

  abbrev pub forward :
      Pick
      → Ctx
      → Moment
      → ℕ
      → List ℕ
      → Chan (List ℕ)
      → MessageConn V
      → Act (Pump × Chan (List ℕ) × MessageConn V)
  forward ctx_done ctx t ref resp ch m = elim ctx.err [
    | none ↦ waiting
    | some e ↦ end_pump t ref ch m
  ]
  forward _ ctx t ref resp ch m = elim (Chan.send resp ch) [
    | sent c ↦ acted (receiving, c, m)
    | blocks ↦ waiting
    | crashes ↦ broken
  ]

  unfoldable pub pump_turn :
      Pick
      → Ctx
      → Moment
      → ℕ
      → Pump × Chan (List ℕ) × MessageConn V
      → Act (Pump × Chan (List ℕ) × MessageConn V)
  unfolding recv close
  pump_turn pick ctx t ref (receiving, ch, m) = after_recv t ref ch (recv pick ctx ref m)
  pump_turn pick ctx t ref (forwarding resp, ch, m) = forward pick ctx t ref resp ch m
  pump_turn pick ctx t ref (over, ch, m) = waiting

  abbrev pub after_feed :
      CallCtx
      → ℕ
      → Chan (List ℕ)
      → Done × MessageConn V
      → Act (Bool × Chan (List ℕ) × MessageConn V)
  after_feed cc ref ch (ok _, m) = acted (true, ch, m)
  after_feed cc ref ch (fail e, m) = acted (false, ch, (close cc.at_close ref m).1)
  after_feed cc ref ch (panics, m) = broken

  abbrev pub feed :
      Pick
      → CallCtx
      → ℕ
      → Chan (List ℕ)
      → MessageConn V
      → Act (Bool × Chan (List ℕ) × MessageConn V)
  feed ctx_done cc ref ch m = elim cc.at_send.err [
    | none ↦ waiting
    | some e ↦ acted (false, ch, (close cc.at_close ref m).1)
  ]
  feed _ cc ref ch m = elim (Chan.recv ch) [
    | got req c ↦ after_feed cc ref c (send cc.pick cc.at_send ref req m)
    | drained ↦ acted (false, ch, (close_write cc.at_close_write ref m).1)
    | empty ↦ waiting
  ]

  -- The goroutine of `CallMultiSingle` that sends the requests; the flag says that it still runs.
  unfoldable pub feed_turn :
      Pick
      → CallCtx
      → ℕ
      → Bool × Chan (List ℕ) × MessageConn V
      → Act (Bool × Chan (List ℕ) × MessageConn V)
  unfolding send close_write close
  feed_turn pick cc ref (true, ch, m) = feed pick cc ref ch m
  feed_turn pick cc ref (false, ch, m) = waiting

  abbrev pub answered :
      Moment → ℕ → Attempt (List ℕ) (MessageConn V) → Attempt (List ℕ) (MessageConn V)
  answered t ref (returned r m) = returned (single_response r) (close t ref m).1
  answered t ref waits = waits

  -- The rest of `CallMultiSingle`, with its deferred `s.Close()`.
  unfoldable pub await_single :
      Pick → Ctx → Moment → ℕ → MessageConn V → Attempt (List ℕ) (MessageConn V)
  unfolding recv single_response close
  await_single pick ctx t ref m = answered t ref (recv pick ctx ref m)

  -- `CallMultiSingle` up to the start of its goroutine.
  unfoldable pub call_multi_single : Ctx → List ℕ → MessageConn V → Result ℕ × MessageConn V
  unfolding start_stream
  call_multi_single ctx route = start_stream ctx route stream_mode_multi_single

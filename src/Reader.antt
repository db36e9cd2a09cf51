-- ===== src/Reader.antt =====
-- The receiving side of conn.go: `ReadData` and `ReadMessage`, and the background read loop with the
-- routing of new streams.
use plugo.Prelude.{
  ℕ, ◌++◌, true, List, [], ◌∷◌, Option, none, some, if◌then◌else◌, length, drop, get_elem?, set,
  lookup, insert, delete, ◌==◌, nat_eq, bytes_eq,
}
use plugo.Io.{
  Failure, eof, text_bytes, text_number, wrapped, wrapped_number, Result, ok, fail, panics, Rwc, Io,
  read_full, ◌>>=◌, ◌>>◌, pure, throw, wrap_io,
}
use plugo.Context.{Ctx, background, conn_with_context}
use plugo.Wire.{
  StreamFrame, uint32, has_flag, stream_flag_start, stream_flag_close, stream_flag_error,
  stream_mode_bidi, stream_mode_single_multi, stream_mode_multi_single,
}
use plugo.Chan
use plugo.Chan.{Chan, sent, blocks, crashes, got, drained, empty}
use plugo.Talk.{Talk, single_multi_body, multi_single_body}
use plugo.Conn.{
  Stream, reading, push_raw, push_accept, push_frame, stopped, MessageConn, cancel_at, on_rwc,
  fresh_stream, write_stream_frame, start_read_loop,
}

-- Which case of a `select` is taken where several are ready.
pub data Pick : Type 0 where
  channel stream_done ctx_done : Pick

-- What a call that may block gives: a result with the new connection, or nothing yet.
pub data Attempt (A : Type 0) (S : Type 0) : Type 0 where
  returned : Result A → S → Attempt A S
  waits : Attempt A S

-- One act of the read loop: a new state, a blocked select, or a panic.
pub data Turn (S : Type 0) : Type 0 where
  turned : S → Turn S
  parked : Turn S
  panicked : Turn S

-- `readFull` of `length` bytes, if there are any
abbrev pub read_payload : (Failure → Failure) → ℕ → Io (List ℕ)
read_payload w n r = if n == 0 then (ok [], r) else wrap_io w (read_full n r)

-- The head of a round of the read loop: a header and its payload.
unfoldable pub read_frame : Io StreamFrame
read_frame = do
  header ← read_full 12
  bs ← read_payload (wrapped "failed to read stream frame payload") (uint32 header)
  pure (record { stream_id = uint32 (drop 4 header); flags = uint32 (drop 8 header); payload = bs })

-- The error of the read of a payload that is thrown away is ignored.
abbrev pub ignoring {ℓ} : {A : Type ℓ} → Result A × Rwc → Result (Unit {0}) × Rwc
ignoring (ok a, r) = (ok tt, r)
ignoring (fail e, r) = (ok tt, r)
ignoring (panics, r) = (panics, r)

abbrev pub discard : ℕ → Io (Unit {0})
discard n r = if n == 0 then (ok tt, r) else ignoring (read_full n r)

-- A message frame's payload, or the text of a connection error frame as an error.
abbrev read_message_frame : ℕ → ℕ → Io (List ℕ)
read_message_frame len flags = do
  bs ← read_payload (wrapped_number "failed to read payload" len) len
  if has_flag flags stream_flag_error
      then throw (text_bytes "connection error frame received" bs)
      else pure bs

-- A stream frame is read off and refused.
abbrev refuse_stream_frame : ℕ → ℕ → Io (List ℕ)
refuse_stream_frame len id = do
  discard len
  throw (text_number "received stream frame in non-multiplexed synchronous mode" id)

-- `ReadData` while no read loop runs: the function that it hands to `withContext`.
unfoldable pub read_data_sync : Io (List ℕ)
read_data_sync = do
  header ← read_full 12
  if uint32 (drop 4 header) == 0
      then read_message_frame (uint32 header) (uint32 (drop 8 header))
      else refuse_stream_frame (uint32 header) (uint32 (drop 4 header))

-- `readLoopErr`, or else `io.EOF`
abbrev pub or_eof : (Failure → Failure) → Option Failure → Failure
or_eof w none = eof
or_eof w (some e) = w e

-- `fmt.Errorf` and the flag of the error frame for a stream that is not there; its payload is the text
-- "stream not found".
abbrev pub not_found_text : List ℕ
not_found_text =
    115 ∷ 116 ∷ 114 ∷ 101 ∷ 97 ∷ 109 ∷ 32 ∷ 110 ∷ 111 ∷ 116 ∷ 32 ∷ 102 ∷ 111 ∷ 117 ∷ 110 ∷ 100 ∷ []

abbrev pub not_found_frame : ℕ → StreamFrame
not_found_frame id = record { stream_id = id; flags = stream_flag_error; payload = not_found_text }

-- `close(s.recvCh)` after `s.cancel()`; `none` is a panic.
abbrev pub close_stream : Option Stream → Option Stream
close_stream none = none
close_stream (some s) = elim (Chan.close s.recv_ch) [
  | none ↦ none
  | some c ↦ some (record s { recv_ch = c; cancelled = true })
]

abbrev pub put_back : ℕ → List Stream → Option Stream → Option (List Stream)
put_back ref os none = none
put_back ref os (some s) = some (set os ref s)

abbrev pub close_at : ℕ → List Stream → Option (List Stream)
close_at ref os = put_back ref os (close_stream (get_elem? os ref))

-- The loop of `handleReadLoopError` over the streams.
abbrev pub close_all : List (ℕ × ℕ) → List Stream → Option (List Stream)
close_all [] os = some os
close_all ((id, ref) ∷ m) os =
    let rest = close_all m in elim (close_at ref os) [ none ↦ none | some os' ↦ rest os' ]

-- The mode and the route in the payload of a start frame; without one, the zero values.
abbrev pub mode_of : List ℕ → ℕ
mode_of [] = 0
mode_of (b ∷ bs) = b

abbrev pub route_of : List ℕ → List ℕ
route_of [] = []
route_of (b ∷ bs) = bs

module _ {V : Type 0} where
  -- `ReadData`'s select on `rawMsgCh`.
  unfoldable pub read_raw : Pick → Ctx → MessageConn V → Attempt (List ℕ) (MessageConn V)
  read_raw ctx_done ctx m = elim ctx.err [ none ↦ waits | some e ↦ returned (fail e) m ]
  read_raw _ ctx m = elim (Chan.recv m.raw_msg_ch) [
    | got bs c ↦ returned (ok bs) (record m { raw_msg_ch = c })
    | drained ↦ returned (fail (or_eof (λ e. e) m.read_loop_err)) m
    | empty ↦ waits
  ]

  unfoldable pub read_data : Pick → Ctx → MessageConn V → Attempt (List ℕ) (MessageConn V)
  unfolding read_raw read_data_sync
  read_data pick ctx m =
      if m.read_loop_started
      then read_raw pick ctx m
      else (let (r, m') = on_rwc (conn_with_context ctx read_data_sync) m in returned r m')

  abbrev pub decode : MessageConn V → Result (List ℕ) → Result V
  decode m (ok bs) = elim (m.codec.unmarshal bs) [
    | ok v ↦ ok v
    | fail e ↦ fail (wrapped "failed to unmarshal payload" e)
    | panics ↦ panics
  ]
  decode m (fail e) = fail e
  decode m panics = panics

  unfoldable pub read_message : Pick → Ctx → MessageConn V → Attempt V (MessageConn V)
  unfolding read_data
  read_message pick ctx m = elim (read_data pick ctx m) [
    | returned r m' ↦ returned (decode m' r) m'
    | waits ↦ waits
  ]

  unfoldable pub accept_select : Pick → Ctx → MessageConn V → Attempt ℕ (MessageConn V)
  accept_select ctx_done ctx m = elim ctx.err [ none ↦ waits | some e ↦ returned (fail e) m ]
  accept_select _ ctx m = elim (Chan.recv m.accept_ch) [
    | got ref c ↦ returned (ok ref) (record m { accept_ch = c })
    | drained ↦ returned (fail (or_eof (wrapped "read loop error") m.read_loop_err)) m
    | empty ↦ waits
  ]

  -- `AcceptStream` starts the read loop, also where it then waits.
  unfoldable pub accept_stream : Pick → Ctx → MessageConn V → Attempt ℕ (MessageConn V)
  unfolding accept_select start_read_loop
  accept_stream pick ctx m = accept_select pick ctx (start_read_loop m)

  -- The goroutine for a route: looked up in the map of the stream's mode.
  abbrev pub routed : ℕ → List ℕ → MessageConn V → Option Talk
  routed mode route m =
      if mode == stream_mode_single_multi
      then elim (lookup route m.single_multi_handlers) [
        | none ↦ none
        | some h ↦ some (single_multi_body h)
      ]
      else if mode == stream_mode_multi_single
      then elim (lookup route m.multi_single_handlers) [
        | none ↦ none
        | some h ↦ some (multi_single_body h)
      ]
      else if mode == stream_mode_bidi
      then lookup route m.bidi_handlers
      else none

  -- A routed stream is handed to its goroutine, another one to the select on `acceptCh`.
  unfoldable pub assign : Option Talk → ℕ → MessageConn V → MessageConn V
  assign (some t) ref m = record m { tasks = m.tasks ++ (ref, t) ∷ [] }
  assign none ref m = record m { loop = push_accept ref }

  -- A start frame of an unknown stream: the stream is made, and served or queued for `AcceptStream`.
  unfoldable pub open_stream : StreamFrame → MessageConn V → MessageConn V
  unfolding assign
  open_stream f m =
      let ref = length m.objects in
      assign (routed (mode_of f.payload) (route_of f.payload) m) ref (record m {
        objects = m.objects ++ fresh_stream f.stream_id ∷ [];
        streams = insert f.stream_id ref m.streams;
      })

  -- A frame of a known stream. A frame with the error flag is followed by the removal of the stream.
  unfoldable pub deliver : ℕ → StreamFrame → MessageConn V → Turn (MessageConn V)
  deliver ref f m =
      if has_flag f.flags stream_flag_close
      then elim (close_at ref m.objects) [
        | none ↦ panicked
        | some os ↦ turned (record m { objects = os; streams = delete f.stream_id m.streams })
      ]
      else if has_flag f.flags stream_flag_error
      then turned (record m { objects = cancel_at ref m.objects; loop = push_frame ref f })
      else turned (record m { loop = push_frame ref f })

  -- A frame of a stream that is not known.
  unfoldable pub receive_unknown : StreamFrame → MessageConn V → MessageConn V
  unfolding open_stream write_stream_frame
  receive_unknown f m =
      if has_flag f.flags stream_flag_start
      then open_stream f m
      else (write_stream_frame background (not_found_frame f.stream_id) m).1

  -- What the read loop does with a frame that it has read.
  unfoldable pub receive : StreamFrame → MessageConn V → Turn (MessageConn V)
  unfolding deliver receive_unknown
  receive f m =
      if f.stream_id == 0
      then turned (record m { loop = push_raw f.payload })
      else elim (lookup f.stream_id m.streams) [
        | none ↦ turned (receive_unknown f m)
        | some ref ↦ deliver ref f m
      ]

  -- `handleReadLoopError` and the two deferred calls of `close`.
  unfoldable pub handle_read_loop_error : Failure → MessageConn V → Turn (MessageConn V)
  handle_read_loop_error e m = elim (close_all m.streams m.objects) [
    | none ↦ panicked
    | some os ↦ elim (Chan.close m.accept_ch) [
      | none ↦ panicked
      | some a ↦ elim (Chan.close m.raw_msg_ch) [
        | none ↦ panicked
        | some c ↦ turned (record m {
          read_loop_err = some e;
          objects = os;
          streams = [];
          accept_ch = a;
          raw_msg_ch = c;
          read_loop_done = true;
          loop = stopped;
        })
      ]
    ]
  ]

  -- What follows the read of a frame: it is received, or the error ends the loop.
  unfoldable pub dispatch : Result StreamFrame → MessageConn V → Turn (MessageConn V)
  unfolding receive handle_read_loop_error
  dispatch (ok f) m = receive f m
  dispatch (fail e) m = handle_read_loop_error e m
  dispatch panics m = panicked

  -- Behind the select on a stream's channel: only the branch of the error flag removes the stream.
  abbrev pub settle : StreamFrame → MessageConn V → MessageConn V
  settle f m =
      if has_flag f.flags stream_flag_error
      then record m { streams = delete f.stream_id m.streams; loop = reading }
      else record m { loop = reading }

  -- `select { case <-s.ctx.Done(): case s.recvCh <- frame: }`
  unfoldable pub push_to :
      Pick → ℕ → StreamFrame → Option Stream → MessageConn V → Turn (MessageConn V)
  push_to pick ref f none m = panicked
  push_to stream_done ref f (some s) m = if s.cancelled then turned (settle f m) else parked
  push_to _ ref f (some s) m = elim (Chan.send f s.recv_ch) [
    | sent c ↦
        turned (settle f (record m { objects = set m.objects ref (record s { recv_ch = c }) }))
    | blocks ↦ parked
    | crashes ↦ panicked
  ]

  -- One act of the read loop.
  unfoldable pub loop_turn : Pick → MessageConn V → Turn (MessageConn V)
  unfolding read_frame dispatch push_to
  loop_turn pick m = elim m.loop [
    | reading ↦ (let (r, m') = on_rwc read_frame m in dispatch r m')
    | push_raw bs ↦ elim (Chan.send bs m.raw_msg_ch) [
      | sent c ↦ turned (record m { raw_msg_ch = c; loop = reading })
      | blocks ↦ parked
      | crashes ↦ panicked
    ]
    | push_accept ref ↦ elim (Chan.send ref m.accept_ch) [
      | sent c ↦ turned (record m { accept_ch = c; loop = reading })
      | blocks ↦ parked
      | crashes ↦ panicked
    ]
    | push_frame ref f ↦ push_to pick ref f (get_elem? m.objects ref) m
    | stopped ↦ parked
  ]

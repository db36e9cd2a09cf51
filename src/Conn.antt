-- ===== src/Conn.antt =====
-- The connection of conn.go, its routes and the opening of streams (conn_routing.go), and its writes.
-- Each function is what one goroutine does between taking a lock and giving it back, or between two
-- blocking points; plugo.System interleaves them.
use plugo.Prelude.{
  ℕ, ◌+◌, ◌++◌, Bool, true, false, List, [], ◌∷◌, Option, none, some, if◌then◌else◌, length,
  get_elem?, set, insert, delete, nat_eq, bytes_eq,
}
use plugo.Io.{Failure, Result, ok, fail, panics, Done, wrapped, Rwc, Io, write, close, wrapping}
use plugo.Context.{Ctx, conn_with_context}
use plugo.Wire.{StreamFrame, u32, frame_buffer, stream_flag_start, stream_mode_bidi}
use plugo.Chan.{Chan, make}
use plugo.Talk.{Talk, Collector, SingleMultiHandler}
use plugo.Codec.{Codec}

-- stream.go's `Stream`, less its pointer to the connection; the flag stands for `ctx` and `cancel`.
pub record Stream : Type 0 where
  pub id : ℕ
  pub recv_ch : Chan StreamFrame
  pub cancelled : Bool

-- Where the read loop stands: at the head of a round, blocked in one of its three selects, or gone.
pub data Loop : Type 0 where
  reading : Loop
  push_raw : List ℕ → Loop
  push_accept : ℕ → Loop
  push_frame : ℕ → StreamFrame → Loop
  stopped : Loop

-- A `*Stream` is an index into `objects`. `tasks` lists the goroutines that the loop has started.
pub record MessageConn (V : Type 0) : Type 0 where
  pub rwc : Rwc
  pub codec : Codec V
  pub streams : List (ℕ × ℕ)
  pub objects : List Stream
  pub accept_ch : Chan ℕ
  pub raw_msg_ch : Chan (List ℕ)
  pub read_loop_started : Bool
  pub read_loop_err : Option Failure
  pub read_loop_done : Bool
  pub next_stream_id : ℕ
  pub single_multi_handlers : List (List ℕ × SingleMultiHandler)
  pub multi_single_handlers : List (List ℕ × Collector)
  pub bidi_handlers : List (List ℕ × Talk)
  pub tasks : List (ℕ × Talk)
  pub loop : Loop

-- `s.cancel()`
abbrev pub cancel_at : ℕ → List Stream → List Stream
cancel_at ref os = elim (get_elem? os ref) [
  | none ↦ os
  | some s ↦ set os ref (record s { cancelled = true })
]

abbrev pub cancel_all : List (ℕ × ℕ) → List Stream → List Stream
cancel_all [] os = os
cancel_all ((id, ref) ∷ m) os = cancel_all m (cancel_at ref os)

abbrev pub fresh_stream : ℕ → Stream
fresh_stream id = record { id = id; recv_ch = make 100; cancelled = false }

-- A buffer, then its write under the context; a panic comes before anything is written.
abbrev pub write_buffer : Ctx → (Failure → Failure) → Result (List ℕ) → Io (Unit {0})
write_buffer ctx w (ok buf) r = conn_with_context ctx (wrapping w (write buf)) r
write_buffer ctx w (fail e) r = (fail e, r)
write_buffer ctx w panics r = (panics, r)

module _ {V : Type 0} where
  unfoldable pub new_message_conn : Rwc → Codec V → Bool → MessageConn V
  new_message_conn rwc codec is_host = record {
    rwc = rwc;
    codec = codec;
    streams = [];
    objects = [];
    accept_ch = make 100;
    raw_msg_ch = make 100;
    read_loop_started = false;
    read_loop_err = none;
    read_loop_done = false;
    next_stream_id = if is_host then 1 else 2;
    single_multi_handlers = [];
    multi_single_handlers = [];
    bidi_handlers = [];
    tasks = [];
    loop = reading;
  }

  -- `Close`: the streams are cancelled if the read loop runs.
  unfoldable pub close_conn : MessageConn V → Done × MessageConn V
  close_conn m =
      let os = if m.read_loop_started then cancel_all m.streams m.objects else m.objects in
      let (r, rwc') = close m.rwc in (r, record m { objects = os; rwc = rwc' })

  -- `startReadLoop`; the flag also stands for `readLoopOnce`.
  unfoldable pub start_read_loop : MessageConn V → MessageConn V
  start_read_loop m = record m { read_loop_started = true }

  unfoldable pub handle_single_multi : List ℕ → SingleMultiHandler → MessageConn V → MessageConn V
  handle_single_multi route h m = record m {
    single_multi_handlers = insert route h m.single_multi_handlers;
  }

  unfoldable pub handle_multi_single : List ℕ → Collector → MessageConn V → MessageConn V
  handle_multi_single route h m = record m {
    multi_single_handlers = insert route h m.multi_single_handlers;
  }

  unfoldable pub handle_bidi : List ℕ → Talk → MessageConn V → MessageConn V
  handle_bidi route h m = record m { bidi_handlers = insert route h m.bidi_handlers }

  -- A call on `m.rwc`; the rest of the connection stays.
  abbrev pub on_rwc {ℓ} : {A : Type ℓ} → Io A → MessageConn V → Result A × MessageConn V
  on_rwc io m = let (a, rwc') = io m.rwc in (a, record m { rwc = rwc' })

  unfoldable pub write_data : Ctx → List ℕ → MessageConn V → Done × MessageConn V
  write_data ctx bs = on_rwc (
      write_buffer ctx (wrapped "failed to write to connection")
        (frame_buffer (record { stream_id = 0; flags = 0; payload = bs })))

  unfoldable pub write_message : Ctx → V → MessageConn V → Done × MessageConn V
  unfolding write_data
  write_message ctx v m = elim (m.codec.marshal v) [
    | ok bs ↦ write_data ctx bs m
    | fail e ↦ (fail (wrapped "failed to marshal message" e), m)
    | panics ↦ (panics, m)
  ]

  unfoldable pub write_stream_frame : Ctx → StreamFrame → MessageConn V → Done × MessageConn V
  write_stream_frame ctx f =
      on_rwc (write_buffer ctx (wrapped "failed to write stream frame") (frame_buffer f))

  unfoldable pub remove_stream : ℕ → MessageConn V → MessageConn V
  remove_stream id m = record m { streams = delete id m.streams }

  -- `startStream` in its three parts: the first critical section takes an id …
  unfoldable pub reserve_id : MessageConn V → Result ℕ × MessageConn V
  reserve_id m = elim m.read_loop_err [
    | some e ↦ (fail (wrapped "read loop is not running due to error" e), m)
    | none ↦ (ok m.next_stream_id, record m { next_stream_id = u32 (m.next_stream_id + 2) })
  ]

  -- … the second puts a new stream under it …
  unfoldable pub register_stream : ℕ → MessageConn V → ℕ × MessageConn V
  register_stream id m = (
    length m.objects,
    record m {
      objects = m.objects ++ fresh_stream id ∷ [];
      streams = insert id (length m.objects) m.streams;
    },
  )

  -- … and the start frame is written. If that fails, the stream is removed.
  abbrev pub after_announce : ℕ → ℕ → Done × MessageConn V → Result ℕ × MessageConn V
  after_announce id ref (ok _, m) = (ok ref, m)
  after_announce id ref (fail e, m) = (fail e, remove_stream id m)
  after_announce id ref (panics, m) = (panics, m)

  unfoldable pub announce : Ctx → ℕ → List ℕ → ℕ → ℕ → MessageConn V → Result ℕ × MessageConn V
  unfolding write_stream_frame remove_stream
  announce ctx id route mode ref m =
      let frame : StreamFrame = record {
        stream_id = id;
        flags = stream_flag_start;
        payload = mode ∷ route;
      } in
      after_announce id ref (write_stream_frame ctx frame m)

  unfoldable pub start_stream : Ctx → List ℕ → ℕ → MessageConn V → Result ℕ × MessageConn V
  unfolding reserve_id register_stream announce
  start_stream ctx route mode m =
      let (r, m₁) = reserve_id m in
      elim r [
        | ok id ↦ let (ref, m₂) = register_stream id m₁ in announce ctx id route mode ref m₂
        | fail e ↦ (fail e, m₁)
        | panics ↦ (panics, m₁)
      ]

  unfoldable pub create_stream : Ctx → MessageConn V → Result ℕ × MessageConn V
  unfolding start_stream
  create_stream ctx = start_stream ctx [] stream_mode_bidi

  unfoldable pub call_bidi : Ctx → List ℕ → MessageConn V → Result ℕ × MessageConn V
  unfolding start_stream
  call_bidi ctx route = start_stream ctx route stream_mode_bidi

-- ===== src/IpcClient.antt =====
-- examples/host_go/main.go: `ipcClient`, which sends requests from many goroutines over one connection and
-- hands each response to the call that waits for it. `newIPCClient`, `readLoop`, `Call` and `Close`.
pub mod Acts
pub mod Kept
pub mod Steps
pub mod Answers
pub mod Delivery
use plugo.Prelude.{
  ℕ, ◌+◌, ◌++◌, Bool, true, false, List, [], ◌∷◌, Option, none, some, String, if◌then◌else◌, length,
  get_elem?, set, lookup, insert, delete, nat_eq,
}
use plugo.Io.{Failure, eof, canceled, text, wrapped, Result, ok, fail, panics, Done}
use plugo.Context.{Ctx, Moment}
use plugo.Wire.{u32}
use plugo.Chan
use plugo.Chan.{Chan, make, sent, blocks, crashes, got, drained, empty}
use plugo.Conn.{MessageConn}
use plugo.Reader.{Pick, Attempt, returned, waits}
use plugo.Generic.{read_value, write_value}
use plugo.Plugin.{Cmd, Plugin, plugin_close}
use plugo.Shared.{RequestPayload, ResponsePayload, IpcReqMessage, IpcRespMessage}

-- What goes to the codec as `any`: a pointer to a request, and, from `ReadMessage`, a pointer to the
-- response that it has filled.
pub record Payloads (V : Type 0) : Type 0 where
  pub request : IpcReqMessage → V
  pub response : V → IpcRespMessage

-- Where a goroutine in `Call` stands: behind `Store`, in its `select`, or at its end.
pub data Phase : Type 0 where
  stored : Phase
  waiting : Phase
  over : Result ResponsePayload → Phase

-- A goroutine in `Call`: its `reqID` and its `ch`.
pub record PendingCall : Type 0 where
  pub id : ℕ
  pub ch : Chan ResponsePayload
  pub phase : Phase

-- The client. `plugin` is `cmd` with the connection `conn`; a channel in `callbacks` is the index of its
-- call; the two flags say that `c.ctx` is done and that `readLoop` runs.
pub record IpcClient (V : Type 0) : Type 0 where
  pub cmd : Option Cmd
  pub conn : MessageConn V
  pub callbacks : List (ℕ × ℕ)
  pub active_id : ℕ
  pub cancelled : Bool
  pub reading : Bool
  pub calls : List PendingCall

-- The four cases of the `select` in `Call`.
pub data Case : Type 0 where
  result caller_done plugin_done timed_out : Case

abbrev pub is_eof : Failure → Bool
is_eof eof = true
is_eof e = false

abbrev pub conn_of : {V : Type 0} → MessageConn V → Option (MessageConn V) → MessageConn V
conn_of m none = m
conn_of m (some m') = m'

module _ {V : Type 0} where
  unfoldable pub new_ipc_client : Option Cmd → MessageConn V → IpcClient V
  new_ipc_client cmd conn = record {
    cmd = cmd;
    conn = conn;
    callbacks = [];
    active_id = 0;
    cancelled = false;
    reading = true;
    calls = [];
  }

  -- `c.ctx`
  abbrev pub client_ctx : Moment → IpcClient V → Ctx
  client_ctx t c = record {
    err = if c.cancelled then some canceled else none;
    cancellable = true;
    deadline = none;
    moment = t;
    cause = canceled;
  }

  -- The end of `readLoop` on an error.
  unfoldable pub read_failed : Failure → IpcClient V → IpcClient V
  read_failed e c =
      if is_eof e
      then record c { cancelled = true; reading = false }
      else if c.cancelled
      then record c { reading = false }
      else record c { cancelled = true; reading = false }

  -- `select { case ch <- resp.Payload: default: }`; nobody closes `ch`.
  abbrev pub push_sent : ℕ → PendingCall → IpcClient V → Chan.Sent ResponsePayload → IpcClient V
  push_sent ref call c (sent ch) = record c { calls = set c.calls ref (record call { ch = ch }) }
  push_sent ref call c blocks = c
  push_sent ref call c crashes = c

  abbrev pub push_payload : ℕ → ResponsePayload → IpcClient V → IpcClient V
  push_payload ref p c = elim (get_elem? c.calls ref) [
    | none ↦ c
    | some call ↦ push_sent ref call c (Chan.send p call.ch)
  ]

  unfoldable pub dispatch_response : IpcRespMessage → IpcClient V → IpcClient V
  dispatch_response resp c = elim (lookup resp.id c.callbacks) [
    | none ↦ c
    | some ref ↦ push_payload ref resp.payload c
  ]

  -- `Call`, up to `Store`.
  unfoldable pub begin_call : IpcClient V → IpcClient V
  begin_call c =
      let id = u32 (c.active_id + 1) in
      record c {
        active_id = id;
        callbacks = insert id (length c.calls) c.callbacks;
        calls = c.calls ++ (record { id = id; ch = make 1; phase = stored }) ∷ [];
      }

  -- A return of `Call`, with the deferred `Delete`.
  unfoldable pub end_call : ℕ → PendingCall → Result ResponsePayload → IpcClient V → IpcClient V
  end_call ref call r c = record c {
    callbacks = delete call.id c.callbacks;
    calls = set c.calls ref (record call { phase = over r });
  }

  abbrev pub after_write : ℕ → PendingCall → Done → IpcClient V → IpcClient V
  after_write ref call (ok _) c = record c {
    calls = set c.calls ref (record call { phase = waiting });
  }
  after_write ref call (fail e) c = end_call ref call (fail (wrapped "failed to write message" e)) c
  after_write ref call panics c = end_call ref call panics c

  -- The channel's case of the `select`.
  abbrev pub take_result :
      ℕ → PendingCall → IpcClient V → Chan.Received ResponsePayload → IpcClient V
  take_result ref call c (got p ch) = end_call ref (record call { ch = ch }) (ok p) c
  take_result ref call c drained = c
  take_result ref call c empty = c

  -- One case of the `select`; where it is not ready, nothing happens yet.
  abbrev pub select_case : Case → Ctx → ℕ → PendingCall → IpcClient V → IpcClient V
  select_case result ctx ref call c = take_result ref call c (Chan.recv call.ch)
  select_case caller_done ctx ref call c = elim ctx.err [
    | none ↦ c
    | some e ↦ end_call ref call (fail e) c
  ]
  select_case plugin_done ctx ref call c =
      if c.cancelled then end_call ref call (fail (text "plugin connection closed")) c else c
  select_case timed_out ctx ref call c = end_call ref call (fail (text "request timed out")) c

  abbrev pub await_phase : Phase → Case → Ctx → ℕ → PendingCall → IpcClient V → IpcClient V
  await_phase waiting case ctx ref call c = select_case case ctx ref call c
  await_phase stored case ctx ref call c = c
  await_phase (over r) case ctx ref call c = c

  -- `Call`, from its `select` on.
  unfoldable pub await_call : Case → Ctx → ℕ → IpcClient V → IpcClient V
  unfolding end_call
  await_call case ctx ref c = elim (get_elem? c.calls ref) [
    | none ↦ c
    | some call ↦ await_phase call.phase case ctx ref call c
  ]

  unfoldable pub close_client : IpcClient V → Done × IpcClient V
  unfolding plugin_close
  close_client c =
      let (r, p) = plugin_close (record { cmd = c.cmd; conn = some c.conn }) in
      (r, record c { cancelled = true; cmd = p.cmd; conn = conn_of c.conn p.conn })

  module _ (payloads : Payloads V) where
    open payloads use {request, response}

    abbrev pub write_phase :
        Phase → Ctx → List ℕ → RequestPayload → ℕ → PendingCall → IpcClient V → IpcClient V
    write_phase stored ctx cmd payload ref call c =
        let req : IpcReqMessage = record { id = call.id; command = cmd; payload = payload } in
        let (r, m) = write_value ctx (request req) c.conn in
        after_write ref call r (record c { conn = m })
    write_phase waiting ctx cmd payload ref call c = c
    write_phase (over r) ctx cmd payload ref call c = c

    -- `Call`, from `Store` to its `select`.
    unfoldable pub write_call : Ctx → List ℕ → RequestPayload → ℕ → IpcClient V → IpcClient V
    unfolding end_call write_value
    write_call ctx cmd payload ref c = elim (get_elem? c.calls ref) [
      | none ↦ c
      | some call ↦ write_phase call.phase ctx cmd payload ref call c
    ]

    abbrev pub after_read : IpcClient V → Attempt V (MessageConn V) → IpcClient V
    after_read c (returned (ok v) m) = dispatch_response (response v) (record c { conn = m })
    after_read c (returned (fail e) m) = read_failed e (record c { conn = m })
    after_read c (returned panics m) = record c { conn = m; reading = false }
    after_read c waits = c

    -- A round of `readLoop`.
    unfoldable pub read_round : Pick → Moment → IpcClient V → IpcClient V
    unfolding dispatch_response read_failed read_value
    read_round pick t c =
        if c.reading then after_read c (read_value pick (client_ctx t c) c.conn) else c

-- ===== src/Together.antt =====
-- The client of examples/host_go/main.go and the message loop of examples/plugin_go/runner.go at the two ends
-- of one link: the acts of both sides' goroutines, in any order, and the bytes that the link brings, in
-- pieces of any size.
pub mod Frames
pub mod Writing
pub mod Ends
pub mod Reads
pub mod Turns
pub mod Calls
pub mod Requests
pub mod Linked
pub mod Conns
pub mod BothSides
pub mod HostMessages
pub mod PluginMessages
pub mod Asking
pub mod Sound
pub mod Answers
pub mod Steady
pub mod Calling
pub mod Ready
pub mod Outward
pub mod Homeward
pub mod Answering
use plugo.Prelude.{
  ℕ, ◌++◌, Bool, true, false, List, [], ◌∷◌, Option, none, some, get_elem?, take, drop,
  if◌then◌else◌,
}
use plugo.Context.{Ctx, Moment}
use plugo.Conn.{MessageConn}
use plugo.Reader.{Pick, loop_turn}
use plugo.System
use plugo.System.{after_turn, arrival}
use plugo.Shared.{RequestPayload, IpcReqMessage, IpcRespMessage}
use plugo.Runner.{
  PluginConfig, Values, Round, goes_on, idle, leaves, crashes, serve_round, stop_plugin,
}
use plugo.IpcClient.{IpcClient, Payloads, Case, PendingCall, Phase, stored, waiting, over}
use plugo.IpcClient.Acts
use plugo.IpcClient.Acts.{ClientAct}

-- What the host does: the parts of a `Call`, a round of `readLoop`, `Close`, and an act of its connection's
-- read loop.
pub data HostAct : Type 0 where
  begins : HostAct
  writes : Ctx → List ℕ → RequestPayload → ℕ → HostAct
  awaits : Case → Ctx → ℕ → HostAct
  reads : Pick → Moment → HostAct
  closes : HostAct
  turns : Pick → HostAct

abbrev pub client_act : HostAct → ClientAct
client_act begins = ClientAct.begins
client_act (writes ctx cmd payload ref) = ClientAct.writes ctx cmd payload ref
client_act (awaits case ctx ref) = ClientAct.awaits case ctx ref
client_act (reads pick t) = ClientAct.reads pick t
client_act closes = ClientAct.closes
client_act (turns pick) = ClientAct.uses_conn (System.turn pick)

-- An act of the host, an act of the plugin's read loop, a round of its message loop, or bytes that the link
-- brings to a side.
pub data Event : Type 0 where
  host_acts : HostAct → Event
  plugin_turns : Pick → Event
  plugin_serves : Pick → Event
  to_plugin : ℕ → Event
  to_host : ℕ → Event

-- Both sides; `serving` says that the plugin is in its message loop.
pub record Together (V : Type 0) : Type 0 where
  pub host : IpcClient V
  pub plugin : MessageConn V
  pub serving : Bool

-- What has happened: the responses that `readLoop` has read, and the requests that calls gave to `WriteMessage`, each
-- with its call, the latest in front.
pub record History : Type 0 where
  pub seen : List IpcRespMessage
  pub asked : List (ℕ × IpcReqMessage)

-- A call's request.
abbrev pub request_of : List ℕ → RequestPayload → PendingCall → IpcReqMessage
request_of cmd payload call = record { id = call.id; command = cmd; payload = payload }

-- The request that a `Call` writes behind `Store`.
abbrev pub ask_phase :
    Phase
    → List ℕ
    → RequestPayload
    → ℕ
    → PendingCall
    → List (ℕ × IpcReqMessage)
    → List (ℕ × IpcReqMessage)
ask_phase stored cmd payload ref call l = (ref, request_of cmd payload call) ∷ l
ask_phase waiting cmd payload ref call l = l
ask_phase (over r) cmd payload ref call l = l

module _ {V : Type 0} where
  -- Bytes that the link has taken.
  abbrev pub taken : ℕ → MessageConn V → MessageConn V
  taken n m = record m { rwc = record rwc { output = drop n rwc.output } }
    where
      open m use {rwc}

  abbrev pub with_host_conn : MessageConn V → IpcClient V → IpcClient V
  with_host_conn m c = record c { conn = m }

  unfoldable pub ask : HostAct → IpcClient V → List (ℕ × IpcReqMessage) → List (ℕ × IpcReqMessage)
  ask (writes ctx cmd payload ref) c l = elim (get_elem? c.calls ref) [
    | none ↦ l
    | some call ↦ ask_phase call.phase cmd payload ref call l
  ]
  ask a c l = l

module _ {V : Type 0} (values : Values V) (cfg : PluginConfig) where
  -- Behind a round of the message loop.
  abbrev pub after_round : Together V → Round (MessageConn V) → Together V
  after_round s (goes_on m) = record s { plugin = m }
  after_round s idle = s
  after_round s (leaves m) = record s { plugin = stop_plugin values cfg m; serving = false }
  after_round s crashes = record s { serving = false }

module _ {V : Type 0} (payloads : Payloads V) where
  unfoldable pub note : Event → Together V → History → History
  note (host_acts a) s h = record {
    seen = Acts.hear payloads (client_act a) s.host h.seen;
    asked = ask a s.host h.asked;
  }
  note e s h = h

module _ {V : Type 0} (payloads : Payloads V) (values : Values V) (cfg : PluginConfig) where
  unfoldable pub perform : Event → Together V → Together V
  perform (host_acts a) s = record s { host = Acts.perform payloads (client_act a) s.host }
  perform (plugin_turns pick) s = record s {
    plugin = after_turn (loop_turn pick s.plugin) s.plugin;
  }
  perform (plugin_serves pick) s =
      if s.serving then after_round values cfg s (serve_round values cfg pick s.plugin) else s
  perform (to_plugin n) s = record s {
    host = with_host_conn (taken n s.host.conn) s.host;
    plugin = arrival (take n s.host.conn.rwc.output) s.plugin;
  }
  perform (to_host n) s = record s {
    host = with_host_conn (arrival (take n s.plugin.rwc.output) s.host.conn) s.host;
    plugin = taken n s.plugin;
  }

  unfoldable pub run : List Event → History × Together V → History × Together V
  run [] s = s
  run (e ∷ rest) (h, s) = run rest (note payloads e s h, perform e s)

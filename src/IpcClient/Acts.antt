-- ===== src/IpcClient/Acts.antt =====
-- What can happen to a client: the steps of the goroutines in `Call`, the rounds of `readLoop`, `Close`, and
-- what else is done with the connection, as a list of acts in any order.
use plugo.Prelude.{ℕ, List, [], ◌∷◌, if◌then◌else◌}
use plugo.Io.{ok, fail, panics}
use plugo.Context.{Ctx, Moment}
use plugo.Conn.{MessageConn}
use plugo.Reader.{Pick, Attempt, returned, waits}
use plugo.Generic.{read_value}
use plugo.System
use plugo.System.{Act}
use plugo.Shared.{RequestPayload, IpcRespMessage}
use plugo.IpcClient.{
  IpcClient, Payloads, Case, client_ctx, begin_call, write_call, await_call, read_round,
  close_client,
}

pub data ClientAct : Type 0 where
  begins : ClientAct
  writes : Ctx → List ℕ → RequestPayload → ℕ → ClientAct
  awaits : Case → Ctx → ℕ → ClientAct
  reads : Pick → Moment → ClientAct
  closes : ClientAct
  uses_conn : Act → ClientAct

module _ {V : Type 0} (payloads : Payloads V) where
  open payloads use {response}

  unfoldable pub perform : ClientAct → IpcClient V → IpcClient V
  perform begins c = begin_call c
  perform (writes ctx cmd payload ref) c = write_call payloads ctx cmd payload ref c
  perform (awaits case ctx ref) c = await_call case ctx ref c
  perform (reads pick t) c = read_round payloads pick t c
  perform closes c = (close_client c).1
  perform (uses_conn a) c = record c { conn = System.perform a c.conn }

  abbrev pub heard_now : Attempt V (MessageConn V) → List IpcRespMessage → List IpcRespMessage
  heard_now (returned (ok v) m) seen = response v ∷ seen
  heard_now (returned (fail e) m) seen = seen
  heard_now (returned panics m) seen = seen
  heard_now waits seen = seen

  -- The responses that `readLoop` has read, the latest in front.
  unfoldable pub hear : ClientAct → IpcClient V → List IpcRespMessage → List IpcRespMessage
  hear (reads pick t) c seen =
      if c.reading then heard_now (read_value pick (client_ctx t c) c.conn) seen else seen
  hear a c seen = seen

  unfoldable pub run :
      List ClientAct → List IpcRespMessage × IpcClient V → List IpcRespMessage × IpcClient V
  run [] s = s
  run (a ∷ rest) (seen, c) = run rest (hear a c seen, perform a c)

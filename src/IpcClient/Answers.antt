-- ===== src/IpcClient/Answers.antt =====
-- A call of the client is answered by a response with its own id, and leaves nothing behind.
use plugo.Prelude.{
  if◌then◌else◌, none_ne_some, All-get, ℕ, ◌≡◌, inl, inr, refl, subst, Bool, true, false, List, [],
  ◌∷◌, Option, some, get_elem?, lookup, nat_eq, Option-cases,
}
use plugo.Io.{ok, fail, panics}
use plugo.Shared.{ResponsePayload, IpcRespMessage}
use plugo.IpcClient.Acts.{
  ClientAct, heard_now, perform, hear, run, begins, writes, awaits, reads, closes, uses_conn,
}
use plugo.Generic.{write_value}
use plugo.Reader.{waits, returned, Attempt}
use plugo.IpcClient.{
  IpcClient, PendingCall, Phase, stored, waiting, over, Ctx, Payloads, RequestPayload, Attempt,
  new_ipc_client, write_call, Cmd, write_phase, MessageConn, IpcReqMessage, read_round, after_read,
  close_client, returned,
}
use plugo.IpcClient.Kept.{Heard, PhaseHeard, IsOpen, CallHeard, Owned}
use plugo.IpcClient.Steps.{
  KeptClient, begin_call-Kept, await_call-Kept, after_write-Kept, read_failed-Kept,
  dispatch_response-Kept,
}

module _ {V : Type 0} (payloads : Payloads V) where
  open payloads use {request, response}

  write_phase-Kept :
      (x : Phase) (ctx : Ctx) (cmd : List ℕ) (payload : RequestPayload) (ref : ℕ)
      (seen : List IpcRespMessage) (c : IpcClient V) (call : PendingCall)
      → KeptClient seen c
      → get_elem? c.calls ref ≡ some call
      → x ≡ call.phase
      → KeptClient seen (write_phase payloads x ctx cmd payload ref call c)
  write_phase-Kept stored ctx cmd payload ref seen c call h e o =
      let req : IpcReqMessage = record { id = call.id; command = cmd; payload = payload } in
      let (r, m) = write_value ctx (request req) c.conn in
      after_write-Kept seen (record c { conn = m }) ref call r h e (subst IsOpen o tt)
  write_phase-Kept waiting ctx cmd payload ref seen c call h e o = h
  write_phase-Kept (over r) ctx cmd payload ref seen c call h e o = h

  write_call-Kept :
      (ctx : Ctx) (cmd : List ℕ) (payload : RequestPayload) (ref : ℕ) (seen : List IpcRespMessage)
      (c : IpcClient V)
      → KeptClient seen c
      → KeptClient seen (write_call payloads ctx cmd payload ref c)
  unfolding write_call
  write_call-Kept ctx cmd payload ref seen c h = elim (Option-cases (get_elem? c.calls ref)) [
    | inl e ↦ rw (write_call, e) h
    | inr (call, e) ↦
        rw (write_call, e) (write_phase-Kept call.phase ctx cmd payload ref seen c call h e refl)
  ]

  after_read-Kept :
      (seen : List IpcRespMessage) (c : IpcClient V) (a : Attempt V (MessageConn V))
      → KeptClient seen c
      → KeptClient (heard_now payloads a seen) (after_read payloads c a)
  after_read-Kept seen c (returned (ok v) m) h =
      dispatch_response-Kept (response v) seen (record c { conn = m }) h
  after_read-Kept seen c (returned (fail e) m) h = read_failed-Kept e seen (record c { conn = m }) h
  after_read-Kept seen c (returned panics m) h = h
  after_read-Kept seen c waits h = h

  read_if-Kept :
      (b : Bool) (seen : List IpcRespMessage) (c : IpcClient V) (a : Attempt V (MessageConn V))
      → KeptClient seen c
      → KeptClient
          (if b then heard_now payloads a seen else seen)
          (if b then after_read payloads c a else c)
  read_if-Kept true seen c a h = after_read-Kept seen c a h
  read_if-Kept false seen c a h = h

  pub perform-Kept :
      (a : ClientAct) (seen : List IpcRespMessage) (c : IpcClient V)
      → KeptClient seen c
      → KeptClient (hear payloads a c seen) (perform payloads a c)
  unfolding perform hear read_round close_client
  perform-Kept begins seen c h = begin_call-Kept seen c h
  perform-Kept (writes ctx cmd payload ref) seen c h = write_call-Kept ctx cmd payload ref seen c h
  perform-Kept (awaits case ctx ref) seen c h = await_call-Kept case ctx ref seen c h
  perform-Kept (reads pick t) seen c h = read_if-Kept c.reading seen c _ h
  perform-Kept closes seen c h = h
  perform-Kept (uses_conn a) seen c h = h

  pub run-Kept :
      (l : List ClientAct) (seen : List IpcRespMessage) (c : IpcClient V)
      → KeptClient seen c
      → KeptClient (run payloads l (seen, c)).0 (run payloads l (seen, c)).1
  unfolding run
  run-Kept [] seen c h = h
  run-Kept (a ∷ l) seen c h = run-Kept l _ _ (perform-Kept a seen c h)

  pub new_ipc_client-Kept :
      (cmd : Option Cmd) (conn : MessageConn V) → KeptClient [] (new_ipc_client cmd conn)
  unfolding new_ipc_client
  new_ipc_client-Kept cmd conn = record {
    owned = λ k ref e. absurd (none_ne_some e);
    heard = tt;
    counted = refl;
    numbered = λ i call e. absurd (none_ne_some e);
    registered = λ b i call e. absurd (none_ne_some e);
  }

  -- In every history of a new client, with any calls, responses, time-outs and other uses of the connection in
  -- any order: a `Call` that returns a payload returns that of a response which was read and has the
  -- call's own id.
  pub await_call-Heard :
      (cmd : Option Cmd) (conn : MessageConn V) (l : List ClientAct) (ref : ℕ) (call : PendingCall)
      (p : ResponsePayload)
      → get_elem? (run payloads l ([], new_ipc_client cmd conn)).1.calls ref ≡ some call
      → call.phase ≡ over (ok p)
      → Heard (run payloads l ([], new_ipc_client cmd conn)).0 call.id p
  await_call-Heard cmd conn l ref call p e f =
      let (seen, c) = run payloads l ([], new_ipc_client cmd conn) in
      subst (PhaseHeard seen call.id) f
        (All-get (CallHeard seen) c.calls ref call
          (run-Kept l [] _ (new_ipc_client-Kept cmd conn)).heard e).1

  -- In every such history, a callback that is in the map belongs to a call with that id which has not
  -- returned: a `Call` leaves no callback behind, whichever way it ends.
  pub callbacks-Owned :
      (cmd : Option Cmd) (conn : MessageConn V) (l : List ClientAct) (k ref : ℕ)
      → lookup k (run payloads l ([], new_ipc_client cmd conn)).1.callbacks ≡ some ref
      → Owned k (get_elem? (run payloads l ([], new_ipc_client cmd conn)).1.calls ref)
  callbacks-Owned cmd conn l k ref e =
      (run-Kept l [] _ (new_ipc_client-Kept cmd conn)).owned k ref e

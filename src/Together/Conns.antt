-- ===== src/Together/Conns.antt =====
-- The client's own steps leave its connection as it is.
use plugo.Prelude.{Bool-cases, ℕ, ◌≡◌, inl, inr, refl, get_elem?, lookup, Option-cases, nat_eq}
use plugo.Io.{ok, fail, panics, Done, Failure}
use plugo.Chan
use plugo.Chan.{Chan, got, drained, empty, sent, blocks, crashes}
use plugo.Context.{Ctx}
use plugo.Shared.{ResponsePayload, IpcRespMessage}
use plugo.IpcClient.{
  IpcClient, PendingCall, Phase, stored, waiting, over, Case, result, caller_done, plugin_done,
  timed_out, await_call, await_phase, select_case, take_result, dispatch_response, push_payload,
  push_sent, read_failed, end_call, after_write, is_eof,
}
use plugo.Runner.{crashes}

module _ {V : Type 0} where
  pub after_write-conn :
      (ref : ℕ) (call : PendingCall) (r : Done) (c : IpcClient V)
      → (after_write ref call r c).conn ≡ c.conn
  unfolding end_call
  after_write-conn ref call (ok x) c = refl
  after_write-conn ref call (fail e) c = refl
  after_write-conn ref call panics c = refl

  push_sent-conn :
      (ref : ℕ) (call : PendingCall) (x : Chan.Sent ResponsePayload) (c : IpcClient V)
      → (push_sent ref call c x).conn ≡ c.conn
  push_sent-conn ref call (sent ch) c = refl
  push_sent-conn ref call blocks c = refl
  push_sent-conn ref call crashes c = refl

  pub dispatch_response-conn :
      (r : IpcRespMessage) (c : IpcClient V) → (dispatch_response r c).conn ≡ c.conn
  unfolding dispatch_response
  dispatch_response-conn r c = elim (Option-cases (lookup r.id c.callbacks)) [
    | inl e ↦ rw (e, dispatch_response) refl
    | inr (ref, e) ↦ elim (Option-cases (get_elem? c.calls ref)) [
      | inl d ↦ rw (e, dispatch_response) (rw (d, push_payload) refl)
      | inr (call, d) ↦
          rw (e, dispatch_response) (rw (d, push_payload) (push_sent-conn ref call _ c))
    ]
  ]

  pub read_failed-conn : (e : Failure) (c : IpcClient V) → (read_failed e c).conn ≡ c.conn
  unfolding read_failed
  read_failed-conn e c = elim (Bool-cases (is_eof e)) [
    | inl h ↦ rw h refl
    | inr h ↦ elim (Bool-cases c.cancelled) [ inl k ↦ rw (h, k) refl | inr k ↦ rw (h, k) refl ]
  ]

  take_result-conn :
      (ref : ℕ) (call : PendingCall) (x : Chan.Received ResponsePayload) (c : IpcClient V)
      → (take_result ref call c x).conn ≡ c.conn
  unfolding end_call
  take_result-conn ref call (got p ch) c = refl
  take_result-conn ref call drained c = refl
  take_result-conn ref call empty c = refl

  select_case-conn :
      (case : Case) (ctx : Ctx) (ref : ℕ) (call : PendingCall) (c : IpcClient V)
      → (select_case case ctx ref call c).conn ≡ c.conn
  unfolding end_call
  select_case-conn result ctx ref call c = take_result-conn ref call (Chan.recv call.ch) c
  select_case-conn caller_done ctx ref call c = elim (Option-cases ctx.err) [
    | inl h ↦ rw h refl
    | inr (e, h) ↦ rw h refl
  ]
  select_case-conn plugin_done ctx ref call c = elim (Bool-cases c.cancelled) [
    | inl h ↦ rw h refl
    | inr h ↦ rw h refl
  ]
  select_case-conn timed_out ctx ref call c = refl

  await_phase-conn :
      (x : Phase) (case : Case) (ctx : Ctx) (ref : ℕ) (call : PendingCall) (c : IpcClient V)
      → (await_phase x case ctx ref call c).conn ≡ c.conn
  await_phase-conn waiting case ctx ref call c = select_case-conn case ctx ref call c
  await_phase-conn stored case ctx ref call c = refl
  await_phase-conn (over r) case ctx ref call c = refl

  pub await_call-conn :
      (case : Case) (ctx : Ctx) (ref : ℕ) (c : IpcClient V)
      → (await_call case ctx ref c).conn ≡ c.conn
  unfolding await_call
  await_call-conn case ctx ref c = elim (Option-cases (get_elem? c.calls ref)) [
    | inl e ↦ rw (await_call, e) refl
    | inr (call, e) ↦ rw (await_call, e) (await_phase-conn call.phase case ctx ref call c)
  ]

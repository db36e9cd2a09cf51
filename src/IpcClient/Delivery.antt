-- ===== src/IpcClient/Delivery.antt =====
-- What `readLoop` does for a call that waits: it hands over the response, or it lets the call go.
use plugo.Prelude.{
  if◌then◌else◌, Bool, length-set, ℕ, ◌<◌, ◌^◌, ◌≡◌, refl, ap, subst, sym, ◌∙◌, true, false, List,
  [], ◌∷◌, Option, none, some, length, get_elem?, set, lookup, nat_eq, get_elem?-set_self,
  get_elem?-lt, lookup-delete_self,
}
use plugo.Io.{Failure, Result, ok, fail, text}
use plugo.Context.{Ctx, Moment}
use plugo.Conn.{MessageConn}
use plugo.Reader.{Pick, Attempt, returned}
use plugo.Generic.{read_value}
use plugo.Plugin.{Cmd}
use plugo.Shared.{ResponsePayload, IpcRespMessage}
use plugo.IpcClient.{
  IpcClient, Payloads, PendingCall, Phase, waiting, over, result, plugin_done, client_ctx,
  new_ipc_client, end_call, dispatch_response, push_payload, await_call, read_failed, read_round,
  after_read, is_eof, Bool,
}
use plugo.IpcClient.Acts.{ClientAct, run}
use plugo.IpcClient.Steps.{KeptClient}
use plugo.IpcClient.Answers.{run-Kept, new_ipc_client-Kept}

-- A call with this id, whose channel holds these payloads.
abbrev pub call_with : ℕ → List ResponsePayload → Phase → PendingCall
call_with k l x = record {
  id = k;
  ch = record { items = l; capacity = 1; closed = false };
  phase = x;
}

module _ {V : Type 0} where
  pub dispatch_response-sent :
      (c : IpcClient V) (r : IpcRespMessage) (ref : ℕ) (k : ℕ)
      → lookup r.id c.callbacks ≡ some ref
      → get_elem? c.calls ref ≡ some (call_with k [] waiting)
      → dispatch_response r c
        ≡ record c { calls = set c.calls ref (call_with k (r.payload ∷ []) waiting) }
  unfolding dispatch_response
  dispatch_response-sent c r ref k e d = rw (dispatch_response, e) (rw (push_payload, d) refl)

  pub await_call-got :
      (ctx : Ctx) (c : IpcClient V) (ref k : ℕ) (p : ResponsePayload)
      → get_elem? c.calls ref ≡ some (call_with k (p ∷ []) waiting)
      → await_call result ctx ref c ≡ end_call ref (call_with k [] waiting) (ok p) c
  unfolding await_call
  await_call-got ctx c ref k p e = rw (await_call, e) refl

  pub end_call-at :
      (c : IpcClient V) (ref : ℕ) (call : PendingCall) (r : Result ResponsePayload)
      → ref < length c.calls
      → (get_elem? (end_call ref call r c).calls ref ≡ some (record call { phase = over r }))
        × (lookup call.id (end_call ref call r c).callbacks ≡ none)
  unfolding end_call
  end_call-at c ref call r h = (
    get_elem?-set_self c.calls ref (record call { phase = over r }) h,
    lookup-delete_self call.id c.callbacks,
  )

  await_call-released :
      (ctx : Ctx) (c : IpcClient V) (ref k : ℕ) (l : List ResponsePayload)
      → c.cancelled ≡ true
      → get_elem? c.calls ref ≡ some (call_with k l waiting)
      → await_call plugin_done ctx ref c
        ≡ end_call ref (call_with k l waiting) (fail (text "plugin connection closed")) c
  unfolding await_call
  await_call-released ctx c ref k l h e =
      rw (await_call, e)
        (ap
          (λ b.
            if b
            then end_call ref (call_with k l waiting) (fail (text "plugin connection closed")) c
            else c)
          h)

  ends_if :
      (b d : Bool) (c : IpcClient V)
      → c.cancelled ≡ d
      → let stop = record c { cancelled = true; reading = false } in
        let c' = if b then stop else if d then record c { reading = false } else stop in
        (c'.reading ≡ false) × (c'.cancelled ≡ true) × (c'.calls ≡ c.calls)
  ends_if true d c h = (refl, refl, refl)
  ends_if false true c h = (refl, h, refl)
  ends_if false false c h = (refl, refl, refl)

  read_failed_ends :
      (e : Failure) (c : IpcClient V)
      → ((read_failed e c).reading ≡ false)
        × ((read_failed e c).cancelled ≡ true)
        × ((read_failed e c).calls ≡ c.calls)
  unfolding read_failed
  read_failed_ends e c = ends_if (is_eof e) c.cancelled c refl

  -- What is left of a call that has returned.
  abbrev pub Returned : ℕ → PendingCall → Result ResponsePayload → IpcClient V → Type 0
  Returned ref call r c =
      (get_elem? c.calls ref ≡ some (record call { phase = over r }))
      × (lookup call.id c.callbacks ≡ none)

module _ {V : Type 0} (payloads : Payloads V) where
  open payloads use {response}

  pub read_round-returned :
      (pick : Pick) (t : Moment) (c : IpcClient V) (a : Attempt V (MessageConn V))
      → c.reading ≡ true
      → read_value pick (client_ctx t c) c.conn ≡ a
      → read_round payloads pick t c ≡ after_read payloads c a
  unfolding read_round
  read_round-returned pick t c a on d =
      ap (λ b. if b then after_read payloads c (read_value pick (client_ctx t c) c.conn) else c) on
      ∙ ap (after_read payloads c) d

  -- In every history in which fewer than 2 ^ 32 calls have begun: if a round of `readLoop` reads a response
  -- with the id of a waiting call to which nothing has been handed yet, then the call's `select` can
  -- take the channel's case, it returns that response's payload, and its callback is gone.
  pub read_round-delivers :
      (cmd : Option Cmd) (conn : MessageConn V) (l : List ClientAct) (c : IpcClient V) (pick : Pick)
      (t : Moment) (ctx : Ctx) (v : V) (m : MessageConn V) (ref k : ℕ)
      → (run payloads l ([], new_ipc_client cmd conn)).1 ≡ c
      → length c.calls < 2 ^ 32
      → get_elem? c.calls ref ≡ some (call_with k [] waiting)
      → c.reading ≡ true
      → read_value pick (client_ctx t c) c.conn ≡ returned (ok v) m
      → (response v).id ≡ k
      → Returned ref
          (call_with k [] waiting)
          (ok (response v).payload)
          (await_call result ctx ref (read_round payloads pick t c))
  read_round-delivers cmd conn l c pick t ctx v m ref k h b e on d same =
      let (seen, c₁) = run payloads l ([], new_ipc_client cmd conn) in
      let kept : KeptClient seen c =
        subst (KeptClient seen) h
          (run-Kept payloads l [] _ (new_ipc_client-Kept payloads cmd conn)) in
      let found : lookup (response v).id c.callbacks ≡ some ref =
        ap (λ i. lookup i c.callbacks) same ∙ kept.registered b ref (call_with k [] waiting) e tt in
      let c₂ = record c {
        conn = m;
        calls = set c.calls ref (call_with k ((response v).payload ∷ []) waiting);
      } in
      let bound = get_elem?-lt c.calls ref (call_with k [] waiting) e in
      let sent =
        read_round-returned pick t c (returned (ok v) m) on d
        ∙ dispatch_response-sent (record c { conn = m }) (response v) ref k found e in
      let got =
        await_call-got ctx c₂ ref k (response v).payload (get_elem?-set_self c.calls ref _ bound) in
      subst (Returned ref (call_with k [] waiting) (ok (response v).payload))
        (sym (ap (await_call result ctx ref) sent ∙ got))
        (end_call-at c₂ ref (call_with k [] waiting) (ok (response v).payload)
          (subst (λ n. ref < n) (sym (length-set c.calls ref _)) bound))

  -- If a round of `readLoop` fails, for whatever reason, then `readLoop` ends, and the `select` of every
  -- call that waits can take the case of the client's context, with which it returns an error and takes its
  -- callback away.
  pub read_round-releases :
      (c : IpcClient V) (pick : Pick) (t : Moment) (ctx : Ctx) (e : Failure) (m : MessageConn V)
      (ref k : ℕ) (l : List ResponsePayload)
      → c.reading ≡ true
      → read_value pick (client_ctx t c) c.conn ≡ returned (fail e) m
      → get_elem? c.calls ref ≡ some (call_with k l waiting)
      → ((read_round payloads pick t c).reading ≡ false)
        × Returned ref
            (call_with k l waiting)
            (fail (text "plugin connection closed"))
            (await_call plugin_done ctx ref (read_round payloads pick t c))
  read_round-releases c pick t ctx e m ref k l on d g =
      let c₁ = record c { conn = m } in
      let (stopped, cancelled, same) = read_failed_ends e c₁ in
      let failed = read_round-returned pick t c (returned (fail e) m) on d in
      let g' : get_elem? (read_failed e c₁).calls ref ≡ some (call_with k l waiting) =
        ap (λ cs. get_elem? cs ref) same ∙ g in
      let released = await_call-released ctx (read_failed e c₁) ref k l cancelled g' in
      (
        ap (λ x. x.reading) failed ∙ stopped,
        subst (Returned ref (call_with k l waiting) (fail (text "plugin connection closed")))
            (sym (ap (await_call plugin_done ctx ref) failed ∙ released))
            (end_call-at (read_failed e c₁) ref (call_with k l waiting) _
              (get_elem?-lt (read_failed e c₁).calls ref (call_with k l waiting) g')),
      )

-- ===== src/IpcClient/Steps.antt =====
-- The steps of a call and of `readLoop` keep the invariant.
use plugo.Prelude.{
  All-get, All-snoc, All-map, ℕ, ◌≡◌, inl, inr, refl, sym, subst, List, [], ◌∷◌, some, get_elem?,
  lookup, nat_eq, Option-cases, Bool-cases, All,
}
use plugo.Io.{Result, ok, fail, panics, Done, Failure}
use plugo.Chan
use plugo.Chan.{Chan}
use plugo.Shared.{ResponsePayload, IpcRespMessage}
use plugo.IpcClient.{
  result, caller_done, plugin_done, timed_out, IpcClient, PendingCall, Phase, stored, waiting, over,
  end_call, begin_call, Case, after_write, Ctx, select_case, push_sent, await_phase, read_failed,
  await_call, dispatch_response, take_result, is_eof, push_payload,
}
use plugo.IpcClient.Kept.{
  Heard, PhaseHeard, IsOpen, IsCallChan, CallHeard, Owned, Kept, set-Kept, delete-Kept, insert-Kept,
  phase_later,
}

module _ {V : Type 0} where
  abbrev pub KeptClient : List IpcRespMessage → IpcClient V → Type 0
  KeptClient seen c = Kept seen c.active_id c.callbacks c.calls

  end_call-Kept :
      (seen : List IpcRespMessage) (c : IpcClient V) (ref : ℕ) (call : PendingCall)
      (ch : Chan ResponsePayload) (r : Result ResponsePayload)
      → KeptClient seen c
      → get_elem? c.calls ref ≡ some call
      → All (Heard seen call.id) ch.items
      → PhaseHeard seen call.id (over r)
      → IsCallChan ch
      → KeptClient seen (end_call ref (record call { ch = ch }) r c)
  unfolding end_call
  end_call-Kept seen c ref call ch r h e a p w = delete-Kept h ref call _ e refl (λ x. x) (a, p, w)

  pub begin_call-Kept :
      (seen : List IpcRespMessage) (c : IpcClient V)
      → KeptClient seen c
      → KeptClient seen (begin_call c)
  unfolding begin_call
  begin_call-Kept seen c h = insert-Kept h _ refl tt (tt, tt, (refl, refl))

  call_heard :
      (seen : List IpcRespMessage) (c : IpcClient V) (ref : ℕ) (call : PendingCall)
      → KeptClient seen c
      → get_elem? c.calls ref ≡ some call
      → CallHeard seen call
  call_heard seen c ref call h e = All-get (CallHeard seen) c.calls ref call h.heard e

  -- The end of a call that takes nothing off its channel.
  stop-Kept :
      (seen : List IpcRespMessage) (c : IpcClient V) (ref : ℕ) (call : PendingCall)
      (r : Result ResponsePayload)
      → PhaseHeard seen call.id (over r)
      → KeptClient seen c
      → get_elem? c.calls ref ≡ some call
      → KeptClient seen (end_call ref call r c)
  stop-Kept seen c ref call r p h e =
      let (a, _, w) = call_heard seen c ref call h e in
      end_call-Kept seen c ref call call.ch r h e a p w

  pub after_write-Kept :
      (seen : List IpcRespMessage) (c : IpcClient V) (ref : ℕ) (call : PendingCall) (r : Done)
      → KeptClient seen c
      → get_elem? c.calls ref ≡ some call
      → IsOpen call.phase
      → KeptClient seen (after_write ref call r c)
  after_write-Kept seen c ref call (ok _) h e o =
      let (a, _, w) = call_heard seen c ref call h e in set-Kept h ref call _ e refl o tt (a, tt, w)
  after_write-Kept seen c ref call (fail x) h e o = stop-Kept seen c ref call _ tt h e
  after_write-Kept seen c ref call panics h e o = stop-Kept seen c ref call _ tt h e

  take_result-Kept :
      (seen : List IpcRespMessage) (c : IpcClient V) (ref : ℕ) (call : PendingCall)
      (l : List ResponsePayload)
      → KeptClient seen c
      → get_elem? c.calls ref ≡ some call
      → All (Heard seen call.id) l × PhaseHeard seen call.id call.phase × IsCallChan call.ch
      → KeptClient seen (take_result ref call c (Chan.recv_from call.ch l))
  take_result-Kept seen c ref call (p ∷ rest) h e ((q, qs), _, w) =
      end_call-Kept seen c ref call _ (ok p) h e qs q w
  take_result-Kept seen c ref call [] h e a = elim (Bool-cases call.ch.closed) [
    | inl d ↦ rw d h
    | inr d ↦ rw d h
  ]

  select_case-Kept :
      (case : Case) (ctx : Ctx) (seen : List IpcRespMessage) (c : IpcClient V) (ref : ℕ)
      (call : PendingCall)
      → KeptClient seen c
      → get_elem? c.calls ref ≡ some call
      → KeptClient seen (select_case case ctx ref call c)
  unfolding end_call
  select_case-Kept result ctx seen c ref call h e =
      take_result-Kept seen c ref call call.ch.items h e (call_heard seen c ref call h e)
  select_case-Kept caller_done ctx seen c ref call h e = elim (Option-cases ctx.err) [
    | inl d ↦ rw d h
    | inr (x, d) ↦ rw d (stop-Kept seen c ref call _ tt h e)
  ]
  select_case-Kept plugin_done ctx seen c ref call h e = elim (Bool-cases c.cancelled) [
    | inl d ↦ rw d (stop-Kept seen c ref call _ tt h e)
    | inr d ↦ rw d h
  ]
  select_case-Kept timed_out ctx seen c ref call h e = stop-Kept seen c ref call _ tt h e

  await_phase-Kept :
      (x : Phase) (case : Case) (ctx : Ctx) (seen : List IpcRespMessage) (c : IpcClient V) (ref : ℕ)
      (call : PendingCall)
      → KeptClient seen c
      → get_elem? c.calls ref ≡ some call
      → KeptClient seen (await_phase x case ctx ref call c)
  await_phase-Kept waiting case ctx seen c ref call h e =
      select_case-Kept case ctx seen c ref call h e
  await_phase-Kept stored case ctx seen c ref call h e = h
  await_phase-Kept (over r) case ctx seen c ref call h e = h

  pub await_call-Kept :
      (case : Case) (ctx : Ctx) (ref : ℕ) (seen : List IpcRespMessage) (c : IpcClient V)
      → KeptClient seen c
      → KeptClient seen (await_call case ctx ref c)
  unfolding await_call
  await_call-Kept case ctx ref seen c h = elim (Option-cases (get_elem? c.calls ref)) [
    | inl e ↦ rw (await_call, e) h
    | inr (call, e) ↦ rw (await_call, e) (await_phase-Kept call.phase case ctx seen c ref call h e)
  ]

  pub read_failed-Kept :
      (x : Failure) (seen : List IpcRespMessage) (c : IpcClient V)
      → KeptClient seen c
      → KeptClient seen (read_failed x c)
  unfolding read_failed
  read_failed-Kept x seen c h = elim (Bool-cases (is_eof x)) [
    | inl e ↦ rw e h
    | inr e ↦ rw e (elim (Bool-cases c.cancelled) [ inl d ↦ rw d h | inr d ↦ rw d h ])
  ]

  push_payload-Kept :
      (ref : ℕ) (p : ResponsePayload) (seen : List IpcRespMessage) (c : IpcClient V)
      (call : PendingCall)
      → KeptClient seen c
      → get_elem? c.calls ref ≡ some call
      → IsOpen call.phase
      → Heard seen call.id p
      → KeptClient seen (push_sent ref call c (Chan.send p call.ch))
  push_payload-Kept ref p seen c call h e alive q =
      let (items, before, chan) = call_heard seen c ref call h e in
      elim (Chan.send_open p call.ch chan.1) [
        | inl room ↦
            subst (λ s. KeptClient seen (push_sent ref call c s)) (sym room)
              (set-Kept h ref call _ e refl alive alive
                (All-snoc (Heard seen call.id) call.ch.items p items q, before, chan))
        | inr full ↦ subst (λ s. KeptClient seen (push_sent ref call c s)) (sym full) h
      ]

  hear-Kept :
      (r : IpcRespMessage) (seen : List IpcRespMessage) (c : IpcClient V)
      → KeptClient seen c
      → KeptClient (r ∷ seen) c
  hear-Kept r seen c h = record {
    owned = h.owned;
    heard =
        All-map c.calls
          (λ call a. (
            All-map call.ch.items (λ p q. inr q) a.0,
            phase_later r seen call.id call.phase a.1,
            a.2,
          ))
          h.heard;
    counted = h.counted;
    numbered = h.numbered;
    registered = h.registered;
  }

  pub dispatch_response-Kept :
      (r : IpcRespMessage) (seen : List IpcRespMessage) (c : IpcClient V)
      → KeptClient seen c
      → KeptClient (r ∷ seen) (dispatch_response r c)
  unfolding dispatch_response
  dispatch_response-Kept r seen c h = elim (Option-cases (lookup r.id c.callbacks)) [
    | inl e ↦ rw (dispatch_response, e) (hear-Kept r seen c h)
    | inr (ref, e) ↦ elim (Option-cases (get_elem? c.calls ref)) [
      | inl d ↦ rw (dispatch_response, e) (rw (push_payload, d) (hear-Kept r seen c h))
      | inr (call, d) ↦
          let (same, alive) : Owned r.id (some call) = subst (Owned r.id) d (h.owned r.id ref e) in
          rw (dispatch_response, e)
            (rw (push_payload, d)
              (push_payload-Kept ref r.payload (r ∷ seen) c call (hear-Kept r seen c h) d alive
                (inl (sym same, refl))))
    ]
  ]

-- ===== src/Together/Asking.antt =====
-- What an act adds to the requests that have been asked.
use plugo.Prelude.{All, ℕ, ◌≡◌, inl, inr, List, ◌∷◌, some, get_elem?, Option-cases, nat_eq, ap}
use plugo.Context.{Ctx}
use plugo.Shared.{RequestPayload, IpcReqMessage}
use plugo.IpcClient.{IpcClient, PendingCall, Phase, stored, waiting, over}
use plugo.Together.{request_of, HostAct}
use plugo.Together.{
  request_of, HostAct, begins, writes, awaits, reads, closes, turns, ask, ask_phase,
}

ask_phase-keeps :
    (P : IpcReqMessage → Type 0) (x : Phase) (cmd : List ℕ) (payload : RequestPayload) (ref : ℕ)
    (call : PendingCall) (l : List (ℕ × IpcReqMessage))
    → All (λ e. P e.1) (ask_phase x cmd payload ref call l)
    → All (λ e. P e.1) l
ask_phase-keeps P stored cmd payload ref call l h = h.1
ask_phase-keeps P waiting cmd payload ref call l h = h
ask_phase-keeps P (over r) cmd payload ref call l h = h

module _ {V : Type 0} where
  pub ask-keeps :
      (P : IpcReqMessage → Type 0) (a : HostAct) (c : IpcClient V) (l : List (ℕ × IpcReqMessage))
      → All (λ e. P e.1) (ask a c l)
      → All (λ e. P e.1) l
  unfolding ask
  ask-keeps P (writes ctx cmd payload ref) c l h = elim (Option-cases (get_elem? c.calls ref)) [
    | inl e ↦ (rw (ask, e) at h)
    | inr (call, e) ↦ ask_phase-keeps P call.phase cmd payload ref call l (rw (ask, e) at h)
  ]
  ask-keeps P begins c l h = h
  ask-keeps P (awaits case ctx ref) c l h = h
  ask-keeps P (reads pick t) c l h = h
  ask-keeps P closes c l h = h
  ask-keeps P (turns pick) c l h = h

  pub ask-stored :
      (ctx : Ctx) (cmd : List ℕ) (payload : RequestPayload) (ref : ℕ) (call : PendingCall)
      (c : IpcClient V) (l : List (ℕ × IpcReqMessage))
      → get_elem? c.calls ref ≡ some call
      → call.phase ≡ stored
      → ask (writes ctx cmd payload ref) c l ≡ (ref, request_of cmd payload call) ∷ l
  unfolding ask
  ask-stored ctx cmd payload ref call c l e d =
      rw (ask, e) (ap (λ x. ask_phase x cmd payload ref call l) d)

-- ===== src/HostMain/Tasks.antt =====
-- The first stage: what the call of a task returns.
use plugo.Prelude.{
  none_ne_some, some_eq, Bool-cases, ◌==◌, nat_beq_iff, ℕ, ◌<◌, ◌^◌, ◌≡◌, sym, ap, ◌∙◌, ◌++◌, List,
  [], ◌∷◌, Option, some, length, get_elem?, lookup, nat_eq, bytes_of, All, Option-cases, inl, inr,
}
use plugo.Io.{Rwc, ok}
use plugo.Codec.{Codec}
use plugo.Plugin.{Cmd}
use plugo.Shared.{pos, RequestPayload, ResponsePayload, IpcReqMessage}
use plugo.Runner.{PluginConfig, Values, response_to}
use plugo.IpcClient.{IpcClient, Payloads, PendingCall, Phase, stored, waiting, over}
use plugo.Together.{
  Event, Together, History, HostAct, host_acts, plugin_turns, plugin_serves, to_plugin, to_host,
  begins, writes, awaits, reads, closes, turns, note, run, ask, ask_phase,
}
use plugo.Together.Sound.{AllCarried}
use plugo.Together.Answers.{IsIdle, outcome, await_call-response_to}
use plugo.HostMain.{task_payload}

-- Every request of the client is that of a task, the one of its call.
abbrev pub AsksTask : (ℕ → List ℕ) → (ℕ → ℕ) → Event → Type 0
AsksTask decimal task (host_acts (writes ctx cmd payload ref)) =
    payload ≡ task_payload decimal (task ref)
AsksTask decimal task e = Unit

module _ (decimal : ℕ → List ℕ) (task : ℕ → ℕ) where
  abbrev IsOfTask : ℕ × IpcReqMessage → Type 0
  IsOfTask (ref, q) = q.payload ≡ task_payload decimal (task ref)

  IsOfTask-lookup :
      (l : List (ℕ × IpcReqMessage)) (ref : ℕ) (q : IpcReqMessage)
      → All IsOfTask l
      → lookup ref l ≡ some q
      → IsOfTask (ref, q)
  IsOfTask-lookup [] ref q h e = absurd (none_ne_some e)
  IsOfTask-lookup ((ref', q') ∷ l) ref q (p, h) e = elim (Bool-cases (ref' == ref)) [
    | inl same ↦
        some_eq_at (some_eq (rw same at e))
        ∙ p
        ∙ ap (λ i. task_payload decimal (task i)) ((nat_beq_iff ref' ref).0 same)
    | inr other ↦ IsOfTask-lookup l ref q h (rw other at e)
  ]
    where
      some_eq_at : {x y : IpcReqMessage} → x ≡ y → y.payload ≡ x.payload
      some_eq_at e = ap (λ z. z.payload) (sym e)

  ask_phase-IsOfTask :
      (x : Phase) (cmd : List ℕ) (payload : RequestPayload) (ref : ℕ) (call : PendingCall)
      (l : List (ℕ × IpcReqMessage))
      → payload ≡ task_payload decimal (task ref)
      → All IsOfTask l
      → All IsOfTask (ask_phase x cmd payload ref call l)
  ask_phase-IsOfTask stored cmd payload ref call l e h = (e, h)
  ask_phase-IsOfTask waiting cmd payload ref call l e h = h
  ask_phase-IsOfTask (over r) cmd payload ref call l e h = h

  module _ {V : Type 0} (payloads : Payloads V) where
    ask-IsOfTask :
        (a : HostAct) (c : IpcClient V) (l : List (ℕ × IpcReqMessage))
        → AsksTask decimal task (host_acts a)
        → All IsOfTask l
        → All IsOfTask (ask a c l)
    unfolding ask
    ask-IsOfTask (writes ctx cmd payload ref) c l e h =
        elim (Option-cases (get_elem? c.calls ref)) [
          | inl d ↦ rw (ask, d) h
          | inr (call, d) ↦ rw (ask, d) (ask_phase-IsOfTask call.phase cmd payload ref call l e h)
        ]
    ask-IsOfTask begins c l e h = h
    ask-IsOfTask (awaits case ctx ref) c l e h = h
    ask-IsOfTask (reads pick t) c l e h = h
    ask-IsOfTask closes c l e h = h
    ask-IsOfTask (turns pick) c l e h = h

    note-IsOfTask :
        (e : Event) (s : Together V) (h : History)
        → AsksTask decimal task e
        → All IsOfTask h.asked
        → All IsOfTask (note payloads e s h).asked
    unfolding note
    note-IsOfTask (host_acts a) s h k p = ask-IsOfTask a s.host h.asked k p
    note-IsOfTask (plugin_turns pick) s h k p = p
    note-IsOfTask (plugin_serves pick) s h k p = p
    note-IsOfTask (to_plugin n) s h k p = p
    note-IsOfTask (to_host n) s h k p = p

    run-IsOfTask :
        (values : Values V) (cfg : PluginConfig) (l : List Event) (h : History) (s : Together V)
        → All (AsksTask decimal task) l
        → All IsOfTask h.asked
        → All IsOfTask (run payloads values cfg l (h, s)).0.asked
    unfolding run
    run-IsOfTask values cfg [] h s k p = p
    run-IsOfTask values cfg (e ∷ l) h s (k, ks) p =
        run-IsOfTask values cfg l _ _ ks (note-IsOfTask e s h k p)

    -- If each request of the client is that of its call's task, then in every history of the client and the
    -- plugin over one link that was idle before, that carries no streams and whose writes do not fail of
    -- themselves, with fewer than 2 ^ 32 calls and codecs that carry the requests and their responses, a task's
    -- call that returns a payload returns the code 200, the plugin's node and the status SUCCESS, and a message
    -- that is the plugin's prefix and the name of this task.
    pub await_call-task_payload :
        (values : Values V) (cfg : PluginConfig) (host_codec plugin_codec : Codec V)
        (cmd : Option Cmd) (r r' : Rwc) (l : List Event) (ref : ℕ) (call : PendingCall)
        (p : ResponsePayload)
        → All (AsksTask decimal task) l
        → IsIdle r
        → IsIdle r'
        → AllCarried payloads values cfg host_codec plugin_codec
            (outcome payloads values cfg host_codec plugin_codec cmd r r' l).0.asked
        → length (outcome payloads values cfg host_codec plugin_codec cmd r r' l).1.host.calls
          < 2 ^ 32
        → get_elem?
            (outcome payloads values cfg host_codec plugin_codec cmd r r' l).1.host.calls
            ref
          ≡ some call
        → call.phase ≡ over (ok p)
        → p ≡ record {
          code = pos 200;
          result = record {
            message = cfg.message_prefix ++ (bytes_of "Task-" ++ decimal (task ref));
            extra = record { node_id = cfg.node_id; status = bytes_of "SUCCESS" };
          };
        }
    unfolding response_to task_payload
    await_call-task_payload values cfg host_codec plugin_codec cmd r r' l ref call p k i i' carried
          few e o =
        let (q, asked, _, same) =
          await_call-response_to payloads values cfg host_codec plugin_codec cmd r r' l ref call p i
            i' carried few e o in
        let named : q.payload ≡ task_payload decimal (task ref) =
          IsOfTask-lookup (outcome payloads values cfg host_codec plugin_codec cmd r r' l).0.asked
            ref q (run-IsOfTask values cfg l _ _ k tt) asked in
        same
        ∙ ap
            (λ x.
              (response_to cfg (record { id = q.id; command = q.command; payload = x })).payload)
            named

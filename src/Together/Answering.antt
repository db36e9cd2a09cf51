-- ===== src/Together/Answering.antt =====
-- Every `Call` on a link that works is answered.
use plugo.Prelude.{
  ℕ, ◌+◌, ◌≡◌, refl, sym, ap, ◌∙◌, ◌++◌, subst, List, [], ◌∷◌, nat_eq, append-nil, append_assoc,
}
use plugo.Io.{ok}
use plugo.Codec.{Codec}
use plugo.Wire.{u32}
use plugo.Shared.{ResponsePayload, RequestPayload}
use plugo.Runner.{PluginConfig, Values, response_to}
use plugo.IpcClient.{Payloads, PendingCall, stored, over}
use plugo.IpcClient.Delivery.{call_with}
use plugo.Together.{Event, Together, History, host_acts, begins, perform, note, run}
use plugo.Together.Ready.{Brought, Ready, Stage, begins-Stage}
use plugo.Together.Homeward.{later_events, later_events-Answered}

-- The payload of the plugin's response to this one.
abbrev pub reply_payload : PluginConfig → RequestPayload → ResponsePayload
unfolding response_to
reply_payload cfg payload =
    (response_to cfg (record { id = 0; command = []; payload = payload })).payload

-- The calls of a client whose counter is at this number, each with what it has returned.
abbrev pub returned_calls : PluginConfig → ℕ → List (List ℕ × RequestPayload) → List PendingCall
unfolding reply_payload
returned_calls cfg a [] = []
returned_calls cfg a ((cmd, payload) ∷ ts) =
    call_with (u32 (a + 1)) [] (over (ok (reply_payload cfg payload)))
    ∷ returned_calls cfg (u32 (a + 1)) ts

module _ {V : Type 0} (payloads : Payloads V) (values : Values V) (cfg : PluginConfig)
    (host_codec plugin_codec : Codec V) where
  -- The codecs bring the requests of all these calls, and their responses.
  abbrev pub AllBrought : ℕ → List (List ℕ × RequestPayload) → Type 0
  AllBrought a [] = Unit
  AllBrought a ((cmd, payload) ∷ ts) =
      Brought payloads values cfg host_codec plugin_codec
        (record { id = u32 (a + 1); command = cmd; payload = payload })
      × AllBrought (u32 (a + 1)) ts

  -- These calls, one after the other, behind others.
  unfoldable pub all_events :
      List PendingCall
      → (a : ℕ) (ts : List (List ℕ × RequestPayload)) → AllBrought a ts
      → List Event
  unfolding reply_payload
  all_events before a [] bs = []
  all_events before a ((cmd, payload) ∷ ts) (b, bs) =
      host_acts begins
      ∷ (later_events payloads values cfg host_codec plugin_codec before (u32 (a + 1)) cmd payload b
          ++ all_events
              (before ++ call_with (u32 (a + 1)) [] (over (ok (reply_payload cfg payload))) ∷ [])
              (u32 (a + 1)) ts bs)

  run-append :
      (l l' : List Event) (x : History × Together V)
      → run payloads values cfg (l ++ l') x
        ≡ run payloads values cfg l' (run payloads values cfg l x)
  unfolding run
  run-append [] l' (h, s) = refl
  run-append (e ∷ l) l' (h, s) = run-append l l' _

  -- What the calls leave.
  abbrev Done : List PendingCall → ℕ → List (List ℕ × RequestPayload) → Together V → Type 0
  Done before a ts s =
      (s.host.calls ≡ before ++ returned_calls cfg a ts)
      × Ready payloads values cfg host_codec plugin_codec s

  all_events-Done :
      (ts : List (List ℕ × RequestPayload)) (before : List PendingCall) (a : ℕ)
      (bs : AllBrought a ts) (h : History) (s : Together V)
      → s.host.calls ≡ before
      → s.host.active_id ≡ a
      → Ready payloads values cfg host_codec plugin_codec s
      → Done before a ts (run payloads values cfg (all_events before a ts bs) (h, s)).1
  unfolding run all_events reply_payload
  all_events-Done [] before a bs h s e i r = (e ∙ sym (append-nil before), r)
  all_events-Done ((cmd, payload) ∷ ts) before a (b, bs) h s e i r =
      let k = u32 (a + 1) in
      let h₁ = note payloads (host_acts begins) s h in
      let s₁ = perform payloads values cfg (host_acts begins) s in
      let begun : Stage payloads values cfg host_codec plugin_codec before k [] stored [] [] [] []
          [] [] s₁ =
        subst
          (λ cs.
            Stage payloads values cfg host_codec plugin_codec cs k [] stored [] [] [] [] [] [] s₁)
          e
          (subst
            (λ n.
              Stage payloads values cfg host_codec plugin_codec s.host.calls (u32 (n + 1)) [] stored
                [] [] [] [] [] [] s₁)
            i (begins-Stage payloads values cfg host_codec plugin_codec s r)) in
      let events =
        later_events payloads values cfg host_codec plugin_codec before k cmd payload b in
      let (h₂, s₂) = run payloads values cfg events (h₁, s₁) in
      let end =
        later_events-Answered payloads values cfg host_codec plugin_codec before k cmd payload b h₁
          s₁ begun in
      let call : PendingCall = call_with k [] (over (ok (reply_payload cfg payload))) in
      let whole : s₂.host.calls ≡ before ++ call ∷ [] =
        end.whole ∙ ap (λ p. before ++ call_with k [] (over (ok p.payload)) ∷ []) b.response_read in
      let rest = all_events (before ++ call ∷ []) k ts bs in
      let (calls, ready) =
        all_events-Done ts (before ++ call ∷ []) k bs h₂ s₂ whole end.counted end.ready in
      subst (λ x. Done before a ((cmd, payload) ∷ ts) x.1) (sym (run-append events rest (h₁, s₁)))
        (calls ∙ append_assoc before (call ∷ []) (returned_calls cfg k ts), ready)

  -- If both loops run on a working link on which nothing is under way, no call waits, and the codecs bring the
  -- requests of the next calls to the plugin and its responses back, in frames that fit, then these calls, one
  -- after the other, come to their ends: behind their steps, those of both read loops and both programs, and
  -- the link's, each has returned the payload of the plugin's response to its own payload, the calls before
  -- them are as they were, and both sides are ready for another.
  pub run-returned_calls :
      (h : History) (s : Together V) (ts : List (List ℕ × RequestPayload))
      (bs : AllBrought s.host.active_id ts)
      → Ready payloads values cfg host_codec plugin_codec s
      → let s' =
          (run payloads values cfg (all_events s.host.calls s.host.active_id ts bs) (h, s)).1 in
        (s'.host.calls ≡ s.host.calls ++ returned_calls cfg s.host.active_id ts)
        × Ready payloads values cfg host_codec plugin_codec s'
  run-returned_calls h s ts bs r =
      all_events-Done ts s.host.calls s.host.active_id bs h s refl refl r

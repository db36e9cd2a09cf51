-- ===== src/Together/Homeward.antt =====
-- The last stages of one `Call` on a link that works: from the plugin's response to the call's return.
use plugo.Prelude.{nat_eq, ◌++◌, ℕ, ◌≡◌, refl, sym, ap, subst, List, [], ◌∷◌, length, nat_eq}
use plugo.Io.{ok}
use plugo.Codec.{Codec}
use plugo.Context.{background, quiet}
use plugo.Reader.{channel}
use plugo.System
use plugo.System.{after_turn, arrival}
use plugo.Shared.{RequestPayload, ResponsePayload}
use plugo.Runner.{PluginConfig, Values, response_to}
use plugo.IpcClient.{PendingCall, over, Payloads, Phase, stored, waiting, result, client_ctx}
use plugo.IpcClient.Acts
use plugo.IpcClient.Delivery.{call_with}
use plugo.Together.{
  Event, Together, History, host_acts, plugin_turns, plugin_serves, to_plugin, to_host, writes,
  awaits, reads, turns, perform, run,
}
use plugo.Together.Steady.{
  Steady, message_bytes, taken-Steady, arrival-Steady, turns-Steady, with_raw, read_value-Steady,
}
use plugo.Together.Calling.{set-Going, conn-Going, read_round-handed, await_call-Over}
use plugo.Together.Ready.{Brought, Ready, Stage, step}
use plugo.Together.Outward.{writes-Stage, to_plugin-Stage, plugin_turns-Stage, plugin_serves-Stage}

module _ {V : Type 0} (payloads : Payloads V) (values : Values V) (cfg : PluginConfig)
    (host_codec plugin_codec : Codec V) where
  abbrev At :
      List PendingCall
      → ℕ
      → List ResponsePayload
      → Phase
      → List ℕ
      → List (List ℕ)
      → List ℕ
      → List ℕ
      → List (List ℕ)
      → List ℕ
      → Together V
      → Type 0
  At = Stage payloads values cfg host_codec plugin_codec

  abbrev next : Event → Together V → Together V
  next = step payloads values cfg host_codec plugin_codec

  module _ (before : List PendingCall) (k : ℕ) (cmd : List ℕ) (payload : RequestPayload)
      (b : Brought payloads values cfg host_codec plugin_codec
        (record { id = k; command = cmd; payload = payload })) where
    abbrev out : List ℕ
    out = message_bytes b.request_bytes

    abbrev back : List ℕ
    back = message_bytes b.response_bytes

    to_host-Stage :
        (s : Together V)
        → At before k [] waiting [] [] [] [] [] back s
        → At before k [] waiting back [] [] [] [] [] (next (to_host (length back)) s)
    unfolding perform
    to_host-Stage s g =
        let (all, steady) = taken-Steady (length back) [] [] back s.plugin refl g.plugin_conn in
        record {
          going = conn-Going payloads before k [] waiting s.host _ g.going;
          serves = g.serves;
          host_conn = arrival-Steady back [] [] s.host.conn _ all g.host_conn;
          plugin_conn = steady;
        }

    host_turns-Stage :
        (s : Together V)
        → At before k [] waiting back [] [] [] [] [] s
        → At before k [] waiting []
            (b.response_bytes ∷ [])
            []
            []
            []
            []
            (next (host_acts (turns channel)) (next (host_acts (turns channel)) s))
    unfolding perform Acts.perform System.perform
    host_turns-Stage s g = record {
      going = conn-Going payloads before k [] waiting s.host _ g.going;
      serves = g.serves;
      host_conn = turns-Steady b.response_bytes [] s.host.conn b.response_fits g.host_conn;
      plugin_conn = g.plugin_conn;
    }

    -- The payload of the response, as the host's codec gives it.
    abbrev pub given : ResponsePayload
    given = (payloads.response b.response_value).payload

    -- The call has returned the payload, and both sides are ready again.
    pub record Answered (s : Together V) : Type 0 where
      pub whole : s.host.calls ≡ before ++ call_with k [] (over (ok given)) ∷ []
      pub counted : s.host.active_id ≡ k
      pub ready : Ready payloads values cfg host_codec plugin_codec s

    reads-Stage :
        (s : Together V)
        → At before k [] waiting [] (b.response_bytes ∷ []) [] [] [] [] s
        → At before k
            (given ∷ [])
            waiting
            []
            []
            []
            []
            []
            []
            (next (host_acts (reads channel quiet)) s)
    unfolding perform Acts.perform response_to
    reads-Stage s g =
        let (came, steady) =
          read_value-Steady (client_ctx quiet s.host) [] [] s.host.conn b.response_bytes
            b.response_value b.response_in g.host_conn in
        let e =
          read_round-handed payloads before k s.host b.response_value (with_raw [] s.host.conn)
            g.going came (ap (λ r. r.id) b.response_read) in
        subst (λ c. At before k (given ∷ []) waiting [] [] [] [] [] [] (record s { host = c }))
          (sym e)
          (record {
            going =
                set-Going payloads before k [] (given ∷ []) waiting waiting s.host
                  (with_raw [] s.host.conn) g.going;
            serves = g.serves;
            host_conn = steady;
            plugin_conn = g.plugin_conn;
          })

    awaits-Answered :
        (s : Together V)
        → At before k (given ∷ []) waiting [] [] [] [] [] [] s
        → Answered (next (host_acts (awaits result background (length before))) s)
    unfolding perform Acts.perform
    awaits-Answered s g =
        let ended = await_call-Over payloads before k s.host given g.going in
        record {
          whole = ended.whole;
          counted = ended.counted;
          ready = record {
            reading = ended.reading;
            serves = g.serves;
            nobody_waits = ended.none_left;
            host_conn = subst (Steady host_codec [] [] []) (sym ended.same_conn) g.host_conn;
            plugin_conn = g.plugin_conn;
          };
        }

    -- The steps of a call behind its first one.
    abbrev pub later_events : List Event
    later_events =
        host_acts (writes background cmd payload (length before))
        ∷ to_plugin (length out)
        ∷ plugin_turns channel
        ∷ plugin_turns channel
        ∷ plugin_serves channel
        ∷ to_host (length back)
        ∷ host_acts (turns channel)
        ∷ host_acts (turns channel)
        ∷ host_acts (reads channel quiet)
        ∷ host_acts (awaits result background (length before))
        ∷ []

    pub later_events-Answered :
        (h : History) (s : Together V)
        → At before k [] stored [] [] [] [] [] [] s
        → Answered (run payloads values cfg later_events (h, s)).1
    unfolding run
    later_events-Answered h s g₁ =
        let s₂ = next (host_acts (writes background cmd payload (length before))) s in
        let s₃ = next (to_plugin (length out)) s₂ in
        let s₄ = next (plugin_turns channel) (next (plugin_turns channel) s₃) in
        let s₅ = next (plugin_serves channel) s₄ in
        let s₆ = next (to_host (length back)) s₅ in
        let s₇ = next (host_acts (turns channel)) (next (host_acts (turns channel)) s₆) in
        let s₈ = next (host_acts (reads channel quiet)) s₇ in
        let g₃ =
          to_plugin-Stage payloads values cfg host_codec plugin_codec before k cmd payload b s₂ (
            writes-Stage payloads values cfg host_codec plugin_codec before k cmd payload b s g₁) in
        let g₅ =
          plugin_serves-Stage payloads values cfg host_codec plugin_codec before k cmd payload b s₄
            (plugin_turns-Stage payloads values cfg host_codec plugin_codec before k cmd payload b
              s₃ g₃) in
        let g₇ = host_turns-Stage s₆ (to_host-Stage s₅ g₅) in awaits-Answered s₈ (reads-Stage s₇ g₇)

-- ===== src/Together/Outward.antt =====
-- The first stages of one `Call` on a link that works: from its request to the plugin's response.
use plugo.Prelude.{
  nat_eq, ℕ, ◌≡◌, refl, sym, ap, subst, ◌∙◌, List, [], ◌∷◌, length, nat_eq, if◌then◌else◌,
}
use plugo.Codec.{Codec}
use plugo.Context.{background}
use plugo.Reader.{channel}
use plugo.System.Writes.{put_output, with_rwc}
use plugo.Shared.{RequestPayload, ResponsePayload}
use plugo.Runner.{PluginConfig, Values, goes_on, response_to, serve_round, answer_to, after_answer}
use plugo.IpcClient.{PendingCall, Payloads, Phase, stored, waiting}
use plugo.IpcClient.Acts
use plugo.Together.{
  Event, Together, host_acts, plugin_turns, plugin_serves, to_plugin, writes, perform, after_round,
}
use plugo.Together.Steady.{
  message_bytes, write_value-Steady, taken-Steady, arrival-Steady, turns-Steady, with_raw,
  read_value-Steady,
}
use plugo.Together.Calling.{write_call-waiting, set-Going, conn-Going, Going-found}
use plugo.Together.Ready.{Brought, Stage, step}

module _ {V : Type 0} (payloads : Payloads V) (values : Values V) (cfg : PluginConfig)
    (host_codec plugin_codec : Codec V) where
  abbrev pub At :
      List PendingCall
      → ℕ
      → List ResponsePayload
      → Phase
      → List ℕ
      → List (List ℕ)
      → List ℕ
      → List ℕ
      → List (List ℕ)
      → List ℕ
      → Together V
      → Type 0
  At = Stage payloads values cfg host_codec plugin_codec

  abbrev pub next : Event → Together V → Together V
  next = step payloads values cfg host_codec plugin_codec

  module _ (before : List PendingCall) (k : ℕ) (cmd : List ℕ) (payload : RequestPayload)
      (b : Brought payloads values cfg host_codec plugin_codec
        (record { id = k; command = cmd; payload = payload })) where
    abbrev pub out : List ℕ
    out = message_bytes b.request_bytes

    abbrev pub back : List ℕ
    back = message_bytes b.response_bytes

    pub writes-Stage :
        (s : Together V)
        → At before k [] stored [] [] [] [] [] [] s
        → At before k [] waiting [] [] out [] [] []
            (next (host_acts (writes background cmd payload (length before))) s)
    unfolding perform Acts.perform
    writes-Stage s g =
        let (wrote, steady) =
          write_value-Steady [] [] [] s.host.conn _ b.request_bytes b.request_out b.request_fits
            g.host_conn in
        let m = with_rwc (put_output out s.host.conn.rwc) s.host.conn in
        let e =
          write_call-waiting payloads cmd payload (length before) k s.host m
            (Going-found payloads before k [] stored s.host g.going) wrote in
        subst (λ c. At before k [] waiting [] [] out [] [] [] (record s { host = c })) (sym e)
          (record {
            going = set-Going payloads before k [] [] stored waiting s.host m g.going;
            serves = g.serves;
            host_conn = steady;
            plugin_conn = g.plugin_conn;
          })

    pub to_plugin-Stage :
        (s : Together V)
        → At before k [] waiting [] [] out [] [] [] s
        → At before k [] waiting [] [] [] out [] [] (next (to_plugin (length out)) s)
    unfolding perform
    to_plugin-Stage s g =
        let (all, steady) = taken-Steady (length out) [] [] out s.host.conn refl g.host_conn in
        record {
          going = conn-Going payloads before k [] waiting s.host _ g.going;
          serves = g.serves;
          host_conn = steady;
          plugin_conn = arrival-Steady out [] [] s.plugin _ all g.plugin_conn;
        }

    pub plugin_turns-Stage :
        (s : Together V)
        → At before k [] waiting [] [] [] out [] [] s
        → At before k [] waiting [] [] [] []
            (b.request_bytes ∷ [])
            []
            (next (plugin_turns channel) (next (plugin_turns channel) s))
    unfolding perform
    plugin_turns-Stage s g = record {
      going = g.going;
      serves = g.serves;
      host_conn = g.host_conn;
      plugin_conn = turns-Steady b.request_bytes [] s.plugin b.request_fits g.plugin_conn;
    }

    pub plugin_serves-Stage :
        (s : Together V)
        → At before k [] waiting [] [] [] [] (b.request_bytes ∷ []) [] s
        → At before k [] waiting [] [] [] [] [] back (next (plugin_serves channel) s)
    unfolding perform serve_round
    plugin_serves-Stage s g =
        let (came, idle) =
          read_value-Steady background [] [] s.plugin b.request_bytes b.request_value b.request_in
            g.plugin_conn in
        let m₁ = with_raw [] s.plugin in
        let reply =
          ap (λ q. plugin_codec.marshal (values.outgoing (response_to cfg q))) b.request_read
          ∙ b.response_out in
        let (wrote, steady) =
          write_value-Steady [] [] [] m₁ _ b.response_bytes reply b.response_fits idle in
        let m₂ = with_rwc (put_output back m₁.rwc) m₁ in
        let round : serve_round values cfg channel s.plugin ≡ goes_on m₂ =
          ap (answer_to values cfg) came ∙ ap (after_answer values cfg) wrote in
        let e : (if s.serving
              then after_round values cfg s (serve_round values cfg channel s.plugin)
              else s)
            ≡ record s { plugin = m₂ } =
          ap
            (λ x.
              if x then after_round values cfg s (serve_round values cfg channel s.plugin) else s)
            g.serves
          ∙ ap (after_round values cfg s) round in
        subst (At before k [] waiting [] [] [] [] [] back) (sym e) (record {
          going = g.going;
          serves = g.serves;
          host_conn = g.host_conn;
          plugin_conn = steady;
        })

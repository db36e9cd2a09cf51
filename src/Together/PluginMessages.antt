-- ===== src/Together/PluginMessages.antt =====
-- The plugin reads a request and writes its response, and both sides stay as the invariant says.
use plugo.Prelude.{ℕ, ◌≡◌, inl, inr, sym, subst, ◌∙◌, List, nat_eq, ap}
use plugo.Io.{ok, fail, panics, Done}
use plugo.Conn.{MessageConn}
use plugo.Reader.{Pick, Attempt, returned, waits}
use plugo.Generic.{read_value, write_value}
use plugo.Shared.{IpcReqMessage, IpcRespMessage}
use plugo.IpcClient.{Payloads}
use plugo.Codec.{Codec}
use plugo.Context.{background}
use plugo.Conn.{close_conn}
use plugo.Runner.{
  PluginConfig, Values, response_to, serve_round, stop_plugin, answer_to, after_answer,
}
use plugo.Together.{Together, after_round}
use plugo.Together.Writing.{write_value-Puts}
use plugo.Together.Reads.{ReadFrom, read_value-ReadFrom}
use plugo.Together.Linked.{Linked, Linked-swap, quiet-Linked, write-Linked, close_conn-Linked}
use plugo.Together.BothSides.{IsRequest, IsReply, BothSides}

module _ {V : Type 0} (payloads : Payloads V) (values : Values V) (cfg : PluginConfig)
    (host_codec plugin_codec : Codec V) (asked : List (ℕ × IpcReqMessage))
    (seen : List IpcRespMessage) where
  abbrev Both : MessageConn V → MessageConn V → Type 0
  Both =
      Linked (IsReply payloads values cfg host_codec plugin_codec asked)
        (IsRequest payloads values cfg host_codec plugin_codec asked) host_codec plugin_codec

  abbrev Kept : List IpcRespMessage → MessageConn V → MessageConn V → Type 0
  Kept = BothSides payloads values cfg host_codec plugin_codec asked

  -- The response to a request that came.
  response_written :
      (bs : List ℕ) (v : V) (host plugin : MessageConn V)
      → IsRequest payloads values cfg host_codec plugin_codec asked bs
      → plugin_codec.unmarshal bs ≡ ok v
      → Kept seen host plugin
      → Kept seen host
          (write_value background (values.outgoing (response_to cfg (values.message v))) plugin).1
  response_written bs v host plugin h u b =
      let back = Linked-swap host plugin b.linked in
      let same : values.message v ≡ h.request = h.carried.request_read bs v h.encoded u in
      let own : (bs' : List ℕ)
          → plugin.codec.marshal (values.outgoing (response_to cfg (values.message v))) ≡ ok bs'
          → plugin_codec.marshal (values.outgoing (response_to cfg h.request)) ≡ ok bs' =
        λ bs' g.
          ap (λ q. plugin_codec.marshal (values.outgoing (response_to cfg q))) (sym same)
          ∙ ap (λ x. x.marshal (values.outgoing (response_to cfg (values.message v))))
              (sym back.near_side.speaks)
          ∙ g in
      record {
        linked =
            elim (write_value-Puts background (values.outgoing (response_to cfg (values.message v)))
              plugin back.near_side.working (λ bs' g. h.carried.response_fits bs' (own bs' g))) [
                | inl quiet ↦ subst (λ m. Both host m) (sym quiet) b.linked
                | inr (bs', g, puts) ↦ Linked-swap _ host (
                    write-Linked plugin host back bs' _
                      (record {
                        ref = h.ref;
                        request = h.request;
                        written = h.written;
                        carried = h.carried;
                        encoded = own bs' g;
                      })
                      puts)
              ];
        heard = b.heard;
      }

  -- The plugin closes its connection behind its loop.
  plugin_closes :
      (host plugin : MessageConn V)
      → Kept seen host plugin
      → Kept seen host (stop_plugin values cfg plugin)
  unfolding stop_plugin
  plugin_closes host plugin b = record {
    linked =
        Linked-swap (close_conn plugin).1 host
          (close_conn-Linked plugin host (Linked-swap host plugin b.linked));
    heard = b.heard;
  }

  -- Both sides behind a round of the message loop.
  abbrev pub KeptPair : Together V → Type 0
  KeptPair s = Kept seen s.host.conn s.plugin

  answered-Kept :
      (s : Together V) (x : Done × MessageConn V)
      → KeptPair s
      → Kept seen s.host.conn x.1
      → KeptPair (after_round values cfg s (after_answer values cfg x))
  answered-Kept s (ok _, m) b k = k
  answered-Kept s (fail e, m) b k = plugin_closes s.host.conn m k
  answered-Kept s (panics, m) b k = b

  answer_to-Kept :
      (s : Together V) (x : Attempt V (MessageConn V))
      → KeptPair s
      → ReadFrom
          (IsRequest payloads values cfg host_codec plugin_codec asked)
          plugin_codec
          s.host.conn.rwc.output
          s.plugin
          x
      → KeptPair (after_round values cfg s (answer_to values cfg x))
  answer_to-Kept s (returned (ok v) m) b (k, o, (bs, q, u)) =
      let there : Kept seen s.host.conn m = record {
        linked = Linked-swap m s.host.conn (
            quiet-Linked s.plugin s.host.conn (Linked-swap s.host.conn s.plugin b.linked) m (k, o));
        heard = b.heard;
      } in
      answered-Kept s _ b (response_written bs v s.host.conn m q u there)
  answer_to-Kept s (returned (fail e) m) b k = plugin_closes s.host.conn m (record {
    linked =
        Linked-swap m s.host.conn
          (quiet-Linked s.plugin s.host.conn (Linked-swap s.host.conn s.plugin b.linked) m k);
    heard = b.heard;
  })
  answer_to-Kept s (returned panics m) b k = b
  answer_to-Kept s waits b k = b

  pub serve_round-Kept :
      (pick : Pick) (s : Together V)
      → KeptPair s
      → KeptPair (after_round values cfg s (serve_round values cfg pick s.plugin))
  unfolding serve_round
  serve_round-Kept pick s b = answer_to-Kept s (read_value pick background s.plugin) b (
      read_value-ReadFrom _ plugin_codec s.host.conn.rwc.output s.plugin b.linked.far_side pick
        background)

-- ===== src/Together/HostMessages.antt =====
-- The host writes a request and reads a response, and both sides stay as the invariant says.
use plugo.Prelude.{
  ℕ, ◌≡◌, inl, inr, refl, sym, subst, ◌∙◌, Bool, true, false, List, ◌∷◌, some, get_elem?, lookup,
  Option-cases, nat_eq, if◌then◌else◌, ap,
}
use plugo.Io.{ok, fail, panics}
use plugo.Context.{Ctx, Moment}
use plugo.Conn.{MessageConn}
use plugo.Reader.{Pick, Attempt, returned, waits}
use plugo.Generic.{read_value, write_value}
use plugo.Shared.{RequestPayload, IpcReqMessage, IpcRespMessage}
use plugo.IpcClient.{
  IpcClient, Payloads, PendingCall, Phase, stored, waiting, over, write_call, write_phase,
  read_round, after_read, client_ctx,
}
use plugo.IpcClient.Acts
use plugo.IpcClient.Acts.{ClientAct}
use plugo.Codec.{Codec}
use plugo.Runner.{PluginConfig, Values}
use plugo.Together.{request_of}
use plugo.Together.Writing.{write_value-Puts}
use plugo.Together.Reads.{ReadFrom, read_value-ReadFrom}
use plugo.Together.Linked.{Linked, quiet-Linked, write-Linked}
use plugo.Together.BothSides.{Carried, IsAsked, IsRequest, IsReply, BothSides}
use plugo.Together.Conns.{after_write-conn, dispatch_response-conn, read_failed-conn}

module _ {V : Type 0} (payloads : Payloads V) (values : Values V) (cfg : PluginConfig)
    (host_codec plugin_codec : Codec V) (asked : List (ℕ × IpcReqMessage))
    (seen : List IpcRespMessage) where
  abbrev Both : MessageConn V → MessageConn V → Type 0
  Both =
      Linked (IsReply payloads values cfg host_codec plugin_codec asked)
        (IsRequest payloads values cfg host_codec plugin_codec asked) host_codec plugin_codec

  abbrev Kept : List IpcRespMessage → MessageConn V → MessageConn V → Type 0
  Kept = BothSides payloads values cfg host_codec plugin_codec asked

  request_written :
      (ctx : Ctx) (ref : ℕ) (q : IpcReqMessage) (host plugin : MessageConn V)
      → lookup ref asked ≡ some q
      → Carried payloads values cfg host_codec plugin_codec q
      → Kept seen host plugin
      → Kept seen (write_value ctx (payloads.request q) host).1 plugin
  request_written ctx ref q host plugin e k b =
      let speaks = b.linked.near_side.speaks in
      let own : (bs : List ℕ)
          → host.codec.marshal (payloads.request q) ≡ ok bs
          → host_codec.marshal (payloads.request q) ≡ ok bs =
        λ bs h. ap (λ x. x.marshal (payloads.request q)) (sym speaks) ∙ h in
      record {
        linked =
            elim (write_value-Puts ctx (payloads.request q) host b.linked.near_side.working
              (λ bs h. k.request_fits bs (own bs h))) [
                | inl same ↦ subst (λ m. Both m plugin) (sym same) b.linked
                | inr (bs, h, puts) ↦
                    write-Linked host plugin b.linked bs
                      (write_value ctx (payloads.request q) host).1
                      (record {
                        ref = ref;
                        request = q;
                        written = e;
                        carried = k;
                        encoded = own bs h;
                      })
                      puts
              ];
        heard = b.heard;
      }

  after_read-Kept :
      (c : IpcClient V) (plugin : MessageConn V) (x : Attempt V (MessageConn V))
      → Kept seen c.conn plugin
      → ReadFrom
          (IsReply payloads values cfg host_codec plugin_codec asked)
          host_codec
          plugin.rwc.output
          c.conn
          x
      → Kept (Acts.heard_now payloads x seen) (after_read payloads c x).conn plugin
  after_read-Kept c plugin (returned (ok v) m) b (k, o, (bs, q, u)) =
      subst (λ x. Kept (payloads.response v ∷ seen) x plugin)
        (sym (dispatch_response-conn (payloads.response v) (record c { conn = m })))
        (record {
          linked = quiet-Linked c.conn plugin b.linked m (k, o);
          heard = (
            record {
              ref = q.ref;
              request = q.request;
              written = q.written;
              answers = q.carried.response_read bs v q.encoded u;
            },
            b.heard,
          );
        })
  after_read-Kept c plugin (returned (fail e) m) b k =
      subst (λ x. Kept seen x plugin) (sym (read_failed-conn e (record c { conn = m })))
        (record { linked = quiet-Linked c.conn plugin b.linked m k; heard = b.heard })
  after_read-Kept c plugin (returned panics m) b k = record {
    linked = quiet-Linked c.conn plugin b.linked m k;
    heard = b.heard;
  }
  after_read-Kept c plugin waits b k = b

  pub read_round-Kept :
      (pick : Pick) (t : Moment) (c : IpcClient V) (plugin : MessageConn V)
      → Kept seen c.conn plugin
      → Kept
          (Acts.hear payloads (ClientAct.reads pick t) c seen)
          (read_round payloads pick t c).conn
          plugin
  unfolding Acts.hear read_round
  read_round-Kept pick t c plugin b =
      if_reading c.reading (read_value pick (client_ctx t c) c.conn) (
        read_value-ReadFrom _ host_codec plugin.rwc.output c.conn b.linked.near_side pick
          (client_ctx t c))
    where
      if_reading :
          (r : Bool) (x : Attempt V (MessageConn V))
          → ReadFrom
              (IsReply payloads values cfg host_codec plugin_codec asked)
              host_codec
              plugin.rwc.output
              c.conn
              x
          → Kept
              (if r then Acts.heard_now payloads x seen else seen)
              (if r then after_read payloads c x else c).conn
              plugin
      if_reading true x k = after_read-Kept c plugin x b k
      if_reading false x k = b

  write_phase-Kept :
      (x : Phase) (ctx : Ctx) (cmd : List ℕ) (payload : RequestPayload) (ref : ℕ)
      (call : PendingCall) (c : IpcClient V) (plugin : MessageConn V)
      → (x ≡ stored
          → IsAsked payloads values cfg host_codec plugin_codec asked ref
              (request_of cmd payload call))
      → Kept seen c.conn plugin
      → Kept seen (write_phase payloads x ctx cmd payload ref call c).conn plugin
  write_phase-Kept stored ctx cmd payload ref call c plugin new b =
      let q : IpcReqMessage = request_of cmd payload call in
      let (r, m) = write_value ctx (payloads.request q) c.conn in
      let (e, k) = new refl in
      subst (λ y. Kept seen y plugin) (sym (after_write-conn ref call r (record c { conn = m })))
        (request_written ctx ref q c.conn plugin e k b)
  write_phase-Kept waiting ctx cmd payload ref call c plugin new b = b
  write_phase-Kept (over r) ctx cmd payload ref call c plugin new b = b

  pub write_call-Kept :
      (ctx : Ctx) (cmd : List ℕ) (payload : RequestPayload) (ref : ℕ) (c : IpcClient V)
      (plugin : MessageConn V)
      → ((call : PendingCall)
          → get_elem? c.calls ref ≡ some call
          → call.phase ≡ stored
          → IsAsked payloads values cfg host_codec plugin_codec asked ref
              (request_of cmd payload call))
      → Kept seen c.conn plugin
      → Kept seen (write_call payloads ctx cmd payload ref c).conn plugin
  unfolding write_call
  write_call-Kept ctx cmd payload ref c plugin new b = elim (Option-cases (get_elem? c.calls ref)) [
    | inl e ↦ rw (write_call, e) b
    | inr (call, e) ↦
        rw (write_call, e)
          (write_phase-Kept call.phase ctx cmd payload ref call c plugin (new call e) b)
  ]

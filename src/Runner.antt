-- ===== src/Runner.antt =====
-- examples/plugin_go/runner.go: the plugin of the demonstration, its three routes and its loop over plain
-- messages.
pub mod Plugins
pub mod Serving
pub mod Echo
use plugo.Prelude.{ℕ, ◌++◌, List, [], ◌∷◌, bytes_of, length, Option, none, some}
use plugo.Io.{Result, ok, fail, panics, Done}
use plugo.Context.{background}
use plugo.Codec.{Codec}
use plugo.Negotiate.{Json, Ctxs}
use plugo.Attach.{Host, attaching}
use plugo.Conn.{MessageConn, close_conn}
use plugo.Reader.{Pick, Attempt, returned, waits}
use plugo.Generic.{
  TypedSender, TypedCollector, TypedTalk, TypedCall, TypedReply, done, received, read_value,
  write_value, route_handle_single_multi, route_handle_multi_single, route_handle_bidi,
}
use plugo.Generic.Replies.{typed_sender_of}
use plugo.Shared.{pos, RequestPayload, ResponsePayload, IpcReqMessage, IpcRespMessage}

-- `PluginConfig`, less its codec, which `Attaching` takes, and its name, which is only logged. `decimal`
-- stands for the verb `%d` of `fmt`.
pub record PluginConfig : Type 0 where
  pub stream_prefix : List ℕ
  pub message_prefix : List ℕ
  pub node_id : List ℕ
  pub decimal : ℕ → List ℕ

-- What goes to the codec as `any`: pointers to what is sent, and what is behind the pointers that were
-- filled.
pub record Values (V : Type 0) : Type 0 where
  pub payload : V → RequestPayload
  pub response : ResponsePayload → V
  pub message : V → IpcReqMessage
  pub outgoing : IpcRespMessage → V

-- `shared.ResponsePayload{Result: shared.TaskResult{Message: …}}`
abbrev pub with_message : List ℕ → ResponsePayload
with_message s = record {
  code = pos 0;
  result = record { message = s; extra = record { node_id = []; status = [] } };
}

-- The response to a plain message.
unfoldable pub response_to : PluginConfig → IpcReqMessage → IpcRespMessage
response_to cfg req = record {
  id = req.id;
  command = req.command;
  payload = record {
    code = pos 200;
    result = record {
      message = cfg.message_prefix ++ req.payload.task_name;
      extra = record { node_id = cfg.node_id; status = bytes_of "SUCCESS" };
    };
  };
}

-- A round of the message loop: it goes on, waits for a message, leaves the loop, or ends the process by a
-- panic.
pub data Round (S : Type 0) : Type 0 where
  goes_on : S → Round S
  idle : Round S
  leaves : S → Round S
  crashes : Round S

module _ {V : Type 0} (values : Values V) (cfg : PluginConfig) where
  open values use {payload, response, message, outgoing}

  -- Route 1. The loop over `send` returns at the first error.
  unfoldable pub query_data : V → TypedSender V
  unfolding typed_sender_of
  query_data req = typed_sender_of (
      response (with_message (cfg.stream_prefix ++ bytes_of "MultiResp-" ++ cfg.decimal 1))
      ∷ response (with_message (cfg.stream_prefix ++ bytes_of "MultiResp-" ++ cfg.decimal 2))
      ∷ response (with_message (cfg.stream_prefix ++ bytes_of "MultiResp-" ++ cfg.decimal 3))
      ∷ [])

  -- Route 2, which reads its requests to the end.
  unfoldable pub upload_logs : TypedCollector V
  upload_logs = record {
    on_requests = λ reqs. none;
    at_end = λ reqs. ok (
        response
          (with_message (cfg.stream_prefix ++ bytes_of "Summary:" ++ cfg.decimal (length reqs))));
  }

  -- The deferred `s.Close()`.
  abbrev pub leaving : TypedTalk V
  leaving [] = TypedCall.close
  leaving (r ∷ rs) = TypedCall.finish

  abbrev pub processed : V → V
  processed v = response (with_message (cfg.stream_prefix ++ (payload v).task_name))

  -- Route 3: a loop of `Recv` and `Send` until one fails.
  unfoldable pub realtime_sync : TypedTalk V
  realtime_sync [] = TypedCall.recv background
  realtime_sync (received (ok v) ∷ []) = TypedCall.send background (processed v)
  realtime_sync (received (ok v) ∷ done (ok _) ∷ rs) = realtime_sync rs
  realtime_sync (received (ok v) ∷ _ ∷ rs) = leaving rs
  realtime_sync (_ ∷ rs) = leaving rs

  unfoldable pub register_routes : MessageConn V → MessageConn V
  register_routes m =
      let m₁ = route_handle_single_multi (bytes_of "query_data") query_data m in
      let m₂ = route_handle_multi_single (bytes_of "upload_logs") upload_logs m₁ in
      route_handle_bidi (bytes_of "realtime_sync") realtime_sync m₂

  abbrev pub after_answer : Done × MessageConn V → Round (MessageConn V)
  after_answer (ok _, m) = goes_on m
  after_answer (fail e, m) = leaves m
  after_answer (panics, m) = crashes

  abbrev pub answer_to : Attempt V (MessageConn V) → Round (MessageConn V)
  answer_to (returned (ok v) m) =
      after_answer (write_value background (outgoing (response_to cfg (message v))) m)
  answer_to (returned (fail e) m) = leaves m
  answer_to (returned panics m) = crashes
  answer_to waits = idle

  -- The loop over plain messages.
  unfoldable pub serve_round : Pick → MessageConn V → Round (MessageConn V)
  unfolding write_value read_value response_to
  serve_round pick m = answer_to (read_value pick background m)

  -- `Run`, up to its message loop; on an error the process exits.
  unfoldable pub start_plugin : Json → Ctxs → Codec V → Host → Result (MessageConn V)
  unfolding register_routes attaching
  start_plugin json cs codec h = elim (attaching json cs (codec ∷ []) h).0 [
    | ok m ↦ ok (register_routes m)
    | fail e ↦ fail e
    | panics ↦ panics
  ]

  -- Behind the loop, the deferred `msgConn.Close()`.
  unfoldable pub stop_plugin : MessageConn V → MessageConn V
  unfolding close_conn
  stop_plugin m = (close_conn m).1

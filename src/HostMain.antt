-- ===== src/HostMain.antt =====
-- examples/host_go/main.go: `main`. The plugins that it looks for and launches, the tasks of its first stage, and
-- what the goroutines of its second stage call. Its log lines and its sleeps are left out.
pub mod Tasks
use plugo.Prelude.{
  ℕ, ◌++◌, Bool, true, false, List, [], ◌∷◌, Option, none, some, bytes_of, if◌then◌else◌,
}
use plugo.Io.{Result, ok, fail, panics, Done}
use plugo.Context.{Ctx}
use plugo.Codec.{Codec}
use plugo.Conn.{MessageConn, call_bidi}
use plugo.Plugin.{Plugin}
use plugo.Routing.{CallCtx, call_multi_single}
use plugo.Generic.{
  TypedCall, TypedTalk, TypedReply, done, received, route_call_single_multi, route_call_bidi,
}
use plugo.Shared.{pos, RequestPayload}
use plugo.IpcClient.{IpcClient, new_ipc_client}

-- `localPluginConfig`
pub record LocalPluginConfig (V : Type 0) : Type 0 where
  pub name : List ℕ
  pub bin_path : List ℕ
  pub codecs : List (Codec V)

-- A request whose fields but the name are zero.
abbrev pub named_request : List ℕ → RequestPayload
named_request s = record { task_name = s; task_detail = record { step = pos 0; options = [] } }

module _ (decimal : ℕ → List ℕ) where
  -- The payload of a task of the first stage; `decimal` stands for the verb `%d` of `fmt`.
  unfoldable pub task_payload : ℕ → RequestPayload
  task_payload i = record {
    task_name = bytes_of "Task-" ++ decimal i;
    task_detail = record { step = pos i; options = bytes_of "A,B,C" };
  }

  -- What goes into `reqsCh`.
  unfoldable pub log_chunks : List RequestPayload
  log_chunks =
      named_request (bytes_of "LogChunk-" ++ decimal 1)
      ∷ named_request (bytes_of "LogChunk-" ++ decimal 2)
      ∷ named_request (bytes_of "LogChunk-" ++ decimal 3)
      ∷ []

  abbrev pub sync_data : ℕ → RequestPayload
  sync_data i = named_request (bytes_of "SyncData-" ++ decimal i)

module _ {V : Type 0} where
  -- `join` stands for `filepath.Join`; a path ends in `.exe` on Windows.
  unfoldable pub plugin_configs :
      (List ℕ → List ℕ → List ℕ) → List ℕ → Bool → Codec V → Codec V → List (LocalPluginConfig V)
  plugin_configs join plugin_dir windows json msgpack =
      let ext = if windows then bytes_of ".exe" else [] in
      (record {
        name = bytes_of "Go-JSON-Plugin";
        bin_path = join plugin_dir (bytes_of "plugin_go_json" ++ ext);
        codecs = json ∷ [];
      })
      ∷ (record {
        name = bytes_of "Go-Msgpack-Plugin";
        bin_path = join plugin_dir (bytes_of "plugin_go_msgp" ++ ext);
        codecs = msgpack ∷ json ∷ [];
      })
      ∷ (record {
        name = bytes_of "Zig-Msgpack-Plugin";
        bin_path = join plugin_dir (bytes_of "plugin_zig_msgp" ++ ext);
        codecs = msgpack ∷ [];
      })
      ∷ (record {
        name = bytes_of "Zig-JSON-Plugin";
        bin_path = join plugin_dir (bytes_of "plugin_zig_json" ++ ext);
        codecs = json ∷ [];
      })
      ∷ (record {
        name = bytes_of "Go-Abnormal-Plugin";
        bin_path = join plugin_dir (bytes_of "plugin_go_abnormal" ++ ext);
        codecs = json ∷ [];
      })
      ∷ []

  -- `missing` stands for `os.Stat` with an error for which `os.IsNotExist` holds.
  unfoldable pub active_configs :
      (List ℕ → Bool) → List (LocalPluginConfig V) → List (LocalPluginConfig V)
  active_configs missing [] = []
  active_configs missing (config ∷ configs) =
      let rest = active_configs missing configs in
      if missing config.bin_path then rest else config ∷ rest

  -- The goroutine that launches a plugin, behind its `Open`: a failed launch is ignored. `Conn()` of a plugin
  -- without a connection is nil, and its codec's name is a nil dereference.
  unfoldable pub add_client : Result (Plugin V) → List (IpcClient V) → Result (List (IpcClient V))
  add_client (ok p) clients = elim p.conn [
    | none ↦ panics
    | some m ↦ ok (clients ++ new_ipc_client p.cmd m ∷ [])
  ]
  add_client (fail e) clients = ok clients
  add_client panics clients = panics

  -- The launches of the first stage, in the order in which they take the lock.
  unfoldable pub add_clients :
      List (Result (Plugin V)) → List (IpcClient V) → Result (List (IpcClient V))
  add_clients [] clients = ok clients
  add_clients (r ∷ rs) clients = elim (add_client r clients) [
    | ok clients' ↦ add_clients rs clients'
    | fail e ↦ fail e
    | panics ↦ panics
  ]

  -- Route 1 of the second stage, up to the loop over its responses.
  unfoldable pub call_query_data :
      (RequestPayload → V) → CallCtx → MessageConn V → Result ℕ × MessageConn V
  unfolding route_call_single_multi
  call_query_data value cc =
      route_call_single_multi cc (bytes_of "query_data")
        (value (named_request (bytes_of "Get Metrics")))

  -- Route 2, up to the goroutine that sends what comes from `reqsCh`.
  unfoldable pub call_upload_logs : Ctx → MessageConn V → Result ℕ × MessageConn V
  unfolding call_multi_single
  call_upload_logs ctx = call_multi_single ctx (bytes_of "upload_logs")

  -- Route 3: the stream, and the two goroutines on it, each of which returns at its first error.
  unfoldable pub call_realtime_sync : Ctx → MessageConn V → Result ℕ × MessageConn V
  unfolding route_call_bidi
  call_realtime_sync ctx = route_call_bidi ctx (bytes_of "realtime_sync")

  unfoldable pub sync_sender : (ℕ → List ℕ) → (RequestPayload → V) → Ctx → TypedTalk V
  sync_sender decimal value ctx [] = TypedCall.send ctx (value (sync_data decimal 1))
  sync_sender decimal value ctx (done (ok _) ∷ []) =
      TypedCall.send ctx (value (sync_data decimal 2))
  sync_sender decimal value ctx rs = TypedCall.finish

  unfoldable pub sync_receiver : Ctx → TypedTalk V
  sync_receiver ctx [] = TypedCall.recv ctx
  sync_receiver ctx (received (ok _) ∷ []) = TypedCall.recv ctx
  sync_receiver ctx rs = TypedCall.finish

-- ===== src/Runner/Plugins.antt =====
-- The plugins of examples/plugin_go: the configurations that json/main.go and msgp/main.go run with, and
-- abnormal/main.go, which panics on its first request.
use plugo.Prelude.{ℕ, List, bytes_of}
use plugo.Io.{ok, fail, panics}
use plugo.Context.{background}
use plugo.Conn.{MessageConn}
use plugo.Reader.{Pick, Attempt, returned, waits}
use plugo.Generic.{read_value}
use plugo.Runner.{PluginConfig, Round, idle, leaves, crashes}

abbrev pub json_plugin : (ℕ → List ℕ) → PluginConfig
json_plugin decimal = record {
  stream_prefix = bytes_of "Go-JSON-Stream-Processed: ";
  message_prefix = bytes_of "Processed by Go JSON: ";
  node_id = bytes_of "go-json-node-1";
  decimal = decimal;
}

abbrev pub msgp_plugin : (ℕ → List ℕ) → PluginConfig
msgp_plugin decimal = record {
  stream_prefix = bytes_of "Go-Msgpack-Stream-Processed: ";
  message_prefix = bytes_of "Processed by Go Msgpack: ";
  node_id = bytes_of "go-msgp-node-1";
  decimal = decimal;
}

module _ {V : Type 0} where
  abbrev pub abnormal_after : Attempt V (MessageConn V) → Round (MessageConn V)
  abnormal_after (returned (ok v) m) = crashes
  abnormal_after (returned (fail e) m) = leaves m
  abnormal_after (returned panics m) = crashes
  abnormal_after waits = idle

  unfoldable pub abnormal_round : Pick → MessageConn V → Round (MessageConn V)
  unfolding read_value
  abnormal_round pick m = abnormal_after (read_value pick background m)

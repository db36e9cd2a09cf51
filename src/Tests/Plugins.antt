-- ===== src/Tests/Plugins.antt =====
-- The plugin of the demonstration on concrete requests.
use plugo.Prelude.{
  length, ◌+◌, All, ℕ, ◌≡◌, ◌++◌, refl, arith, true, false, List, [], ◌∷◌, bytes_of,
}
use plugo.Conn.{MessageConn, new_message_conn}
use plugo.Shared.{pos}
use plugo.Runner.{PluginConfig, Values, goes_on, processed, response_to}
use plugo.Runner.{crashes}
use plugo.Runner.Plugins.{json_plugin, msgp_plugin, abnormal_round}
use plugo.Reader.{channel, read_message, read_data, read_raw}
use plugo.Generic.{read_value}
use plugo.Runner.Echo.{sync_talk}
use plugo.System.Transfer.{data_frames}
use plugo.System.Endings.{close_frame}
use plugo.Runner.Serving.{
  Exchange, raws, IsAnswered, reply_bytes, serve_rounds, serve_rounds-reply_bytes,
}
use plugo.System.Writes.{IsHealthy}
use plugo.Tests.{link, byte_codec}

abbrev config : PluginConfig
config = json_plugin (λ n. (n + 48) ∷ [])

-- Values of one byte: the id of a message, the code of a payload.
abbrev values : Values ℕ
values = record {
  payload = λ n. record { task_name = n ∷ []; task_detail = record { step = pos 0; options = [] } };
  response = λ p. length p.result.message;
  message = λ n. record {
    id = n;
    command = [];
    payload = record { task_name = []; task_detail = record { step = pos 0; options = [] } };
  };
  outgoing = λ r. r.id;
}

abbrev idle : MessageConn ℕ
unfolding new_message_conn
idle = new_message_conn link (byte_codec "json") false

-- Two requests on the stream with id 1, and the close frame behind them.
abbrev asked : List (Exchange ℕ)
asked =
    (record { raw = 4 ∷ []; request = 4; reply = processed values config 4 ∷ [] })
    ∷ (record { raw = 5 ∷ []; request = 5; reply = processed values config 5 ∷ [] })
    ∷ []

abbrev syncing : MessageConn ℕ
syncing = record idle {
  streams = (1, 0) ∷ [];
  objects =
      record {
        id = 1;
        recv_ch = record {
          items = data_frames 1 (raws asked) ++ close_frame 1 ∷ [];
          capacity = 100;
          closed = false;
        };
        cancelled = false;
      }
      ∷ [];
  tasks = (0, sync_talk values config (byte_codec "json")) ∷ [];
}

abbrev two : List (Exchange ℕ)
two =
    (record { raw = 7 ∷ []; request = 7; reply = 7 ∷ [] })
    ∷ (record { raw = 8 ∷ []; request = 8; reply = 8 ∷ [] })
    ∷ []

abbrev queued : MessageConn ℕ
queued = record idle {
  read_loop_started = true;
  raw_msg_ch = record {
    items = (7 ∷ []) ∷ (8 ∷ []) ∷ (9 ∷ []) ∷ [];
    capacity = 100;
    closed = false;
  };
}

two-IsAnswered : All (IsAnswered values config queued.codec) two
unfolding idle response_to
two-IsAnswered = (
  record { reads = refl; writes = refl; fits = omega arith },
  (record { reads = refl; writes = refl; fits = omega arith }, tt),
)

queued-IsHealthy : IsHealthy queued.rwc
unfolding idle
queued-IsHealthy = record { usable = refl; writable = refl }

serve_rounds-reply_bytes_example :
    (m' : MessageConn ℕ) × (serve_rounds values config 2 queued ≡ goes_on m')
    × (m'.rwc.output ≡ queued.rwc.output ++ reply_bytes two)
    × (m'.raw_msg_ch.items ≡ (9 ∷ []) ∷ [])
serve_rounds-reply_bytes_example =
    serve_rounds-reply_bytes values config two ((9 ∷ []) ∷ []) queued refl queued-IsHealthy
      two-IsAnswered refl

abnormal_crashes : abnormal_round channel queued ≡ crashes
unfolding abnormal_round read_value read_message read_data read_raw idle
abnormal_crashes = refl

-- The plugin over msgp names itself in its responses.
msgp_answers :
    (response_to (msgp_plugin (λ n. (n + 48) ∷ [])) (values.message 7)).payload.result.extra.node_id
    ≡ bytes_of "go-msgp-node-1"
unfolding response_to
msgp_answers = refl

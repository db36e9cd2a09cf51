-- ===== src/Tests/Launches.antt =====
-- Launches and ends of plugins on concrete systems.
use plugo.Prelude.{ℕ, ◌≡◌, refl, arith, true, false, List, [], ◌∷◌, none, some}
use plugo.Io.{Failure, ok, fail, eof, wrapped, system, read_full, write, Result}
use plugo.Conn.{MessageConn, new_message_conn, close_conn}
use plugo.Context.{with_context}
use plugo.Wire.{put_uint32, uint32}
use plugo.Negotiate.{
  codec_map, length_prefixed, negotiate_from_plugin_to_host, negotiate_from_host_to_plugin,
}
use plugo.Negotiate.Sides.{patient, prefixed}
use plugo.Plugin.{Options, Plugin, Cmd, exit_error, with_codec, options_of, plugin_close}
use plugo.Plugin.Launch.{open_after, is_running}
use plugo.Plugin.Unix
use plugo.Plugin.Unix.{open_unix}
use plugo.Plugin.Windows
use plugo.Plugin.Windows.{open_windows}
use plugo.Plugin.Lifecycle.{
  open_unix-fail, open_unix-ok, open_windows-fail, plugin_close_ends, after_close,
}
use plugo.Attach.{Host, find_connection, parse_uint, close_on_error, attaching}
use plugo.Attach.Outcome.{is_released, attaching-fail}
use plugo.Tests.{link, byte_codec, byte_json}

abbrev options : List (Options ℕ → Options ℕ)
unfolding with_codec
options = with_codec (byte_codec "json" ∷ []) ∷ []

-- The plugin process dies before the handshake.
abbrev silent_unix : Unix.System
silent_unix = record {
  socketpair = ok (5, 6);
  connection = link;
  start = ok tt;
  outcome = some (exit_error 1);
  environ = "HOME=/" ∷ [];
}

abbrev no_response : Failure
no_response =
    wrapped "failed to negotiate codec with plugin"
      (wrapped "failed to read handshake response length" eof)

open_unix_fails : (open_unix byte_json patient silent_unix "plugin" options).0 ≡ fail no_response
unfolding open_unix negotiate_from_host_to_plugin options length_prefixed with_context write
    read_full
open_unix_fails = refl

open_unix-fail_example :
    (open_after (open_unix byte_json patient silent_unix "plugin" options).1 ≡ [])
    × (is_running (open_unix byte_json patient silent_unix "plugin" options).1 ≡ false)
open_unix-fail_example =
    open_unix-fail byte_json patient "plugin" options silent_unix no_response open_unix_fails

-- The same, with a plugin that answers the handshake.
abbrev live_unix : Unix.System
live_unix = record silent_unix { connection = record link { input = prefixed (1 ∷ []) } }

abbrev negotiated : Result (MessageConn ℕ)
unfolding negotiate_from_host_to_plugin options
negotiated =
    (negotiate_from_host_to_plugin byte_json patient (options_of options).codecs
      live_unix.connection).0

abbrev conn_of : Result (MessageConn ℕ) → MessageConn ℕ
unfolding new_message_conn
conn_of (ok m) = m
conn_of _ = new_message_conn link (byte_codec "json") true

abbrev launched : Plugin ℕ
launched = record {
  cmd = some (record {
    has_process = true;
    killed = false;
    waited_for = false;
    outcome = some (exit_error 1);
  });
  conn = some (conn_of negotiated);
}

open_unix_succeeds : (open_unix byte_json patient live_unix "plugin" options).0 ≡ ok launched
unfolding open_unix negotiate_from_host_to_plugin options negotiated conn_of length_prefixed
    with_context write read_full put_uint32 uint32 codec_map
open_unix_succeeds = refl

open_unix-ok_example :
    (open_after (open_unix byte_json patient live_unix "plugin" options).1 ≡ 5 ∷ [])
    × (is_running (open_unix byte_json patient live_unix "plugin" options).1 ≡ true)
    × (m : MessageConn ℕ) × ((negotiate_from_host_to_plugin byte_json patient
          (options_of options).codecs
          live_unix.connection).0
        ≡ ok m)
    × (launched.conn ≡ some m)
open_unix-ok_example =
    open_unix-ok byte_json patient "plugin" options live_unix 5 6 launched refl (omega arith)
      open_unix_succeeds

-- The second pipe cannot be made.
abbrev short_of_pipes : Windows.System
short_of_pipes = record {
  host_read_pipe = ok (5, 6);
  host_write_pipe = fail (system 4);
  inherit_read = ok tt;
  inherit_write = ok tt;
  connection = record { r = link; w = link };
  start = ok tt;
  outcome = none;
  environ = [];
}

no_second_pipe :
    (open_windows byte_json patient short_of_pipes "plugin" options).0
    ≡ fail (wrapped "failed to create host-write pipe" (system 4))
unfolding open_windows
no_second_pipe = refl

open_windows-fail_example :
    (open_after (open_windows byte_json patient short_of_pipes "plugin" options).1 ≡ [])
    × (is_running (open_windows byte_json patient short_of_pipes "plugin" options).1 ≡ false)
open_windows-fail_example =
    open_windows-fail byte_json patient "plugin" options short_of_pipes
      (wrapped "failed to create host-write pipe" (system 4)) no_second_pipe

abbrev idle_conn : MessageConn ℕ
unfolding new_message_conn
idle_conn = new_message_conn link (byte_codec "json") true

abbrev running : Cmd
running = record {
  has_process = true;
  killed = false;
  waited_for = false;
  outcome = some (exit_error 9);
}

plugin_close_ends_example :
    let r = plugin_close (record { cmd = some running; conn = some idle_conn }) in
    (r.1.cmd
      ≡ some (record {
        has_process = true;
        killed = true;
        waited_for = true;
        outcome = some (exit_error 9);
      }))
    × (r.1.conn ≡ some (close_conn idle_conn).1)
    × ((close_conn idle_conn).1.rwc.closed ≡ true)
    × (r.0 ≡ after_close false (some (exit_error 9)))
unfolding idle_conn
plugin_close_ends_example = plugin_close_ends idle_conn running

-- A plugin on descriptor 3 whose host has gone.
abbrev orphan : Host
orphan = record { pipe_read = []; pipe_write = []; new_file = λ n. link; socket = some link }

abbrev no_request : Failure
no_request =
    wrapped "failed to negotiate codec with host"
      (wrapped "failed to read handshake request length" eof)

orphan_fails : (attaching byte_json patient (byte_codec "json" ∷ []) orphan).0 ≡ fail no_request
unfolding attaching find_connection parse_uint close_on_error negotiate_from_plugin_to_host
    with_context read_full
orphan_fails = refl

attaching-fail_example :
    is_released (attaching byte_json patient (byte_codec "json" ∷ []) orphan).1 ≡ true
attaching-fail_example =
    attaching-fail byte_json patient (byte_codec "json" ∷ []) orphan no_request orphan_fails

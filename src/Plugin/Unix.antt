-- ===== src/Plugin/Unix.antt =====
-- plugin_unix.go: `Open` over a socket pair.
use plugo.Prelude.{ℕ, true, false, List, [], ◌∷◌, ◌++◌, Option, none, some, String}
use plugo.Io.{wrapped, Result, ok, fail, panics, Done, Rwc}
use plugo.Conn.{MessageConn}
use plugo.Negotiate.{Json, Ctxs, negotiate_from_host_to_plugin}
use plugo.Plugin.{Options, Plugin, WaitError, options_of}
use plugo.Plugin.Launch.{Effect, opens, closes, starts, kills, waits, Launch, EnvEntry, entries}

-- The answers of the system: `Socketpair`, the connection on the host's socket, `Start`, and `Wait`.
pub record System : Type 0 where
  pub socketpair : Result (ℕ × ℕ)
  pub connection : Rwc
  pub start : Done
  pub outcome : Option WaitError
  pub environ : List String

abbrev unix_env : System → List String → Option (List EnvEntry)
unix_env s [] = none
unix_env s (e ∷ es) = some (entries (s.environ ++ e ∷ es))

module _ {V : Type 0} where
  abbrev unix_launch : System → String → Options V → ℕ → Launch
  unix_launch s path o child = record {
    path = path;
    args = o.args;
    env = unix_env s o.env;
    inherited = child ∷ [];
  }

  -- Behind the handshake: the plugin, or the end of the process and of the host's socket.
  abbrev unix_finish :
      System → ℕ → Result (MessageConn V) → List Effect → Result (Plugin V) × List Effect
  unix_finish s host (ok m) es = (
    ok (record {
      cmd =
          some (record {
            has_process = true;
            killed = false;
            waited_for = false;
            outcome = s.outcome;
          });
      conn = some m;
    }),
    es,
  )
  unix_finish s host (fail e) es = (
    fail (wrapped "failed to negotiate codec with plugin" e),
    es ++ closes host ∷ kills ∷ waits ∷ [],
  )
  unix_finish s host panics es = (panics, es)

  unfoldable pub open_unix :
      Json → Ctxs → System → String → List (Options V → Options V) → Result (Plugin V) × List Effect
  open_unix json cs s path opts =
      let o = options_of opts in
      elim s.socketpair [
        | fail e ↦ (fail (wrapped "failed to create socket pair" e), [])
        | panics ↦ (panics, [])
        | ok (host, child) ↦ elim s.start [
          | fail e ↦ (
            fail (wrapped "failed to start plugin subprocess" e),
            opens host ∷ opens child ∷ closes host ∷ closes child ∷ [],
          )
          | panics ↦ (panics, [])
          | ok _ ↦
              unix_finish s host (negotiate_from_host_to_plugin json cs o.codecs s.connection).0
                (opens host ∷ opens child ∷ starts (unix_launch s path o child) ∷ closes child ∷ [])
        ]
      ]

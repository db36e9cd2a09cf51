-- ===== src/Plugin/Windows.antt =====
-- plugin_windows.go: `Open` over two anonymous pipes.
use plugo.Prelude.{ℕ, true, false, List, [], ◌∷◌, ◌++◌, Option, some, String}
use plugo.Io.{wrapped, Result, ok, fail, panics, Done}
use plugo.Conn.{MessageConn}
use plugo.Pipe.{PipeConn, as_rwc}
use plugo.Negotiate.{Json, Ctxs, negotiate_from_host_to_plugin}
use plugo.Plugin.{Options, Plugin, WaitError, options_of}
use plugo.Plugin.Launch.{Effect, opens, closes, starts, kills, waits, Launch, handle, entries}

-- The answers of the system: the two `CreatePipe`s, the two `SetHandleInformation`s, the host's ends of
-- the pipes, `Start`, and `Wait`.
pub record System : Type 0 where
  pub host_read_pipe : Result (ℕ × ℕ)
  pub host_write_pipe : Result (ℕ × ℕ)
  pub inherit_read : Done
  pub inherit_write : Done
  pub connection : PipeConn
  pub start : Done
  pub outcome : Option WaitError
  pub environ : List String

-- The four handles `hr`, `cw`, `cr`, `hw`.
pub record Handles : Type 0 where
  pub hr : ℕ
  pub cw : ℕ
  pub cr : ℕ
  pub hw : ℕ

abbrev pub opened : Handles → List Effect
opened h = opens h.hr ∷ opens h.cw ∷ opens h.cr ∷ opens h.hw ∷ []

abbrev pub close_four : Handles → List Effect
close_four h = closes h.hr ∷ closes h.cw ∷ closes h.cr ∷ closes h.hw ∷ []

module _ {V : Type 0} where
  abbrev windows_launch : System → String → Options V → Handles → Launch
  windows_launch s path o h = record {
    path = path;
    args = o.args;
    env = some (
        entries (s.environ ++ o.env)
        ++ handle "PLUGO_PIPE_READ" h.cr ∷ handle "PLUGO_PIPE_WRITE" h.cw ∷ []);
    inherited = h.cr ∷ h.cw ∷ [];
  }

  abbrev windows_finish :
      System → Handles → Result (MessageConn V) → List Effect → Result (Plugin V) × List Effect
  windows_finish s h (ok m) es = (
    ok (record {
      cmd =
          some (record {
            has_process = true;
            killed = false;
            waited_for = false;
            outcome = s.outcome;
          });
      conn = some m;
    }),
    es,
  )
  windows_finish s h (fail e) es = (
    fail (wrapped "failed to negotiate codec with plugin" e),
    es ++ closes h.hr ∷ closes h.hw ∷ kills ∷ waits ∷ [],
  )
  windows_finish s h panics es = (panics, es)

  -- From the four handles on.
  unfoldable pub launch_windows :
      Json → Ctxs → System → String → Options V → Handles → Result (Plugin V) × List Effect
  launch_windows json cs s path o h = elim s.inherit_read [
    | fail e ↦
        (fail (wrapped "failed to set child-read handle inheritable" e), opened h ++ close_four h)
    | panics ↦ (panics, [])
    | ok _ ↦ elim s.inherit_write [
      | fail e ↦ (
        fail (wrapped "failed to set child-write handle inheritable" e),
        opened h ++ close_four h,
      )
      | panics ↦ (panics, [])
      | ok _ ↦ elim s.start [
        | fail e ↦ (fail (wrapped "failed to start plugin subprocess" e), opened h ++ close_four h)
        | panics ↦ (panics, [])
        | ok _ ↦
            windows_finish s h
              (negotiate_from_host_to_plugin json cs o.codecs (as_rwc s.connection)).0
              (opened h ++ starts (windows_launch s path o h) ∷ closes h.cr ∷ closes h.cw ∷ [])
      ]
    ]
  ]

  unfoldable pub open_windows :
      Json → Ctxs → System → String → List (Options V → Options V) → Result (Plugin V) × List Effect
  unfolding launch_windows
  open_windows json cs s path opts = elim s.host_read_pipe [
    | fail e ↦ (fail (wrapped "failed to create host-read pipe" e), [])
    | panics ↦ (panics, [])
    | ok (hr, cw) ↦ elim s.host_write_pipe [
      | fail e ↦ (
        fail (wrapped "failed to create host-write pipe" e),
        opens hr ∷ opens cw ∷ closes hr ∷ closes cw ∷ [],
      )
      | panics ↦ (panics, [])
      | ok (cr, hw) ↦
          launch_windows json cs s path (options_of opts)
            (record { hr = hr; cw = cw; cr = cr; hw = hw })
    ]
  ]

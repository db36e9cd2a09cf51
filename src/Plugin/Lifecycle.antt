-- ===== src/Plugin/Lifecycle.antt =====
-- Nothing that a launch opens or starts outlives its failure, and `Close` ends what a launch began.
use plugo.Prelude.{
  ℕ, ◌≡◌, ◌≢◌, refl, Bool, true, false, List, [], ◌∷◌, Option, none, some, String, arith, ◌||◌,
}
use plugo.Io.{Failure, ok, fail, Done, close, closed_file}
use plugo.Conn.{MessageConn, close_conn}
use plugo.Negotiate.{Json, Ctxs, negotiate_from_host_to_plugin}
use plugo.Plugin.{
  Options, Plugin, Cmd, WaitError, exit_error, wait_failed, plugin_close, options_of,
}
use plugo.Plugin.Launch.{open_after, is_running}
use plugo.Plugin.Unix
use plugo.Plugin.Unix.{open_unix}
use plugo.Plugin.Windows
use plugo.Plugin.Windows.{open_windows, launch_windows, Handles}

-- What `Close` is expected to return, from whether the connection was closed and what `Wait` says.
abbrev pub after_close : Bool → Option WaitError → Done
after_close true o = fail closed_file
after_close false none = ok tt
after_close false (some (exit_error n)) = ok tt
after_close false (some (wait_failed e)) = fail e

module _ {V : Type 0} (json : Json) (cs : Ctxs) (path : String)
    (opts : List (Options V → Options V)) where
  -- Where `Open` on Unix fails, at whichever step, no handle is left open and no process is left
  -- without a call of `Wait`.
  pub open_unix-fail :
      (s : Unix.System) (e : Failure)
      → (open_unix json cs s path opts).0 ≡ fail e
      → (open_after (open_unix json cs s path opts).1 ≡ [])
        × (is_running (open_unix json cs s path opts).1 ≡ false)
  unfolding open_unix
  open_unix-fail s e h = ground arith

  -- Where it succeeds, the host's socket is the one handle left open, the child's is closed in the host,
  -- the process runs, and the plugin holds it and the negotiated connection.
  pub open_unix-ok :
      (s : Unix.System) (host child : ℕ) (p : Plugin V)
      → s.socketpair ≡ ok (host, child)
      → host ≢ child
      → (open_unix json cs s path opts).0 ≡ ok p
      → (open_after (open_unix json cs s path opts).1 ≡ host ∷ [])
        × (is_running (open_unix json cs s path opts).1 ≡ true)
        × (m : MessageConn V) × ((negotiate_from_host_to_plugin json cs
              (options_of opts).codecs
              s.connection).0
            ≡ ok m)
        × (p.conn ≡ some m)
  unfolding open_unix
  open_unix-ok s host child p q ne h = ground arith

  -- Where `Open` on Windows fails, at whichever step, none of the four pipe handles is left open and no
  -- process is left without a call of `Wait`.
  pub open_windows-fail :
      (s : Windows.System) (e : Failure)
      → (open_windows json cs s path opts).0 ≡ fail e
      → (open_after (open_windows json cs s path opts).1 ≡ [])
        × (is_running (open_windows json cs s path opts).1 ≡ false)
  unfolding open_windows
  open_windows-fail s e h = ground arith

-- `Plugin.Close` leaves the connection closed and the process, if there is one, killed and waited for,
-- whatever fails on the way. It reports the error of the connection if there is one, else that of
-- `Wait`, of which the exit status of the process is none.
pub plugin_close_ends :
    {V : Type 0} (m : MessageConn V) (c : Cmd)
    → let r = plugin_close (record { cmd = some c; conn = some m }) in
      (r.1.cmd
        ≡ some (record {
          has_process = c.has_process;
          killed = c.has_process || c.killed;
          waited_for = true;
          outcome = c.outcome;
        }))
      × (r.1.conn ≡ some (close_conn m).1)
      × ((close_conn m).1.rwc.closed ≡ true)
      × (r.0 ≡ after_close m.rwc.closed c.outcome)
unfolding plugin_close close_conn close
plugin_close_ends m c = (ground arith, refl, ground arith, ground arith)

-- ===== src/Plugin.antt =====
-- plugin.go: the options of a plugin, and the plugin with its process. Its launch is in the children,
-- one for plugin_unix.go and one for plugin_windows.go.
pub mod Launch
pub mod Unix
pub mod Windows
pub mod Lifecycle
use plugo.Prelude.{
  ℕ, Bool, true, false, List, [], ◌∷◌, ◌++◌, Option, none, some, String, if◌then◌else◌,
}
use plugo.Io.{Failure, Result, ok, fail, panics, Done}
use plugo.Codec.{Codec}
use plugo.Conn.{MessageConn, close_conn}

pub record Options (V : Type 0) : Type 0 where
  pub args : List String
  pub env : List String
  pub codecs : List (Codec V)

-- An `*exec.ExitError`, or another error of `Wait`.
pub data WaitError : Type 0 where
  exit_error : ℕ → WaitError
  wait_failed : Failure → WaitError

-- An `*exec.Cmd`: whether `Process` is not nil, whether `Kill` and `Wait` were called, and what `Wait`
-- returns. The two flags do not say that the calls succeeded.
pub record Cmd : Type 0 where
  pub has_process : Bool
  pub killed : Bool
  pub waited_for : Bool
  pub outcome : Option WaitError

pub record Plugin (V : Type 0) : Type 0 where
  pub cmd : Option Cmd
  pub conn : Option (MessageConn V)

abbrev pub kill : Cmd → Cmd
kill c = if c.has_process then record c { killed = true } else c

abbrev pub wait : Cmd → Cmd
wait c = record c { waited_for = true }

-- What `Close` keeps of an error of `Wait`.
abbrev pub reported : Option WaitError → List Failure
reported none = []
reported (some (exit_error n)) = []
reported (some (wait_failed e)) = e ∷ []

abbrev pub errors_of : Done → List Failure
errors_of (ok _) = []
errors_of (fail e) = e ∷ []
errors_of panics = []

abbrev pub first_of_errors : List Failure → Done
first_of_errors [] = ok tt
first_of_errors (e ∷ es) = fail e

abbrev pub end_part : Option Cmd → List Failure × Option Cmd
end_part none = ([], none)
end_part (some c) = (reported c.outcome, some (wait (kill c)))

module _ {V : Type 0} where
  unfoldable pub with_args : List String → Options V → Options V
  with_args l o = record o { args = o.args ++ l }

  unfoldable pub with_env : List String → Options V → Options V
  with_env l o = record o { env = o.env ++ l }

  unfoldable pub with_codec : List (Codec V) → Options V → Options V
  with_codec l o = record o { codecs = o.codecs ++ l }

  -- `for _, opt := range opts { opt(&o) }` on empty options
  abbrev pub apply_from : Options V → List (Options V → Options V) → Options V
  apply_from o [] = o
  apply_from o (f ∷ fs) = apply_from (f o) fs

  abbrev pub options_of : List (Options V → Options V) → Options V
  options_of = apply_from (record { args = []; env = []; codecs = [] })

  abbrev pub close_part : Option (MessageConn V) → List Failure × Option (MessageConn V)
  close_part none = ([], none)
  close_part (some m) = let (r, m') = close_conn m in (errors_of r, some m')

  -- `Close`: the connection, then the process, which is killed and waited for; the first error is returned.
  unfoldable pub plugin_close : Plugin V → Done × Plugin V
  plugin_close p =
      let (e₁, conn') = close_part p.conn in
      let (e₂, cmd') = end_part p.cmd in
      (first_of_errors (e₁ ++ e₂), record { cmd = cmd'; conn = conn' })

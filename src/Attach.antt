-- ===== src/Attach.antt =====
-- client.go: how a plugin finds its end of the connection, and the handshake on it.
pub mod Outcome
use plugo.Prelude.{
  ℕ, ◌+◌, ◌-◌, ◌*◌, ◌^◌, Bool, true, false, List, [], ◌∷◌, Option, none, some, ◌&&◌, ◌||◌,
  if◌then◌else◌, ltb, leb, ◌==◌, nat_eq,
}
use plugo.Io.{Failure, text, wrapped, Result, ok, fail, panics, Rwc, Io, close}
use plugo.Codec.{Codec}
use plugo.Conn.{MessageConn}
use plugo.Pipe.{PipeConn, as_rwc}
use plugo.Negotiate.{Json, Ctxs, negotiate_from_plugin_to_host}

-- `strconv.ParseUint(s, 10, 64)`: one digit at least, digits only, below 2 ^ 64.
abbrev digits_value : ℕ → List ℕ → Option ℕ
digits_value acc [] = some acc
digits_value acc (b ∷ bs) =
    let rest = digits_value (acc * 10 + (b - 48)) bs in if leb 48 b && leb b 57 then rest else none

unfoldable pub parse_uint : List ℕ → Option ℕ
parse_uint [] = none
parse_uint (b ∷ bs) = elim (digits_value 0 (b ∷ bs)) [
  | none ↦ none
  | some n ↦ if ltb n (2 ^ 64) then some n else none
]

-- What the two variables give: the handle, which is 0 where there is none, and whether one was parsed.
abbrev pub handle_of : List ℕ → ℕ
handle_of s = elim (parse_uint s) [ none ↦ 0 | some n ↦ n ]

abbrev pub is_parsed : List ℕ → Bool
is_parsed s = elim (parse_uint s) [ none ↦ false | some n ↦ true ]

-- The plugin's surroundings: `os.Getenv` at the two names, and `os.NewFile`, which may be nil for
-- descriptor 3.
pub record Host : Type 0 where
  pub pipe_read : List ℕ
  pub pipe_write : List ℕ
  pub new_file : ℕ → Rwc
  pub socket : Option Rwc

-- The connection to the host, or why there is none.
unfoldable pub find_connection : Host → Result Rwc
find_connection h =
    let readable = handle_of h.pipe_read in
    let writable = handle_of h.pipe_write in
    if is_parsed h.pipe_read || is_parsed h.pipe_write
    then if readable == 0 || writable == 0
      then fail (text "missing one of the pipe handles, both read and write handles are required")
      else ok (as_rwc (record { r = h.new_file readable; w = h.new_file writable }))
    else elim h.socket [
      | none ↦ fail (
          text
            "inherited file descriptor FD 3 not found, plugin must be spawned by a plugo-compliant host process")
      | some sock ↦ ok sock
    ]

module _ {V : Type 0} where
  -- A handshake that fails closes the connection.
  unfoldable pub close_on_error : Result (MessageConn V) × Rwc → Result (MessageConn V) × Rwc
  close_on_error (ok m, r) = (ok m, r)
  close_on_error (fail e, r) = (fail (wrapped "failed to negotiate codec with host" e), (close r).1)
  close_on_error (panics, r) = (panics, r)

  -- The connection goes with the result: `none` where none was made.
  unfoldable pub attaching :
      Json → Ctxs → List (Codec V) → Host → Result (MessageConn V) × Option Rwc
  attaching json cs codecs h = elim (find_connection h) [
    | fail e ↦ (fail e, none)
    | panics ↦ (panics, none)
    | ok rwc ↦
        (let (m, r) = close_on_error (negotiate_from_plugin_to_host json cs codecs rwc) in
          (m, some r))
  ]

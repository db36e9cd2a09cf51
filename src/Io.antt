-- ===== src/Io.antt =====
-- The values of Go's `error` that the code makes, what a Go call returns, and the
-- `io.ReadWriteCloser` under a connection with `io.ReadFull` on it (plugin_windows.go's and
-- client.go's pipe pairs are in Pipe.antt).
use plugo.Prelude.{
  ℕ, ◌≡◌, ◌++◌, Bool, true, false, List, [], ◌∷◌, Option, none, some, String, ltb, if◌then◌else◌,
  length, take, drop,
}

-- `io.EOF`, `io.ErrUnexpectedEOF`, the two errors of a context, errors of the system, and those of
-- `fmt.Errorf`: a text, a text with a number or with bytes, and a text that wraps an error.
pub data Failure : Type 0 where
  eof unexpected_eof canceled deadline_exceeded : Failure
  timeout closed_file : Failure
  system : ℕ → Failure
  text : String → Failure
  text_number : String → ℕ → Failure
  text_bytes : String → List ℕ → Failure
  text_names : String → List String → Failure
  wrapped : String → Failure → Failure
  wrapped_number : String → ℕ → Failure → Failure

-- The results of a call: a value with a nil error, an error, or a run-time panic.
pub data Result {ℓ} (A : Type ℓ) : Type ℓ where
  ok : A → Result A
  fail : Failure → Result A
  panics : Result A

pub ok_eq {ℓ} : {A : Type ℓ} {x y : A} → ok x ≡ ok y → x ≡ y
ok_eq e = cc

abbrev pub Done : Type 0
Done = Result (Unit {0})

-- `if err != nil { return fmt.Errorf("…: %w", err) }`
abbrev pub wrap {ℓ} : {A : Type ℓ} → String → Result A → Result A
wrap s (ok a) = ok a
wrap s (fail e) = fail (wrapped s e)
wrap s panics = panics

-- What `SetDeadline` last left: none, a time to come, or `time.Now()`, which has passed.
pub data Deadline : Type 0 where
  never : Deadline
  at : ℕ → Deadline
  passed : Deadline

-- The stream below a connection: all the bytes that will ever arrive, the error behind the last of them,
-- the bytes written so far, and, where a write is going to fail, how much of it gets out and the error.
pub record Rwc : Type 0 where
  pub input : List ℕ
  pub ended : Failure
  pub output : List ℕ
  pub fault : Option (ℕ × Failure)
  pub has_deadline : Bool
  pub deadline : Deadline
  pub closed : Bool

-- Why no I/O is possible: the file is closed, or its deadline has passed.
abbrev pub refused_by : Bool → Deadline → Option Failure
refused_by true d = some closed_file
refused_by false passed = some timeout
refused_by false d = none

abbrev pub refusal : Rwc → Option Failure
refusal r = refused_by r.closed r.deadline

-- `io.ReadFull` reports the end of the input as `io.ErrUnexpectedEOF` if it comes after the first byte.
abbrev pub short_read : List ℕ → Failure → Failure
short_read [] e = e
short_read (b ∷ bs) eof = unexpected_eof
short_read (b ∷ bs) e = e

-- `io.ReadFull(r, buf)` with `len(buf)` equal to n, which is not 0 where the code calls it. The link has
-- ended behind `input`: a call that asks for more gets the error there. On a link that stays open, the
-- call waits instead; System/Rest.antt tells the two apart.
unfoldable pub read_full : ℕ → Rwc → Result (List ℕ) × Rwc
read_full n r = elim (refusal r) [
  | some e ↦ (fail e, r)
  | none ↦
      if ltb (length r.input) n
      then (fail (short_read r.input r.ended), record r { input = [] })
      else (ok (take n r.input), record r { input = drop n r.input })
]

-- `rwc.Write(buf)`
unfoldable pub write : List ℕ → Rwc → Done × Rwc
write buf r = elim (refusal r) [
  | some e ↦ (fail e, r)
  | none ↦ elim r.fault [
    | some (n, e) ↦ (fail e, record r { output = r.output ++ take n buf })
    | none ↦ (ok tt, record r { output = r.output ++ buf })
  ]
]

-- `rwc.Close()`
unfoldable pub close : Rwc → Done × Rwc
close r = if r.closed then (fail closed_file, r) else (ok tt, record r { closed = true })

-- `SetDeadline`, through the type assertion to `deadliner`.
abbrev pub set_deadline : Deadline → Rwc → Rwc
set_deadline d r = if r.has_deadline then record r { deadline = d } else r

-- I/O that may fail: on an error the calls after it are not made.
abbrev pub Io {ℓ} : Type ℓ → Type ℓ
Io A = Rwc → Result A × Rwc

abbrev pub bind {ℓ κ} : {A : Type ℓ} {B : Type κ} → Result A × Rwc → (A → Io B) → Result B × Rwc
bind (ok a, r) f = f a r
bind (fail e, r) f = (fail e, r)
bind (panics, r) f = (panics, r)

infixl 5 ◌>>=◌ ◌>>◌
abbrev pub ◌>>=◌ {ℓ κ} : {A : Type ℓ} {B : Type κ} → Io A → (A → Io B) → Io B
◌>>=◌ m f r = bind (m r) f

abbrev pub ◌>>◌ {ℓ κ} : {A : Type ℓ} {B : Type κ} → Io A → Io B → Io B
m >> k = m >>= λ _. k

abbrev pub pure {ℓ} : {A : Type ℓ} → A → Io A
pure a r = (ok a, r)

abbrev pub throw {ℓ} : {A : Type ℓ} → Failure → Io A
throw e r = (fail e, r)

abbrev pub lift {ℓ} : {A : Type ℓ} → Result A → Io A
lift a r = (a, r)

abbrev pub wrap_io {ℓ} : {A : Type ℓ} → (Failure → Failure) → Result A × Rwc → Result A × Rwc
wrap_io w (ok a, r) = (ok a, r)
wrap_io w (fail e, r) = (fail (w e), r)
wrap_io w (panics, r) = (panics, r)

-- An error of the call is wrapped before it is returned.
abbrev pub wrapping {ℓ} : {A : Type ℓ} → (Failure → Failure) → Io A → Io A
wrapping w m r = wrap_io w (m r)

-- ===== src/Context.antt =====
-- The two `withContext` helpers: the method of conn.go and the function of negotiate.go. Each runs a
-- blocking call on a connection, with a goroutine beside it that waits for the context.
pub mod Deadlines
use plugo.Prelude.{ℕ, Bool, true, false, Option, none, some, if◌then◌else◌}
use plugo.Io.{
  Failure, Result, ok, fail, panics, Deadline, never, at, passed, Rwc, close, set_deadline, Io,
}

-- When the context is done: not before the call is over; while the call runs; between its return and
-- the test of `ctx.Err()` behind it; or later, behind that test. Left out is the goroutine that takes
-- its other case, or has taken it, when the context is done just before that test: then nothing is
-- interrupted, and an error of the call still becomes that of the context.
pub data Moment : Type 0 where
  quiet during after late : Moment

-- What the code asks of a `context.Context`: `Err()` at entry, whether `Done()` is not nil,
-- `Deadline()`, when it is done, and `Err()` from then on.
pub record Ctx : Type 0 where
  pub err : Option Failure
  pub cancellable : Bool
  pub deadline : Option ℕ
  pub moment : Moment
  pub cause : Failure

-- `context.Background()`
abbrev pub background : Ctx
background = record {
  err = none;
  cancellable = false;
  deadline = none;
  moment = quiet;
  cause = Failure.canceled;
}

-- The goroutine, once the context is done: `SetDeadline(time.Now())`, or else `Close()`.
unfoldable pub interrupt : Rwc → Rwc
unfolding close
interrupt r = if r.has_deadline then set_deadline passed r else (close r).1

-- `if d, ok := ctx.Deadline(); ok { SetDeadline(d) }`
abbrev pub set_from : Option ℕ → Rwc → Rwc
set_from none r = r
set_from (some d) r = set_deadline (at d) r

-- `if err != nil { if ctx.Err() != nil { return ctx.Err() } }`
abbrev pub prefer_cause {ℓ} : {A : Type ℓ} → Moment → Failure → Result A → Result A
prefer_cause quiet c (fail e) = fail e
prefer_cause during c (fail e) = fail c
prefer_cause after c (fail e) = fail c
prefer_cause late c (fail e) = fail e
prefer_cause m c (ok a) = ok a
prefer_cause m c panics = panics

-- The call, with the goroutine's act before it, behind it or not at all.
abbrev pub attended {ℓ} : {A : Type ℓ} → Moment → Io A → Io A
attended quiet fn r = fn r
attended during fn r = fn (interrupt r)
attended after fn r = let (a, r') = fn r in (a, interrupt r')
attended late fn r = fn r

abbrev pub finish {ℓ} :
    {A : Type ℓ} → (Result A → Result A) → (Rwc → Rwc) → Result A × Rwc → Result A × Rwc
finish f g (a, r) = (f a, g r)

-- conn.go's deferred calls: the deadline is cleared if the context had one. Nothing waits for the
-- goroutine, so its act may come last, where it still waits and takes the case of the context.
abbrev pub clear_if_set : Option ℕ → Rwc → Rwc
clear_if_set none r = r
clear_if_set (some d) r = set_deadline never r

abbrev pub trailing : Moment → Rwc → Rwc
trailing late r = interrupt r
trailing m r = r

module _ {ℓ} {A : Type ℓ} where
  -- `(m *MessageConn) withContext`
  unfoldable pub conn_with_context : Ctx → Io A → Io A
  unfolding interrupt
  conn_with_context ctx fn r = elim ctx.err [
    | some e ↦ (fail e, r)
    | none ↦
        if ctx.cancellable
        then finish (prefer_cause ctx.moment ctx.cause)
            (λ r'. trailing ctx.moment (clear_if_set ctx.deadline r'))
            (attended ctx.moment fn (set_from ctx.deadline r))
        else finish (λ a. a) (clear_if_set ctx.deadline) (fn (set_from ctx.deadline r))
  ]

  -- negotiate.go's `withContext`: it clears the deadline first, and waits for the goroutine (`<-exited`)
  -- before it clears the deadline again and tests `ctx.Err()`. A context that is done later interrupts
  -- nothing.
  unfoldable pub with_context : Ctx → Io A → Io A
  unfolding interrupt
  with_context ctx fn r = elim ctx.err [
    | some e ↦ (fail e, r)
    | none ↦
        let start = set_from ctx.deadline (set_deadline never r) in
        if ctx.cancellable
        then finish (prefer_cause ctx.moment ctx.cause) (set_deadline never)
            (attended ctx.moment fn start)
        else finish (λ a. a) (set_deadline never) (fn start)
  ]

-- ===== src/Context/Deadlines.antt =====
-- What is left of a connection's deadline behind a call under a context.
use plugo.Prelude.{◌≡◌, true, Option, none, some, arith}
use plugo.Io.{Failure, fail, Deadline, never, Rwc, Io, set_deadline}
use plugo.Context.{Ctx, set_from, conn_with_context, with_context, interrupt}

-- The call keeps the connection's kind: what `SetDeadline` and the type assertion look at.
abbrev pub KeepsKind {ℓ} : {A : Type ℓ} → Io A → Type 0
KeepsKind fn = (r : Rwc) → (fn r).1.has_deadline ≡ r.has_deadline

abbrev pub KeepsDeadline {ℓ} : {A : Type ℓ} → Io A → Type 0
KeepsDeadline fn = (r : Rwc) → (fn r).1.deadline ≡ r.deadline

-- The deadline behind negotiate.go's `withContext`: the old one if the context was done at entry.
abbrev pub left_behind : Option Failure → Deadline → Deadline
left_behind none d = never
left_behind (some e) d = d

-- On a connection that has deadlines, with a call that keeps the connection's kind: negotiate.go's
-- `withContext` leaves no deadline behind if the context is not done at entry, be it done later or not;
-- if it is done at entry, the deadline stays as it was.
pub with_context-deadline {ℓ} :
    {A : Type ℓ} (ctx : Ctx) (fn : Io A) (r : Rwc)
    → KeepsKind fn
    → r.has_deadline ≡ true
    → (with_context ctx fn r).1.deadline ≡ left_behind ctx.err r.deadline
unfolding with_context
with_context-deadline ctx fn r keep h = ground (
  arith,
  keep (set_from ctx.deadline (set_deadline never r)),
  keep (interrupt (set_from ctx.deadline (set_deadline never r))),
)

-- A context that is done at entry stops the call: nothing is read, written or set.
pub with_context-done {ℓ} :
    {A : Type ℓ} (ctx : Ctx) (fn : Io A) (r : Rwc) (e : Failure)
    → ctx.err ≡ some e
    → (with_context ctx fn r ≡ (fail e, r)) × (conn_with_context ctx fn r ≡ (fail e, r))
unfolding with_context conn_with_context
with_context-done ctx fn r e h = (rw h, rw h)

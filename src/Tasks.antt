-- ===== src/Tasks.antt =====
-- conn.go: the goroutines that the read loop starts for routed streams, one call at a time.
use plugo.Prelude.{ℕ, true, List, [], Option, none, some, if◌then◌else◌, get_elem?, set}
use plugo.Io.{canceled, panics, Done}
use plugo.Context.{Ctx, Moment}
use plugo.Talk
use plugo.Talk.{Talk, Call, finish, own_step, Reply, done, received, resume}
use plugo.Conn.{MessageConn}
use plugo.Reader.{Pick, Attempt, returned, waits}
use plugo.Stream
use plugo.Routing

module _ {V : Type 0} where
  -- The context of a stream, with the moment at which it ends.
  abbrev pub stream_ctx : Moment → ℕ → MessageConn V → Ctx
  stream_ctx t ref m = record {
    err = elim (get_elem? m.objects ref) [
      | none ↦ none
      | some s ↦ if s.cancelled then some canceled else none
    ];
    cancellable = true;
    deadline = none;
    moment = t;
    cause = canceled;
  }

  abbrev pub ctx_of : Option Ctx → Moment → ℕ → MessageConn V → Ctx
  ctx_of (some ctx) t ref m = ctx
  ctx_of none t ref m = stream_ctx t ref m

  -- What a call leaves: the rest of the goroutine, and the connection.
  abbrev pub go_on : ℕ → ℕ → Talk → Reply → MessageConn V → MessageConn V
  go_on i ref talk r m = record m { tasks = set m.tasks i (ref, resume talk r) }

  -- A panic is the end of the goroutine, as it is of the program.
  abbrev pub ended : ℕ → ℕ → MessageConn V → MessageConn V
  ended i ref m = record m { tasks = set m.tasks i (ref, λ rs. finish) }

  abbrev pub after_call : ℕ → ℕ → Talk → Done × MessageConn V → MessageConn V
  after_call i ref talk (panics, m) = ended i ref m
  after_call i ref talk (d, m) = go_on i ref talk (done d) m

  abbrev pub after_receive :
      ℕ → ℕ → Talk → MessageConn V → Attempt (List ℕ) (MessageConn V) → MessageConn V
  after_receive i ref talk m (returned panics m') = ended i ref m'
  after_receive i ref talk m (returned r m') = go_on i ref talk (received r) m'
  after_receive i ref talk m waits = m

  -- The next call of a goroutine; one that blocks is tried again.
  abbrev pub make_call : Call → Pick → Moment → ℕ → ℕ → Talk → MessageConn V → MessageConn V
  make_call finish pick t i ref talk m = m
  make_call (own_step d) pick t i ref talk m = after_call i ref talk (d, m)
  make_call (Talk.send c bs) pick t i ref talk m =
      after_call i ref talk (Stream.send pick (ctx_of c t ref m) ref bs m)
  make_call (Talk.recv c) pick t i ref talk m =
      after_receive i ref talk m (Routing.recv pick (ctx_of c t ref m) ref m)
  make_call Talk.close_write pick t i ref talk m =
      after_call i ref talk (Stream.close_write t ref m)
  make_call Talk.close pick t i ref talk m = after_call i ref talk (Stream.close t ref m)

  unfoldable pub task_turn : Pick → Moment → ℕ → MessageConn V → MessageConn V
  task_turn pick t i m = elim (get_elem? m.tasks i) [
    | none ↦ m
    | some (ref, talk) ↦ make_call (talk []) pick t i ref talk m
  ]

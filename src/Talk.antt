-- ===== src/Talk.antt =====
-- What a goroutine of conn.go does with a stream: its next call, as a function of what its calls have
-- returned so far. Handlers are such functions, since their code is the application's, and they may go on
-- for ever.
use plugo.Prelude.{ℕ, ◌++◌, List, [], ◌∷◌, Option, none, some}
use plugo.Io.{Result, ok, fail, panics, Done}
use plugo.Context.{Ctx}

-- Calls on one stream: `Send` and `Recv` with a context, or with the stream's own, `CloseWrite`, `Close`;
-- a step of the application's own that has this result; and the end of the goroutine.
pub data Call : Type 0 where
  finish : Call
  send : Option Ctx → List ℕ → Call
  recv : Option Ctx → Call
  close_write : Call
  close : Call
  own_step : Done → Call

pub data Reply : Type 0 where
  done : Done → Reply
  received : Result (List ℕ) → Reply

-- The replies stand in the order of the calls.
abbrev pub Talk : Type 0
Talk = List Reply → Call

-- The rest of the goroutine, behind a reply.
abbrev pub resume : Talk → Reply → Talk
resume t r rs = t (r ∷ rs)

-- `func(req []byte, sender func([]byte) error) error`, behind its request: a call of `sender`, one that
-- fails before it reaches the stream, or the return.
pub data Move : Type 0 where
  returns : Done → Move
  sends : List ℕ → Move
  refuses : Done → Move

abbrev pub Sender : Type 0
Sender = List Done → Move

-- `func(reqs <-chan []byte) ([]byte, error)`: its result once these requests have come, if it returns
-- then, and its result if `reqs` is closed behind them.
pub record Collector : Type 0 where
  pub on_requests : List (List ℕ) → Option (Result (List ℕ))
  pub at_end : List (List ℕ) → Result (List ℕ)

abbrev pub SingleMultiHandler : Type 0
SingleMultiHandler = List ℕ → Sender

abbrev pub outcome : Reply → Done
outcome (done d) = d
outcome (received (ok bs)) = ok tt
outcome (received (fail e)) = fail e
outcome (received panics) = panics

-- The deferred `s.Close()`.
abbrev pub closing : Talk
closing [] = close
closing (r ∷ rs) = finish

abbrev pub call_of : Move → Call
call_of (returns d) = close
call_of (sends bs) = send none bs
call_of (refuses d) = own_step d

-- `h(req, func(resp []byte) error { return s.Send(s.ctx, resp) })`, then the deferred `s.Close()`.
unfoldable pub respond : Sender → Talk
respond s [] = call_of (s [])
respond s (r ∷ rs) = elim (s []) [
  | returns d ↦ finish
  | sends bs ↦ respond (λ ds. s (outcome r ∷ ds)) rs
  | refuses d ↦ respond (λ ds. s (outcome r ∷ ds)) rs
]

-- The goroutine that the read loop starts for a SingleMulti route.
unfoldable pub single_multi_body : SingleMultiHandler → Talk
unfolding respond
single_multi_body h [] = recv none
single_multi_body h (received (ok req) ∷ rs) = respond (h req) rs
single_multi_body h (_ ∷ rs) = closing rs

-- The response, if there is no error, and the deferred `s.Close()`.
abbrev pub reporting : Result (List ℕ) → Talk
reporting (ok resp) [] = send none resp
reporting (ok resp) (r ∷ []) = close_write
reporting (ok resp) (r ∷ r' ∷ rs) = closing rs
reporting (fail e) rs = closing rs
reporting panics rs = closing rs

-- `h(reqsCh)` with the goroutine that feeds `reqsCh` from `s.Recv` until an error, which is run on demand:
-- that it may receive up to ten requests ahead of the handler, and go on behind its return, is left
-- out.
unfoldable pub collect : Collector → List (List ℕ) → Talk
collect c reqs [] = elim (c.on_requests reqs) [ none ↦ recv none | some r ↦ reporting r [] ]
collect c reqs (r ∷ rs) = elim (c.on_requests reqs) [
  | some x ↦ reporting x (r ∷ rs)
  | none ↦ elim r [
    | received (ok req) ↦ collect c (reqs ++ req ∷ []) rs
    | _ ↦ reporting (c.at_end reqs) rs
  ]
]

-- The goroutine that the read loop starts for a MultiSingle route.
unfoldable pub multi_single_body : Collector → Talk
unfolding collect
multi_single_body c = collect c []

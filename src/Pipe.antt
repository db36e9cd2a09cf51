-- ===== src/Pipe.antt =====
-- The pair of pipe ends that stands for one connection where there is no socket: `pipeClientConn` of
-- client.go and `pipeConn` of plugin_windows.go, which are the same code.
pub mod Refinement
use plugo.Prelude.{ℕ, Bool, List, false, ◌&&◌}
use plugo.Io.{Result, ok, fail, panics, Done, Rwc, never, read_full, write, close}

pub record PipeConn : Type 0 where
  pub r : Rwc
  pub w : Rwc

-- `io.ReadFull` on the pair: its `Read` is that of the read end.
unfoldable pub pipe_read_full : ℕ → PipeConn → Result (List ℕ) × PipeConn
pipe_read_full n p = let (a, r') = read_full n p.r in (a, record p { r = r' })

unfoldable pub pipe_write : List ℕ → PipeConn → Done × PipeConn
pipe_write bs p = let (a, w') = write bs p.w in (a, record p { w = w' })

-- `if err1 != nil { return err1 }; return err2`
abbrev pub first_error : Done → Done → Done
first_error (ok _) second = second
first_error (fail e) second = fail e
first_error panics second = panics

unfoldable pub pipe_close : PipeConn → Done × PipeConn
pipe_close p =
    let (e₁, r') = close p.r in
    let (e₂, w') = close p.w in (first_error e₁ e₂, record { r = r'; w = w' })

-- The pair as one connection. It has no `SetDeadline`: a context that is done closes it.
abbrev pub as_rwc : PipeConn → Rwc
as_rwc p = record {
  input = p.r.input;
  ended = p.r.ended;
  output = p.w.output;
  fault = p.w.fault;
  has_deadline = false;
  deadline = never;
  closed = p.r.closed && p.w.closed;
}

-- ===== src/Pipe/Refinement.antt =====
-- The pair behaves as the one connection that it stands for.
use plugo.Prelude.{ℕ, ◌≡◌, List, true, arith}
use plugo.Io.{never, read_full, write, close}
use plugo.Pipe.{PipeConn, pipe_read_full, pipe_write, pipe_close, as_rwc, first_error}

-- Both ends are closed or neither is, and nobody sets a deadline on an end.
pub record IsPaired (p : PipeConn) : Type 0 where
  pub together : p.r.closed ≡ p.w.closed
  pub no_read_deadline : p.r.deadline ≡ never
  pub no_write_deadline : p.w.deadline ≡ never

-- Reading, writing and closing the pair give what the one connection gives, and leave the pair in the
-- state that stands for the connection's.
pub pipe-as_rwc :
    (p : PipeConn) (n : ℕ) (bs : List ℕ)
    → IsPaired p
    → ((pipe_read_full n p).0 ≡ (read_full n (as_rwc p)).0)
      × (as_rwc (pipe_read_full n p).1 ≡ (read_full n (as_rwc p)).1)
      × ((pipe_write bs p).0 ≡ (write bs (as_rwc p)).0)
      × (as_rwc (pipe_write bs p).1 ≡ (write bs (as_rwc p)).1)
      × ((pipe_close p).0 ≡ (close (as_rwc p)).0)
      × (as_rwc (pipe_close p).1 ≡ (close (as_rwc p)).1)
unfolding pipe_read_full pipe_write pipe_close read_full write close
pipe-as_rwc p n bs h =
    (ground arith, ground arith, ground arith, ground arith, ground arith, ground arith)

-- Closing the pair closes both ends, also where the first close fails; the first error is reported.
pub pipe_close_both :
    (p : PipeConn)
    → ((pipe_close p).1.r.closed ≡ true)
      × ((pipe_close p).1.w.closed ≡ true)
      × ((pipe_close p).0 ≡ first_error (close p.r).0 (close p.w).0)
unfolding pipe_close close
pipe_close_both p = (ground arith, ground arith, ground arith)

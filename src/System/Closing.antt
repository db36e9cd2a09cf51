-- ===== src/System/Closing.antt =====
-- The deferred `Close` of a handler's goroutine: the close frame, the stream and the goroutine's end.
use plugo.Prelude.{
  subst, ap, ℕ, ◌<◌, ◌^◌, ◌≡◌, sym, ◌++◌, refl, arith, true, List, [], ◌∷◌, none, some, get_elem?,
  lookup, nat_eq, get_elem?-set_self, get_elem?-lt, lookup-delete_self,
}
use plugo.Io.{Failure, ok, wrapped, wrapping, write, Rwc}
use plugo.Context.{quiet, conn_with_context}
use plugo.Wire.{StreamFrame}
use plugo.Wire.RoundTrip.{IsSmall, frame_bytes, frame_buffer_small}
use plugo.Talk
use plugo.Talk.{Talk, Call, finish, done}
use plugo.Conn.{Stream, MessageConn, cancel_at, write_stream_frame, write_buffer}
use plugo.Reader.{channel}
use plugo.Stream.{close, two_seconds}
use plugo.Tasks.{task_turn, make_call, after_call}
use plugo.System.Writes.{IsHealthy}
use plugo.System.Endings.{close_frame}

-- The write of a frame under the context of `Close`, which does not end before it.
write-two_seconds :
    (w : Failure → Failure) (bs : List ℕ) (r : Rwc)
    → IsHealthy r
    → (conn_with_context (two_seconds quiet) (wrapping w (write bs)) r).1.output ≡ r.output ++ bs
unfolding conn_with_context write
write-two_seconds w bs r h = ground (arith, h.usable, h.writable)

pub cancel_at-found :
    (ref : ℕ) (os : List Stream) (s : Stream)
    → get_elem? os ref ≡ some s
    → get_elem? (cancel_at ref os) ref ≡ some (record s { cancelled = true })
cancel_at-found ref os s e =
    rw (cancel_at, e) (get_elem?-set_self os ref _ (get_elem?-lt os ref s e))

module _ {V : Type 0} where
  output-two_seconds :
      (f : StreamFrame) (m : MessageConn V)
      → IsSmall f
      → IsHealthy m.rwc
      → (write_stream_frame (two_seconds quiet) f m).1.rwc.output ≡ m.rwc.output ++ frame_bytes f
  unfolding write_stream_frame
  output-two_seconds f m s h =
      rw (frame_buffer_small f s.short, write_buffer)
        (write-two_seconds (wrapped "failed to write stream frame") (frame_bytes f) m.rwc h)

  -- Behind the goroutine's `Close`: the close frame is written, the stream is cancelled and out of the map,
  -- and the goroutine has returned.
  pub record ClosedBy (id ref i : ℕ) (bs : List ℕ) (m : MessageConn V) : Type 0 where
    pub output_is : m.rwc.output ≡ bs ++ frame_bytes (close_frame id)
    pub cancelled : (s : Stream) × (get_elem? m.objects ref ≡ some s) × (s.cancelled ≡ true)
    pub forgotten : lookup id m.streams ≡ none
    pub over : (talk : Talk) × (get_elem? m.tasks i ≡ some (ref, talk)) × (talk [] ≡ finish)

  -- The next call of a goroutine.
  pub task_turn-call :
      (ref i : ℕ) (talk : Talk) (call : Call) (m : MessageConn V)
      → get_elem? m.tasks i ≡ some (ref, talk)
      → talk [] ≡ call
      → task_turn channel quiet i m ≡ make_call call channel quiet i ref talk m
  unfolding task_turn
  task_turn-call ref i talk call m e k =
      rw (task_turn, e) (ap (λ x. make_call x channel quiet i ref talk m) k)

  close-ClosedBy :
      (id ref i : ℕ) (talk : Talk) (s : Stream) (m : MessageConn V)
      → id < 2 ^ 32
      → IsHealthy m.rwc
      → get_elem? m.objects ref ≡ some s
      → s.id ≡ id
      → get_elem? m.tasks i ≡ some (ref, talk)
      → talk (done (ok tt) ∷ []) ≡ finish
      → ClosedBy id ref i m.rwc.output (after_call i ref talk (close quiet ref m))
  unfolding close write_stream_frame
  close-ClosedBy id ref i talk s m fits h found named e k =
      let sent =
        output-two_seconds (close_frame id) (record m { objects = cancel_at ref m.objects })
          (record { short = omega arith; id_fits = fits; flags_fit = omega arith }) h in
      rw (close, found)
        (rw named (record {
          output_is = sent;
          cancelled = (record s { cancelled = true }, cancel_at-found ref m.objects s found, refl);
          forgotten = lookup-delete_self id m.streams;
          over = (_, get_elem?-set_self m.tasks i _ (get_elem?-lt m.tasks i _ e), k);
        }))

  -- A goroutine whose next call is `Close`, on a working connection, and which returns behind it.
  pub turn-closes :
      (id ref i : ℕ) (talk : Talk) (s : Stream) (m : MessageConn V)
      → id < 2 ^ 32
      → IsHealthy m.rwc
      → get_elem? m.objects ref ≡ some s
      → s.id ≡ id
      → get_elem? m.tasks i ≡ some (ref, talk)
      → talk [] ≡ Talk.close
      → talk (done (ok tt) ∷ []) ≡ finish
      → ClosedBy id ref i m.rwc.output (task_turn channel quiet i m)
  turn-closes id ref i talk s m fits h found named e k₁ k₂ =
      subst (ClosedBy id ref i m.rwc.output) (sym (task_turn-call ref i talk Talk.close m e k₁))
        (close-ClosedBy id ref i talk s m fits h found named e k₂)

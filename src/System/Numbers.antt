-- ===== src/System/Numbers.antt =====
-- What each act does to the id of the next stream: all but `startStream` keep it.
use plugo.Prelude.{
  ℕ, ◌%◌, ◌≡◌, ◌∙◌, refl, arith, List, [], Option, Option-cases, Bool-cases, inl, inr, lookup, ◌==◌,
  nat_eq, get_elem?,
}
use plugo.Io.{ok, fail, panics}
use plugo.Conn.{
  MessageConn, Stream, Loop, reading, push_raw, push_accept, push_frame, stopped, reserve_id,
  start_read_loop, write_stream_frame, remove_stream,
}
use plugo.Reader.{
  Pick, loop_turn, turned, Turn, dispatch, receive, deliver, receive_unknown, open_stream, assign,
  push_to, read_data, read_raw, accept_select, accept_stream, handle_read_loop_error, read_frame,
  Attempt,
}
use plugo.Stream.{send, recv_poll, recv_select, close_write, close}
use plugo.Talk
use plugo.Talk.{Talk, Call, finish, own_step}
use plugo.Routing
use plugo.Tasks.{after_call, after_receive, ctx_of, make_call, task_turn}
use plugo.Wire.{StreamFrame}
use plugo.Io.{Result, Done}
use plugo.System.{after_turn, after}
use plugo.Context.{Ctx, Moment}

module _ {V : Type 0} where
  abbrev pub next_after : ℕ → Turn (MessageConn V) → ℕ
  next_after n (turned m) = m.next_stream_id
  next_after n _ = n

  abbrev pub KeepsNext : MessageConn V → Turn (MessageConn V) → Type 0
  KeepsNext m t = next_after m.next_stream_id t ≡ m.next_stream_id

  pub next-after_turn :
      (t : Turn (MessageConn V)) (m : MessageConn V)
      → (after_turn t m).next_stream_id ≡ next_after m.next_stream_id t
  next-after_turn t m = ground arith

  assign-KeepsNext :
      (t : Option Talk) (ref : ℕ) (m : MessageConn V)
      → (assign t ref m).next_stream_id ≡ m.next_stream_id
  unfolding assign
  assign-KeepsNext t ref m = ground arith

  receive_unknown-KeepsNext :
      (f : StreamFrame) (m : MessageConn V)
      → (receive_unknown f m).next_stream_id ≡ m.next_stream_id
  unfolding receive_unknown open_stream write_stream_frame
  receive_unknown-KeepsNext f m = grind (arith, assign-KeepsNext)

  deliver-KeepsNext :
      (ref : ℕ) (f : StreamFrame) (m : MessageConn V) → KeepsNext m (deliver ref f m)
  unfolding deliver
  deliver-KeepsNext ref f m = ground arith

  receive-KeepsNext : (f : StreamFrame) (m : MessageConn V) → KeepsNext m (receive f m)
  unfolding receive
  receive-KeepsNext f m = elim (Bool-cases (f.stream_id == 0)) [
    | inl zeroth ↦ rw zeroth refl
    | inr other ↦ elim (Option-cases (lookup f.stream_id m.streams)) [
      | inl new ↦ rw (other, new) (receive_unknown-KeepsNext f m)
      | inr (ref, known) ↦ rw (other, known) (deliver-KeepsNext ref f m)
    ]
  ]

  dispatch-KeepsNext : (r : Result StreamFrame) (m : MessageConn V) → KeepsNext m (dispatch r m)
  unfolding dispatch handle_read_loop_error
  dispatch-KeepsNext (ok f) m = receive-KeepsNext f m
  dispatch-KeepsNext (fail e) m = ground arith
  dispatch-KeepsNext panics m = refl

  push_to-KeepsNext :
      (pick : Pick) (ref : ℕ) (f : StreamFrame) (s : Option Stream) (m : MessageConn V)
      → KeepsNext m (push_to pick ref f s m)
  unfolding push_to
  push_to-KeepsNext pick ref f s m = ground arith

  pub loop_turn-KeepsNext_at :
      (l : Loop) (pick : Pick) (m : MessageConn V) → m.loop ≡ l → KeepsNext m (loop_turn pick m)
  unfolding loop_turn
  loop_turn-KeepsNext_at reading pick m e =
      rw (e, loop_turn)
        (dispatch-KeepsNext (read_frame m.rwc).0 (record m { rwc = (read_frame m.rwc).1 }))
  loop_turn-KeepsNext_at (push_raw bs) pick m e = rw e (ground arith)
  loop_turn-KeepsNext_at (push_accept ref) pick m e = rw e (ground arith)
  loop_turn-KeepsNext_at (push_frame ref f) pick m e =
      rw (e, loop_turn) (push_to-KeepsNext pick ref f _ m)
  loop_turn-KeepsNext_at stopped pick m e = rw e refl

  pub next-reserve_id :
      (m : MessageConn V) → (reserve_id m).1.next_stream_id % 2 ≡ m.next_stream_id % 2
  unfolding reserve_id
  next-reserve_id m = ground arith

  pub next-read_data :
      (pick : Pick) (ctx : Ctx) (m : MessageConn V)
      → (after (read_data pick ctx m) m).next_stream_id ≡ m.next_stream_id
  unfolding read_data read_raw
  next-read_data pick ctx m = ground arith

  pub next-accept_stream :
      (pick : Pick) (ctx : Ctx) (m : MessageConn V)
      → (after (accept_stream pick ctx m) (start_read_loop m)).next_stream_id ≡ m.next_stream_id
  unfolding accept_stream accept_select start_read_loop
  next-accept_stream pick ctx m = ground arith

  pub next-send :
      (pick : Pick) (ctx : Ctx) (ref : ℕ) (bs : List ℕ) (m : MessageConn V)
      → (send pick ctx ref bs m).1.next_stream_id ≡ m.next_stream_id
  unfolding send write_stream_frame
  next-send pick ctx ref bs m = ground arith

  pub next-recv_poll :
      (ref : ℕ) (m : MessageConn V) → (after (recv_poll ref m) m).next_stream_id ≡ m.next_stream_id
  unfolding recv_poll
  next-recv_poll ref m = ground arith

  pub next-recv_select :
      (pick : Pick) (ctx : Ctx) (ref : ℕ) (m : MessageConn V)
      → (after (recv_select pick ctx ref m) m).next_stream_id ≡ m.next_stream_id
  unfolding recv_select
  next-recv_select pick ctx ref m = ground arith

  pub next-close_write :
      (t : Moment) (ref : ℕ) (m : MessageConn V)
      → (close_write t ref m).1.next_stream_id ≡ m.next_stream_id
  unfolding close_write write_stream_frame
  next-close_write t ref m = ground arith

  pub next-close :
      (t : Moment) (ref : ℕ) (m : MessageConn V)
      → (close t ref m).1.next_stream_id ≡ m.next_stream_id
  unfolding close write_stream_frame remove_stream
  next-close t ref m = ground arith

  next-recv :
      (pick : Pick) (ctx : Ctx) (ref : ℕ) (m : MessageConn V)
      → (after (Routing.recv pick ctx ref m) m).next_stream_id ≡ m.next_stream_id
  unfolding Routing.recv recv_poll recv_select
  next-recv pick ctx ref m = ground arith

  next-after_call :
      (i ref : ℕ) (talk : Talk) (d : Done) (m : MessageConn V)
      → (after_call i ref talk (d, m)).next_stream_id ≡ m.next_stream_id
  next-after_call i ref talk d m = ground arith

  next-after_receive :
      (i ref : ℕ) (talk : Talk) (m : MessageConn V) (a : Attempt (List ℕ) (MessageConn V))
      → (after_receive i ref talk m a).next_stream_id ≡ (after a m).next_stream_id
  next-after_receive i ref talk m a = ground arith

  next-make_call :
      (c : Call) (pick : Pick) (t : Moment) (i ref : ℕ) (talk : Talk) (m : MessageConn V)
      → (make_call c pick t i ref talk m).next_stream_id ≡ m.next_stream_id
  next-make_call finish pick t i ref talk m = refl
  next-make_call (own_step d) pick t i ref talk m = next-after_call i ref talk d m
  next-make_call (Talk.send c bs) pick t i ref talk m =
      next-after_call i ref talk _ _ ∙ next-send pick (ctx_of c t ref m) ref bs m
  next-make_call (Talk.recv c) pick t i ref talk m =
      next-after_receive i ref talk m (Routing.recv pick (ctx_of c t ref m) ref m)
      ∙ next-recv pick (ctx_of c t ref m) ref m
  next-make_call Talk.close_write pick t i ref talk m =
      next-after_call i ref talk _ _ ∙ next-close_write t ref m
  next-make_call Talk.close pick t i ref talk m =
      next-after_call i ref talk _ _ ∙ next-close t ref m

  pub next-task_turn :
      (pick : Pick) (t : Moment) (i : ℕ) (m : MessageConn V)
      → (task_turn pick t i m).next_stream_id ≡ m.next_stream_id
  unfolding task_turn
  next-task_turn pick t i m = elim (Option-cases (get_elem? m.tasks i)) [
    | inl e ↦ rw (task_turn, e) refl
    | inr ((ref, talk), e) ↦ rw (task_turn, e) (next-make_call (talk []) pick t i ref talk m)
  ]

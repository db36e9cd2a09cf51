-- ===== src/System/Progress.antt =====
-- Each act of the read loop that goes through brings it nearer to its end: it takes bytes off the link, or
-- hands over what it holds.
use plugo.Prelude.{
  ℕ, suc, ◌+◌, ◌≤◌, ◌<◌, ◌≡◌, inl, inr, refl, ap, subst, arith, Option, none, some, length, set,
  lookup, get_elem?, nat_eq, bytes_eq, ◌==◌, ltb, Bool-cases, Option-cases,
}
use plugo.Io.{Failure, Rwc, Result, ok, fail, panics}
use plugo.Wire.{
  StreamFrame, has_flag, stream_flag_start, stream_flag_close, stream_flag_error, frame_buffer,
}
use plugo.Chan
use plugo.Chan.{Chan, sent, blocks, crashes}
use plugo.Talk.{Talk}
use plugo.Conn.{
  Stream, Loop, reading, push_raw, push_accept, push_frame, stopped, MessageConn,
  write_stream_frame,
}
use plugo.Reader.{
  Pick, channel, stream_done, ctx_done, Turn, turned, parked, panicked, read_frame, dispatch,
  receive, receive_unknown, open_stream, assign, routed, mode_of, route_of, not_found_frame,
  deliver, close_at, close_all, handle_read_loop_error, push_to, settle, loop_turn,
}
use plugo.System.Takes.{Takes, read_frame-Takes, write_buffer-input}

-- How many acts the loop has left at most where it stands, with this many bytes to come.
abbrev acts_left : Loop → ℕ → ℕ
acts_left stopped n = 0
acts_left reading n = n + 1
acts_left (push_raw bs) n = n + 2
acts_left (push_accept ref) n = n + 2
acts_left (push_frame ref f) n = n + 2

pub acts_left-le : (x : Loop) (n : ℕ) → acts_left x n ≤ n + 2
acts_left-le stopped n = omega arith
acts_left-le reading n = omega arith
acts_left-le (push_raw bs) n = omega arith
acts_left-le (push_accept ref) n = omega arith
acts_left-le (push_frame ref f) n = omega arith

module _ {V : Type 0} where
  abbrev pub left : MessageConn V → ℕ
  left m = acts_left m.loop (length m.rwc.input)

  -- What a turn leaves has less before it.
  abbrev pub Less : ℕ → Turn (MessageConn V) → Type 0
  Less n (turned m) = left m < n
  Less n parked = Unit
  Less n panicked = Unit

  -- What a frame makes of the connection takes no bytes.
  abbrev SameInput : ℕ → Turn (MessageConn V) → Type 0
  SameInput n (turned m) = length m.rwc.input ≡ n
  SameInput n parked = Unit
  SameInput n panicked = Unit

  SameInput-Less : (n k : ℕ) (t : Turn (MessageConn V)) → SameInput n t → n + 2 < k → Less k t
  SameInput-Less n k (turned m) h i = omega (arith, h, i, acts_left-le m.loop (length m.rwc.input))
  SameInput-Less n k parked h i = tt
  SameInput-Less n k panicked h i = tt

  deliver-SameInput :
      (ref : ℕ) (f : StreamFrame) (m : MessageConn V)
      → SameInput (length m.rwc.input) (deliver ref f m)
  unfolding deliver
  deliver-SameInput ref f m = elim (Bool-cases (has_flag f.flags stream_flag_close)) [
    | inl h ↦ elim (Option-cases (close_at ref m.objects)) [
      | inl k ↦ rw (h, deliver) (rw k tt)
      | inr (os, k) ↦ rw (h, deliver) (rw k refl)
    ]
    | inr h ↦ elim (Bool-cases (has_flag f.flags stream_flag_error)) [
      | inl k ↦ rw (h, deliver) (rw k refl)
      | inr k ↦ rw (h, deliver) (rw k refl)
    ]
  ]

  assign-input :
      (o : Option Talk) (ref : ℕ) (m : MessageConn V) → (assign o ref m).rwc.input ≡ m.rwc.input
  unfolding assign
  assign-input none ref m = refl
  assign-input (some t) ref m = refl

  receive_unknown-input :
      (f : StreamFrame) (m : MessageConn V) → (receive_unknown f m).rwc.input ≡ m.rwc.input
  unfolding receive_unknown open_stream write_stream_frame
  receive_unknown-input f m = elim (Bool-cases (has_flag f.flags stream_flag_start)) [
    | inl h ↦
        rw h (assign-input (routed (mode_of f.payload) (route_of f.payload) m) (length m.objects) _)
    | inr h ↦ rw h (write_buffer-input _ (frame_buffer (not_found_frame f.stream_id)) m.rwc)
  ]

  receive-SameInput :
      (f : StreamFrame) (m : MessageConn V) → SameInput (length m.rwc.input) (receive f m)
  unfolding receive
  receive-SameInput f m = elim (Bool-cases (f.stream_id == 0)) [
    | inl h ↦ rw (h, receive) refl
    | inr h ↦ elim (Option-cases (lookup f.stream_id m.streams)) [
      | inl k ↦ rw (h, receive) (rw k (ap length (receive_unknown-input f m)))
      | inr (ref, k) ↦ rw (h, receive) (rw k (deliver-SameInput ref f m))
    ]
  ]

  handle_read_loop_error-Less :
      (e : Failure) (n : ℕ) (m : MessageConn V) → Less (suc n) (handle_read_loop_error e m)
  unfolding handle_read_loop_error
  handle_read_loop_error-Less e n m = elim (Option-cases (close_all m.streams m.objects)) [
    | inl h ↦ rw (h, handle_read_loop_error) tt
    | inr (os, h) ↦ elim (Bool-cases m.accept_ch.closed) [
      | inl x ↦ rw (h, handle_read_loop_error, x) tt
      | inr x ↦ elim (Bool-cases m.raw_msg_ch.closed) [
        | inl y ↦ rw (h, handle_read_loop_error, x, y) tt
        | inr y ↦ rw (h, handle_read_loop_error, x, y) (omega arith)
      ]
    ]
  ]

  dispatch-Less :
      (x : Result StreamFrame × Rwc) (m : MessageConn V)
      → Takes 12 x m.rwc
      → Less (length m.rwc.input + 1) (dispatch x.0 (record m { rwc = x.1 }))
  unfolding dispatch
  dispatch-Less (ok f, r) m h =
      SameInput-Less (length r.input) (length m.rwc.input + 1) (receive f (record m { rwc = r }))
        (receive-SameInput f (record m { rwc = r })) (omega (arith, h))
  dispatch-Less (fail e, r) m h =
      subst (λ n. Less n (handle_read_loop_error e (record m { rwc = r }))) (omega arith)
        (handle_read_loop_error-Less e (length m.rwc.input) (record m { rwc = r }))
  dispatch-Less (panics, r) m h = tt

  sent-Less :
      {A : Type 0} (a : A) (c : Chan A) (n : ℕ) (k : Chan A → MessageConn V)
      → ((c' : Chan A) → left (k c') < n)
      → Less n
          (elim (Chan.send a c) [ sent c' ↦ turned (k c') | blocks ↦ parked | crashes ↦ panicked ])
  sent-Less a c n k h = elim (Bool-cases c.closed) [
    | inl x ↦ rw x tt
    | inr x ↦ elim (Bool-cases (ltb (length c.items) c.capacity)) [
      | inl y ↦ rw (x, y) (h _)
      | inr y ↦ rw (x, y) tt
    ]
  ]

  settle-left : (f : StreamFrame) (m : MessageConn V) → left (settle f m) ≡ length m.rwc.input + 1
  settle-left f m = elim (Bool-cases (has_flag f.flags stream_flag_error)) [
    | inl h ↦ rw h refl
    | inr h ↦ rw h refl
  ]

  push_to-Less :
      (pick : Pick) (ref : ℕ) (f : StreamFrame) (o : Option Stream) (m : MessageConn V)
      → Less (length m.rwc.input + 2) (push_to pick ref f o m)
  unfolding push_to
  push_to-Less channel ref f none m = tt
  push_to-Less stream_done ref f none m = tt
  push_to-Less ctx_done ref f none m = tt
  push_to-Less stream_done ref f (some s) m = elim (Bool-cases s.cancelled) [
    | inl h ↦ rw h (omega (arith, settle-left f m))
    | inr h ↦ rw h tt
  ]
  push_to-Less channel ref f (some s) m = sent-Less f s.recv_ch _ _ (λ c.
      omega (
        arith,
        settle-left f (record m { objects = set m.objects ref (record s { recv_ch = c }) }),
      ))
  push_to-Less ctx_done ref f (some s) m = sent-Less f s.recv_ch _ _ (λ c.
      omega (
        arith,
        settle-left f (record m { objects = set m.objects ref (record s { recv_ch = c }) }),
      ))

  loop_turn-at :
      (pick : Pick) (x : Loop) (m : MessageConn V)
      → m.loop ≡ x
      → Less (acts_left x (length m.rwc.input)) (loop_turn pick m)
  unfolding loop_turn
  loop_turn-at pick reading m e =
      rw (e, loop_turn) (dispatch-Less (read_frame m.rwc) m (read_frame-Takes m.rwc))
  loop_turn-at pick (push_raw bs) m e =
      rw (e, loop_turn) (sent-Less bs m.raw_msg_ch _ _ (λ c. omega arith))
  loop_turn-at pick (push_accept ref) m e =
      rw (e, loop_turn) (sent-Less ref m.accept_ch _ _ (λ c. omega arith))
  loop_turn-at pick (push_frame ref f) m e =
      rw (e, loop_turn) (push_to-Less pick ref f (get_elem? m.objects ref) m)
  loop_turn-at pick stopped m e = rw (e, loop_turn) tt

  pub loop_turn-Less : (pick : Pick) (m : MessageConn V) → Less (left m) (loop_turn pick m)
  loop_turn-Less pick m = loop_turn-at pick m.loop m refl

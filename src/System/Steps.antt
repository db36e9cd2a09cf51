-- ===== src/System/Steps.antt =====
-- Each act keeps the invariant.
use plugo.Prelude.{
  ℕ, ◌++◌, ◌==◌, ◌≡◌, ◌≢◌, refl, false, List, [], ◌∷◌, Option, none, some, arith, length, get_elem?,
  lookup, insert, nat_eq, Option-cases, inl, inr, Bool-cases, get_elem?-append_length,
}
use plugo.Wire.{StreamFrame, has_flag, stream_flag_close, stream_flag_error, stream_flag_start}
use plugo.Chan
use plugo.Talk.{Talk}
use plugo.Io.{Failure, Rwc, Result, ok, fail, panics, read_full}
use plugo.Conn.{
  Stream, Loop, reading, push_raw, push_accept, push_frame, stopped, MessageConn, fresh_stream,
  write_stream_frame, remove_stream, register_stream,
}
use plugo.Reader.{
  Pick, stream_done, Turn, turned, parked, panicked, dispatch, routed, mode_of, route_of, assign,
  receive, deliver, open_stream, receive_unknown, handle_read_loop_error, push_to, loop_turn,
  read_frame, settle,
}
use plugo.Context.{Ctx}
use plugo.System.Sound.{
  IsOpen, Keeps-refl, IsSound, OpenAt, Entries, Keeps, Entries-Keeps, LoopHolds-Keeps,
  Entries-lookup, Entries-insert, Entries-delete, Keeps-append, Keeps-set, Keeps-cancel_at,
  close_at-OpenAt, close_all-Entries, Entries-delete-KeepsBut,
}

-- A turn that does not panic, into a sound state.
abbrev pub IsSafe : {V : Type 0} → Turn (MessageConn V) → Type 0
IsSafe (turned m) = IsSound m
IsSafe parked = Unit
IsSafe panicked = ⊥

module _ {V : Type 0} (m : MessageConn V) (v : IsSound m) where
  -- The connection below, and all that the invariant does not speak of, may change.
  pub rwc-IsSound : (r : Rwc) → IsSound (record m { rwc = r })
  rwc-IsSound r = record { entries = v.entries; held = v.held; queues = v.queues }

  pub objects-IsSound :
      (os : List Stream) → Keeps m.objects os → IsSound (record m { objects = os })
  objects-IsSound os k = record {
    entries = Entries-Keeps m.streams m.objects os k v.entries;
    held = LoopHolds-Keeps m.loop m.objects os k v.held;
    queues = v.queues;
  }

  pub remove_stream-IsSound : (id : ℕ) → IsSound (remove_stream id m)
  unfolding remove_stream
  remove_stream-IsSound id = record {
    entries = Entries-delete m.streams m.objects id v.entries;
    held = v.held;
    queues = v.queues;
  }

  fresh_open : (id : ℕ) → OpenAt id (length m.objects) (m.objects ++ fresh_stream id ∷ [])
  fresh_open id = rw (get_elem?-append_length m.objects (fresh_stream id) []) (refl, refl)

  entries_fresh :
      (id : ℕ)
      → Entries (insert id (length m.objects) m.streams) (m.objects ++ fresh_stream id ∷ [])
  entries_fresh id =
      Entries-insert m.streams _ id (length m.objects)
        (Entries-Keeps m.streams m.objects _ (Keeps-append m.objects (fresh_stream id)) v.entries)
        (fresh_open id)

  pub register_stream-IsSound : (id : ℕ) → IsSound (register_stream id m).1
  unfolding register_stream
  register_stream-IsSound id = record {
    entries = entries_fresh id;
    held = LoopHolds-Keeps m.loop m.objects _ (Keeps-append m.objects (fresh_stream id)) v.held;
    queues = v.queues;
  }

assign-IsSound :
    {V : Type 0} (t : Option Talk) (ref : ℕ) (m : MessageConn V)
    → m.loop ≡ reading
    → IsSound m
    → IsSound (assign t ref m)
unfolding assign
assign-IsSound (some t) ref m e v = record { entries = v.entries; held = v.held; queues = v.queues }
assign-IsSound none ref m e v = record { entries = v.entries; held = tt; queues = rw e at v.queues }

module _ {V : Type 0} (m : MessageConn V) (v : IsSound m) (at_head : m.loop ≡ reading) where
  queues_open : (m.accept_ch.closed ≡ false) × (m.raw_msg_ch.closed ≡ false)
  queues_open = rw at_head at v.queues

  open_stream-IsSound : (f : StreamFrame) → IsSound (open_stream f m)
  unfolding open_stream
  open_stream-IsSound f =
      assign-IsSound (routed (mode_of f.payload) (route_of f.payload) m) (length m.objects) _
        at_head
        (record {
          entries = entries_fresh m v f.stream_id;
          held = rw at_head tt;
          queues = v.queues;
        })

  deliver-IsSafe :
      (ref : ℕ) (f : StreamFrame) → OpenAt f.stream_id ref m.objects → IsSafe (deliver ref f m)
  unfolding deliver
  deliver-IsSafe ref f h = elim (Bool-cases (has_flag f.flags stream_flag_close)) [
    | inl shut ↦
        let (os, c, k) = close_at-OpenAt f.stream_id ref m.objects h in
        rw (shut, c)
          (record {
            entries = Entries-delete-KeepsBut m.streams f.stream_id m.objects os k v.entries;
            held = rw at_head tt;
            queues = v.queues;
          })
    | inr open_still ↦ rw open_still (elim (Bool-cases (has_flag f.flags stream_flag_error)) [
      | inl bad ↦ rw bad (record {
        entries = Entries-Keeps m.streams m.objects _ (Keeps-cancel_at ref m.objects) v.entries;
        held = Keeps-cancel_at ref m.objects f.stream_id ref h;
        queues = queues_open;
      })
      | inr plain ↦ rw plain (record { entries = v.entries; held = h; queues = queues_open })
    ])
  ]

  handle_read_loop_error-IsSafe : (e : Failure) → IsSafe (handle_read_loop_error e m)
  unfolding handle_read_loop_error
  handle_read_loop_error-IsSafe e =
      let (os, c) = close_all-Entries m.streams m.objects v.entries in
      rw (c, handle_read_loop_error, queues_open.0, queues_open.1)
        (record { entries = tt; held = tt; queues = tt })

  write_stream_frame-IsSound :
      (ctx : Ctx) (f : StreamFrame) → IsSound (write_stream_frame ctx f m).1
  unfolding write_stream_frame
  write_stream_frame-IsSound ctx f = rwc-IsSound m v _

  receive_unknown-IsSound : (f : StreamFrame) → IsSound (receive_unknown f m)
  unfolding receive_unknown
  receive_unknown-IsSound f = elim (Bool-cases (has_flag f.flags stream_flag_start)) [
    | inl start ↦ rw (start, receive_unknown) (open_stream-IsSound f)
    | inr other ↦ rw (other, receive_unknown) (rwc-IsSound m v _)
  ]

  pub receive-IsSafe : (f : StreamFrame) → IsSafe (receive f m)
  unfolding receive
  receive-IsSafe f = elim (Bool-cases (f.stream_id == 0)) [
    | inl raw ↦ rw (raw, receive) (record { entries = v.entries; held = tt; queues = queues_open })
    | inr other ↦ elim (Option-cases (lookup f.stream_id m.streams)) [
      | inl e ↦ rw (other, e, receive) (receive_unknown-IsSound f)
      | inr (ref, e) ↦
          rw (other, e, receive)
            (deliver-IsSafe ref f (Entries-lookup m.streams m.objects f.stream_id ref v.entries e))
    ]
  ]

  dispatch-IsSafe : (r : Result StreamFrame) → r ≢ panics → IsSafe (dispatch r m)
  unfolding dispatch
  dispatch-IsSafe (ok f) h = receive-IsSafe f
  dispatch-IsSafe (fail e) h = handle_read_loop_error-IsSafe e
  dispatch-IsSafe panics h = h refl

read_frame-ne-panics : (r : Rwc) → (read_frame r).0 ≢ panics
unfolding read_frame read_full
read_frame-ne-panics r = ground arith

module _ {V : Type 0} (m : MessageConn V) (v : IsSound m) where
  settle-IsSound :
      (f : StreamFrame) (os : List Stream)
      → Keeps m.objects os
      → (m.accept_ch.closed ≡ false) × (m.raw_msg_ch.closed ≡ false)
      → IsSound (settle f (record m { objects = os }))
  settle-IsSound f os k q = elim (Bool-cases (has_flag f.flags stream_flag_error)) [
    | inl bad ↦
        rw (bad, settle)
          (record {
            entries =
                Entries-delete m.streams os f.stream_id
                  (Entries-Keeps m.streams m.objects os k v.entries);
            held = tt;
            queues = q;
          })
    | inr plain ↦
        rw (plain, settle)
          (record {
            entries = Entries-Keeps m.streams m.objects os k v.entries;
            held = tt;
            queues = q;
          })
  ]

  push_to-IsSafe :
      (pick : Pick) (ref : ℕ) (f : StreamFrame) (o : Option Stream)
      → get_elem? m.objects ref ≡ o
      → IsOpen f.stream_id o
      → (m.accept_ch.closed ≡ false) × (m.raw_msg_ch.closed ≡ false)
      → IsSafe (push_to pick ref f o m)
  unfolding push_to
  push_to-IsSafe pick ref f none e h q = h
  push_to-IsSafe stream_done ref f (some s) e h q = elim (Bool-cases s.cancelled) [
    | inl done ↦ rw done (settle-IsSound f m.objects (Keeps-refl m.objects) q)
    | inr alive ↦ rw alive tt
  ]
  push_to-IsSafe _ ref f (some s) e h q = elim (Chan.send_open f s.recv_ch h.1) [
    | inl done ↦ rw (done, push_to) (settle-IsSound f _ (Keeps-set m.objects ref s _ e refl refl) q)
    | inr full ↦ rw (full, push_to) tt
  ]

  -- What the loop turns into from each of its places.
  loop_turn-IsSafe_at : (pick : Pick) (l : Loop) → m.loop ≡ l → IsSafe (loop_turn pick m)
  unfolding loop_turn
  loop_turn-IsSafe_at pick reading e =
      rw (e, loop_turn)
        (dispatch-IsSafe (record m { rwc = (read_frame m.rwc).1 }) (rwc-IsSound m v _) e
          (read_frame m.rwc).0 (read_frame-ne-panics m.rwc))
  loop_turn-IsSafe_at pick (push_raw bs) e =
      let q : (m.accept_ch.closed ≡ false) × (m.raw_msg_ch.closed ≡ false) = rw e at v.queues in
      elim (Chan.send_open bs m.raw_msg_ch q.1) [
        | inl done ↦
            rw (e, loop_turn)
              (rw (done, loop_turn) (record { entries = v.entries; held = tt; queues = q }))
        | inr full ↦ rw (e, loop_turn) (rw (full, loop_turn) tt)
      ]
  loop_turn-IsSafe_at pick (push_accept ref) e =
      let q : (m.accept_ch.closed ≡ false) × (m.raw_msg_ch.closed ≡ false) = rw e at v.queues in
      elim (Chan.send_open ref m.accept_ch q.0) [
        | inl done ↦
            rw (e, loop_turn)
              (rw (done, loop_turn) (record { entries = v.entries; held = tt; queues = q }))
        | inr full ↦ rw (e, loop_turn) (rw (full, loop_turn) tt)
      ]
  loop_turn-IsSafe_at pick (push_frame ref f) e =
      rw (e, loop_turn)
        (push_to-IsSafe pick ref f (get_elem? m.objects ref) refl (rw e at v.held)
          (rw e at v.queues))
  loop_turn-IsSafe_at pick stopped e = rw (e, loop_turn) tt

  pub loop_turn-IsSafe : (pick : Pick) → IsSafe (loop_turn pick m)
  loop_turn-IsSafe pick = loop_turn-IsSafe_at pick m.loop refl

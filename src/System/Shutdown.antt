-- ===== src/System/Shutdown.antt =====
-- The end of the read loop: what its callers find.
use plugo.Prelude.{
  none_ne_some, some_eq, Bool, ℕ, ◌≡◌, refl, subst, arith, true, false, List, [], ◌∷◌, Option, none,
  some, get_elem?, set, lookup, nat_eq, nat_beq_iff, ◌==◌, Option-cases, Bool-cases, inl, inr,
  get_elem?-set_self, get_elem?-set_ne, get_elem?-lt,
}
use plugo.Io.{Failure, Rwc, fail}
use plugo.Codec.{Codec}
use plugo.Conn.{Stream, MessageConn, new_message_conn, reading, stopped}
use plugo.Reader.{
  Pick, turned, close_at, close_all, handle_read_loop_error, dispatch, read_frame, loop_turn,
}
use plugo.System.{Act, turn, after_turn, perform, run}
use plugo.System.Steps.{rwc-IsSound}
use plugo.System.Sound.{IsSound, close_all-Entries}
use plugo.System.Safety.{run-IsSound, new_message_conn-IsSound}

-- A stream that is cancelled and whose queue is closed.
abbrev pub IsShut : Option Stream → Type 0
IsShut none = ⊥
IsShut (some s) = (s.recv_ch.closed ≡ true) × (s.cancelled ≡ true)

abbrev shut : Stream → Stream
shut s = record s { recv_ch = record (s.recv_ch) { closed = true }; cancelled = true }

close_at-set :
    (ref : ℕ) (os os' : List Stream)
    → close_at ref os ≡ some os'
    → (s : Stream) × (get_elem? os ref ≡ some s) × (os' ≡ set os ref (shut s))
close_at-set ref os os' h = elim (Option-cases (get_elem? os ref)) [
  | inl e ↦ ground arith
  | inr (s, e) ↦ elim (Bool-cases s.recv_ch.closed) [
    | inl old ↦ ground arith
    | inr alive ↦ (s, e, ground arith)
  ]
]

close_at-IsShut :
    (ref : ℕ) (os os' : List Stream) → close_at ref os ≡ some os' → IsShut (get_elem? os' ref)
close_at-IsShut ref os os' h =
    let (s, e, q) = close_at-set ref os os' h in
    rw (q, get_elem?-set_self os ref (shut s) (get_elem?-lt os ref s e)) (refl, refl)

-- What is shut stays shut.
close_at-keeps :
    (ref other : ℕ) (os os' : List Stream)
    → close_at ref os ≡ some os'
    → IsShut (get_elem? os other)
    → IsShut (get_elem? os' other)
close_at-keeps ref other os os' h v = elim (Bool-cases (ref == other)) [
  | inl hit ↦
      subst (λ (n : ℕ). IsShut (get_elem? os' n)) ((nat_beq_iff ref other).0 hit)
        (close_at-IsShut ref os os' h)
  | inr miss ↦
      let (s, e, q) = close_at-set ref os os' h in
      rw (q, get_elem?-set_ne os ref other (shut s) (ground (arith, nat_beq_iff ref other))) v
]

close_all-keeps :
    (m : List (ℕ × ℕ)) (ref : ℕ) (os os' : List Stream)
    → close_all m os ≡ some os'
    → IsShut (get_elem? os ref)
    → IsShut (get_elem? os' ref)
close_all-keeps [] ref os os' h v = subst (λ x. IsShut (get_elem? x ref)) (some_eq h) v
close_all-keeps ((id, r) ∷ m) ref os os' h v = elim (Option-cases (close_at r os)) [
  | inl e ↦ absurd (none_ne_some (rw (e, close_all) at h))
  | inr (os₁, e) ↦
      close_all-keeps m ref os₁ os' (rw (e, close_all) at h) (close_at-keeps r ref os os₁ e v)
]

close_all-IsShut :
    (m : List (ℕ × ℕ)) (id ref : ℕ) (os os' : List Stream)
    → close_all m os ≡ some os'
    → lookup id m ≡ some ref
    → IsShut (get_elem? os' ref)
close_all-IsShut [] id ref os os' h k = absurd (none_ne_some k)
close_all-IsShut ((j, r) ∷ m) id ref os os' h k = elim (Option-cases (close_at r os)) [
  | inl e ↦ absurd (none_ne_some (rw (e, close_all) at h))
  | inr (os₁, e) ↦
      let rest : close_all m os₁ ≡ some os' = rw (e, close_all) at h in
      elim (Bool-cases (j == id)) [
        | inl hit ↦
            subst (λ (n : ℕ). IsShut (get_elem? os' n)) (some_eq (rw hit at k))
              (close_all-keeps m r os₁ os' rest (close_at-IsShut r os os₁ e))
        | inr miss ↦ close_all-IsShut m id ref os₁ os' rest (rw miss at k)
      ]
]

module _ {V : Type 0} where
  -- The loop has ended with an error, and each stream that this map held is shut.
  pub record Ended (e : Failure) (held : List (ℕ × ℕ)) (m : MessageConn V) : Type 0 where
    pub reason : m.read_loop_err ≡ some e
    pub gone : m.loop ≡ stopped
    pub forgotten : m.streams ≡ []
    pub accept_closed : m.accept_ch.closed ≡ true
    pub raw_closed : m.raw_msg_ch.closed ≡ true
    pub shut_streams : (id ref : ℕ) → lookup id held ≡ some ref → IsShut (get_elem? m.objects ref)

  loop_turn-failed :
      (pick : Pick) (m : MessageConn V) (e : Failure)
      → m.loop ≡ reading
      → (read_frame m.rwc).0 ≡ fail e
      → loop_turn pick m ≡ handle_read_loop_error e (record m { rwc = (read_frame m.rwc).1 })
  unfolding loop_turn dispatch
  loop_turn-failed pick m e i h = rw (i, loop_turn) (rw (h, dispatch) refl)

  stop :
      (m : MessageConn V) (e : Failure) (os : List Stream)
      → IsSound m
      → m.loop ≡ reading
      → close_all m.streams m.objects ≡ some os
      → handle_read_loop_error e m
        ≡ turned (record m {
          read_loop_err = some e;
          objects = os;
          streams = [];
          accept_ch = record (m.accept_ch) { closed = true };
          raw_msg_ch = record (m.raw_msg_ch) { closed = true };
          read_loop_done = true;
          loop = stopped;
        })
  unfolding handle_read_loop_error
  stop m e os v i h =
      let queues : (m.accept_ch.closed ≡ false) × (m.raw_msg_ch.closed ≡ false) =
        rw i at v.queues in
      rw (h, handle_read_loop_error, queues.0, queues.1) refl

  ended :
      (pick : Pick) (m : MessageConn V) (e : Failure)
      → IsSound m
      → m.loop ≡ reading
      → (read_frame m.rwc).0 ≡ fail e
      → Ended e m.streams (after_turn (loop_turn pick m) m)
  ended pick m e v i h =
      let (os, c) = close_all-Entries m.streams m.objects v.entries in
      rw
        (
          loop_turn-failed pick m e i h,
          stop (record m { rwc = (read_frame m.rwc).1 }) e os (rwc-IsSound m v _) i c,
        )
        (record {
          reason = refl;
          gone = refl;
          forgotten = refl;
          accept_closed = refl;
          raw_closed = refl;
          shut_streams = λ id ref k. close_all-IsShut m.streams id ref m.objects os c k;
        })

  -- In every history of a new connection: if the read of the next frame fails, the loop's act leaves the
  -- loop gone with that error recorded, both queues closed, no stream in the map, and every stream that
  -- was in it cancelled with its queue closed.
  pub loop_turn-Ended :
      (r : Rwc) (c : Codec V) (is_host : Bool) (l : List Act) (pick : Pick) (e : Failure)
      → (run l (new_message_conn r c is_host)).loop ≡ reading
      → (read_frame (run l (new_message_conn r c is_host)).rwc).0 ≡ fail e
      → Ended e
          (run l (new_message_conn r c is_host)).streams
          (perform (turn pick) (run l (new_message_conn r c is_host)))
  unfolding perform
  loop_turn-Ended r c is_host l pick e i h =
      ended pick (run l (new_message_conn r c is_host)) e
        (run-IsSound l _ (new_message_conn-IsSound r c is_host)) i h

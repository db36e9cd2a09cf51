-- ===== src/System/Rest.antt =====
-- The read loop comes to rest: without new bytes, and with nobody else acting, its acts come to an end.
-- `Io.read_full` takes the link as ended behind its last byte. Here the link may stay open, and then
-- `io.ReadFull` waits, in the loop's read of a frame, for bytes that are not there.
use plugo.Prelude.{
  ℕ, suc, ◌+◌, ◌≤◌, ◌<◌, ◌≡◌, refl, arith, Bool, true, false, ◌&&◌, ◌||◌, if◌then◌else◌, ltb, inl,
  inr, Bool-cases, none, some, List, [], ◌∷◌, length, take, drop, nat_eq, bytes_eq,
}
use plugo.Io.{Failure, Rwc, refusal, read_full}
use plugo.Wire.{uint32}
use plugo.Codec.{Codec}
use plugo.Conn.{Loop, reading, MessageConn, new_message_conn}
use plugo.Reader.{Pick, channel, stream_done, Turn, turned, parked, panicked, read_frame, loop_turn}
use plugo.System.{Act, run}
use plugo.System.Sound.{IsSound}
use plugo.System.Steps.{IsSafe, loop_turn-IsSafe}
use plugo.System.Safety.{run-IsSound, new_message_conn-IsSound}
use plugo.System.Progress.{left, Less, acts_left-le, loop_turn-Less}

abbrev pub other : Pick → Pick
other stream_done = channel
other _ = stream_done

-- The bytes of a frame's header, or of its payload, are not all there.
abbrev pub falls_short : List ℕ → Bool
falls_short bs = ltb (length bs) 12 || ltb (length (drop 12 bs)) (uint32 (take 12 bs))

-- What is there in full is read without a look at how the link ends: the read does not wait.
read_frame-ended :
    (r : Rwc) (e : Failure)
    → falls_short r.input ≡ false
    → (read_frame (record r { ended = e })).0 ≡ (read_frame r).0
unfolding read_frame read_full
read_frame-ended r e h = ground arith

abbrev pub is_reading : Loop → Bool
is_reading reading = true
is_reading _ = false

module _ {V : Type 0} where
  -- The loop waits in `io.ReadFull`: the link is open, no read is refused, and the frame falls short.
  abbrev pub awaits_bytes : Bool → MessageConn V → Bool
  awaits_bytes is_open m = elim (refusal m.rwc) [
    | some e ↦ false
    | none ↦ is_open && is_reading m.loop && falls_short m.rwc.input
  ]

  -- Acts of the loop up to the first at which it waits for bytes, or no case of its select is ready: each
  -- takes its pick, or the other case where that one is not ready. The flag says that the link stays
  -- open behind the bytes that are to come; else it ends there.
  unfoldable pub follow : Bool → List Pick → MessageConn V → Turn (MessageConn V)
  follow is_open [] m = turned m
  follow is_open (pick ∷ picks) m =
      let rest = follow is_open picks in
      if awaits_bytes is_open m then parked else elim (loop_turn pick m) [
        | turned m' ↦ rest m'
        | parked ↦ elim (loop_turn (other pick) m) [
          | turned m' ↦ rest m'
          | parked ↦ parked
          | panicked ↦ panicked
        ]
        | panicked ↦ panicked
      ]

  -- Where the first case, or the second one, goes on, the rest of the acts does what it does alone.
  step-parked :
      (is_open : Bool) (picks : List Pick) (n : ℕ) (t u : Turn (MessageConn V))
      → ((m : MessageConn V) → IsSound m → left m < length picks → follow is_open picks m ≡ parked)
      → n < suc (length picks)
      → IsSafe t × Less n t
      → IsSafe u × Less n u
      → elim t [
        | turned m ↦ follow is_open picks m
        | parked ↦ elim u [
          | turned m ↦ follow is_open picks m
          | parked ↦ parked
          | panicked ↦ panicked
        ]
        | panicked ↦ panicked
      ]
        ≡ parked
  step-parked o picks n (turned m) u k h (v, i) w = k m v (omega (arith, h, i))
  step-parked o picks n parked (turned m) k h v (w, i) = k m w (omega (arith, h, i))
  step-parked o picks n parked parked k h v w = refl
  step-parked o picks n parked panicked k h v w = absurd w.0
  step-parked o picks n panicked u k h v w = absurd v.0

  follow-parked :
      (is_open : Bool) (picks : List Pick) (m : MessageConn V)
      → IsSound m
      → left m < length picks
      → follow is_open picks m ≡ parked
  unfolding follow
  follow-parked o [] m v h = absurd (omega (arith, h))
  follow-parked o (pick ∷ picks) m v h = elim (Bool-cases (awaits_bytes o m)) [
    | inl w ↦ rw (w, follow) refl
    | inr w ↦
        rw (w, follow)
          (step-parked o picks (left m) (loop_turn pick m) (loop_turn (other pick) m)
            (follow-parked o picks) h (loop_turn-IsSafe m v pick, loop_turn-Less pick m)
            (loop_turn-IsSafe m v (other pick), loop_turn-Less (other pick) m))
  ]

  -- In every history of a new connection, on a link that stays open behind the bytes that are to come and
  -- on one that ends there: if nobody else acts, the read loop comes to rest. Among any acts of it that are
  -- at least as many as the bytes left and three more, one finds the loop gone, or none of the cases of its
  -- select ready, or, on the open link, waiting in `io.ReadFull` for a frame that is not all there.
  pub follow-eq-parked :
      (r : Rwc) (c : Codec V) (is_host : Bool) (l : List Act) (is_open : Bool) (picks : List Pick)
      → length (run l (new_message_conn r c is_host)).rwc.input + 3 ≤ length picks
      → follow is_open picks (run l (new_message_conn r c is_host)) ≡ parked
  follow-eq-parked r c is_host l is_open picks h =
      let m = run l (new_message_conn r c is_host) in
      follow-parked is_open picks m (run-IsSound l _ (new_message_conn-IsSound r c is_host))
        (omega (arith, h, acts_left-le m.loop (length m.rwc.input)))

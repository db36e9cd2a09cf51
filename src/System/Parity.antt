-- ===== src/System/Parity.antt =====
-- The ids that the two sides of a link give to their streams.
use plugo.Prelude.{
  zero, suc, ℕ, ◌%◌, ◌≡◌, ◌≢◌, ◌∙◌, refl, ap, arith, true, false, List, [], ◌∷◌, nat_eq, suc, none,
  Bool, ◌<◌, if◌then◌else◌, ◌^◌, ◌+◌, ◌*◌,
}
use plugo.Io.{Rwc, ok}
use plugo.Codec.{Codec}
use plugo.Conn.{
  MessageConn, new_message_conn, reserve_id, start_read_loop, handle_single_multi,
  handle_multi_single, handle_bidi, write_data, write_stream_frame, close_conn, register_stream,
  remove_stream,
}
use plugo.Reader.{loop_turn}
use plugo.Wire.{u32}
use plugo.System.{
  Act, arrive, turn, starts, writes, writes_frame, reads, accepts, reserves, registers, removes,
  sends, polls, selects, cancels, closes_write, cancels, closes, closes_conn, handles_single_multi,
  handles_multi_single, handles_bidi, serves, perform, run,
}
use plugo.System.Numbers.{
  next-after_turn, loop_turn-KeepsNext_at, next-reserve_id, next-read_data, next-accept_stream,
  next-send, next-recv_poll, next-recv_select, next-close_write, next-close, next-task_turn,
}

module _ {V : Type 0} where
  abbrev parity : MessageConn V → ℕ
  parity m = m.next_stream_id % 2

  parity-perform : (a : Act) (m : MessageConn V) → parity (perform a m) ≡ parity m
  unfolding perform write_data write_stream_frame start_read_loop handle_single_multi
      handle_multi_single handle_bidi register_stream remove_stream close_conn
  parity-perform (arrive bs) m = refl
  parity-perform (turn pick) m =
      ap (λ n. n % 2)
        (next-after_turn (loop_turn pick m) m ∙ loop_turn-KeepsNext_at m.loop pick m refl)
  parity-perform starts m = refl
  parity-perform (writes ctx bs) m = refl
  parity-perform (writes_frame ctx f) m = refl
  parity-perform (reads pick ctx) m = ap (λ n. n % 2) (next-read_data pick ctx m)
  parity-perform (accepts pick ctx) m = ap (λ n. n % 2) (next-accept_stream pick ctx m)
  parity-perform reserves m = next-reserve_id m
  parity-perform (registers id) m = refl
  parity-perform (removes id) m = refl
  parity-perform (sends pick ctx ref bs) m = ap (λ n. n % 2) (next-send pick ctx ref bs m)
  parity-perform (polls ref) m = ap (λ n. n % 2) (next-recv_poll ref m)
  parity-perform (selects pick ctx ref) m = ap (λ n. n % 2) (next-recv_select pick ctx ref m)
  parity-perform (cancels ref) m = refl
  parity-perform (closes_write t ref) m = ap (λ n. n % 2) (next-close_write t ref m)
  parity-perform (closes t ref) m = ap (λ n. n % 2) (next-close t ref m)
  parity-perform closes_conn m = refl
  parity-perform (handles_single_multi route h) m = refl
  parity-perform (handles_multi_single route h) m = refl
  parity-perform (handles_bidi route h) m = refl
  parity-perform (serves pick t i) m = ap (λ n. n % 2) (next-task_turn pick t i m)

  parity-run : (l : List Act) (m : MessageConn V) → parity (run l m) ≡ parity m
  unfolding run
  parity-run [] m = refl
  parity-run (a ∷ l) m = parity-run l (perform a m) ∙ parity-perform a m

  reserved : (m : MessageConn V) (id : ℕ) → (reserve_id m).0 ≡ ok id → id % 2 ≡ parity m
  unfolding reserve_id
  reserved m id h = ground arith

  -- In all histories of a host's and a plugin's connection, an id that the one reserves for a stream is
  -- odd and an id that the other reserves is even, also when they wrap: the two never collide on one
  -- link.
  pub reserve_id-ne :
      (r s : Rwc) (c d : Codec V) (l k : List Act) (i j : ℕ)
      → (reserve_id (run l (new_message_conn r c true))).0 ≡ ok i
      → (reserve_id (run k (new_message_conn s d false))).0 ≡ ok j
      → (i % 2 ≡ 1) × (j % 2 ≡ 0) × (i ≢ j)
  unfolding new_message_conn
  reserve_id-ne r s c d l k i j h g =
      let odd : i % 2 ≡ 1 = reserved _ i h ∙ parity-run l _ in
      let even : j % 2 ≡ 0 = reserved _ j g ∙ parity-run k _ in (odd, even, ground arith)

  -- n streams after each other.
  pub reserve_times : ℕ → MessageConn V → MessageConn V
  reserve_times zero m = m
  reserve_times (suc n) m = reserve_times n (reserve_id m).1

  reserve_id-running :
      (m : MessageConn V)
      → m.read_loop_err ≡ none
      → (reserve_id m).1 ≡ record m { next_stream_id = u32 (m.next_stream_id + 2) }
  unfolding reserve_id
  reserve_id-running m h = ground arith

  ids_from :
      (n : ℕ) (m : MessageConn V)
      → m.read_loop_err ≡ none
      → m.next_stream_id < 2 ^ 32
      → (reserve_id (reserve_times n m)).0 ≡ ok ((m.next_stream_id + 2 * n) % 2 ^ 32)
  unfolding reserve_times reserve_id
  ids_from zero m h small = rw h (ap ok (omega arith))
  ids_from (suc n) m h small =
      rw (reserve_id-running m h, reserve_times)
        (ids_from n (record m { next_stream_id = u32 (m.next_stream_id + 2) }) h (omega arith)
          ∙ ap ok (omega arith))

  -- The stream that a side opens behind n others has the id 2 * n above its first one, modulo 2 ^ 32. So
  -- the ids repeat after 2 ^ 31 streams, and a plugin's come to 0.
  pub reserve_times-id :
      (r : Rwc) (c : Codec V) (is_host : Bool) (n : ℕ)
      → (reserve_id (reserve_times n (new_message_conn r c is_host))).0
        ≡ ok (((if is_host then 1 else 2) + 2 * n) % 2 ^ 32)
  unfolding new_message_conn
  reserve_times-id r c true n = ids_from n _ refl (omega arith)
  reserve_times-id r c false n = ids_from n _ refl (omega arith)

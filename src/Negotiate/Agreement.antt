-- ===== src/Negotiate/Agreement.antt =====
-- The two sides of a handshake together, over links that deliver what is written.
use plugo.Prelude.{
  ℕ, ◌+◌, ◌<◌, ◌≢◌, ◌≡◌, ◌^◌, refl, sym, ◌∙◌, ◌++◌, true, List, [], ◌∷◌, none, some, arith, length,
  ap,
}
use plugo.Io.{Rwc, ok, fail, eof, wrapped, text_names, never, refusal, read_full}
use plugo.Context.{background, with_context}
use plugo.Prelude.{string_eq}
use plugo.Codec.{Codec}
use plugo.Conn.{MessageConn, start_read_loop, new_message_conn}
use plugo.System.Writes.{put_output, rest_input}
use plugo.Negotiate.{
  Json, names, select_codec, negotiate_from_host_to_plugin, negotiate_from_plugin_to_host, answer,
}
use plugo.Negotiate.Choice.{codec_map-names}
use plugo.Negotiate.Sides.{
  patient, IsCalm, prefixed, RoundTrips, plugin_side, host_side, select_codec_supported,
  read_prefixed-prefixed, write_calm, length_prefixed-prefixed, with_context-background,
}

read_full_at_end :
    (n : ℕ) (r : Rwc)
    → 0 < n
    → refusal r ≡ none
    → r.input ≡ []
    → r.ended ≡ eof
    → read_full n r ≡ (fail eof, r)
unfolding read_full
read_full_at_end n r pos h i e = ground arith

read_end :
    (r : Rwc)
    → refusal r ≡ none
    → r.deadline ≡ never
    → r.input ≡ []
    → r.ended ≡ eof
    → with_context background (read_full 4) r ≡ (fail eof, r)
read_end r h d i e =
    let short = read_full_at_end 4 r (omega arith) h i e in
    with_context-background (read_full 4) r d (ap (λ p. p.1.deadline) short ∙ d) ∙ short

module _ {V : Type 0} (json : Json) where
  answer-none :
      (hosts plugins : List (Codec V)) (r : Rwc)
      → select_codec (names hosts) plugins ≡ none
      → answer json patient plugins (names hosts) r
        ≡ (fail (text_names "no mutual protocol codec" (names hosts ++ names plugins)), r)
  answer-none hosts plugins r s = rw (s, answer)

  -- Over working links, if the plugin finds a codec that the host supports, both sides end up with a
  -- connection, the plugin's with that codec and the host's with its own of the same name. What the
  -- host has written is what the plugin reads, and the other way round. The host numbers its streams
  -- from 1 and the plugin from 2, and both read loops run.
  pub negotiate_agreement :
      (hosts plugins : List (Codec V)) (c : Codec V) (req resp : List ℕ) (rh rp : Rwc)
      → hosts ≢ []
      → plugins ≢ []
      → select_codec (names hosts) plugins ≡ some c
      → RoundTrips json hosts c.name req resp
      → IsCalm rh
      → IsCalm rp
      → rh.output ≡ []
      → rp.output ≡ []
      → rp.input ≡ prefixed req
      → rh.input ≡ (negotiate_from_plugin_to_host json patient plugins rp).1.output
      → (mh mp : MessageConn V) × ((negotiate_from_host_to_plugin json patient hosts rh).0 ≡ ok mh)
        × ((negotiate_from_plugin_to_host json patient plugins rp).0 ≡ ok mp)
        × ((negotiate_from_host_to_plugin json patient hosts rh).1.output ≡ rp.input)
        × (mp.codec ≡ c)
        × (mh.codec.name ≡ c.name)
        × (mh.next_stream_id ≡ 1)
        × (mp.next_stream_id ≡ 2)
        × (mh.read_loop_started ≡ true)
        × (mp.read_loop_started ≡ true)
  unfolding start_read_loop new_message_conn
  negotiate_agreement hosts plugins c req resp rh rp nh np s j ch cp oh op ip ih =
      let plugin_run = plugin_side json hosts plugins c req resp rp np s j cp ip in
      let back : rh.input ≡ prefixed resp =
        ih ∙ ap (λ p. p.1.output) plugin_run ∙ ap (λ o. o ++ prefixed resp) op in
      let known = codec_map-names hosts c.name (select_codec_supported json hosts plugins c s) in
      let host_run = host_side json hosts known.0 c.name req resp rh nh known.1 j ch back in
      (
        _,
        _,
        ap (λ p. p.0) host_run,
        ap (λ p. p.0) plugin_run,
        ap (λ p. p.1.output) host_run ∙ ap (λ o. o ++ prefixed req) oh ∙ sym ip,
        refl,
        known.2,
        refl,
        refl,
        refl,
        refl,
      )

  plugin_refuses :
      (hosts plugins : List (Codec V)) (req : List ℕ) (r : Rwc)
      → plugins ≢ []
      → select_codec (names hosts) plugins ≡ none
      → json.decode_request req ≡ ok (names hosts)
      → length req ≢ 0
      → length req + 4 < 2 ^ 32
      → IsCalm r
      → r.input ≡ prefixed req
      → negotiate_from_plugin_to_host json patient plugins r ≡ (
        fail (text_names "no mutual protocol codec" (names hosts ++ names plugins)),
        rest_input [] r,
      )
  unfolding negotiate_from_plugin_to_host
  plugin_refuses hosts [] req r ne s dec some_bytes fits c e = absurd (ne refl)
  plugin_refuses hosts (d ∷ plugins) req r ne s dec some_bytes fits c e =
      rw
        (read_prefixed-prefixed "failed to read handshake request length"
          "received invalid zero-length handshake request frame"
          "failed to read handshake request payload" req r c some_bytes (omega arith) e)
        (rw dec (answer-none hosts (d ∷ plugins) (rest_input [] r) s))

  host_gives_up :
      (hosts : List (Codec V)) (req : List ℕ) (r : Rwc)
      → hosts ≢ []
      → json.encode_request (names hosts) ≡ ok req
      → length req + 4 < 2 ^ 32
      → IsCalm r
      → r.input ≡ []
      → r.ended ≡ eof
      → (negotiate_from_host_to_plugin json patient hosts r).0
        ≡ fail (wrapped "failed to read handshake response length" eof)
  unfolding negotiate_from_host_to_plugin
  host_gives_up [] req r ne enc fits c i e = absurd (ne refl)
  host_gives_up (d ∷ hosts) req r ne enc fits c i e =
      rw (enc, length_prefixed-prefixed req fits)
        (rw (write_calm (prefixed req) r c)
          (rw (read_end (put_output (prefixed req) r) c.healthy.usable c.no_deadline i e)))

  -- If it finds none, the plugin fails and writes nothing; the host, which then meets the end of its
  -- input, fails at the length of the response.
  pub negotiate_disagreement :
      (hosts plugins : List (Codec V)) (req : List ℕ) (rh rp : Rwc)
      → hosts ≢ []
      → plugins ≢ []
      → select_codec (names hosts) plugins ≡ none
      → json.encode_request (names hosts) ≡ ok req
      → json.decode_request req ≡ ok (names hosts)
      → length req ≢ 0
      → length req + 4 < 2 ^ 32
      → IsCalm rh
      → IsCalm rp
      → rp.input ≡ prefixed req
      → rh.input ≡ []
      → rh.ended ≡ eof
      → ((negotiate_from_plugin_to_host json patient plugins rp).0
          ≡ fail (text_names "no mutual protocol codec" (names hosts ++ names plugins)))
        × ((negotiate_from_plugin_to_host json patient plugins rp).1.output ≡ rp.output)
        × ((negotiate_from_host_to_plugin json patient hosts rh).0
            ≡ fail (wrapped "failed to read handshake response length" eof))
  negotiate_disagreement hosts plugins req rh rp nh np s enc dec some_bytes fits ch cp ip ih ended =
      let refused = plugin_refuses hosts plugins req rp np s dec some_bytes fits cp ip in
      (
        ap (λ p. p.0) refused,
        ap (λ p. p.1.output) refused,
        host_gives_up hosts req rh nh enc fits ch ih ended,
      )

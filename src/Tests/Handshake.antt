-- ===== src/Tests/Handshake.antt =====
-- Handshakes, contexts, codecs and pipes on concrete inputs.
use plugo.Prelude.{ℕ, ◌≡◌, ◌++◌, refl, arith, true, List, [], ◌∷◌, none, some, All}
use plugo.Io.{ok, fail, eof, wrapped, text_names, Rwc, never, read_full, write, close}
use plugo.Context.{Ctx, background, during, with_context}
use plugo.Context.Deadlines.{with_context-deadline, KeepsKind}
use plugo.Codec.{Codec}
use plugo.Conn.{MessageConn}
use plugo.Wire.{put_uint32, uint32}
use plugo.Negotiate.{
  length_prefixed, names, contains, select_codec, negotiate_from_host_to_plugin,
  negotiate_from_plugin_to_host,
}
use plugo.Negotiate.Choice.{Unsupported, select_codec-first}
use plugo.Negotiate.Sides.{patient, prefixed}
use plugo.Negotiate.Agreement.{negotiate_agreement, negotiate_disagreement}
use plugo.Pipe.{PipeConn, pipe_read_full, pipe_write, pipe_close, as_rwc}
use plugo.Pipe.Refinement.{pipe-as_rwc}
use plugo.Tests.{link, byte_codec, byte_json}

abbrev host_codecs : List (Codec ℕ)
host_codecs = byte_codec "json" ∷ byte_codec "gob" ∷ []

abbrev plugin_codecs : List (Codec ℕ)
plugin_codecs = byte_codec "msgp" ∷ byte_codec "gob" ∷ []

abbrev request : List ℕ
request = 1 ∷ 2 ∷ []

abbrev response : List ℕ
response = 2 ∷ []

abbrev plugin_link : Rwc
plugin_link = record link { input = prefixed request }

abbrev host_link : Rwc
host_link = record link { input = prefixed response }

picks_gob : select_codec (names host_codecs) plugin_codecs ≡ some (byte_codec "gob")
unfolding select_codec
picks_gob = refl

picks_none : select_codec (names host_codecs) (byte_codec "msgp" ∷ []) ≡ none
unfolding select_codec
picks_none = refl

select_codec-first_example :
    (before after : List (Codec ℕ)) × (plugin_codecs ≡ before ++ byte_codec "gob" ∷ after)
    × All (Unsupported (names host_codecs)) before
    × (contains (names host_codecs) "gob" ≡ true)
select_codec-first_example =
    select_codec-first (names host_codecs) plugin_codecs (byte_codec "gob") picks_gob

negotiate_agreement_example :
    (mh mp : MessageConn ℕ) × ((negotiate_from_host_to_plugin byte_json patient host_codecs
        host_link).0
      ≡ ok mh)
    × ((negotiate_from_plugin_to_host byte_json patient plugin_codecs plugin_link).0 ≡ ok mp)
    × ((negotiate_from_host_to_plugin byte_json patient host_codecs host_link).1.output
        ≡ plugin_link.input)
    × (mp.codec ≡ byte_codec "gob")
    × (mh.codec.name ≡ "gob")
    × (mh.next_stream_id ≡ 1)
    × (mp.next_stream_id ≡ 2)
    × (mh.read_loop_started ≡ true)
    × (mp.read_loop_started ≡ true)
unfolding negotiate_from_plugin_to_host put_uint32 with_context read_full uint32 select_codec
    length_prefixed write
negotiate_agreement_example =
    negotiate_agreement byte_json host_codecs plugin_codecs (byte_codec "gob") request response
      host_link plugin_link (ground arith) (ground arith) picks_gob
      (record {
        request = refl;
        request_back = refl;
        request_some = ground arith;
        request_fits = omega arith;
        response = refl;
        response_back = refl;
        response_some = ground arith;
        response_fits = omega arith;
      })
      (record { healthy = record { usable = refl; writable = refl }; no_deadline = refl })
      (record { healthy = record { usable = refl; writable = refl }; no_deadline = refl }) refl refl
      refl refl

negotiate_disagreement_example :
    ((negotiate_from_plugin_to_host byte_json patient (byte_codec "msgp" ∷ []) plugin_link).0
      ≡ fail (text_names "no mutual protocol codec" (names host_codecs ++ "msgp" ∷ [])))
    × ((negotiate_from_plugin_to_host byte_json patient
          (byte_codec "msgp" ∷ [])
          plugin_link).1.output
        ≡ [])
    × ((negotiate_from_host_to_plugin byte_json patient host_codecs link).0
        ≡ fail (wrapped "failed to read handshake response length" eof))
negotiate_disagreement_example =
    negotiate_disagreement byte_json host_codecs (byte_codec "msgp" ∷ []) request link plugin_link
      (ground arith) (ground arith) picks_none refl refl (ground arith) (omega arith)
      (record { healthy = record { usable = refl; writable = refl }; no_deadline = refl })
      (record { healthy = record { usable = refl; writable = refl }; no_deadline = refl }) refl refl
      refl

-- A context without a deadline that is cancelled while the call runs.
abbrev cut_short : Ctx
cut_short = record background { cancellable = true; moment = during }

read_full-KeepsKind : (n : ℕ) → KeepsKind (read_full n)
unfolding read_full
read_full-KeepsKind n r = ground arith

with_context-deadline_example : (with_context cut_short (read_full 4) link).1.deadline ≡ never
with_context-deadline_example =
    with_context-deadline cut_short (read_full 4) link (read_full-KeepsKind 4) refl

abbrev pipes : PipeConn
pipes = record { r = record link { input = 5 ∷ 6 ∷ [] }; w = link }

pipe-as_rwc_example :
    ((pipe_read_full 2 pipes).0 ≡ (read_full 2 (as_rwc pipes)).0)
    × (as_rwc (pipe_read_full 2 pipes).1 ≡ (read_full 2 (as_rwc pipes)).1)
    × ((pipe_write (7 ∷ []) pipes).0 ≡ (write (7 ∷ []) (as_rwc pipes)).0)
    × (as_rwc (pipe_write (7 ∷ []) pipes).1 ≡ (write (7 ∷ []) (as_rwc pipes)).1)
    × ((pipe_close pipes).0 ≡ (close (as_rwc pipes)).0)
    × (as_rwc (pipe_close pipes).1 ≡ (close (as_rwc pipes)).1)
pipe-as_rwc_example =
    pipe-as_rwc pipes 2 (7 ∷ [])
      (record { together = refl; no_read_deadline = refl; no_write_deadline = refl })

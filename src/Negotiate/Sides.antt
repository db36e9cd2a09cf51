-- ===== src/Negotiate/Sides.antt =====
-- Each side of a handshake by itself, over a link that works.
use plugo.Prelude.{
  ℕ, ◌+◌, ◌<◌, ◌≢◌, ◌≡◌, ◌^◌, refl, sym, ◌∙◌, ◌++◌, true, false, List, [], ◌∷◌, some, String, arith,
  length, take_all, append-nil, ap, subst, nat_beq_ne,
}
use plugo.Io.{Rwc, Io, ok, never, read_full, write, set_deadline}
use plugo.Context.{background, with_context}
use plugo.Wire.{put_uint32, uint32}
use plugo.Wire.RoundTrip.{uint32-put_uint32, read_full-append, length-put_uint32}
use plugo.Prelude.{string_eq}
use plugo.Codec.{Codec}
use plugo.System.Writes.{IsHealthy, put_output, rest_input, write_healthy}
use plugo.Negotiate.{
  Json, Ctxs, length_prefixed, read_prefixed, contains, names, codec_map, select_codec,
  negotiate_from_host_to_plugin, negotiate_from_plugin_to_host, lookup, connect, answer,
  finish_host, confirm,
}
use plugo.Negotiate.Choice.{select_codec-first}

abbrev pub patient : Ctxs
patient = record { at_write = background; at_length = background; at_payload = background }

-- A link that works, with no deadline set.
pub record IsCalm (r : Rwc) : Type 0 where
  pub healthy : IsHealthy r
  pub no_deadline : r.deadline ≡ never

clear_never : (r : Rwc) → r.deadline ≡ never → set_deadline never r ≡ r
clear_never r h = ground arith

pub with_context-background {ℓ} :
    {A : Type ℓ} (fn : Io A) (r : Rwc)
    → r.deadline ≡ never
    → (fn r).1.deadline ≡ never
    → with_context background fn r ≡ fn r
unfolding with_context
with_context-background fn r h k = rw (clear_never r h) (rw (clear_never (fn r).1 k))

abbrev pub prefixed : List ℕ → List ℕ
prefixed bs = put_uint32 (length bs) ++ bs

pub length_prefixed-prefixed :
    (bs : List ℕ) → length bs + 4 < 2 ^ 32 → length_prefixed bs ≡ ok (prefixed bs)
unfolding length_prefixed
length_prefixed-prefixed bs h = ground (arith, take_all (length bs) bs)

pub read_calm :
    (n : ℕ) (bs rest : List ℕ) (r : Rwc)
    → IsCalm r
    → length bs ≡ n
    → r.input ≡ bs ++ rest
    → with_context background (read_full n) r ≡ (ok bs, rest_input rest r)
read_calm n bs rest r c len e =
    let got : read_full n r ≡ (ok bs, rest_input rest r) =
      subst (λ k. read_full k r ≡ (ok bs, rest_input rest r)) len
        (read_full-append bs rest r c.healthy.usable e) in
    with_context-background (read_full n) r c.no_deadline
      (ap (λ p. p.1.deadline) got ∙ c.no_deadline)
    ∙ got

pub write_calm :
    (bs : List ℕ) (r : Rwc)
    → IsCalm r
    → with_context background (write bs) r ≡ (ok tt, put_output bs r)
write_calm bs r c =
    let done = write_healthy bs r c.healthy in
    with_context-background (write bs) r c.no_deadline (ap (λ p. p.1.deadline) done ∙ c.no_deadline)
    ∙ done

uint32-length : (bs : List ℕ) → length bs < 2 ^ 32 → uint32 (put_uint32 (length bs)) ≡ length bs
uint32-length bs h =
    ap uint32 (sym (append-nil (put_uint32 (length bs)))) ∙ uint32-put_uint32 (length bs) [] h

-- What one side writes with a length in front, the other side reads.
pub read_prefixed-prefixed :
    (s t u : String) (bs : List ℕ) (r : Rwc)
    → IsCalm r
    → length bs ≢ 0
    → length bs < 2 ^ 32
    → r.input ≡ prefixed bs
    → read_prefixed s t u patient r ≡ (ok bs, rest_input [] r)
read_prefixed-prefixed s t u bs r c ne fits e =
    rw
      (
        read_calm 4 (put_uint32 (length bs)) bs r c (length-put_uint32 (length bs)) e,
        uint32-length bs fits,
        nat_beq_ne (length bs) 0 ne,
      )
      (rw (
        read_calm (length bs) bs [] (rest_input bs r)
          (record {
            healthy = record { usable = c.healthy.usable; writable = c.healthy.writable };
            no_deadline = c.no_deadline;
          })
          refl (sym (append-nil bs))))

module _ {V : Type 0} (json : Json) where
  -- What the code relies on: JSON decodes what it has encoded. The encodings are not empty and fit the
  -- 32-bit length.
  pub record RoundTrips (hosts : List (Codec V)) (chosen : String) (req resp : List ℕ)
      : Type 0 where
    pub request : json.encode_request (names hosts) ≡ ok req
    pub request_back : json.decode_request req ≡ ok (names hosts)
    pub request_some : length req ≢ 0
    pub request_fits : length req + 4 < 2 ^ 32
    pub response : json.encode_response chosen ≡ ok resp
    pub response_back : json.decode_response resp ≡ ok chosen
    pub response_some : length resp ≢ 0
    pub response_fits : length resp + 4 < 2 ^ 32

  pub answer-some :
      (hosts plugins : List (Codec V)) (c : Codec V) (r : Rwc)
      → select_codec (names hosts) plugins ≡ some c
      → answer json patient plugins (names hosts) r ≡ confirm json patient c r
  answer-some hosts plugins c r s = rw (s, answer)

  pub finish_host-some :
      (hosts : List (Codec V)) (h : Codec V) (chosen : String) (r : Rwc)
      → lookup chosen (codec_map hosts []) ≡ some h
      → finish_host json hosts chosen r ≡ connect h true r
  finish_host-some hosts h chosen r s = rw (s, finish_host)

  pub confirm_calm :
      (hosts : List (Codec V)) (c : Codec V) (req resp : List ℕ) (r : Rwc)
      → RoundTrips hosts c.name req resp
      → IsCalm r
      → confirm json patient c r ≡ connect c false (put_output (prefixed resp) r)
  confirm_calm hosts c req resp r j calm =
      rw (j.response, length_prefixed-prefixed resp j.response_fits)
        (rw (write_calm (prefixed resp) r calm))

  pub select_codec_supported :
      (hosts plugins : List (Codec V)) (c : Codec V)
      → select_codec (names hosts) plugins ≡ some c
      → contains (names hosts) c.name ≡ true
  select_codec_supported hosts plugins c s = (select_codec-first (names hosts) plugins c s).4

  pub plugin_side :
      (hosts plugins : List (Codec V)) (c : Codec V) (req resp : List ℕ) (r : Rwc)
      → plugins ≢ []
      → select_codec (names hosts) plugins ≡ some c
      → RoundTrips hosts c.name req resp
      → IsCalm r
      → r.input ≡ prefixed req
      → negotiate_from_plugin_to_host json patient plugins r
        ≡ connect c false (put_output (prefixed resp) (rest_input [] r))
  unfolding negotiate_from_plugin_to_host
  plugin_side hosts [] c req resp r ne s j calm e = absurd (ne refl)
  plugin_side hosts (d ∷ plugins) c req resp r ne s j calm e =
      rw
        (read_prefixed-prefixed "failed to read handshake request length"
          "received invalid zero-length handshake request frame"
          "failed to read handshake request payload" req r calm j.request_some (omega arith) e)
        (rw j.request_back (
          answer-some hosts (d ∷ plugins) c (rest_input [] r) s
          ∙ confirm_calm hosts c req resp (rest_input [] r) j (record {
            healthy = record { usable = calm.healthy.usable; writable = calm.healthy.writable };
            no_deadline = calm.no_deadline;
          })))

  pub host_side :
      (hosts : List (Codec V)) (h : Codec V) (chosen : String) (req resp : List ℕ) (r : Rwc)
      → hosts ≢ []
      → lookup chosen (codec_map hosts []) ≡ some h
      → RoundTrips hosts chosen req resp
      → IsCalm r
      → r.input ≡ prefixed resp
      → negotiate_from_host_to_plugin json patient hosts r
        ≡ connect h true (rest_input [] (put_output (prefixed req) r))
  unfolding negotiate_from_host_to_plugin
  host_side [] h chosen req resp r ne s j calm e = absurd (ne refl)
  host_side (d ∷ hosts) h chosen req resp r ne s j calm e =
      rw (j.request, length_prefixed-prefixed req j.request_fits)
        (rw (write_calm (prefixed req) r calm) (
          rw
            (read_prefixed-prefixed "failed to read handshake response length"
              "received invalid zero-length handshake response frame"
              "failed to read handshake response payload" resp (put_output (prefixed req) r)
              (record {
                healthy = record { usable = calm.healthy.usable; writable = calm.healthy.writable };
                no_deadline = calm.no_deadline;
              })
              j.response_some (omega arith) e)
            (rw j.response_back (finish_host-some (d ∷ hosts) h chosen _ s))))

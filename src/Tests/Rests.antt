-- ===== src/Tests/Rests.antt =====
-- The read loop with one message to come and the start of another, until it rests.
use plugo.Prelude.{true, ◌++◌, ◌+◌, ◌≤◌, ◌≡◌, arith, List, [], ◌∷◌, length}
use plugo.Wire.{put_uint32}
use plugo.Wire.RoundTrip.{frame_bytes}
use plugo.Conn.{new_message_conn}
use plugo.Reader.{Pick, channel, stream_done, parked}
use plugo.System.{Act, arrive, perform, run}
use plugo.System.Rest.{follow, follow-eq-parked}
use plugo.Tests.{link, byte_codec}

abbrev one_message : List Act
one_message =
    arrive (frame_bytes (record { stream_id = 0; flags = 0; payload = 7 ∷ [] }) ++ 0 ∷ 0 ∷ 0 ∷ [])
    ∷ []

abbrev nineteen : List Pick
nineteen =
    channel ∷ channel ∷ stream_done ∷ channel ∷ channel ∷ channel ∷ stream_done ∷ channel ∷ channel
    ∷ channel ∷ stream_done ∷ channel ∷ channel ∷ channel ∷ stream_done ∷ channel ∷ channel
    ∷ channel ∷ channel ∷ []

enough :
    length (run one_message (new_message_conn link (byte_codec "json") true)).rwc.input + 3
    ≤ length nineteen
unfolding run perform new_message_conn put_uint32
enough = omega arith

follow-eq-parked_example :
    follow true nineteen (run one_message (new_message_conn link (byte_codec "json") true)) ≡ parked
follow-eq-parked_example =
    follow-eq-parked link (byte_codec "json") true one_message true nineteen enough

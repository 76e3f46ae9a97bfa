-- ===== src/Bridge/Proto/Messages.antt =====
-- The messages of components/nev_bridge/src/nev_proto.c: the fields of each, in the order of its
-- calls, and its encoder and decoder.
use nev_os.Base.{ℕ, List, [], ◌∷◌}
use nev_os.Bridge.Proto.{
  u8, u16, u32, u64, boolean, f32, text, bytes, Schema, Values, Result, encode, decode,
}

abbrev pub hello : Schema
hello = record { id = 1; fields = u16 ∷ text 33 ∷ text 25 ∷ text 65 ∷ [] }

abbrev pub encode_hello : Values (hello.fields) → List ℕ → ℕ → Result (List ℕ)
encode_hello = encode hello

abbrev pub decode_hello : List ℕ → Result (Values (hello.fields))
decode_hello = decode hello

abbrev pub hello_ack : Schema
hello_ack = record { id = 2; fields = boolean ∷ boolean ∷ text 49 ∷ u64 ∷ [] }

abbrev pub encode_hello_ack : Values (hello_ack.fields) → List ℕ → ℕ → Result (List ℕ)
encode_hello_ack = encode hello_ack

abbrev pub decode_hello_ack : List ℕ → Result (Values (hello_ack.fields))
decode_hello_ack = decode hello_ack

abbrev pub pair : Schema
pair = record { id = 3; fields = text 13 ∷ [] }

abbrev pub encode_pair : Values (pair.fields) → List ℕ → ℕ → Result (List ℕ)
encode_pair = encode pair

abbrev pub decode_pair : List ℕ → Result (Values (pair.fields))
decode_pair = decode pair

abbrev pub pair_result : Schema
pair_result = record { id = 4; fields = boolean ∷ text 65 ∷ text 65 ∷ [] }

abbrev pub encode_pair_result : Values (pair_result.fields) → List ℕ → ℕ → Result (List ℕ)
encode_pair_result = encode pair_result

abbrev pub decode_pair_result : List ℕ → Result (Values (pair_result.fields))
decode_pair_result = decode pair_result

abbrev pub ping : Schema
ping = record { id = 5; fields = u32 ∷ [] }

abbrev pub encode_ping : Values (ping.fields) → List ℕ → ℕ → Result (List ℕ)
encode_ping = encode ping

abbrev pub decode_ping : List ℕ → Result (Values (ping.fields))
decode_ping = decode ping

abbrev pub pong : Schema
pong = record { id = 6; fields = u32 ∷ [] }

abbrev pub encode_pong : Values (pong.fields) → List ℕ → ℕ → Result (List ℕ)
encode_pong = encode pong

abbrev pub decode_pong : List ℕ → Result (Values (pong.fields))
decode_pong = decode pong

abbrev pub audio_chunk : Schema
audio_chunk = record { id = 16; fields = u32 ∷ u32 ∷ boolean ∷ bytes 4096 ∷ u8 ∷ [] }

abbrev pub encode_audio_chunk : Values (audio_chunk.fields) → List ℕ → ℕ → Result (List ℕ)
encode_audio_chunk = encode audio_chunk

abbrev pub decode_audio_chunk : List ℕ → Result (Values (audio_chunk.fields))
decode_audio_chunk = decode audio_chunk

abbrev pub capture_marker : Schema
capture_marker = record { id = 19; fields = u32 ∷ f32 ∷ [] }

abbrev pub encode_capture_marker : Values (capture_marker.fields) → List ℕ → ℕ → Result (List ℕ)
encode_capture_marker = encode capture_marker

abbrev pub decode_capture_marker : List ℕ → Result (Values (capture_marker.fields))
decode_capture_marker = decode capture_marker

abbrev pub transcript_partial : Schema
transcript_partial = record { id = 17; fields = u32 ∷ text 513 ∷ [] }

abbrev pub encode_transcript_partial :
    Values (transcript_partial.fields) → List ℕ → ℕ → Result (List ℕ)
encode_transcript_partial = encode transcript_partial

abbrev pub decode_transcript_partial : List ℕ → Result (Values (transcript_partial.fields))
decode_transcript_partial = decode transcript_partial

abbrev pub transcript_final : Schema
transcript_final = record { id = 18; fields = u32 ∷ text 513 ∷ f32 ∷ [] }

abbrev pub encode_transcript_final : Values (transcript_final.fields) → List ℕ → ℕ → Result (List ℕ)
encode_transcript_final = encode transcript_final

abbrev pub decode_transcript_final : List ℕ → Result (Values (transcript_final.fields))
decode_transcript_final = decode transcript_final

abbrev pub agent_request : Schema
agent_request = record { id = 32; fields = u32 ∷ text 513 ∷ text 17 ∷ [] }

abbrev pub encode_agent_request : Values (agent_request.fields) → List ℕ → ℕ → Result (List ℕ)
encode_agent_request = encode agent_request

abbrev pub decode_agent_request : List ℕ → Result (Values (agent_request.fields))
decode_agent_request = decode agent_request

abbrev pub agent_token : Schema
agent_token = record { id = 33; fields = u32 ∷ text 513 ∷ [] }

abbrev pub encode_agent_token : Values (agent_token.fields) → List ℕ → ℕ → Result (List ℕ)
encode_agent_token = encode agent_token

abbrev pub decode_agent_token : List ℕ → Result (Values (agent_token.fields))
decode_agent_token = decode agent_token

abbrev pub agent_done : Schema
agent_done = record { id = 34; fields = u32 ∷ text 129 ∷ [] }

abbrev pub encode_agent_done : Values (agent_done.fields) → List ℕ → ℕ → Result (List ℕ)
encode_agent_done = encode agent_done

abbrev pub decode_agent_done : List ℕ → Result (Values (agent_done.fields))
decode_agent_done = decode agent_done

abbrev pub mood_hint : Schema
mood_hint = record { id = 48; fields = u8 ∷ u8 ∷ u16 ∷ [] }

abbrev pub encode_mood_hint : Values (mood_hint.fields) → List ℕ → ℕ → Result (List ℕ)
encode_mood_hint = encode mood_hint

abbrev pub decode_mood_hint : List ℕ → Result (Values (mood_hint.fields))
decode_mood_hint = decode mood_hint

abbrev pub notification : Schema
notification = record { id = 49; fields = text 49 ∷ text 161 ∷ boolean ∷ [] }

abbrev pub encode_notification : Values (notification.fields) → List ℕ → ℕ → Result (List ℕ)
encode_notification = encode notification

abbrev pub decode_notification : List ℕ → Result (Values (notification.fields))
decode_notification = decode notification

abbrev pub ota_available : Schema
ota_available = record { id = 50; fields = text 25 ∷ text 257 ∷ u32 ∷ bytes 32 ∷ [] }

abbrev pub encode_ota_available : Values (ota_available.fields) → List ℕ → ℕ → Result (List ℕ)
encode_ota_available = encode ota_available

abbrev pub decode_ota_available : List ℕ → Result (Values (ota_available.fields))
decode_ota_available = decode ota_available

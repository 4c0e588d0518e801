-- ===== src/Wire/Examples.antt =====
-- Concrete frames for crates/k10s-protocol/src/stream.rs.
use k10s.Base.{◌≡◌, [], ◌∷◌, ok}
use k10s.Wire.Payload.{
  resize, encode_stream_payload, decode_stream_payload, decode-encode, decode-Explains, Explains,
}

decode-encode_example :
    decode_stream_payload (encode_stream_payload resize (104 ∷ 105 ∷ []))
    ≡ ok (record { kind = resize; payload = 104 ∷ 105 ∷ [] })
decode-encode_example = decode-encode resize (104 ∷ 105 ∷ [])

decode-Explains_example : Explains (1 ∷ 99 ∷ []) (decode_stream_payload (1 ∷ 99 ∷ []))
decode-Explains_example = decode-Explains (1 ∷ 99 ∷ [])

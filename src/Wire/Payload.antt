-- ===== src/Wire/Payload.antt =====
-- The binary frames of a log stream: `encode_stream_payload` and `decode_stream_payload` of
-- crates/k10s-protocol/src/stream.rs. A byte is a number below 256.
use k10s.Base.{
  ℕ, ◌<◌, ◌≡◌, refl, Bool, true, false, not, ◌||◌, ◌&&◌, leb, List, [], ◌∷◌, arith, length, ◌==◌,
  if◌then◌else◌, if_cases, Reply, ok, err, panic,
}

abbrev pub stream_payload_version : ℕ
stream_payload_version = 1

abbrev pub stdout : ℕ
stdout = 1

abbrev pub stderr : ℕ
stderr = 2

abbrev pub tty_output : ℕ
tty_output = 3

abbrev pub stdin : ℕ
stdin = 4

abbrev pub resize : ℕ
resize = 5

pub data StreamPayloadError : Type 0 where
  too_short : StreamPayloadError
  unknown_version : ℕ → StreamPayloadError
  unknown_kind : ℕ → StreamPayloadError

pub record DecodedStreamPayload : Type 0 where
  pub kind : ℕ
  pub payload : List ℕ

unfoldable pub encode_stream_payload : ℕ → List ℕ → List ℕ
encode_stream_payload kind payload = stream_payload_version ∷ kind ∷ payload

-- The `matches!` of the decoder.
abbrev pub is_payload_kind : ℕ → Bool
is_payload_kind kind =
    kind == stdout || (kind == stderr || (kind == tty_output || (kind == stdin || kind == resize)))

unfoldable pub decode_stream_payload : List ℕ → Reply StreamPayloadError DecodedStreamPayload
decode_stream_payload [] = err too_short
decode_stream_payload (version ∷ []) = err too_short
decode_stream_payload (version ∷ kind ∷ payload) =
    if not (version == stream_payload_version)
    then err (unknown_version version)
    else if not (is_payload_kind kind)
    then err (unknown_kind kind)
    else ok (record { kind = kind; payload = payload })

payload_kinds : (kind : ℕ) → is_payload_kind kind ≡ (leb 1 kind && leb kind 5)
payload_kinds kind = ground arith

-- What the decoder reads of an encoded frame is the kind and the bytes that were encoded, for each
-- of the kinds 1 to 5; it refuses a frame of every other kind, by its number.
pub decode-encode :
    (kind : ℕ) (payload : List ℕ)
    → decode_stream_payload (encode_stream_payload kind payload) ≡ (
        if leb 1 kind && leb kind 5
        then ok (record { kind = kind; payload = payload })
        else err (unknown_kind kind))
unfolding decode_stream_payload encode_stream_payload
decode-encode kind payload = rw (payload_kinds kind) (ground arith)

-- What the answer says of the frame: a success is the only frame that encodes it, and every error
-- names the byte that it is about.
abbrev pub Explains : List ℕ → Reply StreamPayloadError DecodedStreamPayload → Type 0
Explains frame (ok d) =
    (frame ≡ encode_stream_payload d.kind d.payload) × (is_payload_kind d.kind ≡ true)
Explains frame (err too_short) = length frame < 2
Explains frame (err (unknown_version version)) =
    (kind : ℕ) × (rest : List ℕ) × (frame ≡ version ∷ kind ∷ rest)
    × (version ≡ stream_payload_version → ⊥)
Explains frame (err (unknown_kind kind)) =
    (rest : List ℕ) × (frame ≡ encode_stream_payload kind rest) × (is_payload_kind kind ≡ false)
Explains frame panic = ⊥

-- On every frame the decoder answers what is true of it: a success only with the kind and the bytes
-- whose encoding the frame is; too short only below two bytes; an unknown version only for a whole
-- header whose version is that one and not 1; an unknown kind only for a header of version 1 whose
-- kind is that one and none of the five.
pub decode-Explains : (frame : List ℕ) → Explains frame (decode_stream_payload frame)
unfolding decode_stream_payload encode_stream_payload
decode-Explains [] = omega arith
decode-Explains (version ∷ []) = omega arith
decode-Explains (version ∷ kind ∷ payload) =
    let frame : List ℕ = version ∷ kind ∷ payload in
    if_cases (Explains frame) (not (version == stream_payload_version))
      (λ c. (kind, payload, refl, λ e. ground arith))
      (λ c.
        let v : version ≡ 1 = ground arith in
        if_cases (Explains frame) (not (is_payload_kind kind))
          (λ k. (payload, ground arith, ground arith)) (λ k. (ground arith, ground arith)))

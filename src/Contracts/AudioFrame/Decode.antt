-- ===== src/Contracts/AudioFrame/Decode.antt =====
-- packages/contracts/src/audio.ts: the decoder.
use palancar.Base.{
  ℕ, ◌+◌, ◌-◌, ◌*◌, ◌/◌, ◌%◌, ◌||◌, not, Option, none, some, List, [], ◌∷◌, ◌++◌, ltb, nat_beq,
  if◌then◌else◌, length, take, drop, Text, text_eq,
}
use palancar.Contracts.Constants.{
  protocol_version, binary_magic, audio_header_bytes, max_audio_payload_bytes,
  max_binary_message_bytes, max_utterance_samples,
}
use palancar.Contracts.AudioFrame.{
  magic, version, flags, uuid, bad_length, odd_payload, oversize, utterance_range, Result, ok, err,
  ◌>>◌, fail_if, uint32_max,
}

pub record AudioFrame : Type 0 where
  pub protocol_version : ℕ
  pub frame_flags : ℕ
  pub utterance_id : Text
  pub sequence : ℕ
  pub offset : ℕ
  pub payload_length : ℕ
  pub payload : List ℕ

-- A byte of the view at an index; a read out of range does not happen after the check on the length.
unfoldable pub byte_at : List ℕ → ℕ → ℕ
byte_at bytes i = elim (drop i bytes) [ [] ↦ 0 | b ∷ bs ↦ b ]

-- DataView.getUint16 and getUint32, big-endian.
unfoldable pub uint16_at : List ℕ → ℕ → ℕ
unfolding byte_at
uint16_at bytes i = byte_at bytes i * 256 + byte_at bytes (i + 1)

unfoldable pub uint32_at : List ℕ → ℕ → ℕ
unfolding byte_at
uint32_at bytes i =
    byte_at bytes i * 16_777_216
    + byte_at bytes (i + 1) * 65_536
    + byte_at bytes (i + 2) * 256
    + byte_at bytes (i + 3)

-- `bytes[6] >>> 4` and `bytes[8] & 0xc0` of the sixteen bytes.
unfoldable pub validate_uuid_bytes : List ℕ → Result (Unit {0})
unfolding byte_at
validate_uuid_bytes bytes =
    fail_if (not (nat_beq (byte_at bytes 6 / 16) 4) || not (nat_beq (byte_at bytes 8 / 64) 2)) uuid

unfoldable pub hex_digit : ℕ → ℕ
hex_digit n = if ltb n 10 then n + b'0' else n - 10 + b'a'

-- `byte.toString(16).padStart(2, '0')` of each byte, joined.
unfoldable pub hex_text : List ℕ → Text
unfolding hex_digit
hex_text [] = []
hex_text (b ∷ bs) = hex_digit (b / 16) ∷ hex_digit (b % 16) ∷ hex_text bs

unfoldable pub text_slice : Text → ℕ → ℕ → Text
text_slice s from to = take (to - from) (drop from s)

unfoldable pub format_hex : Text → Text
unfolding text_slice
format_hex hex =
    text_slice hex 0 8
    ++ (b'-'
        ∷ (text_slice hex 8 12
            ++ (b'-'
                ∷ (text_slice hex 12 16
                    ++ (b'-' ∷ (text_slice hex 16 20 ++ (b'-' ∷ drop 20 hex)))))))

unfoldable pub format_uuid : List ℕ → Text
unfolding format_hex hex_text
format_uuid bytes = format_hex (hex_text bytes)

unfoldable pub check_payload_length : ℕ → ℕ → Result (Unit {0})
check_payload_length received n = do
  fail_if (ltb max_audio_payload_bytes n) oversize
  fail_if (not (nat_beq (n % 2) 0)) odd_payload
  fail_if (ltb n 2) bad_length
  fail_if (not (nat_beq received (audio_header_bytes + n))) bad_length

unfoldable pub check_range : ℕ → ℕ → Result (Unit {0})
check_range offset n = do
  fail_if (ltb uint32_max (offset + n / 2)) utterance_range
  fail_if (ltb max_utterance_samples (offset + n / 2)) utterance_range

unfoldable pub decode_bytes : List ℕ → Result AudioFrame
decode_bytes bytes = do
  fail_if (ltb (length bytes) audio_header_bytes) bad_length
  fail_if (ltb max_binary_message_bytes (length bytes)) oversize
  fail_if (not (nat_beq (uint16_at bytes 0) binary_magic)) magic
  fail_if (not (nat_beq (byte_at bytes 2) protocol_version)) version
  fail_if (not (nat_beq (byte_at bytes 3) 0)) flags
  validate_uuid_bytes (take 16 (drop 4 bytes))
  check_payload_length (length bytes) (uint16_at bytes 28)
  check_range (uint32_at bytes 24) (uint16_at bytes 28)
  ok (record {
    protocol_version = protocol_version;
    frame_flags = 0;
    utterance_id = format_uuid (take 16 (drop 4 bytes));
    sequence = uint32_at bytes 20;
    offset = uint32_at bytes 24;
    payload_length = uint16_at bytes 28;
    payload = drop audio_header_bytes bytes;
  })

-- `none` stands for an input that is no Uint8Array.
unfoldable pub decode_audio_frame : Option (List ℕ) → Result AudioFrame
decode_audio_frame none = err bad_length
decode_audio_frame (some bytes) = decode_bytes bytes

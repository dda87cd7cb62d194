-- ===== src/Contracts/AudioFrame.antt =====
-- packages/contracts/src/audio.ts: the binary audio frame. A Uint8Array is a list of bytes.
pub mod Decode
pub mod RoundTrip
use palancar.Base.{
  ℕ, zero, suc, ◌+◌, ◌-◌, ◌*◌, ◌/◌, ◌%◌, Bool, true, false, not, Option, none, some, List, [], ◌∷◌,
  ◌++◌, ltb, leb, nat_beq, if◌then◌else◌, length, Text, Value, nat, minus, fraction, text, other,
}
use palancar.Contracts.Constants.{
  protocol_version, binary_magic, max_audio_payload_bytes, max_utterance_samples,
}
use palancar.Contracts.Uuid.{is_uuid}

pub data Reason : Type 0 where
  magic version flags uuid integer bad_length odd_payload oversize utterance_range : Reason

pub data Result {ℓ} (A : Type ℓ) : Type ℓ where
  ok : A → Result A
  err : Reason → Result A

infixl 5 ◌>>=◌ ◌>>◌
abbrev pub ◌>>=◌ {ℓ κ} : {X : Type ℓ} {Y : Type κ} → Result X → (X → Result Y) → Result Y
err fault >>= next = err fault
ok x >>= next = next x

abbrev pub ◌>>◌ {ℓ} : {Y : Type ℓ} → Result (Unit {0}) → Result Y → Result Y
first >> second = first >>= λ done. second

abbrev pub fail_if : Bool → Reason → Result (Unit {0})
fail_if true e = err e
fail_if false e = ok tt

abbrev pub uint32_max : ℕ
uint32_max = 4_294_967_295

-- `none` stands for a payload that is no Uint8Array.
pub record FrameInput : Type 0 where
  pub utterance_id : Text
  pub sequence : Value
  pub offset : Value
  pub payload : Option (List ℕ)
  pub frame_flags : Option Value

pub uint32 : Value → Result ℕ
uint32 (nat n) = if leb n uint32_max then ok n else err integer
uint32 (minus n) = err integer
uint32 fraction = err integer
uint32 (text s) = err integer
uint32 other = err integer

-- The value of a hexadecimal digit, as `Number.parseInt(pair, 16)` reads it.
pub hex_value : ℕ → ℕ
hex_value c = if leb c b'9' then c - b'0' else c - b'a' + 10

-- `value.replaceAll('-', '')`
pub strip_dashes : Text → Text
strip_dashes [] = []
strip_dashes (c ∷ s) = let rest = strip_dashes s in if nat_beq c b'-' then rest else c ∷ rest

pub hex_pairs : Text → List ℕ
unfolding hex_value
hex_pairs [] = []
hex_pairs (a ∷ []) = []
hex_pairs (a ∷ b ∷ s) = (hex_value a * 16 + hex_value b) ∷ hex_pairs s

unfoldable pub parse_uuid : Text → Result (List ℕ)
unfolding strip_dashes hex_pairs
parse_uuid s = if is_uuid s then ok (hex_pairs (strip_dashes s)) else err uuid

pub validate_flags : Option Value → Result ℕ
validate_flags none = ok 0
validate_flags (some (nat zero)) = ok 0
validate_flags (some (nat (suc n))) = err flags
validate_flags (some (minus n)) = err flags
validate_flags (some fraction) = err integer
validate_flags (some (text s)) = err integer
validate_flags (some other) = err integer

pub is_array : Option (List ℕ) → Result (List ℕ)
is_array none = err bad_length
is_array (some payload) = ok payload

-- The checks that encoding and decoding share, in the order of the encoder.
pub check_payload : List ℕ → ℕ → Result (Unit {0})
check_payload payload offset = do
  fail_if (ltb max_audio_payload_bytes (length payload)) oversize
  fail_if (not (nat_beq (length payload % 2) 0)) odd_payload
  fail_if (ltb (length payload) 2) bad_length
  fail_if (ltb uint32_max (offset + length payload / 2)) utterance_range
  fail_if (ltb max_utterance_samples (offset + length payload / 2)) utterance_range

-- DataView.setUint16 and setUint32, big-endian.
abbrev pub bytes16 : ℕ → List ℕ
bytes16 n = n / 256 % 256 ∷ n % 256 ∷ []

abbrev pub bytes32 : ℕ → List ℕ
bytes32 n = n / 16_777_216 % 256 ∷ n / 65_536 % 256 ∷ n / 256 % 256 ∷ n % 256 ∷ []

unfoldable pub lay_out : List ℕ → ℕ → ℕ → ℕ → List ℕ → List ℕ
lay_out uuid_bytes frame_flags sequence offset payload =
    bytes16 binary_magic
    ++ (protocol_version
        ∷ frame_flags
        ∷ (uuid_bytes
            ++ (bytes32 sequence ++ (bytes32 offset ++ (bytes16 (length payload) ++ payload)))))

unfoldable pub encode_audio_frame : FrameInput → Result (List ℕ)
unfolding uint32 parse_uuid validate_flags is_array check_payload lay_out
encode_audio_frame frame = do
  uuid_bytes ← parse_uuid frame.utterance_id
  frame_flags ← validate_flags frame.frame_flags
  sequence ← uint32 frame.sequence
  offset ← uint32 frame.offset
  payload ← is_array frame.payload
  check_payload payload offset
  ok (lay_out uuid_bytes frame_flags sequence offset payload)

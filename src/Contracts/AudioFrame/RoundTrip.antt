-- ===== src/Contracts/AudioFrame/RoundTrip.antt =====
-- packages/contracts/src/audio.ts: what encoding writes, decoding reads.
pub mod Hex
use palancar.Base.{
  ℕ, zero, suc, ◌+◌, ◌-◌, ◌*◌, ◌/◌, ◌%◌, ◌^◌, ◌≤◌, ◌<◌, ◌≡◌, refl, sym, ap, ◌∙◌, subst, ◌≢◌, ◌↔◌,
  ◌⊎◌, inl, inr, Bool, true, false, ◌&&◌, ◌||◌, not, min, Option, none, some, List, [], ◌∷◌, ◌++◌,
  map, append-nil, append_assoc, arith, ltb, leb, nat_beq, nat_beq_iff, ltb→lt, lt→ltb, leb→le,
  if◌then◌else◌, Bool-cases, Option-cases, Eq, ◌==◌, length, get_elem?, set, take, drop, replicate,
  length-append, take-append-drop, length-take, length-drop, All, All-append, All-split, Text,
  codes, text_beq, text_beq_iff, text_eq, Value, nat, minus, fraction, text, other, map_get,
  map_set, map_delete, map_has,
}
use palancar.Contracts.Uuid.{is_uuid}
use palancar.Contracts.Constants.{
  protocol_version, binary_magic, audio_header_bytes, max_audio_payload_bytes,
  max_binary_message_bytes, max_utterance_samples,
}
use palancar.Contracts.AudioFrame.{
  Reason, uuid, integer, oversize, odd_payload, bad_length, utterance_range, Result, ok, err, ◌>>=◌,
  ◌>>◌, fail_if, uint32_max, FrameInput, uint32, strip_dashes, hex_pairs, parse_uuid,
  validate_flags, is_array, check_payload, bytes16, bytes32, lay_out, encode_audio_frame,
}
use palancar.Contracts.AudioFrame.Decode.{
  AudioFrame, byte_at, uint16_at, uint32_at, validate_uuid_bytes, format_uuid, check_payload_length,
  check_range, decode_bytes, decode_audio_frame,
}
use palancar.Contracts.AudioFrame.RoundTrip.Hex.{
  drop-exact, take-exact, format_uuid-hex_pairs, length-uuid_bytes, validate-uuid_bytes,
}

>>=-ok {ℓ κ} :
    {X : Type ℓ} {Y : Type κ} (m : Result X) (k : X → Result Y) (y : Y)
    → (m >>= k) ≡ ok y
    → (x : X) × (m ≡ ok x) × (k x ≡ ok y)
>>=-ok (err r) k y h = cc
>>=-ok (ok x) k y h = (x, refl, h)

fail_if-ok : (b : Bool) (r : Reason) (u : Unit {0}) → fail_if b r ≡ ok u → b ≡ false
fail_if-ok true r u h = cc
fail_if-ok false r u h = refl

-- What the encoder has checked when it returns bytes.
record IsAccepted (input : FrameInput) (bytes : List ℕ) (s o : ℕ) (p : List ℕ) : Type 0 where
  pub id : is_uuid input.utterance_id ≡ true
  pub sequence : input.sequence ≡ nat s
  pub offset : input.offset ≡ nat o
  pub payload : input.payload ≡ some p
  pub sequence_bound : s ≤ uint32_max
  pub range : o + length p / 2 ≤ max_utterance_samples
  pub width : (2 ≤ length p) × (length p ≤ max_audio_payload_bytes) × (length p % 2 ≡ 0)
  pub written : bytes ≡ lay_out (hex_pairs (strip_dashes input.utterance_id)) 0 s o p

parse_uuid-ok :
    (t : Text) (bytes : List ℕ)
    → parse_uuid t ≡ ok bytes
    → (is_uuid t ≡ true) × (bytes ≡ hex_pairs (strip_dashes t))
unfolding parse_uuid
parse_uuid-ok t bytes h = ground arith

uint32-ok : (v : Value) (n : ℕ) → uint32 v ≡ ok n → (v ≡ nat n) × (n ≤ uint32_max)
unfolding uint32
uint32-ok v n h = ground arith

validate_flags-ok : (v : Option Value) (n : ℕ) → validate_flags v ≡ ok n → n ≡ 0
unfolding validate_flags
validate_flags-ok v n h = ground arith

is_array-ok : (o : Option (List ℕ)) (p : List ℕ) → is_array o ≡ ok p → o ≡ some p
unfolding is_array
is_array-ok o p h = ground arith

check_payload-ok :
    (p : List ℕ) (o : ℕ) (u : Unit {0})
    → check_payload p o ≡ ok u
    → (o + length p / 2 ≤ max_utterance_samples)
      × (2 ≤ length p)
      × (length p ≤ max_audio_payload_bytes)
      × (length p % 2 ≡ 0)
unfolding check_payload
check_payload-ok p o u h = ground arith

written-ok :
    (ub id : List ℕ) (f s o : ℕ) (p bytes : List ℕ)
    → Path (Result (List ℕ)) (ok (lay_out ub f s o p)) (ok bytes)
    → f ≡ 0
    → ub ≡ id
    → bytes ≡ lay_out id 0 s o p
written-ok ub id f s o p bytes h j k = cc

encode-IsAccepted :
    (input : FrameInput) (bytes : List ℕ)
    → encode_audio_frame input ≡ ok bytes
    → (s : ℕ) × (o : ℕ) × (p : List ℕ) × IsAccepted input bytes s o p
unfolding encode_audio_frame
encode-IsAccepted input bytes h =
    let (ub, e1, h1) = >>=-ok (parse_uuid input.utterance_id) _ bytes h in
    let (f, e2, h2) = >>=-ok (validate_flags input.frame_flags) _ bytes h1 in
    let (s, e3, h3) = >>=-ok (uint32 input.sequence) _ bytes h2 in
    let (o, e4, h4) = >>=-ok (uint32 input.offset) _ bytes h3 in
    let (p, e5, h5) = >>=-ok (is_array input.payload) _ bytes h4 in
    let (u, e6, h6) = >>=-ok (check_payload p o) _ bytes h5 in
    let (r, w2, w3, w4) = check_payload-ok p o u e6 in
    let (uid, ubs) = parse_uuid-ok input.utterance_id ub e1 in
    (
      s,
      o,
      p,
      record {
        id = uid;
        sequence = (uint32-ok input.sequence s e3).0;
        offset = (uint32-ok input.offset o e4).0;
        payload = is_array-ok input.payload p e5;
        sequence_bound = (uint32-ok input.sequence s e3).1;
        range = r;
        width = (w2, w3, w4);
        written =
            written-ok ub (hex_pairs (strip_dashes input.utterance_id)) f s o p bytes h6
              (validate_flags-ok input.frame_flags f e2) ubs;
      },
    )

word32 :
    (n : ℕ)
    → n ≤ uint32_max
    → n / 16_777_216 % 256 * 16_777_216 + n / 65_536 % 256 * 65_536 + n / 256 % 256 * 256 + n % 256
      ≡ n
word32 n h = omega arith

-- The frame that the bytes of an accepted input stand for.
abbrev pub frame_of : Text → ℕ → ℕ → List ℕ → AudioFrame
frame_of id s o p = record {
  protocol_version = protocol_version;
  frame_flags = 0;
  utterance_id = id;
  sequence = s;
  offset = o;
  payload_length = length p;
  payload = p;
}

module _ {ℓ} {X : Type ℓ} where
  drop-past : (x y : List X) (k i : ℕ) → k ≡ length x + i → drop k (x ++ y) ≡ drop i y
  drop-past [] y k i h = ap (λ n. drop n y) (omega (arith, h))
  drop-past (c ∷ x) y zero i h = ground (arith, h)
  drop-past (c ∷ x) y (suc k) i h = drop-past x y k i (omega (arith, h))

byte_at-past : (x y : List ℕ) (k i : ℕ) → k ≡ length x + i → byte_at (x ++ y) k ≡ byte_at y i
unfolding byte_at
byte_at-past x y k i h = ap (λ l. elim l [ [] ↦ 0 | b ∷ bs ↦ b ]) (drop-past x y k i h)

module _ (u : List ℕ) (s o : ℕ) (p : List ℕ) (sixteen : length u ≡ 16) where
  abbrev before : List ℕ
  before = 80 ∷ 65 ∷ protocol_version ∷ 0 ∷ u

  abbrev after : List ℕ
  after = bytes32 s ++ (bytes32 o ++ (bytes16 (length p) ++ p))

  laid_out : lay_out u 0 s o p ≡ before ++ after
  unfolding lay_out
  laid_out = refl

  later : (i : ℕ) → byte_at (lay_out u 0 s o p) (20 + i) ≡ byte_at after i
  later i = rw laid_out (byte_at-past before after (20 + i) i (omega (arith, sixteen)))

  sequence_read : s ≤ uint32_max → uint32_at (lay_out u 0 s o p) 20 ≡ s
  unfolding uint32_at
  sequence_read h = rw (later 0, later 1, later 2, later 3) (word32 s h)

  offset_read : o ≤ uint32_max → uint32_at (lay_out u 0 s o p) 24 ≡ o
  unfolding uint32_at
  offset_read h = rw (later 4, later 5, later 6, later 7) (word32 o h)

  length_read : length p ≤ max_audio_payload_bytes → uint16_at (lay_out u 0 s o p) 28 ≡ length p
  unfolding uint16_at
  length_read h = rw (later 8, later 9) (omega (arith, h))

  start_read :
      (uint16_at (lay_out u 0 s o p) 0 ≡ binary_magic)
      × (byte_at (lay_out u 0 s o p) 2 ≡ protocol_version)
      × (byte_at (lay_out u 0 s o p) 3 ≡ 0)
  unfolding uint16_at byte_at lay_out
  start_read = (refl, refl, refl)

  total_length : length (lay_out u 0 s o p) ≡ audio_header_bytes + length p
  total_length = rw (laid_out, length-append u after) (omega (arith, sixteen))

  id_read : take 16 (drop 4 (lay_out u 0 s o p)) ≡ u
  id_read = rw laid_out (take-exact 16 u after sixteen)

  payload_read : drop audio_header_bytes (lay_out u 0 s o p) ≡ p
  payload_read = rw laid_out (drop-past u after 26 10 (omega (arith, sixteen)))

check_payload_length-ok :
    (n : ℕ)
    → 2 ≤ n
    → n ≤ max_audio_payload_bytes
    → n % 2 ≡ 0
    → check_payload_length (audio_header_bytes + n) n ≡ ok tt
unfolding check_payload_length
check_payload_length-ok n h2 hm he = ground arith

check_range-ok : (o n : ℕ) → o + n / 2 ≤ max_utterance_samples → check_range o n ≡ ok tt
unfolding check_range
check_range-ok o n h = ground arith

module _ (u : List ℕ) (s o : ℕ) (p : List ℕ) (sixteen : length u ≡ 16) where
  pub decode-lay_out :
      s ≤ uint32_max
      → o + length p / 2 ≤ max_utterance_samples
      → 2 ≤ length p
      → length p ≤ max_audio_payload_bytes
      → length p % 2 ≡ 0
      → validate_uuid_bytes u ≡ ok tt
      → decode_bytes (lay_out u 0 s o p) ≡ ok (frame_of (format_uuid u) s o p)
  unfolding decode_bytes
  decode-lay_out hs ho h2 hm he hu =
      let short : ltb (audio_header_bytes + length p) audio_header_bytes ≡ false = ground arith in
      let long : ltb max_binary_message_bytes (audio_header_bytes + length p) ≡ false =
        ground arith in
      let (magic_read, version_read, flags_read) = start_read u s o p sixteen in
      let checked = check_payload_length-ok (length p) h2 hm he in
      rw (
        total_length u s o p sixteen,
        length_read u s o p sixteen hm,
        offset_read u s o p sixteen (omega (arith, ho)),
        sequence_read u s o p sixteen hs,
        id_read u s o p sixteen,
        payload_read u s o p sixteen,
        hu,
        short,
        long,
        magic_read,
        version_read,
        flags_read,
        checked,
        check_range-ok o (length p) ho,
      )

-- Bytes that `encode_audio_frame` returns are decoded again: `decode_audio_frame` returns the frame
-- that has the identifier, the sequence number, the offset and the payload of the input.
pub decode-encode :
    (input : FrameInput) (bytes : List ℕ)
    → encode_audio_frame input ≡ ok bytes
    → (s : ℕ) × (o : ℕ) × (p : List ℕ) × (input.sequence ≡ nat s)
      × (input.offset ≡ nat o)
      × (input.payload ≡ some p)
      × (decode_audio_frame (some bytes) ≡ ok (frame_of input.utterance_id s o p))
unfolding decode_audio_frame
decode-encode input bytes h =
    let (s, o, p, a) = encode-IsAccepted input bytes h in
    let id = hex_pairs (strip_dashes input.utterance_id) in
    let (w2, wm, we) = a.width in
    let read =
      decode-lay_out id s o p (length-uuid_bytes input.utterance_id a.id) a.sequence_bound a.range
        w2 wm we (validate-uuid_bytes input.utterance_id a.id) in
    (
      s,
      o,
      p,
      a.sequence,
      a.offset,
      a.payload,
      rw (a.written, read, format_uuid-hex_pairs input.utterance_id a.id),
    )

-- ===== src/Audio/Delivery.antt =====
-- packages/audio/src: the client queue's frames on their way to the relay's acceptor, which
-- apps/relay/src/session.ts decodes and accepts one by one. The link may lose, repeat and reorder
-- them: a schedule is a list of positions in the list of frames sent.
pub mod Entries
pub mod Schedule
pub mod Arrival
use palancar.Base.{
  ℕ, zero, suc, ◌+◌, ◌-◌, ◌*◌, ◌/◌, ◌%◌, ◌≤◌, ◌<◌, ◌≡◌, refl, sym, ap, ◌∙◌, subst, ◌≢◌, ◌↔◌, ◌⊎◌,
  inl, inr, Bool, true, false, ◌&&◌, ◌||◌, not, min, Option, none, some, List, [], ◌∷◌, ◌++◌, map,
  append-nil, append_assoc, arith, ltb, leb, nat_beq, nat_beq_iff, ltb→lt, lt→ltb, leb→le,
  if◌then◌else◌, Bool-cases, Option-cases, Eq, ◌==◌, length, get_elem?, set, take, drop, replicate,
  length-append, length-replicate, take-append-drop, length-take, length-drop, All, All-append,
  All-split, Text, codes, text_beq, text_beq_iff, text_eq, Value, nat, minus, fraction, text, other,
  map_get, map_set, map_delete, map_has, nat_eq,
}
use palancar.Contracts.Constants.{protocol_version, max_utterance_samples, max_audio_payload_bytes}
use palancar.Contracts.Uuid.{is_uuid}
use palancar.Contracts.AudioFrame.{hex_pairs, strip_dashes, uint32_max}
use palancar.Contracts.AudioFrame
use palancar.Contracts.AudioFrame.Decode.{AudioFrame, decode_audio_frame}
use palancar.Contracts.AudioFrame.RoundTrip.{frame_of, decode-lay_out}
use palancar.Contracts.AudioFrame.RoundTrip.Hex.{
  format_uuid-hex_pairs, length-uuid_bytes, validate-uuid_bytes,
}
use palancar.Audio.Framer.Loops.{flat}
use palancar.Audio.Queue
use palancar.Audio.Queue.{Frame}
use palancar.Audio.Queue.Frames
use palancar.Audio.Queue.Frames.{framed, frames, IsPayload, AllPayloads}
use palancar.Audio.Acceptor.{
  Options, Acceptor, ValidatedFrame, Candidate, Acceptance, accepted, Validation, valid, refused,
  validate_frame, check_limits, read_frame, accept,
}
use palancar.Audio.Acceptor.Specification.{samples, extend, respond, represents}
use palancar.Audio.Acceptor.Stream.{IsRun, samples-append, samples-snoc}
use palancar.Audio.Acceptor.Refinement.{
  IsStream, IsValid, charge, forwarded, extend-cases, accept-represents,
}

-- The decoder's frame, as the acceptor is given it.
abbrev pub candidate_of : AudioFrame → Candidate
candidate_of f = record {
  protocol_version = nat f.protocol_version;
  frame_flags = nat f.frame_flags;
  utterance_id = text f.utterance_id;
  sequence = nat f.sequence;
  offset = nat f.offset;
  payload_length = nat f.payload_length;
  payload = some f.payload;
}

accept_decoded : Acceptor → AudioFrame.Result AudioFrame → Acceptor × List ℕ
accept_decoded a (AudioFrame.err reason) = (a, [])
accept_decoded a (AudioFrame.ok f) =
    let r = accept a (some (candidate_of f)) in (r.0, forwarded r.1)

-- One message; a position out of range sends nothing.
unfoldable pub receive : Acceptor → Option Frame → Acceptor × List ℕ
unfolding accept_decoded
receive a none = (a, [])
receive a (some f) = accept_decoded a (decode_audio_frame (some f.bytes))

-- The bytes forwarded over a schedule.
unfoldable pub deliver : Acceptor → List Frame → List ℕ → Acceptor × List ℕ
deliver a sent [] = (a, [])
deliver a sent (k ∷ ks) =
    let first = receive a (get_elem? sent k) in
    let rest = deliver first.0 sent ks in (rest.0, first.1 ++ rest.1)

-- How far a receiver that takes only the next frame gets, of a number of frames.
unfoldable pub next_of : ℕ → ℕ → ℕ → ℕ
next_of total n k = if nat_beq k n && ltb n total then n + 1 else n

unfoldable pub advance : ℕ → ℕ → List ℕ → ℕ
advance total n [] = n
advance total n (k ∷ ks) = advance total (next_of total n k) ks

pub decode-framed :
    (u : Text) (s o : ℕ) (p : List ℕ)
    → is_uuid u ≡ true
    → IsPayload p
    → s ≤ uint32_max
    → o + length p / 2 ≤ max_utterance_samples
    → decode_audio_frame (some (framed u s o p).bytes) ≡ AudioFrame.ok (frame_of u s o p)
unfolding decode_audio_frame framed Queue.frame_of
decode-framed u s o p id v hs ho = rw (
  decode-lay_out (hex_pairs (strip_dashes u)) s o p (length-uuid_bytes u id) hs ho v.nonempty
      v.small v.even (validate-uuid_bytes u id),
  format_uuid-hex_pairs u id,
)

-- The fingerprint of a payload.
abbrev pub entry : Text → ℕ → ℕ → List ℕ → ValidatedFrame
entry u s o p = record {
  utterance_id = u;
  sequence = s;
  offset = o;
  sample_count = length p / 2;
  payload = p;
}

pub validate-framed :
    (options : Options) (u : Text) (s o : ℕ) (p : List ℕ)
    → is_uuid u ≡ true
    → IsPayload p
    → s ≤ uint32_max
    → length p ≤ options.max_audio_payload_bytes
    → o + length p / 2 ≤ options.max_utterance_samples
    → o ≤ uint32_max
    → validate_frame options (some (candidate_of (frame_of u s o p))) ≡ valid (entry u s o p)
unfolding validate_frame check_limits
validate-framed options u s o p id v hs hp ho hm = ground arith

pub get_elem?-frames :
    (u : Text) (k s o : ℕ) (ps : List (List ℕ)) (p : List ℕ)
    → get_elem? ps k ≡ some p
    → get_elem? (frames u s o ps) k ≡ some (framed u (s + k) (o + Frames.samples (take k ps)) p)
unfolding frames Frames.samples
get_elem?-frames u k s o [] p h = cc
get_elem?-frames u zero s o (q ∷ ps) p h =
    let a : s + 0 ≡ s = omega arith in let b : o + 0 ≡ o = omega arith in ground (arith, a, b)
get_elem?-frames u (suc k) s o (q ∷ ps) p h =
    let a : s + 1 + k ≡ s + suc k = omega arith in
    let b : o + length q / 2 + Frames.samples (take k ps)
        ≡ o + (length q / 2 + Frames.samples (take k ps)) =
      omega arith in
    rw (← a, ← b) (get_elem?-frames u k (s + 1) (o + length q / 2) ps p h)

pub get_elem?-frames-none :
    (u : Text) (k s o : ℕ) (ps : List (List ℕ))
    → get_elem? ps k ≡ none
    → get_elem? (frames u s o ps) k ≡ none
unfolding frames
get_elem?-frames-none u k s o [] h = refl
get_elem?-frames-none u zero s o (q ∷ ps) h = cc
get_elem?-frames-none u (suc k) s o (q ∷ ps) h =
    get_elem?-frames-none u k (s + 1) (o + length q / 2) ps h

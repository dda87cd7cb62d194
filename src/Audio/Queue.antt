-- ===== src/Audio/Queue.antt =====
-- packages/audio/src/client-queue.ts: the client's queue of frames that are kept for replay.
-- `#retained` is a list of slots, of which `none` is a slot that was set to `undefined`; a slot out
-- of range reads as `none` too. An offset given by a caller is a value, since it may be any number.
pub mod Replay
pub mod Slots
pub mod Frames
pub mod Invariant
pub mod Creating
pub mod Flushing
pub mod Capture
pub mod Acknowledging
use palancar.Base.{
  ℕ, zero, suc, ◌+◌, ◌-◌, ◌*◌, ◌/◌, ◌%◌, ◌≤◌, ◌<◌, ◌≡◌, refl, Bool, true, false, ◌&&◌, ◌||◌, not,
  Option, none, some, List, [], ◌∷◌, ◌++◌, map, arith, ltb, leb, nat_beq, if◌then◌else◌, length,
  take, drop, set, get_elem?, Text, Value, nat, minus, fraction, text, other,
}
use palancar.Contracts.Constants.{
  max_audio_payload_bytes, max_unacknowledged_samples, max_utterance_samples,
}
use palancar.Contracts.Uuid.{is_uuid}
use palancar.Contracts.AudioFrame.{FrameInput, encode_audio_frame}
use palancar.Contracts.AudioFrame
use palancar.Audio.Framer.{
  Framer, Options, Limit, whole, not_whole, Goal, ratio, not_finite, pending_byte_count,
  FlushResult, complete, incomplete_sample,
}
use palancar.Audio.Framer

-- The limits that are integers; a number that is none fails `assertLimits` at once.
pub record Limits : Type 0 where
  pub max_audio_payload_bytes : ℕ
  pub max_unacknowledged_samples : ℕ
  pub max_retained_replay_samples : ℕ
  pub max_utterance_samples : ℕ
  pub coalescing_target_bytes : Option Goal

-- What can be thrown: the queue's own error, the framer's, the codec's.
pub data Fault : Type 0 where
  invalid_limits invalid_uuid : Fault
  framer_fault : Framer.Reason → Fault
  frame_fault : AudioFrame.Reason → Fault

pub data Result {ℓ} (A : Type ℓ) : Type ℓ where
  ok : A → Result A
  threw : Fault → Result A

infixl 5 ◌>>=◌
abbrev pub ◌>>=◌ {ℓ κ} : {X : Type ℓ} {Y : Type κ} → Result X → (X → Result Y) → Result Y
threw fault >>= next = threw fault
ok x >>= next = next x

-- `EncodedAudioFrame` with the `endOffset` of `RetainedAudioFrame`.
pub record Frame : Type 0 where
  pub sequence : ℕ
  pub offset : ℕ
  pub sample_count : ℕ
  pub end_offset : ℕ
  pub bytes : List ℕ

pub record Queue : Type 0 where
  pub limits : Limits
  pub utterance_id : Text
  pub framer : Framer
  pub next_sequence : ℕ
  pub highest_acknowledged : ℕ
  pub next_captured : ℕ
  pub next_encoded : ℕ
  pub retained : List (Option Frame)
  pub head : ℕ

pub data LimitName : Type 0 where
  unacknowledged_samples retained_replay_samples utterance_samples : LimitName

pub data PushResult : Type 0 where
  accepted : List Frame → PushResult
  overflow : ℕ → List LimitName → PushResult

pub data QueueFlushResult : Type 0 where
  flushed : List Frame → QueueFlushResult
  flushed_incomplete : List Frame → ℕ → QueueFlushResult

pub data AckReason : Type 0 where
  non_integer negative beyond_captured interior_frame : AckReason

pub data AckResult : Type 0 where
  applied : ℕ → ℕ → AckResult
  stale : ℕ → AckResult
  invalid : AckReason → Value → AckResult

pub data ReplayReason : Type 0 where
  invalid_offset older_than_retained newer_than_captured interior_replay : ReplayReason

pub data ReplayResult : Type 0 where
  replayed : ℕ → List Frame → ReplayResult
  non_resumable : ReplayReason → Value → ReplayResult

positive_goal : Option Goal → Bool
positive_goal none = true
positive_goal (some (ratio n d)) = ltb 0 n
positive_goal (some not_finite) = false

unfoldable pub limits_valid : Limits → Bool
unfolding positive_goal
limits_valid l =
    leb 2 l.max_audio_payload_bytes
    && leb l.max_audio_payload_bytes max_audio_payload_bytes
    && nat_beq (l.max_audio_payload_bytes % 2) 0
    && leb 1 l.max_unacknowledged_samples
    && leb l.max_unacknowledged_samples max_unacknowledged_samples
    && leb 1 l.max_retained_replay_samples
    && leb l.max_retained_replay_samples l.max_unacknowledged_samples
    && leb 1 l.max_utterance_samples
    && leb l.max_utterance_samples max_utterance_samples
    && positive_goal l.coalescing_target_bytes

unfoldable pub framer_options : Limits → Options
framer_options l = record {
  max_payload_bytes = some (whole l.max_audio_payload_bytes);
  max_audio_payload_bytes = none;
  coalescing_target_bytes = l.coalescing_target_bytes;
  coalescing_target_samples = none;
  coalescing_target_ms = none;
  max_retained_replay_samples = some (whole l.max_retained_replay_samples);
  max_unacknowledged_samples = some (whole l.max_unacknowledged_samples);
}

from_framer : Framer.Result Framer → Result Framer
from_framer (Framer.ok f) = ok f
from_framer (Framer.err e) = threw (framer_fault e)

assert_that : Bool → Fault → Result (Unit {0})
assert_that true e = ok tt
assert_that false e = threw e

unfoldable pub create : Text → Limits → Result Queue
unfolding from_framer assert_that
create utterance_id limits = do
  _ ← assert_that (is_uuid utterance_id) invalid_uuid
  _ ← assert_that (limits_valid limits) invalid_limits
  framer ← from_framer (Framer.create (framer_options limits))
  ok (record {
    limits = limits;
    utterance_id = utterance_id;
    framer = framer;
    next_sequence = 0;
    highest_acknowledged = 0;
    next_captured = 0;
    next_encoded = 0;
    retained = [];
    head = 0;
  })

unfoldable pub frame_of : ℕ → ℕ → List ℕ → List ℕ → Frame
frame_of sequence offset payload bytes = record {
  sequence = sequence;
  offset = offset;
  sample_count = length payload / 2;
  end_offset = offset + length payload / 2;
  bytes = bytes;
}

pub encode : Text → ℕ → ℕ → List ℕ → Result Frame
unfolding frame_of
encode utterance_id sequence offset payload =
    elim (encode_audio_frame (record {
      utterance_id = utterance_id;
      sequence = nat sequence;
      offset = nat offset;
      payload = some payload;
      frame_flags = none;
    })) [
      | AudioFrame.err e ↦ threw (frame_fault e)
      | AudioFrame.ok bytes ↦ ok (frame_of sequence offset payload bytes)
    ]

-- The loop of `#encodePayloads`: the frames, and the next sequence and offset.
pub encode_from : Text → ℕ → ℕ → List (List ℕ) → Result (List Frame × ℕ × ℕ)
unfolding encode
encode_from utterance_id sequence offset [] = ok ([], sequence, offset)
encode_from utterance_id sequence offset (p ∷ ps) = do
  f ← encode utterance_id sequence offset p
  rest ← encode_from utterance_id (sequence + 1) (offset + length p / 2) ps
  ok (f ∷ rest.0, rest.1, rest.2)

unfoldable pub encode_payloads : Queue → List (List ℕ) → Queue × Result (List Frame)
unfolding encode_from
encode_payloads q payloads =
    elim (encode_from q.utterance_id q.next_sequence q.next_encoded payloads) [
      | threw e ↦ (q, threw e)
      | ok (frames, sequence, offset) ↦ (
        record q {
          retained = q.retained ++ map some frames;
          next_sequence = sequence;
          next_encoded = offset;
        },
        ok frames,
      )
    ]

-- The limits that a push would exceed, in the order of the source.
unfoldable pub exceeded : Limits → ℕ → ℕ → List LimitName
exceeded l in_flight captured =
    (if ltb l.max_unacknowledged_samples in_flight then unacknowledged_samples ∷ [] else [])
    ++ ((if ltb l.max_retained_replay_samples in_flight then retained_replay_samples ∷ [] else [])
        ++ (if ltb l.max_utterance_samples captured then utterance_samples ∷ [] else []))

unfoldable pub new_samples : Queue → List ℕ → ℕ
new_samples q input = (length input + pending_byte_count q.framer) / 2

unfoldable pub captured : Queue × Result (List Frame) → ℕ → Queue × Result PushResult
captured (q, threw e) n = (q, threw e)
captured (q, ok frames) n = (record q { next_captured = n }, ok (accepted frames))

unfoldable pub push_within : List LimitName → Queue → List ℕ → ℕ → Queue × Result PushResult
push_within (name ∷ names) q input new = (q, ok (overflow new (name ∷ names)))
push_within [] q input new =
    let framed = Framer.push q.framer input in
    captured (encode_payloads (record q { framer = framed.0 }) framed.1) (q.next_captured + new)

unfoldable pub push : Queue → List ℕ → Queue × Result PushResult
push q input =
    let new = new_samples q input in
    let in_flight = q.next_captured - q.highest_acknowledged + new in
    push_within (exceeded q.limits in_flight (q.next_captured + new)) q input new

pub flush_frames : FlushResult → List (List ℕ)
flush_frames (complete payloads) = payloads
flush_frames (incomplete_sample payloads b) = payloads

pub flush_outcome : FlushResult → Result (List Frame) → Result QueueFlushResult
flush_outcome (complete payloads) r = r >>= λ frames. ok (flushed frames)
flush_outcome (incomplete_sample payloads b) r = r >>= λ frames. ok (flushed_incomplete frames b)

unfoldable pub flush : Queue → Queue × Result QueueFlushResult
unfolding flush_frames flush_outcome
flush q =
    let flushed_framer = Framer.flush q.framer in
    let encoded =
      encode_payloads (record q { framer = flushed_framer.0 }) (flush_frames flushed_framer.1) in
    (encoded.0, flush_outcome flushed_framer.1 encoded.1)

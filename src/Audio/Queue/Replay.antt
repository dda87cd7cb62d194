-- ===== src/Audio/Queue/Replay.antt =====
-- packages/audio/src/client-queue.ts: acknowledgement, replay and reset of the client's queue.
use palancar.Base.{
  ℕ, zero, suc, ◌+◌, ◌-◌, ◌/◌, Bool, false, ◌||◌, not, Option, none, some, List, [], ◌∷◌, ltb, leb,
  nat_beq, if◌then◌else◌, length, drop, set, Text, Value, nat, minus, fraction, text, other,
}
use palancar.Contracts.Constants.{max_audio_payload_bytes}
use palancar.Contracts.Uuid.{is_uuid}
use palancar.Audio.Framer
use palancar.Audio.Slots.{slot_at}
use palancar.Audio.Queue.{
  Queue, Frame, AckResult, applied, stale, invalid, non_integer, negative, beyond_captured,
  interior_frame, ReplayResult, replayed, non_resumable, invalid_offset, older_than_retained,
  newer_than_captured, interior_replay, Result, ok, threw, invalid_uuid, encode_payloads,
}

-- The two loops that move an index past frames; `passes` is the test on the frame.
unfoldable pub ended_before : ℕ → Option Frame → Bool
ended_before offset none = false
ended_before offset (some f) = ltb f.end_offset offset

unfoldable pub starts_before : ℕ → Option Frame → Bool
starts_before offset none = false
starts_before offset (some f) = ltb f.offset offset

unfoldable pub seek : ℕ → (Option Frame → Bool) → List (Option Frame) → ℕ → ℕ
seek zero passes slots i = i
seek (suc fuel) passes slots i =
    let further = seek fuel passes slots (i + 1) in if passes (slot_at slots i) then further else i

unfoldable pub ends_at : ℕ → Option Frame → Bool
ends_at offset none = false
ends_at offset (some f) = nat_beq f.end_offset offset

unfoldable pub starts_at : ℕ → Option Frame → Bool
starts_at offset none = false
starts_at offset (some f) = nat_beq f.offset offset

-- `for (index = from; …) this.#retained[index] = undefined`, for a number of rounds.
unfoldable pub release : ℕ → ℕ → List (Option Frame) → List (Option Frame)
release zero from slots = slots
release (suc rounds) from slots = release rounds (from + 1) (set slots from none)

unfoldable pub compact_retained : Queue → Queue
compact_retained q =
    if nat_beq q.head (length q.retained)
    then record q { retained = []; head = 0 }
    else (if leb (max_audio_payload_bytes / 2) q.head
        then record q { retained = drop q.head q.retained; head = 0 }
        else q)

unfoldable pub release_through : Queue → ℕ → ℕ → Queue × AckResult
unfolding release compact_retained
release_through q next offset = (
  compact_retained (record q {
    retained = release (next - q.head + 1) q.head q.retained;
    head = next + 1;
    highest_acknowledged = offset;
  }),
  applied offset (next - q.head + 1),
)

unfoldable pub acknowledge_at : Queue → ℕ → Queue × AckResult
unfolding seek slot_at ended_before ends_at release_through
acknowledge_at q offset =
    let next = seek (length q.retained) (ended_before offset) q.retained q.head in
    if leb offset q.highest_acknowledged
    then (q, stale offset)
    else (if ltb q.next_captured offset
        then (q, invalid beyond_captured (nat offset))
        else (if ltb q.next_encoded offset
            then (q, invalid interior_frame (nat offset))
            else (if ends_at offset (slot_at q.retained next)
                then release_through q next offset
                else (q, invalid interior_frame (nat offset)))))

unfoldable pub acknowledge : Queue → Value → Queue × AckResult
unfolding acknowledge_at
acknowledge q (nat n) = acknowledge_at q n
acknowledge q (minus n) = (q, invalid negative (minus n))
acknowledge q fraction = (q, invalid non_integer fraction)
acknowledge q (text s) = (q, invalid non_integer (text s))
acknowledge q other = (q, invalid non_integer other)

-- The frames of the slots from an index on, without the empty slots.
unfoldable pub frames_in : List (Option Frame) → List Frame
frames_in [] = []
frames_in (none ∷ slots) = frames_in slots
frames_in (some f ∷ slots) = f ∷ frames_in slots

unfoldable pub any_starts_at : ℕ → List Frame → Bool
any_starts_at offset [] = false
any_starts_at offset (f ∷ fs) = nat_beq f.offset offset || any_starts_at offset fs

unfoldable pub is_replay_boundary : Queue → ℕ → Bool
unfolding frames_in any_starts_at
is_replay_boundary q offset =
    nat_beq offset q.next_encoded || any_starts_at offset (frames_in (drop q.head q.retained))

unfoldable pub materialize_pending : Queue → Queue × Result (List Frame)
materialize_pending q =
    let drained = Framer.drain_complete_samples q.framer in
    encode_payloads (record q { framer = drained.0 }) drained.1

unfoldable pub replay_frames : Queue → ℕ → ReplayResult
unfolding seek slot_at starts_before starts_at frames_in
replay_frames q offset =
    let first = seek (length q.retained) (starts_before offset) q.retained q.head in
    if starts_at offset (slot_at q.retained first)
    then replayed offset (frames_in (drop first q.retained))
    else non_resumable interior_replay (nat offset)

unfoldable pub replay_materialized : Queue × Result (List Frame) → ℕ → Queue × Result ReplayResult
unfolding replay_frames
replay_materialized (q, threw e) offset = (q, threw e)
replay_materialized (q, ok frames) offset = (q, ok (replay_frames q offset))

unfoldable pub replay_at : Queue → ℕ → Queue × Result ReplayResult
unfolding replay_materialized is_replay_boundary materialize_pending
replay_at q offset =
    if ltb offset q.highest_acknowledged
    then (q, ok (non_resumable older_than_retained (nat offset)))
    else (if ltb q.next_captured offset
        then (q, ok (non_resumable newer_than_captured (nat offset)))
        else (if nat_beq offset q.next_captured
            then (q, ok (replayed offset []))
            else (if not (is_replay_boundary q offset)
                then (q, ok (non_resumable interior_replay (nat offset)))
                else replay_materialized (materialize_pending q) offset)))

unfoldable pub replay : Queue → Value → Queue × Result ReplayResult
unfolding replay_at
replay q (nat n) = replay_at q n
replay q (minus n) = (q, ok (non_resumable invalid_offset (minus n)))
replay q fraction = (q, ok (non_resumable invalid_offset fraction))
replay q (text s) = (q, ok (non_resumable invalid_offset (text s)))
replay q other = (q, ok (non_resumable invalid_offset other))

unfoldable pub reset : Queue → Text → Result Queue
reset q utterance_id =
    if is_uuid utterance_id
    then ok (record q {
      utterance_id = utterance_id;
      framer = Framer.reset q.framer;
      next_sequence = 0;
      highest_acknowledged = 0;
      next_captured = 0;
      next_encoded = 0;
      retained = [];
      head = 0;
    })
    else threw invalid_uuid

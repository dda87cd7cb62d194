-- ===== src/Audio/Tests.antt =====
-- packages/audio/src: the framer and the queue on a small utterance.
mod Relay
use palancar.Base.{
  ℕ, ◌+◌, ◌-◌, ◌≤◌, ◌≡◌, ◌≢◌, ◌⊎◌, refl, none, some, List, [], ◌∷◌, ◌++◌, take, drop, length, arith,
  Text, codes, nat,
}
use palancar.Contracts.Uuid.{is_uuid}
use palancar.Contracts.AudioFrame.{encode_audio_frame}
use palancar.Audio.Framer.{Framer, Options, whole}
use palancar.Audio.Framer
use palancar.Audio.Framer.Loops.{flat, AllOf}
use palancar.Audio.Framer.Stream.{IsFramer, held, push_lem, push-push}
use palancar.Audio.Framer.Target.{IsSized, Ensures, create-IsSized}
use palancar.Audio.Queue.{
  Queue, Limits, ok, accepted, overflow, exceeded, new_samples, limits_valid, framer_options,
  applied,
}
use palancar.Audio.Queue
use palancar.Audio.Queue.Replay.{acknowledge}
use palancar.Audio.Slots.{slots}
use palancar.Audio.Queue.Frames.{samples, frames, framed, IsPayload}
use palancar.Audio.Queue.Invariant.{IsQueue, outstanding}
use palancar.Audio.Queue.Creating.{IsEmpty, create-IsQueue}
use palancar.Audio.Queue.Capture.{push-captures}
use palancar.Audio.Queue.Flushing.{waiting, report, drained, flush-captures}
use palancar.Audio.Queue.Acknowledging.{acknowledge-releases, acknowledge-boundary}

abbrev utterance : Text
utterance = codes "123e4567-e89b-42d3-a456-426614174000"

abbrev small_limits : Limits
small_limits = record {
  max_audio_payload_bytes = 4;
  max_unacknowledged_samples = 10;
  max_retained_replay_samples = 8;
  max_utterance_samples = 20;
  coalescing_target_bytes = none;
}

abbrev small_framer : Framer
small_framer = record { max_payload_bytes = 4; target_bytes = 4; pending = []; trailing = none }

abbrev empty_queue : Queue
empty_queue = record {
  limits = small_limits;
  utterance_id = utterance;
  framer = small_framer;
  next_sequence = 0;
  highest_acknowledged = 0;
  next_captured = 0;
  next_encoded = 0;
  retained = [];
  head = 0;
}

abbrev five_bytes : List ℕ
five_bytes = 1 ∷ (2 ∷ (3 ∷ (4 ∷ (5 ∷ []))))

abbrev first_payload : List ℕ
first_payload = 1 ∷ (2 ∷ (3 ∷ (4 ∷ [])))

-- The queue after `five_bytes`.
abbrev one_frame : Queue
one_frame = record {
  limits = small_limits;
  utterance_id = utterance;
  framer = record { max_payload_bytes = 4; target_bytes = 4; pending = []; trailing = some 5 };
  next_sequence = 1;
  highest_acknowledged = 0;
  next_captured = 2;
  next_encoded = 2;
  retained = slots 0 (frames utterance 0 0 (first_payload ∷ []));
  head = 0;
}

created : Queue.create utterance small_limits ≡ ok empty_queue
unfolding Queue.create is_uuid limits_valid framer_options Framer.create
created = refl

empty_queue-IsQueue : IsQueue empty_queue 0 []
empty_queue-IsQueue = (create-IsQueue utterance small_limits empty_queue created).0

small_framer-IsFramer : IsFramer small_framer
small_framer-IsFramer = record {
  target_even = refl;
  target_positive = omega arith;
  target_most = omega arith;
  pending_even = refl;
  pending_less = omega arith;
}

first_payload-IsPayload : IsPayload first_payload
first_payload-IsPayload = record { nonempty = omega arith; even = refl; small = omega arith }

one_frame-IsQueue : IsQueue one_frame 0 (first_payload ∷ [])
unfolding limits_valid is_uuid samples
one_frame-IsQueue = record {
  limits = refl;
  uuid = refl;
  framer = record {
    target_even = refl;
    target_positive = omega arith;
    target_most = omega arith;
    pending_even = refl;
    pending_less = omega arith;
  };
  payload_cap = omega arith;
  payloads = (first_payload-IsPayload, tt);
  slots = refl;
  sequence = refl;
  counted = omega arith;
  encoded = refl;
  captured = refl;
  utterance = omega arith;
  window = omega arith;
}

pushed_state : (Queue.push empty_queue five_bytes).0 ≡ one_frame
unfolding Queue.push Queue.push_within exceeded new_samples Framer.pending_byte_count Queue.captured
    Queue.encode_payloads Framer.push encode_audio_frame is_uuid frames framed
pushed_state = refl

create-IsQueue_example :
    IsQueue empty_queue 0 []
    × IsEmpty empty_queue
    × (empty_queue.limits ≡ small_limits)
    × (empty_queue.utterance_id ≡ utterance)
create-IsQueue_example = create-IsQueue utterance small_limits empty_queue created

push-captures_example :
    let r = Queue.push empty_queue five_bytes in
    let names =
      exceeded small_limits
        (0 - 0 + new_samples empty_queue five_bytes)
        (0 + new_samples empty_queue five_bytes) in
    ((names ≡ [])
      × ((qs : List (List ℕ)) × (r.1 ≡ ok (accepted (frames utterance 0 0 qs)))
          × IsQueue r.0 0 ([] ++ qs)
          × (outstanding r.0 ([] ++ qs) ≡ outstanding empty_queue [] ++ five_bytes)
          × (r.0.next_captured ≡ 0 + new_samples empty_queue five_bytes)))
    ⊎ ((names ≢ []) × (r ≡ (empty_queue, ok (overflow (new_samples empty_queue five_bytes) names))))
push-captures_example = push-captures empty_queue 0 [] five_bytes empty_queue-IsQueue

acknowledge-releases_example :
    let r = acknowledge one_frame (nat 2) in
    ((k : ℕ) × (r.1 ≡ applied 2 k)
      × (1 ≤ k)
      × (k ≤ 1)
      × (2 ≡ 0 + samples (take k (first_payload ∷ [])))
      × (r.0.highest_acknowledged ≡ 2)
      × IsQueue r.0 (0 + length (take k (first_payload ∷ []))) (drop k (first_payload ∷ []))
      × (flat (take k (first_payload ∷ [])) ++ outstanding r.0 (drop k (first_payload ∷ []))
          ≡ outstanding one_frame (first_payload ∷ [])))
    ⊎ ((r.0 ≡ one_frame) × ((m j : ℕ) → r.1 ≢ applied m j))
acknowledge-releases_example =
    acknowledge-releases one_frame 0 (first_payload ∷ []) 2 one_frame-IsQueue

acknowledge-boundary_example :
    (acknowledge one_frame (nat (0 + samples [] + 2))).1 ≡ applied (0 + samples [] + 2) 1
acknowledge-boundary_example =
    acknowledge-boundary one_frame 0 [] first_payload [] one_frame-IsQueue

push_lem_example :
    let r = Framer.push small_framer five_bytes in
    (flat r.1 ++ held r.0 ≡ held small_framer ++ five_bytes)
    × AllOf 4 r.1
    × IsFramer r.0
    × (r.0.target_bytes ≡ 4)
    × (r.0.max_payload_bytes ≡ 4)
push_lem_example = push_lem small_framer five_bytes small_framer-IsFramer

push-push_example :
    let r = Framer.push small_framer five_bytes in
    let s = Framer.push r.0 five_bytes in
    Framer.push small_framer (five_bytes ++ five_bytes) ≡ (s.0, r.1 ++ s.1)
push-push_example = push-push small_framer five_bytes five_bytes small_framer-IsFramer

abbrev small_options : Options
small_options = record {
  max_payload_bytes = some (whole 100);
  max_audio_payload_bytes = none;
  coalescing_target_bytes = none;
  coalescing_target_samples = none;
  coalescing_target_ms = none;
  max_retained_replay_samples = some (whole 8);
  max_unacknowledged_samples = none;
}

abbrev sized_framer : Framer
sized_framer = record { max_payload_bytes = 100; target_bytes = 16; pending = []; trailing = none }

create-IsSized_example : IsSized small_options sized_framer
unfolding Framer.create
create-IsSized_example = create-IsSized small_options

-- One sample waits, and an odd byte.
abbrev waiting_queue : Queue
waiting_queue = record one_frame {
  framer = record {
    max_payload_bytes = 4;
    target_bytes = 4;
    pending = 7 ∷ (8 ∷ []);
    trailing = some 9;
  };
  next_captured = 3;
}

waiting_queue-IsQueue : IsQueue waiting_queue 0 (first_payload ∷ [])
waiting_queue-IsQueue = record {
  limits = one_frame-IsQueue.limits;
  uuid = one_frame-IsQueue.uuid;
  framer = record {
    target_even = refl;
    target_positive = omega arith;
    target_most = omega arith;
    pending_even = refl;
    pending_less = omega arith;
  };
  payload_cap = omega arith;
  payloads = one_frame-IsQueue.payloads;
  slots = one_frame-IsQueue.slots;
  sequence = refl;
  counted = omega arith;
  encoded = one_frame-IsQueue.encoded;
  captured = refl;
  utterance = omega arith;
  window = omega arith;
}

flush-captures_example :
    let qs = waiting (7 ∷ (8 ∷ [])) in
    ((Queue.flush waiting_queue).1 ≡ ok (report (some 9) (frames utterance 1 2 qs)))
    × IsQueue (Queue.flush waiting_queue).0 0 ((first_payload ∷ []) ++ qs)
    × (outstanding (Queue.flush waiting_queue).0 ((first_payload ∷ []) ++ qs) ++ (9 ∷ [])
        ≡ outstanding waiting_queue (first_payload ∷ []))
    × ((Queue.flush waiting_queue).0.framer ≡ drained waiting_queue.framer)
flush-captures_example = flush-captures waiting_queue 0 (first_payload ∷ []) waiting_queue-IsQueue

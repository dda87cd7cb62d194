-- ===== src/Audio/Tests/Relay.antt =====
-- packages/audio/src/relay.ts: the acceptor on a small utterance, and the frames on their way to it.
use palancar.Base.{
  ℕ, ◌*◌, ◌≤◌, ◌≡◌, refl, Option, none, some, List, [], ◌∷◌, ◌++◌, length, take, arith, Text, codes,
  nat, map_get, map_set, map_delete,
}
use palancar.Contracts.Uuid.{is_uuid}
use palancar.Contracts.AudioFrame.{FrameInput, encode_audio_frame}
use palancar.Contracts.AudioFrame
use palancar.Contracts.AudioFrame.Decode.{decode_audio_frame}
use palancar.Contracts.AudioFrame.RoundTrip.{frame_of, decode-encode}
use palancar.Audio.Framer.Loops.{flat}
use palancar.Audio.Queue.Frames.{frames, samples}
use palancar.Audio.Acceptor.{
  GivenOptions, Options, Acceptor, Candidate, Acceptance, accepted, duplicate, rejected, gap,
  overlap, stale_frame, conflicting_duplicate, malformed_frame, wrong_utterance, utterance_limit,
  ok, create, accept, fresh, evict_loop, evict_step, validate_frame,
}
use palancar.Audio.Acceptor
use palancar.Audio.Acceptor.Termination.{evict_loop-ends}
use palancar.Audio.Acceptor.Specification.{represents, respond}
use palancar.Audio.Acceptor.Refinement.{IsStream, accept-represents}
use palancar.Audio.Acceptor.History.{
  accept_all, charges, forwarded_bytes, nothing-IsStream, charges-forwarded,
}
use palancar.Audio.Delivery.{candidate_of, entry, deliver, advance, next_of}
use palancar.Audio.Delivery.Schedule.{IsSendable}
use palancar.Audio.Delivery.Arrival.{positions, deliver-prefix, replay-delivers}

abbrev utterance : Text
utterance = codes "123e4567-e89b-42d3-a456-426614174000"

abbrev given : GivenOptions
given = record {
  max_audio_payload_bytes = nat 3_200;
  max_retained_replay_samples = nat 3;
  max_utterance_samples = nat 480_000;
}

abbrev options : Options
options = record {
  max_audio_payload_bytes = 3_200;
  max_retained_replay_samples = 3;
  max_utterance_samples = 480_000;
}

created : create utterance given ≡ ok (fresh utterance options)
unfolding create Acceptor.assert_options is_uuid
created = refl

abbrev payloads : List (List ℕ)
payloads = (1 ∷ 2 ∷ 3 ∷ 4 ∷ []) ∷ (5 ∷ 6 ∷ []) ∷ (7 ∷ 8 ∷ 9 ∷ 10 ∷ []) ∷ []

-- A frame of the utterance as the decoder returns it.
abbrev frame : ℕ → ℕ → List ℕ → Option Candidate
frame sequence offset payload = some (candidate_of (frame_of utterance sequence offset payload))

-- The window holds three samples, so that the third frame pushes the first out.
abbrev arrivals : List (Option Candidate)
arrivals =
    frame 0 0 (1 ∷ 2 ∷ 3 ∷ 4 ∷ [])
    ∷ frame 2 3 (7 ∷ 8 ∷ [])
    ∷ frame 0 0 (1 ∷ 2 ∷ 3 ∷ 4 ∷ [])
    ∷ frame 0 0 (1 ∷ 2 ∷ 3 ∷ 5 ∷ [])
    ∷ frame 1 2 (5 ∷ 6 ∷ [])
    ∷ frame 2 2 (7 ∷ 8 ∷ [])
    ∷ frame 2 3 (7 ∷ 8 ∷ 9 ∷ 10 ∷ [])
    ∷ frame 0 0 (1 ∷ 2 ∷ 3 ∷ 4 ∷ [])
    ∷ none
    ∷ []

answers :
    (accept_all (fresh utterance options) arrivals).1
    ≡ accepted 2 2 (1 ∷ 2 ∷ 3 ∷ 4 ∷ [])
      ∷ rejected gap 2
      ∷ duplicate 2
      ∷ rejected conflicting_duplicate 2
      ∷ accepted 3 1 (5 ∷ 6 ∷ [])
      ∷ rejected overlap 3
      ∷ accepted 5 2 (7 ∷ 8 ∷ 9 ∷ 10 ∷ [])
      ∷ rejected stale_frame 5
      ∷ rejected malformed_frame 5
      ∷ []
unfolding accept_all accept Acceptor.judge validate_frame is_uuid Acceptor.place Acceptor.admit
    Acceptor.evict_fingerprints Acceptor.compact evict_loop Acceptor.remember Acceptor.reject
    Acceptor.repeated map_get map_set map_delete
answers = refl

encoded :
    encode_audio_frame (record {
      utterance_id = utterance;
      sequence = nat 1;
      offset = nat 2;
      payload = some (5 ∷ 6 ∷ []);
      frame_flags = none;
    })
    ≡ AudioFrame.ok (
        80 ∷ 65 ∷ 1 ∷ 0 ∷ 18 ∷ 62 ∷ 69 ∷ 103 ∷ 232 ∷ 155 ∷ 66 ∷ 211 ∷ 164 ∷ 86 ∷ 66 ∷ 102 ∷ 20 ∷ 23
        ∷ 64 ∷ 0 ∷ 0 ∷ 0 ∷ 0 ∷ 1 ∷ 0 ∷ 0 ∷ 0 ∷ 2 ∷ 0 ∷ 2 ∷ 5 ∷ 6 ∷ [])
unfolding encode_audio_frame is_uuid
encoded = refl

decode-encode_example :
    (s : ℕ) × (o : ℕ) × (p : List ℕ) × (nat 1 ≡ nat s)
    × (nat 2 ≡ nat o)
    × (some (5 ∷ 6 ∷ []) ≡ some p)
    × (decode_audio_frame (
          some (
            80 ∷ 65 ∷ 1 ∷ 0 ∷ 18 ∷ 62 ∷ 69 ∷ 103 ∷ 232 ∷ 155 ∷ 66 ∷ 211 ∷ 164 ∷ 86 ∷ 66 ∷ 102 ∷ 20
            ∷ 23 ∷ 64 ∷ 0 ∷ 0 ∷ 0 ∷ 0 ∷ 1 ∷ 0 ∷ 0 ∷ 0 ∷ 2 ∷ 0 ∷ 2 ∷ 5 ∷ 6 ∷ []))
        ≡ AudioFrame.ok (frame_of utterance s o p))
decode-encode_example =
    decode-encode
      (record {
        utterance_id = utterance;
        sequence = nat 1;
        offset = nat 2;
        payload = some (5 ∷ 6 ∷ []);
        frame_flags = none;
      })
      _ encoded

accept-represents_example :
    let next = respond options utterance [] (validate_frame options (frame 0 0 (5 ∷ 6 ∷ []))) in
    IsStream options next.0
    × ((h : ℕ) × (accept (represents options utterance [] 0) (frame 0 0 (5 ∷ 6 ∷ []))
          ≡ (represents options utterance next.0 h, next.1)))
accept-represents_example =
    accept-represents options utterance [] 0 (frame 0 0 (5 ∷ 6 ∷ [])) (nothing-IsStream options)

-- Five samples in two frames, where the window holds three.
abbrev overfull : Acceptor
overfull = record (fresh utterance options) {
  fingerprint_samples = 5;
  fingerprint_queue =
      some (entry utterance 0 0 (1 ∷ 2 ∷ 3 ∷ 4 ∷ []))
      ∷ some (entry utterance 1 2 (1 ∷ 2 ∷ 3 ∷ 4 ∷ 5 ∷ 6 ∷ []))
      ∷ [];
}

evict_loop-ends_example : evict_step (evict_loop 2 overfull) ≡ none
evict_loop-ends_example = evict_loop-ends 2 overfull (omega arith)

charges-forwarded_example :
    let run = accept_all (fresh utterance options) arrivals in
    (charges run.1 ≡ run.0.next_offset)
    × (run.0.next_offset ≤ 480_000)
    × (length (forwarded_bytes run.1) ≡ charges run.1 * 2)
    × (run.0.fingerprint_samples ≤ 3)
charges-forwarded_example =
    charges-forwarded utterance given (fresh utterance options) arrivals created

payloads-IsSendable : IsSendable options utterance payloads
unfolding is_uuid samples
payloads-IsSendable = record {
  id = refl;
  payloads = (
    record { nonempty = omega arith; even = refl; small = omega arith },
    (
      record { nonempty = omega arith; even = refl; small = omega arith },
      (record { nonempty = omega arith; even = refl; small = omega arith }, tt),
    ),
  );
  small = omega arith;
  within = omega arith;
  limit = omega arith;
}

-- The third frame comes too early, the first one twice.
abbrev schedule : List ℕ
schedule = 0 ∷ 2 ∷ 0 ∷ 1 ∷ []

deliver-prefix_example :
    let run = deliver (fresh utterance options) (frames utterance 0 0 payloads) schedule in
    let n = advance 3 0 schedule in
    (n ≤ 3) × (run.1 ≡ flat (take n payloads)) × (run.0.next_sequence ≡ n)
deliver-prefix_example = deliver-prefix options utterance payloads schedule payloads-IsSendable

two_arrived :
    1 ≤ (deliver (fresh utterance options) (frames utterance 0 0 payloads) schedule).0.next_sequence
unfolding advance next_of
two_arrived =
    rw (deliver-prefix options utterance payloads schedule payloads-IsSendable).2 (omega arith)

replay-delivers_example :
    (deliver
      (fresh utterance options)
      (frames utterance 0 0 payloads)
      (schedule ++ positions 1 2)).1
    ≡ flat payloads
replay-delivers_example =
    replay-delivers options utterance payloads schedule 1 payloads-IsSendable two_arrived

-- ===== src/Audio/Queue/Invariant.antt =====
-- The invariant of the client's queue, and the frames that it adds.
use palancar.Base.{
  ℕ, suc, ◌+◌, ◌*◌, ◌/◌, ◌≤◌, ◌≡◌, true, Option, none, some, List, [], ◌∷◌, ◌++◌, map, append_assoc,
  arith, length, replicate, length-append, Text, text_eq,
}
use palancar.Contracts.Constants.{
  max_utterance_samples, max_audio_payload_bytes, max_unacknowledged_samples,
}
use palancar.Contracts.Uuid.{is_uuid}
use palancar.Audio.Framer.Loops.{flat}
use palancar.Audio.Framer.Stream.{IsFramer, held}
use palancar.Audio.Queue.{Queue, Limits, Frame, ok, encode_from, encode_payloads, limits_valid}
use palancar.Audio.Slots.{slots, map-append}
use palancar.Audio.Queue.Frames.{samples, frames, frames-append, AllPayloads, encode-ok}

-- The queue holds the frames of the payloads `ps`, from sequence `first` on, and behind them the
-- bytes of its framer: together the bytes captured and not acknowledged.
pub record IsQueue (q : Queue) (first : ℕ) (ps : List (List ℕ)) : Type 0 where
  pub limits : limits_valid q.limits ≡ true
  pub uuid : is_uuid q.utterance_id ≡ true
  pub framer : IsFramer q.framer
  pub payload_cap : q.framer.max_payload_bytes ≤ max_audio_payload_bytes
  pub payloads : AllPayloads ps
  pub slots : q.retained ≡ slots q.head (frames q.utterance_id first q.highest_acknowledged ps)
  pub sequence : q.next_sequence ≡ first + length ps
  pub counted : q.next_sequence ≤ q.next_encoded
  pub encoded : q.next_encoded ≡ q.highest_acknowledged + samples ps
  pub captured : q.next_captured ≡ q.next_encoded + length q.framer.pending / 2
  pub utterance : q.next_captured ≤ q.limits.max_utterance_samples
  pub window : q.next_captured ≤ q.highest_acknowledged + q.limits.max_retained_replay_samples

-- The bytes captured and not acknowledged, an odd one included.
abbrev pub outstanding : Queue → List (List ℕ) → List ℕ
outstanding q ps = flat ps ++ held q.framer

pub limits-small :
    (l : Limits)
    → limits_valid l ≡ true
    → (l.max_utterance_samples ≤ max_utterance_samples)
      × (l.max_retained_replay_samples ≤ l.max_unacknowledged_samples)
      × (l.max_unacknowledged_samples ≤ max_unacknowledged_samples)
unfolding limits_valid
limits-small l h = ground arith

pub samples-append : (ps qs : List (List ℕ)) → samples (ps ++ qs) ≡ samples ps + samples qs
unfolding samples
samples-append [] qs = omega arith
samples-append (p ∷ ps) qs = omega (arith, samples-append ps qs)

-- Every payload holds a sample at least.
pub length-le-samples : (ps : List (List ℕ)) → AllPayloads ps → length ps ≤ samples ps
unfolding samples
length-le-samples [] h = omega arith
length-le-samples (p ∷ ps) h = omega (arith, length-le-samples ps h.1, h.0.nonempty)

-- Two bytes make a sample.
pub length-flat : (ps : List (List ℕ)) → AllPayloads ps → length (flat ps) ≡ samples ps * 2
unfolding samples flat
length-flat [] h = omega arith
length-flat (p ∷ ps) h = omega (arith, length-append p (flat ps), length-flat ps h.1, h.0.even)

encode_from-ok :
    (u : Text) (s o : ℕ) (ps : List (List ℕ))
    → is_uuid u ≡ true
    → AllPayloads ps
    → s ≤ o
    → o + samples ps ≤ max_utterance_samples
    → encode_from u s o ps ≡ ok (frames u s o ps, s + length ps, o + samples ps)
unfolding encode_from frames samples
encode_from-ok u s o [] h v a b =
    let x : s ≡ s + 0 = omega arith in let y : o ≡ o + 0 = omega arith in ground arith
encode_from-ok u s o (p ∷ ps) h v a b =
    let x : s + 1 + length ps ≡ s + suc (length ps) = omega arith in
    let y : o + length p / 2 + samples ps ≡ o + (length p / 2 + samples ps) = omega arith in
    rw (
      encode-ok u s o p h v.0 (omega arith) (omega arith),
      encode_from-ok u (s + 1) (o + length p / 2) ps h v.1 (omega (arith, v.0.nonempty))
          (omega arith),
      x,
      y,
    )

grown :
    (u : Text) (h first ack s o : ℕ) (ps qs : List (List ℕ))
    → s ≡ first + length ps
    → o ≡ ack + samples ps
    → slots h (frames u first ack ps) ++ map some (frames u s o qs)
      ≡ slots h (frames u first ack (ps ++ qs))
grown u h first ack s o ps qs a b =
    rw
      (
        a,
        b,
        frames-append u first ack ps qs,
        map-append {B = Option Frame} some (frames u first ack ps)
            (frames u (first + length ps) (ack + samples ps) qs),
      )
      (append_assoc (replicate h none) (map some (frames u first ack ps)) _)

-- `#encodePayloads` does not throw while the payloads stay in the utterance: it appends their
-- frames.
pub encode_payloads-ok :
    (q : Queue) (first : ℕ) (ps qs : List (List ℕ))
    → is_uuid q.utterance_id ≡ true
    → AllPayloads qs
    → q.retained ≡ slots q.head (frames q.utterance_id first q.highest_acknowledged ps)
    → q.next_sequence ≡ first + length ps
    → q.next_sequence ≤ q.next_encoded
    → q.next_encoded ≡ q.highest_acknowledged + samples ps
    → q.next_encoded + samples qs ≤ max_utterance_samples
    → encode_payloads q qs ≡ (
      record q {
        retained = slots q.head (frames q.utterance_id first q.highest_acknowledged (ps ++ qs));
        next_sequence = first + length (ps ++ qs);
        next_encoded = q.highest_acknowledged + samples (ps ++ qs);
      },
      ok (frames q.utterance_id q.next_sequence q.next_encoded qs),
    )
unfolding encode_payloads
encode_payloads-ok q first ps qs u v slots_eq seq count enc bound = ground (
  arith,
  encode_from-ok q.utterance_id q.next_sequence q.next_encoded qs u v count bound,
  grown q.utterance_id q.head first q.highest_acknowledged q.next_sequence q.next_encoded ps qs seq
      enc,
  length-append ps qs,
  samples-append ps qs,
)

-- ===== src/Audio/Acceptor/Specification.antt =====
-- What packages/audio/src/relay.ts promises: the stream of one utterance is the list of the frames
-- accepted so far, of which the last ones, at most as many samples as the replay window holds, are
-- remembered.
use palancar.Base.{
  ℕ, ◌+◌, ◌-◌, Bool, ◌&&◌, not, Option, none, some, List, [], ◌∷◌, ◌++◌, ltb, nat_beq,
  if◌then◌else◌, length, get_elem?, Text, text_beq, text_eq, nat_eq,
}
use palancar.Audio.Slots.{slots}
use palancar.Audio.Acceptor.{
  Options, Acceptor, ValidatedFrame, Acceptance, accepted, duplicate, rejected,
  conflicting_duplicate, gap, overlap, stale_frame, wrong_utterance, Validation, valid, refused,
  same_frame,
}

unfoldable pub samples : List ValidatedFrame → ℕ
samples [] = 0
samples (f ∷ fs) = f.sample_count + samples fs

-- The most recent frames that together hold at most a number of samples.
unfoldable pub recent : ℕ → List ValidatedFrame → List ValidatedFrame
unfolding samples
recent most [] = []
recent most (f ∷ fs) =
    let fewer = recent most fs in if ltb most (samples (f ∷ fs)) then fewer else f ∷ fs

-- The number of accepted frames that are no longer remembered.
unfoldable pub forgotten : ℕ → List ValidatedFrame → ℕ
unfolding recent
forgotten most fs = length fs - length (recent most fs)

-- The answer to a frame whose number was accepted before, beside the frame of that number.
unfoldable pub answer_beside : ℕ → Option ValidatedFrame → ValidatedFrame → Acceptance
unfolding same_frame
answer_beside offset none f = rejected stale_frame offset
answer_beside offset (some g) f =
    if same_frame g f then duplicate offset else rejected conflicting_duplicate offset

unfoldable pub answer_repeated : Options → List ValidatedFrame → ValidatedFrame → Acceptance
unfolding answer_beside forgotten samples
answer_repeated options fs f =
    if ltb f.sequence (forgotten options.max_retained_replay_samples fs)
    then rejected stale_frame (samples fs)
    else answer_beside (samples fs) (get_elem? fs f.sequence) f

unfoldable pub is_next : List ValidatedFrame → ValidatedFrame → Bool
unfolding samples
is_next fs f = nat_beq f.sequence (length fs) && nat_beq f.offset (samples fs)

-- The stream and the answer after a frame whose form and limits are in order.
unfoldable pub extend :
    Options → Text → List ValidatedFrame → ValidatedFrame → List ValidatedFrame × Acceptance
extend options utterance_id fs f =
    if not (text_beq f.utterance_id utterance_id)
    then (fs, rejected wrong_utterance (samples fs))
    else (if ltb f.sequence (length fs)
        then (fs, answer_repeated options fs f)
        else (if is_next fs f
            then (fs ++ f ∷ [], accepted (samples fs + f.sample_count) f.sample_count f.payload)
            else (fs, rejected (if ltb f.offset (samples fs) then overlap else gap) (samples fs))))

unfoldable pub respond :
    Options → Text → List ValidatedFrame → Validation → List ValidatedFrame × Acceptance
respond options utterance_id fs (refused reason) = (fs, rejected reason (samples fs))
respond options utterance_id fs (valid f) = extend options utterance_id fs f

-- The acceptor in which a stream of accepted frames is represented, with a number of empty slots.
unfoldable pub by_number : List ValidatedFrame → List (ℕ × ValidatedFrame)
by_number [] = []
by_number (f ∷ fs) = (f.sequence, f) ∷ by_number fs

unfoldable pub holding : Acceptor → ℕ → List ValidatedFrame → Acceptor
unfolding by_number samples
holding a head live = record a {
  fingerprint_samples = samples live;
  fingerprints_by_sequence = by_number live;
  fingerprint_queue = slots head live;
  fingerprint_head = head;
}

unfoldable pub represents : Options → Text → List ValidatedFrame → ℕ → Acceptor
unfolding by_number recent samples
represents options utterance_id fs head =
    let live = recent options.max_retained_replay_samples fs in
    record {
      options = options;
      utterance_id = utterance_id;
      next_sequence = length fs;
      next_offset = samples fs;
      fingerprint_samples = samples live;
      fingerprints_by_sequence = by_number live;
      fingerprint_queue = slots head live;
      fingerprint_head = head;
    }

-- ===== src/Client/State/Transcript.antt =====
-- apps/g2-client/src/state/index.ts: `segmentUpdate`, the transcript of a turn.
use palancar.Base.{
  ℕ, ◌+◌, ◌-◌, ◌*◌, ◌^◌, Bool, true, false, ◌&&◌, ◌||◌, not, Option, none, some, List, [], ◌∷◌,
  ◌++◌, map, ltb, leb, nat_beq, if◌then◌else◌, ◌==◌, length, Text, text_eq, Value, map_get, map_set,
  map_has,
}
use palancar.Client.State.Types.{
  ActiveTurn, ClientState, listening, error, TranscriptEvent, Reduction,
}
use palancar.Client.State.Guards.{
  text_of, valid_uuid_v4, valid_positive_uint32, fits_text, valid_segment_id, max_transcript_length,
  max_transcript_segments,
}
use palancar.Client.State.Sessions.{same_session, cleanup_effects, no_change, becomes}
use palancar.Client.State.Messages.{transcript_overflow_message}

digits : ℕ → Text → Option ℕ
digits n [] = some n
digits n (c ∷ s) =
    let rest = digits (n * 10 + (c - b'0')) s in if leb b'0' c && leb c b'9' then rest else none

-- A key that JavaScript orders as an array index: the decimal digits of a number below 2^32 - 1.
array_index : Text → Option ℕ
unfolding digits
array_index [] = none
array_index (c ∷ s) = elim (digits 0 (c ∷ s)) [
  | none ↦ none
  | some n ↦
      if (ltb n (2 ^ 32 - 1)) && (not (nat_beq c b'0') || nat_beq (length s) 0)
      then some n
      else none
]

insert_by : ℕ → Text → List (ℕ × Text) → List (ℕ × Text)
insert_by n v [] = (n, v) ∷ []
insert_by n v ((m, w) ∷ es) =
    let rest = insert_by n v es in if ltb n m then (n, v) ∷ ((m, w) ∷ es) else (m, w) ∷ rest

indexed : List (Text × Text) → List (ℕ × Text)
unfolding array_index insert_by
indexed [] = []
indexed ((k, v) ∷ m) = elim (array_index k) [
  | none ↦ indexed m
  | some n ↦ insert_by n v (indexed m)
]

named : List (Text × Text) → List Text
unfolding array_index
named [] = []
named ((k, v) ∷ m) = elim (array_index k) [ none ↦ v ∷ named m | some n ↦ named m ]

-- `Object.values`: the array indices in their order, then the other keys in the order of insertion.
unfoldable pub object_values : List (Text × Text) → List Text
unfolding indexed named
object_values m = map (λ e. e.1) (indexed m) ++ named m

-- `join(" ")`
unfoldable pub join : List Text → Text
join [] = []
join (s ∷ []) = s
join (s ∷ (t ∷ ss)) = s ++ b' ' ∷ join (t ∷ ss)

pub data Update : Type 0 where
  ignored overflows : Update
  updated : ActiveTurn → Update

-- The guards on the session, the utterance, the segment and the revision: the segment's id and the
-- revision.
unfoldable pub matching : ActiveTurn → TranscriptEvent → Option (Text × ℕ)
matching t e = elim (valid_uuid_v4 e.utterance_id) [
  | none ↦ none
  | some u ↦ elim (valid_segment_id e.segment_id) [
    | none ↦ none
    | some g ↦ elim (valid_positive_uint32 e.revision) [
      | none ↦ none
      | some r ↦
          if same_session (listening t) e.session_id e.session_epoch && (u == t.utterance_id)
          then some (g, r)
          else none
    ]
  ]
]

-- `segmentRevisions[segmentId] ?? 0`: what an inherited name yields compares like 0.
unfoldable pub revision_of : ActiveTurn → Text → ℕ
revision_of t g = elim (map_get t.segment_revisions g) [ none ↦ 0 | some r ↦ r ]

unfoldable pub is_final : ActiveTurn → Text → Bool
is_final t g = elim (map_get t.final_segments g) [ none ↦ false | some b ↦ b ]

-- A partial revision keeps what goes with the final transcript, where there is one.
unfoldable pub carried {ℓ} : {A : Type ℓ} → ActiveTurn → Option A → Option A
carried t o = elim t.final_transcript [ none ↦ none | some s ↦ o ]

-- The turn with a newer revision's text, `final` for a `transcript.final` event.
unfoldable pub stored : Bool → ActiveTurn → Text → ℕ → Text → ActiveTurn
unfolding carried
stored final t g r s =
    let texts = map_set t.segment_texts g s in
    let transcript = join (object_values texts) in
    record t {
      transcript = transcript;
      segment_texts = texts;
      segment_revisions = map_set t.segment_revisions g r;
      final_segments = if final then map_set t.final_segments g true else t.final_segments;
      final_transcript = if final then some transcript else t.final_transcript;
      final_segment_id = if final then some g else carried t t.final_segment_id;
      final_revision = if final then some r else carried t t.final_revision;
    }

unfoldable pub store : Bool → ActiveTurn → Text → ℕ → Text → Update
store final t g r s =
    if not (map_has t.segment_texts g) && leb max_transcript_segments (length t.segment_texts)
    then overflows
    else if ltb max_transcript_length (length (stored final t g r s).transcript)
    then overflows
    else updated (stored final t g r s)

unfoldable pub take_text : Bool → ActiveTurn → Text → ℕ → Value → Update
take_text final t g r v = elim (text_of v) [
  | none ↦ ignored
  | some s ↦
      if ltb max_transcript_length (length s)
      then overflows
      else if fits_text max_transcript_length s
      then store final t g r s
      else ignored
]

unfoldable pub segment_update : Bool → ActiveTurn → TranscriptEvent → Update
segment_update final t e = elim (matching t e) [
  | none ↦ ignored
  | some (g, r) ↦
      if leb r (revision_of t g) || (not final && is_final t g)
      then ignored
      else take_text final t g r e.text
]

unfoldable pub transcript_overflow : ClientState → Text → Reduction
transcript_overflow s l =
    becomes (error transcript_overflow_message true (some l) none) (cleanup_effects s)

-- `segmentUpdate`, on a listening state or on a finalizing one.
unfoldable pub update_with :
    (ActiveTurn → ClientState) → Bool → ActiveTurn → TranscriptEvent → Reduction
update_with f final t e = elim (segment_update final t e) [
  | ignored ↦ no_change (f t)
  | overflows ↦ transcript_overflow (f t) t.target_language
  | updated u ↦ becomes (f u) []
]

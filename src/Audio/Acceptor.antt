-- ===== src/Audio/Acceptor.antt =====
-- packages/audio/src/relay.ts: the relay's acceptor of one utterance's frames, in order.
-- A frame comes in as a record of values of unknown type, or as no object at all. A slot of
-- `#fingerprintQueue` is `none` when it was set to `undefined`, and so is one out of range. A
-- constructor or a method that throws returns `failed`.
pub mod Specification
pub mod Eviction
pub mod Termination
pub mod Stream
pub mod Refinement
pub mod History
use palancar.Base.{
  ℕ, zero, suc, ◌+◌, ◌-◌, ◌/◌, ◌%◌, Bool, true, false, ◌&&◌, ◌||◌, not, Option, none, some, List,
  [], ◌∷◌, ◌++◌, ltb, leb, nat_beq, if◌then◌else◌, ◌==◌, length, set, drop, Text, text_beq, Value,
  nat, minus, fraction, text, other, nat_eq, map_get, map_set, map_delete,
}
use palancar.Audio.Slots.{slot_at}
use palancar.Contracts.Constants.{
  protocol_version, max_audio_payload_bytes, max_unacknowledged_samples, max_utterance_samples,
}
use palancar.Contracts.Uuid.{is_uuid}
use palancar.Contracts.AudioFrame.{uint32_max}

-- RelayOrderedFrameAcceptorOptions, as the caller gives them and as `assertOptions` leaves them.
pub record GivenOptions : Type 0 where
  pub max_audio_payload_bytes : Value
  pub max_retained_replay_samples : Value
  pub max_utterance_samples : Value

pub record Options : Type 0 where
  pub max_audio_payload_bytes : ℕ
  pub max_retained_replay_samples : ℕ
  pub max_utterance_samples : ℕ

pub data ErrorReason : Type 0 where
  invalid_options uuid : ErrorReason

pub data Result {ℓ} (A : Type ℓ) : Type ℓ where
  ok : A → Result A
  failed : ErrorReason → Result A

pub data Rejection : Type 0 where
  malformed_frame payload_limit utterance_limit conflicting_duplicate gap overlap stale_frame
        wrong_utterance :
      Rejection

-- FrameAcceptanceResult; `highestContiguousExclusiveOffset` comes first.
pub data Acceptance : Type 0 where
  accepted : ℕ → ℕ → List ℕ → Acceptance
  duplicate : ℕ → Acceptance
  rejected : Rejection → ℕ → Acceptance

pub record Candidate : Type 0 where
  pub protocol_version : Value
  pub frame_flags : Value
  pub utterance_id : Value
  pub sequence : Value
  pub offset : Value
  pub payload_length : Value
  pub payload : Option (List ℕ)

pub record ValidatedFrame : Type 0 where
  pub utterance_id : Text
  pub sequence : ℕ
  pub offset : ℕ
  pub sample_count : ℕ
  pub payload : List ℕ

pub record Acceptor : Type 0 where
  pub options : Options
  pub utterance_id : Text
  pub next_sequence : ℕ
  pub next_offset : ℕ
  pub fingerprint_samples : ℕ
  pub fingerprints_by_sequence : List (ℕ × ValidatedFrame)
  pub fingerprint_queue : List (Option ValidatedFrame)
  pub fingerprint_head : ℕ

-- An integer of the range, or `none`.
pub integer_within : ℕ → ℕ → Value → Option ℕ
integer_within low high (nat n) = if leb low n && leb n high then some n else none
integer_within low high (minus n) = none
integer_within low high fraction = none
integer_within low high (text s) = none
integer_within low high other = none

pub even_number : Option ℕ → Option ℕ
even_number none = none
even_number (some n) = if nat_beq (n % 2) 0 then some n else none

pub all_given : Option ℕ → Option ℕ → Option ℕ → Result Options
all_given (some p) (some r) (some u) = ok (record {
  max_audio_payload_bytes = p;
  max_retained_replay_samples = r;
  max_utterance_samples = u;
})
all_given (some p) (some r) none = failed invalid_options
all_given (some p) none u = failed invalid_options
all_given none r u = failed invalid_options

unfoldable pub assert_options : GivenOptions → Result Options
unfolding integer_within even_number all_given
assert_options given =
    all_given (even_number (integer_within 2 max_audio_payload_bytes given.max_audio_payload_bytes))
      (integer_within 1 max_unacknowledged_samples given.max_retained_replay_samples)
      (integer_within 1 max_utterance_samples given.max_utterance_samples)

abbrev pub fresh : Text → Options → Acceptor
fresh utterance_id options = record {
  options = options;
  utterance_id = utterance_id;
  next_sequence = 0;
  next_offset = 0;
  fingerprint_samples = 0;
  fingerprints_by_sequence = [];
  fingerprint_queue = [];
  fingerprint_head = 0;
}

from_options : Text → Result Options → Result Acceptor
from_options utterance_id (ok options) = ok (fresh utterance_id options)
from_options utterance_id (failed e) = failed e

unfoldable pub create : Text → GivenOptions → Result Acceptor
unfolding from_options
create utterance_id given =
    if is_uuid utterance_id then from_options utterance_id (assert_options given) else failed uuid

unfoldable pub reset : Acceptor → Text → Result Acceptor
reset a utterance_id =
    if is_uuid utterance_id then ok (fresh utterance_id a.options) else failed uuid

-- The tests of `#validateFrame` on one field each.
pub is_number : ℕ → Value → Bool
is_number n (nat m) = nat_beq m n
is_number n (minus m) = false
is_number n fraction = false
is_number n (text s) = false
is_number n other = false

pub uuid_text : Value → Option Text
uuid_text (text s) = if is_uuid s then some s else none
uuid_text (nat n) = none
uuid_text (minus n) = none
uuid_text fraction = none
uuid_text other = none

-- A Uint8Array whose length is declared, positive and even.
pub declared_payload : Option (List ℕ) → Value → Option (List ℕ)
unfolding is_number
declared_payload none declared = none
declared_payload (some p) declared =
    if is_number (length p) declared && not (ltb (length p) 2) && nat_beq (length p % 2) 0
    then some p
    else none

pub well_formed : Option Text → Option ℕ → Option ℕ → Option (List ℕ) → Option ValidatedFrame
well_formed (some id) (some s) (some o) (some p) = some (record {
  utterance_id = id;
  sequence = s;
  offset = o;
  sample_count = length p / 2;
  payload = p;
})
well_formed (some id) (some s) (some o) none = none
well_formed (some id) (some s) none p = none
well_formed (some id) none o p = none
well_formed none s o p = none

unfoldable pub read_frame : Candidate → Option ValidatedFrame
unfolding is_number uuid_text integer_within declared_payload well_formed
read_frame c =
    if is_number protocol_version c.protocol_version && is_number 0 c.frame_flags
    then well_formed (uuid_text c.utterance_id) (integer_within 0 uint32_max c.sequence)
        (integer_within 0 uint32_max c.offset) (declared_payload c.payload c.payload_length)
    else none

pub data Validation : Type 0 where
  valid : ValidatedFrame → Validation
  refused : Rejection → Validation

unfoldable pub check_limits : Options → Option ValidatedFrame → Validation
check_limits options none = refused malformed_frame
check_limits options (some f) =
    if ltb options.max_audio_payload_bytes (length f.payload)
    then refused payload_limit
    else (if ltb options.max_utterance_samples (f.offset + f.sample_count)
        then refused utterance_limit
        else valid f)

unfoldable pub validate_frame : Options → Option Candidate → Validation
unfolding read_frame check_limits
validate_frame options none = refused malformed_frame
validate_frame options (some c) = check_limits options (read_frame c)

unfoldable pub evict_first : Acceptor → Option ValidatedFrame → Option Acceptor
evict_first a none = none
evict_first a (some removed) = some (record a {
  fingerprints_by_sequence = map_delete a.fingerprints_by_sequence removed.sequence;
  fingerprint_samples = a.fingerprint_samples - removed.sample_count;
  fingerprint_queue = set a.fingerprint_queue a.fingerprint_head none;
  fingerprint_head = a.fingerprint_head + 1;
})

-- One round of the loop of `#evictFingerprints`; `none` when the loop is left.
unfoldable pub evict_step : Acceptor → Option Acceptor
unfolding evict_first slot_at
evict_step a =
    if ltb a.options.max_retained_replay_samples a.fingerprint_samples
    then evict_first a (slot_at a.fingerprint_queue a.fingerprint_head)
    else none

unfoldable pub evict_loop : ℕ → Acceptor → Acceptor
unfolding evict_step
evict_loop zero a = a
evict_loop (suc fuel) a = elim (evict_step a) [ none ↦ a | some b ↦ evict_loop fuel b ]

unfoldable pub compact : Acceptor → Acceptor
compact a =
    if nat_beq a.fingerprint_head (length a.fingerprint_queue)
    then record a { fingerprint_queue = []; fingerprint_head = 0 }
    else (if leb (max_audio_payload_bytes / 2) a.fingerprint_head
        then record a {
          fingerprint_queue = drop a.fingerprint_head a.fingerprint_queue;
          fingerprint_head = 0;
        }
        else a)

-- The queue has no more frames than slots, so its length is fuel enough.
unfoldable pub evict_fingerprints : Acceptor → Acceptor
evict_fingerprints a = compact (evict_loop (length a.fingerprint_queue) a)

unfoldable pub same_frame : ValidatedFrame → ValidatedFrame → Bool
same_frame fingerprint f =
    nat_beq fingerprint.offset f.offset
    && nat_beq fingerprint.sample_count f.sample_count
    && text_beq fingerprint.payload f.payload

unfoldable pub reject : Acceptor → Rejection → Acceptor × Acceptance
reject a reason = (a, rejected reason a.next_offset)

-- A frame with a sequence number that was accepted before.
unfoldable pub repeated : Acceptor → Option ValidatedFrame → ValidatedFrame → Acceptor × Acceptance
unfolding same_frame reject
repeated a none f = reject a stale_frame
repeated a (some fingerprint) f =
    if same_frame fingerprint f
    then (a, duplicate a.next_offset)
    else reject a conflicting_duplicate

unfoldable pub remember : Acceptor → ValidatedFrame → Acceptor
remember a f = record a {
  fingerprints_by_sequence = map_set a.fingerprints_by_sequence f.sequence f;
  fingerprint_queue = a.fingerprint_queue ++ some f ∷ [];
  fingerprint_samples = a.fingerprint_samples + f.sample_count;
  next_sequence = a.next_sequence + 1;
  next_offset = a.next_offset + f.sample_count;
}

unfoldable pub admit : Acceptor → ValidatedFrame → Acceptor × Acceptance
admit a f =
    let b = evict_fingerprints (remember a f) in
    (b, accepted b.next_offset f.sample_count f.payload)

unfoldable pub place : Acceptor → ValidatedFrame → Acceptor × Acceptance
place a f =
    if not (text_beq f.utterance_id a.utterance_id)
    then reject a wrong_utterance
    else (if ltb f.sequence a.next_sequence
        then repeated a (map_get a.fingerprints_by_sequence f.sequence) f
        else (if ltb a.next_sequence f.sequence
            then reject a (if ltb f.offset a.next_offset then overlap else gap)
            else (if ltb f.offset a.next_offset
                then reject a overlap
                else (if ltb a.next_offset f.offset then reject a gap else admit a f))))

unfoldable pub judge : Acceptor → Validation → Acceptor × Acceptance
judge a (refused reason) = reject a reason
judge a (valid f) = place a f

unfoldable pub accept : Acceptor → Option Candidate → Acceptor × Acceptance
accept a frame = judge a (validate_frame a.options frame)

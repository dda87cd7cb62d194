-- ===== src/Client/State/Types.antt =====
-- apps/g2-client/src/state/index.ts: the states, events and effects. A field that the code checks at
-- run time is a `Value`, a target language and a message a text.
use palancar.Base.{ℕ, Bool, Option, List, Text, Value}

pub data EnrollmentReason : Type 0 where
  missing absolute_expired credential_rejected pairing_failed pairing_uncertain : EnrollmentReason
  revoked revocation_unconfirmed relay_unavailable : EnrollmentReason

pub data Phase : Type 0 where
  checking revoking : Phase

pub record SessionIdentity : Type 0 where
  pub session_id : Text
  pub session_epoch : ℕ

-- `pending` and `sessionReady`, with the fields that go with them.
pub data Pending : Type 0 where
  initial authentication : Pending
  recovery established : SessionIdentity → Pending

pub record ReadyState : Type 0 where
  pub target_language : Text
  pub auth_attempt : ℕ
  pub turn : ℕ
  pub message : Option Text
  pub pending : Pending

-- `ActiveTurnState` and `ActiveTurnData`. The three records are objects: association lists in the
-- order of insertion.
pub record ActiveTurn : Type 0 where
  pub target_language : Text
  pub auth_attempt : ℕ
  pub session_id : Text
  pub session_epoch : ℕ
  pub utterance_id : Text
  pub turn : ℕ
  pub transcript : Text
  pub segment_texts : List (Text × Text)
  pub segment_revisions : List (Text × ℕ)
  pub final_segments : List (Text × Bool)
  pub final_transcript : Option Text
  pub final_segment_id : Option Text
  pub final_revision : Option ℕ

pub record Suggestion : Type 0 where
  pub english_text : Text
  pub selected_target_text : Text

-- The first text is the highlighted or selected target, the number the authentication attempt.
pub data ClientState : Type 0 where
  starting enrolling storage_error target_selection : Text → ℕ → ClientState
  enrollment_checking : Text → ℕ → Phase → ClientState
  enrollment_required : Text → ℕ → EnrollmentReason → ClientState
  ready : ReadyState → ClientState
  listening finalizing : ActiveTurn → ClientState
  -- with the English translation
  translating : ActiveTurn → Option Text → ClientState
  -- with the English translation, the suggestions and the index of the one shown
  results : ActiveTurn → Text → List Suggestion → ℕ → ClientState
  -- the message, `terminal`, the target and the session
  error : Text → Bool → Option Text → Option SessionIdentity → ClientState

pub record TranscriptEvent : Type 0 where
  pub session_id : Value
  pub session_epoch : Value
  pub utterance_id : Value
  pub segment_id : Value
  pub revision : Value
  pub text : Value

pub record LanguageDecisionEvent : Type 0 where
  pub session_id : Value
  pub session_epoch : Value
  pub utterance_id : Value
  pub segment_id : Value
  pub revision : Value
  pub decision : Value
  pub selected_target_language : Value

-- The fields that `translation.ready` and `suggestions.ready` share.
pub record ResultEvent : Type 0 where
  pub session_id : Value
  pub session_epoch : Value
  pub utterance_id : Value
  pub segment_id : Value
  pub accepted_final_revision : Value

pub record SessionReadyEvent : Type 0 where
  pub session_id : Value
  pub session_epoch : Value
  pub target_language : Value
  pub result : Value

-- An element of the `suggestions` array in the copy that `normalizeInput` makes of the event: the own
-- enumerable fields of an object, where the copy has lost one named `__proto__`, or anything else.
pub data RawSuggestion : Type 0 where
  not_record : RawSuggestion
  fields : List (Text × Value) → RawSuggestion

-- The events of `ClientEvent` that `isKnownClientEvent` lets through.
pub data ClientEvent : Type 0 where
  startup_ready startup_failed enrollment_ready enrollment_started : ClientEvent
  enrollment_unavailable enrollment_storage_error enrollment_retry enrollment_reset : ClientEvent
  enrollment_failed_event enrollment_required_event : EnrollmentReason → ClientEvent
  session_authenticated session_auth_storage_error session_auth_unavailable : ℕ → ClientEvent
  session_auth_required : ℕ → EnrollmentReason → ClientEvent
  credential_rejected_event credential_storage_error revocation_started : ClientEvent
  revocation_completed : EnrollmentReason → ClientEvent
  swipe_next swipe_previous : ClientEvent
  press : Option Text → ClientEvent
  session_ready : SessionReadyEvent → ClientEvent
  transcript_partial transcript_final : TranscriptEvent → ClientEvent
  language_decision : LanguageDecisionEvent → ClientEvent
  translation_ready : ResultEvent → Value → ClientEvent
  -- `none` for a value that is not an array
  suggestions_ready : ResultEvent → Option (List RawSuggestion) → ClientEvent
  -- the session's id and epoch
  transport_lost recovery_failed : Value → Value → ClientEvent
  -- the session's id and epoch, the utterance's id and the category
  utterance_aborted : Value → Value → Value → Value → ClientEvent
  fatal shutdown : ClientEvent

pub data ClientEffect : Type 0 where
  check_enrollment_initialize check_enrollment_retry_persistence : ClientEffect
  reset_enrollment cancel_session_boundary : ClientEffect
  persist_target start_session : Text → ClientEffect
  prepare_session_auth : Text → ℕ → ClientEffect
  start_fresh_session : Text → SessionIdentity → ClientEffect
  -- with the utterance's id
  start_audio stop_audio start_utterance commit_utterance : SessionIdentity → Text → ClientEffect
  end_session : SessionIdentity → ClientEffect
  -- with the utterance's id, the segment's id and the accepted revision
  request_translation request_suggestions :
      SessionIdentity → Text → Option Text → Option ℕ → ClientEffect

-- `ClientStateReduction`
pub record Reduction : Type 0 where
  pub state : ClientState
  pub effects : List ClientEffect

-- ===== src/Client/State.antt =====
-- apps/g2-client/src/state/index.ts: `reduceClientState`, one event on one state. The events are those
-- that `isKnownClientEvent` lets through; any other object leaves the state as it is.
pub mod Types
pub mod Guards
pub mod Sessions
pub mod Messages
pub mod Auth
pub mod Transcript
pub mod Outcomes
pub mod Turns
pub mod Enrollment
pub mod Readiness
pub mod Terminal
pub mod Attempts
pub mod Recovery
pub mod Bounds
pub mod Foreign
pub mod Segments
pub mod Applied
pub mod Microphone
use palancar.Base.{
  ℕ, zero, suc, ◌+◌, ◌-◌, ◌*◌, ◌/◌, ◌%◌, ◌^◌, ◌≤◌, ◌<◌, ◌≡◌, refl, sym, ap, ◌∙◌, subst, ◌≢◌, ◌↔◌,
  ◌⊎◌, inl, inr, Bool, true, false, ◌&&◌, ◌||◌, not, min, Option, none, some, List, [], ◌∷◌, ◌++◌,
  map, append-nil, append_assoc, arith, ltb, leb, nat_beq, nat_beq_iff, ltb→lt, lt→ltb, leb→le,
  if◌then◌else◌, Bool-cases, Option-cases, Eq, ◌==◌, length, get_elem?, set, take, drop, replicate,
  length-append, take-append-drop, length-take, length-drop, All, All-append, All-split, Text,
  codes, text_beq, text_beq_iff, text_eq, Value, nat, minus, fraction, text, other, map_get,
  map_set, map_delete, map_has,
}
use palancar.Client.State.Types.{
  EnrollmentReason, Phase, checking, revoking, SessionIdentity, Pending, initial, authentication,
  recovery, established, ReadyState, ActiveTurn, Suggestion, ClientState, starting, enrolling,
  storage_error, target_selection, enrollment_checking, enrollment_required, ready, listening,
  finalizing, translating, results, error, TranscriptEvent, LanguageDecisionEvent, ResultEvent,
  SessionReadyEvent, RawSuggestion, not_record, fields, credential_rejected, ClientEffect,
  check_enrollment_initialize, check_enrollment_retry_persistence, reset_enrollment,
  cancel_session_boundary, persist_target, start_session, prepare_session_auth, start_fresh_session,
  start_audio, stop_audio, start_utterance, commit_utterance, end_session, request_translation,
  request_suggestions, Reduction,
}
use palancar.Client.State.Guards.{
  text_of, nat_of, valid_uuid_v4, valid_positive_uint32, is_positive_uint32, valid_auth_generation,
  valid_auth_attempt, next_auth_attempt, fits_text, valid_text, valid_segment_id,
  max_result_text_length, max_transcript_length, max_transcript_segments, max_uint32,
}
use palancar.Client.State.Sessions.{
  state_target, state_session, turn_identity, event_session, identity_eq, same_session, active_turn,
  cleanup_effects, boundary_cleanup_effects, state_auth_attempt, state_auth_generation, no_change,
  becomes, next_target, previous_target,
}
use palancar.Client.State.Messages.{
  startup_failed_message, fatal_message, shutdown_message, transport_lost_message,
  recovery_failed_message, recovery_invalid_message, utterance_aborted_message,
  malformed_results_message, transcript_overflow_message, session_mismatch_message,
  auth_unavailable_message, LanguageDecisionValue, target, mixed, english, supported_unselected,
  unsupported, uncertain, decision_message,
}
use palancar.Languages.{is_target_language}
use palancar.Contracts.Uuid.{is_uuid}
use palancar.Client.State.Types.{
  startup_ready, startup_failed, enrollment_ready, enrollment_started, enrollment_unavailable,
  enrollment_storage_error, enrollment_retry, enrollment_reset, enrollment_failed_event,
  enrollment_required_event, session_authenticated, session_auth_storage_error,
  session_auth_unavailable, session_auth_required, credential_rejected_event,
  credential_storage_error, revocation_started, revocation_completed, swipe_next, swipe_previous,
  press, session_ready, transcript_partial, transcript_final, language_decision, translation_ready,
  suggestions_ready, transport_lost, recovery_failed, utterance_aborted, fatal, shutdown,
  ClientEvent, relay_unavailable,
}
use palancar.Client.State.Auth.{
  reject_credential, fail_credential_storage, start_revocation, fail_enrollment_storage,
  matches_auth_attempt, fatal_reduction, shutdown_reduction,
}
use palancar.Client.State.Transcript.{update_with}
use palancar.Client.State.Outcomes.{
  language_decision_reduction, translation_ready_reduction, suggestions_ready_reduction,
  swipe_next_result, swipe_previous_result, abort_reduction,
}
use palancar.Client.State.Turns.{press_reduction, handle_transport_lost, authentication_ready}
use palancar.Client.State.Enrollment.{
  on_startup_ready, on_startup_failed, on_enrollment_ready, on_enrollment_required,
  on_enrollment_started, on_enrollment_failed, on_storage_retry, on_attempt, authenticated,
  auth_required, auth_storage_error, auth_unavailable, on_revocation_completed,
}
use palancar.Client.State.Readiness.{on_session_ready, on_recovery_failed}

unfoldable pub on_swipe_next : ClientState → Reduction
on_swipe_next (target_selection l n) = becomes (target_selection (next_target l) n) []
on_swipe_next (results t translated ss i) = swipe_next_result t translated ss i
on_swipe_next s = no_change s

unfoldable pub on_swipe_previous : ClientState → Reduction
on_swipe_previous (target_selection l n) = becomes (target_selection (previous_target l) n) []
on_swipe_previous (results t translated ss i) = swipe_previous_result t translated ss i
on_swipe_previous s = no_change s

unfoldable pub on_partial : ClientState → TranscriptEvent → Reduction
on_partial (listening t) e = update_with listening false t e
on_partial (finalizing t) e = update_with finalizing false t e
on_partial s e = no_change s

unfoldable pub on_final : ClientState → TranscriptEvent → Reduction
on_final (finalizing t) e = update_with finalizing true t e
on_final s e = no_change s

unfoldable pub on_decision : ClientState → LanguageDecisionEvent → Reduction
on_decision (finalizing t) e = language_decision_reduction t e
on_decision s e = no_change s

unfoldable pub on_translation : ClientState → ResultEvent → Value → Reduction
on_translation (translating t translated) e v = translation_ready_reduction t translated e v
on_translation s e v = no_change s

unfoldable pub on_suggestions : ClientState → ResultEvent → Option (List RawSuggestion) → Reduction
on_suggestions (translating t translated) e rs = suggestions_ready_reduction t translated e rs
on_suggestions s e rs = no_change s

unfoldable pub reduce_client_state : ClientState → ClientEvent → Reduction
reduce_client_state s startup_ready = on_startup_ready s
reduce_client_state s startup_failed = on_startup_failed s
reduce_client_state s enrollment_ready = on_enrollment_ready s
reduce_client_state s (enrollment_required_event r) = on_enrollment_required s r
reduce_client_state s enrollment_started = on_enrollment_started s
reduce_client_state s (enrollment_failed_event r) = on_enrollment_failed s r
reduce_client_state s enrollment_unavailable = on_enrollment_failed s relay_unavailable
reduce_client_state s enrollment_storage_error = fail_enrollment_storage s
reduce_client_state s enrollment_retry = on_storage_retry s check_enrollment_retry_persistence
reduce_client_state s enrollment_reset = on_storage_retry s reset_enrollment
reduce_client_state s (session_authenticated n) = on_attempt s n authenticated
reduce_client_state s (session_auth_required n r) = on_attempt s n (auth_required r)
reduce_client_state s (session_auth_storage_error n) = on_attempt s n auth_storage_error
reduce_client_state s (session_auth_unavailable n) = on_attempt s n auth_unavailable
reduce_client_state s credential_rejected_event = reject_credential s
reduce_client_state s credential_storage_error = fail_credential_storage s
reduce_client_state s revocation_started = start_revocation s
reduce_client_state s (revocation_completed r) = on_revocation_completed s r
reduce_client_state s swipe_next = on_swipe_next s
reduce_client_state s swipe_previous = on_swipe_previous s
reduce_client_state s (press u) = press_reduction s u
reduce_client_state s (session_ready e) = on_session_ready s e
reduce_client_state s (transcript_partial e) = on_partial s e
reduce_client_state s (transcript_final e) = on_final s e
reduce_client_state s (language_decision e) = on_decision s e
reduce_client_state s (translation_ready e v) = on_translation s e v
reduce_client_state s (suggestions_ready e rs) = on_suggestions s e rs
reduce_client_state s (transport_lost id epoch) = handle_transport_lost s id epoch
reduce_client_state s (recovery_failed id epoch) = on_recovery_failed s id epoch
reduce_client_state s (utterance_aborted id epoch u c) = abort_reduction s id epoch u c
reduce_client_state s fatal = fatal_reduction s
reduce_client_state s shutdown = shutdown_reduction s

-- A sequence of events, from the first on.
unfoldable pub run : ClientState → List ClientEvent → ClientState
run s [] = s
run s (e ∷ es) = run (reduce_client_state s e).state es

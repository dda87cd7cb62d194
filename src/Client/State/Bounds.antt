-- ===== src/Client/State/Bounds.antt =====
-- apps/g2-client/src/state/index.ts: the bounds of what a client state shows.
mod Cases
pub use Cases.{IsClient, IsTurn}
use palancar.Base.{
  length-map_set, ℕ, suc, ◌≤◌, ◌<◌, ◌≡◌, refl, ap, inl, inr, Bool, true, false, Option, none, some,
  List, [], ◌∷◌, arith, Bool-cases, Option-cases, length, Text, text_eq, Value, map_set,
}
use palancar.Client.State.Types.{
  EnrollmentReason, ReadyState, ActiveTurn, Suggestion, ClientState, target_selection, ready,
  listening, finalizing, translating, results, error, TranscriptEvent, LanguageDecisionEvent,
  ResultEvent, SessionReadyEvent, RawSuggestion, ClientEffect, check_enrollment_retry_persistence,
  reset_enrollment, Reduction,
}
use palancar.Client.State.Guards.{max_transcript_length, max_transcript_segments}
use palancar.Client.State.Sessions.{no_change, becomes, create_initial_state}
use palancar.Client.State.Messages.{transcript_overflow_message}
use palancar.Client.State.Types.{
  startup_ready, startup_failed, enrollment_ready, enrollment_started, enrollment_unavailable,
  enrollment_storage_error, enrollment_retry, enrollment_reset, enrollment_failed_event,
  enrollment_required_event, session_authenticated, session_auth_storage_error,
  session_auth_unavailable, session_auth_required, credential_rejected_event,
  credential_storage_error, revocation_started, revocation_completed, swipe_next, swipe_previous,
  press, session_ready, transcript_partial, transcript_final, language_decision, translation_ready,
  suggestions_ready, transport_lost, recovery_failed, utterance_aborted, fatal, shutdown,
  ClientEvent, relay_unavailable,
}
use palancar.Client.State.Auth.{
  reject_credential, fail_credential_storage, start_revocation, fail_enrollment_storage,
  matches_auth_attempt, fatal_reduction, shutdown_reduction,
}
use palancar.Client.State.Transcript.{update_with, segment_update, updated, object_values, join}
use palancar.Client.State.Outcomes.{
  language_decision_reduction, translation_ready_reduction, suggestions_ready_reduction,
  swipe_next_result, swipe_previous_result, abort_reduction,
}
use palancar.Client.State.Turns.{press_reduction, handle_transport_lost, authentication_ready}
use palancar.Client.State.Enrollment.{
  on_startup_ready, on_startup_failed, on_enrollment_ready, on_enrollment_required,
  on_enrollment_started, on_enrollment_failed, on_storage_retry, on_attempt, authenticated,
  auth_required, auth_storage_error, auth_unavailable, on_revocation_completed,
}
use palancar.Client.State.Readiness.{
  on_session_ready, on_recovery_failed, recover, announce, establish,
}
use palancar.Client.State.{
  on_swipe_next, on_swipe_previous, on_partial, on_final, on_decision, on_translation,
  on_suggestions, reduce_client_state, run,
}
use palancar.Client.State.Transcript.{stored, transcript_overflow}
use palancar.Client.State.Readiness.{invalid_recovery}
use palancar.Client.State.Segments.{Update-cases, segment_update-IsStored, IsStored}
use palancar.Client.State.Outcomes.{normalize_all, accepted_suggestions, normalize_suggestion}
use palancar.Client.State.Bounds.Cases.{
  abort-IsClient, attempt-IsClient, decision-IsClient, enrollment-IsClient, final-IsClient,
  leave-IsClient, lost-IsClient, partial-IsClient, press-IsClient, recovery-IsClient,
  session_ready-IsClient, suggestions-IsClient, swipe_next-IsClient, swipe_previous-IsClient,
  terminate-IsClient, translation-IsClient,
}

-- Every event keeps the bounds.
pub reduce_client_state-IsClient :
    (s : ClientState) (e : ClientEvent) → IsClient s → IsClient (reduce_client_state s e).state
unfolding reduce_client_state authenticated auth_required auth_storage_error auth_unavailable
    authentication_ready becomes
reduce_client_state-IsClient s startup_ready h =
    (enrollment-IsClient s relay_unavailable reset_enrollment h).0
reduce_client_state-IsClient s startup_failed h =
    (enrollment-IsClient s relay_unavailable reset_enrollment h).1
reduce_client_state-IsClient s enrollment_ready h =
    (enrollment-IsClient s relay_unavailable reset_enrollment h).2
reduce_client_state-IsClient s (enrollment_required_event r) h =
    (enrollment-IsClient s r reset_enrollment h).3
reduce_client_state-IsClient s enrollment_started h =
    (enrollment-IsClient s relay_unavailable reset_enrollment h).4
reduce_client_state-IsClient s (enrollment_failed_event r) h =
    (enrollment-IsClient s r reset_enrollment h).5
reduce_client_state-IsClient s enrollment_unavailable h =
    (enrollment-IsClient s relay_unavailable reset_enrollment h).5
reduce_client_state-IsClient s enrollment_storage_error h = (leave-IsClient s h).3
reduce_client_state-IsClient s enrollment_retry h =
    (enrollment-IsClient s relay_unavailable check_enrollment_retry_persistence h).6
reduce_client_state-IsClient s enrollment_reset h =
    (enrollment-IsClient s relay_unavailable reset_enrollment h).6
reduce_client_state-IsClient s (session_authenticated n) h =
    attempt-IsClient s n authenticated (λ r. tt) h
reduce_client_state-IsClient s (session_auth_storage_error n) h =
    attempt-IsClient s n auth_storage_error (λ r. tt) h
reduce_client_state-IsClient s (session_auth_unavailable n) h =
    attempt-IsClient s n auth_unavailable (λ r. tt) h
reduce_client_state-IsClient s (session_auth_required n q) h =
    attempt-IsClient s n (auth_required q) (λ r. tt) h
reduce_client_state-IsClient s credential_rejected_event h = (leave-IsClient s h).0
reduce_client_state-IsClient s credential_storage_error h = (leave-IsClient s h).1
reduce_client_state-IsClient s revocation_started h = (leave-IsClient s h).2
reduce_client_state-IsClient s (revocation_completed r) h =
    (enrollment-IsClient s r reset_enrollment h).7
reduce_client_state-IsClient s swipe_next h = swipe_next-IsClient s h
reduce_client_state-IsClient s swipe_previous h = swipe_previous-IsClient s h
reduce_client_state-IsClient s (press u) h = press-IsClient s u h
reduce_client_state-IsClient s (session_ready e) h = session_ready-IsClient s e h
reduce_client_state-IsClient s (transcript_partial e) h = partial-IsClient s e h
reduce_client_state-IsClient s (transcript_final e) h = final-IsClient s e h
reduce_client_state-IsClient s (language_decision e) h = decision-IsClient s e h
reduce_client_state-IsClient s (translation_ready e v) h = translation-IsClient s e v h
reduce_client_state-IsClient s (suggestions_ready e rs) h = suggestions-IsClient s e rs h
reduce_client_state-IsClient s (transport_lost id epoch) h = lost-IsClient s id epoch h
reduce_client_state-IsClient s (recovery_failed id epoch) h = recovery-IsClient s id epoch h
reduce_client_state-IsClient s (utterance_aborted id epoch u c) h = abort-IsClient s id epoch u c h
reduce_client_state-IsClient s fatal h = (terminate-IsClient s h).0
reduce_client_state-IsClient s shutdown h = (terminate-IsClient s h).1

run_from-IsClient : (s : ClientState) (es : List ClientEvent) → IsClient s → IsClient (run s es)
unfolding run
run_from-IsClient s [] h = h
run_from-IsClient s (e ∷ es) h =
    run_from-IsClient (reduce_client_state s e).state es (reduce_client_state-IsClient s e h)

-- Every state that a sequence of events reaches from an initial state is within the bounds: a turn's
-- transcript joins the texts of at most 64 segments and has at most 4,096 code units, and a results
-- state shows one of its two or three suggestions.
pub run-IsClient :
    (l : Option Text) (es : List ClientEvent) → IsClient (run (create_initial_state l) es)
unfolding create_initial_state
run-IsClient l es = run_from-IsClient (create_initial_state l) es tt

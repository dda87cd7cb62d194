-- ===== src/Client/State/Terminal.antt =====
-- apps/g2-client/src/state/index.ts: `reduceClientState` on terminal error states.
use palancar.Base.{◌≡◌, refl, inl, inr, true, Option, Bool-cases, Text, text_eq}
use palancar.Client.State.Types.{SessionIdentity, error}
use palancar.Client.State.Sessions.{same_session, active_turn, no_change}
use palancar.Client.State.Types.{
  startup_ready, startup_failed, enrollment_ready, enrollment_started, enrollment_unavailable,
  enrollment_storage_error, enrollment_retry, enrollment_reset, enrollment_failed_event,
  enrollment_required_event, session_authenticated, session_auth_storage_error,
  session_auth_unavailable, session_auth_required, credential_rejected_event,
  credential_storage_error, revocation_started, revocation_completed, swipe_next, swipe_previous,
  press, session_ready, transcript_partial, transcript_final, language_decision, translation_ready,
  suggestions_ready, transport_lost, recovery_failed, utterance_aborted, fatal, shutdown,
  ClientEvent,
}
use palancar.Client.State.Auth.{
  reject_credential, fail_credential_storage, start_revocation, fail_enrollment_storage,
  fatal_reduction, shutdown_reduction,
}
use palancar.Client.State.Outcomes.{abort_reduction}
use palancar.Client.State.Turns.{press_reduction, handle_transport_lost}
use palancar.Client.State.Enrollment.{
  on_startup_ready, on_startup_failed, on_enrollment_ready, on_enrollment_required,
  on_enrollment_started, on_enrollment_failed, on_storage_retry, on_attempt,
  on_revocation_completed,
}
use palancar.Client.State.Readiness.{on_session_ready, on_recovery_failed}
use palancar.Client.State.{
  on_swipe_next, on_swipe_previous, on_partial, on_final, on_decision, on_translation,
  on_suggestions, reduce_client_state,
}

-- A terminal error state, whatever it holds, is left as it is by every event, without an effect.
pub reduce_client_state-terminal :
    (m : Text) (l : Option Text) (s : Option SessionIdentity) (e : ClientEvent)
    → reduce_client_state (error m true l s) e ≡ no_change (error m true l s)
unfolding reduce_client_state on_startup_ready on_startup_failed on_enrollment_ready
    on_enrollment_required on_enrollment_started on_enrollment_failed on_storage_retry on_attempt
    on_revocation_completed on_swipe_next on_swipe_previous on_session_ready on_partial on_final
    on_decision on_translation on_suggestions on_recovery_failed press_reduction
    handle_transport_lost abort_reduction reject_credential fail_credential_storage start_revocation
    fail_enrollment_storage fatal_reduction shutdown_reduction active_turn
reduce_client_state-terminal m l s startup_ready = refl
reduce_client_state-terminal m l s startup_failed = refl
reduce_client_state-terminal m l s enrollment_ready = refl
reduce_client_state-terminal m l s enrollment_started = refl
reduce_client_state-terminal m l s enrollment_unavailable = refl
reduce_client_state-terminal m l s enrollment_storage_error = refl
reduce_client_state-terminal m l s enrollment_retry = refl
reduce_client_state-terminal m l s enrollment_reset = refl
reduce_client_state-terminal m l s (enrollment_failed_event r) = refl
reduce_client_state-terminal m l s (enrollment_required_event r) = refl
reduce_client_state-terminal m l s (session_authenticated n) = refl
reduce_client_state-terminal m l s (session_auth_storage_error n) = refl
reduce_client_state-terminal m l s (session_auth_unavailable n) = refl
reduce_client_state-terminal m l s (session_auth_required n r) = refl
reduce_client_state-terminal m l s credential_rejected_event = refl
reduce_client_state-terminal m l s credential_storage_error = refl
reduce_client_state-terminal m l s revocation_started = refl
reduce_client_state-terminal m l s (revocation_completed r) = refl
reduce_client_state-terminal m l s swipe_next = refl
reduce_client_state-terminal m l s swipe_previous = refl
reduce_client_state-terminal m l s (press u) = refl
reduce_client_state-terminal m l s (session_ready e) = refl
reduce_client_state-terminal m l s (transcript_partial e) = refl
reduce_client_state-terminal m l s (transcript_final e) = refl
reduce_client_state-terminal m l s (language_decision e) = refl
reduce_client_state-terminal m l s (translation_ready e v) = refl
reduce_client_state-terminal m l s (suggestions_ready e rs) = refl
reduce_client_state-terminal m l s (transport_lost id epoch) =
    elim (Bool-cases (same_session (error m true l s) id epoch)) [
      | inl h ↦ rw h refl
      | inr h ↦ rw h refl
    ]
reduce_client_state-terminal m l s (recovery_failed id epoch) = refl
reduce_client_state-terminal m l s (utterance_aborted id epoch u c) = refl
reduce_client_state-terminal m l s fatal = refl
reduce_client_state-terminal m l s shutdown = refl

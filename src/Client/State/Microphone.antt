-- ===== src/Client/State/Microphone.antt =====
-- apps/g2-client/src/state/index.ts: the audio effects when a turn stops listening.
use palancar.Base.{
  ◌≡◌, refl, ap, ◌⊎◌, inl, inr, Bool, false, some, List, [], ◌∷◌, ◌++◌, arith, text_eq, Value,
}
use palancar.Client.State.Types.{
  ActiveTurn, ClientState, listening, TranscriptEvent, ClientEffect, cancel_session_boundary,
  start_fresh_session, stop_audio, commit_utterance, Reduction,
}
use palancar.Client.State.Sessions.{
  state_session, turn_identity, active_turn, cleanup_effects, boundary_cleanup_effects, no_change,
  becomes,
}
use palancar.Client.State.Types.{
  startup_ready, startup_failed, enrollment_ready, enrollment_started, enrollment_unavailable,
  enrollment_storage_error, enrollment_retry, enrollment_reset, enrollment_failed_event,
  enrollment_required_event, session_authenticated, session_auth_storage_error,
  session_auth_unavailable, session_auth_required, credential_rejected_event,
  credential_storage_error, revocation_started, revocation_completed, swipe_next, swipe_previous,
  press, session_ready, transcript_partial, transcript_final, language_decision, translation_ready,
  suggestions_ready, transport_lost, recovery_failed, utterance_aborted, fatal, shutdown,
  ClientEvent,
}
use palancar.Client.State.Sessions.{stop_audio_effects, end_session_effects}
use palancar.Client.State.Auth.{
  reject_credential, fail_credential_storage, start_revocation, fail_enrollment_storage,
  fatal_reduction, shutdown_reduction,
}
use palancar.Client.State.Transcript.{update_with, segment_update}
use palancar.Client.State.Outcomes.{abort_reduction}
use palancar.Client.State.Transcript.{transcript_overflow}
use palancar.Client.State.Segments.{segment_update-identity, Update-cases}
use palancar.Client.State.Turns.{press_reduction, handle_transport_lost}
use palancar.Client.State.Enrollment.{
  on_startup_ready, on_startup_failed, on_enrollment_ready, on_enrollment_required,
  on_enrollment_started, on_enrollment_failed, on_storage_retry, on_attempt,
  on_revocation_completed,
}
use palancar.Client.State.Readiness.{on_session_ready, on_recovery_failed}
use palancar.Client.State.{
  on_swipe_next, on_swipe_previous, on_partial, on_final, on_decision, on_translation,
  on_suggestions, reduce_client_state,
}

-- The effects stop the turn's audio.
abbrev pub Stops : ActiveTurn → List ClientEffect → Type 0
Stops t es =
    (before : List ClientEffect) × (after : List ClientEffect) × (es
      ≡ before ++ stop_audio (turn_identity t) t.utterance_id ∷ after)

-- The state still listens to the turn's utterance in the turn's session.
abbrev pub StillListens : ActiveTurn → ClientState → Type 0
StillListens t s =
    (u : ActiveTurn) × (s ≡ listening u)
    × (turn_identity u ≡ turn_identity t)
    × (u.utterance_id ≡ t.utterance_id)

abbrev pub Covered : ActiveTurn → Reduction → Type 0
Covered t r = StillListens t r.state ⊎ Stops t r.effects

stays : (t : ActiveTurn) → Covered t (no_change (listening t))
unfolding no_change
stays t = inl (t, refl, refl, refl)

stop_audio_effects-listening :
    (t : ActiveTurn)
    → state_session (listening t) ≡ some (turn_identity t)
    → stop_audio_effects (listening t) ≡ stop_audio (turn_identity t) t.utterance_id ∷ []
unfolding stop_audio_effects
stop_audio_effects-listening t h = ground (arith, h)

cleanup-Stops :
    (t : ActiveTurn)
    → state_session (listening t) ≡ some (turn_identity t)
    → Stops t (cleanup_effects (listening t))
unfolding cleanup_effects
cleanup-Stops t h = (
  [],
  end_session_effects (listening t),
  ap (λ es. es ++ end_session_effects (listening t)) (stop_audio_effects-listening t h),
)

boundary-Stops :
    (t : ActiveTurn)
    → state_session (listening t) ≡ some (turn_identity t)
    → Stops t (boundary_cleanup_effects (listening t))
unfolding boundary_cleanup_effects
boundary-Stops t h =
    let c = cleanup-Stops t h in
    (cancel_session_boundary ∷ c.0, c.1, ap (◌∷◌ cancel_session_boundary) c.2)

segment-Covered :
    (final : Bool) (t : ActiveTurn) (e : TranscriptEvent)
    → state_session (listening t) ≡ some (turn_identity t)
    → Covered t (update_with listening final t e)
unfolding update_with no_change becomes transcript_overflow
segment-Covered final t e h = elim (Update-cases (segment_update final t e)) [
  | inl k ↦
      let q : update_with listening final t e ≡ no_change (listening t) = ground (arith, k) in
      rw q (stays t)
  | inr (inl k) ↦
      let q : (update_with listening final t e).effects ≡ cleanup_effects (listening t) =
        ground (arith, k) in
      rw q (inr (cleanup-Stops t h))
  | inr (inr (u, k)) ↦
      let (a, b, c) = segment_update-identity final t e u k in
      let q : (update_with listening final t e).state ≡ listening u = ground (arith, k) in
      inl (u, q, a, b)
]

closed-Covered :
    (t : ActiveTurn) (r : Reduction) (es : List ClientEffect)
    → r.effects ≡ stop_audio (turn_identity t) t.utterance_id ∷ es
    → Covered t r
closed-Covered t r es h = inr ([], es, h)

abort-Covered :
    (t : ActiveTurn) (id epoch u c : Value)
    → state_session (listening t) ≡ some (turn_identity t)
    → Covered t (abort_reduction (listening t) id epoch u c)
unfolding abort_reduction no_change becomes active_turn
abort-Covered t id epoch u c h =
    let e : (abort_reduction (listening t) id epoch u c ≡ no_change (listening t))
        ⊎ ((abort_reduction (listening t) id epoch u c).effects
            ≡ stop_audio (turn_identity t) t.utterance_id ∷ []) =
      ground (arith, h) in
    elim e [
      | inl k ↦ rw k (stays t)
      | inr k ↦ closed-Covered t (abort_reduction (listening t) id epoch u c) [] k
    ]

loss-Covered :
    (t : ActiveTurn) (id epoch : Value)
    → state_session (listening t) ≡ some (turn_identity t)
    → Covered t (handle_transport_lost (listening t) id epoch)
unfolding handle_transport_lost no_change becomes
loss-Covered t id epoch h =
    let e : (handle_transport_lost (listening t) id epoch ≡ no_change (listening t))
        ⊎ ((handle_transport_lost (listening t) id epoch).effects
            ≡ stop_audio (turn_identity t) t.utterance_id
              ∷ (start_fresh_session t.target_language (turn_identity t) ∷ [])) =
      ground (arith, h) in
    elim e [
      | inl k ↦ rw k (stays t)
      | inr k ↦
          closed-Covered t (handle_transport_lost (listening t) id epoch)
            (start_fresh_session t.target_language (turn_identity t) ∷ []) k
    ]

-- `leave` from a listening state.
leave-Covered :
    (t : ActiveTurn) (e : ClientEvent) (r : Reduction)
    → state_session (listening t) ≡ some (turn_identity t)
    → (r ≡ no_change (listening t)) ⊎ (r.effects ≡ boundary_cleanup_effects (listening t))
    → Covered t r
leave-Covered t e r h k = elim k [
  | inl k ↦ rw k (stays t)
  | inr k ↦ rw k (inr (boundary-Stops t h))
]

-- A state that listens in a valid session either goes on listening to the same utterance of the same
-- session after an event, or the event's effects stop the utterance's audio.
pub reduce_client_state-listening :
    (t : ActiveTurn) (e : ClientEvent)
    → state_session (listening t) ≡ some (turn_identity t)
    → Covered t (reduce_client_state (listening t) e)
unfolding reduce_client_state becomes on_startup_ready on_startup_failed on_enrollment_ready
    on_enrollment_required on_enrollment_started on_enrollment_failed on_storage_retry on_attempt
    on_revocation_completed on_swipe_next on_swipe_previous on_session_ready on_partial on_final
    on_decision on_translation on_suggestions on_recovery_failed press_reduction reject_credential
    fail_credential_storage start_revocation fail_enrollment_storage fatal_reduction
    shutdown_reduction
reduce_client_state-listening t credential_rejected_event h =
    leave-Covered t credential_rejected_event (reject_credential (listening t)) h (ground arith)
reduce_client_state-listening t credential_storage_error h =
    leave-Covered t credential_storage_error (fail_credential_storage (listening t)) h
      (ground arith)
reduce_client_state-listening t revocation_started h =
    leave-Covered t revocation_started (start_revocation (listening t)) h (ground arith)
reduce_client_state-listening t (press u) h =
    closed-Covered t (press_reduction (listening t) u)
      (commit_utterance (turn_identity t) t.utterance_id ∷ []) refl
reduce_client_state-listening t (transcript_partial e) h = segment-Covered false t e h
reduce_client_state-listening t (transport_lost id epoch) h = loss-Covered t id epoch h
reduce_client_state-listening t (utterance_aborted id epoch u c) h = abort-Covered t id epoch u c h
reduce_client_state-listening t fatal h = inr (cleanup-Stops t h)
reduce_client_state-listening t shutdown h = inr (cleanup-Stops t h)
reduce_client_state-listening t startup_ready h = stays t
reduce_client_state-listening t startup_failed h = stays t
reduce_client_state-listening t enrollment_ready h = stays t
reduce_client_state-listening t enrollment_started h = stays t
reduce_client_state-listening t enrollment_unavailable h = stays t
reduce_client_state-listening t enrollment_storage_error h = stays t
reduce_client_state-listening t enrollment_retry h = stays t
reduce_client_state-listening t enrollment_reset h = stays t
reduce_client_state-listening t (enrollment_failed_event r) h = stays t
reduce_client_state-listening t (enrollment_required_event r) h = stays t
reduce_client_state-listening t (session_authenticated n) h = stays t
reduce_client_state-listening t (session_auth_storage_error n) h = stays t
reduce_client_state-listening t (session_auth_unavailable n) h = stays t
reduce_client_state-listening t (session_auth_required n r) h = stays t
reduce_client_state-listening t (revocation_completed r) h = stays t
reduce_client_state-listening t swipe_next h = stays t
reduce_client_state-listening t swipe_previous h = stays t
reduce_client_state-listening t (session_ready e) h = stays t
reduce_client_state-listening t (transcript_final e) h = stays t
reduce_client_state-listening t (language_decision e) h = stays t
reduce_client_state-listening t (translation_ready e v) h = stays t
reduce_client_state-listening t (suggestions_ready e rs) h = stays t
reduce_client_state-listening t (recovery_failed id epoch) h = stays t

-- ===== src/Client/State/Attempts.antt =====
-- apps/g2-client/src/state/index.ts: the numbers of authentication attempts.
use palancar.Base.{
  ℕ, ◌+◌, ◌<◌, ◌≡◌, refl, ◌⊎◌, inl, inr, Bool, true, false, Option, none, some, List, [], ◌∷◌, ◌++◌,
  arith, Bool-cases, Option-cases, Text, text_eq, Value, other,
}
use palancar.Client.State.Types.{
  EnrollmentReason, ReadyState, ActiveTurn, ClientState, target_selection, ready, listening,
  finalizing, translating, results, TranscriptEvent, LanguageDecisionEvent, ResultEvent,
  SessionReadyEvent, RawSuggestion, ClientEffect, check_enrollment_retry_persistence,
  reset_enrollment, persist_target, prepare_session_auth, Reduction,
}
use palancar.Client.State.Guards.{next_auth_attempt, max_uint32}
use palancar.Client.State.Sessions.{
  state_target, active_turn, state_auth_attempt, state_auth_generation, no_change, becomes,
}
use palancar.Client.State.Types.{
  startup_ready, startup_failed, enrollment_ready, enrollment_started, enrollment_unavailable,
  enrollment_storage_error, enrollment_retry, enrollment_reset, enrollment_failed_event,
  enrollment_required_event, session_authenticated, session_auth_storage_error,
  session_auth_unavailable, session_auth_required, credential_rejected_event,
  credential_storage_error, revocation_started, revocation_completed, swipe_next, swipe_previous,
  press, session_ready, transcript_partial, transcript_final, language_decision, translation_ready,
  suggestions_ready, transport_lost, recovery_failed, utterance_aborted, fatal, shutdown,
  ClientEvent, relay_unavailable,
}
use palancar.Client.State.Auth.{
  reject_credential, fail_credential_storage, start_revocation, fail_enrollment_storage,
  matches_auth_attempt, fatal_reduction, shutdown_reduction,
}
use palancar.Client.State.Transcript.{transcript_overflow, update_with, segment_update}
use palancar.Client.State.Outcomes.{
  language_decision_reduction, translation_ready_reduction, suggestions_ready_reduction,
  swipe_next_result, swipe_previous_result, abort_reduction,
}
use palancar.Client.State.Readiness.{invalid_recovery}
use palancar.Client.State.Segments.{Update-cases, segment_update-identity}
use palancar.Client.State.Turns.{press_reduction, handle_transport_lost, authentication_ready}
use palancar.Client.State.Enrollment.{
  on_startup_ready, on_startup_failed, on_enrollment_ready, on_enrollment_required,
  on_enrollment_started, on_enrollment_failed, on_storage_retry, on_attempt, authenticated,
  auth_required, auth_storage_error, auth_unavailable, on_revocation_completed,
}
use palancar.Client.State.Readiness.{
  on_session_ready, on_recovery_failed, recover, announce, establish,
}
use palancar.Client.State.{
  on_swipe_next, on_swipe_previous, on_partial, on_final, on_decision, on_translation,
  on_suggestions, reduce_client_state,
}

-- The attempt is unchanged, or the reduction ends in an error, which has none.
abbrev pub Keeps : ClientState → Reduction → Type 0
Keeps s r =
    (state_auth_attempt r.state ≡ none) ⊎ (state_auth_attempt r.state ≡ state_auth_attempt s)

-- A press makes the attempt one more, and its effects prepare the authentication of that attempt.
abbrev pub Attempts : ClientState → ClientEvent → Reduction → Type 0
Attempts s e r =
    (u : Option Text) × (n : ℕ) × (l : Text) × (before : List ClientEffect) × (e ≡ press u)
    × (state_auth_attempt s ≡ some n)
    × (state_target s ≡ some l)
    × (n < max_uint32)
    × (r.state ≡ authentication_ready l (n + 1) none)
    × (r.effects ≡ before ++ prepare_session_auth l (n + 1) ∷ [])

leave-Keeps :
    (s : ClientState)
    → Keeps s (reject_credential s)
      × Keeps s (fail_credential_storage s)
      × Keeps s (start_revocation s)
      × Keeps s (fail_enrollment_storage s)
unfolding reject_credential fail_credential_storage start_revocation fail_enrollment_storage
    no_change becomes state_auth_attempt state_target state_auth_generation
leave-Keeps s = ground arith

enrollment-Keeps :
    (s : ClientState) (r : EnrollmentReason) (e : ClientEffect)
    → Keeps s (on_startup_ready s)
      × Keeps s (on_startup_failed s)
      × Keeps s (on_enrollment_ready s)
      × Keeps s (on_enrollment_required s r)
      × Keeps s (on_enrollment_started s)
      × Keeps s (on_enrollment_failed s r)
      × Keeps s (on_storage_retry s e)
      × Keeps s (on_revocation_completed s r)
unfolding on_startup_ready on_startup_failed on_enrollment_ready on_enrollment_required
    on_enrollment_started on_enrollment_failed on_storage_retry on_revocation_completed no_change
    becomes state_auth_attempt
enrollment-Keeps s r e = ground arith

attempt-Keeps :
    (s : ClientState) (n : ℕ) (f : ReadyState → Reduction)
    → ((r : ReadyState) → Keeps (ready r) (f r))
    → Keeps s (on_attempt s n f)
unfolding on_attempt no_change
attempt-Keeps (ready r) n f k = elim (Bool-cases (matches_auth_attempt r n)) [
  | inl e ↦ rw e (k r)
  | inr e ↦ rw e (inr refl)
]
attempt-Keeps s n f k = inr refl

session-Keeps : (s : ClientState) (e : SessionReadyEvent) → Keeps s (on_session_ready s e)
unfolding on_session_ready no_change becomes recover announce establish invalid_recovery
    state_auth_attempt
session-Keeps (ready r) e = ground arith
session-Keeps s e = inr refl

recovery-Keeps : (s : ClientState) (v w : Value) → Keeps s (on_recovery_failed s v w)
unfolding on_recovery_failed no_change becomes state_auth_attempt
recovery-Keeps (ready r) v w = ground arith
recovery-Keeps s v w = inr refl

terminate-Keeps : (s : ClientState) → Keeps s (fatal_reduction s) × Keeps s (shutdown_reduction s)
unfolding fatal_reduction shutdown_reduction no_change becomes state_auth_attempt
terminate-Keeps s = ground arith

update-Keeps :
    (f : ActiveTurn → ClientState) (final : Bool) (t : ActiveTurn) (e : TranscriptEvent)
    → ((u : ActiveTurn) → state_auth_attempt (f u) ≡ some u.auth_attempt)
    → Keeps (f t) (update_with f final t e)
unfolding update_with no_change becomes transcript_overflow state_auth_attempt
update-Keeps f final t e k = elim (Update-cases (segment_update final t e)) [
  | inl c ↦ let q : (update_with f final t e).state ≡ f t = ground (arith, c) in inr (rw q refl)
  | inr (inl c) ↦ inl (ground (arith, c))
  | inr (inr (u, c)) ↦
      let (a, b, d) = segment_update-identity final t e u c in
      let q : (update_with f final t e).state ≡ f u = ground (arith, c) in
      inr (rw q (ground (arith, d, k u, k t)))
]

partial-Keeps : (s : ClientState) (e : TranscriptEvent) → Keeps s (on_partial s e)
unfolding on_partial no_change state_auth_attempt
partial-Keeps (listening t) e = update-Keeps listening false t e (λ u. refl)
partial-Keeps (finalizing t) e = update-Keeps finalizing false t e (λ u. refl)
partial-Keeps s e = inr refl

final-Keeps : (s : ClientState) (e : TranscriptEvent) → Keeps s (on_final s e)
unfolding on_final no_change state_auth_attempt
final-Keeps (finalizing t) e = update-Keeps finalizing true t e (λ u. refl)
final-Keeps s e = inr refl

decision-Keeps : (s : ClientState) (e : LanguageDecisionEvent) → Keeps s (on_decision s e)
unfolding on_decision no_change becomes state_auth_attempt language_decision_reduction
decision-Keeps (finalizing t) e = ground arith
decision-Keeps s e = inr refl

results-Keeps :
    (s : ClientState) (e : ResultEvent) (v : Value) (rs : Option (List RawSuggestion))
    → Keeps s (on_translation s e v) × Keeps s (on_suggestions s e rs)
unfolding on_translation on_suggestions no_change becomes state_auth_attempt
    translation_ready_reduction suggestions_ready_reduction
results-Keeps (translating t none) e v rs = (ground arith, inr refl)
results-Keeps (translating t (some translated)) e v rs = (ground arith, ground arith)
results-Keeps s e v rs = (inr refl, inr refl)

swipe-Keeps : (s : ClientState) → Keeps s (on_swipe_next s) × Keeps s (on_swipe_previous s)
unfolding on_swipe_next on_swipe_previous swipe_next_result swipe_previous_result no_change becomes
    state_auth_attempt
swipe-Keeps s = ground arith

loss-Keeps :
    (s : ClientState) (v w u c : Value)
    → Keeps s (handle_transport_lost s v w) × Keeps s (abort_reduction s v w u c)
unfolding handle_transport_lost abort_reduction active_turn no_change becomes state_auth_attempt
loss-Keeps s v w u c = ground arith

next_auth_attempt-some : (n m : ℕ) → next_auth_attempt n ≡ some m → (m ≡ n + 1) × (n < max_uint32)
unfolding next_auth_attempt
next_auth_attempt-some n m h = ground arith

attempts :
    (s : ClientState) (u : Option Text) (n m : ℕ) (l : Text) (before : List ClientEffect)
    → state_auth_attempt s ≡ some n
    → state_target s ≡ some l
    → next_auth_attempt n ≡ some m
    → Attempts s
        (press u)
        (becomes (authentication_ready l m none) (before ++ prepare_session_auth l m ∷ []))
unfolding becomes
attempts s u n m l before h t k =
    let (a, b) = next_auth_attempt-some n m k in rw a (u, n, l, before, refl, h, t, b, refl, refl)

press_ready-Keeps :
    (r : ReadyState) (u : Option Text)
    → Keeps (ready r) (press_reduction (ready r) u)
      ⊎ Attempts (ready r) (press u) (press_reduction (ready r) u)
unfolding press_reduction no_change becomes state_auth_attempt state_target
press_ready-Keeps r u = elim (Option-cases (next_auth_attempt r.auth_attempt)) [
  | inl h ↦ inl (ground (arith, h))
  | inr (m, h) ↦
      let e : Keeps (ready r) (press_reduction (ready r) u)
          ⊎ (press_reduction (ready r) u
              ≡ becomes (authentication_ready r.target_language m none)
                  (prepare_session_auth r.target_language m ∷ [])) =
        ground (arith, h) in
      elim e [
        | inl k ↦ inl k
        | inr k ↦
            rw k (inr (attempts (ready r) u r.auth_attempt m r.target_language [] refl refl h))
      ]
]

press-Keeps :
    (s : ClientState) (u : Option Text)
    → Keeps s (press_reduction s u) ⊎ Attempts s (press u) (press_reduction s u)
unfolding press_reduction no_change becomes state_auth_attempt state_target
press-Keeps (target_selection l n) u = elim (Option-cases (next_auth_attempt n)) [
  | inl h ↦ inl (inr (ground (arith, h)))
  | inr (m, h) ↦
      let e : press_reduction (target_selection l n) u
          ≡ becomes (authentication_ready l m none)
              (persist_target l ∷ (prepare_session_auth l m ∷ [])) =
        ground (arith, h) in
      rw e (inr (attempts (target_selection l n) u n m l (persist_target l ∷ []) refl refl h))
]
press-Keeps (ready r) u = press_ready-Keeps r u
press-Keeps (listening t) u = inl (inr refl)
press-Keeps (results t translated ss i) u = inl (ground arith)
press-Keeps s u = inl (inr refl)

-- An event keeps the number of the authentication attempt, or ends in an error, or is a press that
-- raises the number by one, below its limit, and prepares the attempt of that number for the state's
-- target.
pub reduce_client_state-attempt :
    (s : ClientState) (e : ClientEvent)
    → Keeps s (reduce_client_state s e) ⊎ Attempts s e (reduce_client_state s e)
unfolding reduce_client_state authenticated auth_required auth_storage_error auth_unavailable
    authentication_ready becomes state_auth_attempt
reduce_client_state-attempt s startup_ready =
    inl (enrollment-Keeps s relay_unavailable reset_enrollment).0
reduce_client_state-attempt s startup_failed =
    inl (enrollment-Keeps s relay_unavailable reset_enrollment).1
reduce_client_state-attempt s enrollment_ready =
    inl (enrollment-Keeps s relay_unavailable reset_enrollment).2
reduce_client_state-attempt s (enrollment_required_event r) =
    inl (enrollment-Keeps s r reset_enrollment).3
reduce_client_state-attempt s enrollment_started =
    inl (enrollment-Keeps s relay_unavailable reset_enrollment).4
reduce_client_state-attempt s (enrollment_failed_event r) =
    inl (enrollment-Keeps s r reset_enrollment).5
reduce_client_state-attempt s enrollment_unavailable =
    inl (enrollment-Keeps s relay_unavailable reset_enrollment).5
reduce_client_state-attempt s enrollment_storage_error = inl (leave-Keeps s).3
reduce_client_state-attempt s enrollment_retry =
    inl (enrollment-Keeps s relay_unavailable check_enrollment_retry_persistence).6
reduce_client_state-attempt s enrollment_reset =
    inl (enrollment-Keeps s relay_unavailable reset_enrollment).6
reduce_client_state-attempt s (session_authenticated n) =
    inl (attempt-Keeps s n authenticated (λ r. inr refl))
reduce_client_state-attempt s (session_auth_storage_error n) =
    inl (attempt-Keeps s n auth_storage_error (λ r. inr refl))
reduce_client_state-attempt s (session_auth_unavailable n) =
    inl (attempt-Keeps s n auth_unavailable (λ r. inr refl))
reduce_client_state-attempt s (session_auth_required n q) =
    inl (attempt-Keeps s n (auth_required q) (λ r. inr refl))
reduce_client_state-attempt s credential_rejected_event = inl (leave-Keeps s).0
reduce_client_state-attempt s credential_storage_error = inl (leave-Keeps s).1
reduce_client_state-attempt s revocation_started = inl (leave-Keeps s).2
reduce_client_state-attempt s (revocation_completed r) =
    inl (enrollment-Keeps s r reset_enrollment).7
reduce_client_state-attempt s swipe_next = inl (swipe-Keeps s).0
reduce_client_state-attempt s swipe_previous = inl (swipe-Keeps s).1
reduce_client_state-attempt s (session_ready e) = inl (session-Keeps s e)
reduce_client_state-attempt s (transcript_partial e) = inl (partial-Keeps s e)
reduce_client_state-attempt s (transcript_final e) = inl (final-Keeps s e)
reduce_client_state-attempt s (language_decision e) = inl (decision-Keeps s e)
reduce_client_state-attempt s (translation_ready e v) = inl (results-Keeps s e v none).0
reduce_client_state-attempt s (suggestions_ready e rs) = inl (results-Keeps s e other rs).1
reduce_client_state-attempt s (transport_lost v w) = inl (loss-Keeps s v w other other).0
reduce_client_state-attempt s (recovery_failed v w) = inl (recovery-Keeps s v w)
reduce_client_state-attempt s (utterance_aborted v w u c) = inl (loss-Keeps s v w u c).1
reduce_client_state-attempt s fatal = inl (terminate-Keeps s).0
reduce_client_state-attempt s shutdown = inl (terminate-Keeps s).1
reduce_client_state-attempt s (press u) = press-Keeps s u

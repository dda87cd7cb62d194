-- ===== src/Client/State/Bounds/Cases.antt =====
-- apps/g2-client/src/state/index.ts: the bounds of a state in each case of the reducer.
use palancar.Base.{
  length-map_set, ℕ, suc, ◌≤◌, ◌<◌, ◌≡◌, refl, ap, inl, inr, Bool, true, false, Option, none, some,
  List, [], ◌∷◌, arith, Bool-cases, Option-cases, length, Text, text_eq, Value, map_set,
}
use palancar.Client.State.Types.{
  EnrollmentReason, ReadyState, ActiveTurn, Suggestion, ClientState, target_selection, ready,
  listening, finalizing, translating, results, error, TranscriptEvent, LanguageDecisionEvent,
  ResultEvent, SessionReadyEvent, RawSuggestion, ClientEffect, Reduction,
}
use palancar.Client.State.Guards.{max_transcript_length, max_transcript_segments}
use palancar.Client.State.Sessions.{no_change, becomes}
use palancar.Client.State.Messages.{transcript_overflow_message}
use palancar.Client.State.Auth.{
  reject_credential, fail_credential_storage, start_revocation, fail_enrollment_storage,
  matches_auth_attempt, fatal_reduction, shutdown_reduction,
}
use palancar.Client.State.Transcript.{update_with, segment_update, updated, object_values, join}
use palancar.Client.State.Outcomes.{
  language_decision_reduction, translation_ready_reduction, suggestions_ready_reduction,
  swipe_next_result, swipe_previous_result, abort_reduction,
}
use palancar.Client.State.Turns.{press_reduction, handle_transport_lost, authentication_ready}
use palancar.Client.State.Enrollment.{
  on_startup_ready, on_startup_failed, on_enrollment_ready, on_enrollment_required,
  on_enrollment_started, on_enrollment_failed, on_storage_retry, on_attempt,
  on_revocation_completed,
}
use palancar.Client.State.Readiness.{
  on_session_ready, on_recovery_failed, recover, announce, establish,
}
use palancar.Client.State.{
  on_swipe_next, on_swipe_previous, on_partial, on_final, on_decision, on_translation,
  on_suggestions,
}
use palancar.Client.State.Transcript.{stored, transcript_overflow}
use palancar.Client.State.Readiness.{invalid_recovery}
use palancar.Client.State.Segments.{Update-cases, segment_update-IsStored, IsStored}
use palancar.Client.State.Outcomes.{normalize_all, accepted_suggestions, normalize_suggestion}

-- The transcript joins the segments' texts, and both keep to their limits.
abbrev pub IsTurn : ActiveTurn → Type 0
IsTurn t =
    (t.transcript ≡ join (object_values t.segment_texts))
    × (length t.transcript ≤ max_transcript_length)
    × (length t.segment_texts ≤ max_transcript_segments)

-- A turn's bounds, and two or three suggestions of which the index shows one.
abbrev pub IsClient : ClientState → Type 0
IsClient (listening t) = IsTurn t
IsClient (finalizing t) = IsTurn t
IsClient (translating t translated) = IsTurn t
IsClient (results t translated ss i) =
    IsTurn t × (2 ≤ length ss) × (length ss ≤ 3) × (i < length ss)
IsClient s = Unit {0}

stored-IsTurn :
    (final : Bool) (t : ActiveTurn) (g : Text) (r : ℕ) (s : Text) (u : ActiveTurn)
    → IsTurn t
    → IsStored final t g r s u
    → IsTurn u
unfolding stored
stored-IsTurn final t g r s u h (l, k, b, c) =
    let e : u.transcript ≡ join (object_values u.segment_texts) = rw k refl in
    let m : u.segment_texts ≡ map_set t.segment_texts g s = rw k refl in
    let n : length u.segment_texts ≤ max_transcript_segments =
      ground (arith, m, h.2, c, length-map_set t.segment_texts g s) in
    (e, b, n)

segment_update-IsTurn :
    (final : Bool) (t : ActiveTurn) (e : TranscriptEvent) (u : ActiveTurn)
    → IsTurn t
    → segment_update final t e ≡ updated u
    → IsTurn u
segment_update-IsTurn final t e u h k =
    let (g, r, s, i, f, m, n) = segment_update-IsStored final t e u k in
    stored-IsTurn final t g r s u h i

update-IsClient :
    (f : ActiveTurn → ClientState) (final : Bool) (t : ActiveTurn) (e : TranscriptEvent)
    → ((u : ActiveTurn) → IsTurn u → IsClient (f u))
    → IsTurn t
    → IsClient (update_with f final t e).state
unfolding update_with no_change becomes transcript_overflow
update-IsClient f final t e k h = elim (Update-cases (segment_update final t e)) [
  | inl c ↦ let q : (update_with f final t e).state ≡ f t = ground (arith, c) in rw q (k t h)
  | inr (inl c) ↦
      let q : (update_with f final t e).state
          ≡ error transcript_overflow_message true (some t.target_language) none =
        ground (arith, c) in
      rw q tt
  | inr (inr (u, c)) ↦
      let q : (update_with f final t e).state ≡ f u = ground (arith, c) in
      rw q (k u (segment_update-IsTurn final t e u h c))
]

pub partial-IsClient :
    (s : ClientState) (e : TranscriptEvent) → IsClient s → IsClient (on_partial s e).state
unfolding on_partial no_change
partial-IsClient (listening t) e h = update-IsClient listening false t e (λ u k. k) h
partial-IsClient (finalizing t) e h = update-IsClient finalizing false t e (λ u k. k) h
partial-IsClient s e h = h

pub final-IsClient :
    (s : ClientState) (e : TranscriptEvent) → IsClient s → IsClient (on_final s e).state
unfolding on_final no_change
final-IsClient (finalizing t) e h = update-IsClient finalizing true t e (λ u k. k) h
final-IsClient s e h = h

pub decision-IsClient :
    (s : ClientState) (e : LanguageDecisionEvent) → IsClient s → IsClient (on_decision s e).state
unfolding on_decision no_change becomes language_decision_reduction
decision-IsClient (finalizing t) e h = ground arith
decision-IsClient s e h = h

pub translation-IsClient :
    (s : ClientState) (e : ResultEvent) (v : Value)
    → IsClient s
    → IsClient (on_translation s e v).state
unfolding on_translation no_change becomes translation_ready_reduction
translation-IsClient (translating t translated) e v h = ground arith
translation-IsClient s e v h = h

length-normalize_all :
    (rs : List RawSuggestion) (ss : List Suggestion)
    → normalize_all rs ≡ some ss
    → length ss ≡ length rs
unfolding normalize_all
length-normalize_all [] ss h = ground arith
length-normalize_all (r ∷ rs) ss h = elim (Option-cases (normalize_suggestion r)) [
  | inl k ↦ ground (arith, k)
  | inr (x, k) ↦ elim (Option-cases (normalize_all rs)) [
    | inl l ↦ ground (arith, k, l)
    | inr (xs, l) ↦
        let q : ss ≡ x ∷ xs = ground (arith, k, l) in rw q (ap suc (length-normalize_all rs xs l))
  ]
]

length-accepted_suggestions :
    (rs : Option (List RawSuggestion)) (ss : List Suggestion)
    → accepted_suggestions rs ≡ some ss
    → (2 ≤ length ss) × (length ss ≤ 3)
unfolding accepted_suggestions
length-accepted_suggestions none ss h = ground arith
length-accepted_suggestions (some rs) ss h =
    let k : normalize_all rs ≡ some ss = ground arith in
    ground (arith, length-normalize_all rs ss k)

pub suggestions-IsClient :
    (s : ClientState) (e : ResultEvent) (rs : Option (List RawSuggestion))
    → IsClient s
    → IsClient (on_suggestions s e rs).state
unfolding on_suggestions no_change becomes suggestions_ready_reduction
suggestions-IsClient (translating t none) e rs h = h
suggestions-IsClient (translating t (some translated)) e rs h =
    elim (Option-cases (accepted_suggestions rs)) [
      | inl k ↦ ground (arith, k)
      | inr (ss, k) ↦ ground (arith, k, length-accepted_suggestions rs ss k)
    ]
suggestions-IsClient s e rs h = h

pub swipe_next-IsClient : (s : ClientState) → IsClient s → IsClient (on_swipe_next s).state
unfolding on_swipe_next swipe_next_result no_change becomes
swipe_next-IsClient (results t translated ss i) h = ground arith
swipe_next-IsClient (target_selection l n) h = tt
swipe_next-IsClient s h = h

join-object_values_empty : join (object_values []) ≡ []
unfolding join object_values
join-object_values_empty = refl

pub press-IsClient :
    (s : ClientState) (u : Option Text) → IsClient s → IsClient (press_reduction s u).state
unfolding press_reduction authentication_ready no_change becomes
press-IsClient (target_selection l n) u h = ground arith
press-IsClient (ready r) u h = ground (arith, join-object_values_empty)
press-IsClient (listening t) u h = h
press-IsClient (results t translated ss i) u h = ground (arith, join-object_values_empty)
press-IsClient s u h = h

pub abort-IsClient :
    (s : ClientState) (v w u c : Value) → IsClient s → IsClient (abort_reduction s v w u c).state
unfolding abort_reduction no_change becomes
abort-IsClient s v w u c h = ground arith

pub lost-IsClient :
    (s : ClientState) (v w : Value) → IsClient s → IsClient (handle_transport_lost s v w).state
unfolding handle_transport_lost no_change becomes
lost-IsClient s v w h = ground arith

pub swipe_previous-IsClient : (s : ClientState) → IsClient s → IsClient (on_swipe_previous s).state
unfolding on_swipe_previous swipe_previous_result no_change becomes
swipe_previous-IsClient (results t translated ss i) h = ground arith
swipe_previous-IsClient (target_selection l n) h = tt
swipe_previous-IsClient s h = h

pub attempt-IsClient :
    (s : ClientState) (n : ℕ) (f : ReadyState → Reduction)
    → ((r : ReadyState) → IsClient (f r).state)
    → IsClient s
    → IsClient (on_attempt s n f).state
unfolding on_attempt no_change
attempt-IsClient (ready r) n f k h = elim (Bool-cases (matches_auth_attempt r n)) [
  | inl e ↦ rw e (k r)
  | inr e ↦ rw e tt
]
attempt-IsClient s n f k h = h

pub session_ready-IsClient :
    (s : ClientState) (e : SessionReadyEvent) → IsClient s → IsClient (on_session_ready s e).state
unfolding on_session_ready no_change becomes recover announce establish invalid_recovery
session_ready-IsClient (ready r) e h = ground arith
session_ready-IsClient s e h = h

pub recovery-IsClient :
    (s : ClientState) (v w : Value) → IsClient s → IsClient (on_recovery_failed s v w).state
unfolding on_recovery_failed no_change becomes
recovery-IsClient (ready r) v w h = ground arith
recovery-IsClient s v w h = h

pub leave-IsClient :
    (s : ClientState)
    → IsClient s
    → IsClient (reject_credential s).state
      × IsClient (fail_credential_storage s).state
      × IsClient (start_revocation s).state
      × IsClient (fail_enrollment_storage s).state
unfolding reject_credential fail_credential_storage start_revocation fail_enrollment_storage
    no_change becomes
leave-IsClient s h = ground arith

pub enrollment-IsClient :
    (s : ClientState) (r : EnrollmentReason) (e : ClientEffect)
    → IsClient s
    → IsClient (on_startup_ready s).state
      × IsClient (on_startup_failed s).state
      × IsClient (on_enrollment_ready s).state
      × IsClient (on_enrollment_required s r).state
      × IsClient (on_enrollment_started s).state
      × IsClient (on_enrollment_failed s r).state
      × IsClient (on_storage_retry s e).state
      × IsClient (on_revocation_completed s r).state
unfolding on_startup_ready on_startup_failed on_enrollment_ready on_enrollment_required
    on_enrollment_started on_enrollment_failed on_storage_retry on_revocation_completed no_change
    becomes
enrollment-IsClient s r e h = ground arith

pub terminate-IsClient :
    (s : ClientState)
    → IsClient s
    → IsClient (fatal_reduction s).state × IsClient (shutdown_reduction s).state
unfolding fatal_reduction shutdown_reduction no_change becomes
terminate-IsClient s h = ground arith

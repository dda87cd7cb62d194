-- ===== src/Client/State/Foreign.antt =====
-- apps/g2-client/src/state/index.ts: events of another session.
use palancar.Base.{
  ◌≡◌, refl, Bool, true, false, not, Option, none, some, List, arith, text_eq, Value,
}
use palancar.Client.State.Types.{
  ActiveTurn, ClientState, ready, listening, finalizing, translating, TranscriptEvent,
  LanguageDecisionEvent, ResultEvent, RawSuggestion,
}
use palancar.Client.State.Sessions.{state_session, same_session, no_change}
use palancar.Client.State.Types.{
  startup_ready, startup_failed, enrollment_ready, enrollment_started, enrollment_unavailable,
  enrollment_storage_error, enrollment_retry, enrollment_reset, enrollment_failed_event,
  enrollment_required_event, session_authenticated, session_auth_storage_error,
  session_auth_unavailable, session_auth_required, credential_rejected_event,
  credential_storage_error, revocation_started, revocation_completed, swipe_next, swipe_previous,
  press, session_ready, transcript_partial, transcript_final, language_decision, translation_ready,
  suggestions_ready, transport_lost, recovery_failed, utterance_aborted, fatal, shutdown,
  ClientEvent,
}
use palancar.Client.State.Transcript.{update_with, segment_update}
use palancar.Client.State.Outcomes.{
  language_decision_reduction, translation_ready_reduction, suggestions_ready_reduction, is_about,
  abort_reduction,
}
use palancar.Client.State.Turns.{handle_transport_lost}
use palancar.Client.State.Readiness.{on_recovery_failed}
use palancar.Client.State.{
  on_partial, on_final, on_decision, on_translation, on_suggestions, reduce_client_state,
}
use palancar.Client.State.Transcript.{matching}

-- The session that an event of a session names; `none` for any other event, `session.ready` included.
abbrev pub named_session : ClientEvent → Option (Value × Value)
named_session (transcript_partial e) = some (e.session_id, e.session_epoch)
named_session (transcript_final e) = some (e.session_id, e.session_epoch)
named_session (language_decision e) = some (e.session_id, e.session_epoch)
named_session (translation_ready e v) = some (e.session_id, e.session_epoch)
named_session (suggestions_ready e rs) = some (e.session_id, e.session_epoch)
named_session (transport_lost id epoch) = some (id, epoch)
named_session (recovery_failed id epoch) = some (id, epoch)
named_session (utterance_aborted id epoch u c) = some (id, epoch)
named_session e = none

-- The event names a session other than the state's, or the state has none.
abbrev pub is_foreign : ClientState → ClientEvent → Bool
is_foreign s e = elim (named_session e) [ none ↦ false | some (v, w) ↦ not (same_session s v w) ]

update-foreign :
    (f : ActiveTurn → ClientState) (final : Bool) (t : ActiveTurn) (e : TranscriptEvent)
    → same_session (listening t) e.session_id e.session_epoch ≡ false
    → update_with f final t e ≡ no_change (f t)
unfolding update_with segment_update matching
update-foreign f final t e h = ground (arith, h)

partial-foreign :
    (s : ClientState) (e : TranscriptEvent)
    → same_session s e.session_id e.session_epoch ≡ false
    → on_partial s e ≡ no_change s
unfolding on_partial same_session state_session
partial-foreign (listening t) e h = update-foreign listening false t e h
partial-foreign (finalizing t) e h = update-foreign finalizing false t e h
partial-foreign s e h = refl

final-foreign :
    (s : ClientState) (e : TranscriptEvent)
    → same_session s e.session_id e.session_epoch ≡ false
    → on_final s e ≡ no_change s
unfolding on_final same_session state_session
final-foreign (finalizing t) e h = update-foreign finalizing true t e h
final-foreign s e h = refl

is_about-foreign :
    (t : ActiveTurn) (e : ResultEvent)
    → same_session (finalizing t) e.session_id e.session_epoch ≡ false
    → is_about t e ≡ false
unfolding is_about
is_about-foreign t e h = ground (arith, h)

decision-foreign :
    (s : ClientState) (e : LanguageDecisionEvent)
    → same_session s e.session_id e.session_epoch ≡ false
    → on_decision s e ≡ no_change s
unfolding on_decision language_decision_reduction is_about
decision-foreign (finalizing t) e h = ground (arith, h)
decision-foreign s e h = refl

translation-foreign :
    (s : ClientState) (e : ResultEvent) (v : Value)
    → same_session s e.session_id e.session_epoch ≡ false
    → on_translation s e v ≡ no_change s
unfolding on_translation translation_ready_reduction same_session state_session
translation-foreign (translating t translated) e v h = ground (arith, is_about-foreign t e h)
translation-foreign s e v h = refl

suggestions-foreign :
    (s : ClientState) (e : ResultEvent) (rs : Option (List RawSuggestion))
    → same_session s e.session_id e.session_epoch ≡ false
    → on_suggestions s e rs ≡ no_change s
unfolding on_suggestions suggestions_ready_reduction same_session state_session
suggestions-foreign (translating t none) e rs h = refl
suggestions-foreign (translating t (some translated)) e rs h =
    ground (arith, is_about-foreign t e h)
suggestions-foreign s e rs h = refl

lost-foreign :
    (s : ClientState) (v w : Value)
    → same_session s v w ≡ false
    → handle_transport_lost s v w ≡ no_change s
unfolding handle_transport_lost
lost-foreign s v w h = rw h refl

recovery-foreign :
    (s : ClientState) (v w : Value)
    → same_session s v w ≡ false
    → on_recovery_failed s v w ≡ no_change s
unfolding on_recovery_failed
recovery-foreign (ready r) v w h = ground (arith, h)
recovery-foreign s v w h = refl

abort-foreign :
    (s : ClientState) (v w u c : Value)
    → same_session s v w ≡ false
    → abort_reduction s v w u c ≡ no_change s
unfolding abort_reduction
abort-foreign s v w u c h = ground (arith, h)

-- An event of another session, `session.ready` aside, leaves the state as it is, without an effect.
pub reduce_client_state-foreign :
    (s : ClientState) (e : ClientEvent)
    → is_foreign s e ≡ true
    → reduce_client_state s e ≡ no_change s
unfolding reduce_client_state
reduce_client_state-foreign s (transcript_partial e) h = partial-foreign s e (ground arith)
reduce_client_state-foreign s (transcript_final e) h = final-foreign s e (ground arith)
reduce_client_state-foreign s (language_decision e) h = decision-foreign s e (ground arith)
reduce_client_state-foreign s (translation_ready e v) h = translation-foreign s e v (ground arith)
reduce_client_state-foreign s (suggestions_ready e rs) h = suggestions-foreign s e rs (ground arith)
reduce_client_state-foreign s (transport_lost id epoch) h = lost-foreign s id epoch (ground arith)
reduce_client_state-foreign s (recovery_failed id epoch) h =
    recovery-foreign s id epoch (ground arith)
reduce_client_state-foreign s (utterance_aborted id epoch u c) h =
    abort-foreign s id epoch u c (ground arith)
reduce_client_state-foreign s startup_ready h = cc
reduce_client_state-foreign s startup_failed h = cc
reduce_client_state-foreign s enrollment_ready h = cc
reduce_client_state-foreign s enrollment_started h = cc
reduce_client_state-foreign s enrollment_unavailable h = cc
reduce_client_state-foreign s enrollment_storage_error h = cc
reduce_client_state-foreign s enrollment_retry h = cc
reduce_client_state-foreign s enrollment_reset h = cc
reduce_client_state-foreign s (enrollment_failed_event r) h = cc
reduce_client_state-foreign s (enrollment_required_event r) h = cc
reduce_client_state-foreign s (session_authenticated n) h = cc
reduce_client_state-foreign s (session_auth_storage_error n) h = cc
reduce_client_state-foreign s (session_auth_unavailable n) h = cc
reduce_client_state-foreign s (session_auth_required n r) h = cc
reduce_client_state-foreign s credential_rejected_event h = cc
reduce_client_state-foreign s credential_storage_error h = cc
reduce_client_state-foreign s revocation_started h = cc
reduce_client_state-foreign s (revocation_completed r) h = cc
reduce_client_state-foreign s swipe_next h = cc
reduce_client_state-foreign s swipe_previous h = cc
reduce_client_state-foreign s (press u) h = cc
reduce_client_state-foreign s (session_ready e) h = cc
reduce_client_state-foreign s fatal h = cc
reduce_client_state-foreign s shutdown h = cc

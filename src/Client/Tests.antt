-- ===== src/Client/Tests.antt =====
-- apps/g2-client/src/state/index.ts: a turn from a press to the results.
use palancar.Base.{
  is_space, ℕ, ◌≡◌, ◌⊎◌, refl, subst, true, false, none, some, List, [], ◌∷◌, Text, codes, arith,
  nat, text, map_get, map_set,
}
use palancar.Contracts.Uuid.{is_uuid}
use palancar.Client.State.Types.{
  SessionIdentity, recovery, ReadyState, ActiveTurn, Suggestion, ready, listening, results, error,
  LanguageDecisionEvent, ResultEvent, RawSuggestion, fields, session_authenticated,
  transcript_final, language_decision, translation_ready, suggestions_ready, ClientState,
  target_selection, SessionReadyEvent, TranscriptEvent, ClientEvent, startup_ready,
  enrollment_ready, press, session_ready, transcript_partial, swipe_next, swipe_previous,
}
use palancar.Client.State.Guards.{
  is_positive_uint32, valid_uuid_v4, text_of, valid_positive_uint32, nat_of, valid_segment_id,
  is_segment_id, fits_text, is_blank,
}
use palancar.Client.State.Sessions.{
  state_session, turn_identity, no_change, create_initial_state, valid_identity, pending_session,
  same_session, event_session, identity_eq,
}
use palancar.Client.State.Transcript.{
  segment_update, updated, stored, carried, is_final, matching, revision_of, take_text, store, join,
  object_values,
}
use palancar.Client.State.{reduce_client_state, run}
use palancar.Client.State.Terminal.{reduce_client_state-terminal}
use palancar.Client.State.Applied.{Applies, Finishes, Leaves, Same, segment_update-updated}
use palancar.Client.State.Microphone.{Covered, reduce_client_state-listening}
use palancar.Client.State.Foreign.{is_foreign, reduce_client_state-foreign}
use palancar.Client.State.Bounds.{IsClient, run-IsClient}
use palancar.Client.State.Recovery.{
  Recovered, Refused, reduce_client_state-recovery, swipe_previous-next,
}
use palancar.Client.State.Attempts.{Keeps, Attempts, reduce_client_state-attempt}
use palancar.Client.State.Guards.{
  valid_auth_generation, valid_auth_attempt, next_auth_attempt, valid_text,
}
use palancar.Client.State.Sessions.{default_target, restored_target, becomes}
use palancar.Client.State.Auth.{matches_auth_attempt}
use palancar.Client.State.Transcript.{update_with}
use palancar.Client.State.Outcomes.{
  decision_value, is_about, language_decision_reduction, translation_ready_reduction,
  normalize_suggestion, normalize_all, accepted_suggestions, suggestions_ready_reduction,
  swipe_next_result,
}
use palancar.Client.State.Turns.{authentication_ready, press_reduction}
use palancar.Client.State.Enrollment.{
  on_startup_ready, on_enrollment_ready, on_attempt, authenticated,
}
use palancar.Client.State.Readiness.{establish, ready_session, announce, on_session_ready}
use palancar.Client.State.{
  on_swipe_next, on_partial, on_final, on_decision, on_translation, on_suggestions,
}
use palancar.Languages.{is_target_language}

abbrev session : Text
session = codes "123e4567-e89b-42d3-a456-426614174000"

abbrev other_session : Text
other_session = codes "223e4567-e89b-42d3-a456-426614174000"

abbrev utterance : Text
utterance = codes "323e4567-e89b-42d3-a456-426614174000"

abbrev turn : ActiveTurn
turn = record {
  target_language = codes "es";
  auth_attempt = 1;
  session_id = session;
  session_epoch = 7;
  utterance_id = utterance;
  turn = 1;
  transcript = [];
  segment_texts = [];
  segment_revisions = [];
  final_segments = [];
  final_transcript = none;
  final_segment_id = none;
  final_revision = none;
}

turn_session : state_session (listening turn) ≡ some (turn_identity turn)
unfolding state_session valid_identity turn_identity is_uuid is_positive_uint32
turn_session = refl

reduce_client_state-listening_example :
    Covered turn (reduce_client_state (listening turn) (press none))
reduce_client_state-listening_example = reduce_client_state-listening turn (press none) turn_session

reduce_client_state-terminal_example :
    reduce_client_state (error (codes "x") true none none) (press none)
    ≡ no_change (error (codes "x") true none none)
reduce_client_state-terminal_example =
    reduce_client_state-terminal (codes "x") none none (press none)

abbrev partial_of : Text → TranscriptEvent
partial_of id = record {
  session_id = text id;
  session_epoch = nat 7;
  utterance_id = text utterance;
  segment_id = text (codes "s1");
  revision = nat 1;
  text = text (codes "hola");
}

foreign : is_foreign (listening turn) (transcript_partial (partial_of other_session)) ≡ true
unfolding same_session state_session valid_identity turn_identity event_session identity_eq is_uuid
    is_positive_uint32 valid_uuid_v4 text_of valid_positive_uint32 nat_of
foreign = refl

reduce_client_state-foreign_example :
    reduce_client_state (listening turn) (transcript_partial (partial_of other_session))
    ≡ no_change (listening turn)
reduce_client_state-foreign_example =
    reduce_client_state-foreign (listening turn) (transcript_partial (partial_of other_session))
      foreign

abbrev opened : SessionReadyEvent
opened = record {
  session_id = text session;
  session_epoch = nat 7;
  target_language = text (codes "es");
  result = text (codes "new");
}

abbrev final_of : TranscriptEvent
final_of = record (partial_of session) { revision = nat 2; text = text (codes "hola, buenas") }

abbrev decided : LanguageDecisionEvent
decided = record {
  session_id = text session;
  session_epoch = nat 7;
  utterance_id = text utterance;
  segment_id = text (codes "s1");
  revision = nat 2;
  decision = text (codes "target");
  selected_target_language = text (codes "es");
}

abbrev result_of : ResultEvent
result_of = record {
  session_id = text session;
  session_epoch = nat 7;
  utterance_id = text utterance;
  segment_id = text (codes "s1");
  accepted_final_revision = nat 2;
}

abbrev raw_suggestion : RawSuggestion
raw_suggestion = fields (
    (codes "englishText", text (codes "yes"))
    ∷ ((codes "selectedTargetText", text (codes "si")) ∷ []))

-- From the start to the suggestions, and on to the second one.
abbrev conversation : List ClientEvent
conversation =
    startup_ready
    ∷ enrollment_ready
    ∷ press none
    ∷ session_authenticated 1
    ∷ session_ready opened
    ∷ press (some utterance)
    ∷ transcript_partial (partial_of session)
    ∷ press none
    ∷ transcript_final final_of
    ∷ language_decision decided
    ∷ translation_ready result_of (text (codes "hello"))
    ∷ suggestions_ready result_of (some (raw_suggestion ∷ raw_suggestion ∷ []))
    ∷ swipe_next
    ∷ []

abbrev shown_turn : ActiveTurn
shown_turn = record turn {
  transcript = codes "hola, buenas";
  segment_texts = (codes "s1", codes "hola, buenas") ∷ [];
  segment_revisions = (codes "s1", 2) ∷ [];
  final_segments = (codes "s1", true) ∷ [];
  final_transcript = some (codes "hola, buenas");
  final_segment_id = some (codes "s1");
  final_revision = some 2;
}

abbrev suggestion : Suggestion
suggestion = record { english_text = codes "yes"; selected_target_text = codes "si" }

conversation-results :
    run (create_initial_state none) conversation
    ≡ results shown_turn (codes "hello") (suggestion ∷ (suggestion ∷ [])) 1
unfolding text_of nat_of valid_uuid_v4 is_positive_uint32 valid_positive_uint32
    valid_auth_generation valid_auth_attempt next_auth_attempt is_blank fits_text valid_text
    is_segment_id valid_segment_id default_target restored_target create_initial_state
    valid_identity turn_identity pending_session state_session event_session identity_eq
    same_session becomes matches_auth_attempt object_values join matching revision_of is_final
    stored store take_text segment_update update_with decision_value is_about
    language_decision_reduction translation_ready_reduction normalize_suggestion normalize_all
    accepted_suggestions suggestions_ready_reduction swipe_next_result authentication_ready
    press_reduction on_startup_ready on_enrollment_ready on_attempt authenticated establish
    ready_session announce on_session_ready on_swipe_next on_partial on_final on_decision
    on_translation on_suggestions reduce_client_state run is_target_language is_uuid is_space
    map_get map_set
conversation-results = refl

run-IsClient_example :
    IsClient (results shown_turn (codes "hello") (suggestion ∷ (suggestion ∷ [])) 1)
run-IsClient_example = subst IsClient conversation-results (run-IsClient none conversation)

abbrev previous_session : SessionIdentity
previous_session = record { session_id = session; session_epoch = 7 }

abbrev recovering : ReadyState
recovering = record {
  target_language = codes "es";
  auth_attempt = 1;
  turn = 1;
  message = none;
  pending = recovery previous_session;
}

abbrev new_session : SessionReadyEvent
new_session = record {
  session_id = text other_session;
  session_epoch = nat 8;
  target_language = text (codes "es");
  result = text (codes "new");
}

recovering_session : state_session (ready recovering) ≡ some previous_session
unfolding state_session pending_session valid_identity is_uuid is_positive_uint32
recovering_session = refl

reduce_client_state-recovery_example :
    Recovered recovering previous_session new_session
      (reduce_client_state (ready recovering) (session_ready new_session))
    ⊎ Refused recovering previous_session new_session
        (reduce_client_state (ready recovering) (session_ready new_session))
reduce_client_state-recovery_example =
    reduce_client_state-recovery recovering previous_session new_session refl recovering_session

abbrev shown : List Suggestion
shown = suggestion ∷ (suggestion ∷ (suggestion ∷ []))

shown-IsClient : IsClient (results turn (codes "hello") shown 2)
unfolding join object_values
shown-IsClient = ((refl, omega arith, omega arith), omega arith, omega arith, omega arith)

swipe_previous-next_example :
    (reduce_client_state
      (reduce_client_state (results turn (codes "hello") shown 2) swipe_next).state
      swipe_previous).state
    ≡ results turn (codes "hello") shown 2
swipe_previous-next_example = swipe_previous-next turn (codes "hello") shown 2 shown-IsClient

abbrev choosing : ClientState
choosing = target_selection (codes "es") 1

reduce_client_state-attempt_example :
    Keeps choosing (reduce_client_state choosing (press none))
    ⊎ Attempts choosing (press none) (reduce_client_state choosing (press none))
reduce_client_state-attempt_example = reduce_client_state-attempt choosing (press none)

abbrev after_partial : ActiveTurn
after_partial = record turn {
  transcript = codes "hola";
  segment_texts = (codes "s1", codes "hola") ∷ [];
  segment_revisions = (codes "s1", 1) ∷ [];
}

stored_partial : segment_update false turn (partial_of session) ≡ updated after_partial
unfolding segment_update matching valid_uuid_v4 text_of is_uuid valid_segment_id is_segment_id
    valid_positive_uint32 nat_of is_positive_uint32 same_session state_session valid_identity
    turn_identity event_session identity_eq revision_of is_final take_text fits_text is_blank
    is_space store stored carried join object_values map_get map_set
stored_partial = refl

segment_update-updated_example :
    (g : Text) × (s : Text) × (r : ℕ) × Applies turn (partial_of session) after_partial g s r
    × (((false ≡ true) × Finishes after_partial g r)
        ⊎ ((false ≡ false) × Leaves turn after_partial g))
    × ((g ≡ codes "s2") ⊎ Same turn after_partial (codes "s2"))
segment_update-updated_example =
    segment_update-updated false turn (partial_of session) after_partial (codes "s2") stored_partial

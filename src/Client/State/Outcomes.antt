-- ===== src/Client/State/Outcomes.antt =====
-- apps/g2-client/src/state/index.ts: the language decision, the translation and the suggestions of a turn.
use palancar.Base.{
  ℕ, ◌+◌, ◌-◌, ◌%◌, Bool, true, false, ◌&&◌, ◌||◌, not, Option, none, some, List, [], ◌∷◌, ltb,
  nat_beq, if◌then◌else◌, ◌==◌, length, Text, codes, text_eq, Value, map_get,
}
use palancar.Client.State.Types.{
  SessionIdentity, established, ActiveTurn, Suggestion, ClientState, ready, listening, finalizing,
  translating, results, error, LanguageDecisionEvent, ResultEvent, RawSuggestion, not_record,
  fields, ClientEffect, stop_audio, request_translation, request_suggestions, Reduction,
}
use palancar.Client.State.Guards.{
  text_of, valid_uuid_v4, valid_positive_uint32, valid_text, valid_segment_id,
  max_result_text_length,
}
use palancar.Client.State.Sessions.{
  state_session, turn_identity, same_session, active_turn, cleanup_effects, no_change, becomes,
}
use palancar.Client.State.Messages.{
  utterance_aborted_message, malformed_results_message, LanguageDecisionValue, target, mixed,
  english, supported_unselected, unsupported, uncertain, decision_message,
}
use palancar.Languages.{is_target_language}

unfoldable pub decision_value : Text → Option LanguageDecisionValue
decision_value s =
    if s == codes "target"
    then some target
    else if s == codes "mixed"
    then some mixed
    else if s == codes "english"
    then some english
    else if s == codes "supported_unselected"
    then some supported_unselected
    else if s == codes "unsupported"
    then some unsupported
    else if s == codes "uncertain"
    then some uncertain
    else none

equals_text : Option Text → Option Text → Bool
equals_text (some s) (some t) = s == t
equals_text _ _ = false

equals_nat : Option ℕ → Option ℕ → Bool
equals_nat (some m) (some n) = nat_beq m n
equals_nat _ _ = false

is_present {ℓ} : {A : Type ℓ} → Option A → Bool
is_present none = false
is_present (some a) = true

-- The event is about the session, the utterance and the final segment and revision of the turn.
unfoldable pub is_about : ActiveTurn → ResultEvent → Bool
unfolding equals_text equals_nat
is_about t e =
    same_session (finalizing t) e.session_id e.session_epoch
    && equals_text (valid_uuid_v4 e.utterance_id) (some t.utterance_id)
    && equals_text (valid_segment_id e.segment_id) t.final_segment_id
    && equals_nat (valid_positive_uint32 e.accepted_final_revision) t.final_revision

-- The decision of an event that passes every guard.
accepted_decision : ActiveTurn → LanguageDecisionEvent → Option LanguageDecisionValue
unfolding is_present equals_text
accepted_decision t e =
    if is_about t (record {
      session_id = e.session_id;
      session_epoch = e.session_epoch;
      utterance_id = e.utterance_id;
      segment_id = e.segment_id;
      accepted_final_revision = e.revision;
    })
      && is_present t.final_transcript
      && is_target_language t.target_language
      && equals_text (text_of e.selected_target_language) (some t.target_language)
    then elim (text_of e.decision) [ none ↦ none | some s ↦ decision_value s ]
    else none

ready_after : ActiveTurn → SessionIdentity → Text → ClientState
ready_after t s m = ready (record {
  target_language = t.target_language;
  auth_attempt = t.auth_attempt;
  turn = t.turn;
  message = some m;
  pending = established s;
})

rejected : ActiveTurn → LanguageDecisionValue → Reduction
unfolding ready_after
rejected t d = becomes (ready_after t (turn_identity t) (decision_message d t.target_language)) []

unfoldable pub language_decision_reduction : ActiveTurn → LanguageDecisionEvent → Reduction
unfolding accepted_decision rejected
language_decision_reduction t e = elim (accepted_decision t e) [
  | none ↦ no_change (finalizing t)
  | some target ↦ becomes (translating t none) (
      request_translation (turn_identity t) t.utterance_id t.final_segment_id t.final_revision ∷ [])
  | some d ↦ rejected t d
]

malformed_results : ActiveTurn → Option Text → Reduction
malformed_results t translated =
    becomes (error malformed_results_message true (some t.target_language) none)
      (cleanup_effects (translating t translated))

-- `translationReady`, on a translating state: a results state ignores the event.
unfoldable pub translation_ready_reduction :
    ActiveTurn → Option Text → ResultEvent → Value → Reduction
unfolding malformed_results is_present
translation_ready_reduction t translated e v =
    if not (is_about t e) || is_present translated
    then no_change (translating t translated)
    else elim (valid_text v max_result_text_length) [
      | none ↦ malformed_results t translated
      | some s ↦ becomes (translating t (some s)) (
          request_suggestions (turn_identity t) t.utterance_id t.final_segment_id t.final_revision
          ∷ [])
    ]

only_suggestion_keys : List (Text × Value) → Bool
only_suggestion_keys [] = true
only_suggestion_keys ((k, v) ∷ m) =
    ((k == codes "englishText") || (k == codes "selectedTargetText")) && only_suggestion_keys m

field_text : List (Text × Value) → Text → Option Text
field_text m k = elim (map_get m k) [ none ↦ none | some v ↦ valid_text v max_result_text_length ]

unfoldable pub normalize_suggestion : RawSuggestion → Option Suggestion
unfolding only_suggestion_keys field_text
normalize_suggestion not_record = none
normalize_suggestion (fields m) =
    if only_suggestion_keys m && nat_beq (length m) 2
    then elim (field_text m (codes "englishText")) [
      | none ↦ none
      | some s ↦ elim (field_text m (codes "selectedTargetText")) [
        | none ↦ none
        | some t ↦ some (record { english_text = s; selected_target_text = t })
      ]
    ]
    else none

-- `none` where one of them is not a suggestion.
unfoldable pub normalize_all : List RawSuggestion → Option (List Suggestion)
normalize_all [] = some []
normalize_all (r ∷ rs) = elim (normalize_suggestion r) [
  | none ↦ none
  | some s ↦ elim (normalize_all rs) [ none ↦ none | some ss ↦ some (s ∷ ss) ]
]

unfoldable pub accepted_suggestions : Option (List RawSuggestion) → Option (List Suggestion)
accepted_suggestions none = none
accepted_suggestions (some rs) =
    if ltb (length rs) 2 || ltb 3 (length rs) then none else normalize_all rs

-- `suggestionsReady`, on a translating state: a results state ignores the event.
unfoldable pub suggestions_ready_reduction :
    ActiveTurn → Option Text → ResultEvent → Option (List RawSuggestion) → Reduction
unfolding malformed_results
suggestions_ready_reduction t none e rs = no_change (translating t none)
suggestions_ready_reduction t (some translated) e rs =
    if is_about t e
    then elim (accepted_suggestions rs) [
      | none ↦ malformed_results t (some translated)
      | some ss ↦ becomes (results t translated ss 0) []
    ]
    else no_change (translating t (some translated))

-- `swipeResult`: `step` is 1 for the direction 1 and the number of suggestions less one for -1.
swipe_by : (ℕ → ℕ) → ActiveTurn → Text → List Suggestion → ℕ → Reduction
swipe_by step t translated ss i =
    let n = length ss in
    if nat_beq n 0
    then no_change (results t translated ss i)
    else becomes (results t translated ss ((i + step n + n) % n)) []

unfoldable pub swipe_next_result : ActiveTurn → Text → List Suggestion → ℕ → Reduction
unfolding swipe_by
swipe_next_result = swipe_by (λ n. 1)

unfoldable pub swipe_previous_result : ActiveTurn → Text → List Suggestion → ℕ → Reduction
unfolding swipe_by
swipe_previous_result = swipe_by (λ n. n - 1)

is_abort_category : Text → Bool
is_abort_category s =
    (s == codes "flow")
    || (s == codes "duration")
    || (s == codes "rate")
    || (s == codes "cancellation")
    || (s == codes "stale_conflict")
    || (s == codes "provider_loss")

category_valid : Value → Bool
unfolding is_abort_category
category_valid v = elim (text_of v) [ none ↦ false | some s ↦ is_abort_category s ]

-- `clearAfterAbort`
clear_after_abort : ClientState → ActiveTurn → List ClientEffect → Reduction
unfolding ready_after
clear_after_abort s t es = elim (state_session s) [
  | none ↦ no_change s
  | some i ↦ becomes (ready_after t i utterance_aborted_message) es
]

abort_effects : ClientState → List ClientEffect
abort_effects (listening t) = stop_audio (turn_identity t) t.utterance_id ∷ []
abort_effects s = []

-- The `utterance.aborted` case.
unfoldable pub abort_reduction : ClientState → Value → Value → Value → Value → Reduction
unfolding category_valid clear_after_abort abort_effects equals_text
abort_reduction s id epoch utterance category = elim (active_turn s) [
  | none ↦ no_change s
  | some t ↦
      if same_session s id epoch
        && equals_text (valid_uuid_v4 utterance) (some t.utterance_id)
        && category_valid category
      then clear_after_abort s t (abort_effects s)
      else no_change s
]

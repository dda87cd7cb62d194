-- ===== src/Languages/Gate.antt =====
-- packages/language-registry/src/gate.ts: whether a transcript may be shown and answered, from the evidence
-- of its language. The registry is the list of its definitions.
pub mod Safety
pub mod Display
use palancar.Base.{
  ℕ, Bool, true, false, ◌&&◌, ◌||◌, not, Option, none, some, List, [], ◌∷◌, if◌then◌else◌, ◌==◌,
  Text, codes, text_beq, text_eq, trim,
}
use palancar.Languages.Scores.{Score, at_least}
use palancar.Languages.{LanguageDefinition, CalibrationProfile, ProvisionalProfile, find_definition}
use palancar.Languages.Evidence.{
  Fields, Evidence, calibrated, provisional, non_calibrated, ProvisionalDecision, accept, reject,
  uncertain, ProvisionalReason, match, match_ignored_singleton, english, unselected_language, mixed,
  too_short, unknown, detector_error, Result, ok, threw, ◌>>=◌, type_error, range_error,
  snapshot_classified_language_evidence,
}

pub data BoundaryMode : Type 0 where
  production_calibrated development_provisional : BoundaryMode
  -- Any other value.
  invalid_mode : BoundaryMode

pub data GateDecision : Type 0 where
  undecided target mixed_languages english_language supported_unselected unsupported
        uncertain_language :
      GateDecision

pub record GateInput : Type 0 where
  pub selected_language : Text
  pub evidence : Option Fields
  pub is_final : Bool
  pub boundary_mode : BoundaryMode

pub record GateResult : Type 0 where
  pub decision : GateDecision
  pub display_allowed : Bool
  pub generation_allowed : Bool
  pub selected_language : Text
  pub is_final : Bool
  pub detected_language : Option Text
  pub confidence : Option Score

pub detected_language_of : Evidence → Option Text
detected_language_of (calibrated detector language confidence version) = some language
detected_language_of (provisional detector profile language score decision reason) = some language
detected_language_of (non_calibrated status detector language) = language

pub confidence_of : Evidence → Option Score
confidence_of (calibrated detector language confidence version) = some confidence
confidence_of (provisional detector profile language score decision reason) = none
confidence_of (non_calibrated status detector language) = none

-- A calibrated detector of the profile's versions is confident enough.
unfoldable pub calibration_accepted : CalibrationProfile → Evidence → Bool
calibration_accepted profile (calibrated detector language confidence version) =
    text_beq detector profile.detector_version
    && text_beq version profile.calibration_version
    && at_least confidence profile.confidence_threshold
calibration_accepted profile (provisional detector p language score decision reason) = false
calibration_accepted profile (non_calibrated status detector language) = false

pub detects : Evidence → Text → Bool
unfolding detected_language_of
detects evidence selected = elim (detected_language_of evidence) [
  | none ↦ false
  | some s ↦ text_beq s selected
]

unfoldable pub partial_display_accepted : Evidence → Text → LanguageDefinition → Bool
unfolding detects
partial_display_accepted evidence selected d = elim d.partial_display_calibration [
  | none ↦ false
  | some profile ↦ detects evidence selected && calibration_accepted profile evidence
]

unfoldable pub final_calibration_accepted : Evidence → LanguageDefinition → Bool
final_calibration_accepted evidence d = calibration_accepted d.final_calibration evidence

pub accepts : ProvisionalDecision → ProvisionalReason → Bool
accepts accept match = true
accepts accept match_ignored_singleton = true
accepts accept english = false
accepts accept unselected_language = false
accepts accept mixed = false
accepts accept too_short = false
accepts accept unknown = false
accepts accept detector_error = false
accepts reject reason = false
accepts uncertain reason = false

unfoldable pub provisional_accepted : ProvisionalProfile → Text → Evidence → Bool
unfolding accepts
provisional_accepted profile selected
      (provisional detector version language score decision reason) =
    accepts decision reason
    && text_beq language selected
    && text_beq detector profile.detector_version
    && text_beq version profile.profile_version
    && at_least score profile.provisional_score_threshold
provisional_accepted profile selected (calibrated detector language confidence version) = false
provisional_accepted profile selected (non_calibrated status detector language) = false

unfoldable pub development_provisional_accepted : Evidence → Text → LanguageDefinition → Bool
development_provisional_accepted evidence selected d = elim d.development_provisional [
  | none ↦ false
  | some profile ↦ provisional_accepted profile selected evidence
]

pub is_registered : List LanguageDefinition → Text → Bool
is_registered registry s = elim (find_definition registry s) [ none ↦ false | some d ↦ true ]

pub reason_decision : ProvisionalReason → Text → List LanguageDefinition → GateDecision
unfolding is_registered
reason_decision english language registry = english_language
reason_decision mixed language registry = mixed_languages
reason_decision unselected_language language registry =
    if is_registered registry language then supported_unselected else unsupported
reason_decision match language registry = uncertain_language
reason_decision match_ignored_singleton language registry = uncertain_language
reason_decision too_short language registry = uncertain_language
reason_decision unknown language registry = uncertain_language
reason_decision detector_error language registry = uncertain_language

unfoldable pub provisional_rejection_decision : Evidence → List LanguageDefinition → GateDecision
unfolding reason_decision
provisional_rejection_decision (provisional detector profile language score decision reason)
      registry =
    reason_decision reason language registry
provisional_rejection_decision (calibrated detector language confidence version) registry =
    uncertain_language
provisional_rejection_decision (non_calibrated status detector language) registry =
    uncertain_language

-- `resultFor`; the flags are those of display and of generation.
unfoldable pub result_for : GateDecision → Evidence → Bool → Text → Bool → Bool → GateResult
unfolding detected_language_of confidence_of
result_for decision evidence is_final selected display generation = record {
  decision = decision;
  display_allowed = display;
  generation_allowed = generation;
  selected_language = selected;
  is_final = is_final;
  detected_language = detected_language_of evidence;
  confidence = confidence_of evidence;
}

unfoldable pub calibrated_decision : Text → Text → List LanguageDefinition → GateDecision
unfolding is_registered
calibrated_decision detected selected registry =
    if text_beq detected (codes "mixed")
    then mixed_languages
    else (if text_beq detected selected
        then target
        else (if text_beq detected (codes "en")
            then english_language
            else (if is_registered registry detected then supported_unselected else unsupported)))

pub is_target : GateDecision → Bool
is_target target = true
is_target undecided = false
is_target mixed_languages = false
is_target english_language = false
is_target supported_unselected = false
is_target unsupported = false
is_target uncertain_language = false

-- Both flags are set for the target and cleared for every other decision.
unfoldable pub final_result : GateDecision → Evidence → Text → GateResult
unfolding result_for is_target
final_result decision evidence selected =
    result_for decision evidence true selected (is_target decision) (is_target decision)

unfoldable pub production_decision :
    Evidence → Text → LanguageDefinition → List LanguageDefinition → GateDecision
production_decision evidence selected d registry =
    if final_calibration_accepted evidence d
    then elim (detected_language_of evidence) [
      | none ↦ uncertain_language
      | some detected ↦ calibrated_decision detected selected registry
    ]
    else uncertain_language

unfoldable pub development_decision :
    Evidence → Text → LanguageDefinition → List LanguageDefinition → GateDecision
development_decision evidence selected d registry =
    if development_provisional_accepted evidence selected d
    then target
    else provisional_rejection_decision evidence registry

unfoldable pub decide :
    BoundaryMode
    → Bool
    → Evidence
    → Text
    → LanguageDefinition
    → List LanguageDefinition
    → Result GateResult
decide invalid_mode is_final evidence selected d registry = threw type_error
decide production_calibrated false evidence selected d registry = ok (
    result_for undecided evidence false selected (partial_display_accepted evidence selected d)
      false)
decide development_provisional false evidence selected d registry =
    ok (result_for undecided evidence false selected false false)
decide production_calibrated true evidence selected d registry =
    ok (final_result (production_decision evidence selected d registry) evidence selected)
decide development_provisional true evidence selected d registry =
    ok (final_result (development_decision evidence selected d registry) evidence selected)

-- `toLowerCase` is an argument.
unfoldable pub normalize_language_code : (Text → Text) → Text → Text
normalize_language_code lower_case code = lower_case (trim code)

unfoldable pub evaluate_language_gate :
    (Text → Text) → List LanguageDefinition → GateInput → Result GateResult
unfolding normalize_language_code
evaluate_language_gate lower_case registry input =
    let selected = normalize_language_code lower_case input.selected_language in
    elim (find_definition registry selected) [
      | none ↦ threw range_error
      | some d ↦ snapshot_classified_language_evidence lower_case input.evidence >>= λ evidence.
          decide input.boundary_mode input.is_final evidence selected d registry
    ]

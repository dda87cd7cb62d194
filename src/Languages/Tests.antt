-- ===== src/Languages/Tests.antt =====
-- packages/language-registry/src/gate.ts: the gate on evidence of the controlled fixture.
use palancar.Base.{◌≡◌, refl, ◌⊎◌, true, false, some, [], ◌∷◌, Text, codes, is_space}
use palancar.Languages.Scores.{Score}
use palancar.Languages.{
  LanguageDefinition, initial_definitions, find_definition, controlled_fixture_detector_version,
  controlled_fixture_calibration_version,
}
use palancar.Languages.Evidence.{
  text, number, Fields, Evidence, Result, ok, threw, type_error,
  snapshot_classified_language_evidence,
}
use palancar.Languages.Gate.{
  BoundaryMode, production_calibrated, development_provisional, invalid_mode, GateInput, GateResult,
  target, uncertain_language, undecided, mixed_languages, english_language, unsupported,
  supported_unselected, evaluate_language_gate, normalize_language_code,
}
use palancar.Languages.Gate
use palancar.Languages.Gate.Safety.{IsBacked, evaluate_language_gate-generation}
use palancar.Languages.Gate.Display.{IsShownEarly, evaluate_language_gate-display}

-- The codes of the tests are lower case already.
abbrev same : Text → Text
same s = s

-- 7/8 and 3/4
abbrev sure : Score
sure = record { numerator = 7; exponent = 3 }

abbrev doubtful : Score
doubtful = record { numerator = 3; exponent = 2 }

abbrev seen : Text → Score → Fields
seen language confidence =
    (codes "status", text (codes "calibrated"))
    ∷ (codes "detectorVersion", text controlled_fixture_detector_version)
    ∷ (codes "detectedLanguage", text language)
    ∷ (codes "confidence", number confidence)
    ∷ (codes "calibrationVersion", text controlled_fixture_calibration_version)
    ∷ []

abbrev final_input : Fields → GateInput
final_input evidence = record {
  selected_language = codes " es";
  evidence = some evidence;
  is_final = true;
  boundary_mode = production_calibrated;
}

abbrev gate : Text → Score → Result GateResult
gate language confidence =
    evaluate_language_gate same initial_definitions (final_input (seen language confidence))

abbrev passed : GateResult
passed = record {
  decision = target;
  display_allowed = true;
  generation_allowed = true;
  selected_language = codes "es";
  is_final = true;
  detected_language = some (codes "es");
  confidence = some sure;
}

spanish : gate (codes "es") sure ≡ ok passed
unfolding evaluate_language_gate find_definition snapshot_classified_language_evidence Gate.decide
    is_space Gate.final_result Gate.production_decision Gate.final_calibration_accepted
    Gate.calibration_accepted Gate.calibrated_decision
spanish = refl

turkish :
    gate (codes "tr") sure
    ≡ ok (record passed {
      decision = supported_unselected;
      display_allowed = false;
      generation_allowed = false;
      detected_language = some (codes "tr");
    })
unfolding evaluate_language_gate find_definition snapshot_classified_language_evidence Gate.decide
    is_space Gate.final_result Gate.production_decision Gate.final_calibration_accepted
    Gate.calibration_accepted Gate.calibrated_decision
turkish = refl

too_doubtful :
    gate (codes "es") doubtful
    ≡ ok (record passed {
      decision = uncertain_language;
      display_allowed = false;
      generation_allowed = false;
      confidence = some doubtful;
    })
unfolding evaluate_language_gate find_definition snapshot_classified_language_evidence Gate.decide
    is_space Gate.final_result Gate.production_decision Gate.final_calibration_accepted
    Gate.calibration_accepted Gate.calibrated_decision
too_doubtful = refl

untrimmed : gate (codes "es ") sure ≡ threw type_error
unfolding evaluate_language_gate find_definition snapshot_classified_language_evidence is_space
untrimmed = refl

evaluate_language_gate-generation_example :
    (d : LanguageDefinition) × (e : Evidence) × (true ≡ true)
    × (target ≡ target)
    × (some (codes "es") ≡ some (codes "es"))
    × (find_definition initial_definitions (codes "es") ≡ some d)
    × (snapshot_classified_language_evidence same (some (seen (codes "es") sure)) ≡ ok e)
    × IsBacked production_calibrated e (codes "es") d
evaluate_language_gate-generation_example =
    evaluate_language_gate-generation same initial_definitions
      (final_input (seen (codes "es") sure)) passed spanish refl

evaluate_language_gate-display_example :
    (true ≡ true)
    ⊎ ((d : LanguageDefinition) × (e : Evidence) × (find_definition initial_definitions
            (normalize_language_code same (codes " es"))
          ≡ some d)
        × (snapshot_classified_language_evidence same (some (seen (codes "es") sure)) ≡ ok e)
        × IsShownEarly (final_input (seen (codes "es") sure)) e d passed)
evaluate_language_gate-display_example =
    evaluate_language_gate-display same initial_definitions (final_input (seen (codes "es") sure))
      passed spanish

-- ===== src/Languages.antt =====
-- packages/language-registry/src/registry.ts: the built-in definitions and the look-ups. A registry is the
-- list of its definitions, as `createLanguageRegistry` leaves them.
pub mod Scores
pub mod Evidence
pub mod Gate
mod Tests
use palancar.Base.{
  ℕ, Bool, true, false, Option, none, some, List, [], ◌∷◌, if◌then◌else◌, ◌==◌, Text, codes,
  text_eq,
}
use palancar.Languages.Scores.{Score}

-- LanguageCalibrationProfile
pub record CalibrationProfile : Type 0 where
  pub detector_version : Text
  pub calibration_version : Text
  pub confidence_threshold : Score

-- DevelopmentProvisionalProfile, as far as the gate reads it.
pub record ProvisionalProfile : Type 0 where
  pub detector_version : Text
  pub profile_version : Text
  pub provisional_score_threshold : Score

-- `mixedPolicy` has the one value 'reject'.
pub record LanguageDefinition : Type 0 where
  pub code : Text
  pub display_name : Text
  pub final_calibration : CalibrationProfile
  pub partial_display_calibration : Option CalibrationProfile
  pub development_provisional : Option ProvisionalProfile

abbrev pub controlled_fixture_detector_version : Text
controlled_fixture_detector_version = codes "controlled-fixture-detector-1"

abbrev pub controlled_fixture_calibration_version : Text
controlled_fixture_calibration_version = codes "controlled-fixture-calibration-1"

abbrev pub development_provisional_detector_version : Text
development_provisional_detector_version = codes "eld-small-2.1.0"

abbrev pub development_provisional_profile_version : Text
development_provisional_profile_version = codes "eld-small-dev-8"

-- The number that the literal 0.65 denotes.
abbrev pub development_provisional : ProvisionalProfile
development_provisional = record {
  detector_version = development_provisional_detector_version;
  profile_version = development_provisional_profile_version;
  provisional_score_threshold = record { numerator = 5_854_679_515_581_645; exponent = 53 };
}

-- The number that the literal 0.8 denotes.
abbrev fixture_calibration : CalibrationProfile
fixture_calibration = record {
  detector_version = controlled_fixture_detector_version;
  calibration_version = controlled_fixture_calibration_version;
  confidence_threshold = record { numerator = 7_205_759_403_792_794; exponent = 53 };
}

-- `languageRegistry.list()`
abbrev pub initial_definitions : List LanguageDefinition
initial_definitions =
    record {
      code = codes "es";
      display_name = codes "Spanish";
      final_calibration = fixture_calibration;
      partial_display_calibration = none;
      development_provisional = some development_provisional;
    }
    ∷ record {
      code = codes "tr";
      display_name = codes "Turkish";
      final_calibration = fixture_calibration;
      partial_display_calibration = none;
      development_provisional = some development_provisional;
    }
    ∷ []

-- `registry.get(code)`
unfoldable pub find_definition : List LanguageDefinition → Text → Option LanguageDefinition
find_definition [] s = none
find_definition (d ∷ ds) s = if d.code == s then some d else find_definition ds s

unfoldable pub get_language_definition : Text → Option LanguageDefinition
unfolding find_definition
get_language_definition s = find_definition initial_definitions s

unfoldable pub is_target_language : Text → Bool
unfolding get_language_definition
is_target_language s = elim (get_language_definition s) [ none ↦ false | some d ↦ true ]

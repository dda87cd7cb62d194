-- ===== src/Languages/Evidence.antt =====
-- packages/language-registry/src/classifier.ts: the evidence of a classifier, which the gate takes as an
-- unknown value. A value is `none` when `snapshotPlainDataObject` throws on it, and else the list of its
-- properties with their values. `toLowerCase` is an argument.
use palancar.Base.{
  Bool, true, false, ◌||◌, Option, none, some, List, [], ◌∷◌, if◌then◌else◌, Text, codes, text_beq,
  text_eq, trim, map_get,
}
use palancar.Languages.Scores.{Score, at_least, one}

pub data Field : Type 0 where
  text : Text → Field
  number : Score → Field
  negative : Field
  -- NaN or an infinity.
  not_finite : Field
  undefined : Field
  other : Field

abbrev pub Fields : Type 0
Fields = List (Text × Field)

pub data Fault : Type 0 where
  type_error range_error : Fault

pub data Result {ℓ} (A : Type ℓ) : Type ℓ where
  ok : A → Result A
  threw : Fault → Result A

infixl 5 ◌>>=◌ ◌>>◌
abbrev pub ◌>>=◌ {ℓ κ} : {X : Type ℓ} {Y : Type κ} → Result X → (X → Result Y) → Result Y
threw fault >>= next = threw fault
ok x >>= next = next x

abbrev pub ◌>>◌ {ℓ} : {Y : Type ℓ} → Result (Unit {0}) → Result Y → Result Y
first >> second = first >>= λ done. second

abbrev pub require : Bool → Fault → Result (Unit {0})
require true fault = ok tt
require false fault = threw fault

pub data Status : Type 0 where
  insufficient_text uncalibrated conflicting unavailable : Status

pub data ProvisionalDecision : Type 0 where
  accept reject uncertain : ProvisionalDecision

pub data ProvisionalReason : Type 0 where
  match match_ignored_singleton english unselected_language mixed too_short unknown detector_error :
      ProvisionalReason

-- ClassifiedLanguageEvidence
pub data Evidence : Type 0 where
  calibrated : Text → Text → Score → Text → Evidence
  provisional : Text → Text → Text → Score → ProvisionalDecision → ProvisionalReason → Evidence
  non_calibrated : Status → Text → Option Text → Evidence

pub field : Fields → Text → Field
unfolding map_get
field fields key = elim (map_get fields key) [ none ↦ undefined | some v ↦ v ]

pub is_member : Text → List Text → Bool
is_member s [] = false
is_member s (t ∷ ts) = text_beq s t || is_member s ts

pub require_exact_keys : Fields → List Text → Result (Unit {0})
unfolding is_member
require_exact_keys [] allowed = ok tt
require_exact_keys ((key, v) ∷ fields) allowed = do
  require (is_member key allowed) type_error
  require_exact_keys fields allowed

-- A text that is not empty and that `trim` leaves as it is.
pub exact_nonempty : Text → Bool
unfolding trim
exact_nonempty [] = false
exact_nonempty (c ∷ s) = text_beq (trim (c ∷ s)) (c ∷ s)

pub require_exact_nonempty_string : Field → Result Text
unfolding exact_nonempty
require_exact_nonempty_string (text s) = if exact_nonempty s then ok s else threw type_error
require_exact_nonempty_string (number n) = threw type_error
require_exact_nonempty_string negative = threw type_error
require_exact_nonempty_string not_finite = threw type_error
require_exact_nonempty_string undefined = threw type_error
require_exact_nonempty_string other = threw type_error

-- A finite number between 0 and 1, with the two errors of the checks.
pub require_share : Field → Result Score
unfolding at_least
require_share (number n) = if at_least one n then ok n else threw range_error
require_share negative = threw range_error
require_share not_finite = threw type_error
require_share (text s) = threw type_error
require_share undefined = threw type_error
require_share other = threw type_error

-- The value that stands beside a key.
pub look_up {ℓ} : {V : Type ℓ} → List (Text × V) → Text → Result V
look_up [] s = threw type_error
look_up ((k, v) ∷ rest) s = let found = look_up rest s in if text_beq k s then ok v else found

pub named {ℓ} : {V : Type ℓ} → List (Text × V) → Field → Result V
unfolding look_up
named table (text s) = look_up table s
named table (number n) = threw type_error
named table negative = threw type_error
named table not_finite = threw type_error
named table undefined = threw type_error
named table other = threw type_error

-- The status, `none` for the two that have a shape of their own.
pub data Shape : Type 0 where
  calibrated_shape provisional_shape : Shape
  plain_shape : Status → Shape

abbrev pub classification_statuses : List (Text × Shape)
classification_statuses =
    (codes "calibrated", calibrated_shape)
    ∷ (codes "provisional", provisional_shape)
    ∷ (codes "insufficient-text", plain_shape insufficient_text)
    ∷ (codes "uncalibrated", plain_shape uncalibrated)
    ∷ (codes "conflicting", plain_shape conflicting)
    ∷ (codes "unavailable", plain_shape unavailable)
    ∷ []

abbrev pub provisional_decisions : List (Text × ProvisionalDecision)
provisional_decisions =
    (codes "accept", accept) ∷ (codes "reject", reject) ∷ (codes "uncertain", uncertain) ∷ []

abbrev pub provisional_reasons : List (Text × ProvisionalReason)
provisional_reasons =
    (codes "MATCH", match)
    ∷ (codes "MATCH_IGNORED_SINGLETON", match_ignored_singleton)
    ∷ (codes "ENGLISH", english)
    ∷ (codes "UNSELECTED_LANGUAGE", unselected_language)
    ∷ (codes "MIXED", mixed)
    ∷ (codes "TOO_SHORT", too_short)
    ∷ (codes "UNKNOWN", unknown)
    ∷ (codes "DETECTOR_ERROR", detector_error)
    ∷ []

abbrev pub calibrated_keys : List Text
calibrated_keys =
    codes "status"
    ∷ codes "detectorVersion"
    ∷ codes "detectedLanguage"
    ∷ codes "confidence"
    ∷ codes "calibrationVersion"
    ∷ []

abbrev pub provisional_keys : List Text
provisional_keys =
    codes "status"
    ∷ codes "detectorVersion"
    ∷ codes "profileVersion"
    ∷ codes "detectedLanguage"
    ∷ codes "provisionalScore"
    ∷ codes "decision"
    ∷ codes "reason"
    ∷ []

abbrev pub non_calibrated_keys : List Text
non_calibrated_keys = codes "status" ∷ codes "detectorVersion" ∷ codes "detectedLanguage" ∷ []

module _ (lower_case : Text → Text) where
  pub require_language_code : Field → Result Text
  unfolding require_exact_nonempty_string
  require_language_code v = do
    code ← require_exact_nonempty_string v
    require (text_beq (lower_case code) code) type_error
    ok code

  pub optional_language_code : Field → Result (Option Text)
  unfolding require_language_code
  optional_language_code undefined = ok none
  optional_language_code (text s) = require_language_code (text s) >>= λ code. ok (some code)
  optional_language_code (number n) = threw type_error
  optional_language_code negative = threw type_error
  optional_language_code not_finite = threw type_error
  optional_language_code other = threw type_error

  pub read_shape : Shape → Text → Fields → Result Evidence
  unfolding require_language_code optional_language_code require_exact_keys field
      require_exact_nonempty_string require_share named
  read_shape calibrated_shape detector fields = do
    require_exact_keys fields calibrated_keys
    language ← require_language_code (field fields (codes "detectedLanguage"))
    version ← require_exact_nonempty_string (field fields (codes "calibrationVersion"))
    confidence ← require_share (field fields (codes "confidence"))
    ok (calibrated detector language confidence version)
  read_shape provisional_shape detector fields = do
    require_exact_keys fields provisional_keys
    profile ← require_exact_nonempty_string (field fields (codes "profileVersion"))
    language ← require_language_code (field fields (codes "detectedLanguage"))
    score ← require_share (field fields (codes "provisionalScore"))
    decision ← named provisional_decisions (field fields (codes "decision"))
    reason ← named provisional_reasons (field fields (codes "reason"))
    ok (provisional detector profile language score decision reason)
  read_shape (plain_shape status) detector fields = do
    require_exact_keys fields non_calibrated_keys
    language ← optional_language_code (field fields (codes "detectedLanguage"))
    ok (non_calibrated status detector language)

  unfoldable pub snapshot_classified_language_evidence : Option Fields → Result Evidence
  unfolding named field require_exact_nonempty_string read_shape
  snapshot_classified_language_evidence none = threw type_error
  snapshot_classified_language_evidence (some fields) = do
    shape ← named classification_statuses (field fields (codes "status"))
    detector ← require_exact_nonempty_string (field fields (codes "detectorVersion"))
    read_shape shape detector fields

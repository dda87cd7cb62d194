-- ===== src/Languages/Gate/Safety.antt =====
-- packages/language-registry/src/gate.ts: what the gate lets pass.
use palancar.Base.{
  ◌≡◌, refl, sym, ap, ◌∙◌, subst, ◌≢◌, ◌⊎◌, inl, inr, Bool, true, false, some, List, arith,
  Bool-cases, Option-cases, Text, text_beq_iff, text_eq, nat_eq,
}
use palancar.Languages.Scores.{Score, at_least}
use palancar.Languages.{LanguageDefinition, CalibrationProfile, ProvisionalProfile, find_definition}
use palancar.Languages.Evidence.{
  Evidence, calibrated, provisional, non_calibrated, ProvisionalDecision, accept, ProvisionalReason,
  match, match_ignored_singleton, Result, ok, threw, ◌>>=◌, snapshot_classified_language_evidence,
}
use palancar.Languages.Gate.{
  BoundaryMode, production_calibrated, development_provisional, invalid_mode, GateDecision, target,
  GateInput, GateResult, detected_language_of, calibration_accepted, final_calibration_accepted,
  accepts, provisional_accepted, development_provisional_accepted, reason_decision,
  provisional_rejection_decision, result_for, calibrated_decision, is_target, final_result,
  production_decision, development_decision, decide, normalize_language_code,
  evaluate_language_gate,
}

-- The evidence that a mode asks for before a transcript is answered: of the language selected, from the
-- versions that the definition names, and at or above its threshold.
unfoldable pub IsBacked : BoundaryMode → Evidence → Text → LanguageDefinition → Type 0
IsBacked production_calibrated e selected d =
    (c : Score) × (e
      ≡ calibrated d.final_calibration.detector_version selected c
          d.final_calibration.calibration_version)
    × (at_least c d.final_calibration.confidence_threshold ≡ true)
IsBacked development_provisional e selected d =
    (p : ProvisionalProfile) × (c : Score) × (reason : ProvisionalReason)
    × (d.development_provisional ≡ some p)
    × (e ≡ provisional p.detector_version p.profile_version selected c accept reason)
    × ((reason ≡ match) ⊎ (reason ≡ match_ignored_singleton))
    × (at_least c p.provisional_score_threshold ≡ true)
IsBacked invalid_mode e selected d = ⊥

pub calibration_accepted-true :
    (profile : CalibrationProfile) (e : Evidence)
    → calibration_accepted profile e ≡ true
    → (s : Text) × (c : Score) × (e
        ≡ calibrated profile.detector_version s c profile.calibration_version)
      × (at_least c profile.confidence_threshold ≡ true)
unfolding calibration_accepted
calibration_accepted-true profile (calibrated detector s c version) h =
    let a = (text_beq_iff detector profile.detector_version).0 (ground arith) in
    let b = (text_beq_iff version profile.calibration_version).0 (ground arith) in
    (s, c, cc, ground arith)
calibration_accepted-true profile (provisional detector p s c decision reason) h = cc
calibration_accepted-true profile (non_calibrated status detector s) h = cc

calibrated_decision-target :
    (detected selected : Text) (registry : List LanguageDefinition)
    → calibrated_decision detected selected registry ≡ target
    → detected ≡ selected
unfolding calibrated_decision
calibrated_decision-target detected selected registry h =
    (text_beq_iff detected selected).0 (ground arith)

production-IsBacked :
    (e : Evidence) (selected : Text) (d : LanguageDefinition) (registry : List LanguageDefinition)
    → production_decision e selected d registry ≡ target
    → IsBacked production_calibrated e selected d
unfolding production_decision final_calibration_accepted IsBacked detected_language_of
production-IsBacked e selected d registry h =
    elim (Bool-cases (calibration_accepted d.final_calibration e)) [
      | inr refused ↦ ground arith
      | inl passed ↦
          let (s, c, form, enough) = calibration_accepted-true d.final_calibration e passed in
          let seen : detected_language_of e ≡ some s = ap detected_language_of form in
          let q : calibrated_decision s selected registry ≡ target =
            ground (arith, seen, passed, h) in
          let l = calibrated_decision-target s selected registry q in
          (
            c,
            form
                ∙ ap
                    (λ t.
                      calibrated d.final_calibration.detector_version t c
                        d.final_calibration.calibration_version)
                    l,
            enough,
          )
    ]

accepts-true :
    (decision : ProvisionalDecision) (reason : ProvisionalReason)
    → accepts decision reason ≡ true
    → (decision ≡ accept) × ((reason ≡ match) ⊎ (reason ≡ match_ignored_singleton))
unfolding accepts
accepts-true decision reason h = ground arith

provisional_accepted-IsBacked :
    (p : ProvisionalProfile) (e : Evidence) (selected : Text) (d : LanguageDefinition)
    → d.development_provisional ≡ some p
    → provisional_accepted p selected e ≡ true
    → IsBacked development_provisional e selected d
unfolding provisional_accepted IsBacked
provisional_accepted-IsBacked p (provisional detector version s c decision reason) selected d q h =
    let a = (text_beq_iff detector p.detector_version).0 (ground arith) in
    let b = (text_beq_iff version p.profile_version).0 (ground arith) in
    let l = (text_beq_iff s selected).0 (ground arith) in
    let (took, why) = accepts-true decision reason (ground arith) in
    (p, c, reason, q, cc, why, ground arith)
provisional_accepted-IsBacked p (calibrated detector s c version) selected d q h = cc
provisional_accepted-IsBacked p (non_calibrated status detector s) selected d q h = cc

rejection-no_target :
    (e : Evidence) (registry : List LanguageDefinition)
    → provisional_rejection_decision e registry ≢ target
unfolding provisional_rejection_decision reason_decision
rejection-no_target e registry h = ground arith

development-IsBacked :
    (e : Evidence) (selected : Text) (d : LanguageDefinition) (registry : List LanguageDefinition)
    → development_decision e selected d registry ≡ target
    → IsBacked development_provisional e selected d
unfolding development_decision development_provisional_accepted
development-IsBacked e selected d registry h = elim (Option-cases d.development_provisional) [
  | inl nothing ↦ absurd (rejection-no_target e registry (ground arith))
  | inr (p, q) ↦ elim (Bool-cases (provisional_accepted p selected e)) [
    | inl passed ↦ provisional_accepted-IsBacked p e selected d q passed
    | inr refused ↦ absurd (rejection-no_target e registry (ground arith))
  ]
]

is_target-true : (g : GateDecision) → is_target g ≡ true → g ≡ target
unfolding is_target
is_target-true g h = ground arith

backed-language :
    (mode : BoundaryMode) (e : Evidence) (selected : Text) (d : LanguageDefinition)
    → IsBacked mode e selected d
    → detected_language_of e ≡ some selected
unfolding IsBacked detected_language_of
backed-language production_calibrated e selected d (c, form, enough) = ap detected_language_of form
backed-language development_provisional e selected d (p, c, reason, q, form, why, enough) =
    ap detected_language_of form
backed-language invalid_mode e selected d b = absurd b

decide-generation :
    (mode : BoundaryMode) (is_final : Bool) (e : Evidence) (selected : Text)
    (d : LanguageDefinition) (registry : List LanguageDefinition) (r : GateResult)
    → decide mode is_final e selected d registry ≡ ok r
    → r.generation_allowed ≡ true
    → (is_final ≡ true)
      × (r.decision ≡ target)
      × (r.selected_language ≡ selected)
      × (r.detected_language ≡ detected_language_of e)
      × IsBacked mode e selected d
unfolding decide final_result result_for
decide-generation production_calibrated true e selected d registry r h g =
    let t = is_target-true (production_decision e selected d registry) (ground arith) in
    (
      refl,
      ground (arith, t),
      ground arith,
      ground arith,
      production-IsBacked e selected d registry t,
    )
decide-generation development_provisional true e selected d registry r h g =
    let t = is_target-true (development_decision e selected d registry) (ground arith) in
    (
      refl,
      ground (arith, t),
      ground arith,
      ground arith,
      development-IsBacked e selected d registry t,
    )
decide-generation production_calibrated false e selected d registry r h g = ground arith
decide-generation development_provisional false e selected d registry r h g = ground arith
decide-generation invalid_mode is_final e selected d registry r h g = cc

pub >>=-ok {ℓ κ} :
    {X : Type ℓ} {Y : Type κ} (m : Result X) (k : X → Result Y) (y : Y)
    → (m >>= k) ≡ ok y
    → (x : X) × (m ≡ ok x) × (k x ≡ ok y)
>>=-ok (threw fault) k y h = cc
>>=-ok (ok x) k y h = (x, refl, h)

-- A run of the gate that returns has found a definition and evidence, and decided on them.
pub evaluated :
    (lower_case : Text → Text) (registry : List LanguageDefinition) (input : GateInput)
    (r : GateResult)
    → evaluate_language_gate lower_case registry input ≡ ok r
    → let selected = normalize_language_code lower_case input.selected_language in
      (d : LanguageDefinition) × (e : Evidence) × (find_definition registry selected ≡ some d)
      × (snapshot_classified_language_evidence lower_case input.evidence ≡ ok e)
      × (decide input.boundary_mode input.is_final e selected d registry ≡ ok r)
unfolding evaluate_language_gate
evaluated lower_case registry input r h =
    let selected = normalize_language_code lower_case input.selected_language in
    elim (Option-cases (find_definition registry selected)) [
      | inl unknown_language ↦ ground arith
      | inr (d, found) ↦
          let (e, valid, decided) =
            >>=-ok (snapshot_classified_language_evidence lower_case input.evidence)
              (λ evidence. decide input.boundary_mode input.is_final evidence selected d registry) r
              (ground arith) in
          (d, e, found, valid, decided)
    ]

-- When the gate allows generation, whatever the evidence and the registry are: the transcript is final
-- and of the selected language, which the registry has, and the evidence is valid and backs it as the
-- mode demands, with the versions and the threshold of the definition.
pub evaluate_language_gate-generation :
    (lower_case : Text → Text) (registry : List LanguageDefinition) (input : GateInput)
    (r : GateResult)
    → evaluate_language_gate lower_case registry input ≡ ok r
    → r.generation_allowed ≡ true
    → (d : LanguageDefinition) × (e : Evidence) × (input.is_final ≡ true)
      × (r.decision ≡ target)
      × (r.detected_language ≡ some r.selected_language)
      × (find_definition registry r.selected_language ≡ some d)
      × (snapshot_classified_language_evidence lower_case input.evidence ≡ ok e)
      × IsBacked input.boundary_mode e r.selected_language d
evaluate_language_gate-generation lower_case registry input r h g =
    let selected = normalize_language_code lower_case input.selected_language in
    let (d, e, found, valid, decided) = evaluated lower_case registry input r h in
    let (final, hit, same, seen, backed) =
      decide-generation input.boundary_mode input.is_final e selected d registry r decided g in
    (
      d,
      e,
      final,
      hit,
      seen ∙ (backed-language input.boundary_mode e selected d backed ∙ ap some (sym same)),
      ap (find_definition registry) same ∙ found,
      valid,
      subst (λ s. IsBacked input.boundary_mode e s d) (sym same) backed,
    )

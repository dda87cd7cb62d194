-- ===== src/Languages/Gate/Display.antt =====
-- packages/language-registry/src/gate.ts: what is shown.
use palancar.Base.{
  ◌≡◌, sym, ap, ◌∙◌, subst, ◌⊎◌, inl, inr, Bool, true, false, some, List, arith, Option-cases, Text,
  text_beq_iff, text_eq, nat_eq,
}
use palancar.Languages.Scores.{Score, at_least}
use palancar.Languages.{LanguageDefinition, CalibrationProfile, find_definition}
use palancar.Languages.Evidence.{Evidence, calibrated, ok, snapshot_classified_language_evidence}
use palancar.Languages.Gate.{
  BoundaryMode, production_calibrated, development_provisional, invalid_mode, undecided, GateInput,
  GateResult, calibration_accepted, partial_display_accepted, result_for, final_result, decide,
  normalize_language_code, evaluate_language_gate, detects,
}
use palancar.Languages.Gate.Safety.{calibration_accepted-true, evaluated}

-- A partial transcript that the definition's calibration for partial display covers.
abbrev pub IsShownEarly : GateInput → Evidence → LanguageDefinition → GateResult → Type 0
IsShownEarly input e d r =
    (input.is_final ≡ false)
    × (input.boundary_mode ≡ production_calibrated)
    × (r.decision ≡ undecided)
    × ((p : CalibrationProfile) × (c : Score) × (d.partial_display_calibration ≡ some p)
        × (e ≡ calibrated p.detector_version r.selected_language c p.calibration_version)
        × (at_least c p.confidence_threshold ≡ true))

detected-selected :
    (p : CalibrationProfile) (e : Evidence) (s : Text) (c : Score) (selected : Text)
    → e ≡ calibrated p.detector_version s c p.calibration_version
    → detects e selected ≡ true
    → s ≡ selected
unfolding detects
detected-selected p e s c selected form h =
    (text_beq_iff s selected).0 (subst (λ x. detects x selected ≡ true) form h)

partial-calibrated :
    (e : Evidence) (selected : Text) (d : LanguageDefinition)
    → partial_display_accepted e selected d ≡ true
    → (p : CalibrationProfile) × (c : Score) × (d.partial_display_calibration ≡ some p)
      × (e ≡ calibrated p.detector_version selected c p.calibration_version)
      × (at_least c p.confidence_threshold ≡ true)
unfolding partial_display_accepted
partial-calibrated e selected d h = elim (Option-cases d.partial_display_calibration) [
  | inl nothing ↦ ground arith
  | inr (p, q) ↦
      let passed : calibration_accepted p e ≡ true = ground (arith, q, h) in
      let (s, c, form, enough) = calibration_accepted-true p e passed in
      let same : s ≡ selected = detected-selected p e s c selected form (ground (arith, q, h)) in
      (
        p,
        c,
        q,
        form ∙ ap (λ t. calibrated p.detector_version t c p.calibration_version) same,
        enough,
      )
]

decide-display :
    (mode : BoundaryMode) (is_final : Bool) (e : Evidence) (selected : Text)
    (d : LanguageDefinition) (registry : List LanguageDefinition) (r : GateResult)
    → decide mode is_final e selected d registry ≡ ok r
    → (r.display_allowed ≡ r.generation_allowed)
      ⊎ ((is_final ≡ false)
          × (mode ≡ production_calibrated)
          × (r.decision ≡ undecided)
          × (r.selected_language ≡ selected)
          × (partial_display_accepted e selected d ≡ true))
unfolding decide final_result result_for
decide-display production_calibrated true e selected d registry r h = ground arith
decide-display development_provisional true e selected d registry r h = ground arith
decide-display production_calibrated false e selected d registry r h = ground arith
decide-display development_provisional false e selected d registry r h = ground arith
decide-display invalid_mode is_final e selected d registry r h = cc

-- What the gate allows to show it allows to answer, and the other way round, except that a partial
-- transcript may be shown in production when the definition's own calibration for that backs it.
pub evaluate_language_gate-display :
    (lower_case : Text → Text) (registry : List LanguageDefinition) (input : GateInput)
    (r : GateResult)
    → evaluate_language_gate lower_case registry input ≡ ok r
    → (r.display_allowed ≡ r.generation_allowed)
      ⊎ ((d : LanguageDefinition) × (e : Evidence) × (find_definition registry
              (normalize_language_code lower_case input.selected_language)
            ≡ some d)
          × (snapshot_classified_language_evidence lower_case input.evidence ≡ ok e)
          × IsShownEarly input e d r)
evaluate_language_gate-display lower_case registry input r h =
    let selected = normalize_language_code lower_case input.selected_language in
    let (d, e, found, valid, decided) = evaluated lower_case registry input r h in
    elim (decide-display input.boundary_mode input.is_final e selected d registry r decided) [
      | inl same ↦ inl same
      | inr (f, m, u, s, shown) ↦
          let (p, c, q, form, enough) = partial-calibrated e selected d shown in
          inr (
            d,
            e,
            found,
            valid,
            (
              f,
              m,
              u,
              (
                p,
                c,
                q,
                form ∙ ap (λ t. calibrated p.detector_version t c p.calibration_version) (sym s),
                enough,
              ),
            ),
          )
    ]

-- ===== src/Security/AudioMeter/Parsing.antt =====
-- A grant that `parseAudioGrant` accepts, and the meter made from it.
use palancar.Base.{◌+◌, ◌<◌, ◌≡◌, refl, inl, inr, Option, none, some, arith, ltb, subst}
use palancar.Security.AudioMeter.{
  Outcome, ok, err, invalid_input, GrantInput, AudioGrant, reserves, parse_audio_grant, Meter,
  create, Outcome-cases, ◌>>=◌, positive_safe_integer, check, non_negative_safe_integer,
  canonical_uuid,
}
use palancar.Security.AudioMeter.Ranges.{IsMetered}

abbrev Ensures {ℓ κ} : {A : Type ℓ} → (A → Type κ) → Outcome A → Type κ
Ensures P (ok a) = P a
Ensures P (err c) = Unit

bind-Ensures {ℓ κ μ} :
    {A : Type ℓ} {B : Type κ} (P : B → Type μ) (o : Outcome A) (f : A → Outcome B)
    → ((a : A) → o ≡ ok a → Ensures P (f a))
    → Ensures P (o >>= f)
bind-Ensures P (ok a) f h = h a refl
bind-Ensures P (err c) f h = tt

-- What a parsed grant has.
abbrev IsGrant : AudioGrant → Type 0
IsGrant g = (g.from_offset + g.reserved_samples ≡ g.through_offset) × (g.issued_at < g.expires_at)

parse_audio_grant-IsGrant : (input : Option GrantInput) → Ensures IsGrant (parse_audio_grant input)
unfolding parse_audio_grant
parse_audio_grant-IsGrant none = tt
parse_audio_grant-IsGrant (some i) =
    bind-Ensures IsGrant (positive_safe_integer i.session_epoch) _ λ epoch _.
      bind-Ensures IsGrant (positive_safe_integer i.session_lease_version) _ λ version _.
        bind-Ensures IsGrant (non_negative_safe_integer i.issued_at) _ λ issued _.
          bind-Ensures IsGrant (non_negative_safe_integer i.expires_at) _ λ expires _.
            bind-Ensures IsGrant (non_negative_safe_integer i.from_offset) _ λ from _.
              bind-Ensures IsGrant (positive_safe_integer i.through_offset) _ λ through _.
                bind-Ensures IsGrant (positive_safe_integer i.reserved_samples) _ λ reserved _.
                  bind-Ensures IsGrant (check (ltb issued expires) invalid_input) _ λ _ life.
                    bind-Ensures IsGrant (check (reserves from through reserved) invalid_input) _
                      λ _ sum. bind-Ensures IsGrant (canonical_uuid i.grant_id) _ λ grant_id _.
                        bind-Ensures IsGrant (canonical_uuid i.utterance_id) _ λ utterance_id _.
                          bind-Ensures IsGrant (canonical_uuid i.installation_id) _
                            λ installation_id _.
                              bind-Ensures IsGrant (canonical_uuid i.session_id) _
                                λ session_id _. (ground arith, ground arith)

pub create-IsMetered : (input : Option GrantInput) (m : Meter) → create input ≡ ok m → IsMetered m
unfolding create
create-IsMetered input m h = elim (Outcome-cases (parse_audio_grant input)) [
  | inr (c, e) ↦ ground arith
  | inl (g, e) ↦
      let parsed : IsGrant g = subst (Ensures IsGrant) e (parse_audio_grant-IsGrant input) in
      ground (arith, parsed)
]

pub create-start :
    (input : Option GrantInput) (m : Meter)
    → create input ≡ ok m
    → m.accepted_through ≡ m.grant.from_offset
unfolding create
create-start input m h = elim (Outcome-cases (parse_audio_grant input)) [
  | inr (c, e) ↦ ground arith
  | inl (g, e) ↦ ground arith
]

-- ===== src/Audio/Framer/Target.antt =====
-- The coalescing target that the constructor derives.
use palancar.Base.{
  ◌+◌, ◌⊎◌, inl, inr, ℕ, ◌*◌, ◌/◌, ◌%◌, ◌≤◌, ◌<◌, ◌≡◌, refl, false, min, Option, none, some, [],
  arith, ltb, lt→ltb,
}
use native.Mathlib.Nat.{div-add-mod, mul-le-mul_right}
use native.Mathlib.Decide.{dec_lt}
use palancar.Contracts.Constants.{max_audio_payload_bytes}
use palancar.Audio.Framer.{
  Reason, invalid_payload_limit, Result, ok, err, ◌>>=◌, Limit, whole, not_whole, Options, Framer,
  create, assert_integer_limit, resolve_alias, or_default, assert_even, sample_limit,
  resolve_target_bytes, most_of, least_of, sized, capped, largest_even_at_most,
  default_pcm_coalescing_target_bytes,
}
use palancar.Audio.Framer.Stream.{IsFramer}
use palancar.Audio.Framer.Limits.{
  IsPayloadLimit, WithinGoal, IsLargest, resolve_alias-given, assert_even-even, least_of-cases,
  least_of-goal, capped-cases, resolve-goal,
}

abbrev pub Ensures {ℓ κ} : {A : Type ℓ} → (A → Type κ) → Result A → Type κ
Ensures P (ok a) = P a
Ensures P (err e) = Unit

pub bind-Ensures {ℓ κ μ} :
    {A : Type ℓ} {B : Type κ} (P : B → Type μ) (o : Result A) (f : A → Result B)
    → ((a : A) → o ≡ ok a → Ensures P (f a))
    → Ensures P (o >>= f)
bind-Ensures P (ok a) f h = h a refl
bind-Ensures P (err e) f h = tt

-- A sample limit, when it is given, bounds the target at two bytes for a sample.
abbrev pub Within : ℕ → Option Limit → Type 0
Within n none = Unit {0}
Within n (some not_whole) = ⊥
Within n (some (whole s)) = n ≤ s * 2

pub record IsSized (o : Options) (f : Framer) : Type 0 where
  pub framer : IsFramer f
  pub default_cap : f.target_bytes ≤ default_pcm_coalescing_target_bytes
  pub payload_cap : f.max_payload_bytes ≤ max_audio_payload_bytes
  pub retained_cap : Within f.target_bytes o.max_retained_replay_samples
  pub unacknowledged_cap : Within f.target_bytes o.max_unacknowledged_samples
  pub payload_given :
      IsPayloadLimit o.max_payload_bytes o.max_audio_payload_bytes f.max_payload_bytes
  pub payload_even : f.max_payload_bytes % 2 ≡ 0
  pub goal_cap :
      WithinGoal o.coalescing_target_bytes o.coalescing_target_samples o.coalescing_target_ms
        f.target_bytes
  pub largest : IsLargest o f.max_payload_bytes f.target_bytes
  pub fresh : (f.pending ≡ []) × (f.trailing ≡ none)

sample_limit-Within :
    (l : Option Limit) (r : Option ℕ) (most n : ℕ)
    → sample_limit l ≡ ok r
    → n ≤ capped most r
    → Within n l × (n ≤ most)
unfolding sample_limit capped
sample_limit-Within none r most n e h = ground arith
sample_limit-Within (some not_whole) r most n e h = ground arith
sample_limit-Within (some (whole s)) r most n e h = ground arith

quotient-le : (n d m : ℕ) → n < m * d → n / d ≤ m
quotient-le n d m h = elim (dec_lt m (n / d)) [
  | no p ↦ omega arith
  | yes p ↦ grind (arith, div-add-mod n d)
]

least_of-le : (goal : ℕ × ℕ) (most : ℕ) → least_of goal most ≤ most
unfolding least_of
least_of-le (n, d) most = elim (dec_lt n (most * d)) [
  | no p ↦ ground arith
  | yes p ↦ ground (arith, quotient-le n d most p)
]

ge→ltb : (a b : ℕ) → ¬ (a < b) → ltb a b ≡ false
ge→ltb a b h = ground arith

assert_integer_limit-le :
    (l : Limit) (e : Reason) (low high n : ℕ) → assert_integer_limit l e low high ≡ ok n → n ≤ high
unfolding assert_integer_limit
assert_integer_limit-le (whole m) e low high n h = ground arith
assert_integer_limit-le not_whole e low high n h = cc

even_target : (n : ℕ) → (largest_even_at_most n % 2 ≡ 0) × (largest_even_at_most n ≤ n)
even_target n = omega arith

sized-IsSized :
    (o : Options) (payload target : ℕ)
    → target % 2 ≡ 0
    → payload ≤ max_audio_payload_bytes
    → (target ≤ min default_pcm_coalescing_target_bytes payload)
      × Within target o.max_retained_replay_samples
      × Within target o.max_unacknowledged_samples
    → IsPayloadLimit o.max_payload_bytes o.max_audio_payload_bytes payload
    → payload % 2 ≡ 0
    → WithinGoal o.coalescing_target_bytes o.coalescing_target_samples o.coalescing_target_ms target
    → IsLargest o payload target
    → Ensures (IsSized o) (sized payload target)
unfolding sized
sized-IsSized o payload target even small within given whole_payload goal most =
    elim (dec_lt target 2) [
      | yes p ↦ rw (lt→ltb target 2 p) tt
      | no p ↦ rw (ge→ltb target 2 p) (record {
        framer = record {
          target_even = even;
          target_positive = omega arith;
          target_most = omega (arith, within.0);
          pending_even = refl;
          pending_less = omega arith;
        };
        default_cap = omega (arith, within.0);
        payload_cap = small;
        retained_cap = within.1;
        unacknowledged_cap = within.2;
        payload_given = given;
        payload_even = whole_payload;
        goal_cap = goal;
        largest = most;
        fresh = (refl, refl);
      })
    ]

target-Within :
    (o : Options) (payload : ℕ) (retained unacknowledged : Option ℕ) (goal : ℕ × ℕ)
    → sample_limit o.max_retained_replay_samples ≡ ok retained
    → sample_limit o.max_unacknowledged_samples ≡ ok unacknowledged
    → let target = largest_even_at_most (least_of goal (most_of payload retained unacknowledged)) in
      (target ≤ min default_pcm_coalescing_target_bytes payload)
      × Within target o.max_retained_replay_samples
      × Within target o.max_unacknowledged_samples
unfolding most_of
target-Within o payload retained unacknowledged goal r u =
    let first = min default_pcm_coalescing_target_bytes payload in
    let inner = capped first retained in
    let most = most_of payload retained unacknowledged in
    let target : ℕ = largest_even_at_most (least_of goal most) in
    let below : target ≤ most = omega (arith, least_of-le goal most) in
    let outer =
      sample_limit-Within o.max_unacknowledged_samples unacknowledged inner target u below in
    let within =
      sample_limit-Within o.max_retained_replay_samples retained first target r outer.1 in
    (within.1, within.0, outer.0)

most-IsLargest :
    (o : Options) (payload t : ℕ) (retained unacknowledged : Option ℕ)
    → sample_limit o.max_retained_replay_samples ≡ ok retained
    → sample_limit o.max_unacknowledged_samples ≡ ok unacknowledged
    → most_of payload retained unacknowledged < t + 2
    → IsLargest o payload t
unfolding most_of
most-IsLargest o payload t retained unacknowledged r u h =
    let first = min default_pcm_coalescing_target_bytes payload in
    elim (capped-cases (capped first retained) o.max_unacknowledged_samples unacknowledged t u h) [
      | inr k ↦ inr (inr (inr (inl k)))
      | inl k ↦ elim (capped-cases first o.max_retained_replay_samples retained t r k) [
        | inr l ↦ inr (inr (inl l))
        | inl l ↦
            let d : (default_pcm_coalescing_target_bytes < t + 2) ⊎ (payload < t + 2) =
              omega (arith, l) in
            elim d [ inl x ↦ inl x | inr x ↦ inr (inl x) ]
      ]
    ]

-- The target that is derived fits the configured goal, and one sample more would exceed a limit.
target-goal :
    (o : Options) (payload n d : ℕ) (retained unacknowledged : Option ℕ)
    → sample_limit o.max_retained_replay_samples ≡ ok retained
    → sample_limit o.max_unacknowledged_samples ≡ ok unacknowledged
    → resolve_target_bytes o ≡ ok (n, d)
    → let t = largest_even_at_most (least_of (n, d) (most_of payload retained unacknowledged)) in
      t ≤ default_pcm_coalescing_target_bytes
      → WithinGoal o.coalescing_target_bytes o.coalescing_target_samples o.coalescing_target_ms t
        × IsLargest o payload t
target-goal o payload n d retained unacknowledged r u g c =
    let most = most_of payload retained unacknowledged in
    let least = least_of (n, d) most in
    let t : ℕ = largest_even_at_most least in
    let f =
      resolve-goal o o.coalescing_target_bytes o.coalescing_target_samples o.coalescing_target_ms n
        d t g in
    let above : least + 1 ≤ t + 2 = omega arith in
    (
      f.1 (least_of-goal n d most t (omega arith)) c,
      elim (least_of-cases n d most f.0) [
        | inl q ↦ most-IsLargest o payload t retained unacknowledged r u (omega (arith, q, above))
        | inr k ↦ elim (f.2 (omega (arith, k, mul-le-mul_right d above))) [
          | inl x ↦ inr (inr (inr (inr x)))
          | inr x ↦ inl x
        ]
      ],
    )

-- A framer that is made holds nothing. Its payload limit is the given one, or the maximum of the protocol.
-- Its target is of whole samples and the largest, from one sample up, within the default of 60 ms, the
-- payload limit, the given sample limits and the given target.
pub create-IsSized : (o : Options) → Ensures (IsSized o) (create o)
unfolding create
create-IsSized o =
    bind-Ensures (IsSized o)
      (resolve_alias o.max_payload_bytes o.max_audio_payload_bytes invalid_payload_limit) _
      λ given alias.
        bind-Ensures (IsSized o)
          (assert_integer_limit (or_default given) invalid_payload_limit 2 max_audio_payload_bytes)
          _
          λ payload small. bind-Ensures (IsSized o) (assert_even payload) _ λ x even.
            bind-Ensures (IsSized o) (sample_limit o.max_retained_replay_samples) _ λ retained r.
              bind-Ensures (IsSized o) (sample_limit o.max_unacknowledged_samples) _
                λ unacknowledged u. bind-Ensures (IsSized o) (resolve_target_bytes o) _ λ goal g.
                  let most = least_of goal (most_of payload retained unacknowledged) in
                  let within = target-Within o payload retained unacknowledged goal r u in
                  let fits =
                    target-goal o payload goal.0 goal.1 retained unacknowledged r u g
                      (omega (arith, within.0)) in
                  sized-IsSized o payload (largest_even_at_most most) (even_target most).0
                    (assert_integer_limit-le (or_default given) invalid_payload_limit 2
                      max_audio_payload_bytes payload small)
                    within
                    (resolve_alias-given o.max_payload_bytes o.max_audio_payload_bytes given
                      invalid_payload_limit invalid_payload_limit 2 max_audio_payload_bytes payload
                      alias small)
                    (assert_even-even payload x even) fits.0 fits.1

-- ===== src/Audio/Framer/Limits.antt =====
-- packages/audio/src/pcm.ts: the limits and the target that the constructor is given.
use palancar.Base.{
  ap, subst, sym, ◌∙◌, true, nat_beq_iff, suc, ◌+◌, ◌⊎◌, inl, inr, ℕ, ◌*◌, ◌/◌, ◌%◌, ◌≤◌, ◌<◌, ◌≡◌,
  min, Option, none, some, arith,
}
use native.Mathlib.Nat.{div-add-mod, mod-lt, mul-le-mul_right}
use native.Mathlib.Decide.{dec_lt}
use palancar.Contracts.Constants.{max_audio_payload_bytes}
use palancar.Audio.Framer.{
  Reason, ok, Limit, whole, not_whole, Options, Goal, ratio, not_finite, same_limit, positive_goal,
  assert_integer_limit, resolve_alias, or_default, assert_even, sample_limit, resolve_target_bytes,
  least_of, capped, default_pcm_coalescing_target_bytes,
}

-- The payload limit is the one that is given, under one of its two names or under both, or else the
-- maximum of the protocol.
abbrev pub IsPayloadLimit : Option Limit → Option Limit → ℕ → Type 0
IsPayloadLimit none none p = p ≡ max_audio_payload_bytes
IsPayloadLimit (some a) none p = a ≡ whole p
IsPayloadLimit none (some b) p = b ≡ whole p
IsPayloadLimit (some a) (some b) p = (a ≡ whole p) × (b ≡ whole p)

-- The target is at most the configured one, in bytes, samples or milliseconds, of which one at most is
-- given.
abbrev pub WithinGoal : Option Goal → Option Goal → Option Goal → ℕ → Type 0
WithinGoal none none none t = Unit {0}
WithinGoal (some (ratio n d)) none none t = t * suc d ≤ n
WithinGoal none (some (ratio n d)) none t = t * suc d ≤ n * 2
WithinGoal none none (some (ratio n d)) t = t * (suc d * 1_000) ≤ n * 32_000
WithinGoal b s m t = ⊥

-- One sample more would exceed a limit.
abbrev pub Fills : Option Limit → ℕ → Type 0
Fills none t = ⊥
Fills (some not_whole) t = ⊥
Fills (some (whole s)) t = s * 2 < t + 2

abbrev pub FillsGoal : Option Goal → Option Goal → Option Goal → ℕ → Type 0
FillsGoal (some (ratio n d)) none none t = n < (t + 2) * suc d
FillsGoal none (some (ratio n d)) none t = n * 2 < (t + 2) * suc d
FillsGoal none none (some (ratio n d)) t = n * 32_000 < (t + 2) * (suc d * 1_000)
FillsGoal b s m t = ⊥

abbrev pub IsLargest : Options → ℕ → ℕ → Type 0
IsLargest o payload t =
    (default_pcm_coalescing_target_bytes < t + 2)
    ⊎ ((payload < t + 2)
        ⊎ (Fills o.max_retained_replay_samples t
            ⊎ (Fills o.max_unacknowledged_samples t
                ⊎ FillsGoal o.coalescing_target_bytes o.coalescing_target_samples
                    o.coalescing_target_ms t)))

same_limit-eq : (a b : Limit) → same_limit a b ≡ true → a ≡ b
unfolding same_limit
same_limit-eq (whole a) (whole b) h = ap whole ((nat_beq_iff a b).0 h)
same_limit-eq (whole a) not_whole h = cc
same_limit-eq not_whole b h = cc

assert_integer_limit-whole :
    (l : Limit) (e : Reason) (low high n : ℕ)
    → assert_integer_limit l e low high ≡ ok n
    → l ≡ whole n
unfolding assert_integer_limit
assert_integer_limit-whole (whole m) e low high n h = ap whole (ground arith)
assert_integer_limit-whole not_whole e low high n h = cc

pub resolve_alias-given :
    (a b given : Option Limit) (e f : Reason) (low high n : ℕ)
    → resolve_alias a b e ≡ ok given
    → assert_integer_limit (or_default given) f low high ≡ ok n
    → IsPayloadLimit a b n
unfolding resolve_alias or_default
resolve_alias-given none none given e f low high n h k =
    let w : or_default given ≡ whole n =
      assert_integer_limit-whole (or_default given) f low high n k in
    ground (arith, h, w)
resolve_alias-given (some a) none given e f low high n h k =
    let w : or_default given ≡ whole n =
      assert_integer_limit-whole (or_default given) f low high n k in
    let g : given ≡ some a = ground (arith, h) in ap or_default (sym g) ∙ w
resolve_alias-given none (some b) given e f low high n h k =
    let w : or_default given ≡ whole n =
      assert_integer_limit-whole (or_default given) f low high n k in
    let g : given ≡ some b = ground (arith, h) in ap or_default (sym g) ∙ w
resolve_alias-given (some a) (some b) given e f low high n h k =
    let w : or_default given ≡ whole n =
      assert_integer_limit-whole (or_default given) f low high n k in
    let g : (given ≡ some a) × (same_limit a b ≡ true) = ground (arith, h) in
    let v : a ≡ whole n = ap or_default (sym g.0) ∙ w in (v, sym (same_limit-eq a b g.1) ∙ v)

pub assert_even-even : (p : ℕ) (x : Unit {0}) → assert_even p ≡ ok x → p % 2 ≡ 0
unfolding assert_even
assert_even-even p x h = ground arith

quotient_next : (n d : ℕ) → 1 ≤ d → n < (n / d + 1) * d
quotient_next n d p = omega (arith, div-add-mod n d, mod-lt n {m = d} p)

quotient_times : (n d : ℕ) → n / d * d ≤ n
quotient_times n d = omega (arith, div-add-mod n d)

pub least_of-cases :
    (n d most : ℕ) → 1 ≤ d → (least_of (n, d) most ≡ most) ⊎ (n < (least_of (n, d) most + 1) * d)
unfolding least_of
least_of-cases n d most p' = elim (dec_lt n (most * d)) [
  | no p ↦ ground arith
  | yes p ↦
      let q : least_of (n, d) most ≡ n / d = ground (arith, p) in
      inr (subst (λ x. n < (x + 1) * d) (sym q) (quotient_next n d p'))
]

pub least_of-goal : (n d most t : ℕ) → t ≤ least_of (n, d) most → t * d ≤ n
unfolding least_of
least_of-goal n d most t h = elim (dec_lt n (most * d)) [
  | no p ↦
      let q : least_of (n, d) most ≡ most = ground (arith, p) in
      omega (arith, p, mul-le-mul_right d (subst (λ x. t ≤ x) q h))
  | yes p ↦
      let q : least_of (n, d) most ≡ n / d = ground (arith, p) in
      omega (arith, quotient_times n d, mul-le-mul_right d (subst (λ x. t ≤ x) q h))
]

pub capped-cases :
    (n : ℕ) (l : Option Limit) (r : Option ℕ) (t : ℕ)
    → sample_limit l ≡ ok r
    → capped n r < t + 2
    → (n < t + 2) ⊎ Fills l t
unfolding capped sample_limit assert_integer_limit
capped-cases n none r t h k =
    let q : r ≡ none = ground (arith, h) in inl (subst (λ x. capped n x < t + 2) q k)
capped-cases n (some not_whole) r t h k = ground (arith, h)
capped-cases n (some (whole s)) r t h k =
    let q : r ≡ some s = ground (arith, h) in
    let w : min n (s * 2) < t + 2 = subst (λ x. capped n x < t + 2) q k in omega (arith, w)

pub resolve-goal :
    (o : Options) (b s m : Option Goal) (n d t : ℕ)
    → resolve_target_bytes (record o {
      coalescing_target_bytes = b;
      coalescing_target_samples = s;
      coalescing_target_ms = m;
    })
      ≡ ok (n, d)
    → (1 ≤ d)
      × (t * d ≤ n → t ≤ default_pcm_coalescing_target_bytes → WithinGoal b s m t)
      × (n < (t + 2) * d → FillsGoal b s m t ⊎ (default_pcm_coalescing_target_bytes < t + 2))
unfolding resolve_target_bytes positive_goal
resolve-goal o none none none n d t h =
    (ground (arith, h), λ a c. tt, λ a. inr (ground (arith, h, a)))
resolve-goal o (some (ratio x y)) none none n d t h =
    let q : (n ≡ x * 1) × (d ≡ suc y * 1) = ground (arith, h) in
    rw (q.0, q.1) (omega arith, λ a c. grind (arith, a), λ a. inl (grind (arith, a)))
resolve-goal o (some not_finite) none none n d t h = ground arith
resolve-goal o none (some (ratio x y)) none n d t h =
    let q : (n ≡ x * 2) × (d ≡ suc y * 1) = ground (arith, h) in
    rw (q.0, q.1) (omega arith, λ a c. grind (arith, a), λ a. inl (grind (arith, a)))
resolve-goal o none (some not_finite) none n d t h = ground arith
resolve-goal o none none (some (ratio x y)) n d t h =
    let q : (n ≡ x * 32_000) × (d ≡ suc y * 1_000) = ground (arith, h) in
    rw (q.0, q.1) (omega arith, λ a c. grind (arith, a), λ a. inl (grind (arith, a)))
resolve-goal o none none (some not_finite) n d t h = ground arith
resolve-goal o (some x) (some y) m n d t h = ground arith
resolve-goal o (some x) none (some y) n d t h = ground arith
resolve-goal o none (some x) (some y) n d t h = ground arith

-- ===== src/Security/AudioMeter/History.antt =====
-- What a meter charges over a history of calls.
use palancar.Base.{
  ℕ, ◌+◌, ◌≤◌, ◌<◌, ◌≡◌, refl, ap, ◌∙◌, false, nat, max_safe_integer, inl, inr, Option, List, [],
  ◌∷◌, arith,
}
use palancar.Security.AudioMeter.{
  Outcome, ok, err, GrantInput, Meter, create, Snapshot, Reading, Outcome-cases, RangeInput, range,
  accept,
}
use palancar.Security.AudioMeter.Ranges.{
  IsMetered, accept-Extends, accept-Keeps, accept-IsMetered, accept-ge-seen,
}
use palancar.Security.AudioMeter.Parsing.{create-IsMetered, create-start}

unfoldable pub charge : Outcome Snapshot → Outcome (ℕ × ℕ) → List (ℕ × ℕ) → List (ℕ × ℕ)
charge (err c) ends rest = rest
charge (ok s) (err c) rest = rest
charge (ok s) (ok ends) rest = ends ∷ rest

-- The ranges that a history of calls has charged.
unfoldable pub charged : Meter → List (Option RangeInput × Reading) → List (ℕ × ℕ)
unfolding charge
charged m [] = []
charged m ((input, r) ∷ calls) =
    charge (accept m input r).1 (range input) (charged (accept m input r).0 calls)

pub after : Meter → List (Option RangeInput × Reading) → Meter
after m [] = m
after m ((input, r) ∷ calls) = after (accept m input r).0 calls

-- The ranges fill the interval from `a` to `b` in order, with no gap and no overlap.
abbrev pub Tiles : ℕ → List (ℕ × ℕ) → ℕ → Type 0
Tiles a [] b = a ≡ b
Tiles a ((f, t) ∷ rs) b = (a ≡ f) × (f < t) × Tiles t rs b

charged-Tiles :
    (m : Meter) (calls : List (Option RangeInput × Reading))
    → IsMetered m
    → Tiles m.accepted_through (charged m calls) (after m calls).accepted_through
      × ((after m calls).accepted_through ≤ m.grant.through_offset)
unfolding charged after
charged-Tiles m [] w = (refl, w.within)
charged-Tiles m ((input, r) ∷ calls) w =
    let rest = charged-Tiles (accept m input r).0 calls (accept-IsMetered m input r w) in
    elim (Outcome-cases (accept m input r).1) [
      | inl (s, e) ↦
          let (f, t, k, x) = accept-Extends m input r s w e in
          rw (e, k, charge) (ground (arith, rest, x))
      | inr (c, e) ↦
          let x = accept-Keeps m input r c w e in rw (e, charge) (ground (arith, rest, x))
    ]

-- A meter made from a parsed grant charges, over any history of calls, ranges that fill the grant
-- from its start without gap or overlap, and never more samples than were reserved.
pub create-charged-Tiles :
    (input : Option GrantInput) (m : Meter) (calls : List (Option RangeInput × Reading))
    → create input ≡ ok m
    → Tiles m.grant.from_offset (charged m calls) (after m calls).accepted_through
      × ((after m calls).accepted_through ≤ m.grant.from_offset + m.grant.reserved_samples)
create-charged-Tiles input m calls h =
    let w = create-IsMetered input m h in
    ground (arith, charged-Tiles m calls w, w, create-start input m h)

module _ (m : Meter) (expired : m.grant.expires_at ≤ m.last_now) where
  expired-refused :
      (input : Option RangeInput) (r : Reading) (s : Snapshot)
      → IsMetered m
      → ¬ ((accept m input r).1 ≡ ok s)
  expired-refused input r s w h =
      let (f, t, k, x) = accept-Extends m input r s w h in
      absurd (omega (arith, x.forward, x.unexpired))

accept-forward :
    (m : Meter) (input : Option RangeInput) (r : Reading)
    → IsMetered m
    → (m.last_now ≤ (accept m input r).0.last_now) × ((accept m input r).0.grant ≡ m.grant)
accept-forward m input r w = elim (Outcome-cases (accept m input r).1) [
  | inl (s, e) ↦ let (f, t, k, x) = accept-Extends m input r s w e in (x.forward, x.same_grant)
  | inr (c, e) ↦ let x = accept-Keeps m input r c w e in (x.forward, x.same_grant)
]

last_now-charged :
    (m : Meter) (calls : List (Option RangeInput × Reading))
    → IsMetered m
    → m.grant.expires_at ≤ m.last_now
    → charged m calls ≡ []
unfolding charged
last_now-charged m [] w h = refl
last_now-charged m ((input, r) ∷ calls) w h = elim (Outcome-cases (accept m input r).1) [
  | inl (s, e) ↦ absurd (expired-refused m h input r s w e)
  | inr (c, e) ↦
      rw (e, charge)
        (last_now-charged (accept m input r).0 calls (accept-IsMetered m input r w)
          (ground (arith, accept-forward m input r w)))
]

after-IsMetered :
    (m : Meter) (calls : List (Option RangeInput × Reading))
    → IsMetered m
    → IsMetered (after m calls)
unfolding after
after-IsMetered m [] w = w
after-IsMetered m ((input, r) ∷ calls) w =
    after-IsMetered (accept m input r).0 calls (accept-IsMetered m input r w)

after-grant :
    (m : Meter) (calls : List (Option RangeInput × Reading))
    → IsMetered m
    → (after m calls).grant ≡ m.grant
unfolding after
after-grant m [] w = refl
after-grant m ((input, r) ∷ calls) w =
    after-grant (accept m input r).0 calls (accept-IsMetered m input r w)
    ∙ (accept-forward m input r w).1

seen-charged :
    (m : Meter) (input : Option RangeInput) (ends : ℕ × ℕ) (seen : ℕ)
    (calls : List (Option RangeInput × Reading))
    → IsMetered m
    → range input ≡ ok ends
    → seen ≤ max_safe_integer
    → m.grant.expires_at ≤ seen
    → charged m ((input, record { reenters = false; observed = ok (nat seen) }) ∷ calls) ≡ []
unfolding charged
seen-charged m input ends seen calls w k h x =
    let r : Reading = record { reenters = false; observed = ok (nat seen) } in
    let late = accept-ge-seen m input ends seen w k h in
    elim (Outcome-cases (accept m input r).1) [
      | inl (s, e) ↦
          let (f, t, l, y) = accept-Extends m input r s w e in
          absurd (omega (arith, y.unexpired, late, x))
      | inr (c, e) ↦
          rw (e, charge)
            (last_now-charged (accept m input r).0 calls (accept-IsMetered m input r w)
              (ground (arith, accept-forward m input r w, late, x)))
    ]

-- After any history of calls of a meter made from a parsed grant, a call with a valid range to which the
-- clock returns a time at or after the grant's expiry charges nothing, and no later call does, whatever
-- the clock then says: turning it back does not extend the grant.
pub expired-charged :
    (input : Option GrantInput) (m : Meter) (before calls : List (Option RangeInput × Reading))
    (given : Option RangeInput) (ends : ℕ × ℕ) (seen : ℕ)
    → create input ≡ ok m
    → range given ≡ ok ends
    → seen ≤ max_safe_integer
    → m.grant.expires_at ≤ seen
    → charged
        (after m before)
        ((given, record { reenters = false; observed = ok (nat seen) }) ∷ calls)
      ≡ []
expired-charged input m before calls given ends seen h k b x =
    let w = create-IsMetered input m h in
    seen-charged (after m before) given ends seen calls (after-IsMetered m before w) k b
      (omega (arith, x, ap (λ g. g.expires_at) (after-grant m before w)))

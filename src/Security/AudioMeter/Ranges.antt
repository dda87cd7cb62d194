-- ===== src/Security/AudioMeter/Ranges.antt =====
-- packages/security-state/src/audio-meter.ts: the ranges of `accept`.
use palancar.Base.{
  ℕ, ◌+◌, ◌≤◌, ◌<◌, ◌≡◌, refl, sym, inl, inr, true, false, Option, none, some, arith, subst, Value,
  nat, max_safe_integer,
}
use palancar.Security.AudioMeter.{
  Outcome, ok, err, Category, Meter, Snapshot, Reading, observe, now, called, Outcome-cases,
  RangeInput, range, advance, accept_at, accept_range, accept, positive_safe_integer,
  non_negative_safe_integer,
}

pub record IsMetered (m : Meter) : Type 0 where
  pub started : m.grant.from_offset ≤ m.accepted_through
  pub within : m.accepted_through ≤ m.grant.through_offset
  pub reserved : m.grant.from_offset + m.grant.reserved_samples ≡ m.grant.through_offset
  pub outside : m.external_active ≡ false
  pub idle : m.operation_active ≡ false

-- `m'` has charged no more than `m`, and its clock has not gone back.
pub record Keeps (m m' : Meter) : Type 0 where
  pub same_grant : m'.grant ≡ m.grant
  pub same_end : m'.accepted_through ≡ m.accepted_through
  pub forward : m.last_now ≤ m'.last_now
  pub outside : m'.external_active ≡ false
  pub idle : m'.operation_active ≡ m.operation_active

observe-ge-last : (m : Meter) (o : Outcome Value) (t : ℕ) → observe m o ≡ ok t → m.last_now ≤ t
unfolding observe
observe-ge-last m (err c) t h = cc
observe-ge-last m (ok v) t h = elim (Outcome-cases (non_negative_safe_integer v)) [
  | inl (seen, e) ↦ ground arith
  | inr (c, e) ↦ ground arith
]

called_lem :
    (m : Meter) (r : Reading)
    → ((called m r).grant ≡ m.grant)
      × ((called m r).accepted_through ≡ m.accepted_through)
      × ((called m r).last_now ≡ m.last_now)
      × ((called m r).operation_active ≡ m.operation_active)
unfolding called
called_lem m r = ground arith

now-Keeps : (m : Meter) (r : Reading) → Keeps m (now m r).0
unfolding now
now-Keeps m r = elim (Outcome-cases (observe (called m r) r.observed)) [
  | inl (t, e) ↦ ground (arith, observe-ge-last (called m r) r.observed t e, called_lem m r)
  | inr (c, e) ↦ ground (arith, called_lem m r)
]

advance_lem :
    (m : Meter) (f t : ℕ) (s : Snapshot)
    → (advance m f t).1 ≡ ok s
    → (f ≡ m.accepted_through)
      × (t ≤ m.grant.through_offset)
      × ((advance m f t).0 ≡ record m { accepted_through = t })
unfolding advance
advance_lem m f t s h = ground arith

accept_at-cases :
    (o : Outcome ℕ) (m : Meter) (f t : ℕ) (s : Snapshot)
    → (accept_at o m f t).1 ≡ ok s
    → (time : ℕ) × (o ≡ ok time)
      × (time < m.grant.expires_at)
      × ((advance m f t).1 ≡ ok s)
      × ((accept_at o m f t).0 ≡ (advance m f t).0)
unfolding accept_at
accept_at-cases (err e) m f t s h = cc
accept_at-cases (ok time) m f t s h = (time, refl, ground arith, ground arith, ground arith)

accept_at-err :
    (o : Outcome ℕ) (m : Meter) (f t : ℕ) (c : Category)
    → (accept_at o m f t).1 ≡ err c
    → (accept_at o m f t).0 ≡ m
unfolding accept_at
accept_at-err (err e) m f t c h = refl
accept_at-err (ok time) m f t c h = ground arith

-- `m'` has accepted the range from `f` to `t` on top of `m`.
pub record Extends (m m' : Meter) (f t : ℕ) : Type 0 where
  pub same_grant : m'.grant ≡ m.grant
  pub contiguous : f ≡ m.accepted_through
  pub nonempty : f < t
  pub in_grant : t ≤ m.grant.through_offset
  pub new_end : m'.accepted_through ≡ t
  pub forward : m.last_now ≤ m'.last_now
  pub unexpired : m'.last_now < m.grant.expires_at
  pub outside : m'.external_active ≡ false
  pub idle : m'.operation_active ≡ m.operation_active

range-nonempty : (i : Option RangeInput) (f t : ℕ) → range i ≡ ok (f, t) → f < t
unfolding range
range-nonempty none f t h = cc
range-nonempty (some i) f t h = elim (Outcome-cases (non_negative_safe_integer i.from_offset)) [
  | inr (c, e) ↦ ground arith
  | inl (a, e) ↦ elim (Outcome-cases (positive_safe_integer i.through_offset)) [
    | inr (c, k) ↦ ground arith
    | inl (b, k) ↦ ground arith
  ]
]

time_passed :
    (m : Meter) (r : Reading) (time : ℕ) → (now m r).1 ≡ ok time → (now m r).0.last_now ≡ time
unfolding now
time_passed m r time h = elim (Outcome-cases (observe (called m r) r.observed)) [
  | inl (t, e) ↦ ground arith
  | inr (c, e) ↦ ground arith
]

extended :
    (m : Meter) (r : Reading) (f t : ℕ) (s : Snapshot)
    → f < t
    → (accept_at (now m r).1 (now m r).0 f t).1 ≡ ok s
    → Extends m (accept_at (now m r).1 (now m r).0 f t).0 f t
extended m r f t s h e =
    let (time, k, before, moved, same) = accept_at-cases (now m r).1 (now m r).0 f t s e in
    ground (arith, now-Keeps m r, time_passed m r time k, advance_lem (now m r).0 f t s moved, same)

accept-eq :
    (m : Meter) (input : Option RangeInput) (r : Reading)
    → IsMetered m
    → accept m input r ≡ accept_range (range input) m r
unfolding accept
accept-eq m input r w = ground (arith, w.outside, w.idle)

accept_range-Extends :
    (o : Outcome (ℕ × ℕ)) (m : Meter) (r : Reading) (s : Snapshot)
    → ((f t : ℕ) → o ≡ ok (f, t) → f < t)
    → (accept_range o m r).1 ≡ ok s
    → (f : ℕ) × (t : ℕ) × (o ≡ ok (f, t)) × Extends m (accept_range o m r).0 f t
unfolding accept_range
accept_range-Extends (err e) m r s n h = cc
accept_range-Extends (ok (f, t)) m r s n h = (f, t, refl, extended m r f t s (n f t refl) h)

accept_range-Keeps :
    (o : Outcome (ℕ × ℕ)) (m : Meter) (r : Reading) (c : Category)
    → m.external_active ≡ false
    → (accept_range o m r).1 ≡ err c
    → Keeps m (accept_range o m r).0
unfolding accept_range
accept_range-Keeps (err e) m r c q h = ground arith
accept_range-Keeps (ok (f, t)) m r c q h =
    subst (Keeps m) (sym (accept_at-err (now m r).1 (now m r).0 f t c h)) (now-Keeps m r)

-- In the invariant, an accepted call has a range that is not empty, starts at the accepted end and
-- lies in the grant; it moves the accepted end to its own, at a time before the expiry.
pub accept-Extends :
    (m : Meter) (input : Option RangeInput) (r : Reading) (s : Snapshot)
    → IsMetered m
    → (accept m input r).1 ≡ ok s
    → (f : ℕ) × (t : ℕ) × (range input ≡ ok (f, t)) × Extends m (accept m input r).0 f t
accept-Extends m input r s w =
    rw (accept-eq m input r w) (accept_range-Extends (range input) m r s (range-nonempty input))

-- A refused call charges nothing: the grant, the accepted end and the idle flags are as before, and
-- the clock has not gone back.
pub accept-Keeps :
    (m : Meter) (input : Option RangeInput) (r : Reading) (c : Category)
    → IsMetered m
    → (accept m input r).1 ≡ err c
    → Keeps m (accept m input r).0
accept-Keeps m input r c w =
    rw (accept-eq m input r w) (accept_range-Keeps (range input) m r c w.outside)

observe-ge-seen :
    (m : Meter) (seen : ℕ)
    → m.reentry_detected ≡ false
    → seen ≤ max_safe_integer
    → ((t : ℕ) → observe m (ok (nat seen)) ≡ ok t → seen ≤ t)
      × ((c : Category) → observe m (ok (nat seen)) ≡ err c → seen ≤ m.last_now)
unfolding observe non_negative_safe_integer
observe-ge-seen m seen h k = (λ t e. ground arith, λ c e. ground arith)

now-ge-seen :
    (m : Meter) (seen : ℕ)
    → seen ≤ max_safe_integer
    → seen ≤ (now m (record { reenters = false; observed = ok (nat seen) })).0.last_now
unfolding now called
now-ge-seen m seen h =
    let c : Meter = record m { external_active = true; reentry_detected = false } in
    let o = observe-ge-seen c seen refl h in
    elim (Outcome-cases (observe c (ok (nat seen)))) [
      | inl (t, e) ↦ rw (now, e) (o.0 t e)
      | inr (d, e) ↦ rw (now, e) (o.1 d e)
    ]

accept_at-last_now :
    (o : Outcome ℕ) (m : Meter) (f t : ℕ) → (accept_at o m f t).0.last_now ≡ m.last_now
unfolding accept_at advance
accept_at-last_now (err e) m f t = refl
accept_at-last_now (ok time) m f t = ground arith

-- A time that the clock returns to a call with a valid range is not forgotten.
pub accept-ge-seen :
    (m : Meter) (input : Option RangeInput) (ends : ℕ × ℕ) (seen : ℕ)
    → IsMetered m
    → range input ≡ ok ends
    → seen ≤ max_safe_integer
    → seen ≤ (accept m input (record { reenters = false; observed = ok (nat seen) })).0.last_now
unfolding accept_range
accept-ge-seen m input ends seen w k h =
    let r : Reading = record { reenters = false; observed = ok (nat seen) } in
    rw (accept-eq m input r w, k, accept_at-last_now (now m r).1 (now m r).0 ends.0 ends.1)
      (now-ge-seen m seen h)

-- Every call keeps the accepted end inside the grant.
pub accept-IsMetered :
    (m : Meter) (input : Option RangeInput) (r : Reading)
    → IsMetered m
    → IsMetered (accept m input r).0
accept-IsMetered m input r w = elim (Outcome-cases (accept m input r).1) [
  | inl (s, e) ↦ let (f, t, k, x) = accept-Extends m input r s w e in ground (arith, x, w)
  | inr (c, e) ↦ ground (arith, accept-Keeps m input r c w e, w)
]

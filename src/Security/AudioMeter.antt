-- ===== src/Security/AudioMeter.antt =====
-- packages/security-state/src/audio-meter.ts: the meter of one audio grant. An argument that
-- `exactDataObject` refuses is `none`.
pub mod Ranges
pub mod Parsing
pub mod History
use palancar.Base.{
  ℕ, zero, suc, ◌+◌, ◌-◌, ◌*◌, ◌≤◌, ◌<◌, ◌≡◌, refl, sym, ap, ◌≢◌, ◌⊎◌, inl, inr, Bool, true, false,
  ◌&&◌, ◌||◌, not, Option, none, some, List, [], ◌∷◌, ◌++◌, arith, ltb, leb, nat_beq, if◌then◌else◌,
  Bool-cases, Option-cases, Text, Value, nat, minus, fraction, text, other, max_safe_integer,
}
use palancar.Contracts.Uuid.{is_uuid}

pub data Category : Type 0 where
  invalid_input invalid_pairing invalid_credential credential_conflict invalid_ticket : Category
  stale_lease session_rejected generation_rejected quota_exceeded rate_limited : Category
  state_unavailable : Category

pub data Outcome {ℓ} (A : Type ℓ) : Type ℓ where
  ok : A → Outcome A
  err : Category → Outcome A

infixl 5 ◌>>=◌
abbrev pub ◌>>=◌ {ℓ κ} : {X : Type ℓ} {Y : Type κ} → Outcome X → (X → Outcome Y) → Outcome Y
err fault >>= next = err fault
ok x >>= next = next x

pub Outcome-cases {ℓ} :
    {A : Type ℓ} (o : Outcome A) → ((a : A) × (o ≡ ok a)) ⊎ ((c : Category) × (o ≡ err c))
Outcome-cases (ok a) = inl (a, refl)
Outcome-cases (err c) = inr (c, refl)

-- 5 * 60_000
abbrev pub clock_backwards_tolerance_ms : ℕ
clock_backwards_tolerance_ms = 5 * 60_000

pub non_negative_safe_integer : Value → Outcome ℕ
non_negative_safe_integer (nat n) = if leb n max_safe_integer then ok n else err invalid_input
non_negative_safe_integer (minus n) = err invalid_input
non_negative_safe_integer fraction = err invalid_input
non_negative_safe_integer (text s) = err invalid_input
non_negative_safe_integer other = err invalid_input

pub positive_safe_integer : Value → Outcome ℕ
unfolding non_negative_safe_integer
positive_safe_integer v = do
  n ← non_negative_safe_integer v
  if ltb 0 n then ok n else err invalid_input

pub canonical_uuid : Value → Outcome Text
canonical_uuid (nat n) = err invalid_input
canonical_uuid (minus n) = err invalid_input
canonical_uuid fraction = err invalid_input
canonical_uuid (text s) = if is_uuid s then ok s else err invalid_input
canonical_uuid other = err invalid_input

pub record GrantInput : Type 0 where
  pub grant_id : Value
  pub utterance_id : Value
  pub installation_id : Value
  pub session_id : Value
  pub session_epoch : Value
  pub session_lease_version : Value
  pub issued_at : Value
  pub expires_at : Value
  pub from_offset : Value
  pub through_offset : Value
  pub reserved_samples : Value

pub record AudioGrant : Type 0 where
  pub grant_id : Text
  pub utterance_id : Text
  pub installation_id : Text
  pub session_id : Text
  pub session_epoch : ℕ
  pub session_lease_version : ℕ
  pub issued_at : ℕ
  pub expires_at : ℕ
  pub from_offset : ℕ
  pub through_offset : ℕ
  pub reserved_samples : ℕ

-- `through - from !== reserved` in JavaScript's signed numbers.
reserves : ℕ → ℕ → ℕ → Bool
reserves from through reserved = nat_beq through (from + reserved)

check : Bool → Category → Outcome (Unit {0})
check true e = ok tt
check false e = err e

unfoldable pub parse_audio_grant : Option GrantInput → Outcome AudioGrant
unfolding positive_safe_integer canonical_uuid reserves check
parse_audio_grant none = err invalid_input
parse_audio_grant (some input) = do
  epoch ← positive_safe_integer input.session_epoch
  version ← positive_safe_integer input.session_lease_version
  issued ← non_negative_safe_integer input.issued_at
  expires ← non_negative_safe_integer input.expires_at
  from ← non_negative_safe_integer input.from_offset
  through ← positive_safe_integer input.through_offset
  reserved ← positive_safe_integer input.reserved_samples
  _ ← check (ltb issued expires) invalid_input
  _ ← check (reserves from through reserved) invalid_input
  grant_id ← canonical_uuid input.grant_id
  utterance_id ← canonical_uuid input.utterance_id
  installation_id ← canonical_uuid input.installation_id
  session_id ← canonical_uuid input.session_id
  ok (record {
    grant_id = grant_id;
    utterance_id = utterance_id;
    installation_id = installation_id;
    session_id = session_id;
    session_epoch = epoch;
    session_lease_version = version;
    issued_at = issued;
    expires_at = expires;
    from_offset = from;
    through_offset = through;
    reserved_samples = reserved;
  })

pub record Meter : Type 0 where
  pub grant : AudioGrant
  pub accepted_through : ℕ
  pub last_now : ℕ
  pub external_active : Bool
  pub operation_active : Bool
  pub reentry_detected : Bool

unfoldable pub create : Option GrantInput → Outcome Meter
create input = do
  grant ← parse_audio_grant input
  ok (record {
    grant = grant;
    accepted_through = grant.from_offset;
    last_now = grant.issued_at;
    external_active = false;
    operation_active = false;
    reentry_detected = false;
  })

pub record Snapshot : Type 0 where
  pub grant_id : Text
  pub from_offset : ℕ
  pub through_offset : ℕ
  pub accepted_through : ℕ
  pub accepted_samples : ℕ
  pub remaining_samples : ℕ
  pub complete : Bool

pub take_snapshot : Meter → Snapshot
take_snapshot m = record {
  grant_id = m.grant.grant_id;
  from_offset = m.grant.from_offset;
  through_offset = m.grant.through_offset;
  accepted_through = m.accepted_through;
  accepted_samples = m.accepted_through - m.grant.from_offset;
  remaining_samples = m.grant.reserved_samples - (m.accepted_through - m.grant.from_offset);
  complete = nat_beq m.accepted_through m.grant.through_offset;
}

-- The guard of every public method.
unfoldable pub entry : Meter → Meter × Outcome (Unit {0})
entry m =
    if m.external_active || m.operation_active
    then (record m { reentry_detected = true }, err state_unavailable)
    else (m, ok tt)

-- One call of the injected clock: what it returns or throws, and whether it calls the meter meanwhile. An
-- error that is no `SecurityStateError` counts as one of the category `state-unavailable`.
pub record Reading : Type 0 where
  pub reenters : Bool
  pub observed : Outcome Value

-- The reading that is taken as the time, once the clock has returned.
observe : Meter → Outcome Value → Outcome ℕ
unfolding non_negative_safe_integer
observe m (err c) = err c
observe m (ok v) = elim (non_negative_safe_integer v) [
  | err e ↦ err state_unavailable
  | ok seen ↦
      if m.reentry_detected || ltb (seen + clock_backwards_tolerance_ms) m.last_now
      then err state_unavailable
      else ok (if ltb seen m.last_now then m.last_now else seen)
]

-- The meter when the clock has returned.
called : Meter → Reading → Meter
unfolding entry
called m r =
    let started = record m { external_active = true; reentry_detected = false } in
    if r.reenters then (entry started).0 else started

unfoldable pub now : Meter → Reading → Meter × Outcome ℕ
unfolding called observe
now m r =
    let c = called m r in
    elim (observe c r.observed) [
      | err e ↦ (record c { external_active = false }, err e)
      | ok time ↦ (record c { external_active = false; last_now = time }, ok time)
    ]

pub record RangeInput : Type 0 where
  pub from_offset : Value
  pub through_offset : Value

unfoldable pub range : Option RangeInput → Outcome (ℕ × ℕ)
unfolding positive_safe_integer check
range none = err invalid_input
range (some input) = do
  from ← non_negative_safe_integer input.from_offset
  through ← positive_safe_integer input.through_offset
  _ ← check (ltb from through) invalid_input
  ok (from, through)

-- The part of `accept` under `operationActive`, which is cleared again on every way out.
advance : Meter → ℕ → ℕ → Meter × Outcome Snapshot
unfolding take_snapshot
advance m from through =
    if not (nat_beq from m.accepted_through) || ltb m.grant.through_offset through
    then (m, err stale_lease)
    else (let moved = record m { accepted_through = through } in (moved, ok (take_snapshot moved)))

accept_at : Outcome ℕ → Meter → ℕ → ℕ → Meter × Outcome Snapshot
unfolding advance
accept_at (err e) m from through = (m, err e)
accept_at (ok time) m from through =
    if leb m.grant.expires_at time then (m, err stale_lease) else advance m from through

accept_range : Outcome (ℕ × ℕ) → Meter → Reading → Meter × Outcome Snapshot
unfolding now accept_at
accept_range (err e) m r = (m, err e)
accept_range (ok (from, through)) m r = let t = now m r in accept_at t.1 t.0 from through

accept_entered : Meter × Outcome (Unit {0}) → Option RangeInput → Reading → Meter × Outcome Snapshot
unfolding accept_range range
accept_entered (m, err e) input r = (m, err e)
accept_entered (m, ok _) input r = accept_range (range input) m r

unfoldable pub accept : Meter → Option RangeInput → Reading → Meter × Outcome Snapshot
unfolding entry accept_entered
accept m input r = accept_entered (entry m) input r

snapshot_entered : Meter × Outcome (Unit {0}) → Meter × Outcome Snapshot
unfolding take_snapshot
snapshot_entered (m, err e) = (m, err e)
snapshot_entered (m, ok _) = (m, ok (take_snapshot m))

unfoldable pub snapshot : Meter → Meter × Outcome Snapshot
unfolding entry snapshot_entered
snapshot m = snapshot_entered (entry m)

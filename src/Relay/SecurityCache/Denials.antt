-- ===== src/Relay/SecurityCache/Denials.antt =====
-- apps/relay/src/security-cache.ts, `RelaySecurityCache`.
pub mod Ledger
pub mod History
use palancar.Base.{
  ℕ, zero, suc, ◌+◌, ◌-◌, ◌≤◌, ◌<◌, ◌≡◌, refl, sym, ap, ◌≢◌, ◌⊎◌, inl, inr, Bool, true, false, ◌&&◌,
  ◌||◌, not, Option, none, some, List, [], ◌∷◌, ◌++◌, arith, ltb, leb, if◌then◌else◌, Eq, ◌==◌,
  Bool-cases, Option-cases, length, Text, text_eq, text_beq_iff, map_get, map_has, subst,
}
use palancar.Relay.SecurityCache.Bounded
use palancar.Relay.SecurityCache.Bounded.{
  BoundedCache, IsBounded, get_lem, has_lem, set_lem, set-peek, peek, get-IsBounded, has-IsBounded,
  set-IsBounded,
}

-- The fields of `SessionLease` that the cache reads.
pub record Lease : Type 0 where
  pub installation_id : Text
  pub credential_version : ℕ

pub record Denials : Type 0 where
  pub revoked : BoundedCache Text (Unit {0})
  pub minimum : BoundedCache Text ℕ

unfoldable pub create : ℕ → Option Denials
unfolding Bounded.create
create capacity = elim (Bounded.create {K = Text} {V = Unit {0}} capacity) [
  | none ↦ none
  | some r ↦ elim (Bounded.create {K = Text} {V = ℕ} capacity) [
    | none ↦ none
    | some m ↦ some (record { revoked = r; minimum = m })
  ]
]

-- The comparison that ends `leaseAllowed`.
version_allowed : Lease → BoundedCache Text ℕ × Option ℕ → Bool
version_allowed lease (m, some least) = leb least lease.credential_version
version_allowed lease (m, none) = not m.evicted

unfoldable pub lease_allowed : Denials → Lease → Denials × Bool
unfolding version_allowed
lease_allowed d lease =
    let r = Bounded.has d.revoked lease.installation_id in
    let m = Bounded.get d.minimum lease.installation_id in
    if r.1 || r.0.evicted
    then (record d { revoked = r.0 }, false)
    else (record { revoked = r.0; minimum = m.0 }, version_allowed lease m)

raise_to : BoundedCache Text ℕ → Text → ℕ → ℕ → BoundedCache Text ℕ
raise_to m id version least = if ltb least version then Bounded.set m id version else m

unfoldable pub apply_promotion_result : Denials → Text → ℕ → Denials
unfolding raise_to
apply_promotion_result d id version =
    let m = Bounded.get d.minimum id in
    elim m.1 [
      | none ↦ record d { minimum = if m.0.evicted then m.0 else raise_to m.0 id version 0 }
      | some least ↦ record d { minimum = raise_to m.0 id version least }
    ]

unfoldable pub apply_revocation_result : Denials → Text → Denials
apply_revocation_result d id = record d { revoked = Bounded.set d.revoked id tt }

unfoldable pub clear : Denials → Denials
clear d = record { revoked = Bounded.clear d.revoked; minimum = Bounded.clear d.minimum }

-- A call of the cache.
pub data Call : Type 0 where
  asks : Lease → Call
  promotes : Text → ℕ → Call
  revokes : Text → Call
  clears : Call

unfoldable pub step : Denials → Call → Denials
unfolding lease_allowed apply_promotion_result apply_revocation_result clear
step d (asks lease) = (lease_allowed d lease).0
step d (promotes id version) = apply_promotion_result d id version
step d (revokes id) = apply_revocation_result d id
step d clears = clear d

unfoldable pub run : Denials → List Call → Denials
run d [] = d
run d (c ∷ cs) = run (step d c) cs

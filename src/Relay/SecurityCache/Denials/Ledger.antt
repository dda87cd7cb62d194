-- ===== src/Relay/SecurityCache/Denials/Ledger.antt =====
-- What `RelaySecurityCache` promises: a record of all denials, without a bound, and how the cache
-- follows it.
use palancar.Base.{
  ℕ, ◌≡◌, inl, inr, Bool, true, false, ◌&&◌, not, Option, none, some, List, [], ◌∷◌, arith, ltb,
  leb, if◌then◌else◌, ◌==◌, Option-cases, Text, text_eq,
}
use palancar.Relay.SecurityCache.Bounded.{
  IsBounded, get_lem, has_lem, peek, get-IsBounded, has-IsBounded,
}
use palancar.Relay.SecurityCache.Denials.{
  Lease, Denials, lease_allowed, Call, asks, promotes, revokes, clears,
}

-- All denials since the last `clear`, with no bound on their number.
pub record Ledger : Type 0 where
  pub revoked : Text → Bool
  pub minimum : Text → ℕ

abbrev pub empty_ledger : Ledger
empty_ledger = record { revoked = λ id. false; minimum = λ id. 0 }

unfoldable pub note : Ledger → Call → Ledger
note l (asks lease) = l
note l (promotes id version) = record l {
  minimum = λ j.
      if id == j then (if ltb (l.minimum j) version then version else l.minimum j) else l.minimum j;
}
note l (revokes id) = record l { revoked = λ j. if id == j then true else l.revoked j }
note l clears = empty_ledger

unfoldable pub note_all : Ledger → List Call → Ledger
note_all l [] = l
note_all l (c ∷ cs) = note_all (note l c) cs

abbrev pub permits : Ledger → Lease → Bool
permits l lease =
    not (l.revoked lease.installation_id)
    && leb (l.minimum lease.installation_id) lease.credential_version

abbrev pub or_zero : Option ℕ → ℕ
or_zero none = 0
or_zero (some n) = n

abbrev pub is_some {ℓ} : {A : Type ℓ} → Option A → Bool
is_some none = false
is_some (some a) = true

-- What the bounded cache knows of the ledger: all of it until something is evicted; afterwards
-- the minimum versions that it still holds are the ledger's.
pub record Tracks (l : Ledger) (d : Denials) : Type 0 where
  pub revoked_bounded : IsBounded d.revoked
  pub minimum_bounded : IsBounded d.minimum
  pub revoked_exact :
      (id : Text) → d.revoked.evicted ≡ false → is_some (peek d.revoked id) ≡ l.revoked id
  pub minimum_exact :
      (id : Text) → d.minimum.evicted ≡ false → or_zero (peek d.minimum id) ≡ l.minimum id
  pub minimum_held : (id : Text) (v : ℕ) → peek d.minimum id ≡ some v → v ≡ l.minimum id

pub asks-Tracks :
    (l : Ledger) (d : Denials) (lease : Lease) → Tracks l d → Tracks l (lease_allowed d lease).0
unfolding lease_allowed
asks-Tracks l d lease t = record {
  revoked_bounded = ground (arith, has-IsBounded d.revoked lease.installation_id t.revoked_bounded);
  minimum_bounded =
      ground
        (arith, get-IsBounded d.minimum lease.installation_id t.minimum_bounded, t.minimum_bounded);
  revoked_exact =
      λ id h. ground (arith, has_lem d.revoked lease.installation_id id, t.revoked_exact id);
  minimum_exact =
      λ id h. ground (arith, get_lem d.minimum lease.installation_id id, t.minimum_exact id);
  minimum_held =
      λ id v h. ground (arith, get_lem d.minimum lease.installation_id id, t.minimum_held id v);
}

-- The cache allows only what the ledger permits.
pub lease_allowed_sound :
    (l : Ledger) (d : Denials) (lease : Lease)
    → Tracks l d
    → (lease_allowed d lease).1 ≡ true
    → permits l lease ≡ true
unfolding lease_allowed
lease_allowed_sound l d lease t h = elim (Option-cases (peek d.minimum lease.installation_id)) [
  | inl absent ↦ ground (
    arith,
    has_lem d.revoked lease.installation_id lease.installation_id,
    get_lem d.minimum lease.installation_id lease.installation_id,
    t.revoked_exact lease.installation_id,
    t.minimum_exact lease.installation_id,
  )
  | inr (v, held) ↦ ground (
    arith,
    has_lem d.revoked lease.installation_id lease.installation_id,
    get_lem d.minimum lease.installation_id lease.installation_id,
    t.revoked_exact lease.installation_id,
    t.minimum_held lease.installation_id v held,
  )
]

-- Until the first eviction the cache decides as the ledger does.
pub lease_allowed_exact :
    (l : Ledger) (d : Denials) (lease : Lease)
    → Tracks l d
    → d.revoked.evicted ≡ false
    → d.minimum.evicted ≡ false
    → (lease_allowed d lease).1 ≡ permits l lease
unfolding lease_allowed
lease_allowed_exact l d lease t r m = ground (
  arith,
  has_lem d.revoked lease.installation_id lease.installation_id,
  get_lem d.minimum lease.installation_id lease.installation_id,
  t.revoked_exact lease.installation_id r,
  t.minimum_exact lease.installation_id m,
)

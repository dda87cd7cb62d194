-- ===== src/Relay/Tests.antt =====
-- apps/relay/src/security-cache.ts: a short history of the cache.
use palancar.Base.{
  ℕ, ◌≡◌, refl, true, false, some, List, [], ◌∷◌, ◌++◌, Text, codes, text_eq, arith, map_get,
  map_set,
}
use palancar.Relay.SecurityCache.Bounded
use palancar.Relay.SecurityCache.Bounded.{
  BoundedCache, IsBounded, kept, set-evicts_oldest, set-IsBounded,
}
use palancar.Relay.SecurityCache.Denials
use palancar.Relay.SecurityCache.Denials.{
  Lease, Denials, lease_allowed, Call, promotes, revokes, asks,
}
use palancar.Relay.SecurityCache.Denials.Ledger.{permits, note_all, empty_ledger}
use palancar.Relay.SecurityCache.Denials.History.{run-lease_allowed_sound, run-lease_allowed_exact}

abbrev glasses : Text
glasses = codes "a"

abbrev other_glasses : Text
other_glasses = codes "b"

abbrev lease : Lease
lease = record { installation_id = glasses; credential_version = 3 }

abbrev history : List Call
history = promotes glasses 2 ∷ (revokes other_glasses ∷ [])

abbrev empty_denials : Denials
empty_denials = record {
  revoked = record { capacity = 2; entries = []; evicted = false };
  minimum = record { capacity = 2; entries = []; evicted = false };
}

made : Denials.create 2 ≡ some empty_denials
unfolding Denials.create Bounded.create
made = refl

allowed : (lease_allowed (Denials.run empty_denials history) lease).1 ≡ true
unfolding Denials.run Denials.step lease_allowed Denials.apply_promotion_result
    Denials.apply_revocation_result Bounded.get Bounded.has Bounded.set map_get map_set
allowed = refl

nothing_evicted :
    ((Denials.run empty_denials history).revoked.evicted ≡ false)
    × ((Denials.run empty_denials history).minimum.evicted ≡ false)
unfolding Denials.run Denials.step Denials.apply_promotion_result Denials.apply_revocation_result
    Bounded.get Bounded.set map_get
nothing_evicted = (refl, refl)

run-lease_allowed_sound_example : permits (note_all empty_ledger history) lease ≡ true
run-lease_allowed_sound_example = run-lease_allowed_sound 2 empty_denials history lease made allowed

run-lease_allowed_exact_example :
    (lease_allowed (Denials.run empty_denials history) lease).1
    ≡ permits (note_all empty_ledger history) lease
run-lease_allowed_exact_example =
    run-lease_allowed_exact 2 empty_denials history lease made nothing_evicted.0 nothing_evicted.1

abbrev full_cache : BoundedCache Text ℕ
full_cache = record { capacity = 1; entries = (glasses, 1) ∷ []; evicted = false }

full_cache-IsBounded : IsBounded full_cache
unfolding map_get
full_cache-IsBounded = record { distinct = (refl, tt); fits = ground arith; room = ground arith }

set-evicts_oldest_example :
    (Bounded.set full_cache other_glasses 5).entries
    ≡ kept full_cache other_glasses ++ (other_glasses, 5) ∷ []
set-evicts_oldest_example = set-evicts_oldest full_cache other_glasses 5 full_cache-IsBounded

set-IsBounded_example : IsBounded (Bounded.set full_cache other_glasses 5)
set-IsBounded_example = set-IsBounded full_cache other_glasses 5 full_cache-IsBounded

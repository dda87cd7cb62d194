-- ===== src/Relay/SecurityCache/Denials/History.antt =====
-- The cache of denials over a history of calls.
use palancar.Base.{
  ℕ, ◌≤◌, ◌≡◌, refl, inl, inr, true, false, some, List, [], ◌∷◌, arith, Option-cases, Text, text_eq,
  text_beq_iff, map_get, subst,
}
use palancar.Relay.SecurityCache.Bounded
use palancar.Relay.SecurityCache.Bounded.{
  BoundedCache, IsBounded, get_lem, has_lem, set_lem, set-peek, peek, get-IsBounded, has-IsBounded,
  set-IsBounded,
}
use palancar.Relay.SecurityCache.Denials.{
  Lease, Denials, create, lease_allowed, apply_promotion_result, apply_revocation_result, clear,
  Call, asks, promotes, revokes, clears, step, run,
}
use palancar.Relay.SecurityCache.Denials.Ledger.{
  Ledger, empty_ledger, note, note_all, permits, or_zero, Tracks, asks-Tracks, lease_allowed_sound,
  lease_allowed_exact,
}

revokes-Tracks :
    (l : Ledger) (d : Denials) (id : Text)
    → Tracks l d
    → Tracks (note l (revokes id)) (apply_revocation_result d id)
unfolding note apply_revocation_result
revokes-Tracks l d id t = record {
  revoked_bounded = set-IsBounded d.revoked id tt t.revoked_bounded;
  minimum_bounded = t.minimum_bounded;
  revoked_exact = λ j h. ground (arith, set_lem d.revoked id j tt h, t.revoked_exact j);
  minimum_exact = t.minimum_exact;
  minimum_held = t.minimum_held;
}

module _ (l : Ledger) (d : Denials) (id : Text) (version : ℕ) (t : Tracks l d) where
  promotes-IsBounded : IsBounded (apply_promotion_result d id version).minimum
  unfolding apply_promotion_result
  promotes-IsBounded = ground (
    arith,
    get-IsBounded d.minimum id t.minimum_bounded,
    set-IsBounded (Bounded.get d.minimum id).0 id version
        (get-IsBounded d.minimum id t.minimum_bounded),
  )

  promotes_exact :
      (j : Text)
      → (apply_promotion_result d id version).minimum.evicted ≡ false
      → or_zero (peek (apply_promotion_result d id version).minimum j)
        ≡ (note l (promotes id version)).minimum j
  unfolding note apply_promotion_result
  promotes_exact j h = ground (
    arith,
    get_lem d.minimum id j,
    set_lem (Bounded.get d.minimum id).0 id j version,
    t.minimum_exact j,
    t.minimum_exact id,
    text_beq_iff id j,
  )

  promotes_held :
      (j : Text) (v : ℕ)
      → peek (apply_promotion_result d id version).minimum j ≡ some v
      → v ≡ (note l (promotes id version)).minimum j
  unfolding note apply_promotion_result
  promotes_held j v h = elim (Option-cases (peek d.minimum id)) [
    | inl absent ↦ ground (
      arith,
      get_lem d.minimum id j,
      get_lem d.minimum id id,
      set-peek (Bounded.get d.minimum id).0 id j version v
          (get-IsBounded d.minimum id t.minimum_bounded),
      t.minimum_exact id,
      t.minimum_held j v,
      text_beq_iff id j,
    )
    | inr (w, held) ↦ ground (
      arith,
      get_lem d.minimum id j,
      get_lem d.minimum id id,
      set-peek (Bounded.get d.minimum id).0 id j version v
          (get-IsBounded d.minimum id t.minimum_bounded),
      t.minimum_held id w held,
      t.minimum_held j v,
      text_beq_iff id j,
    )
  ]

promotes-Tracks :
    (l : Ledger) (d : Denials) (id : Text) (version : ℕ)
    → Tracks l d
    → Tracks (note l (promotes id version)) (apply_promotion_result d id version)
unfolding note apply_promotion_result
promotes-Tracks l d id version t = record {
  revoked_bounded = ground (arith, t.revoked_bounded);
  minimum_bounded = promotes-IsBounded l d id version t;
  revoked_exact = λ j h. ground (arith, t.revoked_exact j);
  minimum_exact = promotes_exact l d id version t;
  minimum_held = promotes_held l d id version t;
}

clears-Tracks : (l : Ledger) (d : Denials) → Tracks l d → Tracks (note l clears) (clear d)
unfolding note clear Bounded.clear map_get
clears-Tracks l d t = record {
  revoked_bounded = record { distinct = tt; fits = omega arith; room = t.revoked_bounded.room };
  minimum_bounded = record { distinct = tt; fits = omega arith; room = t.minimum_bounded.room };
  revoked_exact = λ j h. refl;
  minimum_exact = λ j h. refl;
  minimum_held = λ j v h. cc;
}

-- Every call of the cache keeps it in step with the ledger.
pub step-Tracks : (l : Ledger) (d : Denials) (c : Call) → Tracks l d → Tracks (note l c) (step d c)
unfolding step note
step-Tracks l d (asks lease) t = asks-Tracks l d lease t
step-Tracks l d (promotes id version) t = promotes-Tracks l d id version t
step-Tracks l d (revokes id) t = revokes-Tracks l d id t
step-Tracks l d clears t = clears-Tracks l d t

run-Tracks :
    (l : Ledger) (d : Denials) (cs : List Call) → Tracks l d → Tracks (note_all l cs) (run d cs)
unfolding run note_all
run-Tracks l d [] t = t
run-Tracks l d (c ∷ cs) t = run-Tracks (note l c) (step d c) cs (step-Tracks l d c t)

abbrev fresh : ℕ → Denials
fresh capacity = record {
  revoked = record { capacity = capacity; entries = []; evicted = false };
  minimum = record { capacity = capacity; entries = []; evicted = false };
}

fresh-Tracks : (capacity : ℕ) → 1 ≤ capacity → Tracks empty_ledger (fresh capacity)
unfolding map_get
fresh-Tracks capacity h = record {
  revoked_bounded = record { distinct = tt; fits = omega arith; room = h };
  minimum_bounded = record { distinct = tt; fits = omega arith; room = h };
  revoked_exact = λ id _. refl;
  minimum_exact = λ id _. refl;
  minimum_held = λ id v e. cc;
}

create-eq-some :
    (capacity : ℕ) (d : Denials) → create capacity ≡ some d → (1 ≤ capacity) × (fresh capacity ≡ d)
unfolding create Bounded.create
create-eq-some capacity d h = ground arith

create-Tracks : (capacity : ℕ) (d : Denials) → create capacity ≡ some d → Tracks empty_ledger d
create-Tracks capacity d h =
    let made = create-eq-some capacity d h in
    subst (Tracks empty_ledger) made.1 (fresh-Tracks capacity made.0)

-- After any history of calls, the cache allows a lease only if no revocation of its installation
-- and no promotion above its credential version was applied since the last `clear`, also when
-- entries have been evicted.
pub run-lease_allowed_sound :
    (capacity : ℕ) (d : Denials) (cs : List Call) (lease : Lease)
    → create capacity ≡ some d
    → (lease_allowed (run d cs) lease).1 ≡ true
    → permits (note_all empty_ledger cs) lease ≡ true
run-lease_allowed_sound capacity d cs lease h =
    lease_allowed_sound _ _ lease (run-Tracks empty_ledger d cs (create-Tracks capacity d h))

-- After a history of calls that has evicted no entry from either cache, a lease is allowed exactly if
-- the unbounded record of the same calls permits it.
pub run-lease_allowed_exact :
    (capacity : ℕ) (d : Denials) (cs : List Call) (lease : Lease)
    → create capacity ≡ some d
    → (run d cs).revoked.evicted ≡ false
    → (run d cs).minimum.evicted ≡ false
    → (lease_allowed (run d cs) lease).1 ≡ permits (note_all empty_ledger cs) lease
run-lease_allowed_exact capacity d cs lease h =
    lease_allowed_exact _ _ lease (run-Tracks empty_ledger d cs (create-Tracks capacity d h))

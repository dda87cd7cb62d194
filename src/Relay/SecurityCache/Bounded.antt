-- ===== src/Relay/SecurityCache/Bounded.antt =====
-- apps/relay/src/security-cache.ts, `BoundedSecurityCache`.
use palancar.Base.{
  ℕ, ◌+◌, ◌≤◌, ◌≡◌, refl, inl, inr, Bool, true, false, Option, none, some, List, [], ◌∷◌, ◌++◌,
  ◌||◌, max_safe_integer, arith, ltb, leb, if◌then◌else◌, Eq, ◌==◌, Bool-cases, Option-cases,
  length, map_get, map_set, map_delete, map_has, map_get-set, map_get-delete_ne,
  map_get-delete_self, Distinct, map_delete-Distinct, map_set-Distinct, length-map_delete,
  length-map_set, map_set-new, drop,
}

pub record BoundedCache {ℓ κ} (K : Type ℓ) (V : Type κ) : Type (ℓ ⊔ κ) where
  pub capacity : ℕ
  pub entries : List (K × V)
  pub evicted : Bool

-- The constructor, for a whole number: a capacity is a safe integer from 1 on, or it throws (`none`).
unfoldable pub create {ℓ κ} : {K : Type ℓ} {V : Type κ} → ℕ → Option (BoundedCache K V)
create capacity =
    if ltb max_safe_integer capacity || ltb capacity 1
    then none
    else some (record { capacity = capacity; entries = []; evicted = false })

module _ {ℓ κ} {K : Type ℓ} {V : Type κ} ⦃e : Eq K⦄ where
  unfoldable pub size : BoundedCache K V → ℕ
  size c = length c.entries

  -- `delete` then `set`: the key becomes the youngest.
  touch : BoundedCache K V → K → V → BoundedCache K V
  touch c k v = record c { entries = map_set (map_delete c.entries k) k v }

  unfoldable pub has : BoundedCache K V → K → BoundedCache K V × Bool
  unfolding touch
  has c k = elim (map_get c.entries k) [ none ↦ (c, false) | some v ↦ (touch c k v, true) ]

  unfoldable pub get : BoundedCache K V → K → BoundedCache K V × Option V
  unfolding touch
  get c k = elim (map_get c.entries k) [ none ↦ (c, none) | some v ↦ (touch c k v, some v) ]

  -- `keys().next()` is the oldest key.
  drop_oldest : List (K × V) → List (K × V)
  drop_oldest [] = []
  drop_oldest ((k, v) ∷ m) = map_delete ((k, v) ∷ m) k

  unfoldable pub set : BoundedCache K V → K → V → BoundedCache K V
  unfolding drop_oldest
  set c k v =
      if map_has c.entries k
      then record c { entries = map_set (map_delete c.entries k) k v }
      else (if leb c.capacity (length c.entries)
          then record c { entries = map_set (drop_oldest c.entries) k v; evicted = true }
          else record c { entries = map_set c.entries k v })

  unfoldable pub clear : BoundedCache K V → BoundedCache K V
  clear c = record c { entries = []; evicted = false }

  -- What the tests of the cache read: the value under a key, with no change of age.
  abbrev pub peek : BoundedCache K V → K → Option V
  peek c k = map_get c.entries k

  pub record IsBounded (c : BoundedCache K V) : Type κ where
    pub distinct : Distinct c.entries
    pub fits : length c.entries ≤ c.capacity
    pub room : 1 ≤ c.capacity

  touch-IsBounded :
      (c : BoundedCache K V) (k : K) (v w : V)
      → peek c k ≡ some w
      → IsBounded c
      → IsBounded (touch c k v)
  unfolding touch
  touch-IsBounded c k v w h b = record {
    distinct =
        map_set-Distinct (map_delete c.entries k) k v (map_delete-Distinct c.entries k b.distinct);
    fits = ground (
      arith,
      b.fits,
      length-map_delete c.entries k,
      length-map_set (map_delete c.entries k) k v,
      map_get-delete_self c.entries k b.distinct,
    );
    room = b.room;
  }

  touch-peek :
      (c : BoundedCache K V) (k j : K) (v : V) → peek c k ≡ some v → peek (touch c k v) j ≡ peek c j
  unfolding touch
  touch-peek c k j v h = ground (
    arith,
    map_get-set (map_delete c.entries k) k j v,
    map_get-delete_ne c.entries k j,
    e.beq_iff k j,
  )

  pub get-IsBounded : (c : BoundedCache K V) (k : K) → IsBounded c → IsBounded (get c k).0
  unfolding get
  get-IsBounded c k b = elim (Option-cases (map_get c.entries k)) [
    | inl h ↦ rw (h, get) b
    | inr (v, h) ↦ rw (h, get) (touch-IsBounded c k v v h b)
  ]

  pub has-IsBounded : (c : BoundedCache K V) (k : K) → IsBounded c → IsBounded (has c k).0
  unfolding has
  has-IsBounded c k b = elim (Option-cases (map_get c.entries k)) [
    | inl h ↦ rw (h, has) b
    | inr (v, h) ↦ rw (h, has) (touch-IsBounded c k v v h b)
  ]

  -- A query answers from the entries, and leaves every entry and the flag as they were.
  pub get_lem :
      (c : BoundedCache K V) (k j : K)
      → ((get c k).1 ≡ peek c k)
        × (peek (get c k).0 j ≡ peek c j)
        × ((get c k).0.evicted ≡ c.evicted)
        × ((get c k).0.capacity ≡ c.capacity)
  unfolding get touch
  get_lem c k j = elim (Option-cases (map_get c.entries k)) [
    | inl h ↦ ground arith
    | inr (v, h) ↦ ground (arith, touch-peek c k j v)
  ]

  pub has_lem :
      (c : BoundedCache K V) (k j : K)
      → ((has c k).1 ≡ map_has c.entries k)
        × (peek (has c k).0 j ≡ peek c j)
        × ((has c k).0.evicted ≡ c.evicted)
        × ((has c k).0.capacity ≡ c.capacity)
  unfolding has touch
  has_lem c k j = elim (Option-cases (map_get c.entries k)) [
    | inl h ↦ ground arith
    | inr (v, h) ↦ ground (arith, touch-peek c k j v)
  ]

  drop_oldest-Distinct : (m : List (K × V)) → Distinct m → Distinct (drop_oldest m)
  unfolding drop_oldest
  drop_oldest-Distinct [] d = tt
  drop_oldest-Distinct ((k, v) ∷ m) d = map_delete-Distinct ((k, v) ∷ m) k d

  length-drop_oldest : (m : List (K × V)) → 1 ≤ length m → length (drop_oldest m) + 1 ≡ length m
  unfolding drop_oldest map_get map_delete
  length-drop_oldest [] h = elim h [ ]
  length-drop_oldest ((k, v) ∷ m) h = ground (arith, e.beq_iff k k)

  drop_oldest-peek :
      (m : List (K × V)) (j : K) (w : V)
      → Distinct m
      → map_get (drop_oldest m) j ≡ some w
      → map_get m j ≡ some w
  unfolding drop_oldest map_get map_delete
  drop_oldest-peek [] j w d h = h
  drop_oldest-peek ((k, v) ∷ m) j w d h = ground (arith, e.beq_iff k k, e.beq_iff k j)

  -- `set` keeps the keys distinct and their number within the capacity.
  pub set-IsBounded : (c : BoundedCache K V) (k : K) (v : V) → IsBounded c → IsBounded (set c k v)
  unfolding set
  set-IsBounded c k v b = record {
    distinct = ground (
      arith,
      map_set-Distinct (map_delete c.entries k) k v (map_delete-Distinct c.entries k b.distinct),
      map_set-Distinct (drop_oldest c.entries) k v (drop_oldest-Distinct c.entries b.distinct),
      map_set-Distinct c.entries k v b.distinct,
    );
    fits = ground (
      arith,
      b.fits,
      b.room,
      length-map_delete c.entries k,
      length-drop_oldest c.entries,
      length-map_set (map_delete c.entries k) k v,
      length-map_set (drop_oldest c.entries) k v,
      length-map_set c.entries k v,
      map_get-delete_self c.entries k b.distinct,
    );
    room = ground (arith, b.room);
  }

  -- A stored value is found, and no other entry changes unless an eviction is recorded.
  pub set_lem :
      (c : BoundedCache K V) (k j : K) (v : V)
      → (set c k v).evicted ≡ false
      → (peek (set c k v) j ≡ (if k == j then some v else peek c j)) × (c.evicted ≡ false)
  unfolding set
  set_lem c k j v h = ground (
    arith,
    map_get-set (map_delete c.entries k) k j v,
    map_get-set c.entries k j v,
    map_get-delete_ne c.entries k j,
  )

  -- Nothing but what was stored is ever found.
  pub set-peek :
      (c : BoundedCache K V) (k j : K) (v w : V)
      → IsBounded c
      → peek (set c k v) j ≡ some w
      → (if k == j then some v else peek c j) ≡ some w
  unfolding set
  set-peek c k j v w b h = ground (
    arith,
    map_get-set (map_delete c.entries k) k j v,
    map_get-set (drop_oldest c.entries) k j v,
    map_get-set c.entries k j v,
    map_get-delete_ne c.entries k j,
    drop_oldest-peek c.entries j w b.distinct,
  )

  -- What an insertion leaves in front of the new entry.
  abbrev pub kept : BoundedCache K V → K → List (K × V)
  kept c k =
      if map_has c.entries k
      then map_delete c.entries k
      else (if leb c.capacity (length c.entries) then drop 1 c.entries else c.entries)

  absent_kept :
      (m : List (K × V)) (cap : ℕ) (k : K)
      → map_has m k ≡ false
      → map_has (if leb cap (length m) then drop 1 m else m) k ≡ false
  unfolding map_get
  absent_kept [] cap k h = ground arith
  absent_kept ((j, v) ∷ m) cap k h = ground arith

  drop_oldest-eq : (m : List (K × V)) → drop_oldest m ≡ drop 1 m
  unfolding drop_oldest map_delete
  drop_oldest-eq [] = refl
  drop_oldest-eq ((k, v) ∷ m) = ground (arith, e.beq_iff k k)

  kept-new : (c : BoundedCache K V) (k : K) → IsBounded c → map_has (kept c k) k ≡ false
  unfolding map_get
  kept-new c k b = elim (Bool-cases (map_has c.entries k)) [
    | inl old ↦ rw old (ground (arith, map_get-delete_self c.entries k b.distinct))
    | inr new ↦ rw new (absent_kept c.entries c.capacity k new)
  ]

  -- On a bounded cache, `set` puts the key at the young end, and gives up an entry only for a new key in a full cache,
  -- and then the oldest.
  pub set-evicts_oldest :
      (c : BoundedCache K V) (k : K) (v : V)
      → IsBounded c
      → (set c k v).entries ≡ kept c k ++ (k, v) ∷ []
  unfolding set
  set-evicts_oldest c k v b =
      ground (arith, kept-new c k b, map_set-new (kept c k) k v, drop_oldest-eq c.entries)

-- ===== src/Audio/Slots.antt =====
-- An array that is a queue with a head: the slots before the head are emptied, those from it on hold
-- the live entries. packages/audio/src/client-queue.ts and relay.ts both keep one.
use palancar.Base.{
  ℕ, zero, suc, ◌+◌, ◌≡◌, refl, ap, Option, none, some, List, [], ◌∷◌, ◌++◌, map, arith, length,
  get_elem?, set, drop, replicate,
}

pub map-append {ℓ κ} :
    {A : Type ℓ} {B : Type κ} (f : A → B) (xs ys : List A) → map f (xs ++ ys) ≡ map f xs ++ map f ys
map-append f [] ys = refl
map-append f (x ∷ xs) ys = ap (◌∷◌ (f x)) (map-append f xs ys)

module _ {ℓ} {V : Type ℓ} where
  flat_slot : Option (Option V) → Option V
  flat_slot none = none
  flat_slot (some slot) = slot

  -- The entry of a slot, `none` when it is empty or out of range.
  unfoldable pub slot_at : List (Option V) → ℕ → Option V
  unfolding flat_slot
  slot_at slots i = flat_slot (get_elem? slots i)

  abbrev pub slots : ℕ → List V → List (Option V)
  slots h fs = replicate h none ++ map some fs

  pub length-slots : (h : ℕ) (fs : List V) → length (slots h fs) ≡ h + length fs
  length-slots zero [] = omega arith
  length-slots zero (f ∷ fs) = omega (arith, length-slots zero fs)
  length-slots (suc h) fs = omega (arith, length-slots h fs)

  pub slot_at-slots : (h : ℕ) (fs : List V) (i : ℕ) → slot_at (slots h fs) (h + i) ≡ get_elem? fs i
  unfolding slot_at
  slot_at-slots zero [] i = refl
  slot_at-slots zero (f ∷ fs) zero = refl
  slot_at-slots zero (f ∷ fs) (suc i) =
      let e : 0 + suc i ≡ suc (0 + i) = omega arith in rw e (slot_at-slots zero fs i)
  slot_at-slots (suc h) fs i =
      let e : suc h + i ≡ suc (h + i) = omega arith in rw e (slot_at-slots h fs i)

  pub set-slots : (h : ℕ) (f : V) (fs : List V) → set (slots h (f ∷ fs)) h none ≡ slots (suc h) fs
  set-slots zero f fs = refl
  set-slots (suc h) f fs = ap (◌∷◌ none) (set-slots h f fs)

  pub drop-map : (i : ℕ) (fs : List V) → drop i (map some fs) ≡ map some (drop i fs)
  drop-map zero fs = refl
  drop-map (suc i) [] = refl
  drop-map (suc i) (f ∷ fs) = drop-map i fs

  pub drop-slots : (h i : ℕ) (fs : List V) → drop (h + i) (slots h fs) ≡ map some (drop i fs)
  drop-slots zero i fs = let e : 0 + i ≡ i = omega arith in rw e (drop-map i fs)
  drop-slots (suc h) i fs =
      let e : suc h + i ≡ suc (h + i) = omega arith in rw e (drop-slots h i fs)

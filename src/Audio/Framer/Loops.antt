-- ===== src/Audio/Framer/Loops.antt =====
-- The loop that cuts the payloads, and the division of a list by a length.
use palancar.Base.{
  ℕ, zero, suc, ◌+◌, ◌-◌, ◌*◌, ◌≤◌, ◌<◌, ◌≡◌, refl, sym, ap, ◌∙◌, List, [], ◌∷◌, ◌++◌, arith,
  length, take, drop, append_assoc, length-append, length-take, length-drop, All, lt→ltb,
}
use palancar.Audio.Framer.{cut}

unfoldable pub flat : List (List ℕ) → List ℕ
flat [] = []
flat (p ∷ ps) = p ++ flat ps

abbrev pub AllOf : ℕ → List (List ℕ) → Type 0
AllOf n ps = All (λ p. length p ≡ n) ps

pub drop-nil {ℓ} : {A : Type ℓ} (n : ℕ) → drop {A = A} n [] ≡ []
drop-nil zero = refl
drop-nil (suc n) = refl

pub drop-drop {ℓ} : {A : Type ℓ} (a b : ℕ) (xs : List A) → drop a (drop b xs) ≡ drop (b + a) xs
drop-drop a zero xs = let e : a ≡ 0 + a = omega arith in ap (λ k. drop k xs) e
drop-drop a (suc b) [] = drop-nil a ∙ sym (drop-nil (suc b + a))
drop-drop a (suc b) (x ∷ xs) =
    let e : suc (b + a) ≡ suc b + a = omega arith in drop-drop a b xs ∙ ap (λ k. drop k (x ∷ xs)) e

take-add : (a b : ℕ) (xs : List ℕ) → take (a + b) xs ≡ take a xs ++ take b (drop a xs)
take-add zero b xs = let e : 0 + b ≡ b = omega arith in ap (λ k. take k xs) e
take-add (suc a) b [] = take-nil (suc a + b) ∙ sym (take-nil b)
  where
    take-nil : (n : ℕ) → take {A = ℕ} n [] ≡ []
    take-nil zero = refl
    take-nil (suc n) = refl
take-add (suc a) b (x ∷ xs) =
    let e : suc a + b ≡ suc (a + b) = omega arith in
    ap (λ k. take k (x ∷ xs)) e ∙ ap (◌∷◌ x) (take-add a b xs)

module _ (p : List ℕ) (frame : ℕ) (positive : 0 < frame) where
  -- The loop makes as many payloads of one frame as the emitted part holds, and no other.
  pub cut_lem :
      (fuel rounds offset emitted : ℕ)
      → emitted ≡ offset + rounds * frame
      → rounds ≤ fuel
      → emitted ≤ length p
      → AllOf frame (cut fuel p frame emitted offset)
        × (flat (cut fuel p frame emitted offset) ≡ take (rounds * frame) (drop offset p))
  unfolding cut flat
  cut_lem zero zero offset emitted e h k = ground arith
  cut_lem zero (suc rounds) offset emitted e h k = elim h [ ]
  cut_lem (suc fuel) zero offset emitted e h k = ground arith
  cut_lem (suc fuel) (suc rounds) offset emitted e h k =
      let next = cut_lem fuel rounds (offset + frame) emitted (grind arith) (omega arith) k in
      let pieces : suc rounds * frame ≡ frame + rounds * frame = grind arith in
      rw (lt→ltb offset emitted (grind arith)) (
        (grind (arith, length-take, length-drop), next.0),
        rw
            (
              pieces,
              take-add frame (rounds * frame) (drop offset p),
              drop-drop frame offset p,
              next.1,
            )
            (let w : offset + frame - offset ≡ frame = omega arith in rw w),
      )

pub append-eq : (p q x y : List ℕ) → length p ≡ length q → p ++ x ≡ q ++ y → (p ≡ q) × (x ≡ y)
append-eq [] [] x y h e = (refl, e)
append-eq [] (b ∷ q) x y h e = absurd (omega arith)
append-eq (a ∷ p) [] x y h e = absurd (omega arith)
append-eq (a ∷ p) (b ∷ q) x y h e = ground (arith, append-eq p q x y (omega arith))

-- Cutting a list into pieces of one length and a shorter rest can be done in one way only.
pub pieces_unique :
    (n : ℕ) (ps qs : List (List ℕ)) (r s : List ℕ)
    → AllOf n ps
    → AllOf n qs
    → length r < n
    → length s < n
    → flat ps ++ r ≡ flat qs ++ s
    → (ps ≡ qs) × (r ≡ s)
unfolding flat
pieces_unique n [] [] r s hp hq hr hs e = (refl, e)
pieces_unique n [] (q ∷ qs) r s hp hq hr hs e =
    absurd
      (omega (arith, ap length e, length-append (q ++ flat qs) s, length-append q (flat qs), hq.0))
pieces_unique n (p ∷ ps) [] r s hp hq hr hs e =
    absurd
      (omega (arith, ap length e, length-append (p ++ flat ps) r, length-append p (flat ps), hp.0))
pieces_unique n (p ∷ ps) (q ∷ qs) r s hp hq hr hs e =
    let joined =
      append-eq p q (flat ps ++ r) (flat qs ++ s) (omega (arith, hp.0, hq.0))
        (sym (append_assoc p (flat ps) r) ∙ e ∙ append_assoc q (flat qs) s) in
    ground (arith, joined, pieces_unique n ps qs r s hp.1 hq.1 hr hs joined.1)

-- ===== src/Audio/Delivery/Entries.antt =====
-- packages/audio/src: what a schedule of the client's frames makes of the relay's acceptor.
use palancar.Base.{
  ℕ, zero, suc, ◌+◌, ◌/◌, ◌≤◌, ◌<◌, ◌≡◌, refl, sym, ap, subst, none, some, List, [], ◌∷◌, ◌++◌,
  append-nil, append_assoc, arith, length, get_elem?, take, All, Text, text_eq, nat_eq,
}
use palancar.Audio.Framer.Loops.{flat}
use palancar.Audio.Queue.Frames
use palancar.Audio.Queue.Frames.{framed, frames, IsPayload, AllPayloads}
use palancar.Audio.Acceptor.{ValidatedFrame}
use palancar.Audio.Acceptor.Specification.{samples}
use palancar.Audio.Delivery.{entry}

module _ {ℓ} {X : Type ℓ} where
  pub take-suc :
      (n : ℕ) (xs : List X) (x : X)
      → get_elem? xs n ≡ some x
      → take (n + 1) xs ≡ take n xs ++ x ∷ []
  take-suc n [] x h = cc
  take-suc zero (y ∷ xs) x h = ground arith
  take-suc (suc n) (y ∷ xs) x h =
      let e : suc n + 1 ≡ suc (n + 1) = omega arith in rw e (ap (◌∷◌ y) (take-suc n xs x h))

  pub get_elem?-some : (n : ℕ) (xs : List X) (x : X) → get_elem? xs n ≡ some x → n < length xs
  get_elem?-some n [] x h = cc
  get_elem?-some zero (y ∷ xs) x h = omega arith
  get_elem?-some (suc n) (y ∷ xs) x h = omega (arith, get_elem?-some n xs x h)

  pub get_elem?-none : (n : ℕ) (xs : List X) → get_elem? xs n ≡ none → length xs ≤ n
  get_elem?-none n [] h = omega arith
  get_elem?-none zero (y ∷ xs) h = cc
  get_elem?-none (suc n) (y ∷ xs) h = omega (arith, get_elem?-none n xs h)

-- The stream of consecutive payloads.
unfoldable pub entries : Text → ℕ → ℕ → List (List ℕ) → List ValidatedFrame
entries u s o [] = []
entries u s o (p ∷ ps) = entry u s o p ∷ entries u (s + 1) (o + length p / 2) ps

pub length-entries :
    (u : Text) (s o : ℕ) (ps : List (List ℕ)) → length (entries u s o ps) ≡ length ps
unfolding entries
length-entries u s o [] = refl
length-entries u s o (p ∷ ps) = ap suc (length-entries u (s + 1) (o + length p / 2) ps)

pub samples-entries :
    (u : Text) (s o : ℕ) (ps : List (List ℕ)) → samples (entries u s o ps) ≡ Frames.samples ps
unfolding entries samples Frames.samples
samples-entries u s o [] = refl
samples-entries u s o (p ∷ ps) =
    ap (λ n. length p / 2 + n) (samples-entries u (s + 1) (o + length p / 2) ps)

pub entries-snoc :
    (u : Text) (s o : ℕ) (ps : List (List ℕ)) (p : List ℕ)
    → entries u s o (ps ++ p ∷ [])
      ≡ entries u s o ps ++ entry u (s + length ps) (o + Frames.samples ps) p ∷ []
unfolding entries Frames.samples
entries-snoc u s o [] p =
    let a : s + 0 ≡ s = omega arith in let b : o + 0 ≡ o = omega arith in rw (a, b)
entries-snoc u s o (q ∷ ps) p =
    let a : s + 1 + length ps ≡ s + suc (length ps) = omega arith in
    let b : o + length q / 2 + Frames.samples ps ≡ o + (length q / 2 + Frames.samples ps) =
      omega arith in
    ap (◌∷◌ (entry u s o q)) (rw (← a, ← b) (entries-snoc u (s + 1) (o + length q / 2) ps p))

pub flat-snoc : (ps : List (List ℕ)) (p : List ℕ) → flat (ps ++ p ∷ []) ≡ flat ps ++ p
unfolding flat
flat-snoc [] p = append-nil p
flat-snoc (q ∷ ps) p = rw (flat-snoc ps p) (sym (append_assoc q (flat ps) p))

pub samples-take :
    (k : ℕ) (ps : List (List ℕ)) (p : List ℕ)
    → get_elem? ps k ≡ some p
    → Frames.samples (take k ps) + length p / 2 ≤ Frames.samples ps
unfolding Frames.samples
samples-take k [] p h = cc
samples-take zero (q ∷ ps) p h = ground arith
samples-take (suc k) (q ∷ ps) p h = omega (arith, samples-take k ps p h)

pub All-at {ℓ κ} :
    {X : Type ℓ} (P : X → Type κ) (k : ℕ) (xs : List X) (x : X)
    → All P xs
    → get_elem? xs k ≡ some x
    → P x
All-at P k [] x v h = cc
All-at P zero (y ∷ xs) x v h = subst P (ground arith) v.0
All-at P (suc k) (y ∷ xs) x v h = All-at P k xs x v.1 h

pub IsPayload-at :
    (k : ℕ) (ps : List (List ℕ)) (p : List ℕ)
    → AllPayloads ps
    → get_elem? ps k ≡ some p
    → IsPayload p
IsPayload-at k ps p = All-at IsPayload k ps p

-- A payload holds a sample at least, so a position is no larger than the offset there.
pub position-le-samples :
    (k : ℕ) (ps : List (List ℕ)) (p : List ℕ)
    → AllPayloads ps
    → get_elem? ps k ≡ some p
    → k ≤ Frames.samples (take k ps)
unfolding Frames.samples
position-le-samples k [] p v h = cc
position-le-samples zero (q ∷ ps) p v h = omega arith
position-le-samples (suc k) (q ∷ ps) p v h =
    omega (arith, position-le-samples k ps p v.1 h, v.0.nonempty)

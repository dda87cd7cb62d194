-- ===== src/Audio/Queue/Slots.antt =====
-- The slots of the retained array: a run of empty ones, then the live frames.
use palancar.Base.{
  ℕ, zero, suc, ◌+◌, ◌≤◌, ◌≡◌, refl, ap, subst, Bool, false, Option, none, some, List, [], ◌∷◌,
  ◌++◌, map, append_assoc, arith, if◌then◌else◌, length, get_elem?, drop, replicate, length-append,
  length-replicate, text_eq,
}
use palancar.Audio.Slots.{slots, slot_at, set-slots}
use palancar.Audio.Queue.{Frame}
use palancar.Audio.Queue.Replay.{seek, release, frames_in}

slot_at-head :
    (pre : List (Option Frame)) (fs : List Frame)
    → slot_at (pre ++ map some fs) (length pre) ≡ get_elem? fs 0
unfolding slot_at
slot_at-head [] [] = refl
slot_at-head [] (f ∷ fs) = refl
slot_at-head (s ∷ pre) fs = slot_at-head pre fs

-- How many frames stand at the front that a loop passes.
unfoldable pub leading : (Option Frame → Bool) → List Frame → ℕ
leading p [] = 0
leading p (f ∷ fs) = if p (some f) then suc (leading p fs) else 0

pub leading-le : (p : Option Frame → Bool) (fs : List Frame) → leading p fs ≤ length fs
unfolding leading
leading-le p [] = omega arith
leading-le p (f ∷ fs) = ground (arith, leading-le p fs)

snoc :
    (pre : List (Option Frame)) (f : Frame) (fs : List Frame)
    → (pre ++ some f ∷ []) ++ map some fs ≡ pre ++ map some (f ∷ fs)
snoc pre f fs = append_assoc pre (some f ∷ []) (map some fs)

length-snoc : (pre : List (Option Frame)) (f : Frame) → length (pre ++ some f ∷ []) ≡ length pre + 1
length-snoc pre f = omega (arith, length-append pre (some f ∷ []))

seek-from :
    (p : Option Frame → Bool) (fuel : ℕ) (pre : List (Option Frame)) (fs : List Frame)
    → p none ≡ false
    → length fs ≤ fuel
    → seek fuel p (pre ++ map some fs) (length pre) ≡ length pre + leading p fs
unfolding seek leading
seek-from p zero pre [] n h = omega arith
seek-from p zero pre (f ∷ fs) n h = elim h [ ]
seek-from p (suc fuel) pre [] n h = ground (arith, slot_at-head pre [])
seek-from p (suc fuel) pre (f ∷ fs) n h =
    let next : seek fuel p (pre ++ map some (f ∷ fs)) (length pre + 1)
        ≡ length pre + 1 + leading p fs =
      rw (← snoc pre f fs, ← length-snoc pre f)
        (seek-from p fuel (pre ++ some f ∷ []) fs n (omega arith)) in
    ground (arith, slot_at-head pre (f ∷ fs), next)

-- The loop stops behind the frames that it passes; the fuel, the array's length, is enough.
pub seek_lem :
    (p : Option Frame → Bool) (fuel h : ℕ) (fs : List Frame)
    → p none ≡ false
    → length fs ≤ fuel
    → seek fuel p (slots h fs) h ≡ h + leading p fs
seek_lem p fuel h fs n e =
    subst (λ k. seek fuel p (slots h fs) k ≡ k + leading p fs) (length-replicate h none)
      (seek-from p fuel (replicate h none) fs n e)

pub release_lem :
    (k h : ℕ) (fs : List Frame)
    → k ≤ length fs
    → release k h (slots h fs) ≡ slots (h + k) (drop k fs)
unfolding release
release_lem zero h fs e = let q : h + 0 ≡ h = omega arith in rw q
release_lem (suc k) h [] e = elim e [ ]
release_lem (suc k) h (f ∷ fs) e =
    let next : h + 1 ≡ suc h = omega arith in
    let sum : h + suc k ≡ suc h + k = omega arith in
    rw (set-slots h f fs, next, sum) (release_lem k (suc h) fs (omega arith))

pub frames_in-map : (fs : List Frame) → frames_in (map some fs) ≡ fs
unfolding frames_in
frames_in-map [] = refl
frames_in-map (f ∷ fs) = ap (◌∷◌ f) (frames_in-map fs)

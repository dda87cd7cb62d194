-- ===== src/Audio/Acceptor/Stream.antt =====
-- packages/audio/src/relay.ts: a frame that is admitted to the stream of accepted frames.
use palancar.Base.{
  ℕ, zero, suc, ◌+◌, ◌-◌, ◌≤◌, ◌<◌, ◌≡◌, refl, sym, ap, ◌∙◌, subst, inl, inr, false, Option, none,
  some, List, [], ◌∷◌, ◌++◌, map, append_assoc, arith, ltb, ltb→lt, if◌then◌else◌, Bool-cases,
  length, get_elem?, drop, replicate, length-append, length-drop, Text, text_eq, map_get, map_set,
  map_has, map_set-new, nat_eq,
}
use palancar.Audio.Slots.{slots, map-append}
use palancar.Audio.Acceptor.{
  Options, ValidatedFrame, accepted, remember, admit, fresh, evict_fingerprints,
}
use palancar.Audio.Acceptor.Specification.{
  samples, recent, forgotten, by_number, holding, represents,
}
use palancar.Audio.Acceptor.Eviction.{evict_fingerprints_lem}

-- The frames have consecutive sequence numbers and offsets, from given ones on.
unfoldable pub IsRun : ℕ → ℕ → List ValidatedFrame → Type 0
IsRun s o [] = Unit {0}
IsRun s o (f ∷ fs) = (f.sequence ≡ s) × (f.offset ≡ o) × IsRun (s + 1) (o + f.sample_count) fs

pub samples-append : (fs gs : List ValidatedFrame) → samples (fs ++ gs) ≡ samples fs + samples gs
unfolding samples
samples-append [] gs = omega arith
samples-append (f ∷ fs) gs = omega (arith, samples-append fs gs)

pub IsRun-snoc :
    (s o : ℕ) (fs : List ValidatedFrame) (f : ValidatedFrame)
    → IsRun s o fs
    → f.sequence ≡ s + length fs
    → f.offset ≡ o + samples fs
    → IsRun s o (fs ++ f ∷ [])
unfolding IsRun samples
IsRun-snoc s o [] f r p q = (omega arith, omega arith, tt)
IsRun-snoc s o (g ∷ fs) f r p q =
    (r.0, r.1, IsRun-snoc (s + 1) (o + g.sample_count) fs f r.2 (omega arith) (omega arith))

-- What is remembered is an end of the stream.
recent-drop :
    (most : ℕ) (fs : List ValidatedFrame) → (d : ℕ) × (d ≤ length fs) × (recent most fs ≡ drop d fs)
unfolding recent
recent-drop most [] = (0, omega arith, refl)
recent-drop most (f ∷ fs) =
    let (d, b, e) = recent-drop most fs in
    elim (Bool-cases (ltb most (samples (f ∷ fs)))) [
      | inl over ↦ (suc d, omega arith, rw over e)
      | inr fits ↦ (0, omega arith, rw fits)
    ]

recent-recent :
    (most : ℕ) (fs gs : List ValidatedFrame)
    → recent most (recent most fs ++ gs) ≡ recent most (fs ++ gs)
unfolding recent samples
recent-recent most [] gs = refl
recent-recent most (f ∷ fs) gs = ground (arith, recent-recent most fs gs, samples-append fs gs)

IsRun-drop :
    (d s o : ℕ) (fs : List ValidatedFrame)
    → d ≤ length fs
    → IsRun s o fs
    → (o' : ℕ) × IsRun (s + d) o' (drop d fs)
unfolding IsRun
IsRun-drop zero s o fs b r = (o, subst (λ k. IsRun k o fs) (omega arith) r)
IsRun-drop (suc d) s o [] b r = ground arith
IsRun-drop (suc d) s o (f ∷ fs) b r =
    let (o', r') = IsRun-drop d (s + 1) (o + f.sample_count) fs (omega arith) r.2 in
    (o', subst (λ k. IsRun k o' (drop d fs)) (omega arith) r')

get_elem?-drop {ℓ} :
    {V : Type ℓ} (d i : ℕ) (xs : List V) → get_elem? (drop d xs) i ≡ get_elem? xs (d + i)
get_elem?-drop zero i xs = ap (get_elem? xs) (omega arith)
get_elem?-drop (suc d) i [] = refl
get_elem?-drop (suc d) i (x ∷ xs) =
    let e : suc d + i ≡ suc (d + i) = omega arith in rw e (get_elem?-drop d i xs)

-- The map finds the frame of a number exactly where the run has it.
map_get-before :
    (s o : ℕ) (fs : List ValidatedFrame) (k : ℕ)
    → IsRun s o fs
    → k < s
    → map_get (by_number fs) k ≡ none
unfolding IsRun by_number map_get
map_get-before s o [] k r h = refl
map_get-before s o (f ∷ fs) k r h =
    ground (arith, map_get-before (s + 1) (o + f.sample_count) fs k r.2 (omega arith), r.0)

map_get-run :
    (s o : ℕ) (fs : List ValidatedFrame) (i : ℕ)
    → IsRun s o fs
    → map_get (by_number fs) (s + i) ≡ get_elem? fs i
unfolding IsRun by_number map_get
map_get-run s o [] i r = refl
map_get-run s o (f ∷ fs) zero r = ground (arith, r.0)
map_get-run s o (f ∷ fs) (suc i) r =
    let e : s + 1 + i ≡ s + suc i = omega arith in
    let rest =
      subst (λ k. map_get (by_number fs) k ≡ get_elem? fs i) e
        (map_get-run (s + 1) (o + f.sample_count) fs i r.2) in
    ground (arith, rest, r.0)

by_number-append :
    (fs gs : List ValidatedFrame) → by_number (fs ++ gs) ≡ by_number fs ++ by_number gs
unfolding by_number
by_number-append [] gs = refl
by_number-append (f ∷ fs) gs = ap (◌∷◌ (f.sequence, f)) (by_number-append fs gs)

-- The fingerprint that the map finds for a number below the next one.
pub fingerprint_lem :
    (most : ℕ) (fs : List ValidatedFrame) (k : ℕ)
    → IsRun 0 0 fs
    → map_get (by_number (recent most fs)) k
      ≡ (if ltb k (forgotten most fs) then none else get_elem? fs k)
unfolding forgotten
fingerprint_lem most fs k r =
    let (d, b, e) = recent-drop most fs in
    let (o, r') = IsRun-drop d 0 0 fs b r in
    let n : length fs - length (recent most fs) ≡ d = rw e (omega (arith, length-drop d fs)) in
    rw (n, e)
      (elim (Bool-cases (ltb k d)) [
        | inl below ↦ rw below (
            map_get-before d o (drop d fs) k (subst (λ m. IsRun m o (drop d fs)) (omega arith) r')
              (ltb→lt _ _ below))
        | inr above ↦
            let k' : 0 + d + (k - d) ≡ k = ground arith in
            let i : d + (k - d) ≡ k = ground arith in
            rw above (
              subst (λ m. map_get (by_number (drop d fs)) m ≡ get_elem? (drop d fs) (k - d)) k'
                (map_get-run (0 + d) o (drop d fs) (k - d) r')
              ∙ (get_elem?-drop d (k - d) fs ∙ ap (get_elem? fs) i))
      ])

get_elem?-length {ℓ} : {V : Type ℓ} (xs : List V) → get_elem? xs (length xs) ≡ none
get_elem?-length [] = refl
get_elem?-length (x ∷ xs) = get_elem?-length xs

known : (most : ℕ) (fs : List ValidatedFrame) → ltb (length fs) (forgotten most fs) ≡ false
unfolding forgotten
known most fs = ground arith

fingerprint-new :
    (most : ℕ) (fs : List ValidatedFrame)
    → IsRun 0 0 fs
    → map_has (by_number (recent most fs)) (length fs) ≡ false
fingerprint-new most fs r =
    let old : ltb (length fs) (forgotten most fs) ≡ false = known most fs in
    let none_there : map_get (by_number (recent most fs)) (length fs) ≡ none =
      rw (fingerprint_lem most fs (length fs) r, old, get_elem?-length fs) in
    rw (map_has, none_there)

map_set-last :
    (live : List ValidatedFrame) (f : ValidatedFrame)
    → map_has (by_number live) f.sequence ≡ false
    → map_set (by_number live) f.sequence f ≡ by_number (live ++ f ∷ [])
unfolding by_number
map_set-last live f h =
    map_set-new (by_number live) f.sequence f h ∙ sym (by_number-append live (f ∷ []))

pub samples-snoc :
    (fs : List ValidatedFrame) (f : ValidatedFrame)
    → samples (fs ++ f ∷ []) ≡ samples fs + f.sample_count
unfolding samples
samples-snoc fs f = omega (arith, samples-append fs (f ∷ []))

samples-one : (f : ValidatedFrame) → samples (f ∷ []) ≡ f.sample_count
unfolding samples
samples-one f = omega arith

-- A frame that is remembered and then evicted from an acceptor that represents a stream.
remember_lem :
    (options : Options) (u : Text) (fs : List ValidatedFrame) (h : ℕ) (f : ValidatedFrame)
    → IsRun 0 0 fs
    → f.sequence ≡ length fs
    → remember (represents options u fs h) f
      ≡ holding
          (record (fresh u options) {
            next_sequence = length fs + 1;
            next_offset = samples fs + f.sample_count;
          })
          h
          (recent options.max_retained_replay_samples fs ++ f ∷ [])
unfolding remember represents holding
remember_lem options u fs h f r q =
    let live = recent options.max_retained_replay_samples fs in
    let keys : map_set (by_number live) f.sequence f ≡ by_number (live ++ f ∷ []) =
      map_set-last live f
        (subst (λ k. map_has (by_number live) k ≡ false) (sym q) (fingerprint-new _ fs r)) in
    let queue : slots h live ++ some f ∷ [] ≡ slots h (live ++ f ∷ []) =
      rw (map-append {B = Option ValidatedFrame} some live (f ∷ []))
        (append_assoc (replicate h none) (map some live) (some f ∷ [])) in
    let sum : samples live + f.sample_count ≡ samples (live ++ f ∷ []) =
      omega (arith, samples-append live (f ∷ []), samples-one f) in
    rw (keys, queue, sum)

holding-represents :
    (options : Options) (u : Text) (fs : List ValidatedFrame) (h : ℕ) (f : ValidatedFrame)
    → holding
        (record (fresh u options) {
          next_sequence = length fs + 1;
          next_offset = samples fs + f.sample_count;
        })
        h
        (recent options.max_retained_replay_samples
          (recent options.max_retained_replay_samples fs ++ f ∷ []))
      ≡ represents options u (fs ++ f ∷ []) h
unfolding holding represents
holding-represents options u fs h f = rw (
  recent-recent options.max_retained_replay_samples fs (f ∷ []),
  length-append fs (f ∷ []),
  samples-append fs (f ∷ []),
  samples-one f,
)

represented-offset :
    (options : Options) (u : Text) (fs : List ValidatedFrame) (h : ℕ) (f : ValidatedFrame)
    → (represents options u (fs ++ f ∷ []) h).next_offset ≡ samples fs + f.sample_count
unfolding represents
represented-offset options u fs h f = omega (arith, samples-append fs (f ∷ []), samples-one f)

pub admit_lem :
    (options : Options) (u : Text) (fs : List ValidatedFrame) (h : ℕ) (f : ValidatedFrame)
    → IsRun 0 0 fs
    → f.sequence ≡ length fs
    → (h' : ℕ) × (admit (represents options u fs h) f ≡ (
      represents options u (fs ++ f ∷ []) h',
      accepted (samples fs + f.sample_count) f.sample_count f.payload,
    ))
unfolding admit
admit_lem options u fs h f r q =
    let most = options.max_retained_replay_samples in
    let a = record (fresh u options) {
      next_sequence = length fs + 1;
      next_offset = samples fs + f.sample_count;
    } in
    let (h', e) = evict_fingerprints_lem a h (recent most fs ++ f ∷ []) in
    let x : evict_fingerprints (remember (represents options u fs h) f)
        ≡ represents options u (fs ++ f ∷ []) h' =
      rw (remember_lem options u fs h f r q) (e ∙ holding-represents options u fs h' f) in
    (
      h',
      ap (λ b. (b, accepted b.next_offset f.sample_count f.payload)) x
          ∙ ap (λ n. (represents options u (fs ++ f ∷ []) h', accepted n f.sample_count f.payload))
              (represented-offset options u fs h' f),
    )

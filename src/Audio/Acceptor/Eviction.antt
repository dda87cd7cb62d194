-- ===== src/Audio/Acceptor/Eviction.antt =====
-- packages/audio/src/relay.ts: `#evictFingerprints` on the fingerprints of consecutive frames.
use palancar.Base.{
  ℕ, zero, suc, ◌+◌, ◌-◌, ◌/◌, ◌≤◌, ◌<◌, ◌≡◌, refl, subst, inl, inr, true, false, none, some, List,
  [], ◌∷◌, arith, ltb, leb, nat_beq, ltb→lt, lt→ltb, Bool-cases, length, get_elem?, drop, text_eq,
  map_delete, nat_eq,
}
use palancar.Contracts.Constants.{max_audio_payload_bytes}
use palancar.Audio.Slots.{slots, slot_at, slot_at-slots, set-slots, drop-slots, length-slots}
use palancar.Audio.Acceptor.{
  Acceptor, ValidatedFrame, evict_step, evict_first, evict_loop, evict_fingerprints, compact,
}
use palancar.Audio.Acceptor.Specification.{samples, recent, by_number, holding}

first_slot : (h : ℕ) (live : List ValidatedFrame) → slot_at (slots h live) h ≡ get_elem? live 0
first_slot h live =
    let e : h + 0 ≡ h = omega arith in
    subst (λ k. slot_at (slots h live) k ≡ get_elem? live 0) e (slot_at-slots h live 0)

delete_first :
    (f : ValidatedFrame) (fs : List ValidatedFrame)
    → map_delete (by_number (f ∷ fs)) f.sequence ≡ by_number fs
unfolding by_number map_delete
delete_first f fs = ground arith

recent-within :
    (most : ℕ) (live : List ValidatedFrame) → samples live ≤ most → recent most live ≡ live
unfolding recent samples
recent-within most [] b = refl
recent-within most (f ∷ fs) b = ground arith

recent-over :
    (most : ℕ) (f : ValidatedFrame) (fs : List ValidatedFrame)
    → most < samples (f ∷ fs)
    → recent most (f ∷ fs) ≡ recent most fs
unfolding recent
recent-over most f fs b = ground arith

module _ (a : Acceptor) (h : ℕ) where
  step-nothing : evict_step (holding a h []) ≡ none
  unfolding evict_step holding samples
  step-nothing = ground arith

  step-within :
      (live : List ValidatedFrame)
      → samples live ≤ a.options.max_retained_replay_samples
      → evict_step (holding a h live) ≡ none
  unfolding evict_step holding
  step-within live b = ground arith

  step-evicts :
      (f : ValidatedFrame) (fs : List ValidatedFrame)
      → a.options.max_retained_replay_samples < samples (f ∷ fs)
      → evict_step (holding a h (f ∷ fs)) ≡ some (holding a (h + 1) fs)
  unfolding evict_step holding
  step-evicts f fs b =
      let e : ltb a.options.max_retained_replay_samples (samples (f ∷ fs)) ≡ true = lt→ltb _ _ b in
      let next : h + 1 ≡ suc h = omega arith in
      let rest : f.sample_count + samples fs - f.sample_count ≡ samples fs = omega arith in
      rw (e, first_slot h (f ∷ fs), evict_first, delete_first f fs, set-slots h f fs, next, rest)

-- The loop forgets the oldest frames, and no more than the window demands; the fuel is enough when
-- it is at least the number of frames.
evict_loop_lem :
    (fuel : ℕ) (a : Acceptor) (h : ℕ) (live : List ValidatedFrame)
    → length live ≤ fuel
    → (h' : ℕ) × (evict_loop fuel (holding a h live)
        ≡ holding a h' (recent a.options.max_retained_replay_samples live))
unfolding evict_loop recent
evict_loop_lem zero a h [] e = (h, refl)
evict_loop_lem zero a h (f ∷ fs) e = ground arith
evict_loop_lem (suc fuel) a h [] e = (h, rw (evict_loop, step-nothing a h))
evict_loop_lem (suc fuel) a h (f ∷ fs) e =
    let most = a.options.max_retained_replay_samples in
    elim (Bool-cases (ltb most (samples (f ∷ fs)))) [
      | inl over ↦
          let (h', q) = evict_loop_lem fuel a (h + 1) fs (omega arith) in
          (h', rw (evict_loop, step-evicts a h f fs (ltb→lt _ _ over), over) q)
      | inr fits ↦ (h, rw (evict_loop, step-within a h (f ∷ fs) (ground arith), fits))
    ]

nat_beq_refl_add : (h : ℕ) → nat_beq h (h + 0) ≡ true
nat_beq_refl_add h = ground arith

drop-all : (h : ℕ) (live : List ValidatedFrame) → drop h (slots h live) ≡ slots 0 live
drop-all h live =
    let e : h + 0 ≡ h = omega arith in
    subst (λ k. drop k (slots h live) ≡ slots 0 live) e (drop-slots h 0 live)

compact_lem :
    (a : Acceptor) (h : ℕ) (live : List ValidatedFrame)
    → (h' : ℕ) × (compact (holding a h live) ≡ holding a h' live)
unfolding compact holding
compact_lem a h [] = (0, rw (length-slots {V = ValidatedFrame} h [], nat_beq_refl_add h))
compact_lem a h (f ∷ fs) =
    let more : nat_beq h (length (slots h (f ∷ fs))) ≡ false =
      rw (length-slots h (f ∷ fs)) (ground arith) in
    elim (Bool-cases (leb (max_audio_payload_bytes / 2) h)) [
      | inl long ↦ (0, rw (more, long, drop-all h (f ∷ fs)))
      | inr short ↦ (h, rw (more, short))
    ]

enough :
    (a : Acceptor) (h : ℕ) (live : List ValidatedFrame)
    → length live ≤ length (holding a h live).fingerprint_queue
unfolding holding
enough a h live = omega (arith, length-slots h live)

pub evict_fingerprints_lem :
    (a : Acceptor) (h : ℕ) (live : List ValidatedFrame)
    → (h' : ℕ) × (evict_fingerprints (holding a h live)
        ≡ holding a h' (recent a.options.max_retained_replay_samples live))
unfolding evict_fingerprints
evict_fingerprints_lem a h live =
    let fuel = length (holding a h live).fingerprint_queue in
    let (h1, q1) = evict_loop_lem fuel a h live (enough a h live) in
    let (h2, q2) = compact_lem a h1 (recent a.options.max_retained_replay_samples live) in
    (h2, rw q1 q2)

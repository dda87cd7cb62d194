-- ===== src/Audio/Acceptor/Termination.antt =====
-- packages/audio/src/relay.ts: the loop of `#evictFingerprints` ends, whatever the acceptor holds.
use palancar.Base.{
  ℕ, zero, suc, ◌+◌, ◌≤◌, ◌≡◌, refl, ap, inl, inr, Option, none, some, List, [], ◌∷◌, arith,
  Option-cases, length, set, text_eq, nat_eq,
}
use palancar.Audio.Slots.{slot_at}
use palancar.Audio.Acceptor.{Acceptor, evict_step, evict_first, evict_loop}

module _ {ℓ} {V : Type ℓ} where
  length-set : (xs : List V) (i : ℕ) (v : V) → length (set xs i v) ≡ length xs
  length-set [] i v = refl
  length-set (x ∷ xs) zero v = refl
  length-set (x ∷ xs) (suc i) v = ap suc (length-set xs i v)

  slot_at-beyond : (xs : List (Option V)) (i : ℕ) → length xs ≤ i → slot_at xs i ≡ none
  unfolding slot_at
  slot_at-beyond [] i h = refl
  slot_at-beyond (x ∷ xs) zero h = ground arith
  slot_at-beyond (x ∷ xs) (suc i) h = slot_at-beyond xs i (omega arith)

step-advances :
    (a b : Acceptor)
    → evict_step a ≡ some b
    → (b.fingerprint_head ≡ a.fingerprint_head + 1)
      × (length b.fingerprint_queue ≡ length a.fingerprint_queue)
unfolding evict_step evict_first
step-advances a b h = ground (arith, length-set a.fingerprint_queue a.fingerprint_head none)

step-ends : (a : Acceptor) → length a.fingerprint_queue ≤ a.fingerprint_head → evict_step a ≡ none
unfolding evict_step evict_first
step-ends a h = ground (arith, slot_at-beyond a.fingerprint_queue a.fingerprint_head h)

-- The loop of `#evictFingerprints` has ended after at most as many rounds as the queue has slots
-- from its head on: one more round would change nothing, whatever the acceptor holds.
pub evict_loop-ends :
    (fuel : ℕ) (a : Acceptor)
    → length a.fingerprint_queue ≤ a.fingerprint_head + fuel
    → evict_step (evict_loop fuel a) ≡ none
unfolding evict_loop
evict_loop-ends zero a h = step-ends a (omega arith)
evict_loop-ends (suc fuel) a h = elim (Option-cases (evict_step a)) [
  | inl stop ↦ rw (evict_loop, stop) stop
  | inr (b, go) ↦
      let (head, slots) = step-advances a b go in
      rw (evict_loop, go) (evict_loop-ends fuel b (omega arith))
]

-- ===== src/Audio/Framer/Stream.antt =====
-- packages/audio/src/pcm.ts: `push`, seen on the stream of bytes.
use palancar.Base.{
  ℕ, zero, suc, ◌+◌, ◌-◌, ◌*◌, ◌/◌, ◌%◌, ◌≤◌, ◌<◌, ◌≡◌, refl, sym, ap, ◌∙◌, Option, none, some,
  List, [], ◌∷◌, ◌++◌, arith, length, take, drop, append_assoc, append-nil, length-append,
  length-take, length-drop, take-append-drop, subst, All-append,
}
use native.Mathlib.Nat.{div-add-mod, mod-lt}
use palancar.Audio.Framer.{Framer, drain_target, trailing_bytes, head?, push, largest_even_at_most}
use palancar.Audio.Framer.Loops.{flat, AllOf, cut_lem, pieces_unique, append-eq}

pub record IsFramer (f : Framer) : Type 0 where
  pub target_even : f.target_bytes % 2 ≡ 0
  pub target_positive : 2 ≤ f.target_bytes
  pub target_most : f.target_bytes ≤ f.max_payload_bytes
  pub pending_even : length f.pending % 2 ≡ 0
  pub pending_less : length f.pending < f.target_bytes

-- The bytes that the framer holds back.
abbrev pub held : Framer → List ℕ
held f = f.pending ++ trailing_bytes f.trailing

rounds_whole : (n m : ℕ) → n - n % m ≡ 0 + n / m * m
rounds_whole n m = grind (arith, div-add-mod n m)

rounds_enough : (n m : ℕ) → 2 ≤ m → n / m ≤ n - n % m
rounds_enough n m h = grind (arith, rounds_whole n m)

drain_target_lem :
    (f : Framer)
    → 2 ≤ f.target_bytes
    → let r = drain_target f in
      (flat r.1 ++ r.0.pending ≡ f.pending)
      × AllOf f.target_bytes r.1
      × (length r.0.pending ≡ length f.pending % f.target_bytes)
      × (r.0.trailing ≡ f.trailing)
      × (r.0.target_bytes ≡ f.target_bytes)
      × (r.0.max_payload_bytes ≡ f.max_payload_bytes)
unfolding drain_target flat
drain_target_lem f h =
    let emitted : ℕ = length f.pending - length f.pending % f.target_bytes in
    let rounds : ℕ = length f.pending / f.target_bytes in
    let whole : emitted ≡ 0 + rounds * f.target_bytes =
      rounds_whole (length f.pending) f.target_bytes in
    let loop =
      cut_lem f.pending f.target_bytes (omega arith) emitted rounds 0 emitted whole
        (rounds_enough (length f.pending) f.target_bytes h) (omega arith) in
    ground (arith, loop, whole, take-append-drop emitted f.pending, length-drop emitted f.pending)

-- The odd byte that is left of a list of bytes is its last.
take-head?-drop :
    (n : ℕ) (xs : List ℕ)
    → length xs ≤ n + 1
    → n ≤ length xs
    → take n xs ++ trailing_bytes (head? (drop n xs)) ≡ xs
take-head?-drop zero [] h k = refl
take-head?-drop zero (x ∷ []) h k = refl
take-head?-drop zero (x ∷ y ∷ xs) h k = absurd (omega arith)
take-head?-drop (suc n) [] h k = absurd (omega arith)
take-head?-drop (suc n) (x ∷ xs) h k = ap (◌∷◌ x) (take-head?-drop n xs (omega arith) (omega arith))

-- The state that `push` hands to `#drainTarget`.
merged : Framer → List ℕ → List ℕ
merged f input = f.pending ++ (trailing_bytes f.trailing ++ input)

split : Framer → List ℕ → Framer
split f m = record f {
  pending = take (largest_even_at_most (length m)) m;
  trailing = head? (drop (largest_even_at_most (length m)) m);
}

split_lem :
    (f : Framer) (m : List ℕ) → (held (split f m) ≡ m) × (length (split f m).pending % 2 ≡ 0)
unfolding split
split_lem f m = (
  take-head?-drop (length m / 2 * 2) m (omega arith) (omega arith),
  omega (arith, length-take (length m / 2 * 2) m),
)

mod_even : (n t : ℕ) → n % 2 ≡ 0 → t % 2 ≡ 0 → (n % t) % 2 ≡ 0
mod_even n t h k =
    let e : t ≡ t / 2 * 2 = omega arith in
    omega (arith, div-add-mod n t, ap (λ (x : ℕ). x * (n / t)) e)

merged-held : (f : Framer) (input : List ℕ) → merged f input ≡ held f ++ input
unfolding merged
merged-held f input = sym (append_assoc f.pending (trailing_bytes f.trailing) input)

push-eq : (f : Framer) (input : List ℕ) → push f input ≡ drain_target (split f (merged f input))
unfolding push split merged
push-eq f input = refl

held_parts :
    (f : Framer) (m : List ℕ)
    → ((split f m).target_bytes ≡ f.target_bytes)
      × ((split f m).max_payload_bytes ≡ f.max_payload_bytes)
unfolding split
held_parts f m = (refl, refl)

drained_IsFramer :
    (f : Framer)
    → f.target_bytes % 2 ≡ 0
    → 2 ≤ f.target_bytes
    → f.target_bytes ≤ f.max_payload_bytes
    → length f.pending % 2 ≡ 0
    → IsFramer (drain_target f).0
drained_IsFramer f even positive most whole =
    let d = drain_target_lem f positive in
    ground (
      arith,
      d,
      mod_even (length f.pending) f.target_bytes whole even,
      mod-lt (length f.pending) {m = f.target_bytes} (omega arith),
    )

drained_held :
    (f : Framer) → 2 ≤ f.target_bytes → flat (drain_target f).1 ++ held (drain_target f).0 ≡ held f
drained_held f positive =
    let d = drain_target_lem f positive in
    rw (
      d.3,
      ← append_assoc (flat (drain_target f).1) (drain_target f).0.pending
          (trailing_bytes f.trailing),
      d.0,
    )

-- Every call of `push` emits payloads of exactly the target's length and keeps the rest, which is
-- shorter; together they are the bytes held before and the input, in order.
pub push_lem :
    (f : Framer) (input : List ℕ)
    → IsFramer f
    → let r = push f input in
      (flat r.1 ++ held r.0 ≡ held f ++ input)
      × AllOf f.target_bytes r.1
      × IsFramer r.0
      × (r.0.target_bytes ≡ f.target_bytes)
      × (r.0.max_payload_bytes ≡ f.max_payload_bytes)
unfolding merged split
push_lem f input v =
    let s = split f (merged f input) in
    let parts = held_parts f (merged f input) in
    let whole = split_lem f (merged f input) in
    let positive : 2 ≤ s.target_bytes = rw parts.0 v.target_positive in
    let d = drain_target_lem s positive in
    let valid =
      drained_IsFramer s (rw parts.0 v.target_even) positive (rw (parts.0, parts.1) v.target_most)
        whole.1 in
    rw (push-eq f input) (
      (drained_held s positive ∙ whole.0 ∙ merged-held f input),
      rw (← parts.0) d.1,
      valid,
      d.4 ∙ parts.0,
      d.5 ∙ parts.1,
    )

held_unique :
    (p q : List ℕ) (a b : Option ℕ)
    → length p % 2 ≡ 0
    → length q % 2 ≡ 0
    → p ++ trailing_bytes a ≡ q ++ trailing_bytes b
    → (p ≡ q) × (a ≡ b)
held_unique p q none none h k e = (sym (append-nil p) ∙ e ∙ append-nil q, refl)
held_unique p q none (some b) h k e =
    absurd (omega (arith, ap length e, length-append p [], length-append q (b ∷ [])))
held_unique p q (some a) none h k e =
    absurd (omega (arith, ap length e, length-append p (a ∷ []), length-append q []))
held_unique p q (some a) (some b) h k e =
    let same =
      append-eq p q (a ∷ []) (b ∷ [])
        (omega (arith, ap length e, length-append p (a ∷ []), length-append q (b ∷ []))) e in
    ground (arith, same)

held-short : (f : Framer) → IsFramer f → length (held f) < f.target_bytes
held-short f v = short f.pending f.trailing v.pending_even v.pending_less
  where
    short :
        (p : List ℕ) (o : Option ℕ)
        → length p % 2 ≡ 0
        → length p < f.target_bytes
        → length (p ++ trailing_bytes o) < f.target_bytes
    short p none h k = omega (arith, length-append p [], v.target_even)
    short p (some b) h k = omega (arith, length-append p (b ∷ []), v.target_even)

pub flat-append : (ps qs : List (List ℕ)) → flat (ps ++ qs) ≡ flat ps ++ flat qs
unfolding flat
flat-append [] qs = refl
flat-append (p ∷ ps) qs = rw (flat-append ps qs) (sym (append_assoc p (flat ps) (flat qs)))

-- Two callbacks emit the payloads, and leave the state, that one callback with all the bytes does.
pub push-push :
    (f : Framer) (first second : List ℕ)
    → IsFramer f
    → let r = push f first in
      let s = push r.0 second in push f (first ++ second) ≡ (s.0, r.1 ++ s.1)
push-push f first second v =
    let r = push f first in
    let s = push r.0 second in
    let w = push f (first ++ second) in
    let a = push_lem f first v in
    let b = push_lem r.0 second a.2 in
    let c = push_lem f (first ++ second) v in
    let bytes : flat (r.1 ++ s.1) ++ held s.0 ≡ held f ++ (first ++ second) =
      rw
        (
          flat-append r.1 s.1,
          append_assoc (flat r.1) (flat s.1) (held s.0),
          b.0,
          ← append_assoc (flat r.1) (held r.0) second,
          a.0,
        )
        (append_assoc (held f) first second) in
    let target : s.0.target_bytes ≡ f.target_bytes = b.3 ∙ a.3 in
    let cuts : AllOf f.target_bytes (r.1 ++ s.1) =
      All-append (λ p. length p ≡ f.target_bytes) r.1 s.1 a.1 (subst (λ n. AllOf n s.1) a.3 b.1) in
    let unique =
      pieces_unique f.target_bytes w.1 (r.1 ++ s.1) (held w.0) (held s.0) c.1 cuts
        (omega (arith, held-short w.0 c.2, c.3)) (omega (arith, held-short s.0 b.2, target))
        (c.0 ∙ sym bytes) in
    let kept =
      held_unique w.0.pending s.0.pending w.0.trailing s.0.trailing c.2.pending_even
        b.2.pending_even unique.1 in
    ground (arith, unique, kept, a, b, c)

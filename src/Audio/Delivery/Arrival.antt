-- ===== src/Audio/Delivery/Arrival.antt =====
-- packages/audio/src: what arrives of an utterance, and that a replay completes it.
use palancar.Base.{
  ℕ, zero, suc, ◌+◌, ◌-◌, ◌≤◌, ◌≡◌, refl, sym, ap, ◌∙◌, inl, inr, List, [], ◌∷◌, ◌++◌, arith,
  nat_beq, Bool-cases, length, take, length-take, Text, text_eq, nat_eq,
}
use palancar.Audio.Framer.Loops.{flat}
use palancar.Audio.Queue.Frames.{frames}
use palancar.Audio.Acceptor.{Options}
use palancar.Audio.Acceptor.Specification.{represents}
use palancar.Audio.Acceptor.Refinement.{IsStream}
use palancar.Audio.Acceptor.{fresh}
use palancar.Audio.Acceptor.History.{fresh-represents, nothing-IsStream}
use palancar.Audio.Delivery.{deliver, next_of, advance}
use palancar.Audio.Delivery.Entries.{entries, length-entries}
use palancar.Audio.Delivery.Schedule.{IsSendable, delivered}

-- The positions from one on, a number of them.
unfoldable pub positions : ℕ → ℕ → List ℕ
positions from zero = []
positions from (suc count) = from ∷ positions (from + 1) count

take-length {ℓ} : {X : Type ℓ} (xs : List X) → take (length xs) xs ≡ xs
take-length [] = refl
take-length (x ∷ xs) = ap (◌∷◌ x) (take-length xs)

represented-sequence :
    (options : Options) (u : Text) (n h : ℕ) (ps : List (List ℕ))
    → n ≤ length ps
    → (represents options u (entries u 0 0 (take n ps)) h).next_sequence ≡ n
unfolding represents
represented-sequence options u n h ps b =
    length-entries u 0 0 (take n ps) ∙ omega (arith, length-take n ps)

nothing_sent :
    (options : Options) (u : Text) (ps : List (List ℕ))
    → fresh u options ≡ represents options u (entries u 0 0 (take 0 ps)) 0
unfolding entries
nothing_sent options u ps = fresh-represents options u

nothing_flat : (ps : List (List ℕ)) → flat (take 0 ps) ≡ []
unfolding flat
nothing_flat ps = refl

empty-IsStream :
    (options : Options) (u : Text) (ps : List (List ℕ))
    → IsStream options (entries u 0 0 (take 0 ps))
unfolding entries
empty-IsStream options u ps = nothing-IsStream options

-- The frames of an utterance's payloads, which fit what was negotiated, reach a new acceptor in any
-- schedule, which may lose, repeat and reorder them: it then has forwarded the payloads of the first frames, each exactly once and in
-- order, as many as a receiver gets that takes only the next frame; and it expects the one after.
pub deliver-prefix :
    (options : Options) (u : Text) (ps : List (List ℕ)) (schedule : List ℕ)
    → IsSendable options u ps
    → let run = deliver (fresh u options) (frames u 0 0 ps) schedule in
      let n = advance (length ps) 0 schedule in
      (n ≤ length ps) × (run.1 ≡ flat (take n ps)) × (run.0.next_sequence ≡ n)
deliver-prefix options u ps schedule v =
    let n = advance (length ps) 0 schedule in
    let (h, b, s, e, f) =
      delivered options u ps v schedule 0 0 (omega arith) (empty-IsStream options u ps) in
    rw (nothing_sent options u ps) (
      b,
      sym (
          f
          ∙ ap
              (λ x.
                x
                ++ (deliver (represents options u (entries u 0 0 (take 0 ps)) 0) (frames u 0 0 ps)
                    schedule).1)
              (nothing_flat ps)),
      ap (λ a. a.next_sequence) e ∙ represented-sequence options u n h ps b,
    )

advance-append :
    (total n : ℕ) (js ks : List ℕ)
    → advance total n (js ++ ks) ≡ advance total (advance total n js) ks
unfolding advance
advance-append total n [] ks = refl
advance-append total n (j ∷ js) ks = advance-append total (next_of total n j) js ks

-- A run of positions that begins at or before the next one and goes to the end takes all.
advance-positions :
    (total n m count : ℕ)
    → m ≤ n
    → n ≤ total
    → m + count ≡ total
    → advance total n (positions m count) ≡ total
unfolding positions next_of advance
advance-positions total n m zero a b c = omega arith
advance-positions total n m (suc count) a b c = elim (Bool-cases (nat_beq m n)) [
  | inl now ↦
      let q : next_of total n m ≡ n + 1 = ground arith in
      rw (advance, q)
        (advance-positions total (n + 1) (m + 1) count (ground arith) (ground arith) (omega arith))
  | inr passed ↦
      let q : next_of total n m ≡ n = ground arith in
      rw (advance, q) (advance-positions total n (m + 1) count (ground arith) b (omega arith))
]

-- After any schedule of the frames of payloads that fit what was negotiated, one replay of the frames from one on that the acceptor expects, or an earlier
-- one, to the last brings every payload: what is forwarded in all is the whole utterance, in order
-- and without repetition.
pub replay-delivers :
    (options : Options) (u : Text) (ps : List (List ℕ)) (schedule : List ℕ) (from : ℕ)
    → IsSendable options u ps
    → from ≤ (deliver (fresh u options) (frames u 0 0 ps) schedule).0.next_sequence
    → (deliver
        (fresh u options)
        (frames u 0 0 ps)
        (schedule ++ positions from (length ps - from))).1
      ≡ flat ps
replay-delivers options u ps schedule from v early =
    let total = length ps in
    let (few, before, next) = deliver-prefix options u ps schedule v in
    let reached = advance total 0 schedule in
    let (bound, all, last) =
      deliver-prefix options u ps (schedule ++ positions from (total - from)) v in
    let q : advance total 0 (schedule ++ positions from (total - from)) ≡ total =
      advance-append total 0 schedule (positions from (total - from))
      ∙ advance-positions total reached from (total - from) (omega (arith, early, next)) few
          (omega (arith, early, next, few)) in
    all ∙ ap flat (ap (λ n. take n ps) q ∙ take-length ps)

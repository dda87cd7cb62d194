-- ===== src/Audio/Delivery/Schedule.antt =====
-- packages/audio/src: the relay's acceptor under any schedule of the client's frames.
use palancar.Base.{
  ℕ, ◌+◌, ◌/◌, ◌≤◌, ◌≡◌, refl, sym, ap, ◌∙◌, subst, ◌≢◌, inl, inr, true, Option, none, some, List,
  [], ◌∷◌, ◌++◌, append-nil, append_assoc, arith, nat_beq, nat_beq_iff, Bool-cases, Option-cases,
  length, get_elem?, take, length-take, All, Text, text_eq, nat_eq,
}
use palancar.Contracts.Constants.{max_utterance_samples}
use palancar.Contracts.Uuid.{is_uuid}
use palancar.Contracts.AudioFrame.RoundTrip.{frame_of}
use palancar.Audio.Framer.Loops.{flat}
use palancar.Audio.Queue.{Frame}
use palancar.Audio.Queue.Frames
use palancar.Audio.Queue.Frames.{framed, frames, IsPayload, AllPayloads}
use palancar.Audio.Acceptor.{Options, Acceptor, accepted}
use palancar.Audio.Acceptor.Specification.{samples, extend, respond, represents}
use palancar.Audio.Acceptor.Refinement.{
  IsStream, forwarded, extend-cases, extend-next, accept-represents,
}
use palancar.Audio.Delivery.{
  candidate_of, receive, deliver, next_of, advance, entry, decode-framed, validate-framed,
  get_elem?-frames, get_elem?-frames-none,
}
use palancar.Audio.Delivery.Entries.{
  take-suc, get_elem?-some, get_elem?-none, entries, length-entries, samples-entries, entries-snoc,
  flat-snoc, samples-take, All-at, IsPayload-at, position-le-samples,
}

-- The payloads of an utterance: valid ones, each within the negotiated payload limit, and all of them within
-- the negotiated number of samples of an utterance.
pub record IsSendable (options : Options) (u : Text) (ps : List (List ℕ)) : Type 0 where
  pub id : is_uuid u ≡ true
  pub payloads : AllPayloads ps
  pub small : All (λ p. length p ≤ options.max_audio_payload_bytes) ps
  pub within : Frames.samples ps ≤ options.max_utterance_samples
  pub limit : options.max_utterance_samples ≤ max_utterance_samples

zero_plus : (n : ℕ) → 0 + n ≡ n
zero_plus n = omega arith

length-take-le {ℓ} : {X : Type ℓ} (n : ℕ) (xs : List X) → n ≤ length xs → length (take n xs) ≡ n
length-take-le n xs h = omega (arith, length-take n xs)

module _ (options : Options) (u : Text) (ps : List (List ℕ)) (v : IsSendable options u ps) where
  -- The acceptor after the first frames, with a number of empty slots.
  abbrev after : ℕ → ℕ → Acceptor
  after n h = represents options u (entries u 0 0 (take n ps)) h

  abbrev message : ℕ → Option Frame
  message k = get_elem? (frames u 0 0 ps) k

  offset_of : ℕ → ℕ
  offset_of k = Frames.samples (take k ps)

  get_elem?-frames-first :
      (k : ℕ) (p : List ℕ) → get_elem? ps k ≡ some p → message k ≡ some (framed u k (offset_of k) p)
  unfolding offset_of
  get_elem?-frames-first k p e =
      let a : 0 + k ≡ k = omega arith in
      let b : 0 + Frames.samples (take k ps) ≡ Frames.samples (take k ps) = omega arith in
      get_elem?-frames u k 0 0 ps p e ∙ rw (a, b)

  judged :
      (n h k : ℕ) (p : List ℕ)
      → IsStream options (entries u 0 0 (take n ps))
      → get_elem? ps k ≡ some p
      → let next = extend options u (entries u 0 0 (take n ps)) (entry u k (offset_of k) p) in
        (h' : ℕ) × IsStream options next.0
        × (receive (after n h) (message k) ≡ (represents options u next.0 h', forwarded next.1))
  unfolding receive offset_of respond
  judged n h k p s e =
      let id = v.id in
      let payload = IsPayload-at k ps p v.payloads e in
      let room = samples-take k ps p e in
      let few : k ≤ Frames.samples (take k ps) = position-le-samples k ps p v.payloads e in
      let m : message k ≡ some (framed u k (offset_of k) p) = get_elem?-frames-first k p e in
      let d =
        decode-framed u k (offset_of k) p id payload (omega (arith, v.within, v.limit))
          (omega (arith, v.within, v.limit)) in
      let a =
        validate-framed options u k (offset_of k) p id payload (omega (arith, v.within, v.limit))
          (All-at (λ p. length p ≤ options.max_audio_payload_bytes) k ps p v.small e)
          (omega (arith, v.within)) (omega (arith, v.within, v.limit)) in
      let (s', found) =
        accept-represents options u (entries u 0 0 (take n ps)) h
          (some (candidate_of (frame_of u k (offset_of k) p))) s in
      let (h', r) = found in
      let fs = entries u 0 0 (take n ps) in
      (
        h',
        subst (λ w. IsStream options (respond options u fs w).0) a s',
        rw (m, d, r)
            (ap
              (λ w. (
                represents options u (respond options u fs w).0 h',
                forwarded (respond options u fs w).1,
              ))
              a),
      )

  -- The next frame is taken, any other changes nothing and forwards nothing.
  taken :
      (n : ℕ) (p : List ℕ)
      → get_elem? ps n ≡ some p
      → extend options u (entries u 0 0 (take n ps)) (entry u n (offset_of n) p)
        ≡ (entries u 0 0 (take (n + 1) ps), accepted (offset_of n + length p / 2) (length p / 2) p)
  unfolding offset_of
  taken n p e =
      let f = entry u n (offset_of n) p in
      let fs = entries u 0 0 (take n ps) in
      let l : length (take n ps) ≡ n =
        length-take-le n ps (omega (arith, get_elem?-some n ps p e)) in
      let q : n ≡ length fs = sym (length-entries u 0 0 (take n ps) ∙ l) in
      let o : offset_of n ≡ samples fs = sym (samples-entries u 0 0 (take n ps)) in
      rw (
        extend-next options u fs f refl q o,
        take-suc n ps p e,
        entries-snoc u 0 0 (take n ps) p,
        l,
        samples-entries u 0 0 (take n ps),
        zero_plus n,
        zero_plus (offset_of n),
      )

  left_out :
      (n k : ℕ) (p : List ℕ)
      → n ≤ length ps
      → k ≢ n
      → let next = extend options u (entries u 0 0 (take n ps)) (entry u k (offset_of k) p) in
        (next.0 ≡ entries u 0 0 (take n ps)) × (forwarded next.1 ≡ [])
  left_out n k p b ne =
      elim (extend-cases options u (entries u 0 0 (take n ps)) (entry u k (offset_of k) p)) [
        | inl (same, free, silent) ↦ (same, silent)
        | inr (id, q, o, e) ↦
            absurd (ne (q ∙ (length-entries u 0 0 (take n ps) ∙ length-take-le n ps b)))
      ]

  -- The acceptor has gone on from the first n frames to the first m, and forwarded what lies between.
  abbrev Goes : ℕ → ℕ → Acceptor × List ℕ → Type 0
  Goes n m r =
      (h : ℕ) × (m ≤ length ps)
      × IsStream options (entries u 0 0 (take m ps))
      × (r.0 ≡ after m h)
      × (flat (take m ps) ≡ flat (take n ps) ++ r.1)

  stays :
      (n h : ℕ) (a : Acceptor) (w : List ℕ)
      → n ≤ length ps
      → IsStream options (entries u 0 0 (take n ps))
      → a ≡ after n h
      → w ≡ []
      → Goes n n (a, w)
  stays n h a w b s e f =
      (h, b, s, e, sym (append-nil (flat (take n ps))) ∙ ap (◌++◌ (flat (take n ps))) (sym f))

  moves :
      (n h : ℕ) (p : List ℕ) (r : Acceptor × List ℕ)
      → get_elem? ps n ≡ some p
      → IsStream options (entries u 0 0 (take (n + 1) ps))
      → r ≡ (after (n + 1) h, p)
      → Goes n (n + 1) r
  moves n h p r e s q = (
    h,
    omega (arith, get_elem?-some n ps p e),
    s,
    ap (λ x. x.0) q,
    rw (take-suc n ps p e, flat-snoc (take n ps) p) (ap (λ x. flat (take n ps) ++ x.1) (sym q)),
  )

  received-next :
      (n h : ℕ) (p : List ℕ)
      → IsStream options (entries u 0 0 (take n ps))
      → get_elem? ps n ≡ some p
      → Goes n (n + 1) (receive (after n h) (message n))
  unfolding forwarded
  received-next n h p s e =
      let (h', s', r) = judged n h n p s e in
      let t = taken n p e in
      moves n h' p _ e (subst (λ x. IsStream options x.0) t s')
        (r ∙ ap (λ x. (represents options u x.0 h', forwarded x.1)) t)

  received-other :
      (n h k : ℕ) (p : List ℕ)
      → n ≤ length ps
      → k ≢ n
      → IsStream options (entries u 0 0 (take n ps))
      → get_elem? ps k ≡ some p
      → Goes n n (receive (after n h) (message k))
  received-other n h k p b ne s e =
      let (h', s', r) = judged n h k p s e in
      let (same, silent) = left_out n k p b ne in
      stays n h' _ _ b s (ap (λ x. x.0) r ∙ ap (λ x. represents options u x h') same)
        (ap (λ x. x.1) r ∙ silent)

  received-none :
      (n h k : ℕ)
      → n ≤ length ps
      → IsStream options (entries u 0 0 (take n ps))
      → get_elem? ps k ≡ none
      → Goes n n (receive (after n h) (message k))
  unfolding receive
  received-none n h k b s e =
      rw (get_elem?-frames-none u k 0 0 ps e) (stays n h (after n h) [] b s refl refl)

  received :
      (n h k : ℕ)
      → n ≤ length ps
      → IsStream options (entries u 0 0 (take n ps))
      → Goes n (next_of (length ps) n k) (receive (after n h) (message k))
  unfolding next_of
  received n h k b s = elim (Option-cases (get_elem? ps k)) [
    | inl gone ↦
        let q : next_of (length ps) n k ≡ n = ground (arith, get_elem?-none k ps gone) in
        rw q (received-none n h k b s gone)
    | inr (p, e) ↦ elim (Bool-cases (nat_beq k n)) [
      | inl now ↦
          let same : k ≡ n = (nat_beq_iff k n).0 now in
          let e' = subst (λ i. get_elem? ps i ≡ some p) same e in
          let q : next_of (length ps) n k ≡ n + 1 = ground (arith, get_elem?-some k ps p e) in
          rw (q, same) (received-next n h p s e')
      | inr not_now ↦
          let q : next_of (length ps) n k ≡ n = ground arith in
          let not_same : k ≢ n = ground arith in rw q (received-other n h k p b not_same s e)
    ]
  ]

  pub delivered :
      (ks : List ℕ) (n h : ℕ)
      → n ≤ length ps
      → IsStream options (entries u 0 0 (take n ps))
      → Goes n (advance (length ps) n ks) (deliver (after n h) (frames u 0 0 ps) ks)
  unfolding deliver advance
  delivered [] n h b s = stays n h (after n h) [] b s refl refl
  delivered (k ∷ ks) n h b s =
      let m = next_of (length ps) n k in
      let (h1, b1, s1, e1, f1) = received n h k b s in
      let (h2, b2, s2, e2, f2) = delivered ks m h1 b1 s1 in
      let run = deliver (after m h1) (frames u 0 0 ps) ks in
      rw e1 (
        h2,
        b2,
        s2,
        e2,
        f2
            ∙ (ap (λ x. x ++ run.1) f1
                ∙ append_assoc (flat (take n ps)) (receive (after n h) (message k)).1 run.1),
      )

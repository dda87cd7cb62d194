-- ===== src/Audio/Queue/Capture.antt =====
-- packages/audio/src/client-queue.ts: what a push does to the queue.
use palancar.Base.{
  ℕ, ◌+◌, ◌-◌, ◌/◌, ◌%◌, ◌≤◌, ◌≡◌, refl, sym, ap, ◌∙◌, subst, ◌≢◌, ◌⊎◌, inl, inr, Option, none,
  some, List, [], ◌∷◌, ◌++◌, append_assoc, arith, length, length-append, All-append, text_eq,
}
use palancar.Contracts.Constants.{max_audio_payload_bytes}
use palancar.Audio.Framer.{
  Framer, trailing_bytes, pending_byte_count, FlushResult, complete, incomplete_sample,
}
use palancar.Audio.Framer
use palancar.Audio.Framer.Loops.{flat, AllOf}
use palancar.Audio.Framer.Stream.{held, push_lem, flat-append}
use palancar.Audio.Queue.{
  Queue, Limits, ok, new_samples, exceeded, push_within, captured, push, accepted, overflow,
  LimitName,
}
use palancar.Audio.Slots.{slots}
use palancar.Audio.Queue.Frames.{samples, frames, IsPayload, AllPayloads}
use palancar.Audio.Queue.Invariant.{
  IsQueue, outstanding, limits-small, samples-append, length-le-samples, length-flat,
  encode_payloads-ok,
}

pending_byte_count_lem : (f : Framer) → pending_byte_count f ≡ length (trailing_bytes f.trailing)
unfolding pending_byte_count
pending_byte_count_lem f = ground arith

-- The framer's payloads are payloads of the codec.
AllOf-AllPayloads :
    (n : ℕ) (ps : List (List ℕ))
    → 2 ≤ n
    → n % 2 ≡ 0
    → n ≤ max_audio_payload_bytes
    → AllOf n ps
    → AllPayloads ps
AllOf-AllPayloads n [] a b c h = tt
AllOf-AllPayloads n (p ∷ ps) a b c h = (
  record { nonempty = omega (arith, h.0); even = rw h.0 b; small = omega (arith, h.0) },
  AllOf-AllPayloads n ps a b c h.1,
)

-- Nothing is exceeded just when all three limits hold.
exceeded-none :
    (l : Limits) (in_flight captured : ℕ)
    → exceeded l in_flight captured ≡ []
    → (in_flight ≤ l.max_retained_replay_samples) × (captured ≤ l.max_utterance_samples)
unfolding exceeded
exceeded-none l in_flight captured h = ground arith

module _ (q : Queue) (first : ℕ) (ps : List (List ℕ)) (input : List ℕ)
    (v : IsQueue q first ps) where
  added : List (List ℕ)
  added = (Framer.push q.framer input).1

  added-AllPayloads : AllPayloads added
  unfolding added
  added-AllPayloads =
      let p = push_lem q.framer input v.framer in
      AllOf-AllPayloads q.framer.target_bytes added v.framer.target_positive v.framer.target_even
        (omega (arith, v.framer.target_most, v.payload_cap)) p.1

  -- Every complete sample of the input is counted, in a frame or behind them.
  counted_samples :
      q.next_encoded + samples added + length (Framer.push q.framer input).0.pending / 2
      ≡ q.next_captured + new_samples q input
  unfolding added new_samples
  counted_samples =
      let p = push_lem q.framer input v.framer in
      let f' = (Framer.push q.framer input).0 in
      omega (
        arith,
        ap length p.0,
        length-append (flat added) (held f'),
        length-append f'.pending (trailing_bytes f'.trailing),
        length-append (held q.framer) input,
        length-append q.framer.pending (trailing_bytes q.framer.trailing),
        length-flat added added-AllPayloads,
        pending_byte_count_lem q.framer,
        trailing-le f'.trailing,
        trailing-le q.framer.trailing,
        p.2.pending_even,
        v.framer.pending_even,
        v.captured,
      )
    where
      trailing-le : (o : Option ℕ) → length (trailing_bytes o) ≤ 1
      trailing-le none = omega arith
      trailing-le (some b) = omega arith

  abbrev over : List LimitName
  over =
      exceeded q.limits (q.next_captured - q.highest_acknowledged + new_samples q input)
        (q.next_captured + new_samples q input)

  -- The queue after an accepted push.
  pushed : Queue
  pushed = record q {
    framer = (Framer.push q.framer input).0;
    retained = slots q.head (frames q.utterance_id first q.highest_acknowledged (ps ++ added));
    next_sequence = first + length (ps ++ added);
    next_encoded = q.highest_acknowledged + samples (ps ++ added);
    next_captured = q.next_captured + new_samples q input;
  }

  push-eq :
      over ≡ []
      → push q input
        ≡ (pushed, ok (accepted (frames q.utterance_id q.next_sequence q.next_encoded added)))
  unfolding push pushed added captured push_within
  push-eq h =
      let r = Framer.push q.framer input in
      let e =
        encode_payloads-ok (record q { framer = r.0 }) first ps r.1 v.uuid added-AllPayloads v.slots
          v.sequence v.counted v.encoded
          (omega (
            arith,
            counted_samples,
            exceeded-none q.limits _ _ h,
            limits-small q.limits v.limits,
          )) in
      rw (h, push_within, e)

  pushed-IsQueue : over ≡ [] → IsQueue pushed first (ps ++ added)
  unfolding pushed
  pushed-IsQueue h =
      let p = push_lem q.framer input v.framer in
      let limits = exceeded-none q.limits _ _ h in
      record {
        limits = v.limits;
        uuid = v.uuid;
        framer = p.2;
        payload_cap = rw p.4 v.payload_cap;
        payloads = All-append IsPayload ps added v.payloads added-AllPayloads;
        slots = refl;
        sequence = refl;
        counted = omega (
          arith,
          length-append ps added,
          samples-append ps added,
          v.sequence,
          v.encoded,
          v.counted,
          length-le-samples added added-AllPayloads,
        );
        encoded = refl;
        captured = omega (arith, samples-append ps added, v.encoded, counted_samples);
        utterance = limits.1;
        window = omega (arith, limits.0, v.encoded, v.captured);
      }

  pushed-outstanding : outstanding pushed (ps ++ added) ≡ outstanding q ps ++ input
  unfolding pushed added
  pushed-outstanding =
      let p = push_lem q.framer input v.framer in
      let r = Framer.push q.framer input in
      rw (flat-append ps r.1, append_assoc (flat ps) (flat r.1) (held r.0), p.0)
        (sym (append_assoc (flat ps) (held q.framer) input))

module _ (q : Queue) (first : ℕ) (ps : List (List ℕ)) (input : List ℕ)
    (v : IsQueue q first ps) where
  pushed-captured :
      (pushed q first ps input v).next_captured ≡ q.next_captured + new_samples q input
  unfolding pushed
  pushed-captured = refl

none-or-some : (names : List LimitName) → (names ≡ []) ⊎ (names ≢ [])
none-or-some [] = inl refl
none-or-some (name ∷ names) = inr (λ e. cc)

push_within-refuses :
    (names : List LimitName) (q : Queue) (input : List ℕ) (new : ℕ)
    → names ≢ []
    → push_within names q input new ≡ (q, ok (overflow new names))
unfolding push_within
push_within-refuses [] q input new h = absurd (h refl)
push_within-refuses (name ∷ names) q input new h = refl

-- A push within the limits throws nothing, adds the frames of whole payloads at the end and keeps
-- the rest, so that the outstanding bytes grow by exactly the input; a push beyond them changes
-- nothing and names the limits. The invariant holds after both.
pub push-captures :
    (q : Queue) (first : ℕ) (ps : List (List ℕ)) (input : List ℕ)
    → IsQueue q first ps
    → let r = push q input in
      let names =
        exceeded q.limits
          (q.next_captured - q.highest_acknowledged + new_samples q input)
          (q.next_captured + new_samples q input) in
      ((names ≡ [])
        × ((qs : List (List ℕ)) × (r.1
              ≡ ok (accepted (frames q.utterance_id q.next_sequence q.next_encoded qs)))
            × IsQueue r.0 first (ps ++ qs)
            × (outstanding r.0 (ps ++ qs) ≡ outstanding q ps ++ input)
            × (r.0.next_captured ≡ q.next_captured + new_samples q input)))
      ⊎ ((names ≢ []) × (r ≡ (q, ok (overflow (new_samples q input) names))))
unfolding push
push-captures q first ps input v = elim (none-or-some (over q first ps input v)) [
  | inr names ↦ inr (names, push_within-refuses _ q input _ names)
  | inl none_over ↦
      let e = push-eq q first ps input v none_over in
      inl (
        none_over,
        (
          added q first ps input v,
          ap (λ r. r.1) e,
          subst (λ r. IsQueue r first (ps ++ added q first ps input v)) (sym (ap (λ r. r.0) e))
              (pushed-IsQueue q first ps input v none_over),
          ap (λ r. outstanding r.0 (ps ++ added q first ps input v)) e
              ∙ pushed-outstanding q first ps input v,
          ap (λ r. r.0.next_captured) e ∙ pushed-captured q first ps input v,
        ),
      )
]

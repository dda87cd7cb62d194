-- ===== src/Audio/Queue/Flushing.antt =====
-- packages/audio/src/client-queue.ts: what a flush does to the queue.
use palancar.Base.{
  ℕ, ◌+◌, ◌/◌, ◌%◌, ◌≤◌, ◌≡◌, refl, Option, none, some, List, [], ◌∷◌, ◌++◌, append_assoc,
  append-nil, arith, length, length-append, All-append,
}
use palancar.Contracts.Constants.{max_audio_payload_bytes}
use palancar.Audio.Framer.{Framer, trailing_bytes}
use palancar.Audio.Framer
use palancar.Audio.Framer.Loops.{flat}
use palancar.Audio.Framer.Stream.{IsFramer, flat-append}
use palancar.Audio.Queue.{
  Queue, ok, Frame, QueueFlushResult, flushed, flushed_incomplete, flush, flush_frames,
  flush_outcome,
}
use palancar.Audio.Slots.{slots}
use palancar.Audio.Queue.Frames.{samples, frames, IsPayload, AllPayloads}
use palancar.Audio.Queue.Invariant.{
  IsQueue, outstanding, limits-small, samples-append, length-le-samples, encode_payloads-ok,
}

-- The whole samples that wait, as one payload, if there are any.
abbrev pub waiting : List ℕ → List (List ℕ)
waiting [] = []
waiting (b ∷ bs) = (b ∷ bs) ∷ []

abbrev pub drained : Framer → Framer
drained f = record f { pending = []; trailing = none }

-- An odd byte that was left over is reported.
abbrev pub report : Option ℕ → List Frame → QueueFlushResult
report none fs = flushed fs
report (some b) fs = flushed_incomplete fs b

flat-waiting : (p : List ℕ) → flat (waiting p) ≡ p
unfolding flat
flat-waiting [] = refl
flat-waiting (b ∷ bs) = append-nil (b ∷ bs)

samples-waiting : (p : List ℕ) → samples (waiting p) ≡ length p / 2
unfolding samples
samples-waiting [] = refl
samples-waiting (b ∷ bs) = omega arith

waiting-AllPayloads :
    (f : Framer)
    → IsFramer f
    → f.max_payload_bytes ≤ max_audio_payload_bytes
    → AllPayloads (waiting f.pending)
waiting-AllPayloads f v small =
    go f.pending v.pending_even (omega (arith, v.pending_less, v.target_most))
  where
    go :
        (p : List ℕ)
        → length p % 2 ≡ 0
        → length p ≤ max_audio_payload_bytes
        → AllPayloads (waiting p)
    go [] e s = tt
    go (b ∷ bs) e s = (record { nonempty = omega arith; even = e; small = s }, tt)

drain-eq :
    (f : Framer) → Framer.drain_complete_samples f ≡ (record f { pending = [] }, waiting f.pending)
unfolding Framer.drain_complete_samples
drain-eq f = ground arith

flush-eq :
    (f : Framer)
    → (flush_frames (Framer.flush f).1 ≡ waiting f.pending)
      × ((Framer.flush f).0 ≡ drained f)
      × ((fs : List Frame) → flush_outcome (Framer.flush f).1 (ok fs) ≡ ok (report f.trailing fs))
unfolding Framer.flush flush_frames flush_outcome
flush-eq f = let d = drain-eq f in (ground (arith, d), rw d refl, λ fs. ground (arith, d))

module _ (q : Queue) (first : ℕ) (ps : List (List ℕ)) (v : IsQueue q first ps) where
  emptied : Queue
  emptied = record q {
    framer = drained q.framer;
    retained =
        slots q.head
          (frames q.utterance_id first q.highest_acknowledged (ps ++ waiting q.framer.pending));
    next_sequence = first + length (ps ++ waiting q.framer.pending);
    next_encoded = q.highest_acknowledged + samples (ps ++ waiting q.framer.pending);
  }

  emptied-IsQueue : IsQueue emptied first (ps ++ waiting q.framer.pending)
  unfolding emptied
  emptied-IsQueue =
      let w = waiting-AllPayloads q.framer v.framer v.payload_cap in
      record {
        limits = v.limits;
        uuid = v.uuid;
        framer = record {
          target_even = v.framer.target_even;
          target_positive = v.framer.target_positive;
          target_most = v.framer.target_most;
          pending_even = refl;
          pending_less = omega (arith, v.framer.target_positive);
        };
        payload_cap = v.payload_cap;
        payloads = All-append IsPayload ps (waiting q.framer.pending) v.payloads w;
        slots = refl;
        sequence = refl;
        counted = omega (
          arith,
          length-append ps (waiting q.framer.pending),
          samples-append ps (waiting q.framer.pending),
          v.sequence,
          v.encoded,
          v.counted,
          length-le-samples (waiting q.framer.pending) w,
        );
        encoded = refl;
        captured = omega (
          arith,
          samples-append ps (waiting q.framer.pending),
          samples-waiting q.framer.pending,
          v.encoded,
          v.captured,
        );
        utterance = v.utterance;
        window = v.window;
      }

  flush-emptied : flush q ≡ (
    emptied,
    ok (
        report q.framer.trailing
          (frames q.utterance_id q.next_sequence q.next_encoded (waiting q.framer.pending))),
  )
  unfolding flush emptied
  flush-emptied =
      let w = waiting-AllPayloads q.framer v.framer v.payload_cap in
      let (a, b, c) = flush-eq q.framer in
      let e =
        encode_payloads-ok (record q { framer = drained q.framer }) first ps
          (waiting q.framer.pending) v.uuid w v.slots v.sequence v.counted v.encoded
          (omega (
            arith,
            samples-waiting q.framer.pending,
            v.captured,
            v.utterance,
            limits-small q.limits v.limits,
          )) in
      rw (a, b, e, c) refl

-- In the invariant, a flush throws nothing: it adds the whole samples that wait as one frame, drops an
-- odd byte and reports it, and the invariant holds after it. The bytes that are outstanding then, with
-- the odd byte, are those that were.
pub flush-captures :
    (q : Queue) (first : ℕ) (ps : List (List ℕ))
    → IsQueue q first ps
    → let qs = waiting q.framer.pending in
      ((flush q).1
        ≡ ok (report q.framer.trailing (frames q.utterance_id q.next_sequence q.next_encoded qs)))
      × IsQueue (flush q).0 first (ps ++ qs)
      × (outstanding (flush q).0 (ps ++ qs) ++ trailing_bytes q.framer.trailing ≡ outstanding q ps)
      × ((flush q).0.framer ≡ drained q.framer)
unfolding emptied
flush-captures q first ps v =
    let p = q.framer.pending in
    let t = trailing_bytes q.framer.trailing in
    let out : (flat (ps ++ waiting p) ++ []) ++ t ≡ outstanding q ps =
      rw (append-nil (flat (ps ++ waiting p)), flat-append ps (waiting p), flat-waiting p)
        (append_assoc (flat ps) p t) in
    rw (flush-emptied q first ps v) (refl, emptied-IsQueue q first ps v, out, refl)

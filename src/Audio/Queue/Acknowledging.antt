-- ===== src/Audio/Queue/Acknowledging.antt =====
-- What an acknowledgement releases from the client's queue.
use palancar.Base.{
  ℕ, zero, suc, ◌+◌, ◌-◌, ◌/◌, ◌≤◌, ◌≡◌, refl, sym, ap, ◌∙◌, subst, ◌≢◌, ◌⊎◌, inl, inr, ◌||◌, some,
  List, [], ◌∷◌, ◌++◌, map, append_assoc, arith, ltb, leb, nat_beq, Bool-cases, Option-cases,
  length, get_elem?, take, drop, take-append-drop, length-take, length-drop, All-split, Text,
  text_eq, nat,
}
use palancar.Audio.Framer.Loops.{flat}
use palancar.Audio.Framer.Stream.{held, flat-append}
use palancar.Audio.Queue.{Queue, Frame, frame_of, applied}
use palancar.Audio.Queue.Replay.{
  seek, release, acknowledge, acknowledge_at, release_through, compact_retained,
}
use palancar.Audio.Slots.{slots, slot_at, length-slots, slot_at-slots, drop-slots}
use palancar.Audio.Queue.Slots.{leading, seek_lem, release_lem}
use palancar.Audio.Queue.Frames.{
  samples, framed, frames, length-frames, frames-drop, IsPayload, AllPayloads,
}
use palancar.Audio.Queue.Invariant.{IsQueue, outstanding, samples-append}
use palancar.Audio.Queue.Replay.{ended_before, ends_at}

-- The frame at a position, and the payload that it encodes.
frame_at :
    (u : Text) (s o k : ℕ) (ps : List (List ℕ)) (f : Frame)
    → get_elem? (frames u s o ps) k ≡ some f
    → (f.end_offset ≡ o + samples (take (suc k) ps)) × (suc k ≤ length ps)
unfolding frames samples framed frame_of
frame_at u s o k [] f h = cc
frame_at u s o zero (p ∷ ps) f h = ground (arith, samples-none ps)
  where
    samples-none : (ps : List (List ℕ)) → samples (take 0 ps) ≡ 0
    samples-none ps = refl
frame_at u s o (suc k) (p ∷ ps) f h = omega (arith, frame_at u (s + 1) (o + length p / 2) k ps f h)

-- The loop stops at the frame that ends where the acknowledged payloads do.
leading-ended :
    (n : ℕ) (u : Text) (s o : ℕ) (xs : List (List ℕ)) (p : List ℕ) (ys : List (List ℕ))
    → AllPayloads xs
    → 2 ≤ length p
    → n ≡ o + samples xs + length p / 2
    → leading (ended_before n) (frames u s o (xs ++ p ∷ ys)) ≡ length xs
unfolding leading frames samples framed frame_of ended_before
leading-ended n u s o [] p ys h w e = ground arith
leading-ended n u s o (x ∷ xs) p ys h w e =
    ground (arith, leading-ended n u (s + 1) (o + length x / 2) xs p ys h.1 w (omega arith), h.0)

samples-take-drop :
    (k : ℕ) (ps : List (List ℕ)) → samples (take k ps) + samples (drop k ps) ≡ samples ps
samples-take-drop k ps =
    sym (samples-append (take k ps) (drop k ps)) ∙ ap samples (take-append-drop k ps)

drop-AllPayloads : (k : ℕ) (ps : List (List ℕ)) → AllPayloads ps → AllPayloads (drop k ps)
drop-AllPayloads zero ps h = h
drop-AllPayloads (suc k) [] h = tt
drop-AllPayloads (suc k) (p ∷ ps) h = drop-AllPayloads k ps h.1

no_frames : (fs : List Frame) → length fs ≡ 0 → fs ≡ []
no_frames [] h = refl
no_frames (f ∷ fs) h = absurd (omega arith)

compact-slots :
    (q : Queue) (fs : List Frame)
    → q.retained ≡ slots q.head fs
    → (compact_retained q).retained ≡ slots (compact_retained q).head fs
unfolding compact_retained
compact-slots q fs h =
    let zero_off : q.head + 0 ≡ q.head = omega arith in
    let dropped : drop q.head (slots q.head fs) ≡ map some fs =
      subst (λ k. drop k (slots q.head fs) ≡ map some fs) zero_off (drop-slots q.head 0 fs) in
    ground (arith, dropped, no_frames fs, length-slots q.head fs, ap length h, ap (drop q.head) h)

-- Compacting drops empty slots only.
compact-IsQueue :
    (q : Queue) (first : ℕ) (ps : List (List ℕ))
    → IsQueue q first ps
    → IsQueue (compact_retained q) first ps
      × ((compact_retained q).highest_acknowledged ≡ q.highest_acknowledged)
      × ((compact_retained q).framer ≡ q.framer)
unfolding compact_retained
compact-IsQueue q first ps v =
    ground
      (arith, v, compact-slots q (frames q.utterance_id first q.highest_acknowledged ps) v.slots)

module _ (q : Queue) (first : ℕ) (ps : List (List ℕ)) (v : IsQueue q first ps) (n k : ℕ) where
  -- The queue after the first `k + 1` frames are released, before compaction.
  released : Queue
  released = record q {
    retained = release (q.head + k - q.head + 1) q.head q.retained;
    head = q.head + k + 1;
    highest_acknowledged = n;
  }

  released-slots :
      suc k ≤ length ps
      → n ≡ q.highest_acknowledged + samples (take (suc k) ps)
      → release (q.head + k - q.head + 1) q.head q.retained
        ≡ slots
            (q.head + k + 1)
            (frames q.utterance_id (first + length (take (suc k) ps)) n (drop (suc k) ps))
  released-slots h e =
      let F = frames q.utterance_id first q.highest_acknowledged ps in
      let rounds : q.head + k - q.head + 1 ≡ suc k = omega arith in
      let place : q.head + k + 1 ≡ q.head + suc k = omega arith in
      ap (release (q.head + k - q.head + 1) q.head) v.slots
      ∙ (rw (rounds, place, e, ← frames-drop q.utterance_id (suc k) first q.highest_acknowledged ps)
          (release_lem (suc k) q.head F
            (omega (arith, length-frames q.utterance_id first q.highest_acknowledged ps))))

  released-IsQueue :
      suc k ≤ length ps
      → n ≡ q.highest_acknowledged + samples (take (suc k) ps)
      → IsQueue released (first + length (take (suc k) ps)) (drop (suc k) ps)
  unfolding released
  released-IsQueue h e = record {
    limits = v.limits;
    uuid = v.uuid;
    framer = v.framer;
    payload_cap = v.payload_cap;
    payloads = drop-AllPayloads (suc k) ps v.payloads;
    slots = released-slots h e;
    sequence = omega (arith, v.sequence, length-take (suc k) ps, length-drop (suc k) ps);
    counted = v.counted;
    encoded = omega (arith, v.encoded, samples-take-drop (suc k) ps, e);
    captured = v.captured;
    utterance = v.utterance;
    window = omega (arith, v.window, e);
  }

module _ (q : Queue) (first : ℕ) (ps : List (List ℕ)) (v : IsQueue q first ps) (n : ℕ) where
  live : List Frame
  live = frames q.utterance_id first q.highest_acknowledged ps

  stop : ℕ
  unfolding live
  stop = leading (ended_before n) live

  seek-stop : seek (length q.retained) (ended_before n) q.retained q.head ≡ q.head + stop
  unfolding stop live ended_before
  seek-stop =
      subst (λ r. seek (length r) (ended_before n) r q.head ≡ q.head + stop) (sym v.slots)
        (seek_lem (ended_before n) (length (slots q.head live)) q.head live refl
          (omega (arith, length-slots q.head live)))

  slot-stop : slot_at q.retained (q.head + stop) ≡ get_elem? live stop
  unfolding live
  slot-stop =
      subst (λ r. slot_at r (q.head + stop) ≡ get_elem? live stop) (sym v.slots)
        (slot_at-slots q.head live stop)

  -- What the call does, by the state of the queue.
  acknowledge-cases :
      let r = acknowledge q (nat n) in
      ((f : Frame) × (get_elem? live stop ≡ some f)
        × (f.end_offset ≡ n)
        × (r ≡ release_through q (q.head + stop) n))
      ⊎ ((r.0 ≡ q) × ((m j : ℕ) → r.1 ≢ applied m j))
  unfolding acknowledge acknowledge_at ends_at
  acknowledge-cases = elim (Option-cases (get_elem? live stop)) [
    | inl none_there ↦
        inr (ground (arith, seek-stop, slot-stop), λ m j e. ground (arith, seek-stop, slot-stop))
    | inr (f, there) ↦ elim (Bool-cases (nat_beq f.end_offset n)) [
      | inr differs ↦
          inr (ground (arith, seek-stop, slot-stop), λ m j e. ground (arith, seek-stop, slot-stop))
      | inl meets ↦
          elim (Bool-cases
            (leb n q.highest_acknowledged || (ltb q.next_captured n || ltb q.next_encoded n))) [
              | inl refused ↦ inr (
                ground (arith, seek-stop, slot-stop),
                λ m j e. ground (arith, seek-stop, slot-stop),
              )
              | inr fine ↦ inl (f, there, ground arith, ground (arith, seek-stop, slot-stop))
            ]
    ]
  ]

  release_through-eq :
      release_through q (q.head + stop) n
      ≡ (compact_retained (released q first ps v n stop), applied n (suc stop))
  unfolding release_through released
  release_through-eq = let e : q.head + stop - q.head + 1 ≡ suc stop = omega arith in ground arith

flat-take-drop :
    (k : ℕ) (ps : List (List ℕ)) (rest : List ℕ)
    → flat (take k ps) ++ (flat (drop k ps) ++ rest) ≡ flat ps ++ rest
flat-take-drop k ps rest =
    sym (append_assoc (flat (take k ps)) (flat (drop k ps)) rest)
    ∙ ap (λ xs. xs ++ rest)
        (sym (flat-append (take k ps) (drop k ps)) ∙ ap flat (take-append-drop k ps))

module _ (q : Queue) (first : ℕ) (ps : List (List ℕ)) (v : IsQueue q first ps) (n : ℕ) where
  applied_result :
      (f : Frame)
      → get_elem? (live q first ps v n) (stop q first ps v n) ≡ some f
      → f.end_offset ≡ n
      → acknowledge q (nat n) ≡ (
        compact_retained (released q first ps v n (stop q first ps v n)),
        applied n (suc (stop q first ps v n)),
      )
      → let r = acknowledge q (nat n) in
        (k : ℕ) × (r.1 ≡ applied n k)
        × (1 ≤ k)
        × (k ≤ length ps)
        × (n ≡ q.highest_acknowledged + samples (take k ps))
        × (r.0.highest_acknowledged ≡ n)
        × IsQueue r.0 (first + length (take k ps)) (drop k ps)
        × (flat (take k ps) ++ outstanding r.0 (drop k ps) ≡ outstanding q ps)
  unfolding live released
  applied_result f there meets e =
      let s = stop q first ps v n in
      let at = frame_at q.utterance_id first q.highest_acknowledged s ps f there in
      let ends : n ≡ q.highest_acknowledged + samples (take (suc s) ps) = sym meets ∙ at.0 in
      let left = released-IsQueue q first ps v n s at.1 ends in
      let c = compact-IsQueue (released q first ps v n s) _ (drop (suc s) ps) left in
      rw e (
        suc s,
        refl,
        omega arith,
        at.1,
        ends,
        c.1,
        c.0,
        rw c.2 (flat-take-drop (suc s) ps (held q.framer)),
      )

-- An acknowledgement is applied only at the end of a frame that is held. It then releases that
-- frame and those before it, and nothing else: the bytes of the released frames and the bytes
-- still outstanding are the bytes that were outstanding. Otherwise the queue does not change.
pub acknowledge-releases :
    (q : Queue) (first : ℕ) (ps : List (List ℕ)) (n : ℕ)
    → IsQueue q first ps
    → let r = acknowledge q (nat n) in
      ((k : ℕ) × (r.1 ≡ applied n k)
        × (1 ≤ k)
        × (k ≤ length ps)
        × (n ≡ q.highest_acknowledged + samples (take k ps))
        × (r.0.highest_acknowledged ≡ n)
        × IsQueue r.0 (first + length (take k ps)) (drop k ps)
        × (flat (take k ps) ++ outstanding r.0 (drop k ps) ≡ outstanding q ps))
      ⊎ ((r.0 ≡ q) × ((m j : ℕ) → r.1 ≢ applied m j))
acknowledge-releases q first ps n v = elim (acknowledge-cases q first ps v n) [
  | inr kept ↦ inr kept
  | inl (f, there, meets, done) ↦
      inl (applied_result q first ps v n f there meets (done ∙ release_through-eq q first ps v n))
]

frame_after :
    (u : Text) (s o : ℕ) (xs : List (List ℕ)) (p : List ℕ) (ys : List (List ℕ))
    → get_elem? (frames u s o (xs ++ p ∷ ys)) (length xs)
      ≡ some (framed u (s + length xs) (o + samples xs) p)
unfolding frames samples
frame_after u s o [] p ys =
    let a : s + 0 ≡ s = omega arith in let b : o + 0 ≡ o = omega arith in rw (a, b)
frame_after u s o (x ∷ xs) p ys =
    let a : s + suc (length xs) ≡ s + 1 + length xs = omega arith in
    let b : o + (length x / 2 + samples xs) ≡ o + length x / 2 + samples xs = omega arith in
    rw (a, b) (frame_after u (s + 1) (o + length x / 2) xs p ys)

framed-end : (u : Text) (s o : ℕ) (p : List ℕ) → (framed u s o p).end_offset ≡ o + length p / 2
unfolding framed frame_of
framed-end u s o p = refl

-- In the invariant, an acknowledgement at the end of any frame that is held is applied, and it counts
-- that frame and those before it.
pub acknowledge-boundary :
    (q : Queue) (first : ℕ) (xs : List (List ℕ)) (p : List ℕ) (ys : List (List ℕ))
    → IsQueue q first (xs ++ p ∷ ys)
    → let n = q.highest_acknowledged + samples xs + length p / 2 in
      (acknowledge q (nat n)).1 ≡ applied n (suc (length xs))
unfolding acknowledge acknowledge_at ends_at release_through stop live samples
acknowledge-boundary q first xs p ys v =
    let n : ℕ = q.highest_acknowledged + samples xs + length p / 2 in
    let ps = xs ++ p ∷ ys in
    let parts = All-split IsPayload xs (p ∷ ys) v.payloads in
    let at = frame_after q.utterance_id first q.highest_acknowledged xs p ys in
    let l =
      leading-ended n q.utterance_id first q.highest_acknowledged xs p ys parts.0 parts.1.0.nonempty
        refl in
    let placed : slot_at q.retained (q.head + length xs)
        ≡ some (framed q.utterance_id (first + length xs) (q.highest_acknowledged + samples xs) p) =
      subst (λ k. slot_at q.retained (q.head + k) ≡ get_elem? (live q first ps v n) k) l
        (slot-stop q first ps v n)
      ∙ at in
    let sought : seek (length q.retained) (ended_before n) q.retained q.head ≡ q.head + length xs =
      seek-stop q first ps v n ∙ ap (λ k. q.head + k) l in
    let rounds : q.head + length xs - q.head + 1 ≡ suc (length xs) = omega arith in
    ground (
      arith,
      placed,
      sought,
      rounds,
      parts.1.0,
      v.encoded,
      v.captured,
      samples-append xs (p ∷ ys),
      framed-end q.utterance_id (first + length xs) (q.highest_acknowledged + samples xs) p,
    )

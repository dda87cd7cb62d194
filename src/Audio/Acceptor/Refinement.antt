-- ===== src/Audio/Acceptor/Refinement.antt =====
-- packages/audio/src/relay.ts: `accept` implements the stream of accepted frames, on every branch.
use palancar.Base.{
  ℕ, ◌+◌, ◌*◌, ◌/◌, ◌%◌, ◌≤◌, ◌≡◌, refl, sym, ap, subst, ◌⊎◌, inl, inr, true, Option, none, some,
  List, [], ◌∷◌, ◌++◌, arith, Bool-cases, length, All, All-append, Text, text_beq, text_beq_iff,
  text_eq, Value, map_get, nat_eq,
}
use palancar.Audio.Acceptor.{
  Options, ValidatedFrame, Candidate, Acceptance, accepted, duplicate, rejected, Rejection,
  Validation, valid, refused, validate_frame, reject, repeated, place, judge, accept,
}
use palancar.Audio.Acceptor.Specification.{
  samples, answer_beside, answer_repeated, is_next, extend, respond, represents,
}
use palancar.Audio.Acceptor.{
  read_frame, check_limits, well_formed, declared_payload, uuid_text, integer_within,
}
use palancar.Contracts.AudioFrame.{uint32_max}
use palancar.Audio.Acceptor.Stream.{IsRun, IsRun-snoc, samples-snoc, fingerprint_lem, admit_lem}

represented-repeated :
    (options : Options) (u : Text) (fs : List ValidatedFrame) (h : ℕ) (f : ValidatedFrame)
    → IsRun 0 0 fs
    → repeated
        (represents options u fs h)
        (map_get (represents options u fs h).fingerprints_by_sequence f.sequence)
        f
      ≡ (represents options u fs h, answer_repeated options fs f)
unfolding repeated answer_repeated answer_beside represents
represented-repeated options u fs h f r =
    ground (arith, fingerprint_lem options.max_retained_replay_samples fs f.sequence r)

is_next-eq :
    (fs : List ValidatedFrame) (f : ValidatedFrame)
    → is_next fs f ≡ true
    → (f.sequence ≡ length fs) × (f.offset ≡ samples fs)
unfolding is_next
is_next-eq fs f h = ground arith

represented-place :
    (options : Options) (u : Text) (fs : List ValidatedFrame) (h : ℕ) (f : ValidatedFrame)
    → IsRun 0 0 fs
    → (h' : ℕ) × (place (represents options u fs h) f
        ≡ (represents options u (extend options u fs f).0 h', (extend options u fs f).1))
unfolding place extend is_next reject represents
represented-place options u fs h f r = elim (Bool-cases (text_beq f.utterance_id u)) [
  | inr wrong ↦ (h, rw wrong)
  | inl same ↦ elim (Bool-cases (is_next fs f)) [
    | inr not_next ↦ (h, ground (arith, same, not_next, represented-repeated options u fs h f r))
    | inl next ↦
        let (q, o) = is_next-eq fs f next in
        let (h', e) = admit_lem options u fs h f r q in (h', ground (arith, same, next, e, q, o))
  ]
]

represented-reject :
    (options : Options) (u : Text) (fs : List ValidatedFrame) (h : ℕ) (reason : Rejection)
    → reject (represents options u fs h) reason
      ≡ (represents options u fs h, rejected reason (samples fs))
unfolding reject represents
represented-reject options u fs h reason = refl

represented-judge :
    (options : Options) (u : Text) (fs : List ValidatedFrame) (h : ℕ) (v : Validation)
    → IsRun 0 0 fs
    → (h' : ℕ) × (judge (represents options u fs h) v
        ≡ (represents options u (respond options u fs v).0 h', (respond options u fs v).1))
unfolding judge respond
represented-judge options u fs h (valid f) r = represented-place options u fs h f r
represented-judge options u fs h (refused reason) r = (h, represented-reject options u fs h reason)

-- What holds of the frames accepted in an utterance: they are consecutive from zero on, they stay in
-- the utterance, and every one of them holds a sample at least, of two bytes each.
pub record IsStream (options : Options) (fs : List ValidatedFrame) : Type 0 where
  pub run : IsRun 0 0 fs
  pub within : samples fs ≤ options.max_utterance_samples
  pub whole : All (λ f. (1 ≤ f.sample_count) × (length f.payload ≡ f.sample_count * 2)) fs

declared-even :
    (payload : Option (List ℕ)) (declared : Value) (p : List ℕ)
    → declared_payload payload declared ≡ some p
    → (2 ≤ length p) × (length p % 2 ≡ 0)
unfolding declared_payload
declared-even none declared p h = cc
declared-even (some q) declared p h = ground arith

well_formed-payload :
    (id : Option Text) (s o : Option ℕ) (p : Option (List ℕ)) (f : ValidatedFrame)
    → well_formed id s o p ≡ some f
    → (p ≡ some f.payload) × (f.sample_count ≡ length f.payload / 2)
unfolding well_formed
well_formed-payload id s o p f h = ground arith

read_frame-whole :
    (c : Candidate) (f : ValidatedFrame)
    → read_frame c ≡ some f
    → (2 ≤ length f.payload) × (length f.payload % 2 ≡ 0) × (f.sample_count ≡ length f.payload / 2)
unfolding read_frame
read_frame-whole c f h =
    let (p, n) =
      well_formed-payload (uuid_text c.utterance_id) (integer_within 0 uint32_max c.sequence)
        (integer_within 0 uint32_max c.offset) (declared_payload c.payload c.payload_length) f
        (ground arith) in
    let (two, even) = declared-even c.payload c.payload_length f.payload p in (two, even, n)

-- A frame whose form and limits are in order.
pub record IsValid (options : Options) (f : ValidatedFrame) : Type 0 where
  pub positive : 1 ≤ f.sample_count
  pub counted : length f.payload ≡ f.sample_count * 2
  pub small : length f.payload ≤ options.max_audio_payload_bytes
  pub within : f.offset + f.sample_count ≤ options.max_utterance_samples

check_limits-valid :
    (options : Options) (o : Option ValidatedFrame) (f : ValidatedFrame)
    → check_limits options o ≡ valid f
    → (o ≡ some f)
      × ((length f.payload ≤ options.max_audio_payload_bytes)
          × (f.offset + f.sample_count ≤ options.max_utterance_samples))
unfolding check_limits
check_limits-valid options none f h = cc
check_limits-valid options (some g) f h = ground arith

pub validate_frame-IsValid :
    (options : Options) (frame : Option Candidate) (f : ValidatedFrame)
    → validate_frame options frame ≡ valid f
    → IsValid options f
unfolding validate_frame
validate_frame-IsValid options none f h = cc
validate_frame-IsValid options (some c) f h =
    let (g, q) = check_limits-valid options (read_frame c) f h in
    let (two, even, n) = read_frame-whole c f g in
    record { positive = omega arith; counted = omega arith; small = q.0; within = q.1 }

-- `chargeSamples` and `forwardPayload`; nothing is forwarded unless a frame is accepted.
unfoldable pub charge : Acceptance → ℕ
charge (accepted offset n payload) = n
charge (duplicate offset) = 0
charge (rejected reason offset) = 0

unfoldable pub forwarded : Acceptance → List ℕ
forwarded (accepted offset n payload) = payload
forwarded (duplicate offset) = []
forwarded (rejected reason offset) = []

pub extend-next :
    (options : Options) (u : Text) (fs : List ValidatedFrame) (f : ValidatedFrame)
    → f.utterance_id ≡ u
    → f.sequence ≡ length fs
    → f.offset ≡ samples fs
    → extend options u fs f
      ≡ (fs ++ f ∷ [], accepted (samples fs + f.sample_count) f.sample_count f.payload)
unfolding extend is_next
extend-next options u fs f id q o = ground (arith, (text_beq_iff f.utterance_id u).1 id, q, o)

answer_repeated-quiet :
    (options : Options) (fs : List ValidatedFrame) (f : ValidatedFrame)
    → (charge (answer_repeated options fs f) ≡ 0) × (forwarded (answer_repeated options fs f) ≡ [])
unfolding answer_repeated answer_beside charge forwarded
answer_repeated-quiet options fs f = ground arith

pub extend-cases :
    (options : Options) (u : Text) (fs : List ValidatedFrame) (f : ValidatedFrame)
    → let next = extend options u fs f in
      ((next.0 ≡ fs) × (charge next.1 ≡ 0) × (forwarded next.1 ≡ []))
      ⊎ ((f.utterance_id ≡ u)
          × (f.sequence ≡ length fs)
          × (f.offset ≡ samples fs)
          × (next
              ≡ (fs ++ f ∷ [], accepted (samples fs + f.sample_count) f.sample_count f.payload)))
unfolding extend charge forwarded
extend-cases options u fs f = elim (Bool-cases (text_beq f.utterance_id u)) [
  | inr wrong ↦ inl (rw wrong, rw wrong, rw wrong)
  | inl same ↦ elim (Bool-cases (is_next fs f)) [
    | inl next ↦
        let (q, o) = is_next-eq fs f next in
        let id = (text_beq_iff f.utterance_id u).0 same in
        inr (id, q, o, ground (arith, same, next, q))
    | inr not_next ↦
        let (c, w) = answer_repeated-quiet options fs f in
        inl (
          ground (arith, same, not_next),
          ground (arith, same, not_next, c),
          ground (arith, same, not_next, w),
        )
  ]
]

extend-IsStream :
    (options : Options) (u : Text) (fs : List ValidatedFrame) (f : ValidatedFrame)
    → IsStream options fs
    → IsValid options f
    → IsStream options (extend options u fs f).0
extend-IsStream options u fs f s v = elim (extend-cases options u fs f) [
  | inl (same, free, silent) ↦ subst (IsStream options) (sym same) s
  | inr (id, q, o, e) ↦ subst (IsStream options) (sym (ap (λ x. x.0) e)) (record {
    run = IsRun-snoc 0 0 fs f s.run (omega (arith, q)) (omega (arith, o));
    within = omega (arith, v.within, o, samples-snoc fs f);
    whole = All-append _ fs (f ∷ []) s.whole ((v.positive, v.counted), tt);
  })
]

respond-IsStream :
    (options : Options) (u : Text) (fs : List ValidatedFrame) (v : Validation)
    → IsStream options fs
    → ((f : ValidatedFrame) → v ≡ valid f → IsValid options f)
    → IsStream options (respond options u fs v).0
unfolding respond
respond-IsStream options u fs (refused reason) s v = s
respond-IsStream options u fs (valid f) s v = extend-IsStream options u fs f s (v f refl)

-- `accept` of an acceptor that represents a stream answers as the stream does, whatever the frame
-- is, and then represents the stream that follows, which is one again.
pub accept-represents :
    (options : Options) (u : Text) (fs : List ValidatedFrame) (h : ℕ) (frame : Option Candidate)
    → IsStream options fs
    → let next = respond options u fs (validate_frame options frame) in
      IsStream options next.0
      × ((h' : ℕ) × (accept (represents options u fs h) frame
            ≡ (represents options u next.0 h', next.1)))
unfolding accept represents
accept-represents options u fs h frame s = (
  respond-IsStream options u fs (validate_frame options frame) s
      (validate_frame-IsValid options frame),
  represented-judge options u fs h (validate_frame options frame) s.run,
)

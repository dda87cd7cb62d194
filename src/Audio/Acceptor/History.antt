-- ===== src/Audio/Acceptor/History.antt =====
-- packages/audio/src/relay.ts: an acceptor over any sequence of frames.
use palancar.Base.{
  ℕ, ◌+◌, ◌*◌, ◌≤◌, ◌≡◌, refl, sym, ap, ◌∙◌, subst, inl, inr, true, Option, List, [], ◌∷◌, ◌++◌,
  append-nil, append_assoc, arith, length, length-append, All, Text, text_eq, nat_eq,
}
use palancar.Contracts.Uuid.{is_uuid}
use palancar.Audio.Acceptor.{
  GivenOptions, Options, Acceptor, ValidatedFrame, Candidate, Acceptance, ok, Validation, valid,
  refused, validate_frame, accept, create, fresh, assert_options,
}
use palancar.Audio.Acceptor.Specification.{samples, recent, respond, represents}
use palancar.Audio.Acceptor.Stream.{IsRun, samples-snoc}
use palancar.Audio.Acceptor.Refinement.{
  IsStream, charge, forwarded, extend-cases, accept-represents,
}

-- An acceptor is given frames one after the other.
unfoldable pub accept_all : Acceptor → List (Option Candidate) → Acceptor × List Acceptance
accept_all a [] = (a, [])
accept_all a (frame ∷ frames) =
    let first = accept a frame in let rest = accept_all first.0 frames in (rest.0, first.1 ∷ rest.1)

unfoldable pub charges : List Acceptance → ℕ
charges [] = 0
charges (r ∷ rs) = charge r + charges rs

-- All payload bytes that are forwarded, in order.
unfoldable pub forwarded_bytes : List Acceptance → List ℕ
forwarded_bytes [] = []
forwarded_bytes (r ∷ rs) = forwarded r ++ forwarded_bytes rs

unfoldable pub payload_bytes : List ValidatedFrame → List ℕ
payload_bytes [] = []
payload_bytes (f ∷ fs) = f.payload ++ payload_bytes fs

pub payload_bytes-append :
    (fs gs : List ValidatedFrame) → payload_bytes (fs ++ gs) ≡ payload_bytes fs ++ payload_bytes gs
unfolding payload_bytes
payload_bytes-append [] gs = refl
payload_bytes-append (f ∷ fs) gs =
    rw (payload_bytes-append fs gs)
      (sym (append_assoc f.payload (payload_bytes fs) (payload_bytes gs)))

payload_bytes-snoc :
    (fs : List ValidatedFrame) (f : ValidatedFrame)
    → payload_bytes (fs ++ f ∷ []) ≡ payload_bytes fs ++ f.payload
unfolding payload_bytes
payload_bytes-snoc fs f =
    payload_bytes-append fs (f ∷ []) ∙ ap (◌++◌ (payload_bytes fs)) (append-nil f.payload)

-- One answer charges and forwards what the stream grows by.
respond-grows :
    (options : Options) (u : Text) (fs : List ValidatedFrame) (v : Validation)
    → let next = respond options u fs v in
      (samples next.0 ≡ samples fs + charge next.1)
      × (payload_bytes next.0 ≡ payload_bytes fs ++ forwarded next.1)
unfolding respond charge forwarded
respond-grows options u fs (refused reason) = (omega arith, sym (append-nil (payload_bytes fs)))
respond-grows options u fs (valid f) = elim (extend-cases options u fs f) [
  | inl (same, free, silent) ↦
      (rw (same, free) (omega arith), rw (same, silent) (sym (append-nil (payload_bytes fs))))
  | inr (id, q, o, e) ↦ (rw e (samples-snoc fs f), rw e (payload_bytes-snoc fs f))
]

-- From a stream on, an acceptor goes through streams, and what it charges and forwards is what they
-- grow by.
pub accept_all-represents :
    (options : Options) (u : Text) (fs : List ValidatedFrame) (h : ℕ)
    (frames : List (Option Candidate))
    → IsStream options fs
    → let run = accept_all (represents options u fs h) frames in
      (gs : List ValidatedFrame) × (h' : ℕ) × IsStream options gs
      × (run.0 ≡ represents options u gs h')
      × (samples gs ≡ samples fs + charges run.1)
      × (payload_bytes gs ≡ payload_bytes fs ++ forwarded_bytes run.1)
unfolding accept_all charges forwarded_bytes
accept_all-represents options u fs h [] s =
    (fs, h, s, refl, omega arith, sym (append-nil (payload_bytes fs)))
accept_all-represents options u fs h (frame ∷ frames) s =
    let v = validate_frame options frame in
    let next = respond options u fs v in
    let (s', found) = accept-represents options u fs h frame s in
    let (h1, e) = found in
    let (gs, h2, s2, e2, c2, p2) = accept_all-represents options u next.0 h1 frames s' in
    let (c, p) = respond-grows options u fs v in
    let later = forwarded_bytes (accept_all (represents options u next.0 h1) frames).1 in
    (
      gs,
      h2,
      s2,
      rw e e2,
      rw e (omega (arith, c, c2)),
      rw e (
          p2 ∙ (ap (λ x. x ++ later) p ∙ append_assoc (payload_bytes fs) (forwarded next.1) later)),
    )

payload_bytes-length :
    (fs : List ValidatedFrame)
    → All (λ f. (1 ≤ f.sample_count) × (length f.payload ≡ f.sample_count * 2)) fs
    → length (payload_bytes fs) ≡ samples fs * 2
unfolding payload_bytes samples
payload_bytes-length [] h = omega arith
payload_bytes-length (f ∷ fs) h =
    omega (arith, length-append f.payload (payload_bytes fs), payload_bytes-length fs h.1, h.0.1)

recent-samples : (most : ℕ) (fs : List ValidatedFrame) → samples (recent most fs) ≤ most
unfolding recent samples
recent-samples most [] = omega arith
recent-samples most (f ∷ fs) = ground (arith, recent-samples most fs)

represented-bounds :
    (options : Options) (u : Text) (fs : List ValidatedFrame) (h : ℕ)
    → let a = represents options u fs h in
      (a.options ≡ options)
      × (a.next_offset ≡ samples fs)
      × (a.fingerprint_samples ≤ options.max_retained_replay_samples)
unfolding represents
represented-bounds options u fs h =
    (refl, refl, recent-samples options.max_retained_replay_samples fs)

pub fresh-represents : (options : Options) (u : Text) → fresh u options ≡ represents options u [] 0
unfolding represents samples recent
fresh-represents options u = refl

create-fresh :
    (u : Text) (given : GivenOptions) (a : Acceptor)
    → create u given ≡ ok a
    → (is_uuid u ≡ true) × (assert_options given ≡ ok a.options) × (a ≡ fresh u a.options)
unfolding create
create-fresh u given a h = ground arith

pub nothing-IsStream : (options : Options) → IsStream options []
unfolding IsRun samples
nothing-IsStream options = record { run = tt; within = omega arith; whole = tt }

no_samples : samples [] ≡ 0
unfolding samples
no_samples = refl

no_bytes : payload_bytes [] ≡ []
unfolding payload_bytes
no_bytes = refl

-- What is charged and forwarded, against the acceptor's offset and the options.
abbrev IsAccounted : Options → Acceptor × List Acceptance → Type 0
IsAccounted options run =
    (charges run.1 ≡ run.0.next_offset)
    × (run.0.next_offset ≤ options.max_utterance_samples)
    × (length (forwarded_bytes run.1) ≡ charges run.1 * 2)
    × (run.0.fingerprint_samples ≤ options.max_retained_replay_samples)

stream-IsAccounted :
    (o : Options) (u : Text) (gs : List ValidatedFrame) (h : ℕ) (rs : List Acceptance)
    → IsStream o gs
    → samples gs ≡ charges rs
    → payload_bytes gs ≡ forwarded_bytes rs
    → IsAccounted o (represents o u gs h, rs)
stream-IsAccounted o u gs h rs s c p =
    let (same, offset, kept) = represented-bounds o u gs h in
    (rw offset (sym c), rw offset s.within, rw (← p, ← c) (payload_bytes-length gs s.whole), kept)

-- A new acceptor that is given any sequence of frames whatever: what it charges adds up to its
-- offset, which stays within the limit of the utterance, it forwards two bytes for each sample
-- charged, and the fingerprints that it retains stay within the replay window.
pub charges-forwarded :
    (u : Text) (given : GivenOptions) (a : Acceptor) (frames : List (Option Candidate))
    → create u given ≡ ok a
    → IsAccounted a.options (accept_all a frames)
charges-forwarded u given a frames made =
    let (id, checked, e) = create-fresh u given a made in
    let o = a.options in
    let rs = (accept_all (represents o u [] 0) frames).1 in
    let (gs, h, s, r, c, p) = accept_all-represents o u [] 0 frames (nothing-IsStream o) in
    subst (λ b. IsAccounted o (accept_all b frames)) (sym (e ∙ fresh-represents o u))
      (subst (λ b. IsAccounted o (b, rs)) (sym r)
        (stream-IsAccounted o u gs h rs s (omega (arith, c, no_samples))
          (p ∙ ap (λ x. x ++ forwarded_bytes rs) no_bytes)))

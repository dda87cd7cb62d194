-- ===== src/Client/State/Applied.antt =====
-- apps/g2-client/src/state/index.ts: what a transcript event that is applied does to a turn.
use palancar.Base.{
  ℕ, ◌≤◌, ◌<◌, ◌≡◌, refl, sym, ap, ◌∙◌, subst, ◌⊎◌, inl, inr, Bool, true, false, arith, Bool-cases,
  none, some, Value, nat, text, text_beq, text_beq_iff, map_get, map_get-set_self,
  map_get-set_other, Option-cases, Option, length, Text, text_eq, map_has,
}
use palancar.Client.State.Types.{ActiveTurn, TranscriptEvent}
use palancar.Client.State.Guards.{
  text_of, nat_of, valid_uuid_v4, valid_segment_id, valid_positive_uint32, keep,
  max_transcript_length, max_transcript_segments,
}
use palancar.Client.State.Sessions.{turn_identity}
use palancar.Contracts.Uuid.{is_uuid}
use palancar.Client.State.Guards.{is_positive_uint32, is_segment_id}
use palancar.Client.State.Segments.{segment_update-IsStored}
use palancar.Client.State.Transcript.{segment_update, updated, revision_of}
use palancar.Client.State.Transcript.{matching, is_final, stored, carried, join, object_values}

-- What an applied event of a segment does: `t` is the turn before it, `u` the one after it.
pub record Applies (t : ActiveTurn) (e : TranscriptEvent) (u : ActiveTurn) (g s : Text) (r : ℕ)
    : Type 0 where
  pub segment : e.segment_id ≡ text g
  pub revision : e.revision ≡ nat r
  pub words : e.text ≡ text s
  pub utterance : e.utterance_id ≡ text t.utterance_id
  pub newer : revision_of t g < r
  pub stored_text : map_get u.segment_texts g ≡ some s
  pub stored_revision : map_get u.segment_revisions g ≡ some r
  pub transcript : u.transcript ≡ join (object_values u.segment_texts)
  pub bounded : length u.transcript ≤ max_transcript_length
  pub room : (map_has t.segment_texts g ≡ true) ⊎ (length t.segment_texts < max_transcript_segments)
  pub same_turn :
      (turn_identity u ≡ turn_identity t) × (u.utterance_id ≡ t.utterance_id) × (u.turn ≡ t.turn)

-- A final text is recorded as the one that the turn goes on with.
abbrev pub Finishes : ActiveTurn → Text → ℕ → Type 0
Finishes u g r =
    (map_get u.final_segments g ≡ some true)
    × (u.final_transcript ≡ some u.transcript)
    × (u.final_segment_id ≡ some g)
    × (u.final_revision ≡ some r)

-- A partial text leaves what is final, and is not stored over it.
abbrev pub Leaves : ActiveTurn → ActiveTurn → Text → Type 0
Leaves t u g =
    (is_final t g ≡ false)
    × (u.final_segments ≡ t.final_segments)
    × (u.final_transcript ≡ t.final_transcript)
    × ((t.final_transcript ≡ none)
        ⊎ ((u.final_segment_id ≡ t.final_segment_id) × (u.final_revision ≡ t.final_revision)))

abbrev pub Same : ActiveTurn → ActiveTurn → Text → Type 0
Same t u k =
    (map_get u.segment_texts k ≡ map_get t.segment_texts k)
    × (map_get u.segment_revisions k ≡ map_get t.segment_revisions k)
    × (map_get u.final_segments k ≡ map_get t.final_segments k)

text_of-some : (v : Value) (s : Text) → text_of v ≡ some s → v ≡ text s
unfolding text_of
text_of-some (text x) s h = ground arith
text_of-some v s h = cc

nat_of-some : (v : Value) (n : ℕ) → nat_of v ≡ some n → v ≡ nat n
unfolding nat_of
nat_of-some (nat x) n h = ground arith
nat_of-some v n h = cc

keep-some {ℓ} : {A : Type ℓ} (f : A → Bool) (o : Option A) (a : A) → keep f o ≡ some a → o ≡ some a
unfolding keep
keep-some f none a h = cc
keep-some f (some b) a h = ground arith

matching-some :
    (t : ActiveTurn) (e : TranscriptEvent) (g : Text) (r : ℕ)
    → matching t e ≡ some (g, r)
    → (e.segment_id ≡ text g) × (e.revision ≡ nat r) × (e.utterance_id ≡ text t.utterance_id)
unfolding matching valid_uuid_v4 valid_segment_id valid_positive_uint32
matching-some t e g r h = elim (Option-cases (valid_uuid_v4 e.utterance_id)) [
  | inl n ↦ ground (arith, n)
  | inr (u, n) ↦ elim (Option-cases (valid_segment_id e.segment_id)) [
    | inl m ↦ ground (arith, n, m)
    | inr (i, m) ↦ elim (Option-cases (valid_positive_uint32 e.revision)) [
      | inl k ↦ ground (arith, n, m, k)
      | inr (v, k) ↦
          let same : (text_beq u t.utterance_id ≡ true) × (i ≡ g) × (v ≡ r) =
            ground (arith, h, n, m, k) in
          (
            text_of-some e.segment_id g (keep-some is_segment_id _ g (m ∙ ap (λ x. some x) same.1)),
            nat_of-some e.revision r
                (keep-some is_positive_uint32 _ r (k ∙ ap (λ x. some x) same.2)),
            text_of-some e.utterance_id t.utterance_id (
                keep-some is_uuid _ t.utterance_id
                  (n ∙ ap (λ x. some x) ((text_beq_iff u t.utterance_id).0 same.0))),
          )
    ]
  ]
]

stored-Applies :
    (final : Bool) (t : ActiveTurn) (g : Text) (r : ℕ) (s : Text)
    → (map_get (stored final t g r s).segment_texts g ≡ some s)
      × (map_get (stored final t g r s).segment_revisions g ≡ some r)
unfolding stored
stored-Applies final t g r s =
    (map_get-set_self t.segment_texts g s, map_get-set_self t.segment_revisions g r)

stored-Finishes :
    (t : ActiveTurn) (g : Text) (r : ℕ) (s : Text) → Finishes (stored true t g r s) g r
unfolding stored
stored-Finishes t g r s = (map_get-set_self t.final_segments g true, refl, refl, refl)

stored-Leaves :
    (t : ActiveTurn) (g : Text) (r : ℕ) (s : Text)
    → is_final t g ≡ false
    → Leaves t (stored false t g r s) g
unfolding stored carried
stored-Leaves t g r s h = elim (Option-cases t.final_transcript) [
  | inl n ↦ (h, refl, refl, inl n)
  | inr (w, n) ↦ (h, refl, refl, inr (rw n refl, rw n refl))
]

stored-Same :
    (final : Bool) (t : ActiveTurn) (g : Text) (r : ℕ) (s k : Text)
    → text_beq g k ≡ false
    → Same t (stored final t g r s) k
unfolding stored
stored-Same true t g r s k h = (
  map_get-set_other t.segment_texts g k s h,
  map_get-set_other t.segment_revisions g k r h,
  map_get-set_other t.final_segments g k true h,
)
stored-Same false t g r s k h =
    (map_get-set_other t.segment_texts g k s h, map_get-set_other t.segment_revisions g k r h, refl)

abbrev Applied : Bool → ActiveTurn → TranscriptEvent → ActiveTurn → Text → Text → Text → ℕ → Type 0
Applied final t e u k g s r =
    Applies t e u g s r
    × (((final ≡ true) × Finishes u g r) ⊎ ((final ≡ false) × Leaves t u g))
    × ((g ≡ k) ⊎ Same t u k)

stored-outcome :
    (final : Bool) (t : ActiveTurn) (g : Text) (r : ℕ) (s : Text)
    → (final ≡ true) ⊎ (is_final t g ≡ false)
    → let u = stored final t g r s in
      ((final ≡ true) × Finishes u g r) ⊎ ((final ≡ false) × Leaves t u g)
stored-outcome true t g r s f = inl (refl, stored-Finishes t g r s)
stored-outcome false t g r s (inl e) = cc
stored-outcome false t g r s (inr e) = inr (refl, stored-Leaves t g r s e)

stored-others :
    (final : Bool) (t : ActiveTurn) (g : Text) (r : ℕ) (s k : Text)
    → (g ≡ k) ⊎ Same t (stored final t g r s) k
stored-others final t g r s k = elim (Bool-cases (text_beq g k)) [
  | inl e ↦ inl ((text_beq_iff g k).0 e)
  | inr e ↦ inr (stored-Same final t g r s k e)
]

-- A transcript event that is applied is about the turn's utterance, and stores its text and its revision,
-- a newer one, for its segment, within the bounds of a transcript. A final text is recorded as such, and a
-- partial text is never stored over a final one. Nothing changes for another segment `k`.
pub segment_update-updated :
    (final : Bool) (t : ActiveTurn) (e : TranscriptEvent) (u : ActiveTurn) (k : Text)
    → segment_update final t e ≡ updated u
    → (g : Text) × (s : Text) × (r : ℕ) × Applies t e u g s r
      × (((final ≡ true) × Finishes u g r) ⊎ ((final ≡ false) × Leaves t u g))
      × ((g ≡ k) ⊎ Same t u k)
unfolding stored turn_identity
segment_update-updated final t e u k h =
    let (g, r, s, (l, q, b, c), f, m, n) = segment_update-IsStored final t e u h in
    let x = matching-some t e g r m in
    let y = stored-Applies final t g r s in
    let w : Applied final t e u k g s r =
      subst (λ w. Applied final t e w k g s r) (sym q)
        (
          record {
            segment = x.0;
            revision = x.1;
            words = text_of-some e.text s n;
            utterance = x.2;
            newer = l;
            stored_text = y.0;
            stored_revision = y.1;
            transcript = refl;
            bounded = subst (λ w. length w.transcript ≤ max_transcript_length) q b;
            room = c;
            same_turn = (refl, refl, refl);
          },
          stored-outcome final t g r s f,
          stored-others final t g r s k,
        ) in
    (g, s, r, w.0, w.1, w.2)

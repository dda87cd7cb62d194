-- ===== src/Client/State/Segments.antt =====
-- apps/g2-client/src/state/index.ts: what a transcript event may change of a turn.
use palancar.Base.{
  ℕ, ◌≤◌, ◌<◌, ◌≡◌, refl, ◌⊎◌, inl, inr, Bool, true, false, ◌&&◌, ◌||◌, not, arith, leb, some,
  Option-cases, length, Text, text_eq, map_has,
}
use palancar.Client.State.Types.{ActiveTurn, TranscriptEvent}
use palancar.Client.State.Guards.{text_of, max_transcript_length, max_transcript_segments}
use palancar.Client.State.Sessions.{turn_identity}
use palancar.Client.State.Transcript.{
  segment_update, Update, ignored, overflows, updated, revision_of,
}
use palancar.Client.State.Transcript.{matching, is_final, take_text, store, stored}

-- `u` is the turn `t` with the text `s` of the segment `g` in its revision `r`, a newer one, and is
-- within the bounds of a transcript.
abbrev pub IsStored : Bool → ActiveTurn → Text → ℕ → Text → ActiveTurn → Type 0
IsStored final t g r s u =
    (revision_of t g < r)
    × (u ≡ stored final t g r s)
    × (length u.transcript ≤ max_transcript_length)
    × ((map_has t.segment_texts g ≡ true) ⊎ (length t.segment_texts < max_transcript_segments))

store-updated :
    (final : Bool) (t : ActiveTurn) (g : Text) (r : ℕ) (s : Text) (u : ActiveTurn)
    → revision_of t g < r
    → store final t g r s ≡ updated u
    → IsStored final t g r s u
unfolding store
store-updated final t g r s u l h = ground arith

pub segment_update-IsStored :
    (final : Bool) (t : ActiveTurn) (e : TranscriptEvent) (u : ActiveTurn)
    → segment_update final t e ≡ updated u
    → (g : Text) × (r : ℕ) × (s : Text) × IsStored final t g r s u
      × ((final ≡ true) ⊎ (is_final t g ≡ false))
      × (matching t e ≡ some (g, r))
      × (text_of e.text ≡ some s)
unfolding segment_update take_text
segment_update-IsStored final t e u h = elim (Option-cases (matching t e)) [
  | inl k ↦ ground (arith, k)
  | inr (m, k) ↦ elim (Option-cases (text_of e.text)) [
    | inl n ↦ ground (arith, k, n)
    | inr (s, n) ↦
        let old : (leb m.1 (revision_of t m.0) || (not final && is_final t m.0)) ≡ false =
          ground (arith, k) in
        let into : store final t m.0 m.1 s ≡ updated u = ground (arith, k, n) in
        let l : revision_of t m.0 < m.1 = ground arith in
        (m.0, m.1, s, store-updated final t m.0 m.1 s u l into, ground arith, k, n)
  ]
]

-- What a stored segment leaves of the turn.
pub segment_update-identity :
    (final : Bool) (t : ActiveTurn) (e : TranscriptEvent) (u : ActiveTurn)
    → segment_update final t e ≡ updated u
    → (turn_identity u ≡ turn_identity t)
      × (u.utterance_id ≡ t.utterance_id)
      × (u.auth_attempt ≡ t.auth_attempt)
unfolding stored turn_identity
segment_update-identity final t e u h =
    let (g, r, s, (l, k, b, c), f, m, n) = segment_update-IsStored final t e u h in
    rw k (refl, refl, refl)

pub Update-cases :
    (v : Update) → (v ≡ ignored) ⊎ ((v ≡ overflows) ⊎ ((u : ActiveTurn) × (v ≡ updated u)))
Update-cases ignored = inl refl
Update-cases overflows = inr (inl refl)
Update-cases (updated u) = inr (inr (u, refl))

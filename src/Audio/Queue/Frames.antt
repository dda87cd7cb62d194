-- ===== src/Audio/Queue/Frames.antt =====
-- The frames of a list of payloads, and the invariant of the client's queue.
use palancar.Base.{
  ℕ, zero, suc, ◌+◌, ◌/◌, ◌%◌, ◌≤◌, ◌≡◌, refl, ap, true, List, [], ◌∷◌, ◌++◌, arith, length, take,
  drop, All, Text, text_eq,
}
use palancar.Contracts.Constants.{max_utterance_samples, max_audio_payload_bytes}
use palancar.Contracts.Uuid.{is_uuid}
use palancar.Contracts.AudioFrame.{encode_audio_frame, lay_out, hex_pairs, strip_dashes, uint32_max}
use palancar.Audio.Queue.{Frame, ok, frame_of, encode}

-- The samples of a list of payloads.
unfoldable pub samples : List (List ℕ) → ℕ
samples [] = 0
samples (p ∷ ps) = length p / 2 + samples ps

module _ (utterance : Text) where
  -- The frame of a payload, with its encoding.
  unfoldable pub framed : ℕ → ℕ → List ℕ → Frame
  framed sequence offset p =
      frame_of sequence offset p (lay_out (hex_pairs (strip_dashes utterance)) 0 sequence offset p)

  -- The frames of consecutive payloads, from a sequence and an offset on.
  unfoldable pub frames : ℕ → ℕ → List (List ℕ) → List Frame
  frames sequence offset [] = []
  frames sequence offset (p ∷ ps) =
      framed sequence offset p ∷ frames (sequence + 1) (offset + length p / 2) ps

  pub length-frames : (s o : ℕ) (ps : List (List ℕ)) → length (frames s o ps) ≡ length ps
  unfolding frames
  length-frames s o [] = refl
  length-frames s o (p ∷ ps) = ap suc (length-frames (s + 1) (o + length p / 2) ps)

  pub frames-append :
      (s o : ℕ) (ps qs : List (List ℕ))
      → frames s o (ps ++ qs) ≡ frames s o ps ++ frames (s + length ps) (o + samples ps) qs
  unfolding frames samples
  frames-append s o [] qs =
      let a : s + 0 ≡ s = omega arith in let b : o + 0 ≡ o = omega arith in rw (a, b)
  frames-append s o (p ∷ ps) qs =
      let a : s + 1 + length ps ≡ s + suc (length ps) = omega arith in
      let b : o + length p / 2 + samples ps ≡ o + (length p / 2 + samples ps) = omega arith in
      ap (◌∷◌ (framed s o p)) (rw (← a, ← b) (frames-append (s + 1) (o + length p / 2) ps qs))

  pub frames-drop :
      (k s o : ℕ) (ps : List (List ℕ))
      → drop k (frames s o ps)
        ≡ frames (s + length (take k ps)) (o + samples (take k ps)) (drop k ps)
  unfolding frames samples
  frames-drop zero s o ps =
      let a : s + 0 ≡ s = omega arith in let b : o + 0 ≡ o = omega arith in rw (a, b)
  frames-drop (suc k) s o [] = refl
  frames-drop (suc k) s o (p ∷ ps) =
      let a : s + 1 + length (take k ps) ≡ s + suc (length (take k ps)) = omega arith in
      let b : o + length p / 2 + samples (take k ps) ≡ o + (length p / 2 + samples (take k ps)) =
        omega arith in
      rw (← a, ← b) (frames-drop k (s + 1) (o + length p / 2) ps)

-- A payload that the codec takes.
pub record IsPayload (p : List ℕ) : Type 0 where
  pub nonempty : 2 ≤ length p
  pub even : length p % 2 ≡ 0
  pub small : length p ≤ max_audio_payload_bytes

abbrev pub AllPayloads : List (List ℕ) → Type 0
AllPayloads ps = All IsPayload ps

-- The codec accepts every payload that lies in the utterance.
pub encode-ok :
    (u : Text) (s o : ℕ) (p : List ℕ)
    → is_uuid u ≡ true
    → IsPayload p
    → s ≤ uint32_max
    → o + length p / 2 ≤ max_utterance_samples
    → encode u s o p ≡ ok (framed u s o p)
unfolding encode encode_audio_frame framed
encode-ok u s o p h v a b = ground (arith, h, v)

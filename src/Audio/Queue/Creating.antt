-- ===== src/Audio/Queue/Creating.antt =====
-- packages/audio/src/client-queue.ts: the constructor.
use palancar.Base.{◌≡◌, refl, ◌⊎◌, inl, inr, true, [], ◌++◌, ap, ◌∙◌, arith, subst, Text}
use palancar.Contracts.Uuid.{is_uuid}
use palancar.Audio.Framer.{Framer}
use palancar.Audio.Framer
use palancar.Audio.Framer.Target.{IsSized, Ensures, create-IsSized}
use palancar.Audio.Queue.{Queue, Limits, ok, framer_options, limits_valid, create}
use palancar.Audio.Queue.Frames.{samples, frames}
use palancar.Audio.Queue.Invariant.{IsQueue, outstanding}
use palancar.Audio.Framer.Loops.{flat}

framer-IsSized :
    (l : Limits) (f : Framer)
    → Framer.create (framer_options l) ≡ Framer.ok f
    → IsSized (framer_options l) f
framer-IsSized l f h =
    subst (Ensures (IsSized (framer_options l))) h (create-IsSized (framer_options l))

Framer-cases :
    (r : Framer.Result Framer)
    → ((f : Framer) × (r ≡ Framer.ok f)) ⊎ ((e : Framer.Reason) × (r ≡ Framer.err e))
Framer-cases (Framer.ok f) = inl (f, refl)
Framer-cases (Framer.err e) = inr (e, refl)

abbrev fresh : Text → Limits → Framer → Queue
fresh u l f = record {
  limits = l;
  utterance_id = u;
  framer = f;
  next_sequence = 0;
  highest_acknowledged = 0;
  next_captured = 0;
  next_encoded = 0;
  retained = [];
  head = 0;
}

create-eq-ok :
    (u : Text) (l : Limits) (q : Queue) (f : Framer)
    → Framer.create (framer_options l) ≡ Framer.ok f
    → create u l ≡ ok q
    → (is_uuid u ≡ true) × (limits_valid l ≡ true) × (q ≡ fresh u l f)
unfolding create
create-eq-ok u l q f k h = ground (arith, k)

fresh-IsQueue :
    (u : Text) (l : Limits) (f : Framer)
    → is_uuid u ≡ true
    → limits_valid l ≡ true
    → IsSized (framer_options l) f
    → IsQueue (fresh u l f) 0 []
unfolding frames samples
fresh-IsQueue u l f v w s = record {
  limits = w;
  uuid = v;
  framer = s.framer;
  payload_cap = s.payload_cap;
  payloads = tt;
  slots = refl;
  sequence = omega arith;
  counted = omega arith;
  encoded = omega arith;
  captured = ground (arith, s.fresh);
  utterance = omega arith;
  window = omega arith;
}

-- Nothing has been captured, encoded or acknowledged, and no byte waits.
pub record IsEmpty (q : Queue) : Type 0 where
  pub nothing_held : outstanding q [] ≡ []
  pub nothing_retained : (q.retained ≡ []) × (q.head ≡ 0)
  pub at_start : (q.next_sequence ≡ 0) × (q.next_encoded ≡ 0) × (q.next_captured ≡ 0)
  pub unacknowledged : q.highest_acknowledged ≡ 0

fresh-IsEmpty :
    (u : Text) (l : Limits) (f : Framer) → IsSized (framer_options l) f → IsEmpty (fresh u l f)
unfolding flat
fresh-IsEmpty u l f s = record {
  nothing_held =
      ap (λ p. p ++ Framer.trailing_bytes f.trailing) s.fresh.0
      ∙ ap Framer.trailing_bytes s.fresh.1;
  nothing_retained = (refl, refl);
  at_start = (refl, refl, refl);
  unacknowledged = refl;
}

-- A queue that is made is for a valid utterance and valid limits, satisfies the invariant and is empty:
-- nothing has been captured, encoded, retained or acknowledged, and the framer holds no byte.
pub create-IsQueue :
    (u : Text) (l : Limits) (q : Queue)
    → create u l ≡ ok q
    → IsQueue q 0 [] × IsEmpty q × (q.limits ≡ l) × (q.utterance_id ≡ u)
unfolding create
create-IsQueue u l q h = elim (Framer-cases (Framer.create (framer_options l))) [
  | inr (e, k) ↦ ground (arith, k)
  | inl (f, k) ↦
      let (v, w, made) = create-eq-ok u l q f k h in
      let s = framer-IsSized l f k in
      rw made (fresh-IsQueue u l f v w s, fresh-IsEmpty u l f s, refl, refl)
]

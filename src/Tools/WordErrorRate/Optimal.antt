-- ===== src/Tools/WordErrorRate/Optimal.antt =====
-- tools/realtime-spike/src/wer.ts: the result counts the edits of a shortest alignment.
use palancar.Base.{◌+◌, ◌≤◌, ◌≡◌, refl, ap, ◌∙◌, some, List, [], ◌∷◌, arith, Text, text_eq, nat_eq}
use palancar.Tools.WordErrorRate.{EditCell, WordErrorRateResult, report, compare_words}
use palancar.Tools.WordErrorRate.Table.{best, onto, compare_words-best}
use palancar.Tools.WordErrorRate.Alignments.{
  Edit, keep, delete, insert, substitute, before, after, counts, edits, best-least,
}

-- Edits that turn some words into others.
pub record Aligns (xs ys : List Text) (es : List Edit) : Type 0 where
  pub reads : before es ≡ xs
  pub leaves : after es ≡ ys

abbrev Aligned : List Text → List Text → EditCell → Type 0
Aligned xs ys c = (es : List Edit) × Aligns xs ys es × (counts es ≡ c)

-- The same edits, from the other end.
unfoldable turned : List Edit → List Edit → List Edit
turned [] rs = rs
turned (e ∷ es) rs = turned es (e ∷ rs)

before-turned : (es rs : List Edit) → before (turned es rs) ≡ onto (before es) (before rs)
unfolding turned before onto
before-turned [] rs = refl
before-turned (keep x ∷ es) rs = before-turned es (keep x ∷ rs)
before-turned (delete x ∷ es) rs = before-turned es (delete x ∷ rs)
before-turned (insert y ∷ es) rs = before-turned es (insert y ∷ rs)
before-turned (substitute x y ∷ es) rs = before-turned es (substitute x y ∷ rs)

after-turned : (es rs : List Edit) → after (turned es rs) ≡ onto (after es) (after rs)
unfolding turned after onto
after-turned [] rs = refl
after-turned (keep x ∷ es) rs = after-turned es (keep x ∷ rs)
after-turned (delete x ∷ es) rs = after-turned es (delete x ∷ rs)
after-turned (insert y ∷ es) rs = after-turned es (insert y ∷ rs)
after-turned (substitute x y ∷ es) rs = after-turned es (substitute x y ∷ rs)

abbrev Adds : EditCell → EditCell → EditCell → Type 0
Adds c d e =
    (c.distance ≡ d.distance + e.distance)
    × (c.substitutions ≡ d.substitutions + e.substitutions)
    × (c.deletions ≡ d.deletions + e.deletions)
    × (c.insertions ≡ d.insertions + e.insertions)

turned-Adds : (es rs : List Edit) → Adds (counts (turned es rs)) (counts es) (counts rs)
unfolding turned counts
turned-Adds [] rs = (omega arith, omega arith, omega arith, omega arith)
turned-Adds (keep x ∷ es) rs = turned-Adds es (keep x ∷ rs)
turned-Adds (delete x ∷ es) rs =
    let h = turned-Adds es (delete x ∷ rs) in
    (omega (arith, h.0), omega (arith, h.1), omega (arith, h.2), omega (arith, h.3))
turned-Adds (insert y ∷ es) rs =
    let h = turned-Adds es (insert y ∷ rs) in
    (omega (arith, h.0), omega (arith, h.1), omega (arith, h.2), omega (arith, h.3))
turned-Adds (substitute x y ∷ es) rs =
    let h = turned-Adds es (substitute x y ∷ rs) in
    (omega (arith, h.0), omega (arith, h.1), omega (arith, h.2), omega (arith, h.3))

cell_eq :
    (c d : EditCell)
    → c.distance ≡ d.distance
    → c.substitutions ≡ d.substitutions
    → c.deletions ≡ d.deletions
    → c.insertions ≡ d.insertions
    → c ≡ d
cell_eq c d p q r s =
    λ i. record { distance = p i; substitutions = q i; deletions = r i; insertions = s i }

counts-turned : (es : List Edit) → counts (turned es []) ≡ counts es
unfolding counts
counts-turned es =
    let h = turned-Adds es [] in
    cell_eq _ _ (omega (arith, h.0)) (omega (arith, h.1)) (omega (arith, h.2)) (omega (arith, h.3))

-- When some edits turn the expected words into the actual ones, the words are compared with a result
-- whose numerator is at most the number of these edits.
pub compare_words-least :
    (expected actual : List Text) (es : List Edit)
    → Aligns expected actual es
    → (r : WordErrorRateResult) × (compare_words expected actual ≡ some r)
      × (r.numerator ≤ edits es)
unfolding report before after onto
compare_words-least expected actual es a =
    let c = best (onto expected []) (onto actual []) in
    let reads = before-turned es [] ∙ ap (λ l. onto l []) a.reads in
    let leaves = after-turned es [] ∙ ap (λ l. onto l []) a.leaves in
    let same : best (before (turned es [])) (after (turned es [])) ≡ c =
      ap (λ l. best l (after (turned es []))) reads ∙ ap (best (onto expected [])) leaves in
    (
      _,
      compare_words-best expected actual,
      omega (
        arith,
        best-least (turned es []),
        ap (λ d. d.distance) same,
        ap (λ d. d.distance) (counts-turned es),
      ),
    )

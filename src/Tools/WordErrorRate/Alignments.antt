-- ===== src/Tools/WordErrorRate/Alignments.antt =====
-- tools/realtime-spike/src/wer.ts: the distance in the table is the least number of edits.
use palancar.Base.{
  ℕ, ◌+◌, ◌≤◌, ◌≡◌, refl, ap, ◌∙◌, ◌⊎◌, inl, inr, Bool, true, false, ◌&&◌, ◌||◌, List, [], ◌∷◌,
  arith, ltb, nat_beq, Bool-cases, Text, text_beq, text_beq_iff, text_eq, nat_eq,
}
use palancar.Tools.WordErrorRate.{
  EditCell, comes_before, preferred, preferred_cell, empty_cell, substituted, deleted, inserted,
  cell,
}
use palancar.Tools.WordErrorRate.Table.{best, best-first}

pub data Edit : Type 0 where
  keep delete insert : Text → Edit
  substitute : Text → Text → Edit

-- The words that edits read, and those that they leave.
unfoldable pub before : List Edit → List Text
before [] = []
before (keep x ∷ es) = x ∷ before es
before (delete x ∷ es) = x ∷ before es
before (insert y ∷ es) = before es
before (substitute x y ∷ es) = x ∷ before es

unfoldable pub after : List Edit → List Text
after [] = []
after (keep x ∷ es) = x ∷ after es
after (delete x ∷ es) = after es
after (insert y ∷ es) = y ∷ after es
after (substitute x y ∷ es) = y ∷ after es

unfoldable pub counts : List Edit → EditCell
counts [] = empty_cell
counts (keep x ∷ es) = counts es
counts (delete x ∷ es) = deleted (counts es)
counts (insert y ∷ es) = inserted (counts es)
counts (substitute x y ∷ es) = substituted (counts es)

abbrev pub edits : List Edit → ℕ
edits es = (counts es).distance

first_key : (m n : ℕ) (z : Bool) → ltb m n || nat_beq m n && z ≡ true → m ≤ n
first_key m n z h = ground arith

first_key_kept : (m n : ℕ) (z : Bool) → ltb m n || nat_beq m n && z ≡ false → n ≤ m
first_key_kept m n z h = ground arith

preferred-least :
    (c d : EditCell)
    → ((preferred c d).distance ≤ c.distance) × ((preferred c d).distance ≤ d.distance)
unfolding preferred comes_before
preferred-least c d = elim (Bool-cases (comes_before d c)) [
  | inl h ↦ let b = first_key d.distance c.distance _ h in rw h (b, omega arith)
  | inr h ↦ let b = first_key_kept d.distance c.distance _ h in rw h (omega arith, b)
]

preferred_cell-least :
    (c d e : EditCell)
    → let f = preferred_cell c d e in
      (f.distance ≤ c.distance) × (f.distance ≤ d.distance) × (f.distance ≤ e.distance)
unfolding preferred_cell
preferred_cell-least c d e =
    let p = preferred-least c d in
    let q = preferred-least (preferred c d) e in
    (omega (arith, p.0, q.0), omega (arith, p.1, q.0), q.1)

preferred-one : (c d : EditCell) → (preferred c d ≡ c) ⊎ (preferred c d ≡ d)
unfolding preferred
preferred-one c d = elim (Bool-cases (comes_before d c)) [
  | inl h ↦ rw h (inr refl)
  | inr h ↦ rw h (inl refl)
]

pub preferred_cell-one :
    (c d e : EditCell) → let f = preferred_cell c d e in (f ≡ c) ⊎ ((f ≡ d) ⊎ (f ≡ e))
unfolding preferred_cell
preferred_cell-one c d e = elim (preferred-one (preferred c d) e) [
  | inl p ↦ elim (preferred-one c d) [ inl q ↦ inl (p ∙ q) | inr q ↦ inr (inl (p ∙ q)) ]
  | inr p ↦ inr (inr p)
]

abbrev D : List Text → List Text → ℕ
D xs ys = (best xs ys).distance

pub best-same :
    (x y : Text) (xs ys : List Text) → text_beq x y ≡ true → best (x ∷ xs) (y ∷ ys) ≡ best xs ys
unfolding best cell
best-same x y xs ys h = rw h refl

pub best-other :
    (x y : Text) (xs ys : List Text)
    → text_beq x y ≡ false
    → best (x ∷ xs) (y ∷ ys)
      ≡ preferred_cell
          (substituted (best xs ys))
          (deleted (best xs (y ∷ ys)))
          (inserted (best (x ∷ xs) ys))
unfolding best cell
best-other x y xs ys h = rw h refl

-- What the cell of two lists of words says about its neighbours.
record Step (x y : Text) (xs ys : List Text) : Type 0 where
  least :
      (D (x ∷ xs) (y ∷ ys) ≤ D xs ys + 1)
      × (D (x ∷ xs) (y ∷ ys) ≤ D xs (y ∷ ys) + 1)
      × (D (x ∷ xs) (y ∷ ys) ≤ D (x ∷ xs) ys + 1)
  one :
      (D (x ∷ xs) (y ∷ ys) ≡ D xs ys + 1)
      ⊎ ((D (x ∷ xs) (y ∷ ys) ≡ D xs (y ∷ ys) + 1) ⊎ (D (x ∷ xs) (y ∷ ys) ≡ D (x ∷ xs) ys + 1))

other-Step : (x y : Text) (xs ys : List Text) → text_beq x y ≡ false → Step x y xs ys
other-Step x y xs ys h =
    let e = best-other x y xs ys h in
    let l =
      preferred_cell-least (substituted (best xs ys)) (deleted (best xs (y ∷ ys)))
        (inserted (best (x ∷ xs) ys)) in
    let d = ap (λ c. c.distance) e in
    record {
      least = (omega (arith, d, l.0), omega (arith, d, l.1), omega (arith, d, l.2));
      one =
          elim (preferred_cell-one (substituted (best xs ys)) (deleted (best xs (y ∷ ys)))
            (inserted (best (x ∷ xs) ys))) [
              | inl p ↦ inl (ap (λ c. c.distance) (e ∙ p))
              | inr (inl p) ↦ inr (inl (ap (λ c. c.distance) (e ∙ p)))
              | inr (inr p) ↦ inr (inr (ap (λ c. c.distance) (e ∙ p)))
            ];
    }

-- One word more on a side costs one edit at most; one word less, too.
delete_one :
    (x : Text) (xs ys : List Text)
    → ((y : Text) (zs : List Text) → D xs zs ≤ D xs (y ∷ zs) + 1)
    → D (x ∷ xs) ys ≤ D xs ys + 1
delete_one x xs [] h =
    omega (arith, ap (λ c. c.distance) (best-first (x ∷ xs)), ap (λ c. c.distance) (best-first xs))
delete_one x xs (y ∷ ys) h = elim (Bool-cases (text_beq x y)) [
  | inl e ↦ omega (arith, ap (λ c. c.distance) (best-same x y xs ys e), h y ys)
  | inr e ↦ (other-Step x y xs ys e).least.1
]

less_one : (xs ys : List Text) (y : Text) → D xs ys ≤ D xs (y ∷ ys) + 1
unfolding best
less_one [] ys y = omega arith
less_one (x ∷ xs) ys y =
    let d = delete_one x xs ys (λ z zs. less_one xs zs z) in
    let l = less_one xs ys y in
    elim (Bool-cases (text_beq x y)) [
      | inl e ↦ omega (arith, ap (λ c. c.distance) (best-same x y xs ys e), d)
      | inr e ↦ elim (other-Step x y xs ys e).one [
        | inl p ↦ omega (arith, p, d)
        | inr (inl p) ↦ omega (arith, p, d, l)
        | inr (inr p) ↦ omega (arith, p)
      ]
    ]

insert_one :
    (y : Text) (ys xs : List Text)
    → ((x : Text) (zs : List Text) → D zs ys ≤ D (x ∷ zs) ys + 1)
    → D xs (y ∷ ys) ≤ D xs ys + 1
unfolding best
insert_one y ys [] h = omega arith
insert_one y ys (x ∷ xs) h = elim (Bool-cases (text_beq x y)) [
  | inl e ↦ omega (arith, ap (λ c. c.distance) (best-same x y xs ys e), h x xs)
  | inr e ↦ (other-Step x y xs ys e).least.2
]

fewer_one : (ys xs : List Text) (x : Text) → D xs ys ≤ D (x ∷ xs) ys + 1
fewer_one [] xs x =
    omega (arith, ap (λ c. c.distance) (best-first (x ∷ xs)), ap (λ c. c.distance) (best-first xs))
fewer_one (y ∷ ys) xs x =
    let d = insert_one y ys xs (λ z zs. fewer_one ys zs z) in
    let l = fewer_one ys xs x in
    elim (Bool-cases (text_beq x y)) [
      | inl e ↦ omega (arith, ap (λ c. c.distance) (best-same x y xs ys e), d)
      | inr e ↦ elim (other-Step x y xs ys e).one [
        | inl p ↦ omega (arith, p, d)
        | inr (inl p) ↦ omega (arith, p)
        | inr (inr p) ↦ omega (arith, p, d, l)
      ]
    ]

text_beq_same : (x : Text) → text_beq x x ≡ true
text_beq_same x = (text_beq_iff x x).1 refl

-- No list of edits is shorter than the distance in the table.
pub best-least : (es : List Edit) → D (before es) (after es) ≤ edits es
unfolding before after counts best
best-least [] = omega arith
best-least (keep x ∷ es) = omega (
  arith,
  ap (λ c. c.distance) (best-same x x (before es) (after es) (text_beq_same x)),
  best-least es,
)
best-least (delete x ∷ es) =
    omega (
      arith,
      delete_one x (before es) (after es) (λ z zs. less_one (before es) zs z),
      best-least es,
    )
best-least (insert y ∷ es) =
    omega (
      arith,
      insert_one y (after es) (before es) (λ z zs. fewer_one (after es) zs z),
      best-least es,
    )
best-least (substitute x y ∷ es) = elim (Bool-cases (text_beq x y)) [
  | inl e ↦
      omega (arith, ap (λ c. c.distance) (best-same x y (before es) (after es) e), best-least es)
  | inr e ↦ omega (arith, (other-Step x y (before es) (after es) e).least.0, best-least es)
]

-- ===== src/Contracts/Uuid/Parts.antt =====
-- The five parts of a text that matches the UUID pattern.
use palancar.Base.{
  ℕ, zero, suc, ◌≡◌, refl, ap, ◌∙◌, ◌⊎◌, inl, inr, true, List, [], ◌∷◌, ◌++◌, arith, length,
  length-replicate, replicate, All, Text, text_eq,
}
use palancar.Contracts.Uuid.{Class, hex, variant, exact, is_hex, fits, matches, is_uuid}

pub matches-append :
    (p q : List Class) (s : Text)
    → matches (p ++ q) s ≡ true
    → (x : Text) × (y : Text) × (s ≡ x ++ y) × (matches p x ≡ true) × (matches q y ≡ true)
unfolding matches
matches-append [] q s h = ([], s, refl, refl, h)
matches-append (k ∷ p) q [] h = cc
matches-append (k ∷ p) q (c ∷ s) h =
    let (x, y, e, a, b) = matches-append p q s (ground arith) in
    (c ∷ x, y, ap (◌∷◌ c) e, ground arith, b)

pub length-matches : (p : List Class) (s : Text) → matches p s ≡ true → length s ≡ length p
unfolding matches
length-matches [] [] h = refl
length-matches [] (c ∷ s) h = cc
length-matches (k ∷ p) [] h = cc
length-matches (k ∷ p) (c ∷ s) h = ground (arith, length-matches p s)

-- Every character is a hexadecimal digit.
abbrev pub IsHex : Text → Type 0
IsHex s = All (λ c. is_hex c ≡ true) s

pub hexes-IsHex : (n : ℕ) (s : Text) → matches (replicate n hex) s ≡ true → IsHex s
unfolding matches fits
hexes-IsHex zero [] h = tt
hexes-IsHex zero (c ∷ s) h = cc
hexes-IsHex (suc n) [] h = cc
hexes-IsHex (suc n) (c ∷ s) h = (ground arith, hexes-IsHex n s (ground arith))

-- The parts of a UUID, and what the version and the variant say of the third and the fourth.
pub record IsParts (s a b c d e : Text) : Type 0 where
  pub joined : s ≡ a ++ (b'-' ∷ (b ++ (b'-' ∷ (c ++ (b'-' ∷ (d ++ (b'-' ∷ e)))))))
  pub lengths : (length a ≡ 8) × (length b ≡ 4) × (length c ≡ 4) × (length d ≡ 4) × (length e ≡ 12)
  pub hexes : IsHex a × IsHex b × IsHex c × IsHex d × IsHex e
  pub version : (t : Text) × (c ≡ b'4' ∷ t)
  pub variant_digit : (v : ℕ) × (t : Text) × (d ≡ v ∷ t) × (fits variant v ≡ true)

dash :
    (p : List Class) (s : Text)
    → matches (exact b'-' ∷ p) s ≡ true
    → (t : Text) × (s ≡ b'-' ∷ t) × (matches p t ≡ true)
unfolding matches fits
dash p [] h = cc
dash p (c ∷ s) h = (s, ground arith, ground arith)

one :
    (k : Class) (p : List Class) (s : Text)
    → matches (k ∷ p) s ≡ true
    → (c : ℕ) × (t : Text) × (s ≡ c ∷ t) × (fits k c ≡ true) × (matches p t ≡ true)
unfolding matches
one k p [] h = cc
one k p (c ∷ s) h = (c, s, refl, ground arith, ground arith)

fits-hex :
    (k : Class) (c : ℕ) → (k ≡ variant) ⊎ (k ≡ exact b'4') → fits k c ≡ true → is_hex c ≡ true
unfolding fits is_hex
fits-hex k c h f = ground arith

run :
    (n : ℕ) (p : List Class) (s : Text)
    → matches (replicate n hex ++ p) s ≡ true
    → (x : Text) × (y : Text) × (s ≡ x ++ y) × (length x ≡ n) × IsHex x × (matches p y ≡ true)
run n p s h =
    let (x, y, e, a, b) = matches-append (replicate n hex) p s h in
    (x, y, e, length-matches (replicate n hex) x a ∙ length-replicate n hex, hexes-IsHex n x a, b)

four : (v : ℕ) → fits (exact b'4') v ≡ true → v ≡ b'4'
unfolding fits
four v h = ground arith

links :
    (s s1 s2 s3 s4 s5 s6 s7 s8 s9 a b c d e : Text) (v w : ℕ)
    → s ≡ a ++ s1
    → s1 ≡ b'-' ∷ s2
    → s2 ≡ b ++ s3
    → s3 ≡ b'-' ∷ s4
    → s4 ≡ v ∷ s5
    → s5 ≡ c ++ s6
    → s6 ≡ b'-' ∷ s7
    → s7 ≡ w ∷ s8
    → s8 ≡ d ++ s9
    → s9 ≡ b'-' ∷ e
    → s ≡ a ++ (b'-' ∷ (b ++ (b'-' ∷ ((v ∷ c) ++ (b'-' ∷ ((w ∷ d) ++ (b'-' ∷ e)))))))
links s s1 s2 s3 s4 s5 s6 s7 s8 s9 a b c d e v w e1 e2 e3 e4 e5 e6 e7 e8 e9 e10 =
    rw (e1, e2, e3, e4, e5, e6, e7, e8, e9, e10)

-- The pattern from each of its parts on.
abbrev from_fifth : List Class
from_fifth = replicate 12 hex

abbrev from_fourth : List Class
from_fourth = replicate 3 hex ++ exact b'-' ∷ from_fifth

abbrev from_third : List Class
from_third = replicate 3 hex ++ exact b'-' ∷ (variant ∷ from_fourth)

abbrev from_second : List Class
from_second = replicate 4 hex ++ exact b'-' ∷ (exact b'4' ∷ from_third)

pub is_uuid-IsParts :
    (s : Text)
    → is_uuid s ≡ true
    → (a : Text) × (b : Text) × (c : Text) × (d : Text) × (e : Text) × IsParts s a b c d e
unfolding is_uuid
is_uuid-IsParts s h =
    let (a, s1, e1, l1, h1, m1) = run 8 (exact b'-' ∷ from_second) s h in
    let (s2, e2, m2) = dash from_second s1 m1 in
    let (b, s3, e3, l3, h3, m3) = run 4 (exact b'-' ∷ (exact b'4' ∷ from_third)) s2 m2 in
    let (s4, e4, m4) = dash (exact b'4' ∷ from_third) s3 m3 in
    let (v, s5, e5, f5, m5) = one (exact b'4') from_third s4 m4 in
    let (c, s6, e6, l6, h6, m6) = run 3 (exact b'-' ∷ (variant ∷ from_fourth)) s5 m5 in
    let (s7, e7, m7) = dash (variant ∷ from_fourth) s6 m6 in
    let (w, s8, e8, f8, m8) = one variant from_fourth s7 m7 in
    let (d, s9, e9, l9, h9, m9) = run 3 (exact b'-' ∷ from_fifth) s8 m8 in
    let (e, e10, m10) = dash from_fifth s9 m9 in
    let v4 : v ≡ b'4' = four v f5 in
    (
      a,
      b,
      v ∷ c,
      w ∷ d,
      e,
      record {
        joined = links s s1 s2 s3 s4 s5 s6 s7 s8 s9 a b c d e v w e1 e2 e3 e4 e5 e6 e7 e8 e9 e10;
        lengths = (l1, l3, ap suc l6, ap suc l9, length-matches from_fifth e m10);
        hexes = (
          h1,
          h3,
          (fits-hex (exact b'4') v (inr refl) f5, h6),
          (fits-hex variant w (inl refl) f8, h9),
          hexes-IsHex 12 e m10,
        );
        version = (c, ap (λ x. x ∷ c) v4);
        variant_digit = (w, d, refl, f8);
      },
    )

-- ===== src/Contracts/AudioFrame/RoundTrip/Hex.antt =====
-- packages/contracts/src/audio.ts: hexadecimal text to bytes and back.
use palancar.Base.{
  ℕ, zero, suc, ◌+◌, ◌-◌, ◌*◌, ◌/◌, ◌%◌, ◌≤◌, ◌<◌, ◌≡◌, refl, ap, subst, true, false, List, [], ◌∷◌,
  ◌++◌, append_assoc, arith, nat_beq, length, take, drop, length-append, All-append, Text, text_eq,
}
use palancar.Contracts.Uuid.{is_hex, variant, fits, is_uuid}
use palancar.Contracts.Uuid.Parts.{IsHex, IsParts, is_uuid-IsParts}
use palancar.Contracts.AudioFrame.{ok, hex_value, strip_dashes, hex_pairs}
use palancar.Contracts.AudioFrame.Decode.{
  byte_at, hex_digit, hex_text, text_slice, format_hex, format_uuid, validate_uuid_bytes,
}

module _ {ℓ} {X : Type ℓ} where
  pub drop-exact : (n : ℕ) (x y : List X) → length x ≡ n → drop n (x ++ y) ≡ y
  drop-exact zero [] y h = refl
  drop-exact zero (c ∷ x) y h = ground arith
  drop-exact (suc n) [] y h = ground arith
  drop-exact (suc n) (c ∷ x) y h = drop-exact n x y (omega (arith, h))

  pub take-exact : (n : ℕ) (x y : List X) → length x ≡ n → take n (x ++ y) ≡ x
  take-exact zero [] y h = refl
  take-exact zero (c ∷ x) y h = ground arith
  take-exact (suc n) [] y h = ground arith
  take-exact (suc n) (c ∷ x) y h = ap (◌∷◌ c) (take-exact n x y (omega (arith, h)))

not_dash : (c : ℕ) → is_hex c ≡ true → nat_beq c b'-' ≡ false
unfolding is_hex
not_dash c h = ground arith

strip_dashes-append : (x y : Text) → IsHex x → strip_dashes (x ++ y) ≡ x ++ strip_dashes y
unfolding strip_dashes
strip_dashes-append [] y h = refl
strip_dashes-append (c ∷ x) y h = ground (arith, not_dash c h.0, strip_dashes-append x y h.1)

hex_value-bound : (c : ℕ) → is_hex c ≡ true → hex_value c < 16
unfolding is_hex hex_value
hex_value-bound c h = ground arith

hex_digit-hex_value : (c : ℕ) → is_hex c ≡ true → hex_digit (hex_value c) ≡ c
unfolding is_hex hex_value hex_digit
hex_digit-hex_value c h = ground arith

high : (a b : ℕ) → b < 16 → (a * 16 + b) / 16 ≡ a
high a b h = omega arith

low : (a b : ℕ) → b < 16 → (a * 16 + b) % 16 ≡ b
low a b h = omega arith

hex_text-hex_pairs : (k : ℕ) (h : Text) → length h ≡ k * 2 → IsHex h → hex_text (hex_pairs h) ≡ h
unfolding hex_text hex_pairs
hex_text-hex_pairs k [] l x = refl
hex_text-hex_pairs k (a ∷ []) l x = ground arith
hex_text-hex_pairs zero (a ∷ b ∷ h) l x = ground arith
hex_text-hex_pairs (suc k) (a ∷ b ∷ h) l x =
    let small = hex_value-bound b (x.1.0) in
    rw (
      high (hex_value a) (hex_value b) small,
      low (hex_value a) (hex_value b) small,
      hex_digit-hex_value a x.0,
      hex_digit-hex_value b (x.1.0),
      hex_text-hex_pairs k h (omega (arith, l)) (x.1.1),
    )

length-hex_pairs : (k : ℕ) (h : Text) → length h ≡ k * 2 → length (hex_pairs h) ≡ k
unfolding hex_pairs
length-hex_pairs k [] l = omega (arith, l)
length-hex_pairs k (a ∷ []) l = omega (arith, l)
length-hex_pairs zero (a ∷ b ∷ h) l = omega (arith, l)
length-hex_pairs (suc k) (a ∷ b ∷ h) l = ap suc (length-hex_pairs k h (omega (arith, l)))

hex_pairs-append :
    (k : ℕ) (x y : Text) → length x ≡ k * 2 → hex_pairs (x ++ y) ≡ hex_pairs x ++ hex_pairs y
unfolding hex_pairs
hex_pairs-append k [] y l = refl
hex_pairs-append k (a ∷ []) y l = ground arith
hex_pairs-append zero (a ∷ b ∷ x) y l = ground arith
hex_pairs-append (suc k) (a ∷ b ∷ x) y l =
    ap (◌∷◌ (hex_value a * 16 + hex_value b)) (hex_pairs-append k x y (omega (arith, l)))

-- The digits of a UUID without its dashes.
abbrev digits : Text → Text → Text → Text → Text → Text
digits a b c d e = a ++ (b ++ (c ++ (d ++ e)))

strip_dashes-part : (x y : Text) → IsHex x → strip_dashes (x ++ (b'-' ∷ y)) ≡ x ++ strip_dashes y
unfolding strip_dashes
strip_dashes-part x y h = strip_dashes-append x (b'-' ∷ y) h

strip_dashes-hexes : (x : Text) → IsHex x → strip_dashes x ≡ x
unfolding strip_dashes
strip_dashes-hexes [] h = refl
strip_dashes-hexes (c ∷ x) h = ground (arith, not_dash c h.0, strip_dashes-hexes x h.1)

text_slice-exact :
    (n m : ℕ) (x y z : Text)
    → length x ≡ n
    → length y ≡ m
    → text_slice (x ++ (y ++ z)) n (n + m) ≡ y
unfolding text_slice
text_slice-exact n m x y z h k =
    let width : n + m - n ≡ m = omega arith in
    rw (drop-exact n x (y ++ z) h, width, take-exact m y z k)

strip_dashes-parts : (s a b c d e : Text) → IsParts s a b c d e → strip_dashes s ≡ digits a b c d e
strip_dashes-parts s a b c d e p =
    let (ha, hb, hc, hd, he) = p.hexes in
    let step = strip_dashes-part in
    rw (p.joined, step a _ ha, step b _ hb, step c _ hc, step d e hd, strip_dashes-hexes e he)

IsHex-digits : (s a b c d e : Text) → IsParts s a b c d e → IsHex (digits a b c d e)
IsHex-digits s a b c d e p =
    let (ha, hb, hc, hd, he) = p.hexes in
    let join = All-append (λ x. is_hex x ≡ true) in
    join a _ ha (join b _ hb (join c _ hc (join d e hd he)))

length-digits : (s a b c d e : Text) → IsParts s a b c d e → length (digits a b c d e) ≡ 16 * 2
length-digits s a b c d e p =
    let (la, lb, lc, ld, le) = p.lengths in
    rw
      (
        length-append a (b ++ (c ++ (d ++ e))),
        length-append b (c ++ (d ++ e)),
        length-append c (d ++ e),
        length-append d e,
      )
      (omega (arith, la, lb, lc, ld, le))

format_hex-digits : (s a b c d e : Text) → IsParts s a b c d e → format_hex (digits a b c d e) ≡ s
unfolding format_hex
format_hex-digits s a b c d e p =
    let (la, lb, lc, ld, le) = p.lengths in
    let r3 = c ++ (d ++ e) in
    let l3 : length (a ++ b) ≡ 12 = rw (length-append a b) (omega (arith, la, lb)) in
    let l4 : length (a ++ (b ++ c)) ≡ 16 =
      rw (length-append a (b ++ c), length-append b c) (omega (arith, la, lb, lc)) in
    let l5 : length (a ++ (b ++ (c ++ d))) ≡ 20 =
      rw (length-append a (b ++ (c ++ d)), length-append b (c ++ d), length-append c d)
        (omega (arith, la, lb, lc, ld)) in
    let q3 : digits a b c d e ≡ (a ++ b) ++ (c ++ (d ++ e)) = simp (append_assoc) in
    let q4 : digits a b c d e ≡ (a ++ (b ++ c)) ++ (d ++ e) = simp (append_assoc) in
    let q5 : digits a b c d e ≡ (a ++ (b ++ (c ++ d))) ++ e = simp (append_assoc) in
    let s1 : text_slice (digits a b c d e) 0 8 ≡ a = text_slice-exact 0 8 [] a (b ++ r3) refl la in
    let s2 : text_slice (digits a b c d e) 8 12 ≡ b = text_slice-exact 8 4 a b r3 la lb in
    let s3 : text_slice (digits a b c d e) 12 16 ≡ c =
      rw q3 (text_slice-exact 12 4 (a ++ b) c (d ++ e) l3 lc) in
    let s4 : text_slice (digits a b c d e) 16 20 ≡ d =
      rw q4 (text_slice-exact 16 4 (a ++ (b ++ c)) d e l4 ld) in
    let s5 : drop 20 (digits a b c d e) ≡ e = rw q5 (drop-exact 20 (a ++ (b ++ (c ++ d))) e l5) in
    rw (s1, s2, s3, s4, s5, p.joined)

byte_at-hex_pairs :
    (i : ℕ) (x : Text) (u v : ℕ) (y : Text)
    → length x ≡ i * 2
    → byte_at (hex_pairs (x ++ (u ∷ v ∷ y))) i ≡ hex_value u * 16 + hex_value v
unfolding byte_at hex_pairs
byte_at-hex_pairs i x u v y l = rw (
  hex_pairs-append i x (u ∷ v ∷ y) l,
  drop-exact i (hex_pairs x) (hex_pairs (u ∷ v ∷ y)) (length-hex_pairs i x l),
  byte_at,
)

version_nibble : (v : ℕ) → is_hex v ≡ true → (hex_value b'4' * 16 + hex_value v) / 16 ≡ 4
unfolding hex_value
version_nibble v h = rw (high 4 (hex_value v) (hex_value-bound v h))

variant_value : (u : ℕ) → fits variant u ≡ true → (8 ≤ hex_value u) × (hex_value u < 12)
unfolding fits hex_value
variant_value u f = ground arith

variant_bits :
    (u v : ℕ) → fits variant u ≡ true → is_hex v ≡ true → (hex_value u * 16 + hex_value v) / 64 ≡ 2
variant_bits u v f h = omega (arith, variant_value u f, hex_value-bound v h)

-- The seventh byte begins with the version, the ninth with the variant.
byte_6 :
    (a b c y t : Text)
    → length (a ++ b) ≡ 12
    → length c ≡ 4
    → IsHex c
    → c ≡ b'4' ∷ t
    → byte_at (hex_pairs ((a ++ b) ++ (c ++ y))) 6 / 16 ≡ 4
byte_6 a b c y [] l k h q = ground (arith, l, k, q)
byte_6 a b c y (v ∷ t) l k h q =
    rw (q, byte_at-hex_pairs 6 (a ++ b) b'4' v (t ++ y) l)
      (version_nibble v ((subst IsHex q h).1.0))

byte_8 :
    (x d y t : Text) (u : ℕ)
    → length x ≡ 16
    → length d ≡ 4
    → IsHex d
    → d ≡ u ∷ t
    → fits variant u ≡ true
    → byte_at (hex_pairs (x ++ (d ++ y))) 8 / 64 ≡ 2
byte_8 x d y [] u l k h q f = ground (arith, k, q)
byte_8 x d y (v ∷ t) u l k h q f =
    rw (q, byte_at-hex_pairs 8 x u v (t ++ y) l) (variant_bits u v f ((subst IsHex q h).1.0))

pub format_uuid-hex_pairs :
    (s : Text) → is_uuid s ≡ true → format_uuid (hex_pairs (strip_dashes s)) ≡ s
unfolding format_uuid
format_uuid-hex_pairs s h =
    let (a, b, c, d, e, p) = is_uuid-IsParts s h in
    rw
      (
        strip_dashes-parts s a b c d e p,
        hex_text-hex_pairs 16 (digits a b c d e) (length-digits s a b c d e p)
            (IsHex-digits s a b c d e p),
      )
      (format_hex-digits s a b c d e p)

pub length-uuid_bytes : (s : Text) → is_uuid s ≡ true → length (hex_pairs (strip_dashes s)) ≡ 16
length-uuid_bytes s h =
    let (a, b, c, d, e, p) = is_uuid-IsParts s h in
    rw (strip_dashes-parts s a b c d e p)
      (length-hex_pairs 16 (digits a b c d e) (length-digits s a b c d e p))

pub validate-uuid_bytes :
    (s : Text) → is_uuid s ≡ true → validate_uuid_bytes (hex_pairs (strip_dashes s)) ≡ ok tt
unfolding validate_uuid_bytes byte_at
validate-uuid_bytes s h =
    let (a, b, c, d, e, p) = is_uuid-IsParts s h in
    let (la, lb, lc, ld, le) = p.lengths in
    let (ha, hb, hc, hd, he) = p.hexes in
    let (t, c4) = p.version in
    let (u, t1, du, f) = p.variant_digit in
    let l12 : length (a ++ b) ≡ 12 = rw (length-append a b) (omega (arith, la, lb)) in
    let l16 : length (a ++ (b ++ c)) ≡ 16 =
      rw (length-append a (b ++ c), length-append b c) (omega (arith, la, lb, lc)) in
    let q12 : digits a b c d e ≡ (a ++ b) ++ (c ++ (d ++ e)) = simp (append_assoc) in
    let q16 : digits a b c d e ≡ (a ++ (b ++ c)) ++ (d ++ e) = simp (append_assoc) in
    let six : byte_at (hex_pairs (digits a b c d e)) 6 / 16 ≡ 4 =
      rw q12 (byte_6 a b c (d ++ e) t l12 lc hc c4) in
    let eight : byte_at (hex_pairs (digits a b c d e)) 8 / 64 ≡ 2 =
      rw q16 (byte_8 (a ++ (b ++ c)) d e t1 u l16 ld hd du f) in
    rw (strip_dashes-parts s a b c d e p, six, eight)

-- ===== src/Contracts/Uuid.antt =====
-- The UUID pattern that packages/contracts/src/schemas.ts, packages/security-state/src/crypto.ts and
-- apps/g2-client/src/state/index.ts share: 36 characters, each of a class of its own.
pub mod Parts
use palancar.Base.{
  ℕ, ◌≡◌, refl, Bool, true, false, ◌&&◌, ◌||◌, List, [], ◌∷◌, ◌++◌, Text, codes, nat_beq, leb,
  replicate,
}

-- One position of the pattern.
pub data Class : Type 0 where
  -- [0-9a-f]
  hex : Class
  -- [89ab]
  variant : Class
  -- the character itself
  exact : ℕ → Class

unfoldable pub is_hex : ℕ → Bool
is_hex c = (leb b'0' c && leb c b'9') || (leb b'a' c && leb c b'f')

unfoldable pub fits : Class → ℕ → Bool
unfolding is_hex
fits hex c = is_hex c
fits variant c = nat_beq c b'8' || nat_beq c b'9' || nat_beq c b'a' || nat_beq c b'b'
fits (exact d) c = nat_beq c d

unfoldable pub matches : List Class → Text → Bool
unfolding fits
matches [] [] = true
matches [] (c ∷ s) = false
matches (k ∷ p) [] = false
matches (k ∷ p) (c ∷ s) = fits k c && matches p s

-- ^[0-9a-f]{8}-[0-9a-f]{4}-4[0-9a-f]{3}-[89ab][0-9a-f]{3}-[0-9a-f]{12}$
abbrev pub uuid_pattern : List Class
uuid_pattern =
    replicate 8 hex
    ++ exact b'-'
      ∷ (replicate 4 hex
          ++ exact b'-'
            ∷ (exact b'4'
                ∷ (replicate 3 hex
                    ++ exact b'-'
                      ∷ (variant ∷ (replicate 3 hex ++ exact b'-' ∷ replicate 12 hex)))))

unfoldable pub is_uuid : Text → Bool
unfolding matches
is_uuid s = matches uuid_pattern s

uuid_sample : is_uuid (codes "123e4567-e89b-42d3-a456-426614174000") ≡ true
unfolding is_uuid
uuid_sample = refl

uuid_version : is_uuid (codes "123e4567-e89b-12d3-a456-426614174000") ≡ false
unfolding is_uuid
uuid_version = refl

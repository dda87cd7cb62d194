-- ===== src/Client/State/Guards.antt =====
-- apps/g2-client/src/state/index.ts: the checks of run-time values, each with the value that passes.
use palancar.Base.{
  ℕ, ◌+◌, Bool, true, false, ◌&&◌, ◌||◌, not, Option, none, some, [], ◌∷◌, ltb, leb, nat_beq,
  if◌then◌else◌, length, Text, text_eq, is_space, Value, nat, minus, fraction, text, other,
}
use palancar.Contracts.Uuid.{is_uuid}

abbrev pub max_result_text_length : ℕ
max_result_text_length = 1_024

abbrev pub max_transcript_length : ℕ
max_transcript_length = 4_096

abbrev pub max_transcript_segments : ℕ
max_transcript_segments = 64

abbrev pub max_uint32 : ℕ
max_uint32 = 4_294_967_295

unfoldable pub text_of : Value → Option Text
text_of (text s) = some s
text_of (nat n) = none
text_of (minus n) = none
text_of fraction = none
text_of other = none

unfoldable pub nat_of : Value → Option ℕ
nat_of (nat n) = some n
nat_of (text s) = none
nat_of (minus n) = none
nat_of fraction = none
nat_of other = none

unfoldable pub keep {ℓ} : {A : Type ℓ} → (A → Bool) → Option A → Option A
keep f none = none
keep f (some a) = if f a then some a else none

unfoldable pub valid_uuid_v4 : Value → Option Text
unfolding keep
valid_uuid_v4 v = keep is_uuid (text_of v)

unfoldable pub is_positive_uint32 : ℕ → Bool
is_positive_uint32 n = ltb 0 n && leb n max_uint32

unfoldable pub valid_positive_uint32 : Value → Option ℕ
unfolding keep
valid_positive_uint32 v = keep is_positive_uint32 (nat_of v)

unfoldable pub valid_auth_generation : ℕ → Bool
valid_auth_generation n = leb n max_uint32

unfoldable pub valid_auth_attempt : ℕ → Bool
valid_auth_attempt n = valid_auth_generation n && ltb 0 n

unfoldable pub next_auth_attempt : ℕ → Option ℕ
next_auth_attempt n = if valid_auth_generation n && ltb n max_uint32 then some (n + 1) else none

-- What `String.prototype.trim` removes.
unfoldable pub is_blank : Text → Bool
is_blank [] = true
is_blank (c ∷ s) = is_space c && is_blank s

unfoldable pub fits_text : ℕ → Text → Bool
fits_text bound s = not (is_blank s) && leb (length s) bound

unfoldable pub valid_text : Value → ℕ → Option Text
unfolding keep
valid_text v bound = keep (fits_text bound) (text_of v)

is_alphanumeric : ℕ → Bool
is_alphanumeric c =
    (leb b'A' c && leb c b'Z') || (leb b'a' c && leb c b'z') || (leb b'0' c && leb c b'9')

all_id_characters : Text → Bool
unfolding is_alphanumeric
all_id_characters [] = true
all_id_characters (c ∷ s) =
    (is_alphanumeric c || nat_beq c b'.' || nat_beq c b'_' || nat_beq c b':' || nat_beq c b'-')
    && all_id_characters s

-- ^[A-Za-z0-9][A-Za-z0-9._:-]{0,63}$
unfoldable pub is_segment_id : Text → Bool
unfolding is_alphanumeric all_id_characters
is_segment_id [] = false
is_segment_id (c ∷ s) = is_alphanumeric c && all_id_characters s && leb (length s) 63

unfoldable pub valid_segment_id : Value → Option Text
unfolding keep
valid_segment_id v = keep is_segment_id (text_of v)

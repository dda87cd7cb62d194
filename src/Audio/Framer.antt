-- ===== src/Audio/Framer.antt =====
-- packages/audio/src/pcm.ts: the framer that cuts callback-sized pieces of PCM into payloads.
-- A Uint8Array is a list of bytes; every array that the source copies is a value here.
pub mod Limits
pub mod Target
pub mod Loops
pub mod Stream
use palancar.Base.{
  ℕ, zero, suc, ◌+◌, ◌-◌, ◌*◌, ◌/◌, ◌%◌, ◌≤◌, ◌<◌, ◌≡◌, refl, Bool, true, false, ◌&&◌, ◌||◌, not,
  min, Option, none, some, List, [], ◌∷◌, ◌++◌, arith, ltb, leb, nat_beq, if◌then◌else◌, length,
  take, drop,
}
use palancar.Contracts.Constants.{max_audio_payload_bytes, max_unacknowledged_samples}

abbrev pub pcm_sample_rate_hz : ℕ
pcm_sample_rate_hz = 16_000

abbrev pub pcm_sample_bytes : ℕ
pcm_sample_bytes = 2

abbrev pub default_pcm_coalescing_target_bytes : ℕ
default_pcm_coalescing_target_bytes = 1_920

pub data Reason : Type 0 where
  invalid_payload_limit invalid_sample_limit invalid_coalescing_target : Reason

pub data Result {ℓ} (A : Type ℓ) : Type ℓ where
  ok : A → Result A
  err : Reason → Result A

infixl 5 ◌>>=◌
abbrev pub ◌>>=◌ {ℓ κ} : {X : Type ℓ} {Y : Type κ} → Result X → (X → Result Y) → Result Y
err fault >>= next = err fault
ok x >>= next = next x

-- A number given as a limit: `whole n`, or one that is no integer from 0 on.
pub data Limit : Type 0 where
  whole : ℕ → Limit
  not_whole : Limit

-- A number given as a target: `ratio n d` is n / (d + 1), `not_finite` is a negative one, NaN or an
-- infinity. Products with a target are exact here.
pub data Goal : Type 0 where
  ratio : ℕ → ℕ → Goal
  not_finite : Goal

pub record Options : Type 0 where
  pub max_payload_bytes : Option Limit
  pub max_audio_payload_bytes : Option Limit
  pub coalescing_target_bytes : Option Goal
  pub coalescing_target_samples : Option Goal
  pub coalescing_target_ms : Option Goal
  pub max_retained_replay_samples : Option Limit
  pub max_unacknowledged_samples : Option Limit

pub assert_integer_limit : Limit → Reason → ℕ → ℕ → Result ℕ
assert_integer_limit not_whole reason least most = err reason
assert_integer_limit (whole n) reason least most =
    if ltb n least || ltb most n then err reason else ok n

same_limit : Limit → Limit → Bool
same_limit (whole a) (whole b) = nat_beq a b
same_limit (whole a) not_whole = false
same_limit not_whole b = false

-- Two different numbers that are not whole are refused here, as an equal pair is by the next check.
pub resolve_alias : Option Limit → Option Limit → Reason → Result (Option Limit)
unfolding same_limit
resolve_alias none second reason = ok second
resolve_alias (some a) none reason = ok (some a)
resolve_alias (some a) (some b) reason = if same_limit a b then ok (some a) else err reason

positive_goal : ℕ → ℕ → Goal → Result (ℕ × ℕ)
positive_goal times over not_finite = err invalid_coalescing_target
positive_goal times over (ratio n d) =
    if ltb 0 n then ok (n * times, suc d * over) else err invalid_coalescing_target

-- The target in bytes, as a fraction.
pub resolve_target_bytes : Options → Result (ℕ × ℕ)
unfolding positive_goal
resolve_target_bytes o =
    goal o.coalescing_target_bytes o.coalescing_target_samples o.coalescing_target_ms
  where
    goal : Option Goal → Option Goal → Option Goal → Result (ℕ × ℕ)
    goal none none none = ok (default_pcm_coalescing_target_bytes, 1)
    goal (some b) none none = positive_goal 1 1 b
    goal none (some s) none = positive_goal pcm_sample_bytes 1 s
    goal none none (some t) = positive_goal (pcm_sample_rate_hz * pcm_sample_bytes) 1_000 t
    goal (some b) (some s) t = err invalid_coalescing_target
    goal (some b) none (some t) = err invalid_coalescing_target
    goal none (some s) (some t) = err invalid_coalescing_target

abbrev pub largest_even_at_most : ℕ → ℕ
largest_even_at_most n = n / pcm_sample_bytes * pcm_sample_bytes

-- An absent sample limit is Infinity among the candidates.
pub sample_limit : Option Limit → Result (Option ℕ)
unfolding assert_integer_limit
sample_limit none = ok none
sample_limit (some l) = do
  n ← assert_integer_limit l invalid_sample_limit 1 max_unacknowledged_samples
  ok (some n)

pub capped : ℕ → Option ℕ → ℕ
capped n none = n
capped n (some s) = min n (s * pcm_sample_bytes)

-- floor(min(n / d, limit))
pub least_of : ℕ × ℕ → ℕ → ℕ
least_of (n, d) limit = if ltb n (limit * d) then n / d else limit

pub record Framer : Type 0 where
  pub max_payload_bytes : ℕ
  pub target_bytes : ℕ
  pub pending : List ℕ
  pub trailing : Option ℕ

pub or_default : Option Limit → Limit
or_default none = whole max_audio_payload_bytes
or_default (some l) = l

pub assert_even : ℕ → Result (Unit {0})
assert_even payload =
    if nat_beq (payload % pcm_sample_bytes) 0 then ok tt else err invalid_payload_limit

-- The least of the whole candidates.
most_of : ℕ → Option ℕ → Option ℕ → ℕ
unfolding capped
most_of payload retained unacknowledged =
    capped (capped (min default_pcm_coalescing_target_bytes payload) retained) unacknowledged

sized : ℕ → ℕ → Result Framer
sized payload target =
    if ltb target pcm_sample_bytes
    then err invalid_coalescing_target
    else ok (record {
      max_payload_bytes = payload;
      target_bytes = target;
      pending = [];
      trailing = none;
    })

unfoldable pub create : Options → Result Framer
unfolding resolve_alias assert_integer_limit assert_even or_default sample_limit
    resolve_target_bytes most_of least_of sized
create o = do
  given ← resolve_alias o.max_payload_bytes o.max_audio_payload_bytes invalid_payload_limit
  payload ←
      assert_integer_limit (or_default given) invalid_payload_limit pcm_sample_bytes
        max_audio_payload_bytes
  _ ← assert_even payload
  retained ← sample_limit o.max_retained_replay_samples
  unacknowledged ← sample_limit o.max_unacknowledged_samples
  goal ← resolve_target_bytes o
  sized payload (largest_even_at_most (least_of goal (most_of payload retained unacknowledged)))

unfoldable pub pending_byte_count : Framer → ℕ
pending_byte_count f = elim f.trailing [ none ↦ 0 | some b ↦ 1 ]

unfoldable pub pending_sample_count : Framer → ℕ
pending_sample_count f = length f.pending / pcm_sample_bytes

abbrev pub trailing_bytes : Option ℕ → List ℕ
trailing_bytes none = []
trailing_bytes (some b) = b ∷ []

-- array.slice(from, to)
abbrev pub slice : List ℕ → ℕ → ℕ → List ℕ
slice xs from to = take (to - from) (drop from xs)

-- `for (offset; offset < emitted; offset += frame)`, with fuel.
pub cut : ℕ → List ℕ → ℕ → ℕ → ℕ → List (List ℕ)
cut zero pending frame emitted offset = []
cut (suc fuel) pending frame emitted offset =
    let rest = cut fuel pending frame emitted (offset + frame) in
    if ltb offset emitted then slice pending offset (offset + frame) ∷ rest else []

-- A round per byte is more than enough.
pub drain_target : Framer → Framer × List (List ℕ)
unfolding cut
drain_target f =
    let complete = length f.pending in
    let emitted = complete - complete % f.target_bytes in
    if nat_beq emitted 0 then (f, []) else (
      record f { pending = drop emitted f.pending },
      cut emitted f.pending f.target_bytes emitted 0,
    )

abbrev pub head? : List ℕ → Option ℕ
head? [] = none
head? (b ∷ bs) = some b

unfoldable pub push : Framer → List ℕ → Framer × List (List ℕ)
unfolding drain_target
push f input =
    let merged = f.pending ++ (trailing_bytes f.trailing ++ input) in
    let complete = largest_even_at_most (length merged) in
    drain_target
      (record f { pending = take complete merged; trailing = head? (drop complete merged) })

unfoldable pub drain_complete_samples : Framer → Framer × List (List ℕ)
drain_complete_samples f = elim f.pending [
  | [] ↦ (f, [])
  | b ∷ bs ↦ (record f { pending = [] }, (b ∷ bs) ∷ [])
]

pub data FlushResult : Type 0 where
  complete : List (List ℕ) → FlushResult
  incomplete_sample : List (List ℕ) → ℕ → FlushResult

flush_result : List (List ℕ) → Option ℕ → FlushResult
flush_result payloads none = complete payloads
flush_result payloads (some b) = incomplete_sample payloads b

unfoldable pub flush : Framer → Framer × FlushResult
unfolding drain_complete_samples flush_result
flush f =
    let (drained, payloads) = drain_complete_samples f in
    (record drained { trailing = none }, flush_result payloads drained.trailing)

unfoldable pub reset : Framer → Framer
reset f = record f { pending = []; trailing = none }

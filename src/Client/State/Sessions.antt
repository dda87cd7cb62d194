-- ===== src/Client/State/Sessions.antt =====
-- apps/g2-client/src/state/index.ts: the target, the session and the authentication attempt of a state,
-- the states that the reducer builds and the effects that close a session. `makeState`, `normalizeInput` and
-- `reduction` only copy and freeze what they are given.
use palancar.Base.{
  ℕ, ◌+◌, ◌-◌, ◌%◌, suc, Bool, false, ◌&&◌, Option, none, some, List, [], ◌∷◌, ◌++◌, nat_beq,
  if◌then◌else◌, ◌==◌, length, get_elem?, Text, codes, text_eq, Value,
}
use palancar.Contracts.Uuid.{is_uuid}
use palancar.Languages.{LanguageDefinition, initial_definitions, is_target_language}
use palancar.Client.State.Types.{
  SessionIdentity, Pending, initial, authentication, recovery, established, ActiveTurn, ClientState,
  starting, enrolling, storage_error, target_selection, enrollment_checking, enrollment_required,
  ready, listening, finalizing, translating, results, error, ClientEffect, cancel_session_boundary,
  stop_audio, end_session, Reduction,
}
use palancar.Client.State.Guards.{
  valid_uuid_v4, valid_positive_uint32, is_positive_uint32, valid_auth_generation,
}

-- The registry is not empty, so that the exception is not reached.
unfoldable pub default_target : Text
default_target = codes "es"

unfoldable pub restored_target : Option Text → Text
restored_target none = default_target
restored_target (some s) = if is_target_language s then s else default_target

-- `none` for a stored value that is not a string.
unfoldable pub create_initial_state : Option Text → ClientState
create_initial_state s = starting (restored_target s) 0

unfoldable pub state_target : ClientState → Option Text
state_target (starting l n) = some l
state_target (enrolling l n) = some l
state_target (storage_error l n) = some l
state_target (target_selection l n) = some l
state_target (enrollment_checking l n p) = some l
state_target (enrollment_required l n r) = some l
state_target (ready r) = some r.target_language
state_target (listening t) = some t.target_language
state_target (finalizing t) = some t.target_language
state_target (translating t e) = some t.target_language
state_target (results t e ss i) = some t.target_language
state_target (error m b l s) = l

unfoldable pub valid_identity : SessionIdentity → Option SessionIdentity
valid_identity s =
    if is_uuid s.session_id && is_positive_uint32 s.session_epoch then some s else none

unfoldable pub turn_identity : ActiveTurn → SessionIdentity
turn_identity t = record { session_id = t.session_id; session_epoch = t.session_epoch }

unfoldable pub pending_session : Pending → Option SessionIdentity
pending_session initial = none
pending_session authentication = none
pending_session (recovery s) = valid_identity s
pending_session (established s) = valid_identity s

unfoldable pub state_session : ClientState → Option SessionIdentity
state_session (starting l n) = none
state_session (enrolling l n) = none
state_session (storage_error l n) = none
state_session (target_selection l n) = none
state_session (enrollment_checking l n p) = none
state_session (enrollment_required l n r) = none
state_session (ready r) = pending_session r.pending
state_session (listening t) = valid_identity (turn_identity t)
state_session (finalizing t) = valid_identity (turn_identity t)
state_session (translating t e) = valid_identity (turn_identity t)
state_session (results t e ss i) = valid_identity (turn_identity t)
state_session (error m b l none) = none
state_session (error m b l (some s)) = valid_identity s

unfoldable pub event_session : Value → Value → Option SessionIdentity
event_session id epoch = elim (valid_uuid_v4 id) [
  | none ↦ none
  | some i ↦ elim (valid_positive_uint32 epoch) [
    | none ↦ none
    | some e ↦ some (record { session_id = i; session_epoch = e })
  ]
]

unfoldable pub identity_eq : SessionIdentity → SessionIdentity → Bool
identity_eq s t = (s.session_id == t.session_id) && nat_beq s.session_epoch t.session_epoch

unfoldable pub same_session : ClientState → Value → Value → Bool
same_session s id epoch = elim (state_session s) [
  | none ↦ false
  | some t ↦ elim (event_session id epoch) [ none ↦ false | some e ↦ identity_eq t e ]
]

index_of : List LanguageDefinition → Text → Option ℕ
index_of [] s = none
index_of (d ∷ ds) s =
    let rest = index_of ds s in
    if d.code == s then some 0 else elim rest [ none ↦ none | some i ↦ some (suc i) ]

-- `step` is what is added before the remainder is taken: 1 for the direction 1, the registry's length
-- less one for the direction -1.
target_at : Text → ℕ → Text
unfolding index_of
target_at target step =
    let n = length initial_definitions in
    elim (index_of initial_definitions target) [
      | none ↦ default_target
      | some i ↦ elim (get_elem? initial_definitions ((i + step + n) % n)) [
        | none ↦ target
        | some d ↦ if is_target_language d.code then d.code else target
      ]
    ]

unfoldable pub next_target : Text → Text
unfolding target_at
next_target target = target_at target 1

unfoldable pub previous_target : Text → Text
unfolding target_at
previous_target target = target_at target (length initial_definitions - 1)

unfoldable pub active_turn : ClientState → Option ActiveTurn
active_turn (starting l n) = none
active_turn (enrolling l n) = none
active_turn (storage_error l n) = none
active_turn (target_selection l n) = none
active_turn (enrollment_checking l n p) = none
active_turn (enrollment_required l n r) = none
active_turn (ready r) = none
active_turn (listening t) = some t
active_turn (finalizing t) = some t
active_turn (translating t e) = some t
active_turn (results t e ss i) = some t
active_turn (error m b l s) = none

unfoldable pub stop_audio_effects : ClientState → List ClientEffect
stop_audio_effects (listening t) = elim (state_session (listening t)) [
  | none ↦ []
  | some s ↦ stop_audio s t.utterance_id ∷ []
]
stop_audio_effects s = []

unfoldable pub end_session_effects : ClientState → List ClientEffect
end_session_effects s = elim (state_session s) [ none ↦ [] | some t ↦ end_session t ∷ [] ]

unfoldable pub cleanup_effects : ClientState → List ClientEffect
cleanup_effects s = stop_audio_effects s ++ end_session_effects s

unfoldable pub boundary_cleanup_effects : ClientState → List ClientEffect
boundary_cleanup_effects s = cancel_session_boundary ∷ cleanup_effects s

unfoldable pub state_auth_attempt : ClientState → Option ℕ
state_auth_attempt (starting l n) = some n
state_auth_attempt (enrolling l n) = some n
state_auth_attempt (storage_error l n) = some n
state_auth_attempt (target_selection l n) = some n
state_auth_attempt (enrollment_checking l n p) = some n
state_auth_attempt (enrollment_required l n r) = some n
state_auth_attempt (ready r) = some r.auth_attempt
state_auth_attempt (listening t) = some t.auth_attempt
state_auth_attempt (finalizing t) = some t.auth_attempt
state_auth_attempt (translating t e) = some t.auth_attempt
state_auth_attempt (results t e ss i) = some t.auth_attempt
state_auth_attempt (error m b l s) = none

unfoldable pub state_auth_generation : ClientState → Option ℕ
state_auth_generation s = elim (state_auth_attempt s) [
  | none ↦ none
  | some n ↦ if valid_auth_generation n then some n else none
]

unfoldable pub no_change : ClientState → Reduction
no_change s = record { state = s; effects = [] }

unfoldable pub becomes : ClientState → List ClientEffect → Reduction
becomes s es = record { state = s; effects = es }

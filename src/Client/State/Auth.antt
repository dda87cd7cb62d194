-- ===== src/Client/State/Auth.antt =====
-- apps/g2-client/src/state/index.ts: credentials, enrollment storage and revocation.
use palancar.Base.{
  ℕ, Bool, true, false, ◌&&◌, none, some, [], nat_beq, if◌then◌else◌, Text, text_eq,
}
use palancar.Client.State.Types.{
  revoking, authentication, ReadyState, ClientState, enrolling, storage_error, target_selection,
  enrollment_checking, enrollment_required, ready, listening, finalizing, translating, results,
  error, credential_rejected, Reduction,
}
use palancar.Client.State.Guards.{valid_auth_generation, valid_auth_attempt}
use palancar.Client.State.Sessions.{
  state_target, cleanup_effects, boundary_cleanup_effects, state_auth_generation, no_change,
  becomes,
}
use palancar.Client.State.Messages.{fatal_message, shutdown_message}

-- The states whose session a rejected credential closes.
is_authenticated_session_state : ClientState → Bool
is_authenticated_session_state (ready r) = true
is_authenticated_session_state (listening t) = true
is_authenticated_session_state (finalizing t) = true
is_authenticated_session_state (translating t e) = true
is_authenticated_session_state (results t e ss i) = true
is_authenticated_session_state s = false

is_revocable_session_state : ClientState → Bool
is_revocable_session_state (target_selection l n) = true
is_revocable_session_state (ready r) = true
is_revocable_session_state (listening t) = true
is_revocable_session_state (finalizing t) = true
is_revocable_session_state (translating t e) = true
is_revocable_session_state (results t e ss i) = true
is_revocable_session_state s = false

-- The state that `f` makes of the target and the authentication attempt, after the effects that close
-- the session.
leave : ClientState → (Text → ℕ → ClientState) → Reduction
leave s f = elim (state_target s) [
  | none ↦ no_change s
  | some l ↦ elim (state_auth_generation s) [
    | none ↦ no_change s
    | some n ↦ becomes (f l n) (boundary_cleanup_effects s)
  ]
]

unfoldable pub reject_credential : ClientState → Reduction
unfolding is_authenticated_session_state leave
reject_credential s =
    if is_authenticated_session_state s
    then leave s (λ l n. enrollment_required l n credential_rejected)
    else no_change s

unfoldable pub fail_credential_storage : ClientState → Reduction
unfolding is_authenticated_session_state leave
fail_credential_storage s =
    if is_authenticated_session_state s then leave s storage_error else no_change s

unfoldable pub start_revocation : ClientState → Reduction
unfolding is_revocable_session_state leave
start_revocation s =
    if is_revocable_session_state s
    then leave s (λ l n. enrollment_checking l n revoking)
    else no_change s

fail_storage : ClientState → Text → ℕ → Reduction
fail_storage s l n = if valid_auth_generation n then becomes (storage_error l n) [] else no_change s

unfoldable pub fail_enrollment_storage : ClientState → Reduction
unfolding fail_storage
fail_enrollment_storage (enrollment_checking l n p) = fail_storage (enrollment_checking l n p) l n
fail_enrollment_storage (enrollment_required l n r) = fail_storage (enrollment_required l n r) l n
fail_enrollment_storage (enrolling l n) = fail_storage (enrolling l n) l n
fail_enrollment_storage s = no_change s

-- `matchesAuthAttempt`
unfoldable pub matches_auth_attempt : ReadyState → ℕ → Bool
matches_auth_attempt r n =
    elim r.pending [ authentication ↦ true | _ ↦ false ]
    && elim r.message [ none ↦ true | some m ↦ false ]
    && valid_auth_attempt r.auth_attempt
    && nat_beq r.auth_attempt n

-- Terminates with the message, unless the state is a terminal error already.
terminate : Text → ClientState → Reduction
terminate m (error n true l s) = no_change (error n true l s)
terminate m s = becomes (error m true (state_target s) none) (cleanup_effects s)

unfoldable pub fatal_reduction : ClientState → Reduction
unfolding terminate
fatal_reduction s = terminate fatal_message s

unfoldable pub shutdown_reduction : ClientState → Reduction
unfolding terminate
shutdown_reduction s = terminate shutdown_message s

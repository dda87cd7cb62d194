-- ===== src/Client/State/Enrollment.antt =====
-- apps/g2-client/src/state/index.ts: the cases of `reduceClientState` up to a session.
use palancar.Base.{ℕ, true, none, some, [], ◌∷◌, if◌then◌else◌, text_eq}
use palancar.Client.State.Types.{
  EnrollmentReason, checking, revoking, initial, ReadyState, ClientState, starting, enrolling,
  storage_error, target_selection, enrollment_checking, enrollment_required, ready, error,
  ClientEffect, check_enrollment_initialize, cancel_session_boundary, start_session, Reduction,
}
use palancar.Client.State.Sessions.{no_change, becomes}
use palancar.Client.State.Messages.{startup_failed_message, auth_unavailable_message}
use palancar.Client.State.Auth.{matches_auth_attempt}
use palancar.Client.State.Turns.{authentication_ready}

unfoldable pub on_startup_ready : ClientState → Reduction
on_startup_ready (starting l n) =
    becomes (enrollment_checking l n checking) (check_enrollment_initialize ∷ [])
on_startup_ready s = no_change s

unfoldable pub on_startup_failed : ClientState → Reduction
on_startup_failed (starting l n) = becomes (error startup_failed_message true (some l) none) []
on_startup_failed s = no_change s

unfoldable pub on_enrollment_ready : ClientState → Reduction
on_enrollment_ready (enrollment_checking l n checking) = becomes (target_selection l n) []
on_enrollment_ready (enrolling l n) = becomes (target_selection l n) []
on_enrollment_ready s = no_change s

unfoldable pub on_enrollment_required : ClientState → EnrollmentReason → Reduction
on_enrollment_required (enrollment_checking l n checking) r = becomes (enrollment_required l n r) []
on_enrollment_required s r = no_change s

unfoldable pub on_enrollment_started : ClientState → Reduction
on_enrollment_started (enrollment_required l n r) = becomes (enrolling l n) []
on_enrollment_started s = no_change s

-- The cases `enrollment.failed` and `enrollment.unavailable`.
unfoldable pub on_enrollment_failed : ClientState → EnrollmentReason → Reduction
on_enrollment_failed (enrolling l n) r = becomes (enrollment_required l n r) []
on_enrollment_failed s r = no_change s

-- The cases `enrollment.retry` and `enrollment.reset`.
unfoldable pub on_storage_retry : ClientState → ClientEffect → Reduction
on_storage_retry (storage_error l n) e = becomes (enrollment_checking l n checking) (e ∷ [])
on_storage_retry s e = no_change s

-- An event about the authentication attempt `n`: what `f` makes of the state that waits for it.
unfoldable pub on_attempt : ClientState → ℕ → (ReadyState → Reduction) → Reduction
on_attempt (ready r) n f = if matches_auth_attempt r n then f r else no_change (ready r)
on_attempt s n f = no_change s

unfoldable pub authenticated : ReadyState → Reduction
authenticated r =
    becomes
      (ready (record {
        target_language = r.target_language;
        auth_attempt = r.auth_attempt;
        turn = 0;
        message = none;
        pending = initial;
      }))
      (start_session r.target_language ∷ [])

unfoldable pub auth_required : EnrollmentReason → ReadyState → Reduction
auth_required reason r =
    becomes (enrollment_required r.target_language r.auth_attempt reason)
      (cancel_session_boundary ∷ [])

unfoldable pub auth_storage_error : ReadyState → Reduction
auth_storage_error r =
    becomes (storage_error r.target_language r.auth_attempt) (cancel_session_boundary ∷ [])

unfoldable pub auth_unavailable : ReadyState → Reduction
auth_unavailable r =
    becomes (authentication_ready r.target_language r.auth_attempt (some auth_unavailable_message))
      []

unfoldable pub on_revocation_completed : ClientState → EnrollmentReason → Reduction
on_revocation_completed (enrollment_checking l n revoking) r =
    becomes (enrollment_required l n r) []
on_revocation_completed s r = no_change s

-- ===== src/Client/State/Readiness.antt =====
-- apps/g2-client/src/state/index.ts: the cases `session.ready` and `recovery.failed`.
use palancar.Base.{
  Bool, true, false, ◌&&◌, not, Option, none, some, [], ◌∷◌, ltb, if◌then◌else◌, ◌==◌, Text, codes,
  text_eq, Value,
}
use palancar.Client.State.Types.{
  SessionIdentity, Pending, initial, authentication, recovery, established, ReadyState, ClientState,
  ready, error, SessionReadyEvent, end_session, Reduction,
}
use palancar.Client.State.Guards.{text_of}
use palancar.Client.State.Sessions.{
  state_session, event_session, identity_eq, same_session, no_change, becomes,
}
use palancar.Client.State.Messages.{
  recovery_failed_message, recovery_invalid_message, session_mismatch_message,
}
use palancar.Languages.{is_target_language}

-- `eventTarget`
event_target : SessionReadyEvent → Option Text
event_target e = elim (text_of e.target_language) [
  | none ↦ none
  | some l ↦ if is_target_language l then some l else none
]

is_new : SessionReadyEvent → Bool
is_new e = elim (text_of e.result) [ none ↦ false | some s ↦ s == codes "new" ]

-- `sessionReadyMismatch`: it ends the session of the state, else that of the event.
mismatch : ReadyState → SessionIdentity → Reduction
mismatch r e =
    becomes (error session_mismatch_message true (some r.target_language) none)
      (elim (state_session (ready r)) [ none ↦ end_session e ∷ [] | some s ↦ end_session s ∷ [] ])

-- `invalidRecoveryReady`
unfoldable pub invalid_recovery : ReadyState → SessionIdentity → SessionReadyEvent → Reduction
invalid_recovery r previous e =
    becomes (error recovery_invalid_message true (some r.target_language) none)
      (elim (event_session e.session_id e.session_epoch) [
        | none ↦ []
        | some s ↦ if identity_eq s previous then [] else end_session s ∷ []
      ])

unfoldable pub establish : ReadyState → SessionIdentity → ClientState
establish r s = ready (record r { pending = established s })

-- The session of an event that passes the first guards, for the state's target or for another one.
unfoldable pub ready_session : SessionReadyEvent → Option (Text × SessionIdentity)
unfolding event_target is_new
ready_session e = elim (event_target e) [
  | none ↦ none
  | some l ↦ elim (event_session e.session_id e.session_epoch) [
    | none ↦ none
    | some s ↦ if is_new e then some (l, s) else none
  ]
]

-- A session with another id and a later epoch recovers.
unfoldable pub recovers : ReadyState → SessionIdentity → Text × SessionIdentity → Bool
recovers r previous (l, s) =
    (l == r.target_language)
    && not (s.session_id == previous.session_id)
    && ltb previous.session_epoch s.session_epoch

unfoldable pub recover : ReadyState → SessionIdentity → SessionReadyEvent → Reduction
recover r previous e = elim (ready_session e) [
  | none ↦ invalid_recovery r previous e
  | some (l, s) ↦ elim (state_session (ready r)) [
    | none ↦ invalid_recovery r previous e
    | some p ↦
        if recovers r p (l, s) then becomes (establish r s) [] else invalid_recovery r previous e
  ]
]

-- The first session, or a second announcement of the one that is established.
unfoldable pub announce : ReadyState → Pending → SessionReadyEvent → Reduction
unfolding mismatch
announce r p e = elim (ready_session e) [
  | none ↦ no_change (ready r)
  | some (l, s) ↦
      if l == r.target_language
      then elim p [
        | established i ↦
            if same_session (ready r) e.session_id e.session_epoch
            then no_change (ready r)
            else mismatch r s
        | _ ↦ becomes (establish r s) []
      ]
      else mismatch r s
]

ready_for : ReadyState → Pending → SessionReadyEvent → Reduction
ready_for r authentication e = no_change (ready r)
ready_for r (recovery previous) e = recover r previous e
ready_for r initial e = announce r initial e
ready_for r (established s) e = announce r (established s) e

unfoldable pub on_session_ready : ClientState → SessionReadyEvent → Reduction
unfolding ready_for
on_session_ready (ready r) e = ready_for r r.pending e
on_session_ready s e = no_change s

fail_recovery : ReadyState → Pending → Bool → Reduction
fail_recovery r (recovery p) true =
    becomes (error recovery_failed_message true (some r.target_language) none) []
fail_recovery r p b = no_change (ready r)

unfoldable pub on_recovery_failed : ClientState → Value → Value → Reduction
unfolding fail_recovery
on_recovery_failed (ready r) id epoch = fail_recovery r r.pending (same_session (ready r) id epoch)
on_recovery_failed s id epoch = no_change s

-- ===== src/Client/State/Turns.antt =====
-- apps/g2-client/src/state/index.ts: a press and the loss of the transport.
use palancar.Base.{
  ℕ, ◌+◌, Bool, false, ◌||◌, not, Option, none, some, List, [], ◌∷◌, leb, if◌then◌else◌, ◌==◌, Text,
  text_eq, Value,
}
use palancar.Client.State.Types.{
  SessionIdentity, Pending, initial, authentication, recovery, established, ReadyState, ActiveTurn,
  Suggestion, ClientState, target_selection, ready, listening, finalizing, translating, results,
  persist_target, prepare_session_auth, start_fresh_session, start_audio, stop_audio,
  start_utterance, commit_utterance, Reduction,
}
use palancar.Client.State.Guards.{is_positive_uint32, next_auth_attempt, max_uint32}
use palancar.Client.State.Sessions.{state_session, turn_identity, same_session, no_change, becomes}
use palancar.Client.State.Messages.{transport_lost_message, auth_unavailable_message}
use palancar.Contracts.Uuid.{is_uuid}

unfoldable pub authentication_ready : Text → ℕ → Option Text → ClientState
authentication_ready l n m = ready (record {
  target_language = l;
  auth_attempt = n;
  turn = 0;
  message = m;
  pending = authentication;
})

press_selection : Text → ℕ → Reduction
press_selection l n = elim (next_auth_attempt n) [
  | none ↦ no_change (target_selection l n)
  | some m ↦
      becomes (authentication_ready l m none) (persist_target l ∷ (prepare_session_auth l m ∷ []))
]

is_auth_unavailable : Option Text → Bool
is_auth_unavailable none = false
is_auth_unavailable (some m) = m == auth_unavailable_message

press_authentication : ReadyState → Reduction
unfolding is_auth_unavailable
press_authentication r =
    if is_auth_unavailable r.message
    then elim (next_auth_attempt r.auth_attempt) [
      | none ↦ no_change (ready r)
      | some m ↦
          becomes (authentication_ready r.target_language m none)
            (prepare_session_auth r.target_language m ∷ [])
    ]
    else no_change (ready r)

valid_utterance : Option Text → Option Text
valid_utterance none = none
valid_utterance (some u) = if is_uuid u then some u else none

-- The turn after the turn number `n`, with the effects that start it.
begin_turn : Text → ℕ → SessionIdentity → Text → ℕ → Reduction
begin_turn l attempt s u n =
    becomes
      (listening (record {
        target_language = l;
        auth_attempt = attempt;
        session_id = s.session_id;
        session_epoch = s.session_epoch;
        utterance_id = u;
        turn = n + 1;
        transcript = [];
        segment_texts = [];
        segment_revisions = [];
        final_segments = [];
        final_transcript = none;
        final_segment_id = none;
        final_revision = none;
      }))
      (start_utterance s u ∷ (start_audio s u ∷ []))

press_established : ReadyState → Option Text → Reduction
unfolding valid_utterance begin_turn
press_established r utterance = elim (state_session (ready r)) [
  | none ↦ no_change (ready r)
  | some s ↦ elim (valid_utterance utterance) [
    | none ↦ no_change (ready r)
    | some u ↦ begin_turn r.target_language r.auth_attempt s u r.turn
  ]
]

press_ready : ReadyState → Pending → Option Text → Reduction
unfolding press_authentication press_established
press_ready r authentication u = press_authentication r
press_ready r (established s) u = press_established r u
press_ready r initial u = no_change (ready r)
press_ready r (recovery s) u = no_change (ready r)

press_listening : ActiveTurn → Reduction
press_listening t =
    let s = turn_identity t in
    becomes (finalizing t) (stop_audio s t.utterance_id ∷ (commit_utterance s t.utterance_id ∷ []))

press_results : ActiveTurn → Text → List Suggestion → ℕ → Option Text → Reduction
unfolding valid_utterance begin_turn
press_results t translated ss i utterance = elim (state_session (results t translated ss i)) [
  | none ↦ no_change (results t translated ss i)
  | some s ↦ elim (valid_utterance utterance) [
    | none ↦ no_change (results t translated ss i)
    | some u ↦
        if (u == t.utterance_id) || not (is_positive_uint32 t.turn) || leb max_uint32 t.turn
        then no_change (results t translated ss i)
        else begin_turn t.target_language t.auth_attempt s u t.turn
  ]
]

unfoldable pub press_reduction : ClientState → Option Text → Reduction
unfolding press_selection press_ready press_listening press_results
press_reduction (target_selection l n) u = press_selection l n
press_reduction (ready r) u = press_ready r r.pending u
press_reduction (listening t) u = press_listening t
press_reduction (results t translated ss i) u = press_results t translated ss i u
press_reduction s u = no_change s

recovery_ready : Text → ℕ → ℕ → SessionIdentity → ClientState
recovery_ready l n attempt s = ready (record {
  target_language = l;
  auth_attempt = attempt;
  turn = n;
  message = some transport_lost_message;
  pending = recovery s;
})

lose_ready : ReadyState → Pending → Reduction
unfolding recovery_ready
lose_ready r (established i) = elim (state_session (ready r)) [
  | none ↦ no_change (ready r)
  | some s ↦
      becomes (recovery_ready r.target_language r.turn r.auth_attempt s)
        (start_fresh_session r.target_language s ∷ [])
]
lose_ready r p = no_change (ready r)

lose_turn : ClientState → ActiveTurn → Reduction
unfolding recovery_ready
lose_turn st t = elim (state_session st) [
  | none ↦ no_change st
  | some s ↦
      becomes (recovery_ready t.target_language t.turn t.auth_attempt s)
        (stop_audio s t.utterance_id ∷ (start_fresh_session t.target_language s ∷ []))
]

lose : ClientState → Reduction
unfolding lose_ready lose_turn
lose (ready r) = lose_ready r r.pending
lose (listening t) = lose_turn (listening t) t
lose (finalizing t) = lose_turn (finalizing t) t
lose (translating t translated) = lose_turn (translating t translated) t
lose (results t translated ss i) = lose_turn (results t translated ss i) t
lose s = no_change s

unfoldable pub handle_transport_lost : ClientState → Value → Value → Reduction
unfolding lose
handle_transport_lost s id epoch = if same_session s id epoch then lose s else no_change s

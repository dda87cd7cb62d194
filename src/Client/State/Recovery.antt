-- ===== src/Client/State/Recovery.antt =====
-- apps/g2-client/src/state/index.ts: recovery of a session, and swipes.
use palancar.Base.{
  ◌∙◌, ap, sym, subst, ◌↔◌, ℕ, ◌+◌, ◌-◌, ◌%◌, ◌≤◌, ◌<◌, ◌≡◌, refl, ◌≢◌, ◌⊎◌, inl, inr, true, false,
  none, some, List, [], ◌∷◌, arith, nat_beq, Bool-cases, Option-cases, length, Text, text_beq_iff,
  text_eq,
}
use palancar.Client.State.Types.{
  SessionIdentity, recovery, established, ReadyState, ActiveTurn, Suggestion, ready, results, error,
  SessionReadyEvent, ClientEffect, end_session, Reduction,
}
use palancar.Client.State.Sessions.{state_session, event_session, identity_eq, no_change, becomes}
use palancar.Client.State.Messages.{recovery_invalid_message}
use palancar.Client.State.Types.{swipe_next, swipe_previous, session_ready}
use palancar.Client.State.Outcomes.{swipe_next_result, swipe_previous_result}
use palancar.Client.State.Readiness.{on_session_ready, recover, establish, recovers}
use palancar.Client.State.{on_swipe_next, on_swipe_previous, reduce_client_state}
use palancar.Client.State.Readiness.{ready_session, invalid_recovery}
use palancar.Client.State.Bounds.{IsClient}

-- The event announces a new session for the state's target, with another id and a later epoch.
abbrev pub Recovers : ReadyState → SessionIdentity → SessionReadyEvent → SessionIdentity → Type 0
Recovers r p e s =
    (ready_session e ≡ some (r.target_language, s))
    × (p.session_epoch < s.session_epoch)
    × (s.session_id ≢ p.session_id)

abbrev pub Recovered : ReadyState → SessionIdentity → SessionReadyEvent → Reduction → Type 0
Recovered r p e q =
    (s : SessionIdentity) × Recovers r p e s
    × (q ≡ becomes (ready (record r { pending = established s })) [])

-- What ends the event's session, unless it has none or it is the one that is being recovered.
abbrev pub Ends : SessionIdentity → SessionReadyEvent → List ClientEffect → Type 0
Ends p e effects =
    ((event_session e.session_id e.session_epoch ≡ none) × (effects ≡ []))
    ⊎ ((s : SessionIdentity) × (event_session e.session_id e.session_epoch ≡ some s)
        × (((s ≡ p) × (effects ≡ [])) ⊎ ((s ≢ p) × (effects ≡ end_session s ∷ []))))

-- A terminal error, for an event that announces no such session.
abbrev pub Refused : ReadyState → SessionIdentity → SessionReadyEvent → Reduction → Type 0
Refused r p e q =
    ¬ ((s : SessionIdentity) × Recovers r p e s)
    × (q.state ≡ error recovery_invalid_message true (some r.target_language) none)
    × Ends p e q.effects

identity_eq_iff : (s p : SessionIdentity) → (identity_eq s p ≡ true) ↔ (s ≡ p)
unfolding identity_eq
identity_eq_iff s p = (
  λ h.
      let x : s.session_id ≡ p.session_id =
        (text_beq_iff s.session_id p.session_id).0 (ground arith) in
      let y : s.session_epoch ≡ p.session_epoch = ground arith in
      λ i. record { session_id = x i; session_epoch = y i },
  λ h. rw h (ground (arith, (text_beq_iff p.session_id p.session_id).1 refl)),
)

invalid_recovery-Ends :
    (r : ReadyState) (p : SessionIdentity) (e : SessionReadyEvent)
    → Ends p e (invalid_recovery r p e).effects
unfolding invalid_recovery becomes
invalid_recovery-Ends r p e = elim (Option-cases (event_session e.session_id e.session_epoch)) [
  | inl n ↦ inl (n, rw n refl)
  | inr (s, n) ↦ elim (Bool-cases (identity_eq s p)) [
    | inl b ↦ inr (s, n, inl ((identity_eq_iff s p).0 b, ground (arith, n, b)))
    | inr b ↦ inr (s, n, inr (λ q. let t = (identity_eq_iff s p).1 q in cc, ground (arith, n, b)))
  ]
]

invalid_recovery-state :
    (r : ReadyState) (p : SessionIdentity) (e : SessionReadyEvent)
    → (invalid_recovery r p e).state
      ≡ error recovery_invalid_message true (some r.target_language) none
unfolding invalid_recovery becomes
invalid_recovery-state r p e = refl

recovers-cases :
    (r : ReadyState) (p s : SessionIdentity) (l : Text)
    → ((recovers r p (l, s) ≡ true)
        × (l ≡ r.target_language)
        × (p.session_epoch < s.session_epoch)
        × (s.session_id ≢ p.session_id))
      ⊎ ((recovers r p (l, s) ≡ false)
          × ¬ (
              (l ≡ r.target_language)
              × (p.session_epoch < s.session_epoch)
              × (s.session_id ≢ p.session_id)))
unfolding recovers
recovers-cases r p s l =
    ground (arith, text_beq_iff l r.target_language, text_beq_iff s.session_id p.session_id)

recover-Recovered :
    (r : ReadyState) (p : SessionIdentity) (e : SessionReadyEvent)
    → state_session (ready r) ≡ some p
    → Recovered r p e (recover r p e)
      ⊎ (¬ ((s : SessionIdentity) × Recovers r p e s) × (recover r p e ≡ invalid_recovery r p e))
unfolding recover establish becomes
recover-Recovered r p e k = elim (Option-cases (ready_session e)) [
  | inl n ↦ inr (λ c. let q = c.1.0 in cc, ground (arith, n))
  | inr ((l, s), n) ↦ elim (recovers-cases r p s l) [
    | inl (b, m, x, d) ↦ inl (s, (n ∙ ap (λ z. some (z, s)) m, x, d), ground (arith, n, m, k, b))
    | inr (b, x) ↦ inr (
      λ c.
          let q : some (l, s) ≡ some (r.target_language, c.0) = sym n ∙ c.1.0 in
          let m : l ≡ r.target_language = cc in
          let d : s ≡ c.0 = cc in
          x (
            m,
            subst (λ z. p.session_epoch < z.session_epoch) (sym d) c.1.1,
            subst (λ z. z.session_id ≢ p.session_id) (sym d) c.1.2,
          ),
      ground (arith, n, k, b),
    )
  ]
]

-- In a state that recovers the session `p`, `session.ready` establishes the session that it announces
-- if that is a new one for the state's target with another id and a later epoch, without an effect. It
-- ends in a terminal error otherwise, with the effect that ends the event's session, unless it names
-- none or `p`.
pub reduce_client_state-recovery :
    (r : ReadyState) (p : SessionIdentity) (e : SessionReadyEvent)
    → r.pending ≡ recovery p
    → state_session (ready r) ≡ some p
    → Recovered r p e (reduce_client_state (ready r) (session_ready e))
      ⊎ Refused r p e (reduce_client_state (ready r) (session_ready e))
unfolding reduce_client_state on_session_ready
reduce_client_state-recovery r p e h k =
    let q : reduce_client_state (ready r) (session_ready e) ≡ recover r p e = ground (arith, h) in
    rw q (elim (recover-Recovered r p e k) [
      | inl c ↦ inl c
      | inr (n, c) ↦ inr (
        n,
        ap (λ x. x.state) c ∙ invalid_recovery-state r p e,
        subst (λ x. Ends p e x.effects) (sym c) (invalid_recovery-Ends r p e),
      )
    ])

next-previous : (n i : ℕ) → 2 ≤ n → n ≤ 3 → i < n → ((i + 1 + n) % n + (n - 1) + n) % n ≡ i
next-previous n i a b c =
    let d : (n ≡ 2) ⊎ (n ≡ 3) = omega arith in
    elim d [
      | inl e ↦ let f : i < 2 = omega arith in rw e (omega arith)
      | inr e ↦ let f : i < 3 = omega arith in rw e (omega arith)
    ]

-- A swipe to the next suggestion and one to the previous undo each other, where the index is that of a
-- suggestion.
pub swipe_previous-next :
    (t : ActiveTurn) (translated : Text) (ss : List Suggestion) (i : ℕ)
    → IsClient (results t translated ss i)
    → (reduce_client_state
        (reduce_client_state (results t translated ss i) swipe_next).state
        swipe_previous).state
      ≡ results t translated ss i
unfolding reduce_client_state on_swipe_next on_swipe_previous swipe_next_result
    swipe_previous_result becomes no_change
swipe_previous-next t translated ss i (h, a, b, c) =
    let n : nat_beq (length ss) 0 ≡ false = ground arith in
    let q : on_swipe_next (results t translated ss i)
        ≡ becomes (results t translated ss ((i + 1 + length ss) % length ss)) [] =
      ground (arith, n) in
    rw q (ground (arith, n, next-previous (length ss) i a b c))

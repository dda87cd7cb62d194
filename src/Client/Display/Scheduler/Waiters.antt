-- ===== src/Client/Display/Scheduler/Waiters.antt =====
-- apps/g2-client/src/display/scheduler.ts: the promises that wait and those that are settled.
use palancar.Base.{
  ℕ, ◌+◌, ◌≡◌, refl, ◌⊎◌, true, none, List, [], ◌∷◌, ◌++◌, arith, ltb, nat_beq, if◌then◌else◌,
  text_eq, nat_eq,
}
use palancar.Client.Display.Scheduler.{
  Failure, update_failed, sink_error, Operation, no_operation, queued, calling, refusing, finishing,
  Scheduler, Output, sent, resolved, rejected, SinkAnswer, shown, not_shown, broken, resolve,
  reject, waiters_of, is_running, answer,
}

-- How often a promise stands in a list.
unfoldable pub occurrences : ℕ → List ℕ → ℕ
occurrences k [] = 0
occurrences k (w ∷ ws) = (if nat_beq w k then 1 else 0) + occurrences k ws

-- How often a promise is settled.
unfoldable pub settlements : ℕ → List Output → ℕ
settlements k [] = 0
settlements k (sent u ∷ os) = settlements k os
settlements k (resolved w ∷ os) = (if nat_beq w k then 1 else 0) + settlements k os
settlements k (rejected w e ∷ os) = (if nat_beq w k then 1 else 0) + settlements k os

unfoldable pub operation_waiters : Operation → List ℕ
operation_waiters no_operation = []
operation_waiters (queued b) = b.waiters
operation_waiters (calling b) = b.waiters
operation_waiters (refusing b) = b.waiters
operation_waiters finishing = []

-- How often a promise waits in a scheduler.
unfoldable pub waiting : ℕ → Scheduler → ℕ
unfolding operation_waiters
waiting k s =
    occurrences k (waiters_of s.debounced)
    + occurrences k (waiters_of s.pending)
    + occurrences k (operation_waiters s.operation)
    + occurrences k s.idle_waiters

-- Whether a promise has been made, as a number.
unfoldable pub is_made : ℕ → Scheduler → ℕ
is_made k s = if ltb k s.promises then 1 else 0

pub occurrences-append :
    (k : ℕ) (xs ys : List ℕ) → occurrences k (xs ++ ys) ≡ occurrences k xs + occurrences k ys
unfolding occurrences
occurrences-append k [] ys = omega arith
occurrences-append k (x ∷ xs) ys = omega (arith, occurrences-append k xs ys)

pub settlements-append :
    (k : ℕ) (os ps : List Output) → settlements k (os ++ ps) ≡ settlements k os + settlements k ps
unfolding settlements
settlements-append k [] ps = omega arith
settlements-append k (sent u ∷ os) ps = settlements-append k os ps
settlements-append k (resolved w ∷ os) ps = omega (arith, settlements-append k os ps)
settlements-append k (rejected w e ∷ os) ps = omega (arith, settlements-append k os ps)

pub settlements-resolve : (k : ℕ) (ws : List ℕ) → settlements k (resolve ws) ≡ occurrences k ws
unfolding settlements resolve occurrences
settlements-resolve k [] = refl
settlements-resolve k (w ∷ ws) = omega (arith, settlements-resolve k ws)

pub settlements-reject :
    (k : ℕ) (e : Failure) (ws : List ℕ) → settlements k (reject e ws) ≡ occurrences k ws
unfolding settlements reject occurrences
settlements-reject k e [] = refl
settlements-reject k e (w ∷ ws) = omega (arith, settlements-reject k e ws)

pub settlements-answer :
    (k : ℕ) (a : SinkAnswer) (ws : List ℕ) → settlements k (answer a ws) ≡ occurrences k ws
unfolding answer
settlements-answer k shown ws = settlements-resolve k ws
settlements-answer k not_shown ws = settlements-reject k update_failed ws
settlements-answer k broken ws = settlements-reject k sink_error ws

-- An update is pending only behind an operation, and not beside one that waits for its timer.
pub record IsScheduler (s : Scheduler) : Type 0 where
  pub behind : (s.pending ≡ none) ⊎ (is_running s.operation ≡ true)
  pub single : (s.debounced ≡ none) ⊎ (s.pending ≡ none)

-- A step keeps the invariant, and settles or keeps each promise that waits, and each that it makes.
abbrev pub Accounts : ℕ → Scheduler → Scheduler × List Output → Type 0
Accounts k s r =
    IsScheduler r.0
    × (waiting k r.0 + settlements k r.1 + is_made k s ≡ waiting k s + is_made k r.0)

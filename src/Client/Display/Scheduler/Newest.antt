-- ===== src/Client/Display/Scheduler/Newest.antt =====
-- apps/g2-client/src/display/scheduler.ts: the latest update accepted, and the last one sent.
use palancar.Base.{
  ℕ, ◌≡◌, refl, Bool, true, false, Option, none, some, List, [], ◌∷◌, ◌++◌, if◌then◌else◌, text_eq,
  nat_eq,
}
use palancar.Client.Display.Scheduler.{
  TextUpgrade, Target, Failure, update_failed, sink_error, Batch, Operation, no_operation, queued,
  calling, refusing, finishing, Scheduler, Output, sent, resolved, rejected, SinkAnswer, shown,
  not_shown, broken, Event, schedule, cleanup, when_idle, timer, begin, sink_settled, refused,
  finish, valid_update, resolve, reject, answer,
}

-- The latest update that the target accepts, of the calls of `schedule` in a list.
unfoldable pub newer : Target → Option TextUpgrade → Event → Option TextUpgrade
newer t u (schedule v) = if valid_update t v then some v else u
newer t u cleanup = u
newer t u when_idle = u
newer t u timer = u
newer t u begin = u
newer t u (sink_settled a) = u
newer t u refused = u
newer t u finish = u

unfoldable pub latest : Target → Option TextUpgrade → List Event → Option TextUpgrade
latest t u [] = u
latest t u (e ∷ es) = latest t (newer t u e) es

unfoldable pub is_cleanup : Event → Bool
is_cleanup (schedule v) = false
is_cleanup cleanup = true
is_cleanup when_idle = false
is_cleanup timer = false
is_cleanup begin = false
is_cleanup (sink_settled a) = false
is_cleanup refused = false
is_cleanup finish = false

unfoldable pub last_sent : Option TextUpgrade → List Output → Option TextUpgrade
last_sent u [] = u
last_sent u (sent v ∷ os) = last_sent (some v) os
last_sent u (resolved w ∷ os) = last_sent u os
last_sent u (rejected w e ∷ os) = last_sent u os

unfoldable pub update_of : Option Batch → Option TextUpgrade → Option TextUpgrade
update_of none u = u
update_of (some b) u = some b.update

unfoldable pub operation_update : Operation → Option TextUpgrade → Option TextUpgrade
operation_update no_operation u = u
operation_update (queued b) u = some b.update
operation_update (calling b) u = u
operation_update (refusing b) u = u
operation_update finishing u = u

-- What is shown at last when every callback has run: the update that waits longest in line, or else the
-- one that was sent last.
unfoldable pub newest : Scheduler → Option TextUpgrade → Option TextUpgrade
unfolding update_of operation_update
newest s u = update_of s.debounced (update_of s.pending (operation_update s.operation u))

pub last_sent-append :
    (u : Option TextUpgrade) (os ps : List Output)
    → last_sent u (os ++ ps) ≡ last_sent (last_sent u os) ps
unfolding last_sent
last_sent-append u [] ps = refl
last_sent-append u (sent v ∷ os) ps = last_sent-append (some v) os ps
last_sent-append u (resolved w ∷ os) ps = last_sent-append u os ps
last_sent-append u (rejected w e ∷ os) ps = last_sent-append u os ps

pub last_sent-resolve : (u : Option TextUpgrade) (ws : List ℕ) → last_sent u (resolve ws) ≡ u
unfolding last_sent resolve
last_sent-resolve u [] = refl
last_sent-resolve u (w ∷ ws) = last_sent-resolve u ws

pub last_sent-reject :
    (u : Option TextUpgrade) (e : Failure) (ws : List ℕ) → last_sent u (reject e ws) ≡ u
unfolding last_sent reject
last_sent-reject u e [] = refl
last_sent-reject u e (w ∷ ws) = last_sent-reject u e ws

pub last_sent-answer :
    (u : Option TextUpgrade) (a : SinkAnswer) (ws : List ℕ) → last_sent u (answer a ws) ≡ u
unfolding answer
last_sent-answer u shown ws = last_sent-resolve u ws
last_sent-answer u not_shown ws = last_sent-reject u update_failed ws
last_sent-answer u broken ws = last_sent-reject u sink_error ws

-- ===== src/Client/Display/Scheduler/Latest.antt =====
-- apps/g2-client/src/display/scheduler.ts: the latest update is the one that is shown in the end.
use palancar.Base.{
  ◌≡◌, refl, sym, ap, ◌∙◌, inl, inr, true, false, ◌&&◌, not, Option, none, some, List, [], ◌∷◌,
  arith, Bool-cases, All, text_eq, nat_eq,
}
use palancar.Client.Display.Scheduler.{
  TextUpgrade, Target, scheduler_cancelled, Batch, Operation, no_operation, queued, calling,
  refusing, finishing, Scheduler, Output, SinkAnswer, Event, schedule, cleanup, when_idle, timer,
  begin, sink_settled, refused, finish, created, is_running, is_idle, is_none, notify_if_idle,
  schedule_update, when_idle_called, flush_batch, flush_debounced, begin_operation,
  settle_operation, refuse_operation, next_operation, finish_operation, step, run,
}
use palancar.Client.Display.Scheduler.Waiters.{IsScheduler}
use palancar.Client.Display.Scheduler.Promises.{step-Accounts, resting-pending}
use palancar.Client.Display.Scheduler.Newest.{
  newer, latest, is_cleanup, last_sent, update_of, operation_update, newest, last_sent-append,
  last_sent-resolve, last_sent-reject, last_sent-answer,
}

-- A step without a cleanup hands on what is newest, and cancels nothing.
abbrev Follows : Option TextUpgrade → Scheduler → Event → Scheduler × List Output → Type 0
Follows u s e r =
    (newest r.0 (last_sent u r.1) ≡ newer s.target (newest s u) e)
    × (r.0.cancelled ≡ false)
    × (r.0.target ≡ s.target)

notify_if_idle-newest :
    (u : Option TextUpgrade) (s : Scheduler)
    → (newest (notify_if_idle s).0 (last_sent u (notify_if_idle s).1) ≡ newest s u)
      × ((notify_if_idle s).0.cancelled ≡ s.cancelled)
      × ((notify_if_idle s).0.target ≡ s.target)
unfolding notify_if_idle newest last_sent
notify_if_idle-newest u s = elim (Bool-cases (is_idle s)) [
  | inl idle ↦ rw (idle, last_sent-resolve u s.idle_waiters) (refl, refl, refl)
  | inr busy ↦ rw busy (refl, refl, refl)
]

schedule-Follows :
    (u : Option TextUpgrade) (s : Scheduler) (v : TextUpgrade)
    → s.cancelled ≡ false
    → Follows u s (schedule v) (schedule_update s v)
unfolding schedule_update newer newest last_sent
schedule-Follows u s v alive = ground arith

when_idle-Follows :
    (u : Option TextUpgrade) (s : Scheduler)
    → s.cancelled ≡ false
    → Follows u s when_idle (when_idle_called s)
unfolding when_idle_called newer newest last_sent
when_idle-Follows u s alive = elim (Bool-cases (is_idle s)) [
  | inl idle ↦ rw idle (refl, alive, refl)
  | inr busy ↦ rw busy (refl, alive, refl)
]

timer-Follows :
    (u : Option TextUpgrade) (s : Scheduler) (o : Option Batch)
    → s.debounced ≡ o
    → IsScheduler s
    → s.cancelled ≡ false
    → Follows u s timer (flush_debounced s o)
unfolding flush_debounced flush_batch newer newest last_sent update_of operation_update
timer-Follows u s none e v alive = let n = notify_if_idle-newest u s in (n.0, n.1 ∙ alive, n.2)
timer-Follows u s (some d) e v alive =
    let held : newest s u ≡ some d.update =
      ap (λ o. update_of o (update_of s.pending (operation_update s.operation u))) e in
    elim (Bool-cases (is_running s.operation)) [
      | inl busy ↦ rw busy (sym held, alive, refl)
      | inr free ↦
          rw free (
            ap (λ o. update_of o (some d.update)) (resting-pending s v free) ∙ sym held,
            alive,
            refl,
          )
    ]

begin-Follows :
    (u : Option TextUpgrade) (s : Scheduler) (o : Operation)
    → s.operation ≡ o
    → s.cancelled ≡ false
    → Follows u s begin (begin_operation s o)
unfolding begin_operation newer newest last_sent
begin-Follows u s (queued b) e alive = ground arith
begin-Follows u s no_operation e alive = (refl, alive, refl)
begin-Follows u s (calling b) e alive = (refl, alive, refl)
begin-Follows u s (refusing b) e alive = (refl, alive, refl)
begin-Follows u s finishing e alive = (refl, alive, refl)

settle-Follows :
    (u : Option TextUpgrade) (s : Scheduler) (o : Operation) (a : SinkAnswer)
    → s.operation ≡ o
    → s.cancelled ≡ false
    → Follows u s (sink_settled a) (settle_operation s o a)
unfolding settle_operation newer newest last_sent
settle-Follows u s (calling b) a e alive = ground (arith, last_sent-answer u a b.waiters)
settle-Follows u s no_operation a e alive = (refl, alive, refl)
settle-Follows u s (queued b) a e alive = (refl, alive, refl)
settle-Follows u s (refusing b) a e alive = (refl, alive, refl)
settle-Follows u s finishing a e alive = (refl, alive, refl)

refuse-Follows :
    (u : Option TextUpgrade) (s : Scheduler) (o : Operation)
    → s.operation ≡ o
    → s.cancelled ≡ false
    → Follows u s refused (refuse_operation s o)
unfolding refuse_operation newer newest last_sent
refuse-Follows u s (refusing b) e alive =
    ground (arith, last_sent-reject u scheduler_cancelled b.waiters)
refuse-Follows u s no_operation e alive = (refl, alive, refl)
refuse-Follows u s (queued b) e alive = (refl, alive, refl)
refuse-Follows u s (calling b) e alive = (refl, alive, refl)
refuse-Follows u s finishing e alive = (refl, alive, refl)

next-Follows :
    (u : Option TextUpgrade) (s : Scheduler) (o : Option Batch)
    → s.operation ≡ finishing
    → s.pending ≡ o
    → s.cancelled ≡ false
    → Follows u s finish (next_operation s o)
unfolding next_operation newer newest last_sent update_of operation_update
next-Follows u s none e q alive =
    let n = notify_if_idle-newest u (record s { operation = no_operation; pending = none }) in
    (
      n.0
          ∙ sym (
              ap (λ o. update_of s.debounced (update_of o (operation_update s.operation u))) q
              ∙ ap (λ o. update_of s.debounced (operation_update o u)) e),
      n.1 ∙ alive,
      n.2,
    )
next-Follows u s (some b) e q alive = (
  sym (ap (λ o. update_of s.debounced (update_of o (operation_update s.operation u))) q),
  alive,
  refl,
)

finish-Follows :
    (u : Option TextUpgrade) (s : Scheduler) (o : Operation)
    → s.operation ≡ o
    → s.cancelled ≡ false
    → Follows u s finish (finish_operation s o)
unfolding finish_operation newer last_sent
finish-Follows u s finishing e alive = next-Follows u s s.pending e refl alive
finish-Follows u s no_operation e alive = (refl, alive, refl)
finish-Follows u s (queued b) e alive = (refl, alive, refl)
finish-Follows u s (calling b) e alive = (refl, alive, refl)
finish-Follows u s (refusing b) e alive = (refl, alive, refl)

step-Follows :
    (u : Option TextUpgrade) (s : Scheduler) (e : Event)
    → is_cleanup e ≡ false
    → IsScheduler s
    → s.cancelled ≡ false
    → Follows u s e (step s e)
unfolding step is_cleanup
step-Follows u s (schedule v) h w alive = schedule-Follows u s v alive
step-Follows u s cleanup h w alive = cc
step-Follows u s when_idle h w alive = when_idle-Follows u s alive
step-Follows u s timer h w alive = timer-Follows u s s.debounced refl w alive
step-Follows u s begin h w alive = begin-Follows u s s.operation refl alive
step-Follows u s (sink_settled a) h w alive = settle-Follows u s s.operation a refl alive
step-Follows u s refused h w alive = refuse-Follows u s s.operation refl alive
step-Follows u s finish h w alive = finish-Follows u s s.operation refl alive

run-Follows :
    (u : Option TextUpgrade) (s : Scheduler) (es : List Event)
    → All (λ e. is_cleanup e ≡ false) es
    → IsScheduler s
    → s.cancelled ≡ false
    → newest (run s es).0 (last_sent u (run s es).1) ≡ latest s.target (newest s u) es
unfolding run latest last_sent
run-Follows u s [] h w alive = refl
run-Follows u s (e ∷ es) h w alive =
    let f = step-Follows u s e h.0 w alive in
    let next = (step s e).0 in
    let rest = run-Follows (last_sent u (step s e).1) next es h.1 (step-Accounts 0 s e w).0 f.1 in
    ap (newest (run next es).0) (last_sent-append u (step s e).1 (run next es).1)
    ∙ rest
    ∙ ap (λ v. latest next.target v es) f.0
    ∙ ap (λ t. latest t (newer s.target (newest s u) e) es) f.2

idle_update :
    (u : Option TextUpgrade) (o : Operation) (d p : Option Batch)
    → not (is_running o) && is_none d && is_none p ≡ true
    → update_of d (update_of p (operation_update o u)) ≡ u
unfolding is_running is_none update_of operation_update
idle_update u no_operation none none h = refl
idle_update u no_operation none (some p) h = cc
idle_update u no_operation (some d) p h = cc
idle_update u (queued b) d p h = cc
idle_update u (calling b) d p h = cc
idle_update u (refusing b) d p h = cc
idle_update u finishing d p h = cc

idle-newest : (u : Option TextUpgrade) (s : Scheduler) → is_idle s ≡ true → newest s u ≡ u
unfolding is_idle newest
idle-newest u s h = idle_update u s.operation s.debounced s.pending h

-- In any run of a new scheduler that calls no cleanup and ends idle, the update that was sent to the sink
-- last is the latest one that the scheduler accepted, and none was sent when none was accepted.
pub run-latest :
    (t : Target) (es : List Event)
    → All (λ e. is_cleanup e ≡ false) es
    → is_idle (run (created t) es).0 ≡ true
    → last_sent none (run (created t) es).1 ≡ latest t none es
unfolding newest update_of operation_update
run-latest t es kept idle =
    sym (idle-newest _ (run (created t) es).0 idle)
    ∙ run-Follows none (created t) es kept (record { behind = inl refl; single = inl refl }) refl

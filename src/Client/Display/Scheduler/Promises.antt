-- ===== src/Client/Display/Scheduler/Promises.antt =====
-- apps/g2-client/src/display/scheduler.ts: every promise that the scheduler returns is settled once.
use palancar.Base.{
  ℕ, ◌+◌, ◌≡◌, refl, sym, ap, subst, inl, inr, false, Option, none, some, List, [], ◌∷◌, arith, ltb,
  if◌then◌else◌, Bool-cases, text_eq, nat_eq,
}
use palancar.Client.Display.Scheduler.{
  Target, scheduler_cancelled, Batch, Operation, no_operation, queued, calling, refusing, finishing,
  Scheduler, sent, SinkAnswer, Event, schedule, cleanup, when_idle, timer, begin, sink_settled,
  refused, finish, created, waiters_of, is_running, flush_batch, flush_debounced, begin_operation,
  settle_operation, refuse_operation, next_operation, finish_operation, step, run,
}
use palancar.Client.Display.Scheduler.Waiters.{
  occurrences, settlements, operation_waiters, waiting, is_made, occurrences-append,
  settlements-append, settlements-reject, settlements-answer, IsScheduler, Accounts,
}
use palancar.Client.Display.Scheduler.Calls.{
  notify_if_idle-Accounts, schedule_update-Accounts, when_idle_called-Accounts, same-Accounts,
  clean-Accounts,
}

resting-waiters :
    (k : ℕ) (o : Operation) → is_running o ≡ false → occurrences k (operation_waiters o) ≡ 0
unfolding is_running operation_waiters occurrences
resting-waiters k no_operation h = refl
resting-waiters k (queued b) h = cc
resting-waiters k (calling b) h = cc
resting-waiters k (refusing b) h = cc
resting-waiters k finishing h = cc

pub resting-pending :
    (s : Scheduler) → IsScheduler s → is_running s.operation ≡ false → s.pending ≡ none
resting-pending s v h = elim v.behind [ inl nothing ↦ nothing | inr busy ↦ ground arith ]

flush_debounced-Accounts :
    (k : ℕ) (s : Scheduler) (o : Option Batch)
    → s.debounced ≡ o
    → IsScheduler s
    → Accounts k s (flush_debounced s o)
unfolding flush_debounced flush_batch waiting is_made waiters_of occurrences settlements
flush_debounced-Accounts k s none e v = notify_if_idle-Accounts k s v
flush_debounced-Accounts k s (some d) e v =
    let held : occurrences k (waiters_of s.debounced) ≡ occurrences k d.waiters =
      ap (λ o. occurrences k (waiters_of o)) e in
    let joined = occurrences-append k (waiters_of s.pending) d.waiters in
    elim (Bool-cases (is_running s.operation)) [
      | inl busy ↦
          rw busy (record { behind = inr busy; single = inl refl }, omega (arith, held, joined))
      | inr free ↦
          let gone : occurrences k (waiters_of s.pending) ≡ 0 =
            ap (λ o. occurrences k (waiters_of o)) (resting-pending s v free) in
          rw free (
            record { behind = inl (resting-pending s v free); single = inl refl },
            omega (arith, held, joined, gone, resting-waiters k s.operation free),
          )
    ]

waits :
    (k : ℕ) (s : Scheduler) (o : Operation)
    → s.operation ≡ o
    → occurrences k (operation_waiters s.operation) ≡ occurrences k (operation_waiters o)
waits k s o e = ap (λ x. occurrences k (operation_waiters x)) e

begin_operation-Accounts :
    (k : ℕ) (s : Scheduler) (o : Operation)
    → s.operation ≡ o
    → IsScheduler s
    → Accounts k s (begin_operation s o)
unfolding begin_operation waiting is_made settlements operation_waiters is_running
begin_operation-Accounts k s (queued b) e v = elim (Bool-cases s.cancelled) [
  | inl dead ↦
      subst
        (λ c. Accounts k s (
          if c
          then (record s { operation = refusing b }, [])
          else (record s { operation = calling b }, sent b.update ∷ [])))
        (sym dead)
        (record { behind = inr refl; single = v.single }, omega (arith, waits k s (queued b) e))
  | inr alive ↦
      subst
        (λ c. Accounts k s (
          if c
          then (record s { operation = refusing b }, [])
          else (record s { operation = calling b }, sent b.update ∷ [])))
        (sym alive)
        (record { behind = inr refl; single = v.single }, omega (arith, waits k s (queued b) e))
]
begin_operation-Accounts k s no_operation e v = same-Accounts k s v
begin_operation-Accounts k s (calling b) e v = same-Accounts k s v
begin_operation-Accounts k s (refusing b) e v = same-Accounts k s v
begin_operation-Accounts k s finishing e v = same-Accounts k s v

settle_operation-Accounts :
    (k : ℕ) (s : Scheduler) (o : Operation) (a : SinkAnswer)
    → s.operation ≡ o
    → IsScheduler s
    → Accounts k s (settle_operation s o a)
unfolding settle_operation waiting is_made operation_waiters is_running occurrences
settle_operation-Accounts k s (calling b) a e v = (
  record { behind = inr refl; single = v.single },
  omega (arith, waits k s (calling b) e, settlements-answer k a b.waiters),
)
settle_operation-Accounts k s no_operation a e v = same-Accounts k s v
settle_operation-Accounts k s (queued b) a e v = same-Accounts k s v
settle_operation-Accounts k s (refusing b) a e v = same-Accounts k s v
settle_operation-Accounts k s finishing a e v = same-Accounts k s v

refuse_operation-Accounts :
    (k : ℕ) (s : Scheduler) (o : Operation)
    → s.operation ≡ o
    → IsScheduler s
    → Accounts k s (refuse_operation s o)
unfolding refuse_operation waiting is_made operation_waiters is_running occurrences
refuse_operation-Accounts k s (refusing b) e v = (
  record { behind = inr refl; single = v.single },
  omega (arith, waits k s (refusing b) e, settlements-reject k scheduler_cancelled b.waiters),
)
refuse_operation-Accounts k s no_operation e v = same-Accounts k s v
refuse_operation-Accounts k s (queued b) e v = same-Accounts k s v
refuse_operation-Accounts k s (calling b) e v = same-Accounts k s v
refuse_operation-Accounts k s finishing e v = same-Accounts k s v

next_operation-Accounts :
    (k : ℕ) (s : Scheduler) (o : Option Batch)
    → s.operation ≡ finishing
    → s.pending ≡ o
    → IsScheduler s
    → Accounts k s (next_operation s o)
unfolding next_operation waiting is_made operation_waiters is_running occurrences settlements
    waiters_of
next_operation-Accounts k s (some b) e q v =
    let held : occurrences k (waiters_of s.pending) ≡ occurrences k b.waiters =
      ap (λ x. occurrences k (waiters_of x)) q in
    (record { behind = inl refl; single = inr refl }, omega (arith, waits k s finishing e, held))
next_operation-Accounts k s none e q v =
    let held : occurrences k (waiters_of s.pending) ≡ 0 =
      ap (λ x. occurrences k (waiters_of x)) q in
    let rest =
      notify_if_idle-Accounts k (record s { operation = no_operation; pending = none })
        (record { behind = inl refl; single = inr refl }) in
    (rest.0, omega (arith, rest.1, held, waits k s finishing e))

finish_operation-Accounts :
    (k : ℕ) (s : Scheduler) (o : Operation)
    → s.operation ≡ o
    → IsScheduler s
    → Accounts k s (finish_operation s o)
unfolding finish_operation
finish_operation-Accounts k s finishing e v = next_operation-Accounts k s s.pending e refl v
finish_operation-Accounts k s no_operation e v = same-Accounts k s v
finish_operation-Accounts k s (queued b) e v = same-Accounts k s v
finish_operation-Accounts k s (calling b) e v = same-Accounts k s v
finish_operation-Accounts k s (refusing b) e v = same-Accounts k s v

pub step-Accounts : (k : ℕ) (s : Scheduler) (e : Event) → IsScheduler s → Accounts k s (step s e)
unfolding step
step-Accounts k s (schedule u) v = schedule_update-Accounts k s u v
step-Accounts k s cleanup v = clean-Accounts k s s.cleaned_up v
step-Accounts k s when_idle v = when_idle_called-Accounts k s v
step-Accounts k s timer v = flush_debounced-Accounts k s s.debounced refl v
step-Accounts k s begin v = begin_operation-Accounts k s s.operation refl v
step-Accounts k s (sink_settled a) v = settle_operation-Accounts k s s.operation a refl v
step-Accounts k s refused v = refuse_operation-Accounts k s s.operation refl v
step-Accounts k s finish v = finish_operation-Accounts k s s.operation refl v

pub run-Accounts :
    (k : ℕ) (s : Scheduler) (es : List Event) → IsScheduler s → Accounts k s (run s es)
unfolding run settlements
run-Accounts k s [] v = same-Accounts k s v
run-Accounts k s (e ∷ es) v =
    let a = step-Accounts k s e v in
    let b = run-Accounts k (step s e).0 es a.0 in
    (b.0, omega (arith, a.1, b.1, settlements-append k (step s e).1 (run (step s e).0 es).1))

nothing_waits : (k : ℕ) (t : Target) → waiting k (created t) ≡ 0
unfolding waiting occurrences operation_waiters waiters_of
nothing_waits k t = refl

nothing_made : (k : ℕ) (t : Target) → is_made k (created t) ≡ 0
unfolding is_made
nothing_made k t = ground arith

-- Over any sequence of calls, timers and promise callbacks of a new scheduler, each promise that was
-- returned either has been settled once, or waits once to be settled; no other is.
pub run-settlements :
    (k : ℕ) (t : Target) (es : List Event)
    → let r = run (created t) es in
      waiting k r.0 + settlements k r.1 ≡ (if ltb k r.0.promises then 1 else 0)
unfolding is_made
run-settlements k t es =
    let a = run-Accounts k (created t) es (record { behind = inl refl; single = inl refl }) in
    omega (arith, a.1, nothing_waits k t, nothing_made k t)

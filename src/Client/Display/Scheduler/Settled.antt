-- ===== src/Client/Display/Scheduler/Settled.antt =====
-- apps/g2-client/src/display/scheduler.ts: every promise is settled when the scheduler comes to rest.
use palancar.Base.{
  ℕ, ◌+◌, ◌≡◌, refl, sym, ap, ◌∙◌, inl, inr, Bool, true, false, ◌&&◌, not, Option, none, some, List,
  [], ◌∷◌, ◌++◌, arith, Bool-cases, text_eq, nat_eq,
}
use palancar.Client.Display.Scheduler.{
  TextUpgrade, Batch, Operation, no_operation, queued, calling, refusing, finishing, Scheduler,
  SinkAnswer, Event, schedule, cleanup, when_idle, timer, begin, sink_settled, refused, finish,
  valid_update, waiters_of, is_running, is_idle, is_none, notify_if_idle, schedule_update,
  when_idle_called, followed_by, clean, flush_batch, flush_debounced, begin_operation,
  settle_operation, refuse_operation, next_operation, finish_operation, step, run,
}
use palancar.Client.Display.Scheduler.Waiters.{occurrences, operation_waiters, waiting}

-- When a scheduler is idle, nobody waits for it to become so.
abbrev pub Rested : Scheduler → Type 0
Rested s = is_idle s ≡ true → s.idle_waiters ≡ []

notify_if_idle-Rested : (s : Scheduler) → Rested (notify_if_idle s).0
unfolding notify_if_idle
notify_if_idle-Rested s = elim (Bool-cases (is_idle s)) [
  | inl idle ↦ rw idle (λ h. refl)
  | inr busy ↦ rw busy (λ h. cc)
]

running-Rested : (s : Scheduler) → is_running s.operation ≡ true → Rested s
unfolding is_idle
running-Rested s busy h = ground arith

idle_numbered :
    (s : Scheduler) (c : Bool) (n : ℕ) (ws : List ℕ)
    → is_idle (record s { cancelled = c; promises = n; idle_waiters = ws }) ≡ is_idle s
unfolding is_idle
idle_numbered s c n ws = refl

debounced-Rested : (s : Scheduler) (b : Batch) → s.debounced ≡ some b → Rested s
unfolding is_idle is_none
debounced-Rested s b e h = ground (arith, ap is_none e)

schedule-Rested : (s : Scheduler) (u : TextUpgrade) → Rested s → Rested (schedule_update s u).0
unfolding schedule_update
schedule-Rested s u r = elim (Bool-cases s.cancelled) [
  | inl dead ↦ rw dead (λ h. r (sym (idle_numbered s true (s.promises + 1) s.idle_waiters) ∙ h))
  | inr alive ↦ elim (Bool-cases (valid_update s.target u)) [
    | inr bad ↦
        rw (alive, bad) (λ h. r (sym (idle_numbered s false (s.promises + 1) s.idle_waiters) ∙ h))
    | inl good ↦ rw (alive, good) (debounced-Rested _ _ refl)
  ]
]

when_idle-Rested : (s : Scheduler) → Rested s → Rested (when_idle_called s).0
unfolding when_idle_called
when_idle-Rested s r = elim (Bool-cases (is_idle s)) [
  | inl idle ↦ rw idle (λ h. r idle)
  | inr busy ↦ rw busy (λ h.
      let same = idle_numbered s s.cancelled (s.promises + 1) (s.idle_waiters ++ s.promises ∷ []) in
      cc)
]

clean-Rested : (s : Scheduler) (again : Bool) → Rested s → Rested (clean s again).0
unfolding clean followed_by
clean-Rested s true r = r
clean-Rested s false r = notify_if_idle-Rested _

timer-Rested : (s : Scheduler) (o : Option Batch) → Rested (flush_debounced s o).0
unfolding flush_debounced flush_batch is_running
timer-Rested s none = notify_if_idle-Rested s
timer-Rested s (some d) = elim (Bool-cases (is_running s.operation)) [
  | inl busy ↦ rw busy (running-Rested _ busy)
  | inr free ↦ rw free (running-Rested _ refl)
]

begin-Rested : (s : Scheduler) (o : Operation) → Rested s → Rested (begin_operation s o).0
unfolding begin_operation is_running
begin-Rested s (queued b) r = elim (Bool-cases s.cancelled) [
  | inl dead ↦ rw dead (running-Rested _ refl)
  | inr alive ↦ rw alive (running-Rested _ refl)
]
begin-Rested s no_operation r = r
begin-Rested s (calling b) r = r
begin-Rested s (refusing b) r = r
begin-Rested s finishing r = r

settle-Rested :
    (s : Scheduler) (o : Operation) (a : SinkAnswer) → Rested s → Rested (settle_operation s o a).0
unfolding settle_operation is_running
settle-Rested s (calling b) a r = running-Rested _ refl
settle-Rested s no_operation a r = r
settle-Rested s (queued b) a r = r
settle-Rested s (refusing b) a r = r
settle-Rested s finishing a r = r

refuse-Rested : (s : Scheduler) (o : Operation) → Rested s → Rested (refuse_operation s o).0
unfolding refuse_operation is_running
refuse-Rested s (refusing b) r = running-Rested _ refl
refuse-Rested s no_operation r = r
refuse-Rested s (queued b) r = r
refuse-Rested s (calling b) r = r
refuse-Rested s finishing r = r

next-Rested : (s : Scheduler) (o : Option Batch) → Rested (next_operation s o).0
unfolding next_operation is_running
next-Rested s none = notify_if_idle-Rested _
next-Rested s (some b) = running-Rested _ refl

finish-Rested : (s : Scheduler) (o : Operation) → Rested s → Rested (finish_operation s o).0
unfolding finish_operation
finish-Rested s finishing r = next-Rested s s.pending
finish-Rested s no_operation r = r
finish-Rested s (queued b) r = r
finish-Rested s (calling b) r = r
finish-Rested s (refusing b) r = r

step-Rested : (s : Scheduler) (e : Event) → Rested s → Rested (step s e).0
unfolding step
step-Rested s (schedule u) r = schedule-Rested s u r
step-Rested s cleanup r = clean-Rested s s.cleaned_up r
step-Rested s when_idle r = when_idle-Rested s r
step-Rested s timer r = timer-Rested s s.debounced
step-Rested s begin r = begin-Rested s s.operation r
step-Rested s (sink_settled a) r = settle-Rested s s.operation a r
step-Rested s refused r = refuse-Rested s s.operation r
step-Rested s finish r = finish-Rested s s.operation r

pub run-Rested : (s : Scheduler) (es : List Event) → Rested s → Rested (run s es).0
unfolding run
run-Rested s [] r = r
run-Rested s (e ∷ es) r = run-Rested (step s e).0 es (step-Rested s e r)

idle_waiting :
    (k : ℕ) (o : Operation) (d p : Option Batch)
    → not (is_running o) && is_none d && is_none p ≡ true
    → occurrences k (waiters_of d)
        + occurrences k (waiters_of p)
        + occurrences k (operation_waiters o)
      ≡ 0
unfolding is_running is_none waiters_of occurrences operation_waiters
idle_waiting k no_operation none none h = refl
idle_waiting k no_operation none (some p) h = cc
idle_waiting k no_operation (some d) p h = cc
idle_waiting k (queued b) d p h = cc
idle_waiting k (calling b) d p h = cc
idle_waiting k (refusing b) d p h = cc
idle_waiting k finishing d p h = cc

pub idle-waiting : (k : ℕ) (s : Scheduler) → Rested s → is_idle s ≡ true → waiting k s ≡ 0
unfolding is_idle waiting occurrences
idle-waiting k s r h =
    let none_waits : occurrences k s.idle_waiters ≡ 0 = ap (occurrences k) (r h) in
    omega (arith, none_waits, idle_waiting k s.operation s.debounced s.pending h)

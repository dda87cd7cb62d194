-- ===== src/Client/Display/Scheduler/Cleanup.antt =====
-- apps/g2-client/src/display/scheduler.ts: nothing is sent after a cleanup.
use palancar.Base.{
  ℕ, suc, ◌+◌, ◌≡◌, refl, sym, ◌∙◌, inl, inr, Bool, true, false, Option, none, some, List, [], ◌∷◌,
  ◌++◌, arith, Bool-cases, text_eq, nat_eq,
}
use palancar.Client.Display.Scheduler.{
  TextUpgrade, Target, Failure, update_failed, scheduler_cancelled, sink_error, Batch, Operation,
  no_operation, queued, calling, refusing, finishing, Scheduler, Output, sent, resolved, rejected,
  SinkAnswer, shown, not_shown, broken, Event, schedule, cleanup, when_idle, timer, begin,
  sink_settled, refused, finish, created, resolve, reject, waiters_of, is_running, is_idle,
  notify_if_idle, schedule_update, when_idle_called, followed_by, clean, flush_batch,
  flush_debounced, begin_operation, answer, settle_operation, refuse_operation, next_operation,
  finish_operation, step, run,
}

-- How many updates are sent.
unfoldable pub sends : List Output → ℕ
sends [] = 0
sends (sent u ∷ os) = suc (sends os)
sends (resolved w ∷ os) = sends os
sends (rejected w e ∷ os) = sends os

sends-append : (os ps : List Output) → sends (os ++ ps) ≡ sends os + sends ps
unfolding sends
sends-append [] ps = omega arith
sends-append (sent u ∷ os) ps = omega (arith, sends-append os ps)
sends-append (resolved w ∷ os) ps = sends-append os ps
sends-append (rejected w e ∷ os) ps = sends-append os ps

sends-resolve : (ws : List ℕ) → sends (resolve ws) ≡ 0
unfolding sends resolve
sends-resolve [] = refl
sends-resolve (w ∷ ws) = sends-resolve ws

sends-reject : (e : Failure) (ws : List ℕ) → sends (reject e ws) ≡ 0
unfolding sends reject
sends-reject e [] = refl
sends-reject e (w ∷ ws) = sends-reject e ws

sends-answer : (a : SinkAnswer) (ws : List ℕ) → sends (answer a ws) ≡ 0
unfolding answer
sends-answer shown ws = sends-resolve ws
sends-answer not_shown ws = sends-reject update_failed ws
sends-answer broken ws = sends-reject sink_error ws

-- A step of a scheduler that keeps its two flags, and sends nothing when it is cancelled.
abbrev Quiet : Scheduler → Scheduler × List Output → Type 0
Quiet s r =
    (r.0.cancelled ≡ s.cancelled)
    × (r.0.cleaned_up ≡ s.cleaned_up)
    × (s.cancelled ≡ true → sends r.1 ≡ 0)

notify_if_idle-Quiet : (s : Scheduler) → Quiet s (notify_if_idle s)
unfolding notify_if_idle sends
notify_if_idle-Quiet s = elim (Bool-cases (is_idle s)) [
  | inl idle ↦ rw idle (refl, refl, λ h. sends-resolve s.idle_waiters)
  | inr busy ↦ rw busy (refl, refl, λ h. refl)
]

schedule_update-Quiet : (s : Scheduler) (u : TextUpgrade) → Quiet s (schedule_update s u)
unfolding schedule_update sends
schedule_update-Quiet s u = ground arith

when_idle_called-Quiet : (s : Scheduler) → Quiet s (when_idle_called s)
unfolding when_idle_called sends
when_idle_called-Quiet s = elim (Bool-cases (is_idle s)) [
  | inl idle ↦ rw idle (refl, refl, λ h. refl)
  | inr busy ↦ rw busy (refl, refl, λ h. refl)
]

flush_debounced-Quiet : (s : Scheduler) (o : Option Batch) → Quiet s (flush_debounced s o)
unfolding flush_debounced flush_batch sends
flush_debounced-Quiet s none = notify_if_idle-Quiet s
flush_debounced-Quiet s (some d) = elim (Bool-cases (is_running s.operation)) [
  | inl busy ↦ rw busy (refl, refl, λ h. refl)
  | inr free ↦ rw free (refl, refl, λ h. refl)
]

begin_operation-Quiet : (s : Scheduler) (o : Operation) → Quiet s (begin_operation s o)
unfolding begin_operation sends
begin_operation-Quiet s (queued b) = ground arith
begin_operation-Quiet s no_operation = (refl, refl, λ h. refl)
begin_operation-Quiet s (calling b) = (refl, refl, λ h. refl)
begin_operation-Quiet s (refusing b) = (refl, refl, λ h. refl)
begin_operation-Quiet s finishing = (refl, refl, λ h. refl)

settle_operation-Quiet :
    (s : Scheduler) (o : Operation) (a : SinkAnswer) → Quiet s (settle_operation s o a)
unfolding settle_operation sends
settle_operation-Quiet s (calling b) a = (refl, refl, λ h. sends-answer a b.waiters)
settle_operation-Quiet s no_operation a = (refl, refl, λ h. refl)
settle_operation-Quiet s (queued b) a = (refl, refl, λ h. refl)
settle_operation-Quiet s (refusing b) a = (refl, refl, λ h. refl)
settle_operation-Quiet s finishing a = (refl, refl, λ h. refl)

refuse_operation-Quiet : (s : Scheduler) (o : Operation) → Quiet s (refuse_operation s o)
unfolding refuse_operation sends
refuse_operation-Quiet s (refusing b) =
    (refl, refl, λ h. sends-reject scheduler_cancelled b.waiters)
refuse_operation-Quiet s no_operation = (refl, refl, λ h. refl)
refuse_operation-Quiet s (queued b) = (refl, refl, λ h. refl)
refuse_operation-Quiet s (calling b) = (refl, refl, λ h. refl)
refuse_operation-Quiet s finishing = (refl, refl, λ h. refl)

next_operation-Quiet : (s : Scheduler) (o : Option Batch) → Quiet s (next_operation s o)
unfolding next_operation sends
next_operation-Quiet s none =
    notify_if_idle-Quiet (record s { operation = no_operation; pending = none })
next_operation-Quiet s (some b) = (refl, refl, λ h. refl)

finish_operation-Quiet : (s : Scheduler) (o : Operation) → Quiet s (finish_operation s o)
unfolding finish_operation sends
finish_operation-Quiet s finishing = next_operation-Quiet s s.pending
finish_operation-Quiet s no_operation = (refl, refl, λ h. refl)
finish_operation-Quiet s (queued b) = (refl, refl, λ h. refl)
finish_operation-Quiet s (calling b) = (refl, refl, λ h. refl)
finish_operation-Quiet s (refusing b) = (refl, refl, λ h. refl)

-- What a cleanup does to the flags: both are set.
clean-cancelled :
    (s : Scheduler) (again : Bool)
    → s.cleaned_up ≡ again
    → (again ≡ true → s.cancelled ≡ true)
    → let r = clean s again in (r.0.cancelled ≡ true) × (sends r.1 ≡ 0)
unfolding clean followed_by sends
clean-cancelled s true e h = (h refl, refl)
clean-cancelled s false e h =
    let base : Scheduler = record s {
      cancelled = true;
      cleaned_up = true;
      debounced = none;
      pending = none;
    } in
    let w = when_idle_called base in
    let a = when_idle_called-Quiet base in
    let b = notify_if_idle-Quiet w.0 in
    let first = reject scheduler_cancelled (waiters_of s.debounced) in
    let second = reject scheduler_cancelled (waiters_of s.pending) in
    (
      b.0 ∙ a.0,
      omega (
        arith,
        a.2 refl,
        b.2 a.0,
        sends-reject scheduler_cancelled (waiters_of s.debounced),
        sends-reject scheduler_cancelled (waiters_of s.pending),
        sends-append first second,
        sends-append (first ++ second) w.1,
        sends-append ((first ++ second) ++ w.1) (notify_if_idle w.0).1,
      ),
    )

-- Flags that agree.
abbrev Agrees : Scheduler → Type 0
Agrees s = s.cleaned_up ≡ true → s.cancelled ≡ true

abbrev Silent : Scheduler → Scheduler × List Output → Type 0
Silent s r = Agrees r.0 × (s.cancelled ≡ true → (r.0.cancelled ≡ true) × (sends r.1 ≡ 0))

Quiet-Silent : (s : Scheduler) (r : Scheduler × List Output) → Quiet s r → Agrees s → Silent s r
Quiet-Silent s r q a = (λ c. q.0 ∙ a (sym q.1 ∙ c), λ c. (q.0 ∙ c, q.2 c))

clean-Silent : (s : Scheduler) → Agrees s → Silent s (clean s s.cleaned_up)
clean-Silent s a = let c = clean-cancelled s s.cleaned_up refl a in (λ h. c.0, λ h. c)

step-Silent : (s : Scheduler) (e : Event) → Agrees s → Silent s (step s e)
unfolding step
step-Silent s (schedule u) a = Quiet-Silent s (schedule_update s u) (schedule_update-Quiet s u) a
step-Silent s cleanup a = clean-Silent s a
step-Silent s when_idle a = Quiet-Silent s (when_idle_called s) (when_idle_called-Quiet s) a
step-Silent s timer a =
    Quiet-Silent s (flush_debounced s s.debounced) (flush_debounced-Quiet s s.debounced) a
step-Silent s begin a =
    Quiet-Silent s (begin_operation s s.operation) (begin_operation-Quiet s s.operation) a
step-Silent s (sink_settled b) a =
    Quiet-Silent s (settle_operation s s.operation b) (settle_operation-Quiet s s.operation b) a
step-Silent s refused a =
    Quiet-Silent s (refuse_operation s s.operation) (refuse_operation-Quiet s s.operation) a
step-Silent s finish a =
    Quiet-Silent s (finish_operation s s.operation) (finish_operation-Quiet s s.operation) a

run-Silent : (s : Scheduler) (es : List Event) → Agrees s → Silent s (run s es)
unfolding run sends
run-Silent s [] a = (a, λ c. (c, refl))
run-Silent s (e ∷ es) a =
    let first = step-Silent s e a in
    let rest = run-Silent (step s e).0 es first.0 in
    (
      rest.0,
      λ c. (
        (rest.1 (first.1 c).0).0,
        omega (
          arith,
          sends-append (step s e).1 (run (step s e).0 es).1,
          (first.1 c).1,
          (rest.1 (first.1 c).0).1,
        ),
      ),
    )

-- A cleanup sends no update to the sink, and after it no sequence of calls, timers and promise callbacks
-- does, whatever happened before it.
pub cleanup-silence :
    (t : Target) (es fs : List Event) → sends (run (run (created t) es).0 (cleanup ∷ fs)).1 ≡ 0
unfolding run step
cleanup-silence t es fs =
    let s = (run (created t) es).0 in
    let a = (run-Silent (created t) es (λ c. cc)).0 in
    let c = clean-cancelled s s.cleaned_up refl a in
    omega (
      arith,
      c.1,
      sends-append (clean s s.cleaned_up).1 (run (clean s s.cleaned_up).0 fs).1,
      ((run-Silent (clean s s.cleaned_up).0 fs (λ h. c.0)).1 c.0).1,
    )

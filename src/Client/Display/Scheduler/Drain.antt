-- ===== src/Client/Display/Scheduler/Drain.antt =====
-- apps/g2-client/src/display/scheduler.ts: the callbacks that are left bring the scheduler to rest.
use palancar.Base.{
  ℕ, ◌≡◌, refl, sym, ap, ◌∙◌, ◌⊎◌, inl, inr, Bool, true, false, ◌&&◌, not, Option, none, some, List,
  [], ◌∷◌, ◌++◌, arith, ltb, if◌then◌else◌, Bool-cases, text_eq, nat_eq,
}
use palancar.Client.Display.Scheduler.{
  Target, Batch, Operation, no_operation, queued, calling, refusing, finishing, Scheduler,
  SinkAnswer, Event, timer, begin, sink_settled, refused, finish, created, is_running, is_idle,
  is_none, notify_if_idle, flush_batch, flush_debounced, begin_operation, settle_operation,
  refuse_operation, next_operation, finish_operation, step, run,
}
use palancar.Client.Display.Scheduler.Waiters.{settlements, IsScheduler}
use palancar.Client.Display.Scheduler.Promises.{step-Accounts, run-settlements, run-Accounts}
use palancar.Client.Display.Scheduler.Settled.{run-Rested, idle-waiting}

-- The callbacks that are left run one after another: the timer, then what is under way, then what was
-- pending behind it. The sink gives an answer each time.
unfoldable round : SinkAnswer → List Event
round a = begin ∷ sink_settled a ∷ refused ∷ finish ∷ []

unfoldable pub drain : SinkAnswer → SinkAnswer → List Event
unfolding round
drain a b = timer ∷ round a ++ round b

unfoldable operation_of : Option Batch → Operation
operation_of none = no_operation
operation_of (some b) = queued b

-- What a round leads to.
abbrev FollowsUp : Scheduler → Scheduler → Type 0
FollowsUp s r =
    (r.debounced ≡ s.debounced) × (r.pending ≡ none) × (r.operation ≡ operation_of s.pending)

notify_if_idle-FollowsUp :
    (s : Scheduler)
    → let r = (notify_if_idle s).0 in
      (r.debounced ≡ s.debounced) × (r.pending ≡ s.pending) × (r.operation ≡ s.operation)
unfolding notify_if_idle
notify_if_idle-FollowsUp s = elim (Bool-cases (is_idle s)) [
  | inl idle ↦ rw idle (refl, refl, refl)
  | inr busy ↦ rw busy (refl, refl, refl)
]

next-FollowsUp :
    (s : Scheduler) (o : Option Batch) → s.pending ≡ o → FollowsUp s (next_operation s o).0
unfolding next_operation operation_of
next-FollowsUp s none q =
    let n = notify_if_idle-FollowsUp (record s { operation = no_operation; pending = none }) in
    (n.0, n.1, n.2 ∙ sym (ap operation_of q))
next-FollowsUp s (some b) q = (refl, refl, sym (ap operation_of q))

round-FollowsUp :
    (s : Scheduler) (o : Operation) (c : Bool) (a : SinkAnswer)
    → (s.pending ≡ none) ⊎ (is_running o ≡ true)
    → FollowsUp s (run (record s { operation = o; cancelled = c }) (round a)).0
unfolding run round step begin_operation settle_operation refuse_operation finish_operation
    is_running operation_of
round-FollowsUp s no_operation c a w = elim w [
  | inl q ↦ (refl, q, sym (ap operation_of q))
  | inr h ↦ cc
]
round-FollowsUp s (queued b) true a w = next-FollowsUp _ s.pending refl
round-FollowsUp s (queued b) false a w = next-FollowsUp _ s.pending refl
round-FollowsUp s (calling b) c a w = next-FollowsUp _ s.pending refl
round-FollowsUp s (refusing b) c a w = next-FollowsUp _ s.pending refl
round-FollowsUp s finishing c a w = next-FollowsUp _ s.pending refl

empty-idle :
    (s : Scheduler)
    → s.debounced ≡ none
    → s.pending ≡ none
    → s.operation ≡ no_operation
    → is_idle s ≡ true
unfolding is_idle is_running is_none
empty-idle s d p o =
    ap (λ x. not (is_running x) && is_none s.debounced && is_none s.pending) o
    ∙ ap (λ x. is_none x && is_none s.pending) d
    ∙ ap is_none p

rounds-idle :
    (s : Scheduler) (a b : SinkAnswer)
    → IsScheduler s
    → s.debounced ≡ none
    → is_idle (run (run s (round a)).0 (round b)).0 ≡ true
unfolding operation_of
rounds-idle s a b v e =
    let t = (run s (round a)).0 in
    let f : FollowsUp s t = round-FollowsUp s s.operation s.cancelled a v.behind in
    let g : FollowsUp t (run t (round b)).0 =
      round-FollowsUp t t.operation t.cancelled b (inl f.1) in
    empty-idle _ (g.0 ∙ f.0 ∙ e) g.1 (g.2 ∙ ap operation_of f.1)

run-append : (s : Scheduler) (xs ys : List Event) → (run s (xs ++ ys)).0 ≡ (run (run s xs).0 ys).0
unfolding run
run-append s [] ys = refl
run-append s (x ∷ xs) ys = run-append (step s x).0 xs ys

flush-debounced :
    (s : Scheduler) (o : Option Batch) → s.debounced ≡ o → (flush_debounced s o).0.debounced ≡ none
unfolding flush_debounced flush_batch
flush-debounced s none e = (notify_if_idle-FollowsUp s).0 ∙ e
flush-debounced s (some d) e = elim (Bool-cases (is_running s.operation)) [
  | inl busy ↦ rw busy refl
  | inr free ↦ rw free refl
]

drain-idle :
    (s : Scheduler) (a b : SinkAnswer) → IsScheduler s → is_idle (run s (drain a b)).0 ≡ true
unfolding drain run step
drain-idle s a b v =
    let t = (flush_debounced s s.debounced).0 in
    ap is_idle (run-append t (round a) (round b))
    ∙ rounds-idle t a b (step-Accounts 0 s timer v).0 (flush-debounced s s.debounced refl)

-- After any sequence of calls, timers and promise callbacks of a new scheduler, once the timer and the
-- callbacks that are left have run, the scheduler is idle, and each promise that was returned has been
-- settled exactly once.
pub drain-settlements :
    (k : ℕ) (t : Target) (es : List Event) (a b : SinkAnswer)
    → let r = run (created t) (es ++ drain a b) in
      (is_idle r.0 ≡ true) × (settlements k r.1 ≡ (if ltb k r.0.promises then 1 else 0))
drain-settlements k t es a b =
    let v = (run-Accounts 0 (created t) es (record { behind = inl refl; single = inl refl })).0 in
    let idle =
      ap is_idle (run-append (created t) es (drain a b))
      ∙ drain-idle (run (created t) es).0 a b v in
    let rested = run-Rested (created t) (es ++ drain a b) (λ h. refl) in
    (idle, omega (arith, run-settlements k t (es ++ drain a b), idle-waiting k _ rested idle))

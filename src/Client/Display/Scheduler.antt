-- ===== src/Client/Display/Scheduler.antt =====
-- apps/g2-client/src/display/scheduler.ts: `SerializedLatestUpdateScheduler`, which shows the latest text and
-- has one update under way at a time. The promises that it returns are numbered in the order in which
-- they are made. A step is a call of a method, a timer that fires, or a promise callback that runs; a
-- callback that is not waiting does not run, so its step changes nothing.
pub mod Waiters
pub mod Calls
pub mod Promises
pub mod Newest
pub mod Latest
pub mod Settled
pub mod Drain
pub mod Cleanup
use palancar.Base.{
  ℕ, ◌+◌, Bool, true, false, ◌&&◌, ◌||◌, not, Option, none, some, List, [], ◌∷◌, ◌++◌, map, leb,
  nat_beq, if◌then◌else◌, length, Text, text_beq, Value, nat,
}

pub record TextUpgrade : Type 0 where
  pub container_id : ℕ
  pub container_name : Text
  pub content : Text

pub record Target : Type 0 where
  pub container_id : ℕ
  pub container_name : Text

-- What a promise is rejected with: `sink_error` is what the sink throws or rejects with.
pub data Failure : Type 0 where
  update_failed invalid_update scheduler_cancelled sink_error : Failure

pub record Batch : Type 0 where
  pub update : TextUpgrade
  pub waiters : List ℕ

-- The operation of `#run`: its first callback is queued, the sink has been called, the first callback has
-- thrown because of a cancellation, or its waiters are settled and the last callback is queued.
pub data Operation : Type 0 where
  no_operation : Operation
  queued calling refusing : Batch → Operation
  finishing : Operation

pub record Scheduler : Type 0 where
  pub target : Target
  pub debounced : Option Batch
  pub pending : Option Batch
  pub operation : Operation
  pub cancelled : Bool
  pub cleaned_up : Bool
  pub idle_waiters : List ℕ
  pub promises : ℕ

pub data Output : Type 0 where
  sent : TextUpgrade → Output
  resolved : ℕ → Output
  rejected : ℕ → Failure → Output

pub data SinkAnswer : Type 0 where
  shown not_shown broken : SinkAnswer

pub data Event : Type 0 where
  schedule : TextUpgrade → Event
  cleanup when_idle timer begin : Event
  sink_settled : SinkAnswer → Event
  refused finish : Event

abbrev pub max_text_length : ℕ
max_text_length = 2_000

abbrev pub created : Target → Scheduler
created target = record {
  target = target;
  debounced = none;
  pending = none;
  operation = no_operation;
  cancelled = false;
  cleaned_up = false;
  idle_waiters = [];
  promises = 0;
}

-- The options of the constructor, whose numbers are checked.
pub data Delay : Type 0 where
  milliseconds negative_delay not_finite_delay : Delay

pub record GivenTarget : Type 0 where
  pub container_id : Value
  pub container_name : Text

pub data Creation : Type 0 where
  made : Scheduler → Creation
  range_error validation_error : Creation

-- `#validateTarget`
unfoldable pub validate_target : GivenTarget → Option Target
validate_target t = elim t.container_id [
  | nat n ↦
      if leb 1 n && leb n 16 && leb 1 (length t.container_name) && leb (length t.container_name) 16
      then some (record { container_id = n; container_name = t.container_name })
      else none
  | _ ↦ none
]

unfoldable pub create_for : Option Target → Creation
create_for none = validation_error
create_for (some t) = made (created t)

unfoldable pub create : Delay → GivenTarget → Creation
unfolding validate_target create_for
create milliseconds t = create_for (validate_target t)
create negative_delay t = range_error
create not_finite_delay t = range_error

unfoldable pub valid_update : Target → TextUpgrade → Bool
valid_update t u =
    nat_beq u.container_id t.container_id
    && text_beq u.container_name t.container_name
    && leb (length u.content) max_text_length

unfoldable pub resolve : List ℕ → List Output
resolve [] = []
resolve (w ∷ ws) = resolved w ∷ resolve ws

unfoldable pub reject : Failure → List ℕ → List Output
reject failure [] = []
reject failure (w ∷ ws) = rejected w failure ∷ reject failure ws

unfoldable pub waiters_of : Option Batch → List ℕ
waiters_of none = []
waiters_of (some b) = b.waiters

unfoldable pub is_running : Operation → Bool
is_running no_operation = false
is_running (queued b) = true
is_running (calling b) = true
is_running (refusing b) = true
is_running finishing = true

unfoldable pub is_none : Option Batch → Bool
is_none none = true
is_none (some b) = false

unfoldable pub is_idle : Scheduler → Bool
unfolding is_running is_none
is_idle s = not (is_running s.operation) && is_none s.debounced && is_none s.pending

unfoldable pub notify_if_idle : Scheduler → Scheduler × List Output
notify_if_idle s =
    if is_idle s then (record s { idle_waiters = [] }, resolve s.idle_waiters) else (s, [])

-- The promise of a call takes the next number.
unfoldable pub schedule_update : Scheduler → TextUpgrade → Scheduler × List Output
schedule_update s u =
    let own = s.promises in
    let numbered = record s { promises = s.promises + 1 } in
    if s.cancelled
    then (numbered, rejected own scheduler_cancelled ∷ [])
    else (if not (valid_update s.target u) then (numbered, rejected own invalid_update ∷ []) else (
      record numbered {
        debounced = some (record {
          update = u;
          waiters = waiters_of s.pending ++ (waiters_of s.debounced ++ own ∷ []);
        });
        pending = none;
      },
      [],
    ))

unfoldable pub when_idle_called : Scheduler → Scheduler × List Output
when_idle_called s =
    let own = s.promises in
    let numbered = record s { promises = s.promises + 1 } in
    if is_idle s
    then (numbered, resolved own ∷ [])
    else (record numbered { idle_waiters = s.idle_waiters ++ own ∷ [] }, [])

unfoldable pub followed_by :
    Scheduler × List Output → (Scheduler → Scheduler × List Output) → Scheduler × List Output
followed_by first next = let second = next first.0 in (second.0, first.1 ++ second.1)

-- `cleanup`; the flag says whether it was called before.
unfoldable pub clean : Scheduler → Bool → Scheduler × List Output
clean s true = (s, [])
clean s false =
    followed_by
      (followed_by
        (
          record s { cancelled = true; cleaned_up = true; debounced = none; pending = none },
          reject scheduler_cancelled (waiters_of s.debounced)
              ++ reject scheduler_cancelled (waiters_of s.pending),
        )
        when_idle_called)
      notify_if_idle

unfoldable pub flush_batch : Scheduler → Batch → Scheduler × List Output
flush_batch s batch =
    if is_running s.operation
    then (record s { pending = some batch }, [])
    else (record s { operation = queued batch }, [])

-- `#flushDebounced`, with what waits for the timer. When `#run` is called here, what was pending stays
-- so.
unfoldable pub flush_debounced : Scheduler → Option Batch → Scheduler × List Output
flush_debounced s none = notify_if_idle s
flush_debounced s (some d) =
    flush_batch (record s { debounced = none })
      (record { update = d.update; waiters = waiters_of s.pending ++ d.waiters })

unfoldable pub begin_operation : Scheduler → Operation → Scheduler × List Output
begin_operation s (queued b) =
    if s.cancelled
    then (record s { operation = refusing b }, [])
    else (record s { operation = calling b }, sent b.update ∷ [])
begin_operation s no_operation = (s, [])
begin_operation s (calling b) = (s, [])
begin_operation s (refusing b) = (s, [])
begin_operation s finishing = (s, [])

unfoldable pub answer : SinkAnswer → List ℕ → List Output
answer shown ws = resolve ws
answer not_shown ws = reject update_failed ws
answer broken ws = reject sink_error ws

unfoldable pub settle_operation : Scheduler → Operation → SinkAnswer → Scheduler × List Output
settle_operation s (calling b) a = (record s { operation = finishing }, answer a b.waiters)
settle_operation s no_operation a = (s, [])
settle_operation s (queued b) a = (s, [])
settle_operation s (refusing b) a = (s, [])
settle_operation s finishing a = (s, [])

unfoldable pub refuse_operation : Scheduler → Operation → Scheduler × List Output
refuse_operation s (refusing b) =
    (record s { operation = finishing }, reject scheduler_cancelled b.waiters)
refuse_operation s no_operation = (s, [])
refuse_operation s (queued b) = (s, [])
refuse_operation s (calling b) = (s, [])
refuse_operation s finishing = (s, [])

unfoldable pub next_operation : Scheduler → Option Batch → Scheduler × List Output
next_operation s none = notify_if_idle (record s { operation = no_operation; pending = none })
next_operation s (some next) = (record s { operation = queued next; pending = none }, [])

unfoldable pub finish_operation : Scheduler → Operation → Scheduler × List Output
finish_operation s finishing = next_operation s s.pending
finish_operation s no_operation = (s, [])
finish_operation s (queued b) = (s, [])
finish_operation s (calling b) = (s, [])
finish_operation s (refusing b) = (s, [])

unfoldable pub step : Scheduler → Event → Scheduler × List Output
step s (schedule u) = schedule_update s u
step s cleanup = clean s s.cleaned_up
step s when_idle = when_idle_called s
step s timer = flush_debounced s s.debounced
step s begin = begin_operation s s.operation
step s (sink_settled a) = settle_operation s s.operation a
step s refused = refuse_operation s s.operation
step s finish = finish_operation s s.operation

unfoldable pub run : Scheduler → List Event → Scheduler × List Output
run s [] = (s, [])
run s (e ∷ es) = let first = step s e in let rest = run first.0 es in (rest.0, first.1 ++ rest.1)

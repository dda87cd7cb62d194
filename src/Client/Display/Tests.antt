-- ===== src/Client/Display/Tests.antt =====
-- apps/g2-client/src/display/scheduler.ts: runs of the scheduler.
use palancar.Base.{
  ◌≡◌, refl, true, if◌then◌else◌, ltb, none, List, [], ◌∷◌, ◌++◌, ◌+◌, Text, codes, nat,
}
use palancar.Client.Display.Scheduler.{
  TextUpgrade, Target, Event, schedule, cleanup, timer, begin, sink_settled, finish, shown,
  not_shown, sent, resolved, rejected, update_failed, scheduler_cancelled, created, create,
  milliseconds, negative_delay, range_error, validation_error, run, is_idle, step, schedule_update,
  valid_update, waiters_of, flush_debounced, flush_batch, is_running, begin_operation,
  settle_operation, refuse_operation, clean, followed_by, when_idle_called, answer, resolve, reject,
  finish_operation, next_operation, notify_if_idle, is_none, create_for, validate_target,
}
use palancar.Client.Display.Scheduler.Waiters.{waiting, settlements}
use palancar.Client.Display.Scheduler.Promises.{run-settlements}
use palancar.Client.Display.Scheduler.Latest.{run-latest}
use palancar.Client.Display.Scheduler.Newest.{latest, last_sent, is_cleanup}
use palancar.Client.Display.Scheduler.Cleanup.{sends, cleanup-silence}
use palancar.Client.Display.Scheduler.Drain.{drain, drain-settlements}

abbrev main_target : Target
main_target = record { container_id = 1; container_name = (codes "main") }

abbrev update_to : Text → TextUpgrade
update_to content = record { container_id = 1; container_name = (codes "main"); content = content }

abbrev two_updates : List Event
two_updates =
    schedule (update_to (codes "hello"))
    ∷ timer
    ∷ begin
    ∷ schedule (update_to (codes "world"))
    ∷ timer
    ∷ sink_settled shown
    ∷ finish
    ∷ begin
    ∷ sink_settled not_shown
    ∷ finish
    ∷ []

abbrev cleaned : List Event
cleaned =
    schedule (update_to (codes "hello"))
    ∷ timer
    ∷ schedule (update_to (codes "world"))
    ∷ cleanup
    ∷ []

two_updates-outputs :
    (run (created main_target) two_updates).1
    ≡ sent (update_to (codes "hello"))
      ∷ resolved 0
      ∷ sent (update_to (codes "world"))
      ∷ rejected 1 update_failed
      ∷ []
unfolding run step schedule_update valid_update waiters_of flush_debounced flush_batch is_running
    begin_operation settle_operation answer resolve reject finish_operation next_operation
    notify_if_idle is_idle is_none
two_updates-outputs = refl

cleaned-outputs :
    (run (created main_target) (cleaned ++ drain shown shown)).1
    ≡ rejected 1 scheduler_cancelled ∷ rejected 0 scheduler_cancelled ∷ resolved 2 ∷ []
unfolding run step schedule_update valid_update waiters_of flush_debounced flush_batch is_running
    begin_operation settle_operation refuse_operation clean followed_by when_idle_called answer
    resolve reject finish_operation next_operation notify_if_idle is_idle is_none drain
cleaned-outputs = refl

bad_delay :
    create negative_delay (record { container_id = nat 0; container_name = (codes "main") })
    ≡ range_error
unfolding create
bad_delay = refl

bad_target :
    create milliseconds (record { container_id = nat 17; container_name = (codes "main") })
    ≡ validation_error
unfolding create create_for validate_target
bad_target = refl

run-settlements_example :
    waiting 1 (run (created main_target) cleaned).0
      + settlements 1 (run (created main_target) cleaned).1
    ≡ 1
unfolding run step schedule_update valid_update clean followed_by when_idle_called is_idle is_none
    is_running notify_if_idle flush_debounced flush_batch
run-settlements_example = run-settlements 1 main_target cleaned

run-latest_example :
    last_sent none (run (created main_target) two_updates).1 ≡ latest main_target none two_updates
unfolding run step schedule_update valid_update waiters_of flush_debounced flush_batch is_running
    begin_operation settle_operation answer finish_operation next_operation notify_if_idle is_idle
    is_none is_cleanup
run-latest_example =
    run-latest main_target two_updates
      (refl, (refl, (refl, (refl, (refl, (refl, (refl, (refl, (refl, (refl, tt)))))))))) refl

drain-settlements_example :
    let r = run (created main_target) (cleaned ++ drain shown shown) in
    (is_idle r.0 ≡ true) × (settlements 1 r.1 ≡ (if ltb 1 r.0.promises then 1 else 0))
drain-settlements_example = drain-settlements 1 main_target cleaned shown shown

cleanup-silence_example :
    sends (run (run (created main_target) two_updates).0 (cleanup ∷ two_updates)).1 ≡ 0
cleanup-silence_example = cleanup-silence main_target two_updates two_updates

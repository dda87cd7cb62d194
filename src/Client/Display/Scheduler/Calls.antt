-- ===== src/Client/Display/Scheduler/Calls.antt =====
-- apps/g2-client/src/display/scheduler.ts: the calls of the methods settle or keep each promise.
use palancar.Base.{
  ℕ, ◌+◌, ◌≡◌, refl, inl, inr, Bool, true, false, none, List, [], ◌∷◌, ◌++◌, arith, ltb, nat_beq,
  if◌then◌else◌, Bool-cases, text_eq, nat_eq,
}
use palancar.Client.Display.Scheduler.{
  TextUpgrade, scheduler_cancelled, Scheduler, Output, valid_update, reject, waiters_of, is_idle,
  notify_if_idle, schedule_update, when_idle_called, followed_by, clean,
}
use palancar.Client.Display.Scheduler.Waiters.{
  occurrences, settlements, waiting, is_made, occurrences-append, settlements-append,
  settlements-resolve, settlements-reject, IsScheduler, Accounts,
}

pub notify_if_idle-Accounts :
    (k : ℕ) (s : Scheduler) → IsScheduler s → Accounts k s (notify_if_idle s)
unfolding notify_if_idle waiting is_made occurrences settlements
notify_if_idle-Accounts k s v = elim (Bool-cases (is_idle s)) [
  | inl idle ↦ rw idle (
    record { behind = v.behind; single = v.single },
    omega (arith, settlements-resolve k s.idle_waiters),
  )
  | inr busy ↦ rw busy (v, omega arith)
]

pub own_number :
    (k n : ℕ)
    → (if ltb k (n + 1) then 1 else 0) ≡ (if ltb k n then 1 else 0) + (if nat_beq n k then 1 else 0)
own_number k n = ground arith

pub schedule_update-Accounts :
    (k : ℕ) (s : Scheduler) (u : TextUpgrade) → IsScheduler s → Accounts k s (schedule_update s u)
unfolding schedule_update waiting is_made occurrences settlements waiters_of
schedule_update-Accounts k s u v =
    let own = own_number k s.promises in
    elim (Bool-cases s.cancelled) [
      | inl dead ↦ rw dead (record { behind = v.behind; single = v.single }, omega (arith, own))
      | inr alive ↦ elim (Bool-cases (valid_update s.target u)) [
        | inr bad ↦
            rw (alive, bad) (record { behind = v.behind; single = v.single }, omega (arith, own))
        | inl good ↦
            rw (alive, good)
              (
                record { behind = inl refl; single = inr refl },
                omega (
                  arith,
                  own,
                  occurrences-append k (waiters_of s.pending)
                      (waiters_of s.debounced ++ s.promises ∷ []),
                  occurrences-append k (waiters_of s.debounced) (s.promises ∷ []),
                ),
              )
      ]
    ]

pub when_idle_called-Accounts :
    (k : ℕ) (s : Scheduler) → IsScheduler s → Accounts k s (when_idle_called s)
unfolding when_idle_called waiting is_made occurrences settlements
when_idle_called-Accounts k s v =
    let own = own_number k s.promises in
    elim (Bool-cases (is_idle s)) [
      | inl idle ↦ rw idle (record { behind = v.behind; single = v.single }, omega (arith, own))
      | inr busy ↦ rw busy (
        record { behind = v.behind; single = v.single },
        omega (arith, own, occurrences-append k s.idle_waiters (s.promises ∷ [])),
      )
    ]

pub followed_by-Accounts :
    (k : ℕ) (s : Scheduler) (r : Scheduler × List Output)
    (next : Scheduler → Scheduler × List Output)
    → Accounts k s r
    → (IsScheduler r.0 → Accounts k r.0 (next r.0))
    → Accounts k s (followed_by r next)
unfolding followed_by
followed_by-Accounts k s r next a f =
    let b = f a.0 in (b.0, omega (arith, a.1, b.1, settlements-append k r.1 (next r.0).1))

pub cleaned-Accounts :
    (k : ℕ) (s : Scheduler)
    → IsScheduler s
    → Accounts k s (
      record s { cancelled = true; cleaned_up = true; debounced = none; pending = none },
      reject scheduler_cancelled (waiters_of s.debounced)
          ++ reject scheduler_cancelled (waiters_of s.pending),
    )
unfolding waiting is_made waiters_of occurrences
cleaned-Accounts k s v = (
  record { behind = inl refl; single = inl refl },
  omega (
    arith,
    settlements-append k (reject scheduler_cancelled (waiters_of s.debounced))
        (reject scheduler_cancelled (waiters_of s.pending)),
    settlements-reject k scheduler_cancelled (waiters_of s.debounced),
    settlements-reject k scheduler_cancelled (waiters_of s.pending),
  ),
)

pub same-Accounts : (k : ℕ) (s : Scheduler) → IsScheduler s → Accounts k s (s, [])
unfolding settlements
same-Accounts k s v = (v, omega arith)

pub clean-Accounts :
    (k : ℕ) (s : Scheduler) (again : Bool) → IsScheduler s → Accounts k s (clean s again)
unfolding clean
clean-Accounts k s true v = same-Accounts k s v
clean-Accounts k s false v =
    followed_by-Accounts k s _ notify_if_idle
      (followed_by-Accounts k s _ when_idle_called (cleaned-Accounts k s v)
        (when_idle_called-Accounts k _))
      (notify_if_idle-Accounts k _)

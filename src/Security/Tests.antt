-- ===== src/Security/Tests.antt =====
-- packages/security-state/src/audio-meter.ts: a meter of a small grant.
use palancar.Base.{
  ℕ, ◌+◌, ◌≤◌, ◌≡◌, refl, false, Option, some, List, [], ◌∷◌, ◌++◌, Text, codes, arith, nat, text,
}
use palancar.Contracts.Uuid.{is_uuid}
use palancar.Security.AudioMeter.{
  GrantInput, AudioGrant, Meter, Outcome, ok, err, stale_lease, Snapshot, Reading, RangeInput,
  range, accept, parse_audio_grant,
}
use palancar.Security.AudioMeter
use palancar.Security.AudioMeter.Ranges.{IsMetered, Keeps, Extends, accept-Extends, accept-Keeps}
use palancar.Security.AudioMeter.History.{
  charged, charge, after, Tiles, create-charged-Tiles, expired-charged,
}

abbrev id : Text
id = codes "123e4567-e89b-42d3-a456-426614174000"

abbrev input : Option GrantInput
input = some (record {
  grant_id = text id;
  utterance_id = text id;
  installation_id = text id;
  session_id = text id;
  session_epoch = nat 1;
  session_lease_version = nat 1;
  issued_at = nat 1_000;
  expires_at = nat 2_000;
  from_offset = nat 100;
  through_offset = nat 300;
  reserved_samples = nat 200;
})

abbrev grant : AudioGrant
grant = record {
  grant_id = id;
  utterance_id = id;
  installation_id = id;
  session_id = id;
  session_epoch = 1;
  session_lease_version = 1;
  issued_at = 1_000;
  expires_at = 2_000;
  from_offset = 100;
  through_offset = 300;
  reserved_samples = 200;
}

abbrev meter : Meter
meter = record {
  grant = grant;
  accepted_through = 100;
  last_now = 1_000;
  external_active = false;
  operation_active = false;
  reentry_detected = false;
}

abbrev first_range : Option RangeInput
first_range = some (record { from_offset = nat 100; through_offset = nat 200 })

abbrev second_range : Option RangeInput
second_range = some (record { from_offset = nat 200; through_offset = nat 300 })

abbrev at : ℕ → Reading
at n = record { reenters = false; observed = ok (nat n) }

abbrev calls : List (Option RangeInput × Reading)
calls = (first_range, at 1_100) ∷ ((second_range, at 1_200) ∷ ((first_range, at 1_300) ∷ []))

created : AudioMeter.create input ≡ ok meter
unfolding AudioMeter.create parse_audio_grant is_uuid
created = refl

create-charged-Tiles_example :
    Tiles 100 (charged meter calls) (after meter calls).accepted_through
    × ((after meter calls).accepted_through ≤ 100 + 200)
create-charged-Tiles_example = create-charged-Tiles input meter calls created

meter-IsMetered : IsMetered meter
meter-IsMetered = record {
  started = omega arith;
  within = omega arith;
  reserved = refl;
  outside = refl;
  idle = refl;
}

abbrev first_call : List (Option RangeInput × Reading)
first_call = (first_range, at 1_100) ∷ []

abbrev turned_back : List (Option RangeInput × Reading)
turned_back = (second_range, at 1_900) ∷ []

first_charged : charged meter (first_call ++ turned_back) ≡ (100, 200) ∷ ((200, 300) ∷ [])
unfolding charged charge accept range
first_charged = refl

expired-charged_example :
    charged (after meter first_call) ((second_range, at 2_000) ∷ turned_back) ≡ []
unfolding range
expired-charged_example =
    expired-charged input meter first_call turned_back second_range (200, 300) 2_000 created refl
      (omega arith) (omega arith)

abbrev first_snapshot : Snapshot
first_snapshot = record {
  grant_id = id;
  from_offset = 100;
  through_offset = 300;
  accepted_through = 200;
  accepted_samples = 100;
  remaining_samples = 100;
  complete = false;
}

first_accepted : (accept meter first_range (at 1_100)).1 ≡ ok first_snapshot
unfolding accept
first_accepted = refl

accept-Extends_example :
    (f : ℕ) × (t : ℕ) × (range first_range ≡ ok (f, t))
    × Extends meter (accept meter first_range (at 1_100)).0 f t
accept-Extends_example =
    accept-Extends meter first_range (at 1_100) first_snapshot meter-IsMetered first_accepted

second_refused : (accept meter second_range (at 1_100)).1 ≡ err stale_lease
unfolding accept
second_refused = refl

accept-Keeps_example : Keeps meter (accept meter second_range (at 1_100)).0
accept-Keeps_example =
    accept-Keeps meter second_range (at 1_100) stale_lease meter-IsMetered second_refused

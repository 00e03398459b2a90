-- ===== src/Media/Admission/Tests.antt =====
-- The gate at concrete events: two permits, one place to wait.
use presslabz.Base.{◌≡◌, refl, List, [], ◌∷◌, ◌++◌, true, false, some, none}
use presslabz.Media.Admission.{
  Gate, created, range_error, AdmissionOptions, create_admission, natural, not_integer, Event,
  acquires, releases, times_out, aborts, run, release, granted, capacity_error, timeout, aborted,
  is_released,
}
use presslabz.Media.Admission.Permits.{IsSound, run-IsSound}
use presslabz.Media.Admission.Promises.{IsTracked, run-IsTracked}
use presslabz.Media.Admission.Slots.{release_idempotent}
use presslabz.Media.Admission.Queue.{IsHandedOver, release-grants_oldest}

abbrev options : AdmissionOptions
options = record { max_active = some (natural 2); max_waiting = some (natural 2); wait_ms = none }

abbrev gate : Gate
gate = record {
  max_active = 2;
  max_waiting = 2;
  wait_ms = 30000;
  active = 0;
  queue = [];
  released = [];
  armed = [];
  next_waiter = 0;
  outcomes = [];
}

options_create : create_admission options ≡ created gate
unfolding create_admission
options_create = refl

not_a_number_is_refused :
    create_admission (record options { wait_ms = some not_integer }) ≡ range_error "waitMs"
unfolding create_admission
not_a_number_is_refused = refl

abbrev busy : List Event
busy =
    acquires false
    ∷ acquires false
    ∷ acquires false
    ∷ acquires true
    ∷ acquires false
    ∷ times_out 0
    ∷ acquires false
    ∷ []

busy_queue : (run gate busy).queue ≡ 1 ∷ 2 ∷ []
unfolding run
busy_queue = refl

busy_outcomes :
    (run gate (busy ++ releases 0 ∷ aborts 2 ∷ [])).outcomes
    ≡ (2, aborted) ∷ (1, granted 2) ∷ (0, capacity_error timeout) ∷ []
unfolding run
busy_outcomes = refl

run-IsSound_example : IsSound (run gate busy)
run-IsSound_example = run-IsSound options gate busy options_create

run-IsTracked_example : IsTracked (run gate busy)
run-IsTracked_example = run-IsTracked options gate busy options_create

slot_is_held : is_released (run gate busy).released 0 ≡ false
unfolding run
slot_is_held = refl

release_idempotent_example :
    release 0 (run (release 0 (run gate busy)) busy) ≡ run (release 0 (run gate busy)) busy
release_idempotent_example = release_idempotent (run gate busy) 0 busy slot_is_held

release-grants_oldest_example : IsHandedOver (run gate busy) 0 1 (2 ∷ [])
release-grants_oldest_example =
    release-grants_oldest options gate busy 0 1 (2 ∷ []) options_create slot_is_held busy_queue

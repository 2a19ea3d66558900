-- ===== src/Examples/Security.antt =====
-- The circuit breaker, the throttle, the lock, the scheduled tasks, the idempotency store and the
-- resource governor, each on a small input.
use wattanman.Base.{
  ne_of_str_eq, ℕ, ◌≤◌, ◌&&◌, ◌==◌, String, ◌≡◌, ◌≢◌, refl, true, false, none, some, List, [], ◌∷◌,
  arith, ok, conflict, str_eq, if◌then◌else◌,
}
use wattanman.Base.Map.{Map, empty, set}
use wattanman.Security.CircuitBreaker.{
  Settings, LocalState, throws, returns, circuit_open, assert_request_allowed, execute,
}
use wattanman.Security.CircuitBreaker.Probe.{IsOpen, uncounted_probe_sticks}
use wattanman.Security.Throttle.{Hits}
use wattanman.Security.Lock
use wattanman.Security.Lock.{Lease}
use wattanman.Security.Lock.Exclusion
use wattanman.Security.Lock.Exclusion.{steps, Holds, steps-acquire_exclusive}
use wattanman.Security.Schedule
use wattanman.Security.Schedule.{Claims, sweep_claims}
use wattanman.Security.Schedule.Once.{Claim, claim_all, acquire_once}
use wattanman.Security.Idempotency.{
  Stored, Request, Handled, begin, reserved, refused, keep_response, catch_error, State,
}
use wattanman.Security.Idempotency.Replay.{IsGuarded, begin-refused, release_twice}
use wattanman.Security.Governor
use wattanman.Security.Governor.{Counters, Key, LocalCounter}
use wattanman.Security.Governor.Slots
use wattanman.Security.Governor.Slots.{slots, steps-bounded, slots_forgotten, step}

abbrev settings : Settings
settings = record { failure_threshold = 3; reset_timeout_ms = 1000 }

abbrev open_state : LocalState
open_state = record { failures = 3; opened_at = some 300; probing = false }

abbrev open_circuit : Map LocalState
open_circuit = set empty "r2" open_state

abbrev probed_circuit : Map LocalState
probed_circuit = set open_circuit "r2" (record open_state { probing = true })

open_state-IsOpen : IsOpen open_state
open_state-IsOpen = record { is_open = refl; idle = refl }

open_circuit-probed : assert_request_allowed settings 1400 "r2" open_circuit ≡ ok probed_circuit
unfolding assert_request_allowed
open_circuit-probed = refl

uncounted_probe_sticks_example :
    let after = (execute {T = ℕ} settings 1400 1500 "r2" (throws false) open_circuit).1 in
    execute {T = ℕ} settings 9000 9001 "r2" (returns 7) after ≡ (circuit_open, after)
uncounted_probe_sticks_example =
    uncounted_probe_sticks {T = ℕ} settings "r2" open_circuit open_state 1400 1500 9000 9001
      (returns 7) refl open_state-IsOpen (omega arith)

abbrev blocked_hits : Hits
blocked_hits = record { count = 3; expires_at = 60010; blocked_until = 300030 }

abbrev commands : List Exclusion.Event
commands = Exclusion.Event.acquires "other" "b" 20 ∷ Exclusion.Event.releases "install" "c" ∷ []

install_taken : (Lock.acquire 1000 "install" "a" 10 empty).0 ≡ true
unfolding Lock.acquire
install_taken = refl

abbrev owner_c : String
owner_c = "c"

not_a : owner_c ≢ "a"
not_a = ne_of_str_eq owner_c "a" refl

steps-acquire_exclusive_example :
    let held = steps 1000 commands (Lock.acquire 1000 "install" "a" 10 empty).1 in
    Holds held "install" "a" 1010 × ((Lock.acquire 1000 "install" "d" 500 held).0 ≡ false)
steps-acquire_exclusive_example =
    steps-acquire_exclusive 1000 "install" "a" 10 empty commands install_taken
      (omega arith, (not_a, tt)) "d" 500 (omega arith)

abbrev no_claims : Claims
no_claims task bucket = none

abbrev updates_claimed : Claims
updates_claimed t b = if str_eq "updates" t && (5 == b) then some 15000 else none

updates_claim : Schedule.acquire "updates" 2000 11000 no_claims ≡ ok (true, updates_claimed)
unfolding Schedule.acquire
updates_claim = refl

abbrev other_claims : List Claim
other_claims = record { task = "alerts"; window_ms = 1000; now = 11400 } ∷ []

acquire_once_example :
    Schedule.acquire "updates" 2000 11500 (claim_all other_claims updates_claimed)
    ≡ ok (false, sweep_claims (claim_all other_claims updates_claimed) 11500)
acquire_once_example =
    acquire_once "updates" 2000 11000 11500 no_claims updates_claimed other_claims updates_claim
      refl (omega arith, tt)

abbrev payment : Request
payment = record {
  mutating = true;
  required = true;
  raw_key = "pay-1";
  well_formed = true;
  key = "k1";
  fingerprint = "f1";
}

abbrev nothing_stored : Map (Stored String)
nothing_stored = empty

abbrev reservation : Stored String
reservation = record {
  saved = record { fingerprint = "f1"; state = State.processing; status_code = 0; response = none };
  expires_at = 1010;
}

abbrev payment_stored : Map (Stored String)
payment_stored = set nothing_stored "k1" reservation

payment_reserved : begin 1000 200 payment 10 nothing_stored ≡ (reserved, payment_stored)
unfolding begin
payment_reserved = refl

payment-IsGuarded : IsGuarded payment
payment-IsGuarded = record { mutates = refl; keyed = refl; formed = refl }

begin-refused_example :
    begin 1000 200 payment 500 payment_stored ≡ (refused conflict, payment_stored)
begin-refused_example =
    begin-refused 1000 200 nothing_stored payment_stored payment payment 10 500 payment_reserved
      payment-IsGuarded refl (omega arith)

release_twice_example :
    let kept = keep_response 1000 50 payment 20 (Handled.responds 200 60 "paid") payment_stored in
    let retry = begin 1000 200 payment 30 kept.1 in
    (retry.0 ≡ reserved)
    × ((begin 1000 200 payment 40 (catch_error payment (kept.0, retry.1)).1).0 ≡ reserved)
release_twice_example =
    release_twice 1000 200 50 200 60 "paid" payment payment payment_stored 20 30 40 1010
      payment-IsGuarded payment-IsGuarded refl refl (refl, refl, refl) (omega arith)

abbrev school_slots : Key
school_slots = Key.concurrency_school "s1"

abbrev no_counters : Counters
no_counters k = none

abbrev arrivals : List Slots.Event
arrivals =
    Slots.Event.enters 10 ∷ Slots.Event.enters 20 ∷ Slots.Event.leaves ∷ Slots.Event.enters 30 ∷ []

steps-bounded_example :
    let after = Slots.steps school_slots 2 arrivals (0, no_counters) in
    (slots (after.1 school_slots) ≡ after.0) × (after.0 ≤ 2)
steps-bounded_example = steps-bounded school_slots 2 5 arrivals no_counters refl (
  (omega arith, omega arith),
  ((omega arith, omega arith), (tt, ((omega arith, omega arith), tt))),
)

abbrev full_counter : LocalCounter
full_counter = record { count = 2; expires_at = 300010 }

abbrev full_counters : Counters
full_counters k = if Governor.key_eq school_slots k then some full_counter else none

-- ===== src/Security/CircuitBreaker.antt =====
-- backend/src/security/circuit-breaker.service.ts. `name` is the normalised dependency name, and
-- each call takes the clock's value where the code reads `Date.now()`.
pub mod Opening
pub mod Probe
use wattanman.Base.{
  ℕ, zero, suc, ◌+◌, String, Bool, true, false, not, ◌||◌, Option, none, some, List, [], ◌∷◌, ltb,
  leb, ◌==◌, if◌then◌else◌, Result, ok, err, unavailable,
}
use wattanman.Base.Map.{Map, set, delete}

-- The two positive settings.
pub record Settings : Type 0 where
  pub failure_threshold : ℕ
  pub reset_timeout_ms : ℕ

pub record LocalState : Type 0 where
  pub failures : ℕ
  pub opened_at : Option ℕ
  pub probing : Bool

-- `0` is as false as a missing time.
abbrev pub opened : Option ℕ → Bool
opened none = false
opened (some zero) = false
opened (some (suc n)) = true

abbrev pub opening_time : Option ℕ → ℕ
opening_time none = 0
opening_time (some t) = t

unfoldable pub assert_request_allowed :
    Settings → ℕ → String → Map LocalState → Result (Map LocalState)
assert_request_allowed c now name local = elim (local name) [
  | none ↦ ok local
  | some state ↦
      if not (opened state.opened_at)
      then ok local
      else (if ltb now (opening_time state.opened_at + c.reset_timeout_ms) || state.probing
          then err unavailable
          else ok (set local name (record state { probing = true })))
]

unfoldable pub record_success : String → Map LocalState → Map LocalState
record_success name local = delete local name

abbrev or_new : Option LocalState → LocalState
or_new none = record { failures = 0; opened_at = none; probing = false }
or_new (some state) = state

abbrev fail_once : Settings → ℕ → LocalState → LocalState
fail_once c now state = record {
  failures = state.failures + 1;
  opened_at = if leb c.failure_threshold (state.failures + 1) then some now else state.opened_at;
  probing = false;
}

unfoldable pub record_failure : Settings → ℕ → String → Map LocalState → Map LocalState
record_failure c now name local = set local name (fail_once c now (or_new (local name)))

-- How the operation ends: with a value, or with an error that counts as a failure or does not.
pub data Outcome (T : Type 0) : Type 0 where
  returns : T → Outcome T
  throws : (counts : Bool) → Outcome T

pub data Reply (T : Type 0) : Type 0 where
  value : T → Reply T
  rethrown : Reply T
  circuit_open : Reply T

unfoldable pub settle :
    {T : Type 0} → Settings → ℕ → String → Outcome T → Map LocalState → Reply T × Map LocalState
settle c now name (returns v) local = (value v, record_success name local)
settle c now name (throws counts) local =
    (rethrown, if counts then record_failure c now name local else local)

-- A call that no other call interrupts: admitted at `now`, settled at `later`.
unfoldable pub execute :
    {T : Type 0} → Settings → ℕ → ℕ → String → Outcome T → Map LocalState → Reply T × Map LocalState
unfolding assert_request_allowed settle
execute c now later name outcome local = elim (assert_request_allowed c now name local) [
  | ok admitted ↦ settle c later name outcome admitted
  | err e ↦ (circuit_open, local)
]

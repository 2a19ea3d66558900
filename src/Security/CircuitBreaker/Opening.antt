-- ===== src/Security/CircuitBreaker/Opening.antt =====
-- When the circuit opens.
use wattanman.Base.{
  ℕ, zero, suc, ◌+◌, ◌<◌, String, ◌≡◌, false, Option, none, some, List, [], ◌∷◌, arith, ltb, length,
  is_ok, eq_refl,
}
use wattanman.Base.Map.{Map, empty}
use wattanman.Security.CircuitBreaker.{
  Settings, LocalState, opened, assert_request_allowed, record_failure,
}

-- Failures of one dependency, one after another, at the given times.
pub fail_at : Settings → String → List ℕ → Map LocalState → Map LocalState
fail_at c name [] local = local
fail_at c name (t ∷ ts) local = fail_at c name ts (record_failure c t name local)

abbrev failures_of : Option LocalState → ℕ
failures_of none = 0
failures_of (some s) = s.failures

-- An entry with too few failures is closed.
abbrev IsCounted : Settings → Option LocalState → Type 0
IsCounted c none = Unit
IsCounted c (some s) = s.failures < c.failure_threshold → opened s.opened_at ≡ false

record_failure-IsCounted :
    (c : Settings) (t : ℕ) (name : String) (local : Map LocalState)
    → IsCounted c (local name)
    → IsCounted c (record_failure c t name local name)
      × (failures_of (record_failure c t name local name) ≡ failures_of (local name) + 1)
unfolding record_failure
record_failure-IsCounted c t name local h = ground (arith, eq_refl name)

fail_at-IsCounted :
    (c : Settings) (name : String) (ts : List ℕ) (local : Map LocalState)
    → IsCounted c (local name)
    → IsCounted c (fail_at c name ts local name)
      × (failures_of (fail_at c name ts local name) ≡ failures_of (local name) + length ts)
unfolding fail_at
fail_at-IsCounted c name [] local h = (h, omega arith)
fail_at-IsCounted c name (t ∷ ts) local h =
    let (k, e) = record_failure-IsCounted c t name local h in
    let (k', e') = fail_at-IsCounted c name ts (record_failure c t name local) k in
    (k', omega arith)

-- A dependency that has only failed, the last time at `t`: until the reset time is over, requests
-- are admitted exactly while the number of failures is below the threshold.
pub is_ok-assert_request_allowed :
    (c : Settings) (name : String) (ts : List ℕ) (t now : ℕ)
    → 0 < t
    → now < t + c.reset_timeout_ms
    → is_ok (assert_request_allowed c now name (record_failure c t name (fail_at c name ts empty)))
      ≡ ltb (length ts + 1) c.failure_threshold
unfolding assert_request_allowed record_failure
is_ok-assert_request_allowed c name ts (suc t) now pos early =
    ground (arith, eq_refl name, fail_at-IsCounted c name ts empty tt)
is_ok-assert_request_allowed c name ts zero now pos early = elim pos [ ]

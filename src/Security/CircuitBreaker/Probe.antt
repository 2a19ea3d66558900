-- ===== src/Security/CircuitBreaker/Probe.antt =====
-- The single request that probes an open circuit.
use wattanman.Base.{ℕ, ◌+◌, ◌≤◌, String, ◌≡◌, true, false, some, arith, ok, is_ok, eq_refl}
use wattanman.Base.Map.{Map}
use wattanman.Security.CircuitBreaker.{
  Settings, LocalState, opened, opening_time, assert_request_allowed, execute, Outcome, throws,
  circuit_open,
}

-- The entry of an open circuit.
pub record IsOpen (s : LocalState) : Type 0 where
  pub is_open : opened s.opened_at ≡ true
  pub idle : s.probing ≡ false

-- While a probe is out, every other request is refused, however late it comes.
pub single_probe :
    (c : Settings) (name : String) (local admitted : Map LocalState) (s : LocalState)
    (now later : ℕ)
    → local name ≡ some s
    → IsOpen s
    → assert_request_allowed c now name local ≡ ok admitted
    → is_ok (assert_request_allowed c later name admitted) ≡ false
unfolding assert_request_allowed
single_probe c name local admitted s now later e o h = ground (arith, eq_refl name)

-- A probe that ends in an error that does not count as a failure leaves the circuit refusing every
-- later request: the operation is not called again, whenever the request comes.
pub uncounted_probe_sticks :
    {T : Type 0} (c : Settings) (name : String) (local : Map LocalState) (s : LocalState)
    (now end later last : ℕ) (outcome : Outcome T)
    → local name ≡ some s
    → IsOpen s
    → opening_time s.opened_at + c.reset_timeout_ms ≤ now
    → let after = (execute {T = T} c now end name (throws false) local).1 in
      execute c later last name outcome after ≡ (circuit_open, after)
unfolding execute
uncounted_probe_sticks c name local s now end later last outcome e o h =
    ground (arith, eq_refl name)

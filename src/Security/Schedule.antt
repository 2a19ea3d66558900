-- ===== src/Security/Schedule.antt =====
-- backend/src/security/scheduled-task-guard.service.ts, on the process-local `Map`. The code joins
-- the normalised task name and the number of the time window into one key; here it is their pair.
pub mod Once
use wattanman.Base.{
  ℕ, ◌+◌, ◌*◌, ◌/◌, String, Bool, true, false, ◌&&◌, ◌||◌, Option, none, some, leb, ltb, ◌==◌,
  str_eq, if◌then◌else◌, is_some, Result, ok, err, bad_request,
}

abbrev pub Claims : Type 0
Claims = String → ℕ → Option ℕ

abbrev live : ℕ → Option ℕ → Option ℕ
live now none = none
live now (some expires_at) = if leb expires_at now then none else some expires_at

-- The claims whose time is over are dropped first.
abbrev pub sweep_claims : Claims → ℕ → Claims
sweep_claims local now task bucket = live now (local task bucket)

abbrev set_claim : Claims → String → ℕ → ℕ → Claims
set_claim local task bucket expires_at t b =
    if str_eq task t && (bucket == b) then some expires_at else local t b

-- `err` is the error that an empty name or a window under a second throws.
unfoldable pub acquire : String → ℕ → ℕ → Claims → Result (Bool × Claims)
acquire task window_ms now local =
    let swept = sweep_claims local now in
    if str_eq task "" || ltb window_ms 1000
    then err bad_request
    else (if is_some (swept task (now / window_ms))
        then ok (false, swept)
        else ok (true, set_claim swept task (now / window_ms) (now + window_ms * 2)))

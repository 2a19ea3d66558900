-- ===== src/Security/Lock.antt =====
-- backend/src/security/distributed-lock.service.ts, on the process-local `Map`. `key` is the
-- normalised command key; an owner is the random identifier that `run` draws.
pub mod Exclusion
use wattanman.Base.{
  ℕ, ◌+◌, String, Bool, true, false, Option, none, some, leb, if◌then◌else◌, str_eq, is_some,
}
use wattanman.Base.Map.{Map, set, delete, sweep}

pub record Lease : Type 0 where
  pub owner : String
  pub expires_at : ℕ

-- The outcome, and the locks afterwards.
unfoldable pub acquire : ℕ → String → String → ℕ → Map Lease → Bool × Map Lease
acquire ttl key owner now local =
    let live = sweep local (λ lease. leb lease.expires_at now) in
    if is_some (live key)
    then (false, live)
    else (true, set live key (record { owner = owner; expires_at = now + ttl }))

abbrev owned_by : String → Option Lease → Bool
owned_by owner none = false
owned_by owner (some lease) = str_eq lease.owner owner

unfoldable pub release : String → String → Map Lease → Map Lease
release key owner local = if owned_by owner (local key) then delete local key else local

-- How a command ends; its lock is released either way.
pub data Reply (T : Type 0) : Type 0 where
  value : T → Reply T
  thrown : Reply T
  conflict : Reply T

-- `run`: the operation takes the locks as it finds them and gives them back as other commands have
-- left them.
unfoldable pub run :
    {T : Type 0}
    → ℕ
    → String
    → String
    → ℕ
    → (Map Lease → Reply T × Map Lease)
    → Map Lease
    → Reply T × Map Lease
unfolding acquire release
run ttl key owner now operation local =
    let (taken, held) = acquire ttl key owner now local in
    let (reply, after) = operation held in
    if taken then (reply, release key owner after) else (conflict, held)

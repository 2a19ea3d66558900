-- ===== src/Security/Throttle.antt =====
-- backend/src/security/redis-throttler.storage.ts, on the process-local `Map`. The key is the
-- name-spaced one, and `now` is the clock's value.
pub mod Window
use wattanman.Base.{
  ℕ, ◌+◌, ◌-◌, String, Bool, ◌||◌, Option, none, some, leb, ltb, ◌==◌, if◌then◌else◌, ◌&&◌,
}
use wattanman.Base.Map.{Map, set}

pub record Hits : Type 0 where
  pub count : ℕ
  pub expires_at : ℕ
  pub blocked_until : ℕ

pub record ThrottlerStorageRecord : Type 0 where
  pub total_hits : ℕ
  pub time_to_expire : ℕ
  pub is_blocked : Bool
  pub time_to_block_expire : ℕ

abbrev current : ℕ → ℕ → Option Hits → Hits
current now ttl none = record { count = 0; expires_at = now + ttl; blocked_until = 0 }
current now ttl (some existing) =
    if leb existing.expires_at now
    then record { count = 0; expires_at = now + ttl; blocked_until = 0 }
    else existing

abbrev hit : ℕ → ℕ → ℕ → Hits → Hits
hit now limit block_ms r = record r {
  count = r.count + 1;
  blocked_until =
      if ltb limit (r.count + 1) && leb r.blocked_until now
      then now + block_ms
      else r.blocked_until;
}

abbrev report : ℕ → Hits → ThrottlerStorageRecord
report now r = record {
  total_hits = r.count;
  time_to_expire = r.expires_at - now;
  is_blocked = ltb now r.blocked_until;
  time_to_block_expire = r.blocked_until - now;
}

pub increment_local : String → ℕ → ℕ → ℕ → ℕ → Map Hits → ThrottlerStorageRecord × Map Hits
increment_local key ttl limit block_ms now local =
    let r = hit now limit block_ms (current now ttl (local key)) in (report now r, set local key r)

-- `Math.max(blockDuration || ttl, 1)`
abbrev block_of : ℕ → ℕ → ℕ
block_of block_duration ttl =
    let chosen = if block_duration == 0 then ttl else block_duration in
    if chosen == 0 then 1 else chosen

unfoldable pub increment : String → ℕ → ℕ → ℕ → ℕ → Map Hits → ThrottlerStorageRecord × Map Hits
unfolding increment_local
increment key ttl limit block_duration now local =
    increment_local key ttl limit (block_of block_duration ttl) now local

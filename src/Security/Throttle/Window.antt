-- ===== src/Security/Throttle/Window.antt =====
-- Counting requests within a window, and what the window's end does to a block.
use wattanman.Base.{
  ℕ, ◌+◌, ◌≤◌, ◌<◌, String, ◌≡◌, false, Option, none, some, List, [], ◌∷◌, arith, ltb, length,
  eq_refl, All,
}
use wattanman.Base.Map.{Map}
use wattanman.Security.Throttle.{Hits, ThrottlerStorageRecord, increment}

-- Requests for one key at the given times, in turn, after a first one; the answer to the last.
pub hits_at :
    String → ℕ → ℕ → ℕ → List ℕ → ThrottlerStorageRecord × Map Hits → ThrottlerStorageRecord
hits_at key ttl limit block_duration [] reply = reply.0
hits_at key ttl limit block_duration (t ∷ ts) (_, local) =
    hits_at key ttl limit block_duration ts (increment key ttl limit block_duration t local)

-- The entry after `n` requests in the window that ends at `end`.
abbrev IsWindow : ℕ → ℕ → ℕ → Option Hits → Type 0
IsWindow limit end n none = ⊥
IsWindow limit end n (some h) =
    (h.count ≡ n) × (h.expires_at ≡ end) × (n ≤ limit → h.blocked_until ≡ 0)

record Answers (limit n : ℕ) (reply : ThrottlerStorageRecord) : Type 0 where
  total : reply.total_hits ≡ n
  blocked : reply.is_blocked ≡ ltb limit n

increment-first :
    (key : String) (ttl limit block_duration t : ℕ) (local : Map Hits)
    → local key ≡ none
    → let (reply, after) = increment key ttl limit block_duration t local in
      Answers limit 1 reply × IsWindow limit (t + ttl) 1 (after key)
unfolding increment
increment-first key ttl limit block_duration t local e = ground (arith, eq_refl key)

increment-next :
    (key : String) (ttl limit block_duration end n t : ℕ) (local : Map Hits)
    → t < end
    → IsWindow limit end n (local key)
    → let (reply, after) = increment key ttl limit block_duration t local in
      Answers limit (n + 1) reply × IsWindow limit end (n + 1) (after key)
unfolding increment
increment-next key ttl limit block_duration end n t local early w = ground (arith, eq_refl key)

hits_at_lem :
    (key : String) (ttl limit block_duration end n : ℕ) (ts : List ℕ)
    (reply : ThrottlerStorageRecord × Map Hits)
    → Answers limit n reply.0
    → IsWindow limit end n (reply.1 key)
    → All (λ t. t < end) ts
    → Answers limit (n + length ts) (hits_at key ttl limit block_duration ts reply)
unfolding hits_at
hits_at_lem key ttl limit block_duration end n [] reply a w h = ground arith
hits_at_lem key ttl limit block_duration end n (t ∷ ts) (_, local) a w (early, h) =
    let (a', w') = increment-next key ttl limit block_duration end n t local early w in
    let rest =
      hits_at_lem key ttl limit block_duration end (n + 1) ts
        (increment key ttl limit block_duration t local) a' w' h in
    ground arith

-- A new key's requests, the first at `t` and all before its window ends: the answer to the last
-- one counts them all, and blocks it exactly when they are more than the limit.
pub hits_at_counts :
    (key : String) (ttl limit block_duration t : ℕ) (ts : List ℕ) (local : Map Hits)
    → local key ≡ none
    → All (λ u. u < t + ttl) ts
    → let last =
        hits_at key ttl limit block_duration ts (increment key ttl limit block_duration t local) in
      (last.total_hits ≡ 1 + length ts) × (last.is_blocked ≡ ltb limit (1 + length ts))
hits_at_counts key ttl limit block_duration t ts local e h =
    let (a, w) = increment-first key ttl limit block_duration t local e in
    let r =
      hits_at_lem key ttl limit block_duration (t + ttl) 1 ts
        (increment key ttl limit block_duration t local) a w h in
    (r.total, r.blocked)

-- A block that outlasts its window is lifted when the window ends: the next request starts a new
-- window and passes, though the block is still running.
pub block_lifted :
    (key : String) (ttl limit block_duration now : ℕ) (local : Map Hits) (h : Hits)
    → local key ≡ some h
    → 0 < limit
    → h.expires_at ≤ now
    → now < h.blocked_until
    → let reply = (increment key ttl limit block_duration now local).0 in
      (reply.is_blocked ≡ false) × (reply.total_hits ≡ 1)
unfolding increment
block_lifted key ttl limit block_duration now local h e pos over running = ground arith

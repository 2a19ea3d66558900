-- ===== src/Security/Idempotency/Replay.antt =====
-- One command for one key: the first request runs it, the others are refused or replayed.
use wattanman.Base.{
  ℕ, ◌+◌, ◌≤◌, ◌<◌, String, ◌≡◌, true, false, Option, none, some, arith, if◌then◌else◌, eq_refl,
  str_eq, conflict, Error,
}
use wattanman.Base.Map.{Map}
use wattanman.Security.Idempotency.{
  Stored, Request, responds, throws, reserved, replayed, refused, begin, finish, processing,
  keep_response, catch_error,
}

-- A request that the store guards.
pub record IsGuarded (q : Request) : Type 0 where
  pub mutates : q.mutating ≡ true
  pub keyed : str_eq q.raw_key "" ≡ false
  pub formed : q.well_formed ≡ true

-- A reservation until `end`, with no response yet.
abbrev pub InFlight : {R : Type 0} → String → ℕ → Option (Stored R) → Type 0
InFlight fingerprint end none = ⊥
InFlight fingerprint end (some s) =
    (s.expires_at ≡ end) × (s.saved.state ≡ processing) × (s.saved.fingerprint ≡ fingerprint)

module _ {R : Type 0} (ttl current : ℕ) (local local' : Map (Stored R)) (q r : Request) where
  begin-reserved :
      (start : ℕ)
      → begin ttl current q start local ≡ (reserved, local')
      → InFlight q.fingerprint (start + ttl) (local' q.key)
  unfolding begin
  begin-reserved start h = ground (arith, eq_refl q.key)

  -- In the store that the reservation of a key leaves, and until the reservation ends, a guarded request with
  -- that key is refused, whatever its body, and the store stays as it is.
  pub begin-refused :
      (start now : ℕ)
      → begin ttl current q start local ≡ (reserved, local')
      → IsGuarded r
      → r.key ≡ q.key
      → now < start + ttl
      → begin ttl current r now local' ≡ (refused conflict, local')
  unfolding begin
  begin-refused start now h g same early = rw same (ground (arith, begin-reserved start h))

  -- Once the response is kept, a request with the same key and body gets that response, and one
  -- with another body is refused; neither runs the handler.
  pub begin-replayed :
      (limit end now status bytes : ℕ) (body : R)
      → bytes ≤ limit
      → 0 < status
      → IsGuarded r
      → r.key ≡ q.key
      → now < end + ttl
      → let kept = (finish ttl limit q end (responds status bytes body) local').1 in
        begin ttl current r now kept ≡ (
          (if str_eq q.fingerprint r.fingerprint
              then replayed status (some body)
              else refused conflict),
          kept,
        )
  unfolding begin finish
  begin-replayed limit end now status bytes body fits pos g same early =
      rw same (ground (arith, eq_refl q.key))

  -- A request whose handler fails frees its key: the same request runs the handler again.
  pub begin-retried :
      (limit start end now : ℕ) (e : Error)
      → begin ttl current q start local ≡ (reserved, local')
      → IsGuarded q
      → (begin ttl current q now (finish ttl limit q end (throws e) local').1).0 ≡ reserved
  unfolding begin finish
  begin-retried limit start end now e h g =
      ground (arith, eq_refl q.key, begin-reserved start h, eq_refl q.fingerprint)

-- A response that is too large frees its key, and the error handler behind it frees the key again: a retry
-- with the same body that is let in between the two loses its reservation to the second, so that one more
-- retry is let in beside it.
pub release_twice :
    {R : Type 0} (ttl current limit status bytes : ℕ) (body : R) (q r : Request)
    (local : Map (Stored R)) (sent now later end : ℕ)
    → IsGuarded q
    → IsGuarded r
    → r.key ≡ q.key
    → r.fingerprint ≡ q.fingerprint
    → InFlight q.fingerprint end (local q.key)
    → limit < bytes
    → let kept = keep_response ttl limit q sent (responds status bytes body) local in
      let retry = begin ttl current r now kept.1 in
      (retry.0 ≡ reserved)
      × ((begin ttl current r later (catch_error q (kept.0, retry.1)).1).0 ≡ reserved)
unfolding begin keep_response catch_error
release_twice ttl current limit status bytes body q r local sent now later end g g' same same' h
      big =
    rw (same, same') (ground (arith, eq_refl q.key, eq_refl q.fingerprint))

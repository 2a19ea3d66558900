-- ===== src/Security/Idempotency.antt =====
-- backend/src/security/idempotency.store.ts (on the process-local `Map`) and
-- idempotency.interceptor.ts. A request carries the hash of its scope and key, and the hash of its
-- body; a response is of any type.
pub mod Replay
use wattanman.Base.{
  ℕ, ◌+◌, String, Bool, true, false, not, ◌&&◌, ◌||◌, Option, none, some, ltb, ◌==◌, str_eq,
  if◌then◌else◌, Error, Result, ok, err, bad_request, conflict, payload_too_large,
}
use wattanman.Base.Map.{Map, set, delete}

pub data State : Type 0 where
  processing completed : State

pub record IdempotencyRecord (R : Type 0) : Type 0 where
  pub fingerprint : String
  pub state : State
  pub status_code : ℕ
  pub response : Option R

pub record Stored (R : Type 0) : Type 0 where
  pub saved : IdempotencyRecord R
  pub expires_at : ℕ

pub record Request : Type 0 where
  pub mutating : Bool
  pub required : Bool
  pub raw_key : String
  pub well_formed : Bool
  pub key : String
  pub fingerprint : String

-- What the handler behind the interceptor does.
pub data Handled (R : Type 0) : Type 0 where
  responds : (status bytes : ℕ) (body : R) → Handled R
  throws : Error → Handled R

-- What the interceptor does with a request before the handler runs.
pub data Gate (R : Type 0) : Type 0 where
  unguarded : Gate R
  reserved : Gate R
  replayed : ℕ → Option R → Gate R
  refused : Error → Gate R

abbrev is_processing : State → Bool
is_processing processing = true
is_processing completed = false

module _ {R : Type 0} where
  abbrev reservation : String → IdempotencyRecord R
  reservation fingerprint = record {
    fingerprint = fingerprint;
    state = processing;
    status_code = 0;
    response = none;
  }

  abbrev unexpired : ℕ → Option (Stored R) → Option (IdempotencyRecord R)
  unexpired now none = none
  unexpired now (some s) = if ltb now s.expires_at then some s.saved else none

  unfoldable pub reserve :
      ℕ → String → String → ℕ → Map (Stored R) → Option (IdempotencyRecord R) × Map (Stored R)
  reserve ttl key fingerprint now local = elim (unexpired now (local key)) [
    | some existing ↦ (some existing, local)
    | none ↦
        (none, set local key (record { saved = reservation fingerprint; expires_at = now + ttl }))
  ]

  unfoldable pub complete : ℕ → String → IdempotencyRecord R → ℕ → Map (Stored R) → Map (Stored R)
  complete ttl key r now local = set local key (record { saved = r; expires_at = now + ttl })

  abbrev written_for : String → Option (Stored R) → Bool
  written_for fingerprint none = false
  written_for fingerprint (some s) = str_eq s.saved.fingerprint fingerprint

  unfoldable pub release : String → String → Map (Stored R) → Map (Stored R)
  release key fingerprint local =
      if written_for fingerprint (local key) then delete local key else local

  -- The answer to a request whose key is taken; `current` is the response's own status.
  abbrev answer : ℕ → String → IdempotencyRecord R → Gate R
  answer current fingerprint r =
      if not (str_eq r.fingerprint fingerprint)
      then refused conflict
      else (if is_processing r.state
          then refused conflict
          else replayed (if r.status_code == 0 then current else r.status_code) r.response)

  abbrev admit :
      ℕ → String → Option (IdempotencyRecord R) × Map (Stored R) → Gate R × Map (Stored R)
  admit current fingerprint (none, local) = (reserved, local)
  admit current fingerprint (some r, local) = (answer current fingerprint r, local)

  unfoldable pub begin : ℕ → ℕ → Request → ℕ → Map (Stored R) → Gate R × Map (Stored R)
  unfolding reserve
  begin ttl current q now local =
      if q.mutating && q.required && str_eq q.raw_key ""
      then (refused bad_request, local)
      else (if not q.mutating || str_eq q.raw_key ""
          then (unguarded, local)
          else (if not q.well_formed
              then (refused conflict, local)
              else admit current q.fingerprint (reserve ttl q.key q.fingerprint now local)))

  -- After the handler: what is done with a response, one that is too large among them.
  unfoldable pub keep_response :
      ℕ → ℕ → Request → ℕ → Handled R → Map (Stored R) → Result R × Map (Stored R)
  unfolding complete release
  keep_response ttl limit q now (throws e) local = (err e, local)
  keep_response ttl limit q now (responds status bytes body) local =
      if ltb limit bytes then (err payload_too_large, release q.key q.fingerprint local) else (
        ok body,
        complete ttl q.key
            (record {
              fingerprint = q.fingerprint;
              state = completed;
              status_code = status;
              response = some body;
            })
            now local,
      )

  -- The error handler behind it, which the error of a response that is too large passes through as well.
  unfoldable pub catch_error : Request → Result R × Map (Stored R) → Result R × Map (Stored R)
  unfolding release
  catch_error q (ok body, local) = (ok body, local)
  catch_error q (err e, local) = (err e, release q.key q.fingerprint local)

  unfoldable pub finish :
      ℕ → ℕ → Request → ℕ → Handled R → Map (Stored R) → Result R × Map (Stored R)
  unfolding keep_response catch_error
  finish ttl limit q now handled local = catch_error q (keep_response ttl limit q now handled local)

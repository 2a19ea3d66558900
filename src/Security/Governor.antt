-- ===== src/Security/Governor.antt =====
-- backend/src/platform/extension-resource-governor.service.ts, on the process-local counters. The
-- extension key is the normalised one, and the quotas are the settings that the code reads.
pub mod Slots
use wattanman.Base.{
  ℕ, zero, suc, ◌+◌, ◌-◌, ◌*◌, String, Bool, true, false, Option, none, some, List, [], ◌∷◌, ◌++◌,
  leb, ltb, str_eq, if◌then◌else◌, Error, Result, ok, err, unavailable, too_many_requests,
  payload_too_large,
}

-- The key of a counter, a text of three parts in the code.
pub data Key : Type 0 where
  requests_school requests_extension concurrency_school concurrency_extension : String → Key
  exports_school exports_extension : String → Key

abbrev pub key_eq : Key → Key → Bool
key_eq (requests_school a) (requests_school b) = str_eq a b
key_eq (requests_extension a) (requests_extension b) = str_eq a b
key_eq (concurrency_school a) (concurrency_school b) = str_eq a b
key_eq (concurrency_extension a) (concurrency_extension b) = str_eq a b
key_eq (exports_school a) (exports_school b) = str_eq a b
key_eq (exports_extension a) (exports_extension b) = str_eq a b
key_eq _ _ = false

pub record LocalCounter : Type 0 where
  pub count : ℕ
  pub expires_at : ℕ

abbrev pub Counters : Type 0
Counters = Key → Option LocalCounter

abbrev pub set_counter : Counters → Key → LocalCounter → Counters
set_counter local key value k = if key_eq key k then some value else local k

abbrev pub drop_counter : Counters → Key → Counters
drop_counter local key k = if key_eq key k then none else local k

pub data Quota : Type 0 where
  request_quota concurrency_quota export_quota : Quota

-- The alert that a violation raises.
pub record Violation : Type 0 where
  pub quota : Quota
  pub school_id : String
  pub extension_key : String
  pub count : ℕ
  pub limit : ℕ
  pub critical : Bool

pub record Governor : Type 0 where
  pub local : Counters
  pub alerts : List Violation

pub record Limits : Type 0 where
  pub school_requests : ℕ
  pub global_requests : ℕ
  pub school_concurrency : ℕ
  pub global_concurrency : ℕ
  pub school_exports : ℕ
  pub global_exports : ℕ
  pub export_records : ℕ

abbrev next_count : ℕ → ℕ → Option LocalCounter → LocalCounter
next_count now ttl none = record { count = 1; expires_at = now + ttl }
next_count now ttl (some value) =
    if leb value.expires_at now
    then record { count = 1; expires_at = now + ttl }
    else record value { count = value.count + 1 }

unfoldable pub local_increment : Key → ℕ → ℕ → Counters → ℕ × Counters
local_increment key ttl now local =
    let next = next_count now ttl (local key) in (next.count, set_counter local key next)

abbrev released : Counters → Key → Option LocalCounter → Counters
released local key none = drop_counter local key
released local key (some value) =
    if leb value.count 1
    then drop_counter local key
    else set_counter local key (record value { count = value.count - 1 })

unfoldable pub release : Key → Counters → Counters
release key local = released local key (local key)

unfoldable pub local_acquire : Key → ℕ → ℕ → ℕ → Counters → ℕ × Counters
local_acquire key ttl limit now local =
    let (count, local') = local_increment key ttl now local in
    (count, if ltb limit count then release key local' else local')

abbrev violation : Quota → String → String → ℕ → ℕ → Violation
violation quota school_id extension_key count limit = record {
  quota = quota;
  school_id = school_id;
  extension_key = extension_key;
  count = count;
  limit = limit;
  critical = leb (limit * 2) count;
}

-- Each step of a request returns the governor that it leaves, also when it throws.
abbrev pub Step : Type 0
Step = Result (Unit {0}) × Governor

abbrev judge : Error → Quota → String → String → ℕ → ℕ × Counters → Governor → Step
judge e quota school_id extension limit (count, local) g =
    if leb count limit then (ok tt, record g { local = local }) else (
      err e,
      record {
        local = local;
        alerts = g.alerts ++ violation quota school_id extension count limit ∷ [];
      },
    )

unfoldable pub consume : Key → ℕ → ℕ → String → String → Quota → ℕ → Governor → Step
consume key limit ttl school_id extension quota now g =
    judge too_many_requests quota school_id extension limit (local_increment key ttl now g.local) g

unfoldable pub acquire : Key → ℕ → String → String → ℕ → Governor → Step
acquire key limit school_id extension now g =
    judge unavailable concurrency_quota school_id extension limit
      (local_acquire key 300000 limit now g.local) g

-- One step after another, unless the first throws.
infixl 5 ◌then_do◌
abbrev pub ◌then_do◌ : Step → (Governor → Step) → Step
(ok done, g) then_do next = next g
(err e, g) then_do next = (err e, g)

-- `try { step } catch (error) { undo; throw error; }`
abbrev or_undo : (Governor → Governor) → Step → Step
or_undo undo (ok done, g) = (ok done, g)
or_undo undo (err e, g) = (err e, undo g)

abbrev release_in : Key → Governor → Governor
release_in key g = record g { local = release key g.local }

-- Both concurrency slots, or neither.
unfoldable pub enter_slots : Limits → String → String → ℕ → Governor → Step
enter_slots l school_id extension now g =
    acquire (concurrency_school school_id) l.school_concurrency school_id extension now g
    then_do λ g'.
        or_undo (release_in (concurrency_school school_id)) (
          acquire (concurrency_extension extension) l.global_concurrency school_id extension now g')

unfoldable pub enter_request : Limits → String → String → ℕ → Governor → Step
enter_request l school_id extension now g =
    consume (requests_school school_id) l.school_requests 60000 school_id extension request_quota
      now g
    then_do (λ g'.
        consume (requests_extension extension) l.global_requests 60000 school_id extension
          request_quota now g')
    then_do (λ g'. enter_slots l school_id extension now g')

-- The function that `enterRequest` returns; a second call of it does nothing.
unfoldable pub leave_request : String → String → Bool → Governor → Bool × Governor
leave_request school_id extension true g = (true, g)
leave_request school_id extension false g = (
  true,
  release_in (concurrency_extension extension) (release_in (concurrency_school school_id) g),
)

unfoldable pub consume_export : Limits → String → String → ℕ → ℕ → Governor → Step
consume_export l school_id extension records now g =
    if ltb l.export_records records
    then (err payload_too_large, g)
    else (consume (exports_school school_id) l.school_exports 3600000 school_id extension
          export_quota now g
        then_do λ g'.
            consume (exports_extension extension) l.global_exports 3600000 school_id extension
              export_quota now g')

-- ===== src/Schools/Domains.antt =====
-- backend/src/tenancy/school-domain.service.ts: the host names of schools and the cache of their answers. A
-- host name is given normalised, as the list of its labels; the empty list is the empty text. A token, an
-- identifier, the time and the answer of the name service are arguments. The cache is a list with the
-- oldest entry first, as a `Map` keeps its keys. When a domain was last checked, and with what error, is left
-- out.
pub mod Owners
pub mod Caching
pub mod Limits
use wattanman.Base.{
  ℕ, ◌+◌, String, Bool, true, false, not, ◌&&◌, ◌||◌, Option, none, some, List, [], ◌∷◌, ◌++◌,
  str_eq, is_some, is_empty, leb, ltb, length, if◌then◌else◌, find, filter, any, includes, Result,
  ok, err, conflict, bad_request, throw_if, require, ◌>>=◌, ◌>>◌,
}

abbrev pub Host : Type 0
Host = List String

abbrev pub same_host : Host → Host → Bool
same_host [] [] = true
same_host (a ∷ xs) (b ∷ ys) = str_eq a b && same_host xs ys
same_host _ _ = false

pub data Kind : Type 0 where
  managed custom platform legacy_alias : Kind

abbrev pub is_custom : Kind → Bool
is_custom Kind.custom = true
is_custom _ = false

abbrev is_legacy : Kind → Bool
is_legacy Kind.legacy_alias = true
is_legacy _ = false

pub data Routing : Type 0 where
  unchecked ready failed : Routing

pub record Domain : Type 0 where
  pub id : String
  pub school_id : String
  pub hostname : Host
  pub kind : Kind
  pub is_verified : Bool
  pub verification_token : Option String
  pub verified_at : Option ℕ
  pub routing : Routing

pub record Cached : Type 0 where
  pub hostname : Host
  pub school_id : String
  pub expires_at : ℕ

pub record Registry : Type 0 where
  pub domains : List Domain
  pub cache : List Cached

-- What the environment sets, and the school of the platform itself.
pub record Settings : Type 0 where
  pub platform_host : Host
  pub root_domain : Host
  pub platform_school : Option String
  pub cache_ttl_ms : ℕ
  pub cache_max_entries : ℕ

abbrev pub has_host : Host → Domain → Bool
has_host host d = same_host d.hostname host

abbrev pub is_cached_for : Host → Cached → Bool
is_cached_for host c = same_host c.hostname host

abbrev pub invalidate_hostname : Host → List Cached → List Cached
invalidate_hostname host cache = filter (λ c. not (is_cached_for host c)) cache

-- `invalidateSchool`
abbrev pub invalidate_school : String → Registry → Registry
invalidate_school school reg = record reg {
  cache = filter (λ c. not (str_eq c.school_id school)) reg.cache;
}

abbrev drop_oldest : List Cached → List Cached
drop_oldest [] = []
drop_oldest (c ∷ cs) = cs

-- `Map.set`: the entry of a key that is there keeps its place.
unfoldable pub put_cached : Cached → List Cached → List Cached
put_cached new [] = new ∷ []
put_cached new (c ∷ cs) =
    let rest = put_cached new cs in if is_cached_for new.hostname c then new ∷ cs else c ∷ rest

unfoldable pub set_cached : Settings → ℕ → Host → String → List Cached → List Cached
set_cached s now host school cache =
    put_cached (record { hostname = host; school_id = school; expires_at = now + s.cache_ttl_ms })
      (if leb s.cache_max_entries (length cache) then drop_oldest cache else cache)

-- The one label before the root domain.
abbrev subdomain_of : Host → Host → Option String
subdomain_of [] root = none
subdomain_of (label ∷ rest) root =
    if not (is_empty root) && same_host rest root && not (str_eq label "") then some label else none

abbrev find_alias : Option String → List Domain → Option Domain
find_alias none domains = none
find_alias (some label) domains =
    find (λ d. has_host (label ∷ []) d && is_legacy d.kind && d.is_verified) domains

abbrev remember : Settings → ℕ → Host → Option Domain → Registry → Option String × Registry
remember s now host none reg = (none, reg)
remember s now host (some d) reg =
    (some d.school_id, record reg { cache = set_cached s now host d.school_id reg.cache })

-- The verified domain, or else the legacy alias.
abbrev pub find_domain : Settings → Host → List Domain → Option Domain
find_domain s host domains = elim (find (λ d. has_host host d && d.is_verified) domains) [
  | some d ↦ some d
  | none ↦ find_alias (subdomain_of host s.root_domain) domains
]

-- Past the cache.
unfoldable pub look_up : Settings → ℕ → Host → Registry → Option String × Registry
look_up s now host reg =
    if not (is_empty s.platform_host) && same_host host s.platform_host
    then (s.platform_school, reg)
    else remember s now host (find_domain s host reg.domains) reg

abbrev from_cache : Settings → ℕ → Host → Option Cached → Registry → Option String × Registry
from_cache s now host none reg = look_up s now host reg
from_cache s now host (some c) reg =
    if ltb now c.expires_at
    then (some c.school_id, reg)
    else look_up s now host (record reg { cache = invalidate_hostname host reg.cache })

unfoldable pub resolve : Settings → ℕ → Host → Registry → Option String × Registry
resolve s now host reg =
    if is_empty host
    then (none, reg)
    else from_cache s now host (find (is_cached_for host) reg.cache) reg

-- `upsert` by the host name: the row is changed, or made where there is none.
unfoldable pub upsert : Host → (Domain → Domain) → Domain → List Domain → List Domain
upsert host f new [] = new ∷ []
upsert host f new (d ∷ ds) =
    let rest = upsert host f new ds in if has_host host d then f d ∷ ds else d ∷ rest

abbrev pub write : Host → (Domain → Domain) → Domain → Registry → Registry
write host f new reg = record {
  domains = upsert host f new reg.domains;
  cache = invalidate_hostname host reg.cache;
}

abbrev managed_kind : Settings → Kind
managed_kind s = if is_empty s.root_domain then Kind.legacy_alias else Kind.managed

abbrev pub blank : String → String → Host → Kind → Domain
blank id school host kind = record {
  id = id;
  school_id = school;
  hostname = host;
  kind = kind;
  is_verified = false;
  verification_token = none;
  verified_at = none;
  routing = Routing.unchecked;
}

-- `id` is the identifier of a new row, here and below.
unfoldable pub register_managed_domain :
    Settings → ℕ → String → String → String → Registry → Registry
register_managed_domain s now id school subdomain reg =
    write (subdomain ∷ s.root_domain) (λ d. record d { school_id = school; kind = managed_kind s })
      (record (blank id school (subdomain ∷ s.root_domain) (managed_kind s)) {
        is_verified = true;
        verified_at = some now;
      })
      reg

-- A name with a dot; `localhost` has none.
abbrev pub is_qualified : Host → Bool
is_qualified (a ∷ b ∷ rest) = true
is_qualified _ = false

abbrev pub check_owner : String → Option Domain → Result (Unit {0})
check_owner school none = ok tt
check_owner school (some d) = throw_if (not (str_eq d.school_id school)) conflict

abbrev pub verified_row : ℕ → String → Kind → Domain → Domain
verified_row now school kind d = record d {
  school_id = school;
  kind = kind;
  is_verified = true;
  verified_at = some now;
  routing = Routing.ready;
}

unfoldable pub register_verified_domain :
    ℕ → String → String → Host → Kind → Registry → Result Registry
register_verified_domain now id school host kind reg = do
  throw_if (not (is_qualified host)) bad_request
  check_owner school (find (has_host host) reg.domains)
  ok (
      write host (verified_row now school kind)
        (verified_row now school kind (blank id school host kind)) reg)

abbrev pub requested_row : String → String → Domain → Domain
requested_row school token d = record d {
  school_id = school;
  kind = Kind.custom;
  is_verified = false;
  verification_token = some token;
  verified_at = none;
}

unfoldable pub request_custom_domain : String → String → String → Host → Registry → Result Registry
request_custom_domain id token school host reg = do
  throw_if (not (is_qualified host)) bad_request
  check_owner school (find (has_host host) reg.domains)
  ok (
      write host (requested_row school token)
        (requested_row school token (blank id school host Kind.custom)) reg)

abbrev pub change_domain : String → (Domain → Domain) → List Domain → List Domain
change_domain id f [] = []
change_domain id f (d ∷ ds) = (if str_eq d.id id then f d else d) ∷ change_domain id f ds

abbrev pub judged_row : ℕ → Bool → Domain → Domain
judged_row now true d = record d { is_verified = true; verified_at = some now }
judged_row now false d = record d { is_verified = false }

-- Whether the answer has the token; a failed look-up is none. Only a success drops the cached answer.
abbrev pub is_proved : String → Option (List String) → Bool
is_proved token none = false
is_proved token (some tokens) = includes tokens token

-- `answer`: the tokens of the records of the name.
unfoldable pub verify_custom_domain :
    ℕ → String → String → Option (List String) → Registry → Result Registry
verify_custom_domain now school id answer reg = do
  d ←
      require
        (find (λ d. str_eq d.id id && str_eq d.school_id school && is_custom d.kind) reg.domains)
        bad_request
  token ← require d.verification_token bad_request
  ok (record {
    domains = change_domain id (judged_row now (is_proved token answer)) reg.domains;
    cache = if is_proved token answer then invalidate_hostname d.hostname reg.cache else reg.cache;
  })

unfoldable pub update_routing_state : String → String → Bool → Registry → Result Registry
update_routing_state school id works reg = do
  d ← require (find (λ d. str_eq d.id id && str_eq d.school_id school) reg.domains) bad_request
  ok (record {
    domains =
        change_domain id
          (λ x. record x { routing = if works then Routing.ready else Routing.failed }) reg.domains;
    cache = invalidate_hostname d.hostname reg.cache;
  })

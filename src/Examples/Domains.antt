-- ===== src/Examples/Domains.antt =====
-- A registry with a school's own domain, a claim that is not proved, and what happens to it.
use wattanman.Base.{
  ◌≤◌, true, false, ◌≡◌, refl, none, some, List, [], ◌∷◌, find, all, length, arith,
}
use wattanman.Schools.Domains.{
  Host, Kind, Routing, Domain, Registry, Settings, look_up, resolve, register_managed_domain,
}
use wattanman.Schools.Domains.Owners.{Command, owner, perform_all, perform_all-owner}
use wattanman.Schools.Domains.Caching.{Event, run, run-settles}
use wattanman.Schools.Domains.Limits.{run-bounded, is_served, register_managed_domain-unserved}

abbrev settings : Settings
settings = record {
  platform_host = "admin" ∷ "app" ∷ "org" ∷ [];
  root_domain = "app" ∷ "org" ∷ [];
  platform_school = some "s0";
  cache_ttl_ms = 10000;
  cache_max_entries = 100;
}

abbrev own_host : Host
own_host = "north" ∷ "edu" ∷ []

abbrev claimed_host : Host
claimed_host = "south" ∷ "app" ∷ "org" ∷ []

abbrev own_domain : Domain
own_domain = record {
  id = "d1";
  school_id = "s1";
  hostname = own_host;
  kind = Kind.custom;
  is_verified = true;
  verification_token = some "t1";
  verified_at = some 1;
  routing = Routing.ready;
}

abbrev claimed_domain : Domain
claimed_domain = record own_domain {
  id = "d2";
  hostname = claimed_host;
  is_verified = false;
  verification_token = some "t2";
  verified_at = none;
}

abbrev registry : Registry
registry = record { domains = own_domain ∷ claimed_domain ∷ []; cache = [] }

-- Another school asks for the host, the own school proves it again in vain.
abbrev requests : List Command
requests =
    Command.claim "d3" "t3" "s2" own_host
    ∷ Command.register 50 "d4" "s2" own_host Kind.managed
    ∷ Command.prove 60 "s1" "d1" none
    ∷ []

perform_all-owner_example : owner own_host (perform_all requests registry).domains ≡ some "s1"
unfolding owner
perform_all-owner_example = perform_all-owner own_host "s1" requests registry refl

abbrev events : List Event
events =
    Event.ask 40 own_host
    ∷ Event.serve (Command.prove 60 "s1" "d1" none)
    ∷ Event.manage 70 "d5" "s3" "east"
    ∷ Event.forget "s3"
    ∷ []

run-settles_example :
    (resolve settings 10080 own_host
      (record (run settings events registry) { domains = claimed_domain ∷ [] })).0
    ≡ (look_up settings 10080 own_host (record { domains = claimed_domain ∷ []; cache = [] })).0
unfolding all
run-settles_example =
    run-settles settings 80 10080 own_host events registry (claimed_domain ∷ []) refl refl refl
      (omega arith)

run-bounded_example : length (run settings events registry).cache ≤ 100
run-bounded_example = run-bounded settings (omega arith) events registry (omega arith)

register_managed_domain-unserved_example :
    find
      (is_served claimed_host)
      (register_managed_domain settings 90 "d6" "s4" "south" registry).domains
    ≡ none
unfolding find
register_managed_domain-unserved_example =
    register_managed_domain-unserved settings 90 "d6" "s4" "south" registry refl refl

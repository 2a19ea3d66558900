-- ===== src/Schools/Domains/Limits.antt =====
-- The size of the cache, and a managed name that a school has claimed before.
use wattanman.Base.{
  ℕ, ◌+◌, ◌≤◌, ◌<◌, String, Bool, true, not, ◌&&◌, ◌≡◌, refl, inl, inr, none, List, [], ◌∷◌, find,
  filter, arith, length, Bool-cases, Option-cases, is_some, str_eq,
}
use wattanman.Schools.Domains.{
  Host, Domain, Cached, Registry, Settings, has_host, is_cached_for, is_custom, invalidate_hostname,
  put_cached, set_cached, find_domain, look_up, resolve, upsert, register_managed_domain,
  register_verified_domain, request_custom_domain, verify_custom_domain, update_routing_state,
}
use wattanman.Schools.Domains.Owners.{Command, register, claim, prove, route, perform, settle}
use wattanman.Schools.Domains.Caching.{Event, ask, serve, manage, forget, after, run}

length-filter : {A : Type 0} (p : A → Bool) (xs : List A) → length (filter p xs) ≤ length xs
unfolding filter
length-filter p [] = omega arith
length-filter p (x ∷ xs) = ground (arith, length-filter p xs)

length-put_cached : (new : Cached) (cs : List Cached) → length (put_cached new cs) ≤ length cs + 1
unfolding put_cached
length-put_cached new [] = ground arith
length-put_cached new (c ∷ cs) = ground (arith, length-put_cached new cs)

module _ (s : Settings) (some_room : 0 < s.cache_max_entries) where
  abbrev Fits : Registry → Type 0
  Fits reg = length reg.cache ≤ s.cache_max_entries

  set_cached-fits :
      (now : ℕ) (host : Host) (school : String) (cs : List Cached)
      → length cs ≤ s.cache_max_entries
      → length (set_cached s now host school cs) ≤ s.cache_max_entries
  unfolding set_cached
  set_cached-fits now host school [] l =
      let a =
        length-put_cached
          (record { hostname = host; school_id = school; expires_at = now + s.cache_ttl_ms }) [] in
      ground arith
  set_cached-fits now host school (c ∷ cs) l =
      let a =
        length-put_cached
          (record { hostname = host; school_id = school; expires_at = now + s.cache_ttl_ms }) cs in
      let b =
        length-put_cached
          (record { hostname = host; school_id = school; expires_at = now + s.cache_ttl_ms })
          (c ∷ cs) in
      ground arith

  look_up-Fits :
      (now : ℕ) (host : Host) (reg : Registry) → Fits reg → Fits (look_up s now host reg).1
  unfolding look_up
  look_up-Fits now host reg l = elim (Option-cases (find_domain s host reg.domains)) [
    | inl n ↦ ground arith
    | inr (d, e) ↦ let y = set_cached-fits now host d.school_id reg.cache l in ground arith
  ]

  resolve-Fits :
      (now : ℕ) (host : Host) (reg : Registry) → Fits reg → Fits (resolve s now host reg).1
  unfolding resolve
  resolve-Fits now host reg l =
      let a = look_up-Fits now host reg l in
      let c = length-filter (λ c. not (is_cached_for host c)) reg.cache in
      let b =
        look_up-Fits now host (record reg { cache = invalidate_hostname host reg.cache })
          (omega arith) in
      ground arith

  serve-Fits : (c : Command) (reg : Registry) → Fits reg → Fits (settle (perform c reg) reg)
  unfolding register_verified_domain request_custom_domain verify_custom_domain update_routing_state
  serve-Fits (register now id school host kind) reg l =
      let a = length-filter (λ c. not (is_cached_for host c)) reg.cache in ground arith
  serve-Fits (claim id token school host) reg l =
      let a = length-filter (λ c. not (is_cached_for host c)) reg.cache in ground arith
  serve-Fits (prove now school id answer) reg l =
      elim (Option-cases
        (find (λ d. str_eq d.id id && str_eq d.school_id school && is_custom d.kind) reg.domains)) [
          | inl n ↦ ground arith
          | inr (d, e) ↦
              let a = length-filter (λ c. not (is_cached_for d.hostname c)) reg.cache in
              ground arith
        ]
  serve-Fits (route school id works) reg l =
      elim (Option-cases (find (λ d. str_eq d.id id && str_eq d.school_id school) reg.domains)) [
        | inl n ↦ ground arith
        | inr (d, e) ↦
            let a = length-filter (λ c. not (is_cached_for d.hostname c)) reg.cache in ground arith
      ]

  after-Fits : (e : Event) (reg : Registry) → Fits reg → Fits (after s e reg)
  unfolding register_managed_domain
  after-Fits (ask now host) reg l = resolve-Fits now host reg l
  after-Fits (serve c) reg l = serve-Fits c reg l
  after-Fits (manage now id school subdomain) reg l =
      let a = length-filter (λ c. not (is_cached_for (subdomain ∷ s.root_domain) c)) reg.cache in
      omega arith
  after-Fits (forget school) reg l =
      let a = length-filter (λ c. not (str_eq c.school_id school)) reg.cache in omega arith

  -- The cache never gets more entries than its maximum, whatever is asked and changed, if that is not 0.
  pub run-bounded :
      (es : List Event) (reg : Registry)
      → length reg.cache ≤ s.cache_max_entries
      → length (run s es reg).cache ≤ s.cache_max_entries
  unfolding run
  run-bounded [] reg l = l
  run-bounded (e ∷ es) reg l = run-bounded es (after s e reg) (after-Fits e reg l)

abbrev pub is_served : Host → Domain → Bool
is_served host d = has_host host d && d.is_verified

upsert-unserved :
    (host : Host) (f : Domain → Domain) (new : Domain) (ds : List Domain)
    → ((d : Domain) → (f d).is_verified ≡ d.is_verified)
    → is_some (find (has_host host) ds) ≡ true
    → find (is_served host) ds ≡ none
    → find (is_served host) (upsert host f new ds) ≡ none
unfolding upsert find
upsert-unserved host f new [] keeps there h = absurd (ground arith)
upsert-unserved host f new (d ∷ ds) keeps there h =
    let a = keeps d in
    elim (Bool-cases (has_host host d)) [
      | inl t ↦ ground arith
      | inr n ↦ ground (arith, upsert-unserved host f new ds keeps (ground arith))
    ]

-- Where a school has claimed the name of another one under the root domain and has not proved it, the
-- registration of that other school's managed domain does not make the name a verified one.
pub register_managed_domain-unserved :
    (s : Settings) (now : ℕ) (id school subdomain : String) (reg : Registry)
    → is_some (find (has_host (subdomain ∷ s.root_domain)) reg.domains) ≡ true
    → find (is_served (subdomain ∷ s.root_domain)) reg.domains ≡ none
    → find
        (is_served (subdomain ∷ s.root_domain))
        (register_managed_domain s now id school subdomain reg).domains
      ≡ none
unfolding register_managed_domain
register_managed_domain-unserved s now id school subdomain reg there h =
    upsert-unserved (subdomain ∷ s.root_domain) _ _ reg.domains (λ d. refl) there h

-- ===== src/Schools/Domains/Caching.antt =====
-- The cache of the answers: how large it gets, and how long an answer outlives what it says.
use wattanman.Base.{
  ℕ, ◌+◌, ◌≤◌, String, Bool, true, false, not, ◌&&◌, ◌≡◌, refl, inl, inr, List, [], ◌∷◌, find, all,
  arith, leb, ltb, Option-cases, is_empty, filter-all, find-all, str_eq, leb→le,
}
use wattanman.Schools.Domains.{
  Host, Domain, Cached, Registry, Settings, is_cached_for, invalidate_hostname, invalidate_school,
  put_cached, set_cached, find_domain, is_custom, look_up, resolve, register_managed_domain,
  register_verified_domain, request_custom_domain, verify_custom_domain, update_routing_state,
}
use wattanman.Schools.Domains.Owners.{Command, register, claim, prove, route, perform, settle}

-- What happens to the registry.
pub data Event : Type 0 where
  ask : (now : ℕ) (host : Host) → Event
  serve : (c : Command) → Event
  manage : (now : ℕ) (id school subdomain : String) → Event
  forget : (school : String) → Event

abbrev pub is_before : ℕ → Event → Bool
is_before t (ask now host) = leb now t
is_before t e = true

module _ (s : Settings) where
  abbrev pub after : Event → Registry → Registry
  after (ask now host) reg = (resolve s now host reg).1
  after (serve c) reg = settle (perform c reg) reg
  after (manage now id school subdomain) reg = register_managed_domain s now id school subdomain reg
  after (forget school) reg = invalidate_school school reg

  unfoldable pub run : List Event → Registry → Registry
  run [] reg = reg
  run (e ∷ es) reg = run es (after e reg)

  -- An entry that was stored up to the time `t`.
  abbrev pub is_young : ℕ → Cached → Bool
  is_young t c = leb c.expires_at (t + s.cache_ttl_ms)

  put_cached-young :
      (t : ℕ) (new : Cached) (cs : List Cached)
      → is_young t new ≡ true
      → all (is_young t) cs ≡ true
      → all (is_young t) (put_cached new cs) ≡ true
  unfolding put_cached all
  put_cached-young t new [] n h = ground arith
  put_cached-young t new (c ∷ cs) n h = ground (arith, put_cached-young t new cs n)

  set_cached-young :
      (t now : ℕ) (host : Host) (school : String) (cs : List Cached)
      → now ≤ t
      → all (is_young t) cs ≡ true
      → all (is_young t) (set_cached s now host school cs) ≡ true
  unfolding set_cached all
  set_cached-young t now host school cs l h =
      put_cached-young t
        (record { hostname = host; school_id = school; expires_at = now + s.cache_ttl_ms }) _
        (ground arith) (ground arith)

  look_up-young :
      (t now : ℕ) (host : Host) (reg : Registry)
      → now ≤ t
      → all (is_young t) reg.cache ≡ true
      → all (is_young t) (look_up s now host reg).1.cache ≡ true
  unfolding look_up
  look_up-young t now host reg l h = elim (Option-cases (find_domain s host reg.domains)) [
    | inl n ↦ ground arith
    | inr (d, e) ↦ let y = set_cached-young t now host d.school_id reg.cache l h in ground arith
  ]

  resolve-young :
      (t now : ℕ) (host : Host) (reg : Registry)
      → now ≤ t
      → all (is_young t) reg.cache ≡ true
      → all (is_young t) (resolve s now host reg).1.cache ≡ true
  unfolding resolve
  resolve-young t now host reg l h =
      let a = look_up-young t now host reg l h in
      let b =
        look_up-young t now host (record reg { cache = invalidate_hostname host reg.cache }) l
          (filter-all (is_young t) (λ c. not (is_cached_for host c)) reg.cache h) in
      ground arith

  -- A request of a school drops entries at most.
  serve-young :
      (t : ℕ) (c : Command) (reg : Registry)
      → all (is_young t) reg.cache ≡ true
      → all (is_young t) (settle (perform c reg) reg).cache ≡ true
  unfolding register_verified_domain request_custom_domain verify_custom_domain update_routing_state
  serve-young t (register now id school host kind) reg h =
      let a = filter-all (is_young t) (λ c. not (is_cached_for host c)) reg.cache h in ground arith
  serve-young t (claim id token school host) reg h =
      let a = filter-all (is_young t) (λ c. not (is_cached_for host c)) reg.cache h in ground arith
  serve-young t (prove now school id answer) reg h =
      elim (Option-cases
        (find (λ d. str_eq d.id id && str_eq d.school_id school && is_custom d.kind) reg.domains)) [
          | inl n ↦ ground arith
          | inr (d, e) ↦
              let a = filter-all (is_young t) (λ c. not (is_cached_for d.hostname c)) reg.cache h in
              ground arith
        ]
  serve-young t (route school id works) reg h =
      elim (Option-cases (find (λ d. str_eq d.id id && str_eq d.school_id school) reg.domains)) [
        | inl n ↦ ground arith
        | inr (d, e) ↦
            let a = filter-all (is_young t) (λ c. not (is_cached_for d.hostname c)) reg.cache h in
            ground arith
      ]

  after-young :
      (t : ℕ) (e : Event) (reg : Registry)
      → is_before t e ≡ true
      → all (is_young t) reg.cache ≡ true
      → all (is_young t) (after e reg).cache ≡ true
  unfolding register_managed_domain
  after-young t (ask now host) reg b h = resolve-young t now host reg (leb→le now t b) h
  after-young t (serve c) reg b h = serve-young t c reg h
  after-young t (manage now id school subdomain) reg b h =
      filter-all (is_young t) (λ c. not (is_cached_for (subdomain ∷ s.root_domain) c)) reg.cache h
  after-young t (forget school) reg b h =
      filter-all (is_young t) (λ c. not (str_eq c.school_id school)) reg.cache h

  run-young :
      (t : ℕ) (es : List Event) (reg : Registry)
      → all (is_before t) es ≡ true
      → all (is_young t) reg.cache ≡ true
      → all (is_young t) (run es reg).cache ≡ true
  unfolding run all
  run-young t [] reg b h = h
  run-young t (e ∷ es) reg b h =
      run-young t es (after e reg) (ground arith) (after-young t e reg (ground arith) h)

  young_expired :
      (t now : ℕ) (c : Cached)
      → t + s.cache_ttl_ms ≤ now
      → is_young t c ≡ true
      → ltb now c.expires_at ≡ false
  young_expired t now c l y = ground arith

  resolve-fresh :
      (t now : ℕ) (host : Host) (reg : Registry)
      → t + s.cache_ttl_ms ≤ now
      → is_empty host ≡ false
      → all (is_young t) reg.cache ≡ true
      → (resolve s now host reg).0 ≡ (look_up s now host reg).0
  unfolding resolve look_up
  resolve-fresh t now host reg l x h = elim (Option-cases (find (is_cached_for host) reg.cache)) [
    | inl n ↦ ground arith
    | inr (c, e) ↦
        let old =
          young_expired t now c l (find-all (is_young t) (is_cached_for host) c reg.cache h e) in
        elim (Option-cases (find_domain s host reg.domains)) [
          | inl n ↦ ground arith
          | inr (d, q) ↦ ground arith
        ]
  ]

  -- An answer outlives what it says by the cache's time at most: after any questions and requests up to a
  -- time, from a registry without cached answers and whatever else has become of its domains, each name is
  -- answered from the domains as they are, as soon as that time is over.
  pub run-settles :
      (t now : ℕ) (host : Host) (es : List Event) (reg : Registry) (domains : List Domain)
      → all (is_before t) es ≡ true
      → reg.cache ≡ []
      → is_empty host ≡ false
      → t + s.cache_ttl_ms ≤ now
      → (resolve s now host (record (run es reg) { domains = domains })).0
        ≡ (look_up s now host (record { domains = domains; cache = [] })).0
  unfolding all look_up
  run-settles t now host es reg domains b n x l =
      let y = run-young t es reg b (rw (n) refl) in
      let e = resolve-fresh t now host (record (run es reg) { domains = domains }) l x y in
      elim (Option-cases (find_domain s host domains)) [
        | inl none_ ↦ ground arith
        | inr (d, q) ↦ ground arith
      ]

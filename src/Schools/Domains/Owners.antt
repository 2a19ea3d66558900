-- ===== src/Schools/Domains/Owners.antt =====
-- A host name stays with its school.
use wattanman.Base.{
  ℕ, String, Bool, true, false, not, ◌&&◌, ◌≡◌, refl, subst, sym, ap, ◌∙◌, ◌⊎◌, inl, inr, Option,
  none, some, List, [], ◌∷◌, find, arith, Result, ok, err, >>=-eq-ok, Bool-cases, Result-cases,
  str_eq, eq_iff, if◌then◌else◌, throw_if, require, bad_request,
}
use wattanman.Schools.Domains.{
  Host, same_host, Kind, Domain, Registry, has_host, upsert, write, change_domain, check_owner,
  register_verified_domain, request_custom_domain, verify_custom_domain, update_routing_state,
  is_qualified, is_custom, is_proved, blank, Routing, verified_row, requested_row, judged_row,
}

-- The school of the row of a host name.
unfoldable pub owner : Host → List Domain → Option String
owner host [] = none
owner host (d ∷ ds) = let rest = owner host ds in if has_host host d then some d.school_id else rest

-- The requests of schools, and of administrators for a school's verified domain.
pub data Command : Type 0 where
  register : (now : ℕ) (id school : String) (host : Host) (kind : Kind) → Command
  claim : (id token school : String) (host : Host) → Command
  prove : (now : ℕ) (school id : String) (answer : Option (List String)) → Command
  route : (school id : String) (works : Bool) → Command

abbrev pub perform : Command → Registry → Result Registry
perform (register now id school host kind) reg =
    register_verified_domain now id school host kind reg
perform (claim id token school host) reg = request_custom_domain id token school host reg
perform (prove now school id answer) reg = verify_custom_domain now school id answer reg
perform (route school id works) reg = update_routing_state school id works reg

-- A refused request leaves the registry as it is.
abbrev pub settle : Result Registry → Registry → Registry
settle (ok after) reg = after
settle (err e) reg = reg

unfoldable pub perform_all : List Command → Registry → Registry
perform_all [] reg = reg
perform_all (c ∷ cs) reg = perform_all cs (settle (perform c reg) reg)

check_owner-owner :
    (school : String) (host : Host) (ds : List Domain)
    → check_owner school (find (has_host host) ds) ≡ ok tt
    → (owner host ds ≡ none) ⊎ (owner host ds ≡ some school)
unfolding owner find
check_owner-owner school host [] h = inl refl
check_owner-owner school host (d ∷ ds) h = elim (Bool-cases (has_host host d)) [
  | inl t ↦ inr (ground (arith, eq_iff d.school_id school))
  | inr f ↦ rw (f) (check_owner-owner school host ds (ground arith))
]

upsert-owner :
    (host other : Host) (school s : String) (f : Domain → Domain) (new : Domain) (ds : List Domain)
    → ((d : Domain) → (f d).school_id ≡ school)
    → ((d : Domain) → (f d).hostname ≡ d.hostname)
    → (owner other ds ≡ none) ⊎ (owner other ds ≡ some school)
    → owner host ds ≡ some s
    → owner host (upsert other f new ds) ≡ some s
unfolding owner upsert
upsert-owner host other school s f new [] sets keeps free h = absurd (ground arith)
upsert-owner host other school s f new (d ∷ ds) sets keeps free h =
    let a = sets d in
    let b : has_host host (f d) ≡ has_host host d = ap (λ x. same_host x host) (keeps d) in
    elim (Bool-cases (has_host other d)) [
      | inl t ↦ ground arith
      | inr n ↦ ground (arith, upsert-owner host other school s f new ds sets keeps (ground arith))
    ]

change_domain-owner :
    (host : Host) (id : String) (f : Domain → Domain) (ds : List Domain)
    → ((d : Domain) → (f d).school_id ≡ d.school_id)
    → ((d : Domain) → (f d).hostname ≡ d.hostname)
    → owner host (change_domain id f ds) ≡ owner host ds
unfolding owner
change_domain-owner host id f [] sets keeps = refl
change_domain-owner host id f (d ∷ ds) sets keeps =
    let a = sets d in
    let b : has_host host (f d) ≡ has_host host d = ap (λ x. same_host x host) (keeps d) in
    ground (arith, change_domain-owner host id f ds sets keeps)

judged_row-school_id :
    (now : ℕ) (proved : Bool) (d : Domain) → (judged_row now proved d).school_id ≡ d.school_id
judged_row-school_id now true d = refl
judged_row-school_id now false d = refl

judged_row-hostname :
    (now : ℕ) (proved : Bool) (d : Domain) → (judged_row now proved d).hostname ≡ d.hostname
judged_row-hostname now true d = refl
judged_row-hostname now false d = refl

module _ (host : Host) (s : String) where
  abbrev Owned : Registry → Type 0
  Owned reg = owner host reg.domains ≡ some s

  register-Owned :
      (now : ℕ) (id school : String) (other : Host) (kind : Kind) (reg reg' : Registry)
      → register_verified_domain now id school other kind reg ≡ ok reg'
      → Owned reg
      → Owned reg'
  unfolding register_verified_domain
  register-Owned now id school other kind reg reg' h o =
      let (_, _, h1) = >>=-eq-ok (throw_if (not (is_qualified other)) bad_request) _ h in
      let (_, free, h2) = >>=-eq-ok (check_owner school (find (has_host other) reg.domains)) _ h1 in
      let kept =
        upsert-owner host other school s (verified_row now school kind)
          (verified_row now school kind (blank id school other kind)) reg.domains (λ d. refl)
          (λ d. refl) (check_owner-owner school other reg.domains free) o in
      let e : write other (verified_row now school kind)
            (verified_row now school kind (blank id school other kind)) reg
          ≡ reg' =
        cc in
      subst Owned e kept

  claim-Owned :
      (id token school : String) (other : Host) (reg reg' : Registry)
      → request_custom_domain id token school other reg ≡ ok reg'
      → Owned reg
      → Owned reg'
  unfolding request_custom_domain
  claim-Owned id token school other reg reg' h o =
      let (_, _, h1) = >>=-eq-ok (throw_if (not (is_qualified other)) bad_request) _ h in
      let (_, free, h2) = >>=-eq-ok (check_owner school (find (has_host other) reg.domains)) _ h1 in
      let kept =
        upsert-owner host other school s (requested_row school token)
          (requested_row school token (blank id school other Kind.custom)) reg.domains (λ d. refl)
          (λ d. refl) (check_owner-owner school other reg.domains free) o in
      let e : write other (requested_row school token)
            (requested_row school token (blank id school other Kind.custom)) reg
          ≡ reg' =
        cc in
      subst Owned e kept

  prove-Owned :
      (now : ℕ) (school id : String) (answer : Option (List String)) (reg reg' : Registry)
      → verify_custom_domain now school id answer reg ≡ ok reg'
      → Owned reg
      → Owned reg'
  unfolding verify_custom_domain
  prove-Owned now school id answer reg reg' h o =
      let (d, _, h1) =
        >>=-eq-ok
          (require
            (find (λ d. str_eq d.id id && str_eq d.school_id school && is_custom d.kind)
              reg.domains)
            bad_request)
          _ h in
      let (token, _, h2) = >>=-eq-ok (require d.verification_token bad_request) _ h1 in
      let f = judged_row now (is_proved token answer) in
      let kept =
        change_domain-owner host id f reg.domains
          (judged_row-school_id now (is_proved token answer))
          (judged_row-hostname now (is_proved token answer)) in
      let e : change_domain id f reg.domains ≡ reg'.domains = ground arith in
      ap (owner host) (sym e) ∙ kept ∙ o

  route-Owned :
      (school id : String) (works : Bool) (reg reg' : Registry)
      → update_routing_state school id works reg ≡ ok reg'
      → Owned reg
      → Owned reg'
  unfolding update_routing_state
  route-Owned school id works reg reg' h o =
      let (d, _, h1) =
        >>=-eq-ok
          (require (find (λ d. str_eq d.id id && str_eq d.school_id school) reg.domains)
            bad_request)
          _ h in
      let f =
        λ (x : Domain). record x { routing = if works then Routing.ready else Routing.failed } in
      let e : change_domain id f reg.domains ≡ reg'.domains = ground arith in
      ap (owner host) (sym e)
      ∙ change_domain-owner host id f reg.domains (λ x. refl) (λ x. refl)
      ∙ o

  perform-Owned :
      (c : Command) (reg reg' : Registry) → perform c reg ≡ ok reg' → Owned reg → Owned reg'
  perform-Owned (register now id school other kind) reg reg' =
      register-Owned now id school other kind reg reg'
  perform-Owned (claim id token school other) reg reg' = claim-Owned id token school other reg reg'
  perform-Owned (prove now school id answer) reg reg' = prove-Owned now school id answer reg reg'
  perform-Owned (route school id works) reg reg' = route-Owned school id works reg reg'

  settle-Owned : (c : Command) (reg : Registry) → Owned reg → Owned (settle (perform c reg) reg)
  settle-Owned c reg o = elim (Result-cases (perform c reg)) [
    | inl (reg', e) ↦ rw (e) (perform-Owned c reg reg' e o)
    | inr (x, e) ↦ rw (e) o
  ]

  -- A host name that belongs to a school stays the school's, whatever domains schools request, prove or
  -- have registered as verified, in any order and with any answers of the name service.
  pub perform_all-owner :
      (cs : List Command) (reg : Registry)
      → owner host reg.domains ≡ some s
      → owner host (perform_all cs reg).domains ≡ some s
  unfolding perform_all
  perform_all-owner [] reg o = o
  perform_all-owner (c ∷ cs) reg o =
      perform_all-owner cs (settle (perform c reg) reg) (settle-Owned c reg o)

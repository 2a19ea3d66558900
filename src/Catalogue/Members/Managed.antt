-- ===== src/Catalogue/Members/Managed.antt =====
-- A publisher keeps a manager whatever its members do.
use wattanman.Base.{
  String, Bool, true, false, ◌≡◌, refl, subst, ap, sym, ◌∙◌, inl, inr, Option, none, some, List, [],
  ◌∷◌, any, find, includes, str_eq, arith, Result, ok, err, >>=-eq-ok, Bool-cases, Result-cases,
  Option-cases, eq_iff, find-In, not, is_empty, throw_if, require, not_found, bad_request, ◌&&◌,
  ◌||◌,
}
use wattanman.Catalogue.Members.{
  Actor, MemberStatus, Member, is_active, has_role, is_member, manage, manages_besides, put_member,
  distinct, publisher_roles, require_publisher_role, keep_a_manager,
  assert_another_active_publisher_manager, set_publisher_member_roles, set_publisher_member_status,
  add_publisher_member_by_email,
}

abbrev pub manages : String → Member → Bool
manages publisher m = str_eq m.publisher_id publisher && has_role manage m

unfoldable pub has_manager : String → List Member → Bool
has_manager publisher members = any (manages publisher) members

-- A request to change the members of a publisher.
pub data Command : Type 0 where
  set_roles : (publisher user : String) (roles : List String) → Command
  add_by_email : (publisher : String) (email : Option String) (roles : List String) → Command
  set_status : (publisher user : String) (status : Option MemberStatus) → Command

module _ (user_of : String → Option String) (admins : List String) where
  abbrev pub perform : Actor → Command → List Member → Result (List Member)
  perform actor (set_roles publisher user roles) members =
      set_publisher_member_roles admins publisher user roles actor members
  perform actor (add_by_email publisher email roles) members =
      add_publisher_member_by_email user_of admins publisher email roles actor members
  perform actor (set_status publisher user status) members =
      set_publisher_member_status publisher user status actor members

  -- A refused request leaves the members as they are.
  abbrev pub settle : Result (List Member) → List Member → List Member
  settle (ok members') members = members'
  settle (err e) members = members

  unfoldable pub perform_all : List (Actor × Command) → List Member → List Member
  perform_all [] members = members
  perform_all ((actor, c) ∷ cs) members = perform_all cs (settle (perform actor c members) members)

put_member-has_manager_self :
    (p : String) (new : Member) (ms : List Member)
    → manages p new ≡ true
    → any (manages p) (put_member new ms) ≡ true
unfolding put_member any
put_member-has_manager_self p new [] h = ground arith
put_member-has_manager_self p new (m ∷ ms) h =
    ground (arith, put_member-has_manager_self p new ms h)

any-manages_besides :
    (p u : String) (ms : List Member)
    → any (manages_besides p u) ms ≡ true
    → any (manages p) ms ≡ true
unfolding any
any-manages_besides p u [] h = ground arith
any-manages_besides p u (m ∷ ms) h = ground (arith, any-manages_besides p u ms)

put_member-has_manager_other :
    (p : String) (new : Member) (ms : List Member)
    → any (manages_besides p new.user_id) ms ≡ true
    → any (manages p) (put_member new ms) ≡ true
unfolding put_member any
put_member-has_manager_other p new [] h = ground arith
put_member-has_manager_other p new (m ∷ ms) h =
    ground (arith, put_member-has_manager_other p new ms, any-manages_besides p new.user_id ms)

put_member-has_manager_spared :
    (p : String) (new : Member) (ms : List Member)
    → ((m : Member)
        → find (is_member new.publisher_id new.user_id) ms ≡ some m
        → manages p m ≡ false)
    → any (manages p) ms ≡ true
    → any (manages p) (put_member new ms) ≡ true
unfolding put_member any find
put_member-has_manager_spared p new [] h e = ground arith
put_member-has_manager_spared p new (m ∷ ms) h e =
    elim (Bool-cases (is_member new.publisher_id new.user_id m)) [
      | inl t ↦ ground (arith, h m (ground arith))
      | inr f ↦ ground (arith, put_member-has_manager_spared p new ms (λ m' q. h m' (ground arith)))
    ]

find-is_member :
    (p u : String) (m : Member) (ms : List Member)
    → find (is_member p u) ms ≡ some m
    → (m.publisher_id ≡ p) × (m.user_id ≡ u)
find-is_member p u m ms h =
    let (here, t) = find-In (is_member p u) m ms h in
    ground (arith, eq_iff m.publisher_id p, eq_iff m.user_id u)

-- A row that is written keeps the manager: it is one, or another is left, or it was none before.
keep_a_manager-has_manager :
    (p : String) (new : Member) (keeps : Bool) (ms : List Member)
    → has_role manage new ≡ keeps
    → keep_a_manager ms (find (is_member new.publisher_id new.user_id) ms) keeps ≡ ok tt
    → any (manages p) ms ≡ true
    → any (manages p) (put_member new ms) ≡ true
unfolding keep_a_manager assert_another_active_publisher_manager
keep_a_manager-has_manager p new keeps ms same kept h =
    elim (Option-cases (find (is_member new.publisher_id new.user_id) ms)) [
      | inl e ↦ put_member-has_manager_spared p new ms (λ m q. cc) h
      | inr (m, e) ↦
          let (ep, eu) = find-is_member new.publisher_id new.user_id m ms e in
          elim (Bool-cases (manages p m)) [
            | inr f ↦ put_member-has_manager_spared p new ms (λ m' q. ground arith) h
            | inl t ↦ elim (Bool-cases (manages p new)) [
              | inl t' ↦ put_member-has_manager_self p new ms t'
              | inr f' ↦ put_member-has_manager_other p new ms (besides m e ep eu t f')
            ]
          ]
    ]
  where
    besides :
        (m : Member)
        → find (is_member new.publisher_id new.user_id) ms ≡ some m
        → m.publisher_id ≡ new.publisher_id
        → m.user_id ≡ new.user_id
        → manages p m ≡ true
        → manages p new ≡ false
        → any (manages_besides p new.user_id) ms ≡ true
    besides m e ep eu t f =
        let at : m.publisher_id ≡ p = ground (arith, eq_iff m.publisher_id p) in
        let lost : keeps ≡ false = ground (arith, eq_iff new.publisher_id p) in
        let asked : keep_a_manager ms (some m) keeps ≡ ok tt =
          ap (λ o. keep_a_manager ms o keeps) (sym e) ∙ kept in
        let asked' : assert_another_active_publisher_manager ms m.publisher_id m.user_id ≡ ok tt =
          ground arith in
        let there : any (manages_besides m.publisher_id m.user_id) ms ≡ true = ground arith in
        ap (λ q. any (manages_besides q new.user_id) ms) (sym at)
        ∙ ap (λ q. any (manages_besides m.publisher_id q) ms) (sym eu)
        ∙ there

ok_inj : (xs ys : List Member) → ok xs ≡ ok ys → xs ≡ ys
ok_inj xs ys e = cc

require-some : (o : Option Member) (m : Member) → require o not_found ≡ ok m → o ≡ some m
require-some none m h = cc
require-some (some x) m h = cc

module _ (user_of : String → Option String) (admins : List String) (p : String) where
  restated-has_manager :
      (q u : String) (m : Member) (new : MemberStatus) (ms : List Member)
      → find (is_member q u) ms ≡ some m
      → keep_a_manager ms (some m) (is_active new) ≡ ok tt
      → any (manages p) ms ≡ true
      → any (manages p) (put_member (record m { status = new }) ms) ≡ true
  unfolding keep_a_manager
  restated-has_manager q u m new ms found kept t =
      let (eq, eu) = find-is_member q u m ms found in
      let found' : find (is_member m.publisher_id m.user_id) ms ≡ some m =
        ap (λ q'. find (is_member q' m.user_id) ms) eq
        ∙ ap (λ u'. find (is_member q u') ms) eu
        ∙ found in
      elim (Bool-cases (has_role manage m)) [
        | inr f ↦
            put_member-has_manager_spared p (record m { status = new }) ms (λ m' e. ground arith) t
        | inl had ↦
            keep_a_manager-has_manager p (record m { status = new }) (is_active new) ms
              (ground arith) (ap (λ o. keep_a_manager ms o (is_active new)) found' ∙ kept) t
      ]

  set_publisher_member_roles-has_manager :
      (q u : String) (roles : List String) (actor : Actor) (ms ms' : List Member)
      → set_publisher_member_roles admins q u roles actor ms ≡ ok ms'
      → any (manages p) ms ≡ true
      → any (manages p) ms' ≡ true
  unfolding set_publisher_member_roles
  set_publisher_member_roles-has_manager q u roles actor ms ms' h t =
      let (_, _, h1) = >>=-eq-ok (require_publisher_role ms q actor manage) _ h in
      let (_, _, h2) =
        >>=-eq-ok
          (throw_if
            (is_empty (distinct [] roles)
              || any (λ r. not (includes publisher_roles r)) (distinct [] roles))
            bad_request)
          _ h1 in
      let (_, _, h3) = >>=-eq-ok (throw_if (not (includes admins u)) not_found) _ h2 in
      let (_, kept, h4) =
        >>=-eq-ok
          (keep_a_manager ms (find (is_member q u) ms) (includes (distinct [] roles) manage)) _
          h3 in
      let new : Member = record {
        publisher_id = q;
        user_id = u;
        roles = distinct [] roles;
        status = MemberStatus.active;
      } in
      let held : any (manages p) (put_member new ms) ≡ true =
        keep_a_manager-has_manager p new (includes (distinct [] roles) manage) ms refl kept t in
      subst (λ r. any (manages p) r ≡ true) (ok_inj (put_member new ms) ms' h4) held

  set_publisher_member_status-has_manager :
      (q u : String) (status : Option MemberStatus) (actor : Actor) (ms ms' : List Member)
      → set_publisher_member_status q u status actor ms ≡ ok ms'
      → any (manages p) ms ≡ true
      → any (manages p) ms' ≡ true
  unfolding set_publisher_member_status
  set_publisher_member_status-has_manager q u status actor ms ms' h t =
      let (_, _, h1) = >>=-eq-ok (require_publisher_role ms q actor manage) _ h in
      let (new, _, h2) = >>=-eq-ok (require status bad_request) _ h1 in
      let (m, found, h3) = >>=-eq-ok (require (find (is_member q u) ms) not_found) _ h2 in
      let (_, kept, h4) = >>=-eq-ok (keep_a_manager ms (some m) (is_active new)) _ h3 in
      subst (λ r. any (manages p) r ≡ true)
        (ok_inj (put_member (record m { status = new }) ms) ms' h4)
        (restated-has_manager q u m new ms (require-some (find (is_member q u) ms) m found) kept t)

  perform-has_manager :
      (actor : Actor) (c : Command) (ms ms' : List Member)
      → perform user_of admins actor c ms ≡ ok ms'
      → any (manages p) ms ≡ true
      → any (manages p) ms' ≡ true
  unfolding add_publisher_member_by_email
  perform-has_manager actor (set_roles q u roles) ms ms' h t =
      set_publisher_member_roles-has_manager q u roles actor ms ms' h t
  perform-has_manager actor (set_status q u status) ms ms' h t =
      set_publisher_member_status-has_manager q u status actor ms ms' h t
  perform-has_manager actor (add_by_email q email roles) ms ms' h t =
      let (_, _, h1) = >>=-eq-ok (require_publisher_role ms q actor manage) _ h in
      let (address, _, h2) = >>=-eq-ok (require email bad_request) _ h1 in
      let (u, _, h3) = >>=-eq-ok (require (user_of address) not_found) _ h2 in
      set_publisher_member_roles-has_manager q u roles actor ms ms' h3 t

  settle-has_manager :
      (actor : Actor) (c : Command) (ms : List Member)
      → any (manages p) ms ≡ true
      → any (manages p) (settle user_of admins (perform user_of admins actor c ms) ms) ≡ true
  settle-has_manager actor c ms t = elim (Result-cases (perform user_of admins actor c ms)) [
    | inl (ms', e) ↦ rw (e) (perform-has_manager actor c ms ms' e t)
    | inr (e', e) ↦ rw (e) t
  ]

  -- A publisher with an active manager keeps one, whatever requests to change the roles and the status of
  -- members are made, by whom and in what order.
  pub perform_all-has_manager :
      (cs : List (Actor × Command)) (ms : List Member)
      → has_manager p ms ≡ true
      → has_manager p (perform_all user_of admins cs ms) ≡ true
  unfolding has_manager perform_all
  perform_all-has_manager [] ms t = t
  perform_all-has_manager ((actor, c) ∷ cs) ms t =
      perform_all-has_manager cs (settle user_of admins (perform user_of admins actor c ms) ms)
        (settle-has_manager actor c ms t)

-- ===== src/Catalogue/Standing/Suspension.antt =====
-- A publisher that is suspended or revoked, and one that is active again.
use wattanman.Base.{
  String, Bool, false, not, ◌&&◌, ◌||◌, ◌≡◌, refl, subst, some, List, [], ◌∷◌, find, any, arith, ok,
  >>=-eq-ok, str_eq, require, not_found,
}
use wattanman.Catalogue.Members.{Actor, require_publisher_role, manage}
use wattanman.Catalogue.Types.{
  Offer, Standing, Copy, Catalogue, update_where, is_active_publisher, is_active_offer,
  is_suspended_offer,
}
use wattanman.Catalogue.Rows.{update_where-none}
use wattanman.Catalogue.Releases.Transitions.{disable}
use wattanman.Catalogue.Standing.{
  is_copy_of, suspend_offer, resume_offer, after_standing, set_publisher_status,
}

-- An extension of the publisher, and one that is offered to schools.
abbrev pub is_by : String → Offer → Bool
is_by publisher o = str_eq o.publisher_id publisher

abbrev pub is_offered : Offer → Bool
is_offered o = o.is_listed || is_active_offer o.status

set_publisher_status-after :
    (publisher : String) (s : Standing) (actor : Actor) (cat cat' : Catalogue)
    → set_publisher_status publisher (some s) actor cat ≡ ok cat'
    → after_standing publisher s cat ≡ cat'
unfolding set_publisher_status
set_publisher_status-after publisher s actor cat cat' h =
    let (p, _, h1) =
      >>=-eq-ok (require (find (λ p. str_eq p.id publisher) cat.publishers) not_found) _ h in
    let (_, _, h2) = >>=-eq-ok (require_publisher_role cat.members publisher actor manage) _ h1 in
    ground arith

is_copy_of-suspended :
    (publisher : String) (c : Copy) (os : List Offer)
    → is_copy_of publisher (update_where (λ o. str_eq o.publisher_id publisher) suspend_offer os) c
      ≡ is_copy_of publisher os c
unfolding update_where any
is_copy_of-suspended publisher c [] = refl
is_copy_of-suspended publisher c (o ∷ os) = ground (arith, is_copy_of-suspended publisher c os)

-- In what an accepted change of a publisher's status to another than active leaves, none of its extensions is
-- listed or active, and no installation of one is enabled.
pub set_publisher_status-suspended :
    (publisher : String) (s : Standing) (actor : Actor) (cat cat' : Catalogue)
    → is_active_publisher s ≡ false
    → set_publisher_status publisher (some s) actor cat ≡ ok cat'
    → (any (λ o. is_by publisher o && is_offered o) cat'.offers ≡ false)
      × (any (λ c. is_copy_of publisher cat'.offers c && c.enabled) cat'.copies ≡ false)
unfolding after_standing
set_publisher_status-suspended publisher s actor cat cat' n h =
    subst
      (λ c.
        (any (λ o. is_by publisher o && is_offered o) c.offers ≡ false)
        × (any (λ x. is_copy_of publisher c.offers x && x.enabled) c.copies ≡ false))
      (set_publisher_status-after publisher s actor cat cat' h)
      (rw (n) (
        update_where-none (λ o. is_by publisher o && is_offered o) (is_by publisher) suspend_offer
            cat.offers (λ o t. ground arith) (λ o t. ground arith),
        update_where-none
            (λ c.
              is_copy_of publisher
                (update_where (λ o. str_eq o.publisher_id publisher) suspend_offer cat.offers) c
              && c.enabled)
            (λ c. is_copy_of publisher cat.offers c && c.enabled) disable cat.copies
            (λ c t. let e = is_copy_of-suspended publisher c cat.offers in ground arith)
            (λ c t. ground arith),
      ))

resumed :
    (publisher : String) (os : List Offer)
    → any
        (λ o. is_by publisher o && not (is_active_offer o.status))
        (update_where
          (λ o. str_eq o.publisher_id publisher && is_suspended_offer o.status)
          resume_offer
          (update_where (λ o. str_eq o.publisher_id publisher) suspend_offer os))
      ≡ false
unfolding update_where any
resumed publisher [] = refl
resumed publisher (o ∷ os) = ground (arith, resumed publisher os)

-- Where a publisher is suspended or revoked and is active again, each of its extensions is active, the ones
-- that were retired before included.
pub set_publisher_status-resumed :
    (publisher : String) (s : Standing) (actor actor' : Actor) (cat cat' cat'' : Catalogue)
    → is_active_publisher s ≡ false
    → set_publisher_status publisher (some s) actor cat ≡ ok cat'
    → set_publisher_status publisher (some Standing.active) actor' cat' ≡ ok cat''
    → any (λ o. is_by publisher o && not (is_active_offer o.status)) cat''.offers ≡ false
unfolding after_standing
set_publisher_status-resumed publisher s actor actor' cat cat' cat'' n h h' =
    let e = set_publisher_status-after publisher s actor cat cat' h in
    let e' = set_publisher_status-after publisher Standing.active actor' cat' cat'' h' in
    subst (λ c. any (λ o. is_by publisher o && not (is_active_offer o.status)) c.offers ≡ false) e'
      (subst
        (λ c.
          any (λ o. is_by publisher o && not (is_active_offer o.status))
            (after_standing publisher Standing.active c).offers
          ≡ false)
        e (rw (n) (resumed publisher cat.offers)))

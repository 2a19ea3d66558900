-- ===== src/Catalogue/Standing/Revocation.antt =====
-- A revoked key.
use wattanman.Base.{
  String, true, false, ◌&&◌, ◌≡◌, refl, subst, inl, inr, Option, none, some, List, [], ◌∷◌, find,
  find-In, Result-cases, any, arith, ok, >>=-eq-ok, str_eq, require, not_found, is_ok,
}
use wattanman.Catalogue.Members.{Actor, require_publisher_role, manage}
use wattanman.Catalogue.Types.{
  Release, KeyStatus, SigningKey, Copy, Catalogue, update_where, is_revoked_key,
}
use wattanman.Catalogue.Rows.{update_where-none, find-update_first}
use wattanman.Catalogue.Releases.Transitions.{disable}
use wattanman.Catalogue.Standing.{
  is_signed_with, is_served, is_copy_signed_with, block, revoke_releases, set_signing_key_status,
  put_key, after_revocation,
}

-- Whatever the rows are, the copies of releases that a key has signed are the same after they are blocked.
is_copy_signed_with-revoke_releases :
    (key : String) (c : Copy) (rs : List Release)
    → is_copy_signed_with key (revoke_releases key rs) c ≡ is_copy_signed_with key rs c
unfolding revoke_releases update_where any
is_copy_signed_with-revoke_releases key c [] = refl
is_copy_signed_with-revoke_releases key c (r ∷ rs) =
    ground (arith, is_copy_signed_with-revoke_releases key c rs)

put_key-revoked :
    (key : String) (k : SigningKey) (s : KeyStatus) (keys : List SigningKey)
    → find (λ k. str_eq k.id key) keys ≡ some k
    → find (λ k. str_eq k.id key) (put_key key s keys) ≡ some (record k { status = s })
put_key-revoked key k s keys h =
    let (there, t) = find-In (λ k. str_eq k.id key) k keys h in
    find-update_first (λ k. str_eq k.id key) (λ k. record k { status = s }) k keys h t

refused :
    (configured : Option String) (key : String) (k : SigningKey) (s : KeyStatus) (actor : Actor)
    (cat : Catalogue)
    → find (λ k. str_eq k.id key) cat.keys ≡ some k
    → is_revoked_key k.status ≡ true
    → is_revoked_key s ≡ false
    → is_ok (set_signing_key_status configured key (some s) actor cat) ≡ false
unfolding set_signing_key_status
refused configured key k s actor cat e r n =
    elim (Result-cases (require_publisher_role cat.members k.publisher_id actor manage)) [
      | inl (u, a) ↦ ground arith
      | inr (x, a) ↦ ground arith
    ]

find_key : (o : Option SigningKey) (k : SigningKey) → require o not_found ≡ ok k → o ≡ some k
find_key none k h = cc
find_key (some x) k h = cc

blocked :
    (key : String) (rs : List Release)
    → any (λ r. is_signed_with key r.signing_key_id && is_served r.status) (revoke_releases key rs)
      ≡ false
unfolding revoke_releases any
blocked key rs =
    update_where-none (λ r. is_signed_with key r.signing_key_id && is_served r.status)
      (λ r. is_signed_with key r.signing_key_id && is_served r.status) block rs (λ r t. t)
      (λ r t. ground arith)

disabled :
    (key : String) (rs : List Release) (cs : List Copy)
    → any
        (λ c. is_copy_signed_with key (revoke_releases key rs) c && c.enabled)
        (update_where (λ c. is_copy_signed_with key rs c && c.enabled) disable cs)
      ≡ false
disabled key rs cs =
    update_where-none (λ c. is_copy_signed_with key (revoke_releases key rs) c && c.enabled)
      (λ c. is_copy_signed_with key rs c && c.enabled) disable cs
      (λ c t. let e = is_copy_signed_with-revoke_releases key c rs in ground arith)
      (λ c t. ground arith)

-- Once a key is revoked, no version that it has signed is published or deprecated, no enabled installation
-- runs one, and every request for another status of the key is refused.
pub set_signing_key_status-revoked :
    (configured configured' : Option String) (key : String) (actor actor' : Actor) (s : KeyStatus)
    (cat cat' : Catalogue)
    → set_signing_key_status configured key (some KeyStatus.revoked) actor cat ≡ ok cat'
    → is_revoked_key s ≡ false
    → (any (λ r. is_signed_with key r.signing_key_id && is_served r.status) cat'.releases ≡ false)
      × (any (λ c. is_copy_signed_with key cat'.releases c && c.enabled) cat'.copies ≡ false)
      × (is_ok (set_signing_key_status configured' key (some s) actor' cat') ≡ false)
unfolding set_signing_key_status
set_signing_key_status-revoked configured configured' key actor actor' s cat cat' h n =
    let (k, found, h1) = >>=-eq-ok (require (find (λ k. str_eq k.id key) cat.keys) not_found) _ h in
    let (_, _, h2) =
      >>=-eq-ok (require_publisher_role cat.members k.publisher_id actor manage) _ h1 in
    let e : after_revocation key cat ≡ cat' = ground arith in
    let there =
      put_key-revoked key k KeyStatus.revoked cat.keys
        (find_key (find (λ k. str_eq k.id key) cat.keys) k found) in
    subst
      (λ c.
        (any (λ r. is_signed_with key r.signing_key_id && is_served r.status) c.releases ≡ false)
        × (any (λ x. is_copy_signed_with key c.releases x && x.enabled) c.copies ≡ false)
        × (is_ok (set_signing_key_status configured' key (some s) actor' c) ≡ false))
      e
      (
        blocked key cat.releases,
        disabled key cat.releases cat.copies,
        refused configured' key (record k { status = KeyStatus.revoked }) s actor'
            (after_revocation key cat) there refl n,
      )

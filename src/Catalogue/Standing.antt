-- ===== src/Catalogue/Standing.antt =====
-- `setVisibility`, `verifyPublisher`, `registerSigningKey`, `rotateSigningKey`, `setSigningKeyStatus` and
-- `setPublisherStatus` of backend/src/platform/extensions.service.ts: how a publisher and its keys stand,
-- and what that does to its extensions, their versions and their installations. The audit entries are left
-- out. A text that is no status is none.
pub mod Revocation
pub mod Suspension
use wattanman.Base.{
  ℕ, String, Bool, true, false, not, ◌&&◌, ◌||◌, Option, none, some, List, [], ◌∷◌, str_eq, is_some,
  ltb, if◌then◌else◌, find, any, Result, ok, err, conflict, not_found, forbidden, bad_request,
  throw_if, require, ◌>>=◌, ◌>>◌,
}
use wattanman.Extensions.Types.{State}
use wattanman.Catalogue.Members.{
  Actor, Member, is_member, manage, require_publisher_role, is_active,
}
use wattanman.Catalogue.Types.{
  Stage, is_stage, one_of, Release, Offer, OfferStatus, Visibility, Standing, Verification,
  Publisher, SigningKey, KeyStatus, Copy, Catalogue, is_active_publisher, is_active_key,
  is_revoked_key, is_verified, is_suspended_offer, written, update_where, update_first,
}
use wattanman.Catalogue.Releases.Transitions.{disable}

abbrev is_listed_visibility : Visibility → Bool
is_listed_visibility Visibility.listed = true
is_listed_visibility _ = false

abbrev show : Visibility → Offer → Offer
show v o = record o { visibility = v; is_listed = is_listed_visibility v }

unfoldable pub set_visibility :
    String → Option Visibility → Option String → Actor → Catalogue → Result Catalogue
set_visibility extension visibility reason actor cat = do
  v ← require visibility bad_request
  o ← require (find (λ o. str_eq o.id extension) cat.offers) not_found
  require_publisher_role cat.members o.publisher_id actor "PUBLISH"
  throw_if
      (is_listed_visibility o.visibility
        && not (is_listed_visibility v)
        && not (is_some (written reason)))
      bad_request
  ok (record cat { offers = update_first (λ o. str_eq o.id extension) (show v) cat.offers })

abbrev is_active_member : Option Member → Bool
is_active_member none = false
is_active_member (some m) = is_active m.status

abbrev is_revoked_publisher : Standing → Bool
is_revoked_publisher Standing.revoked = true
is_revoked_publisher _ = false

-- A decision is VERIFIED where it is true.
abbrev decided : Bool → Publisher → Publisher
decided verified p = record p {
  verification = if verified then Verification.verified else Verification.rejected;
  status = if verified then Standing.active else Standing.suspended;
}

-- The notes are of `length` characters.
unfoldable pub verify_publisher : String → Option Bool → ℕ → Actor → Catalogue → Result Catalogue
verify_publisher publisher decision length actor cat = do
  user ← require actor.user_id forbidden
  verified ← require decision bad_request
  throw_if (ltb length 3) bad_request
  p ← require (find (λ p. str_eq p.id publisher) cat.publishers) not_found
  throw_if (is_active_member (find (is_member publisher user) cat.members)) forbidden
  throw_if p.internal conflict
  throw_if (is_revoked_publisher p.status) conflict
  ok (record cat {
    publishers = update_first (λ p. str_eq p.id publisher) (decided verified) cat.publishers;
  })

-- A key that a request gives: none where its name or its text is missing or is none.
pub record KeyDraft : Type 0 where
  pub key_id : Option String
  pub public_key : Option String

abbrev new_key : String → String → String → String → SigningKey
new_key id publisher key public_key = record {
  id = id;
  publisher_id = publisher;
  key_id = key;
  public_key = public_key;
  status = KeyStatus.active;
}

-- `id` is the identifier of the new row.
unfoldable pub register_signing_key :
    String → String → KeyDraft → Actor → Catalogue → Result Catalogue
register_signing_key id publisher d actor cat = do
  require_publisher_role cat.members publisher actor manage
  key ← require d.key_id bad_request
  public_key ← require d.public_key bad_request
  throw_if (any (λ k. str_eq k.key_id key) cat.keys) conflict
  throw_if (any (λ k. str_eq k.publisher_id publisher && str_eq k.public_key public_key) cat.keys)
      conflict
  ok (record cat { keys = new_key id publisher key public_key ∷ cat.keys })

unfoldable pub rotate_signing_key :
    String → String → String → KeyDraft → Actor → Catalogue → Result Catalogue
rotate_signing_key id publisher current d actor cat = do
  require_publisher_role cat.members publisher actor manage
  k ← require (find (λ k. str_eq k.id current) cat.keys) not_found
  throw_if (not (str_eq k.publisher_id publisher)) not_found
  throw_if (not (is_active_key k.status)) conflict
  register_signing_key id publisher d actor cat

abbrev pub is_signed_with : String → Option String → Bool
is_signed_with key none = false
is_signed_with key (some k) = str_eq k key

abbrev pub is_served : Stage → Bool
is_served s = one_of (Stage.published ∷ Stage.deprecated ∷ []) s

-- The installed version is one that the key has signed.
abbrev pub is_copy_signed_with : String → List Release → Copy → Bool
is_copy_signed_with key releases c =
    any (λ r. str_eq r.id c.installed_version_id && is_signed_with key r.signing_key_id) releases

abbrev pub block : Release → Release
block r = record r { status = Stage.blocked }

unfoldable pub revoke_releases : String → List Release → List Release
revoke_releases key rs =
    update_where (λ r. is_signed_with key r.signing_key_id && is_served r.status) block rs

abbrev is_retired_key : KeyStatus → Bool
is_retired_key KeyStatus.retired = true
is_retired_key _ = false

abbrev put_key : String → KeyStatus → List SigningKey → List SigningKey
put_key key status keys =
    update_first (λ k. str_eq k.id key) (λ k. record k { status = status }) keys

-- What a revocation leaves.
abbrev pub after_revocation : String → Catalogue → Catalogue
after_revocation key cat = record cat {
  keys = put_key key KeyStatus.revoked cat.keys;
  releases = revoke_releases key cat.releases;
  copies =
      update_where (λ c. is_copy_signed_with key cat.releases c && c.enabled) disable cat.copies;
}

-- `configured` is the name of the key that the environment sets.
unfoldable pub set_signing_key_status :
    Option String → String → Option KeyStatus → Actor → Catalogue → Result Catalogue
set_signing_key_status configured key status actor cat = do
  s ← require status bad_request
  k ← require (find (λ k. str_eq k.id key) cat.keys) not_found
  require_publisher_role cat.members k.publisher_id actor manage
  throw_if (is_revoked_key k.status && not (is_revoked_key s)) conflict
  throw_if (is_retired_key s && is_signed_with k.key_id configured) conflict
  if not (is_revoked_key s)
      then ok (record cat { keys = put_key key s cat.keys })
      else ok (after_revocation key cat)

abbrev pub is_copy_of : String → List Offer → Copy → Bool
is_copy_of publisher offers c =
    any (λ o. str_eq o.id c.extension_id && str_eq o.publisher_id publisher) offers

abbrev pub suspend_offer : Offer → Offer
suspend_offer o = record o { status = OfferStatus.suspended; is_listed = false }

abbrev pub resume_offer : Offer → Offer
resume_offer o = record o { status = OfferStatus.active }

abbrev put_standing : String → Standing → List Publisher → List Publisher
put_standing publisher s ps =
    update_first (λ p. str_eq p.id publisher) (λ p. record p { status = s }) ps

unfoldable pub after_standing : String → Standing → Catalogue → Catalogue
after_standing publisher s cat =
    if is_active_publisher s
    then record cat {
      publishers = put_standing publisher s cat.publishers;
      offers =
          update_where (λ o. str_eq o.publisher_id publisher && is_suspended_offer o.status)
            resume_offer cat.offers;
    }
    else record cat {
      publishers = put_standing publisher s cat.publishers;
      offers = update_where (λ o. str_eq o.publisher_id publisher) suspend_offer cat.offers;
      copies =
          update_where (λ c. is_copy_of publisher cat.offers c && c.enabled) disable cat.copies;
    }

unfoldable pub set_publisher_status :
    String → Option Standing → Actor → Catalogue → Result Catalogue
set_publisher_status publisher status actor cat = do
  s ← require status bad_request
  p ← require (find (λ p. str_eq p.id publisher) cat.publishers) not_found
  require_publisher_role cat.members publisher actor manage
  throw_if (is_active_publisher s && not p.internal && not (is_verified p.verification)) conflict
  ok (after_standing publisher s cat)

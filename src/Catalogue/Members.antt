-- ===== src/Catalogue/Members.antt =====
-- backend/src/platform/extensions.service.ts: the members of a publisher and what their roles permit.
-- The texts of a request are given trimmed and in upper case, as the code makes them before it tests them.
pub mod Managed
use wattanman.Base.{
  String, Bool, true, false, not, ◌&&◌, ◌||◌, Option, none, some, List, [], ◌∷◌, any, find,
  includes, is_empty, str_eq, if◌then◌else◌, Result, ok, err, conflict, not_found, forbidden,
  bad_request, ◌>>=◌, ◌>>◌, throw_if, require,
}

pub record Actor : Type 0 where
  pub user_id : Option String
  pub role : Option String

pub data MemberStatus : Type 0 where
  active suspended : MemberStatus

abbrev pub is_active : MemberStatus → Bool
is_active MemberStatus.active = true
is_active MemberStatus.suspended = false

pub record Member : Type 0 where
  pub publisher_id : String
  pub user_id : String
  pub roles : List String
  pub status : MemberStatus

abbrev pub manage : String
manage = "MANAGE"

abbrev pub has_role : String → Member → Bool
has_role role m = is_active m.status && includes m.roles role

abbrev pub is_member : String → String → Member → Bool
is_member publisher user m = str_eq m.publisher_id publisher && str_eq m.user_id user

unfoldable pub require_publisher_role : List Member → String → Actor → String → Result (Unit {0})
require_publisher_role members publisher actor role = do
  user ← require actor.user_id forbidden
  m ← require (find (is_member publisher user) members) forbidden
  throw_if (not (has_role role m)) forbidden

abbrev pub manages_besides : String → String → Member → Bool
manages_besides publisher user m =
    str_eq m.publisher_id publisher && has_role manage m && not (str_eq m.user_id user)

unfoldable pub assert_another_active_publisher_manager :
    List Member → String → String → Result (Unit {0})
assert_another_active_publisher_manager members publisher user =
    throw_if (not (any (manages_besides publisher user) members)) conflict

-- The row of the publisher and the user is replaced, or added where there is none.
unfoldable pub put_member : Member → List Member → List Member
put_member new [] = new ∷ []
put_member new (m ∷ ms) =
    let rest = put_member new ms in
    if is_member new.publisher_id new.user_id m then new ∷ ms else m ∷ rest

-- `[...new Set(roles)]`
unfoldable pub distinct : List String → List String → List String
distinct seen [] = []
distinct seen (r ∷ rs) =
    let skipped = distinct seen rs in
    let kept = distinct (r ∷ seen) rs in if includes seen r then skipped else r ∷ kept

abbrev pub publisher_roles : List String
publisher_roles = "UPLOAD" ∷ "REVIEW" ∷ "PUBLISH" ∷ manage ∷ []

-- Where the change takes the management from a manager, another one is asked for.
unfoldable pub keep_a_manager : List Member → Option Member → Bool → Result (Unit {0})
keep_a_manager members none keeps = ok tt
keep_a_manager members (some m) keeps =
    if has_role manage m && not keeps
    then assert_another_active_publisher_manager members m.publisher_id m.user_id
    else ok tt

-- `admins`: the users whose role is the platform administrator's.
unfoldable pub set_publisher_member_roles :
    List String → String → String → List String → Actor → List Member → Result (List Member)
set_publisher_member_roles admins publisher user roles actor members = do
  require_publisher_role members publisher actor manage
  throw_if
      (is_empty (distinct [] roles)
        || any (λ r. not (includes publisher_roles r)) (distinct [] roles))
      bad_request
  throw_if (not (includes admins user)) not_found
  keep_a_manager members (find (is_member publisher user) members)
      (includes (distinct [] roles) manage)
  ok (
      put_member
        (record {
          publisher_id = publisher;
          user_id = user;
          roles = distinct [] roles;
          status = MemberStatus.active;
        })
        members)

-- The users by their address: `user_of` is the row of an administrator with the address.
unfoldable pub add_publisher_member_by_email :
    (String → Option String)
    → List String
    → String
    → Option String
    → List String
    → Actor
    → List Member
    → Result (List Member)
add_publisher_member_by_email user_of admins publisher email roles actor members = do
  require_publisher_role members publisher actor manage
  address ← require email bad_request
  user ← require (user_of address) not_found
  set_publisher_member_roles admins publisher user roles actor members

-- `status` is none for a text that is neither ACTIVE nor SUSPENDED.
unfoldable pub set_publisher_member_status :
    String → String → Option MemberStatus → Actor → List Member → Result (List Member)
set_publisher_member_status publisher user status actor members = do
  require_publisher_role members publisher actor manage
  new ← require status bad_request
  m ← require (find (is_member publisher user) members) not_found
  keep_a_manager members (some m) (is_active new)
  ok (put_member (record m { status = new }) members)

-- ===== src/Catalogue/Types.antt =====
-- The rows that backend/src/platform/extensions.service.ts reads and writes, with the columns of
-- backend/prisma/schema.prisma that it uses. A text that the code trims before it tests or stores it is
-- given trimmed. A storage key is the record of the parts of its text.
use wattanman.Base.{
  ℕ, String, Bool, true, false, Option, none, some, List, [], ◌∷◌, any, str_eq, if◌then◌else◌, ◌==◌,
}
use wattanman.Extensions.Types.{Semver, Comparator, Dependency, Runtime, State, Pricing}
use wattanman.Catalogue.Members.{Member}

pub data Stage : Type 0 where
  uploaded quarantined validating validated awaiting_review approved : Stage
  rejected published deprecated blocked retired : Stage

abbrev number_of : Stage → ℕ
number_of Stage.uploaded = 0
number_of Stage.quarantined = 1
number_of Stage.validating = 2
number_of Stage.validated = 3
number_of Stage.awaiting_review = 4
number_of Stage.approved = 5
number_of Stage.rejected = 6
number_of Stage.published = 7
number_of Stage.deprecated = 8
number_of Stage.blocked = 9
number_of Stage.retired = 10

-- `===` and `includes` on the texts of the enumeration.
abbrev pub is_stage : Stage → Stage → Bool
is_stage s t = number_of s == number_of t

abbrev pub one_of : List Stage → Stage → Bool
one_of stages s = any (is_stage s) stages

pub data Area : Type 0 where
  quarantine final : Area

pub record StorageKey : Type 0 where
  pub area : Area
  pub extension_id : String
  pub release_id : String
  pub checksum : String

-- A row of `ExtensionVersion`.
pub record Release : Type 0 where
  pub id : String
  pub extension_id : String
  pub version : String
  pub number : Semver
  pub dependencies : List Dependency
  pub compatibility_range : Option (List Comparator)
  pub release_notes : Option String
  pub status : Stage
  pub uploaded_by : Option String
  pub reviewed_by : Option String
  pub review_notes : Option String
  pub package_storage_key : Option StorageKey
  pub package_checksum : Option String
  pub package_size : ℕ
  pub signing_key_id : Option String
  pub package_signature : Option String
  pub published_at : Option ℕ
  pub rollout_stage : String
  pub rollout_paused_at : Option ℕ

pub data OfferStatus : Type 0 where
  active suspended retired : OfferStatus

pub data Visibility : Type 0 where
  listed unlisted restricted : Visibility

pub data Verification : Type 0 where
  pending verified rejected : Verification

-- The price of an extension, in the smallest unit of the currency.
pub record Terms : Type 0 where
  pub pricing_model : Pricing
  pub price_minor : Option ℕ
  pub currency : String
  pub billing_interval : Option String
  pub contract_reference : Option String
  pub price_note : Option String

-- A row of `Extension`; `restricted` is the text PRIVATE.
pub record Offer : Type 0 where
  pub id : String
  pub key : String
  pub publisher_id : String
  pub runtime : Runtime
  pub status : OfferStatus
  pub visibility : Visibility
  pub is_listed : Bool
  pub terms : Terms

pub data Standing : Type 0 where
  active suspended revoked : Standing

pub record Publisher : Type 0 where
  pub id : String
  pub status : Standing
  pub internal : Bool
  pub verification : Verification

pub data KeyStatus : Type 0 where
  active retired revoked : KeyStatus

pub record SigningKey : Type 0 where
  pub id : String
  pub publisher_id : String
  pub key_id : String
  pub public_key : String
  pub status : KeyStatus

pub data Verdict : Type 0 where
  pass warn fail : Verdict

-- What a reviewer says of a domain, and of the four domains.
pub record Opinion : Type 0 where
  pub verdict : Option Verdict
  pub notes : Option String

pub record Assessment : Type 0 where
  pub technical : Opinion
  pub permissions : Opinion
  pub privacy : Opinion
  pub compatibility : Opinion

pub data ReviewAction : Type 0 where
  submitted approved rejected appealed : ReviewAction

pub record Review : Type 0 where
  pub release_id : String
  pub action : ReviewAction
  pub assessment : Option Assessment
  pub actor_id : Option String

pub data Outcome : Type 0 where
  pending running passed failed : Outcome

pub record Validation : Type 0 where
  pub id : String
  pub release_id : String
  pub status : Outcome

-- A row of `ExtensionInstallation`.
pub record Copy : Type 0 where
  pub id : String
  pub extension_id : String
  pub installed_version_id : String
  pub enabled : Bool
  pub lifecycle_state : State

-- A row of `ExtensionVisibilityGrant`.
pub record Grant : Type 0 where
  pub extension_id : String
  pub school_id : String
  pub granted_by : Option String

-- The tables. The reviews are kept newest first.
pub record Catalogue : Type 0 where
  pub offers : List Offer
  pub publishers : List Publisher
  pub members : List Member
  pub keys : List SigningKey
  pub releases : List Release
  pub reviews : List Review
  pub validations : List Validation
  pub copies : List Copy
  pub grants : List Grant

abbrev pub is_active_offer : OfferStatus → Bool
is_active_offer OfferStatus.active = true
is_active_offer _ = false

abbrev pub is_suspended_offer : OfferStatus → Bool
is_suspended_offer OfferStatus.suspended = true
is_suspended_offer _ = false

abbrev pub is_active_publisher : Standing → Bool
is_active_publisher Standing.active = true
is_active_publisher _ = false

abbrev pub is_verified : Verification → Bool
is_verified Verification.verified = true
is_verified _ = false

abbrev pub is_revoked_key : KeyStatus → Bool
is_revoked_key KeyStatus.revoked = true
is_revoked_key _ = false

abbrev pub is_active_key : KeyStatus → Bool
is_active_key KeyStatus.active = true
is_active_key _ = false

-- `value?.trim()` of a text that is given trimmed, where it is not empty.
abbrev pub written : Option String → Option String
written none = none
written (some s) = if str_eq s "" then none else some s

-- A JSON number of a later write, or the column as it is.
abbrev pub keep_unless {ℓ} : {A : Type ℓ} → Option A → Option A → Option A
keep_unless none old = old
keep_unless (some new) old = some new

-- A row changed where a test of it holds: `updateMany`.
unfoldable pub update_where {ℓ} : {A : Type ℓ} → (A → Bool) → (A → A) → List A → List A
update_where p f [] = []
update_where p f (x ∷ xs) = (if p x then f x else x) ∷ update_where p f xs

-- The row that a primary key finds is changed: `update`.
unfoldable pub update_first {ℓ} : {A : Type ℓ} → (A → Bool) → (A → A) → List A → List A
update_first p f [] = []
update_first p f (x ∷ xs) = let rest = update_first p f xs in if p x then f x ∷ xs else x ∷ rest

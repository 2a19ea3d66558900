-- ===== src/Catalogue/Releases/Drafts.antt =====
-- `createVersion`, `updateDraft`, `setRollout`, `uploadPackage`, `completePackageUpload` and `deleteVersion`
-- of backend/src/platform/extensions.service.ts. The audit entries, the queue that completes an upload and
-- the files of a package are left out. A completion is two steps, since other
-- requests may be served while the package is inspected.
use wattanman.Base.{
  ℕ, String, Bool, true, false, not, ◌&&◌, Option, none, some, List, [], ◌∷◌, str_eq, is_some,
  or_else, if◌then◌else◌, find, filter, any, includes, Result, ok, conflict, not_found, bad_request,
  throw_if, require, ◌>>=◌, ◌>>◌,
}
use wattanman.Extensions.Types.{Semver, Comparator, Dependency}
use wattanman.Catalogue.Members.{Actor, require_publisher_role}
use wattanman.Catalogue.Types.{
  Stage, is_stage, one_of, Release, Outcome, Validation, Catalogue, is_active_publisher, written,
  update_where,
}
use wattanman.Catalogue.Releases.{quarantine_key}
use wattanman.Catalogue.Releases.Transitions.{find_release, put_release}

-- A version that a request names: none where its text is no version. The range is none where the text is
-- no range, and `some none` where it is empty or missing.
pub record Draft : Type 0 where
  pub version : Option (String × Semver)
  pub dependencies : Option (List Dependency)
  pub range : Option (Option (List Comparator))
  pub release_notes : Option String

abbrev pub new_release :
    String
    → String
    → String
    → Semver
    → List Dependency
    → Option (List Comparator)
    → Option String
    → Actor
    → Release
new_release id extension version number dependencies range notes actor = record {
  id = id;
  extension_id = extension;
  version = version;
  number = number;
  dependencies = dependencies;
  compatibility_range = range;
  release_notes = written notes;
  status = Stage.uploaded;
  uploaded_by = actor.user_id;
  reviewed_by = none;
  review_notes = none;
  package_storage_key = none;
  package_checksum = none;
  package_size = 0;
  signing_key_id = none;
  package_signature = none;
  published_at = none;
  rollout_stage = "INTERNAL";
  rollout_paused_at = none;
}

abbrev pub is_version : String → String → Release → Bool
is_version extension version r = str_eq r.extension_id extension && str_eq r.version version

-- `id` is the identifier of the new row.
unfoldable pub create_version : String → String → Draft → Actor → Catalogue → Result Catalogue
create_version id extension d actor cat = do
  o ← require (find (λ o. str_eq o.id extension) cat.offers) not_found
  p ← require (find (λ p. str_eq p.id o.publisher_id) cat.publishers) not_found
  throw_if (not (is_active_publisher p.status)) conflict
  require_publisher_role cat.members o.publisher_id actor "UPLOAD"
  (version, number) ← require d.version bad_request
  dependencies ← require d.dependencies bad_request
  range ← require d.range bad_request
  throw_if (any (is_version extension version) cat.releases) conflict
  ok (record cat {
    releases =
        new_release id extension version number dependencies range d.release_notes actor
        ∷ cat.releases;
  })

-- A column of an update: as it is, null or a value.
pub data Change {ℓ} (A : Type ℓ) : Type ℓ where
  keep clear : Change A
  set : A → Change A

abbrev pub apply {ℓ} : {A : Type ℓ} → Change A → Option A → Option A
apply keep old = old
apply clear old = none
apply (set a) old = some a

pub record Edit : Type 0 where
  pub dependencies : Option (List Dependency)
  pub range : Option (Change (List Comparator))
  pub release_notes : Change String

abbrev pub mutable_stages : List Stage
mutable_stages =
    Stage.uploaded ∷ Stage.quarantined ∷ Stage.validating ∷ Stage.validated ∷ Stage.rejected
    ∷ Stage.awaiting_review ∷ []

abbrev pub edited : Edit → Change (List Comparator) → Release → Release
edited e range r = record r {
  dependencies = or_else e.dependencies r.dependencies;
  compatibility_range = apply range r.compatibility_range;
  release_notes = apply e.release_notes r.release_notes;
}

-- The range of the request is none where its text is no range.
unfoldable pub update_draft : String → Edit → Catalogue → Result Catalogue
update_draft id e cat = do
  r ← require (find (λ r. str_eq r.id id) cat.releases) not_found
  throw_if (not (one_of mutable_stages r.status)) conflict
  range ← require e.range bad_request
  ok (record cat { releases = put_release id (edited e range) cat.releases })

abbrev rollout_stages : List String
rollout_stages = "INTERNAL" ∷ "PILOT" ∷ "PERCENT_5" ∷ "PERCENT_25" ∷ "FULL" ∷ []

abbrev pub rolled : String → Bool → Release → Release
rolled stage resume r = record r {
  rollout_stage = stage;
  rollout_paused_at = if resume then none else r.rollout_paused_at;
}

unfoldable pub set_rollout :
    String → Option String → Bool → Option String → Actor → Catalogue → Result Catalogue
set_rollout id stage resume reason actor cat = do
  s ← require stage bad_request
  throw_if (not (includes rollout_stages s)) bad_request
  (r, o, p) ← find_release id cat
  throw_if (not (is_stage r.status Stage.published)) conflict
  require_publisher_role cat.members o.publisher_id actor "PUBLISH"
  throw_if (is_some r.rollout_paused_at && not resume) conflict
  throw_if (resume && not (is_some (written reason))) bad_request
  ok (record cat { releases = put_release id (rolled s resume) cat.releases })

-- A package: its name ends in `.zip`, its checksum and its size, and the identifier of the validation that
-- the code makes of the version and the checksum.
pub record Package : Type 0 where
  pub is_zip : Bool
  pub checksum : String
  pub size : ℕ
  pub validation_id : String

abbrev pub is_text : Option String → String → Bool
is_text none t = false
is_text (some s) t = str_eq s t

abbrev pub pending_row : String → String → Validation
pending_row id release = record { id = id; release_id = release; status = Outcome.pending }

-- `upsert` with an empty update.
unfoldable pub ensure_pending : String → String → List Validation → List Validation
ensure_pending id release vs =
    if any (λ v. str_eq v.id id) vs then vs else pending_row id release ∷ vs

abbrev pub quarantined : Package → Release → Release
quarantined f r = record r {
  package_storage_key = some (quarantine_key r f.checksum);
  package_checksum = some f.checksum;
  package_size = f.size;
  status = Stage.quarantined;
}

-- The same package once more: the validation's row is made where the package still waits for it.
abbrev pub upload_again : Package → Release → Catalogue → Catalogue
upload_again f r cat =
    if one_of (Stage.quarantined ∷ Stage.validating ∷ []) r.status
    then record cat { validations = ensure_pending f.validation_id r.id cat.validations }
    else cat

-- `stored` is the object store's answer.
unfoldable pub upload_package :
    String → Package → Result (Unit {0}) → Actor → Catalogue → Result Catalogue
upload_package id f stored actor cat = do
  throw_if (not f.is_zip) bad_request
  (r, o, p) ← find_release id cat
  throw_if (not (is_active_publisher p.status)) conflict
  require_publisher_role cat.members o.publisher_id actor "UPLOAD"
  if is_text r.package_checksum f.checksum && is_some r.package_storage_key
      then ok (upload_again f r cat)
      else do
        throw_if (not (is_stage r.status Stage.uploaded)) conflict
        stored
        ok (record cat {
          releases = put_release id (quarantined f) cat.releases;
          validations = ensure_pending f.validation_id r.id cat.validations;
        })

abbrev pub is_finished : Outcome → Bool
is_finished Outcome.passed = true
is_finished Outcome.failed = true
is_finished waiting = false

abbrev pub validating_row : Release → Release
validating_row r =
    if one_of (Stage.quarantined ∷ Stage.validating ∷ []) r.status
    then record r { status = Stage.validating }
    else r

abbrev running_row : Validation → Validation
running_row v = if is_finished v.status then v else record v { status = Outcome.running }

-- The first part of a completion: the identity of the package, and the rows that say that it is inspected.
unfoldable pub start_inspection : String → String → String → Catalogue → Result Catalogue
start_inspection id checksum validation_id cat = do
  r ← require (find (λ r. str_eq r.id id) cat.releases) not_found
  throw_if (not (is_text r.package_checksum checksum && is_some r.package_storage_key)) conflict
  v ← require (find (λ v. str_eq v.id validation_id) cat.validations) conflict
  throw_if (not (str_eq v.release_id r.id)) conflict
  if is_finished v.status
      then ok cat
      else ok (record cat {
        releases = put_release id validating_row cat.releases;
        validations = update_where (λ v. str_eq v.id validation_id) running_row cat.validations;
      })

-- What the scanner and the package validator find, with the dependencies of the manifest where they
-- have read one.
pub record Inspection : Type 0 where
  pub is_valid : Bool
  pub dependencies : Option (List Dependency)

abbrev pub concluded : Inspection → Release → Release
concluded i r = record r {
  status = if i.is_valid then Stage.validated else Stage.rejected;
  dependencies = or_else i.dependencies r.dependencies;
}

abbrev pub judge : Inspection → Validation → Validation
judge i v = record v { status = if i.is_valid then Outcome.passed else Outcome.failed }

-- The second part, once the package is inspected. The code asks nothing of the row that it writes.
unfoldable pub finish_inspection : String → String → Inspection → Catalogue → Catalogue
finish_inspection id validation_id i cat = record cat {
  releases = put_release id (concluded i) cat.releases;
  validations = update_where (λ v. str_eq v.id validation_id) (judge i) cat.validations;
}

-- `deleted` is the object store's answer.
unfoldable pub delete_version : String → Result (Unit {0}) → Actor → Catalogue → Result Catalogue
delete_version id deleted actor cat = do
  (r, o, p) ← find_release id cat
  require_publisher_role cat.members o.publisher_id actor "MANAGE"
  throw_if (not (one_of (Stage.uploaded ∷ Stage.validated ∷ Stage.rejected ∷ []) r.status)) conflict
  throw_if (any (λ c. str_eq c.installed_version_id r.id) cat.copies) conflict
  deleted
  ok (record cat {
    releases = filter (λ x. not (str_eq x.id r.id)) cat.releases;
    reviews = filter (λ x. not (str_eq x.release_id r.id)) cat.reviews;
    validations = filter (λ x. not (str_eq x.release_id r.id)) cat.validations;
  })

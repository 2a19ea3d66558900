-- ===== src/Catalogue/Releases.antt =====
-- `transition`, `reviewSeparationRequired`, `validateReviewAssessment` and `publicationChecklist` of
-- backend/src/platform/extensions.service.ts, with the guards of `signForPublication` of
-- backend/src/platform/extension-signing.service.ts. What the signature's text is and what the object
-- store answers are arguments. The audit entries are left out.
pub mod Transitions
pub mod Drafts
pub mod Reviewed
pub mod Published
pub mod Requests
pub mod History
use wattanman.Base.{
  ℕ, String, Bool, true, false, not, ◌&&◌, ◌||◌, Option, none, some, List, [], ◌∷◌, str_eq, is_some,
  ltb, if◌then◌else◌, find, any, all, includes, or_else, Result, ok, err, conflict, not_found,
  bad_request, unavailable, is_ok, throw_if, require, ◌>>=◌, ◌>>◌,
}
use wattanman.Extensions.Types.{Semver, Comparator, is_declarative}
use wattanman.Extensions.Ranges.{version_matches}
use wattanman.Catalogue.Members.{Actor, require_publisher_role}
use wattanman.Catalogue.Types.{
  Stage, is_stage, one_of, Area, StorageKey, Release, Offer, Publisher, SigningKey, Verdict,
  Opinion, Assessment, ReviewAction, Review, Outcome, Validation, Catalogue, is_active_publisher,
  is_active_key, written,
}
use wattanman.Catalogue.Graph.{assert_dependency_graph}

-- What the environment sets, and the answers of the signature's code and of the object store.
pub record Site : Type 0 where
  pub separation_required : Option String
  pub node_environment : Option String
  pub platform : Semver
  pub signing_key_id : Option String
  pub private_key : Option String
  pub signature_of : SigningKey → Release → Result String
  pub store_final : Release → StorageKey → Result (Unit {0})

unfoldable pub allowed_transitions : Stage → List Stage
allowed_transitions Stage.uploaded = Stage.quarantined ∷ Stage.rejected ∷ []
allowed_transitions Stage.quarantined = Stage.validating ∷ Stage.rejected ∷ []
allowed_transitions Stage.validating = Stage.validated ∷ Stage.rejected ∷ []
allowed_transitions Stage.validated = Stage.awaiting_review ∷ Stage.rejected ∷ []
allowed_transitions Stage.awaiting_review = Stage.approved ∷ Stage.rejected ∷ []
allowed_transitions Stage.approved = Stage.published ∷ Stage.rejected ∷ []
allowed_transitions Stage.published = Stage.deprecated ∷ Stage.blocked ∷ []
allowed_transitions Stage.deprecated = Stage.blocked ∷ Stage.retired ∷ []
allowed_transitions Stage.blocked = Stage.deprecated ∷ Stage.retired ∷ []
allowed_transitions Stage.rejected = []
allowed_transitions Stage.retired = []

abbrev is_text : String → Option String → Bool
is_text t none = false
is_text t (some s) = str_eq s t

-- The texts of the environment are given trimmed, and the first one in lower case.
unfoldable pub review_separation_required : Site → Bool
review_separation_required site =
    is_text "true" site.separation_required
    || (not (is_text "false" site.separation_required)
        && is_text "production" site.node_environment)

abbrev pub is_fail : Option Verdict → Bool
is_fail (some Verdict.fail) = true
is_fail _ = false

-- A verdict with notes.
abbrev pub is_judged : Opinion → Bool
is_judged o = is_some o.verdict && is_some (written o.notes)

abbrev pub opinions : Assessment → List Opinion
opinions a = a.technical ∷ a.permissions ∷ a.privacy ∷ a.compatibility ∷ []

unfoldable pub validate_review_assessment : Option Assessment → Stage → Result Assessment
validate_review_assessment assessment decision = do
  a ← require assessment bad_request
  throw_if (not (all is_judged (opinions a))) bad_request
  throw_if (is_stage decision Stage.approved && any (λ o. is_fail o.verdict) (opinions a))
      bad_request
  throw_if (is_stage decision Stage.rejected && not (any (λ o. is_fail o.verdict) (opinions a)))
      bad_request
  ok a

abbrev pub is_compatible : Semver → Option (List Comparator) → Bool
is_compatible platform none = false
is_compatible platform (some range) = version_matches platform range

abbrev pub is_passed : String → Validation → Bool
is_passed id v = str_eq v.release_id id && elim v.status [ Outcome.passed ↦ true | _ ↦ false ]

abbrev pub is_approval : String → Review → Bool
is_approval id r =
    str_eq r.release_id id && elim r.action [ ReviewAction.approved ↦ true | _ ↦ false ]

abbrev pub is_favourable : Opinion → Bool
is_favourable o = is_judged o && not (is_fail o.verdict)

-- `Boolean(review) && structuredReviewPassed`
abbrev pub passed_review : Option Review → Bool
passed_review none = false
passed_review (some r) = elim r.assessment [
  | none ↦ false
  | some a ↦ all is_favourable (opinions a)
]

abbrev pub differ : Option String → Option String → Bool
differ (some a) (some b) = not (str_eq a b)
differ _ _ = false

abbrev pub quarantine_key : Release → String → StorageKey
quarantine_key r checksum = record {
  area = Area.quarantine;
  extension_id = r.extension_id;
  release_id = r.id;
  checksum = checksum;
}

abbrev pub same_key : StorageKey → StorageKey → Bool
same_key a b =
    elim a.area [
      | Area.quarantine ↦ elim b.area [ Area.quarantine ↦ true | Area.final ↦ false ]
      | Area.final ↦ elim b.area [ Area.quarantine ↦ false | Area.final ↦ true ]
    ]
    && str_eq a.extension_id b.extension_id
    && str_eq a.release_id b.release_id
    && str_eq a.checksum b.checksum

-- The package is at the key that its checksum gives.
abbrev pub is_at_key : Release → Option StorageKey → Option String → Bool
is_at_key r (some key) (some checksum) = same_key key (quarantine_key r checksum)
is_at_key r _ _ = false

abbrev pub is_signer : String → String → SigningKey → Bool
is_signer publisher key k =
    str_eq k.publisher_id publisher && str_eq k.key_id key && is_active_key k.status

-- The configured key, where it is an active one of the publisher.
unfoldable pub configured_key : Site → String → List SigningKey → Option SigningKey
configured_key site publisher keys = elim (written site.signing_key_id) [
  | none ↦ none
  | some key ↦ find (is_signer publisher key) keys
]

abbrev pub passes_dependencies : Offer → Release → Catalogue → Bool
passes_dependencies o r cat =
    if is_declarative o.runtime then is_ok (assert_dependency_graph o r cat) else true

-- The items of the checklist, in their order.
unfoldable pub publication_checklist : Site → Release → Offer → Publisher → Catalogue → List Bool
publication_checklist site r o p cat =
    is_stage r.status Stage.approved
    ∷ any (is_passed r.id) cat.validations
    ∷ passed_review (find (is_approval r.id) cat.reviews)
    ∷ (not (review_separation_required site) || differ r.uploaded_by r.reviewed_by)
    ∷ (is_at_key r r.package_storage_key r.package_checksum && ltb 0 r.package_size)
    ∷ is_some (written r.release_notes)
    ∷ is_compatible site.platform r.compatibility_range
    ∷ is_active_publisher p.status
    ∷ (is_some (configured_key site o.publisher_id cat.keys) && is_some (written site.private_key))
    ∷ passes_dependencies o r cat
    ∷ []

abbrev pub is_ready : List Bool → Bool
is_ready items = all (λ b. b) items

-- The identifier of the signing key and the signature.
unfoldable pub sign_for_publication : Site → Release → Offer → Catalogue → Result (String × String)
sign_for_publication site r o cat = do
  throw_if (not (is_some r.package_storage_key && is_some r.package_checksum)) conflict
  throw_if (not (is_stage r.status Stage.approved)) conflict
  throw_if (not (is_at_key r r.package_storage_key r.package_checksum)) conflict
  throw_if (is_some r.package_signature || is_some r.signing_key_id) conflict
  throw_if (not (is_some (written site.signing_key_id) && is_some (written site.private_key)))
      unavailable
  key ← require (configured_key site o.publisher_id cat.keys) unavailable
  signature ← site.signature_of key r
  ok (key.id, signature)

pub record Publication : Type 0 where
  pub storage_key : StorageKey
  pub signing_key_id : String
  pub signature : String

abbrev final_key : Release → String → StorageKey
final_key r checksum = record {
  area = Area.final;
  extension_id = r.extension_id;
  release_id = r.id;
  checksum = checksum;
}

-- What the release's publication checks and stores before its row is written.
unfoldable pub prepare_publication :
    Site → Release → Offer → Publisher → Catalogue → Result Publication
prepare_publication site r o p cat = do
  throw_if (not (is_ready (publication_checklist site r o p cat))) conflict
  throw_if (not (is_some r.package_storage_key)) conflict
  checksum ← require r.package_checksum conflict
  if is_declarative o.runtime then assert_dependency_graph o r cat else ok tt
  (key, signature) ← sign_for_publication site r o cat
  site.store_final r (final_key r checksum)
  ok (record { storage_key = final_key r checksum; signing_key_id = key; signature = signature })

abbrev pub required_role : Stage → String
required_role next =
    if one_of (Stage.approved ∷ Stage.rejected ∷ []) next
    then "REVIEW"
    else (if is_stage next Stage.awaiting_review then "UPLOAD" else "PUBLISH")

abbrev pub is_decision : Stage → Bool
is_decision next = one_of (Stage.approved ∷ Stage.rejected ∷ []) next

abbrev pub is_withdrawal : Stage → Bool
is_withdrawal next = one_of (Stage.deprecated ∷ Stage.blocked ∷ Stage.retired ∷ []) next

unfoldable pub check_separation : Site → Release → Actor → Result (Unit {0})
check_separation site r actor =
    if review_separation_required site
    then (do
      uploader ← require r.uploaded_by conflict
      reviewer ← require actor.user_id conflict
      throw_if (str_eq uploader reviewer) conflict)
    else ok tt

abbrev pub judged : Option Assessment → Stage → Result (Option Assessment)
judged assessment next =
    if is_decision next
    then (do a ← validate_review_assessment assessment next; ok (some a))
    else ok none

-- The guards before the publication, with the assessment of a decision.
unfoldable pub check_transition :
    Site
    → Release
    → Offer
    → Publisher
    → Stage
    → Option String
    → Actor
    → Option Assessment
    → Catalogue
    → Result (Option Assessment)
check_transition site r o p next notes actor assessment cat = do
  require_publisher_role cat.members o.publisher_id actor (required_role next)
  throw_if (not (one_of (allowed_transitions r.status) next)) conflict
  throw_if (is_decision next && not (is_some (written notes))) bad_request
  a ← judged assessment next
  throw_if (is_withdrawal next && not (is_some (written notes))) bad_request
  if is_decision next then check_separation site r actor else ok tt
  throw_if
      (is_stage next Stage.awaiting_review
        && not (is_some (written r.release_notes) && is_some r.compatibility_range))
      conflict
  throw_if (is_stage next Stage.published && not (is_active_publisher p.status)) conflict
  ok a

-- ===== src/Catalogue/Releases/Transitions.antt =====
-- `transition` and `appeal` of backend/src/platform/extensions.service.ts: what they leave in the tables.
-- The object of the quarantine is deleted after the rows are written, and a failure of that is ignored.
use wattanman.Base.{
  ℕ, String, Bool, true, false, not, ◌&&◌, Option, none, some, List, [], ◌∷◌, str_eq, is_some,
  if◌then◌else◌, find, any, Result, ok, conflict, not_found, bad_request, throw_if, require, ◌>>=◌,
  ◌>>◌,
}
use wattanman.Extensions.Types.{State}
use wattanman.Catalogue.Members.{Actor, require_publisher_role}
use wattanman.Catalogue.Types.{
  Stage, is_stage, one_of, Release, Offer, OfferStatus, Visibility, Publisher, Assessment,
  ReviewAction, Review, Copy, Catalogue, is_active_publisher, written, keep_unless, update_where,
  update_first,
}
use wattanman.Catalogue.Releases.{
  Site, Publication, is_decision, check_transition, prepare_publication,
}

-- The identifiers are primary keys.
abbrev pub row_of : String → List Release → Option Release
row_of id rs = find (λ r. str_eq r.id id) rs

unfoldable pub find_release : String → Catalogue → Result (Release × Offer × Publisher)
find_release id cat = do
  r ← require (row_of id cat.releases) not_found
  o ← require (find (λ o. str_eq o.id r.extension_id) cat.offers) not_found
  p ← require (find (λ p. str_eq p.id o.publisher_id) cat.publishers) not_found
  ok (r, o, p)

abbrev pub put_release : String → (Release → Release) → List Release → List Release
put_release id f rs = update_first (λ r. str_eq r.id id) f rs

abbrev published_at_of : ℕ → Stage → Option ℕ
published_at_of now next = if is_stage next Stage.published then some now else none

abbrev publish_row : Option Publication → Release → Release
publish_row none r = r
publish_row (some p) r = record r {
  package_storage_key = some p.storage_key;
  signing_key_id = some p.signing_key_id;
  package_signature = some p.signature;
}

-- The row of the version. `undefined` leaves a column as it is.
abbrev pub moved : ℕ → Stage → Option String → Actor → Option Publication → Release → Release
moved now next notes actor p r = publish_row p (record r {
  status = next;
  review_notes = keep_unless (written notes) r.review_notes;
  reviewed_by = if is_decision next then keep_unless actor.user_id r.reviewed_by else r.reviewed_by;
  published_at = keep_unless (published_at_of now next) r.published_at;
})

abbrev list_offer : Offer → Offer
list_offer o = record o {
  is_listed = true;
  visibility = Visibility.listed;
  status = OfferStatus.active;
}

abbrev retire_offer : Offer → Offer
retire_offer o = record o {
  is_listed = false;
  visibility = Visibility.unlisted;
  status = OfferStatus.retired;
}

abbrev pub disable : Copy → Copy
disable c = record c { enabled = false; lifecycle_state = State.installed }

-- A version of the extension other than this one that is neither retired nor rejected.
abbrev remains : String → String → Release → Bool
remains extension id r =
    str_eq r.extension_id extension
    && not (str_eq r.id id)
    && not (one_of (Stage.retired ∷ Stage.rejected ∷ []) r.status)

unfoldable pub offers_after : Stage → Release → List Release → List Offer → List Offer
offers_after next r releases offers =
    if is_stage next Stage.published
    then update_where (λ o. str_eq o.id r.extension_id) list_offer offers
    else (if is_stage next Stage.retired && not (any (remains r.extension_id r.id) releases)
        then update_where (λ o. str_eq o.id r.extension_id) retire_offer offers
        else offers)

unfoldable pub copies_after : Stage → Release → List Copy → List Copy
copies_after next r copies =
    if is_stage next Stage.blocked
    then update_where (λ c. str_eq c.installed_version_id r.id && c.enabled) disable copies
    else copies

abbrev review_action : Stage → Option ReviewAction
review_action Stage.awaiting_review = some ReviewAction.submitted
review_action Stage.approved = some ReviewAction.approved
review_action Stage.rejected = some ReviewAction.rejected
review_action _ = none

abbrev review_row : Release → Option Assessment → Actor → ReviewAction → Review
review_row r assessment actor action = record {
  release_id = r.id;
  action = action;
  assessment = assessment;
  actor_id = actor.user_id;
}

unfoldable pub reviews_after :
    Stage → Release → Option Assessment → Actor → List Review → List Review
reviews_after next r assessment actor reviews = elim (review_action next) [
  | none ↦ reviews
  | some action ↦ review_row r assessment actor action ∷ reviews
]

unfoldable pub after_transition :
    ℕ
    → String
    → Release
    → Stage
    → Option String
    → Actor
    → Option Assessment
    → Option Publication
    → Catalogue
    → Catalogue
after_transition now id r next notes actor assessment p cat = record cat {
  releases = put_release id (moved now next notes actor p) cat.releases;
  offers = offers_after next r cat.releases cat.offers;
  copies = copies_after next r cat.copies;
  reviews = reviews_after next r assessment actor cat.reviews;
}

abbrev pub publication_if :
    Site → Release → Offer → Publisher → Stage → Catalogue → Result (Option Publication)
publication_if site r o p next cat =
    if is_stage next Stage.published
    then (do done ← prepare_publication site r o p cat; ok (some done))
    else ok none

unfoldable pub transition :
    Site
    → ℕ
    → String
    → Stage
    → Option String
    → Actor
    → Option Assessment
    → Catalogue
    → Result Catalogue
transition site now id next notes actor assessment cat = do
  (r, o, p) ← find_release id cat
  if is_stage r.status next then ok cat else do
    a ← check_transition site r o p next notes actor assessment cat
    done ← publication_if site r o p next cat
    ok (after_transition now id r next notes actor a done cat)

abbrev pub reopened : Option String → Release → Release
reopened notes r = record r {
  status = Stage.awaiting_review;
  review_notes = written notes;
  reviewed_by = none;
}

abbrev appeal_row : Release → Actor → Review
appeal_row r actor = record {
  release_id = r.id;
  action = ReviewAction.appealed;
  assessment = none;
  actor_id = actor.user_id;
}

-- The appeal claims the row at the stage and the reviewer that it has read, in one step with the reading.
unfoldable pub appeal : String → Option String → Actor → Catalogue → Result Catalogue
appeal id notes actor cat = do
  throw_if (not (is_some (written notes))) bad_request
  (r, o, p) ← find_release id cat
  throw_if (not (is_stage r.status Stage.rejected && is_some r.reviewed_by)) conflict
  throw_if (not (is_active_publisher p.status)) conflict
  require_publisher_role cat.members o.publisher_id actor "UPLOAD"
  ok (record cat {
    releases = put_release id (reopened notes) cat.releases;
    reviews = appeal_row r actor ∷ cat.reviews;
  })

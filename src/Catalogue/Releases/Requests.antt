-- ===== src/Catalogue/Releases/Requests.antt =====
-- The requests that change the versions of extensions, what they are offered for and who offers them.
use wattanman.Base.{ℕ, String, Bool, Option, List, [], ◌∷◌, Result, ok, err}
use wattanman.Catalogue.Members.{Actor}
use wattanman.Catalogue.Types.{Stage, Assessment, Catalogue, KeyStatus, Standing, Visibility}
use wattanman.Catalogue.Releases.{Site}
use wattanman.Catalogue.Releases.Transitions.{transition, appeal}
use wattanman.Catalogue.Releases.Drafts.{
  Draft, Edit, Package, Inspection, create_version, update_draft, set_rollout, upload_package,
  start_inspection, finish_inspection, delete_version,
}
use wattanman.Catalogue.Prices.{PriceRequest, set_pricing, grant_private_access}
use wattanman.Catalogue.Standing.{
  KeyDraft, rotate_signing_key, set_visibility, verify_publisher, set_signing_key_status,
  set_publisher_status, register_signing_key,
}

-- A request, with the identifiers that it makes and the answers of the stores that it gets.
pub data Request : Type 0 where
  change_stage :
      (now : ℕ) (id : String) (next : Stage) (notes : Option String)
      (assessment : Option Assessment)
      → Request
  file_appeal : (id : String) (notes : Option String) → Request
  create : (id extension : String) (draft : Draft) → Request
  edit : (id : String) (change : Edit) → Request
  roll_out :
      (id : String) (stage : Option String) (resume : Bool) (reason : Option String) → Request
  upload : (id : String) (file : Package) (stored : Result (Unit {0})) → Request
  start : (id checksum validation : String) → Request
  finish : (id validation : String) (found : Inspection) → Request
  delete : (id : String) (deleted : Result (Unit {0})) → Request
  set_key : (key : String) (status : Option KeyStatus) → Request
  add_key : (id publisher : String) (draft : KeyDraft) → Request
  rotate_key : (id publisher current : String) (draft : KeyDraft) → Request
  show : (extension : String) (visibility : Option Visibility) (reason : Option String) → Request
  verify : (publisher : String) (decision : Option Bool) (length : ℕ) → Request
  price : (extension : String) (terms : PriceRequest) → Request
  grant : (schools : List String) (extension school : String) (granted : Bool) → Request
  set_standing : (publisher : String) (standing : Option Standing) → Request

-- The two steps of a completion are the queue's, whoever is the actor.
unfoldable pub serve : Site → Actor → Request → Catalogue → Result Catalogue
serve site actor (change_stage now id next notes assessment) cat =
    transition site now id next notes actor assessment cat
serve site actor (file_appeal id notes) cat = appeal id notes actor cat
serve site actor (create id extension draft) cat = create_version id extension draft actor cat
serve site actor (edit id change) cat = update_draft id change cat
serve site actor (roll_out id stage resume reason) cat =
    set_rollout id stage resume reason actor cat
serve site actor (upload id file stored) cat = upload_package id file stored actor cat
serve site actor (start id checksum validation) cat = start_inspection id checksum validation cat
serve site actor (finish id validation found) cat = ok (finish_inspection id validation found cat)
serve site actor (delete id deleted) cat = delete_version id deleted actor cat
serve site actor (set_key key status) cat =
    set_signing_key_status site.signing_key_id key status actor cat
serve site actor (add_key id publisher draft) cat =
    register_signing_key id publisher draft actor cat
serve site actor (rotate_key id publisher current draft) cat =
    rotate_signing_key id publisher current draft actor cat
serve site actor (show extension visibility reason) cat =
    set_visibility extension visibility reason actor cat
serve site actor (verify publisher decision length) cat =
    verify_publisher publisher decision length actor cat
serve site actor (price extension terms) cat = set_pricing extension terms actor cat
serve site actor (grant schools extension school granted) cat =
    grant_private_access schools extension school granted actor cat
serve site actor (set_standing publisher standing) cat =
    set_publisher_status publisher standing actor cat

-- A request that throws leaves the tables as they are.
abbrev pub settle : Result Catalogue → Catalogue → Catalogue
settle (ok after) cat = after
settle (err e) cat = cat

unfoldable pub serve_all : Site → List (Actor × Request) → Catalogue → Catalogue
serve_all site [] cat = cat
serve_all site ((actor, q) ∷ qs) cat = serve_all site qs (settle (serve site actor q cat) cat)

-- ===== src/Catalogue/Releases/History.antt =====
-- What any requests keep, in any order.
use wattanman.Base.{
  String, Bool, true, not, ◌&&◌, ◌≡◌, refl, subst, inl, inr, Option, List, [], ◌∷◌, all, any, arith,
  Result, ok, err, str_eq, Option-cases, Result-cases, filter-all,
}
use wattanman.Catalogue.Members.{Actor}
use wattanman.Catalogue.Types.{Release, Catalogue, Standing, update_first}
use wattanman.Catalogue.Rows.{update_first-all, update_where-all}
use wattanman.Catalogue.Releases.{Site, review_separation_required}
use wattanman.Catalogue.Releases.Transitions.{appeal, reopened, find_release}
use wattanman.Catalogue.Releases.Drafts.{
  Draft, Edit, Package, Inspection, create_version, update_draft, set_rollout, upload_package,
  start_inspection, finish_inspection, delete_version, edited, rolled, quarantined, validating_row,
  concluded, upload_again,
}
use wattanman.Catalogue.Releases.Reviewed.{is_sound, transition-is_sound}
use wattanman.Catalogue.Prices.{check_pricing, set_pricing, grant_private_access}
use wattanman.Catalogue.Releases.Requests.{
  Request, change_stage, file_appeal, create, edit, roll_out, upload, start, finish, delete,
  set_key, add_key, rotate_key, show, verify, price, grant, set_standing, serve, settle, serve_all,
}
use wattanman.Catalogue.Standing.{
  rotate_signing_key, set_visibility, verify_publisher, set_signing_key_status,
  set_publisher_status, register_signing_key, after_standing, revoke_releases, block,
  is_signed_with, is_served,
}

-- Where the handler returns, the releases are sound.
abbrev Sound : Result Catalogue → Type 0
Sound m = (cat : Catalogue) → m ≡ ok cat → all is_sound cat.releases ≡ true

ok-Sound : (cat : Catalogue) → all is_sound cat.releases ≡ true → Sound (ok cat)
ok-Sound cat t cat' e =
    let same : cat ≡ cat' = cc in subst (λ c. all is_sound c.releases ≡ true) same t

put_sound :
    (p : Release → Bool) (f : Release → Release) (rs : List Release)
    → ((r : Release) → is_sound r ≡ true → is_sound (f r) ≡ true)
    → all is_sound rs ≡ true
    → all is_sound (update_first p f rs) ≡ true
put_sound p f rs h t = update_first-all is_sound p f rs (λ r e. h r) t

edited-is_sound :
    (e : Edit) (c : _) (r : Release) → is_sound r ≡ true → is_sound (edited e c r) ≡ true
unfolding is_sound
edited-is_sound e c r t = t

rolled-is_sound :
    (stage : String) (resume : Bool) (r : Release)
    → is_sound r ≡ true
    → is_sound (rolled stage resume r) ≡ true
unfolding is_sound
rolled-is_sound stage resume r t = t

quarantined-is_sound :
    (f : Package) (r : Release) → is_sound r ≡ true → is_sound (quarantined f r) ≡ true
unfolding is_sound any
quarantined-is_sound f r t = refl

validating_row-is_sound : (r : Release) → is_sound r ≡ true → is_sound (validating_row r) ≡ true
unfolding is_sound any
validating_row-is_sound r t = ground arith

concluded-is_sound :
    (i : Inspection) (r : Release) → is_sound r ≡ true → is_sound (concluded i r) ≡ true
unfolding is_sound any
concluded-is_sound i r t = ground arith

reopened-is_sound :
    (notes : Option String) (r : Release) → is_sound r ≡ true → is_sound (reopened notes r) ≡ true
unfolding is_sound any
reopened-is_sound notes r t = refl

block-is_sound :
    (key : String) (r : Release)
    → (is_signed_with key r.signing_key_id && is_served r.status) ≡ true
    → is_sound r ≡ true
    → is_sound (block r) ≡ true
unfolding is_sound any
block-is_sound key r p t = ground arith

create_version-Sound :
    (id extension : String) (d : Draft) (actor : Actor) (cat : Catalogue)
    → all is_sound cat.releases ≡ true
    → Sound (create_version id extension d actor cat)
unfolding create_version all any is_sound
create_version-Sound id extension d actor cat t cat' e = ground arith

upload_again_sound :
    (f : Package) (r : Release) (cat : Catalogue)
    → all is_sound cat.releases ≡ true
    → all is_sound (upload_again f r cat).releases ≡ true
upload_again_sound f r cat t = ground arith

after_standing_sound :
    (publisher : String) (s : Standing) (cat : Catalogue)
    → all is_sound cat.releases ≡ true
    → all is_sound (after_standing publisher s cat).releases ≡ true
unfolding after_standing
after_standing_sound publisher s cat t = ground arith

module _ (site : Site) (required : review_separation_required site ≡ true) where
  serve-Sound :
      (actor : Actor) (q : Request) (cat : Catalogue)
      → all is_sound cat.releases ≡ true
      → Sound (serve site actor q cat)
  unfolding serve appeal create_version update_draft set_rollout upload_package start_inspection
      finish_inspection delete_version set_signing_key_status set_publisher_status
      register_signing_key rotate_signing_key set_visibility verify_publisher set_pricing
      grant_private_access after_standing revoke_releases
  serve-Sound actor (change_stage now id next notes assessment) cat t =
      λ cat' e. transition-is_sound site required now id next notes actor assessment cat cat' e t
  serve-Sound actor (file_appeal id notes) cat t = λ cat' e.
      let s =
        put_sound (λ r. str_eq r.id id) (reopened notes) cat.releases (reopened-is_sound notes) t in
      ground arith
  serve-Sound actor (create id extension d) cat t = create_version-Sound id extension d actor cat t
  serve-Sound actor (edit id change) cat t = λ cat' e. elim (Option-cases change.range) [
    | inl n ↦ ground arith
    | inr (range, q) ↦
        let s =
          put_sound (λ r. str_eq r.id id) (edited change range) cat.releases
            (edited-is_sound change range) t in
        ground arith
  ]
  serve-Sound actor (roll_out id stage resume reason) cat t = λ cat' e. elim (Option-cases stage) [
    | inl n ↦ ground arith
    | inr (st, q) ↦
        let s =
          put_sound (λ r. str_eq r.id id) (rolled st resume) cat.releases
            (rolled-is_sound st resume) t in
        ground arith
  ]
  serve-Sound actor (upload id file stored) cat t = λ cat' e.
      let s =
        put_sound (λ r. str_eq r.id id) (quarantined file) cat.releases (quarantined-is_sound file)
          t in
      ground arith
  serve-Sound actor (start id checksum validation) cat t = λ cat' e.
      let s =
        put_sound (λ r. str_eq r.id id) validating_row cat.releases validating_row-is_sound t in
      ground arith
  serve-Sound actor (finish id validation found) cat t =
      ok-Sound _ (
        put_sound (λ r. str_eq r.id id) (concluded found) cat.releases (concluded-is_sound found) t)
  serve-Sound actor (delete id deleted) cat t = λ cat' e.
      elim (Result-cases (find_release id cat)) [
        | inr (x, q) ↦ ground arith
        | inl ((r, o, p), q) ↦
            let s = filter-all is_sound (λ y. not (str_eq y.id r.id)) cat.releases t in ground arith
      ]
  serve-Sound actor (set_key key status) cat t = λ cat' e.
      let s = update_where-all is_sound _ block cat.releases (block-is_sound key) t in ground arith
  serve-Sound actor (add_key id publisher draft) cat t = λ cat' e. ground arith
  serve-Sound actor (rotate_key id publisher current draft) cat t = λ cat' e. ground arith
  serve-Sound actor (show extension visibility reason) cat t = λ cat' e. ground arith
  serve-Sound actor (verify publisher decision length) cat t = λ cat' e. ground arith
  serve-Sound actor (price extension terms) cat t = λ cat' e.
      elim (Result-cases (check_pricing terms)) [
        | inl (w, q) ↦ ground arith
        | inr (x, q) ↦ ground arith
      ]
  serve-Sound actor (grant schools extension school granted) cat t = λ cat' e. ground arith
  serve-Sound actor (set_standing publisher standing) cat t = λ cat' e. ground arith

  settle-Sound :
      (m : Result Catalogue) (cat : Catalogue)
      → Sound m
      → all is_sound cat.releases ≡ true
      → all is_sound (settle m cat).releases ≡ true
  settle-Sound (ok after) cat s t = s after refl
  settle-Sound (err e) cat s t = t

  -- Where the environment asks for it, whatever requests are made, by whom and in what order: a release that
  -- is approved or was published was approved by another user than its uploader, and one that was published
  -- is signed, dated and stored under its final key.
  pub serve_all-is_sound :
      (qs : List (Actor × Request)) (cat : Catalogue)
      → all is_sound cat.releases ≡ true
      → all is_sound (serve_all site qs cat).releases ≡ true
  unfolding serve_all
  serve_all-is_sound [] cat t = t
  serve_all-is_sound ((actor, q) ∷ qs) cat t =
      serve_all-is_sound qs (settle (serve site actor q cat) cat)
        (settle-Sound (serve site actor q cat) cat (serve-Sound actor q cat t) t)

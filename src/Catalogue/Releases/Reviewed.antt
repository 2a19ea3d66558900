-- ===== src/Catalogue/Releases/Reviewed.antt =====
-- A release that is in force was approved by another user than the one who has uploaded it.
use wattanman.Base.{
  ℕ, String, Bool, true, false, not, ◌&&◌, ◌||◌, ◌≡◌, refl, subst, sym, ap, ◌∙◌, inl, inr, Option,
  none, some, List, [], ◌∷◌, find, all, any, is_some, arith, ok, >>=-eq-ok, Bool-cases, str_eq,
  if◌then◌else◌, throw_if, require, conflict, bad_request, not_found,
}
use wattanman.Extensions.Types.{is_declarative}
use wattanman.Catalogue.Graph.{assert_dependency_graph}
use wattanman.Catalogue.Members.{Actor, require_publisher_role}
use wattanman.Catalogue.Types.{
  Stage, is_stage, one_of, Area, StorageKey, Release, Offer, Publisher, Assessment, Catalogue,
  written,
}
use wattanman.Catalogue.Rows.{update_first-all}
use wattanman.Catalogue.Releases.{
  Site, Publication, review_separation_required, differ, check_transition, allowed_transitions,
  is_decision, check_separation, required_role, judged, is_withdrawal, prepare_publication,
  is_ready, publication_checklist, sign_for_publication, final_key,
}
use wattanman.Catalogue.Releases.Transitions.{
  row_of, find_release, moved, after_transition, publication_if, transition,
}

abbrev released : List Stage
released = Stage.published ∷ Stage.deprecated ∷ Stage.blocked ∷ Stage.retired ∷ []

abbrev is_final : Option StorageKey → Bool
is_final (some key) = elim key.area [ Area.final ↦ true | _ ↦ false ]
is_final none = false

-- An approved release was reviewed by another user; a released one is signed, too, and stored for good.
unfoldable pub is_sound : Release → Bool
is_sound r =
    (not (one_of (Stage.approved ∷ released) r.status) || differ r.uploaded_by r.reviewed_by)
    && (not (one_of released r.status)
        || (is_some r.signing_key_id
            && is_some r.package_signature
            && is_some r.published_at
            && is_final r.package_storage_key))

abbrev key_of : Option Publication → Option StorageKey
key_of none = none
key_of (some p) = some p.storage_key

-- What the guards give where the stage is `next`.
abbrev Checked : Stage → Release → Actor → Option Publication → Type 0
Checked next r actor d =
    (one_of (allowed_transitions r.status) next ≡ true)
    × (is_decision next ≡ true → differ r.uploaded_by actor.user_id ≡ true)
    × (is_stage next Stage.published ≡ true → is_final (key_of d) ≡ true)
    × (is_stage next Stage.published ≡ false → d ≡ none)

moved-is_sound :
    (now : ℕ) (next : Stage) (notes : Option String) (actor : Actor) (d : Option Publication)
    (r : Release)
    → Checked next r actor d
    → is_sound r ≡ true
    → is_sound (moved now next notes actor d r) ≡ true
unfolding allowed_transitions is_sound any
moved-is_sound now Stage.uploaded notes actor d r c t = let e : d ≡ none = c.3 refl in rw (e) refl
moved-is_sound now Stage.quarantined notes actor d r c t =
    let e : d ≡ none = c.3 refl in rw (e) refl
moved-is_sound now Stage.validating notes actor d r c t = let e : d ≡ none = c.3 refl in rw (e) refl
moved-is_sound now Stage.validated notes actor d r c t = let e : d ≡ none = c.3 refl in rw (e) refl
moved-is_sound now Stage.awaiting_review notes actor d r c t =
    let e : d ≡ none = c.3 refl in rw (e) refl
moved-is_sound now Stage.rejected notes actor d r c t = let e : d ≡ none = c.3 refl in rw (e) refl
moved-is_sound now Stage.approved notes actor d r c t =
    let e : d ≡ none = c.3 refl in let x = c.1 refl in rw (e) (ground arith)
moved-is_sound now Stage.published notes actor none r c t = absurd (ground arith)
moved-is_sound now Stage.published notes actor (some p) r c t = ground arith
moved-is_sound now Stage.deprecated notes actor d r c t =
    let e : d ≡ none = c.3 refl in rw (e) (ground arith)
moved-is_sound now Stage.blocked notes actor d r c t =
    let e : d ≡ none = c.3 refl in rw (e) (ground arith)
moved-is_sound now Stage.retired notes actor d r c t =
    let e : d ≡ none = c.3 refl in rw (e) (ground arith)

check_transition-allowed :
    (site : Site) (r : Release) (o : Offer) (p : Publisher) (next : Stage) (notes : Option String)
    (actor : Actor) (assessment a : Option Assessment) (cat : Catalogue)
    → check_transition site r o p next notes actor assessment cat ≡ ok a
    → (one_of (allowed_transitions r.status) next ≡ true)
      × ((if is_decision next then check_separation site r actor else ok tt) ≡ ok tt)
unfolding check_transition
check_transition-allowed site r o p next notes actor assessment a cat h =
    let (_, _, h1) =
      >>=-eq-ok (require_publisher_role cat.members o.publisher_id actor (required_role next)) _
        h in
    let (_, allowed, h2) =
      >>=-eq-ok (throw_if (not (one_of (allowed_transitions r.status) next)) conflict) _ h1 in
    let (_, _, h3) =
      >>=-eq-ok (throw_if (is_decision next && not (is_some (written notes))) bad_request) _ h2 in
    let (_, _, h4) = >>=-eq-ok (judged assessment next) _ h3 in
    let (_, _, h5) =
      >>=-eq-ok (throw_if (is_withdrawal next && not (is_some (written notes))) bad_request) _ h4 in
    let (_, separated, _) =
      >>=-eq-ok (if is_decision next then check_separation site r actor else ok tt) _ h5 in
    (ground arith, separated)

check_separation-differ :
    (site : Site) (r : Release) (actor : Actor)
    → review_separation_required site ≡ true
    → check_separation site r actor ≡ ok tt
    → differ r.uploaded_by actor.user_id ≡ true
unfolding check_separation
check_separation-differ site r actor s h = ground arith

prepare_publication-final :
    (site : Site) (r : Release) (o : Offer) (p : Publisher) (cat : Catalogue) (d : Publication)
    → prepare_publication site r o p cat ≡ ok d
    → is_final (some d.storage_key) ≡ true
unfolding prepare_publication
prepare_publication-final site r o p cat d h =
    let (_, _, h1) =
      >>=-eq-ok (throw_if (not (is_ready (publication_checklist site r o p cat))) conflict) _ h in
    let (_, _, h2) = >>=-eq-ok (throw_if (not (is_some r.package_storage_key)) conflict) _ h1 in
    let (checksum, _, h3) = >>=-eq-ok (require r.package_checksum conflict) _ h2 in
    let (_, _, h4) =
      >>=-eq-ok (if is_declarative o.runtime then assert_dependency_graph o r cat else ok tt) _
        h3 in
    let (signed, _, h5) = >>=-eq-ok (sign_for_publication site r o cat) _ h4 in
    let (_, _, h6) = >>=-eq-ok (site.store_final r (final_key r checksum)) _ h5 in
    let e : final_key r checksum ≡ d.storage_key = cc in ap (λ k. is_final (some k)) (sym e)

publication_if-key :
    (site : Site) (r : Release) (o : Offer) (p : Publisher) (next : Stage) (cat : Catalogue)
    (d : Option Publication)
    → publication_if site r o p next cat ≡ ok d
    → (is_stage next Stage.published ≡ true → is_final (key_of d) ≡ true)
      × (is_stage next Stage.published ≡ false → d ≡ none)
publication_if-key site r o p next cat d h = (
  λ t.
      let (done, made, same) = >>=-eq-ok (prepare_publication site r o p cat) _ (rw (t) at h) in
      let e : some done ≡ d = cc in
      ap (λ x. is_final (key_of x)) (sym e) ∙ prepare_publication-final site r o p cat done made,
  λ f. ground arith,
)

pub find_release-row :
    (id : String) (cat : Catalogue) (x : Release × Offer × Publisher)
    → find_release id cat ≡ ok x
    → row_of id cat.releases ≡ some x.0
unfolding find_release
find_release-row id cat x h =
    let (r, found, h1) = >>=-eq-ok (require (row_of id cat.releases) not_found) _ h in
    let (o, _, h2) =
      >>=-eq-ok (require (find (λ o. str_eq o.id r.extension_id) cat.offers) not_found) _ h1 in
    let (p, _, h3) =
      >>=-eq-ok (require (find (λ p. str_eq p.id o.publisher_id) cat.publishers) not_found) _ h2 in
    let e : r ≡ x.0 = cc in require_row (row_of id cat.releases) r found ∙ ap some e
  where
    require_row : (o : Option Release) (r : Release) → require o not_found ≡ ok r → o ≡ some r
    require_row none r e = cc
    require_row (some y) r e = cc

module _ (site : Site) (required : review_separation_required site ≡ true) where
  pub transition-is_sound :
      (now : ℕ) (id : String) (next : Stage) (notes : Option String) (actor : Actor)
      (assessment : Option Assessment) (cat cat' : Catalogue)
      → transition site now id next notes actor assessment cat ≡ ok cat'
      → all is_sound cat.releases ≡ true
      → all is_sound cat'.releases ≡ true
  unfolding transition after_transition
  transition-is_sound now id next notes actor assessment cat cat' h t =
      let ((r, o, p), found, h1) = >>=-eq-ok (find_release id cat) _ h in
      elim (Bool-cases (is_stage r.status next)) [
        | inl same ↦ let e : cat ≡ cat' = cc in subst (λ c. all is_sound c.releases ≡ true) e t
        | inr other ↦
            let (a, checked, h2) =
              >>=-eq-ok (check_transition site r o p next notes actor assessment cat) _
                (rw (other) at h1) in
            let (d, done, h3) = >>=-eq-ok (publication_if site r o p next cat) _ h2 in
            let (allowed, separated) =
              check_transition-allowed site r o p next notes actor assessment a cat checked in
            let (stored, nothing) = publication_if-key site r o p next cat d done in
            let reviewed : is_decision next ≡ true → differ r.uploaded_by actor.user_id ≡ true =
              λ y. check_separation-differ site r actor required (rw (y) at separated) in
            let e : after_transition now id r next notes actor a d cat ≡ cat' = cc in
            subst (λ c. all is_sound c.releases ≡ true) e
              (update_first-all is_sound (λ x. str_eq x.id id) (moved now next notes actor d)
                cat.releases
                (λ x y q.
                  let same : x ≡ r = cc (find_release-row id cat (r, o, p) found) in
                  moved-is_sound now next notes actor d x
                    (subst (λ z. Checked next z actor d) (sym same)
                      (allowed, reviewed, stored, nothing))
                    q)
                t)
      ]

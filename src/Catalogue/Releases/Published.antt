-- ===== src/Catalogue/Releases/Published.antt =====
-- What stands behind a release that is published.
use wattanman.Base.{
  ℕ, String, Bool, true, false, not, ◌&&◌, ◌≡◌, ◌⊎◌, Option, [], ◌∷◌, all, any, find, is_ok, All,
  arith, ok, >>=-eq-ok, throw_if, conflict,
}
use wattanman.Extensions.Types.{is_declarative}
use wattanman.Catalogue.Members.{Actor}
use wattanman.Catalogue.Types.{
  Stage, is_stage, Release, Offer, Publisher, Assessment, Catalogue, is_active_publisher,
}
use wattanman.Catalogue.Graph.{graph_of, assert_dependency_graph}
use wattanman.Catalogue.Graph.Cycles.{Reaches}
use wattanman.Catalogue.Graph.Accepted.{Meets, assert_dependency_graph_iff}
use wattanman.Catalogue.Releases.{
  Site, Publication, publication_checklist, is_ready, is_passed, is_approval, passed_review,
  is_compatible, passes_dependencies, prepare_publication, check_transition,
}
use wattanman.Catalogue.Releases.Transitions.{find_release, publication_if, transition}

-- Whether the release was validated and reviewed with favour, fits the platform and has an active publisher.
abbrev pub is_backed : Site → Release → Publisher → Catalogue → Bool
is_backed site r p cat =
    any (is_passed r.id) cat.validations
    && passed_review (find (is_approval r.id) cat.reviews)
    && is_compatible site.platform r.compatibility_range
    && is_active_publisher p.status

ready_items :
    (a b c d e f g h i j : Bool)
    → is_ready (a ∷ b ∷ c ∷ d ∷ e ∷ f ∷ g ∷ h ∷ i ∷ j ∷ []) ≡ true
    → (a ≡ true) × ((b && c && g && h) ≡ true) × (j ≡ true)
unfolding all
ready_items a b c d e f g h i j t = (ground arith, ground arith, ground arith)

ready_backed :
    (site : Site) (r : Release) (o : Offer) (p : Publisher) (cat : Catalogue)
    → is_ready (publication_checklist site r o p cat) ≡ true
    → (is_stage r.status Stage.approved ≡ true)
      × (is_backed site r p cat ≡ true)
      × (passes_dependencies o r cat ≡ true)
unfolding publication_checklist
ready_backed site r o p cat h = ready_items _ _ _ _ _ _ _ _ _ _ h

prepare_publication-ready :
    (site : Site) (r : Release) (o : Offer) (p : Publisher) (cat : Catalogue) (d : Publication)
    → prepare_publication site r o p cat ≡ ok d
    → is_ready (publication_checklist site r o p cat) ≡ true
unfolding prepare_publication
prepare_publication-ready site r o p cat d h =
    let (_, ready, _) =
      >>=-eq-ok (throw_if (not (is_ready (publication_checklist site r o p cat))) conflict) _ h in
    ground arith

transition-ready :
    (site : Site) (now : ℕ) (id : String) (notes : Option String) (actor : Actor)
    (assessment : Option Assessment) (r : Release) (o : Offer) (p : Publisher)
    (cat cat' : Catalogue)
    → find_release id cat ≡ ok (r, o, p)
    → is_stage r.status Stage.published ≡ false
    → transition site now id Stage.published notes actor assessment cat ≡ ok cat'
    → is_ready (publication_checklist site r o p cat) ≡ true
unfolding transition
transition-ready site now id notes actor assessment r o p cat cat' found other h =
    let (a, _, h1) =
      >>=-eq-ok (check_transition site r o p Stage.published notes actor assessment cat) _
        (rw (found, other) at h) in
    let (d, done, _) = >>=-eq-ok (publication_if site r o p Stage.published cat) _ h1 in
    let (x, made, _) = >>=-eq-ok (prepare_publication site r o p cat) _ done in
    prepare_publication-ready site r o p cat x made

-- Where a release of a declarative module becomes published, it was approved, has passed a validation and a
-- favourable review, fits the platform and has an active publisher; its dependencies are met by the
-- published modules, and no module that it leads to, nor itself, depends on itself.
pub transition-published :
    (site : Site) (now : ℕ) (id : String) (notes : Option String) (actor : Actor)
    (assessment : Option Assessment) (r : Release) (o : Offer) (p : Publisher)
    (cat cat' : Catalogue)
    → find_release id cat ≡ ok (r, o, p)
    → is_stage r.status Stage.published ≡ false
    → is_declarative o.runtime ≡ true
    → transition site now id Stage.published notes actor assessment cat ≡ ok cat'
    → (is_stage r.status Stage.approved ≡ true)
      × (is_backed site r p cat ≡ true)
      × All (Meets (graph_of o r cat)) r.dependencies
      × ((k : String)
          → (o.key ≡ k) ⊎ Reaches (graph_of o r cat) o.key k
          → ¬ Reaches (graph_of o r cat) k k)
transition-published site now id notes actor assessment r o p cat cat' found other declared h =
    let ready = transition-ready site now id notes actor assessment r o p cat cat' found other h in
    let (approved, backed, passes) = ready_backed site r o p cat ready in
    let accepted : is_ok (assert_dependency_graph o r cat) ≡ true = rw (declared) at passes in
    let (met, acyclic) = (assert_dependency_graph_iff o r cat).0 accepted in
    (approved, backed, met, acyclic)

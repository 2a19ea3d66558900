-- ===== src/Examples/Publication.antt =====
-- A release that is approved and becomes published.
use wattanman.Base.{
  String, Bool, true, false, ◌≡◌, ◌⊎◌, refl, Option, none, some, List, [], ◌∷◌, All, ok, find,
}
use wattanman.Catalogue.Types.{
  Stage, is_stage, Release, Area, ReviewAction, Publisher, Standing, Verification, Catalogue,
}
use wattanman.Catalogue.Graph.{graph_of}
use wattanman.Catalogue.Graph.Cycles.{Reaches}
use wattanman.Catalogue.Graph.Accepted.{Meets}
use wattanman.Catalogue.Releases.{Publication}
use wattanman.Catalogue.Releases.Transitions.{after_transition}
use wattanman.Catalogue.Releases.Published.{is_backed, transition-published}
use wattanman.Examples.Catalogue.{
  ann, shop, site, good, waiting, loans_release, on_loans, library_offer,
}

abbrev approved : Release
approved = record waiting { status = Stage.approved; reviewed_by = some "rob" }

abbrev approved_shop : Catalogue
approved_shop = record shop {
  releases = approved ∷ loans_release ∷ [];
  reviews =
      record {
        release_id = "r1";
        action = ReviewAction.approved;
        assessment = some good;
        actor_id = some "rob";
      }
      ∷ [];
}

abbrev house : Publisher
house = record {
  id = "p1";
  status = Standing.active;
  internal = true;
  verification = Verification.pending;
}

abbrev publication : Publication
publication = record {
  storage_key = record {
    area = Area.final;
    extension_id = "e1";
    release_id = "r1";
    checksum = "abc";
  };
  signing_key_id = "k1";
  signature = "sig";
}

transition-published_example :
    (is_stage Stage.approved Stage.approved ≡ true)
    × (is_backed site approved house approved_shop ≡ true)
    × All (Meets (graph_of library_offer approved approved_shop)) (on_loans ∷ [])
    × ((k : String)
        → ("library" ≡ k) ⊎ Reaches (graph_of library_offer approved approved_shop) "library" k
        → ¬ Reaches (graph_of library_offer approved approved_shop) k k)
unfolding wattanman.Catalogue.Releases.Transitions.transition
    wattanman.Catalogue.Releases.Transitions.find_release find
    wattanman.Catalogue.Releases.check_transition wattanman.Catalogue.Members.require_publisher_role
    wattanman.Base.any wattanman.Base.all wattanman.Catalogue.Releases.allowed_transitions
    wattanman.Catalogue.Releases.prepare_publication
    wattanman.Catalogue.Releases.publication_checklist
    wattanman.Catalogue.Releases.sign_for_publication wattanman.Catalogue.Releases.configured_key
    wattanman.Catalogue.Releases.review_separation_required
    wattanman.Catalogue.Graph.assert_dependency_graph wattanman.Catalogue.Graph.check_targets
    graph_of wattanman.Catalogue.Graph.nodes_of wattanman.Catalogue.Graph.latest_published
    wattanman.Catalogue.Graph.targets wattanman.Catalogue.Graph.visit
    wattanman.Catalogue.Graph.visit_all wattanman.Extensions.Ranges.version_matches
    wattanman.Extensions.Ranges.comparison
transition-published_example =
    transition-published site 20 "r1" none ann none approved library_offer house approved_shop
      (after_transition 20 "r1" approved Stage.published none ann none (some publication)
        approved_shop)
      refl refl refl refl

-- ===== src/Catalogue/Graph/Accepted.antt =====
-- What a release needs of the published modules to be accepted.
use wattanman.Base.{
  String, true, ◌≡◌, ◌↔◌, refl, ◌⊎◌, inl, inr, none, some, List, [], ◌∷◌, is_empty, is_some, is_ok,
  find, All, arith, Option-cases, Bool-cases, eq_refl,
}
use wattanman.Extensions.Types.{Dependency}
use wattanman.Extensions.Ranges.{version_matches}
use wattanman.Catalogue.Types.{Catalogue, Release, Offer}
use wattanman.Catalogue.Graph.{
  Node, get, graph_of, check_target, check_targets, assert_dependency_graph,
}
use wattanman.Catalogue.Graph.Cycles.{Reaches}
use wattanman.Catalogue.Graph.Fuel.{search_cycle_iff}

-- The graph has no module of the key and the dependency is optional, or it has one whose version is in
-- the range, where there is one.
abbrev pub Meets : List Node → Dependency → Type 0
Meets g d =
    ((get g d.key ≡ none) × (d.optional ≡ true))
    ⊎ ((n : Node) × (get g d.key ≡ some n)
        × ((is_empty d.version_range ≡ true) ⊎ (version_matches n.number d.version_range ≡ true)))

check_target_iff :
    (g : List Node) (d : Dependency) → (is_ok (check_target d (get g d.key)) ≡ true) ↔ Meets g d
check_target_iff g d = elim (Option-cases (get g d.key)) [
  | inl e ↦ (
    λ t. inl (e, ground arith),
    λ m. elim m [ inl (e', o) ↦ ground arith | inr (n, e', q) ↦ absurd (ground arith) ],
  )
  | inr (n, e) ↦ (
    λ t. inr (
      n,
      e,
      elim (Bool-cases (is_empty d.version_range)) [ inl y ↦ inl y | inr y ↦ inr (ground arith) ],
    ),
    λ m. elim m [
      | inl (e', o) ↦ absurd (ground arith)
      | inr (n', e', q) ↦
          let same : n ≡ n' = cc in
          elim q [ inl y ↦ ground arith | inr y ↦ rw (e, same) (ground arith) ]
    ],
  )
]

check_targets_iff :
    (g : List Node) (ds : List Dependency) → (is_ok (check_targets g ds) ≡ true) ↔ All (Meets g) ds
unfolding check_targets
check_targets_iff g [] = (λ t. tt, λ t. refl)
check_targets_iff g (d ∷ ds) =
    let (to, from) = check_target_iff g d in
    let (tos, froms) = check_targets_iff g ds in
    (
      λ t. (to (ground arith), tos (ground arith)),
      λ m. let a = from m.0 in let b = froms m.1 in ground arith,
    )

has_candidate :
    (offer : Offer) (candidate : Release) (cat : Catalogue)
    → is_some (get (graph_of offer candidate cat) offer.key) ≡ true
unfolding graph_of find
has_candidate offer candidate cat = ground (arith, eq_refl offer.key)

-- A release is accepted if and only if each of its dependencies is met by the published modules, and no
-- module that it leads to, nor itself, depends on itself.
pub assert_dependency_graph_iff :
    (offer : Offer) (candidate : Release) (cat : Catalogue)
    → (is_ok (assert_dependency_graph offer candidate cat) ≡ true) ↔ (
        All (Meets (graph_of offer candidate cat)) candidate.dependencies
        × ((k : String)
            → (offer.key ≡ k) ⊎ Reaches (graph_of offer candidate cat) offer.key k
            → ¬ Reaches (graph_of offer candidate cat) k k))
unfolding assert_dependency_graph
assert_dependency_graph_iff offer candidate cat =
    let g = graph_of offer candidate cat in
    let (to, from) = check_targets_iff g candidate.dependencies in
    let (cycles, none_) = search_cycle_iff g offer.key (has_candidate offer candidate cat) in
    (
      λ t. (to (ground arith), cycles (ground arith)),
      λ m. let a = from m.0 in let b = none_ m.1 in ground arith,
    )

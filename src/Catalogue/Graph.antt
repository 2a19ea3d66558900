-- ===== src/Catalogue/Graph.antt =====
-- `assertDependencyGraph` of backend/src/platform/extensions.service.ts: the published declarative modules
-- with the candidate, what the candidate requires of them, and the search for a cycle. The search takes
-- fuel; one more than the number of keys is enough. The set of the keys that are being visited is the
-- path to the one at hand, since a key is deleted where its visit ends.
pub mod Cycles
pub mod Pigeonhole
pub mod Fuel
pub mod Accepted
use wattanman.Base.{
  ℕ, zero, suc, ◌+◌, String, Bool, true, false, not, ◌&&◌, ◌||◌, Option, none, some, List, [], ◌∷◌,
  map, str_eq, is_empty, leb, or_else, length, if◌then◌else◌, find, includes, Result, ok, err,
  conflict, throw_if, ◌>>=◌, ◌>>◌, is_some,
}
use wattanman.Extensions.Types.{Semver, Dependency, is_declarative}
use wattanman.Extensions.Ranges.{version_matches}
use wattanman.Catalogue.Types.{Catalogue, Release, Offer, Stage, is_stage, is_active_offer}

pub record Node : Type 0 where
  pub key : String
  pub number : Semver
  pub dependencies : List Dependency

-- Of two published versions, the one that was published later.
abbrev newer : Release → Option Release → Release
newer r none = r
newer r (some other) =
    if leb (or_else other.published_at 0) (or_else r.published_at 0) then r else other

-- `where: { lifecycleStatus: "PUBLISHED" }, orderBy: { publishedAt: "desc" }, take: 1`
unfoldable pub latest_published : String → List Release → Option Release
latest_published extension [] = none
latest_published extension (r ∷ rs) =
    let rest = latest_published extension rs in
    if str_eq r.extension_id extension && is_stage Stage.published r.status
    then some (newer r rest)
    else rest

abbrev pub node_of : Offer → Release → Node
node_of o r = record { key = o.key; number = r.number; dependencies = r.dependencies }

abbrev with_node : Offer → Option Release → List Node → List Node
with_node o none nodes = nodes
with_node o (some r) nodes = node_of o r ∷ nodes

-- The extension of the candidate counts with the candidate.
unfoldable pub nodes_of : Release → List Release → List Offer → List Node
nodes_of candidate releases [] = []
nodes_of candidate releases (o ∷ os) =
    let rest = nodes_of candidate releases os in
    if is_declarative o.runtime && is_active_offer o.status
    then with_node o
        (if str_eq o.id candidate.extension_id
          then some candidate
          else latest_published o.id releases)
        rest
    else rest

-- The candidate's node is set last, and so is the one that its key finds.
unfoldable pub graph_of : Offer → Release → Catalogue → List Node
graph_of offer candidate cat = node_of offer candidate ∷ nodes_of candidate cat.releases cat.offers

abbrev pub is_key : String → Node → Bool
is_key key n = str_eq n.key key

abbrev pub get : List Node → String → Option Node
get g key = find (is_key key) g

abbrev keys_of : List Dependency → List String
keys_of ds = map (λ d. d.key) ds

abbrev keys_of_node : Option Node → List String
keys_of_node none = []
keys_of_node (some n) = keys_of n.dependencies

-- `graph.get(key)?.manifest?.dependencies || []`
unfoldable pub targets : List Node → String → List String
targets g key = keys_of_node (get g key)

pub data Walk : Type 0 where
  stuck cycle : Walk
  done : (visited : List String) → Walk

abbrev pub then_ : Walk → (List String → Walk) → Walk
then_ stuck next = stuck
then_ cycle next = cycle
then_ (done visited) next = next visited

-- The targets that the graph has, one after another.
unfoldable pub visit_all :
    (String → List String → Walk) → List Node → List String → List String → Walk
visit_all step g [] visited = done visited
visit_all step g (d ∷ ds) visited = elim (is_some (get g d)) [
  | true ↦ then_ (step d visited) (visit_all step g ds)
  | false ↦ visit_all step g ds visited
]

abbrev pub mark : String → List String → Walk
mark key visited = done (key ∷ visited)

unfoldable pub visit : ℕ → List Node → List String → String → List String → Walk
visit zero g visiting key visited = stuck
visit (suc fuel) g visiting key visited = elim (includes visiting key) [
  | true ↦ cycle
  | false ↦ elim (includes visited key) [
    | true ↦ done visited
    | false ↦ then_ (visit_all (visit fuel g (key ∷ visiting)) g (targets g key) visited) (mark key)
  ]
]

-- The search from the candidate.
abbrev pub search_cycle : List Node → String → Walk
search_cycle g key = visit (length g + 1) g [] key []

abbrev pub is_done : Walk → Bool
is_done (done visited) = true
is_done _ = false

abbrev check_target : Dependency → Option Node → Result (Unit {0})
check_target d none = if d.optional then ok tt else err conflict
check_target d (some n) =
    throw_if (not (is_empty d.version_range) && not (version_matches n.number d.version_range))
      conflict

unfoldable pub check_targets : List Node → List Dependency → Result (Unit {0})
check_targets g [] = ok tt
check_targets g (d ∷ ds) = do check_target d (get g d.key); check_targets g ds

unfoldable pub assert_dependency_graph : Offer → Release → Catalogue → Result (Unit {0})
assert_dependency_graph offer candidate cat = do
  check_targets (graph_of offer candidate cat) candidate.dependencies
  throw_if (not (is_done (search_cycle (graph_of offer candidate cat) offer.key))) conflict

-- ===== src/Extensions/Dependencies.antt =====
-- `permissionReview`, `resolveDependencies` and `assertDependencies` of
-- backend/src/platform/extension-installations.service.ts.
pub mod Review
pub mod Satisfied
use wattanman.Base.{
  String, Bool, true, false, not, ◌&&◌, ◌||◌, Option, none, some, List, [], ◌∷◌, map, str_eq,
  is_empty, if◌then◌else◌, filter, find, includes, Result, conflict, throw_if, ◌>>=◌, ◌>>◌, any,
}
use wattanman.Base.Table.{Table}
use wattanman.Extensions.Types.{Loaded, Version, Dependency}
use wattanman.Extensions.Ranges.{version_matches}

pub record PermissionReview : Type 0 where
  pub requested : List String
  pub added : List String
  pub removed : List String

unfoldable pub permission_review : Version → Version → PermissionReview
permission_review current target = record {
  requested = target.permissions;
  added = filter (λ p. not (includes current.permissions p)) target.permissions;
  removed = filter (λ p. not (includes target.permissions p)) current.permissions;
}

pub data Status : Type 0 where
  missing incompatible satisfied : Status

pub record Resolved : Type 0 where
  pub dependency : Dependency
  pub status : Status

pub record DependencyReview : Type 0 where
  pub dependencies : List Resolved
  pub conflicts : List String

-- `id: { not: excluded }`, where an installation is left out.
abbrev is_excluded : Option String → String → Bool
is_excluded none id = false
is_excluded (some excluded) id = str_eq id excluded

-- The enabled installations of the school, without the excluded one.
abbrev pub is_peer : String → Option String → Loaded → Bool
is_peer school_id excluded l =
    str_eq l.row.school_id school_id && l.row.enabled && not (is_excluded excluded l.row.id)

-- `active.get(key)`: of two installations with one key, the map holds the later.
unfoldable pub get_active : String → List Loaded → Option Loaded
get_active key [] = none
get_active key (l ∷ ls) = elim (get_active key ls) [
  | some later ↦ some later
  | none ↦ if str_eq l.extension.key key then some l else none
]

abbrev status_of : Dependency → Option Loaded → Status
status_of d none = missing
status_of d (some l) =
    if not (is_empty d.version_range) && not (version_matches l.version.number d.version_range)
    then incompatible
    else satisfied

unfoldable pub resolve : List Loaded → Dependency → Resolved
resolve installations d = record {
  dependency = d;
  status = status_of d (get_active d.key installations);
}

-- Either side declares the other.
abbrev pub conflicts_with : String → Version → Loaded → Bool
conflicts_with extension_key version l =
    includes version.conflicts l.extension.key || includes l.version.conflicts extension_key

unfoldable pub resolve_dependencies :
    Table Loaded → String → String → Version → Option String → DependencyReview
resolve_dependencies table school_id extension_key version excluded =
    let installations = table.find_many (is_peer school_id excluded) in
    record {
      dependencies = map (resolve installations) version.dependencies;
      conflicts =
          map (λ l. l.extension.key) (filter (conflicts_with extension_key version) installations);
    }

abbrev is_satisfied : Status → Bool
is_satisfied satisfied = true
is_satisfied _ = false

abbrev pub is_missing : Resolved → Bool
is_missing r = not r.dependency.optional && not (is_satisfied r.status)

unfoldable pub assert_dependencies :
    Table Loaded → String → String → Version → Option String → Result (Unit {0})
assert_dependencies table school_id extension_key version excluded =
    let review = resolve_dependencies table school_id extension_key version excluded in
    throw_if (not (is_empty (filter is_missing review.dependencies))) conflict
    >> throw_if (not (is_empty review.conflicts)) conflict

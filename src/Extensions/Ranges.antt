-- ===== src/Extensions/Ranges.antt =====
-- `versionMatches` and `assertPlatformCompatibility` of
-- backend/src/platform/extension-installations.service.ts, on versions and ranges that the package
-- validator has accepted: three numbers, and comparators that each have an operator.
pub mod Order
use Prim.Native.Nat.{compare, Ordering}
use wattanman.Base.{
  ℕ, Bool, true, false, not, List, is_empty, all, if◌then◌else◌, Result, conflict, throw_if, ◌&&◌,
}
use wattanman.Extensions.Types.{Semver, Operator, ge, gt, le, lt, Comparator}

-- `a - b || rest`, as the sign of the difference.
abbrev or_compare : Ordering → Ordering → Ordering
or_compare Ordering.eq rest = rest
or_compare decided rest = decided

unfoldable pub comparison : Semver → Semver → Ordering
comparison a b =
    or_compare (compare a.major b.major)
      (or_compare (compare a.minor b.minor) (compare a.patch b.patch))

abbrev pub judge : Operator → Ordering → Bool
judge ge Ordering.lt = false
judge ge decided = true
judge gt Ordering.gt = true
judge gt decided = false
judge le Ordering.gt = false
judge le decided = true
judge lt Ordering.lt = true
judge lt decided = false

unfoldable pub version_matches : Semver → List Comparator → Bool
unfolding comparison all
version_matches version range = all (λ c. judge c.operator (comparison version c.target)) range

-- An empty range is no restriction.
unfoldable pub assert_platform_compatibility : Semver → List Comparator → Result (Unit {0})
assert_platform_compatibility platform range =
    throw_if (not (is_empty range) && not (version_matches platform range)) conflict

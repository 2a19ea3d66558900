-- ===== src/Extensions/Ranges/Order.antt =====
-- The comparison of versions is the lexicographic order, and a range is an interval of it.
use mathlib.Core.Bool.{and-eq-true_iff}
use wattanman.Base.{◌<◌, ◌≡◌, refl, ◌↔◌, ◌⊎◌, true, List, [], ◌∷◌, arith, All}
use wattanman.Extensions.Types.{Semver, Operator, ge, gt, le, lt, Comparator}
use wattanman.Extensions.Ranges.{comparison, judge, version_matches}

-- The order of versions, independently of the code.
abbrev pub Before : Semver → Semver → Type 0
Before a b =
    (a.major < b.major)
    ⊎ ((a.major ≡ b.major) × (a.minor < b.minor))
    ⊎ ((a.major ≡ b.major) × (a.minor ≡ b.minor) × (a.patch < b.patch))

abbrev MeetsOp : Operator → Semver → Semver → Type 0
MeetsOp ge v t = ¬ Before v t
MeetsOp gt v t = Before t v
MeetsOp le v t = ¬ Before t v
MeetsOp lt v t = Before v t

abbrev pub Meets : Semver → Comparator → Type 0
Meets v c = MeetsOp c.operator v c.target

judge-comparison : (o : Operator) (v t : Semver) → (judge o (comparison v t) ≡ true) ↔ MeetsOp o v t
unfolding comparison
judge-comparison ge v t = ground arith
judge-comparison gt v t = ground arith
judge-comparison le v t = ground arith
judge-comparison lt v t = ground arith

-- A version matches a range exactly when it meets each comparator in the order of versions.
pub version_matches_iff :
    (v : Semver) (range : List Comparator) → (version_matches v range ≡ true) ↔ All (Meets v) range
unfolding version_matches
version_matches_iff v [] = (λ h. tt, λ h. refl)
version_matches_iff v (c ∷ range) =
    let (to, from) = judge-comparison c.operator v c.target in
    let (to', from') = version_matches_iff v range in
    (
      λ h. let (p, q) = (and-eq-true_iff _ _).0 h in (to p, to' q),
      λ (p, q). (and-eq-true_iff _ _).1 (from p, from' q),
    )

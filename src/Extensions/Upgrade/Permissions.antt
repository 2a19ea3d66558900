-- ===== src/Extensions/Upgrade/Permissions.antt =====
-- What an accepted upgrade tells of the version that it moves to.
use mathlib.Core.Path.{subst}
use wattanman.Base.{
  ap, ◌∙◌, String, Bool, true, false, some, In, empty-In, ◌≡◌, sym, is_some, is_empty, arith,
  includes, includes-In, In-includes, ok, inl, inr, Option-cases, Bool-cases,
}
use wattanman.Extensions.Types.{Loaded, Version}
use wattanman.Extensions.Dependencies.{permission_review}
use wattanman.Extensions.Dependencies.Review.{permission_review_iff}
use wattanman.Extensions.Lifecycle.{Context, is_release, admit_version}
use wattanman.Extensions.Lifecycle.Effects.{Admitted, admit_version-Admitted}
use wattanman.Extensions.Upgrade.{Plan, plan_upgrade}

-- A review that adds nothing leaves the target no permission that the current version lacks.
no_added :
    (current target : Version)
    → is_empty (permission_review current target).added ≡ true
    → (s : String) → In s target.permissions
    → In s current.permissions
no_added current target h s m = elim (Bool-cases (includes current.permissions s)) [
  | inl t ↦ includes-In current.permissions s t
  | inr f ↦ absurd (
      empty-In (permission_review current target).added s h (
        (permission_review_iff current target s).0.1
          (m, λ held. let t = In-includes current.permissions s held in ground arith)))
]

plan_upgrade-cases :
    (c : Context) (id : String) (acknowledged : Bool) (l : Loaded) (plan : Plan)
    → plan_upgrade c id acknowledged l ≡ ok (some plan)
    → (version : Version) × (c.versions.find_first (is_release id l.row.extension_id)
        ≡ some version)
      × (admit_version c l version (some l.row.id) ≡ ok tt)
      × (is_some l.row.installed_at ≡ true)
      × (acknowledged ≡ false → is_empty (permission_review l.version version).added ≡ true)
      × (plan.version ≡ version)
unfolding plan_upgrade
plan_upgrade-cases c id acknowledged l plan h =
    elim (Option-cases (c.versions.find_first (is_release id l.row.extension_id))) [
      | inl n ↦ absurd (ground arith)
      | inr (version, found) ↦
          (version, found, ground arith, ground arith, λ a. ground arith, ground arith)
    ]

-- An upgrade that goes on to write was of a row that has the time of an installation, to a published version of the extension
-- that is admitted as for an installation; unless it was acknowledged, that version has no
-- permission that the current one lacks.
pub plan_upgrade-Admitted :
    (c : Context) (id : String) (acknowledged : Bool) (l : Loaded) (plan : Plan)
    → plan_upgrade c id acknowledged l ≡ ok (some plan)
    → Admitted c l (some l.row.id) plan.version
      × (plan.version.id ≡ id)
      × (is_some l.row.installed_at ≡ true)
      × (acknowledged ≡ false
          → (s : String) → In s plan.version.permissions
          → In s l.version.permissions)
plan_upgrade-Admitted c id acknowledged l plan h =
    let (version, found, admitted, was_installed, nothing_added, same) =
      plan_upgrade-cases c id acknowledged l plan h in
    let (a, e) = admit_version-Admitted c l version id (some l.row.id) found admitted in
    (
      subst (Admitted c l (some l.row.id)) (sym same) a,
      ap Version.id same ∙ e,
      was_installed,
      λ n s m.
          no_added l.version version (nothing_added n) s
            (subst (λ (v : Version). In s v.permissions) same m),
    )

-- ===== src/Extensions/Lifecycle/Effects.antt =====
-- What an accepted command tells of the installation it was given.
use wattanman.Base.{
  String, true, false, not, Option, none, some, In, ◌≡◌, arith, eq_iff, any-none, any, ok, ◌⊎◌, inl,
  inr, Option-cases, Bool-cases, str_eq, ◌&&◌, ◌≢◌,
}
use wattanman.Extensions.Types.{
  State, Dependency, Loaded, Version, Written, is_published, is_core, is_declarative, is_state,
}
use wattanman.Extensions.Ranges.{assert_platform_compatibility}
use wattanman.Extensions.Dependencies.{assert_dependencies}
use wattanman.Extensions.Controls.{KillSwitch, assert_allowed}
use wattanman.Extensions.Controls.Blocking.{Covers, assert_allowed_iff}
use wattanman.Extensions.Lifecycle.{
  Context, install, activate, uninstall, admit_version, is_release, depends_on, is_other,
}
use wattanman.Extensions.Lifecycle.Stored.{lifecycle_state}
use wattanman.Extensions.Lifecycle.Invariant.{activate-cases}

-- What admits a version to an installation.
pub record Admitted (c : Context) (l : Loaded) (excluded : Option String) (version : Version)
    : Type 0 where
  pub uncovered :
      (s : KillSwitch) → In s c.switches.rows → s.active ≡ true → ¬ Covers l version.id none s
  pub of_extension : version.extension_id ≡ l.row.extension_id
  pub is_out : is_published version.status ≡ true
  pub fits : assert_platform_compatibility c.platform version.compatibility_range ≡ ok tt
  pub provided :
      is_declarative l.extension.runtime ≡ true
      → assert_dependencies c.installations l.row.school_id l.extension.key version excluded ≡ ok tt
  pub has_signature : is_core l.extension.runtime ≡ false → c.signed version ≡ ok tt

module _ (c : Context) (l : Loaded) (version : Version) where
  pub admit_version-Admitted :
      (id : String) (excluded : Option String)
      → c.versions.find_first (is_release id l.row.extension_id) ≡ some version
      → admit_version c l version excluded ≡ ok tt
      → Admitted c l excluded version × (version.id ≡ id)
  unfolding admit_version
  admit_version-Admitted id excluded found h =
      let (m, t) = c.versions.find_first_meets (is_release id l.row.extension_id) version found in
      let allowed : assert_allowed c.switches l version.id none ≡ ok tt = ground arith in
      (
        record {
          uncovered = (assert_allowed_iff c.switches l version.id none).0 allowed;
          of_extension = (eq_iff _ _).0 (ground arith);
          is_out = ground arith;
          fits = ground arith;
          provided = λ n. ground arith;
          has_signature = λ n. ground arith;
        },
        (eq_iff _ _).0 (ground arith),
      )

install-cases :
    (c : Context) (id : String) (l : Loaded) (w : Written)
    → install c id (some l) ≡ ok w
    → (w.row ≡ l.row)
      ⊎ ((version : Version) × (c.versions.find_first (is_release id l.row.extension_id)
            ≡ some version)
          × (admit_version c l version none ≡ ok tt)
          × (lifecycle_state l.row ≡ State.approved)
          × (w.row.lifecycle_state ≡ some State.installed)
          × (w.row.installed_version_id ≡ id))
unfolding install
install-cases c id l w h =
    elim (Option-cases (c.versions.find_first (is_release id l.row.extension_id))) [
      | inl n ↦ inl (ground arith)
      | inr (version, found) ↦
          elim (Bool-cases (
            is_state (lifecycle_state l.row) State.installed
            && str_eq l.row.installed_version_id id)) [
              | inl t ↦ inl (ground arith)
              | inr f ↦ inr (version, found, ground arith, ground arith, ground arith, ground arith)
            ]
    ]

-- An accepted installation leaves the row as it was, or moves an approved one to the asked version:
-- a published version of the extension that fits the platform, is signed unless the extension is a
-- core module, and that no active kill switch covers; the check of its dependencies passed where the
-- extension is a declarative module.
pub install-Admitted :
    (c : Context) (id : String) (l : Loaded) (w : Written)
    → install c id (some l) ≡ ok w
    → (w.row ≡ l.row)
      ⊎ ((version : Version) × Admitted c l none version
          × (version.id ≡ id)
          × (lifecycle_state l.row ≡ State.approved)
          × (w.row.lifecycle_state ≡ some State.installed)
          × (w.row.installed_version_id ≡ id))
install-Admitted c id l w h = elim (install-cases c id l w h) [
  | inl same ↦ inl same
  | inr (version, found, admitted, state, new, moved) ↦
      let (a, e) = admit_version-Admitted c l version id none found admitted in
      inr (version, a, e, state, new, moved)
]

-- No activation is accepted while an active kill switch covers the installation at its version,
-- whatever the row's state.
pub activate-uncovered :
    (c : Context) (l : Loaded) (w : Written) (s : KillSwitch)
    → activate c true (some l) ≡ ok w
    → In s c.switches.rows
    → s.active ≡ true
    → ¬ Covers l l.row.installed_version_id none s
activate-uncovered c l w s h m on =
    (assert_allowed_iff c.switches l l.row.installed_version_id none).0 (activate-cases c l w h).0 s
      m on

uninstall-cases :
    (c : Context) (l : Loaded) (w : Written)
    → uninstall c (some l) ≡ ok w
    → (lifecycle_state l.row ≡ State.uninstalled)
      ⊎ (any (depends_on l.extension.key) (c.installations.find_many (is_other l)) ≡ false)
unfolding uninstall
uninstall-cases c l w h = ground arith

-- Where an installation that is not yet uninstalled is, no other installation of the school whose
-- version requires the extension is enabled.
pub uninstall-free :
    (c : Context) (l : Loaded) (w : Written) (other : Loaded) (d : Dependency)
    → uninstall c (some l) ≡ ok w
    → (lifecycle_state l.row ≢ State.uninstalled)
    → In other c.installations.rows
    → other.row.school_id ≡ l.row.school_id
    → other.row.id ≢ l.row.id
    → In d other.version.dependencies
    → d.key ≡ l.extension.key
    → d.optional ≡ false
    → other.row.enabled ≡ false
uninstall-free c l w other d h state m school id md key required = elim (uninstall-cases c l w h) [
  | inl already ↦ absurd (state already)
  | inr free ↦ elim (Bool-cases other.row.enabled) [
    | inr off ↦ off
    | inl on ↦
        let is : is_other l other ≡ true =
          ground
            (arith, eq_iff other.row.school_id l.row.school_id, eq_iff other.row.id l.row.id) in
        let listed = c.installations.find_many_complete (is_other l) other m is in
        let none_depends =
          any-none (depends_on l.extension.key) (c.installations.find_many (is_other l)) free other
            listed in
        let none_named =
          any-none (λ (x : Dependency). str_eq x.key l.extension.key && not x.optional)
            other.version.dependencies none_depends d md in
        ground (arith, eq_iff d.key l.extension.key)
  ]
]

-- ===== src/Extensions/Lifecycle.antt =====
-- The commands on an installation of
-- backend/src/platform/extension-installations.service.ts: `approve`, `setBillingStatus`, `install`,
-- `upgrade`, `setUpdatePolicy`, `setRolloutGroup`, `rollback`, `activate`, `uninstall` and
-- `removeUninstalled`. A command takes the row that `requireInstallation` finds and returns what it
-- writes. `signed` is the check of a version's signature, which another service makes, and `style`
-- the text of its style sheet in the object store.
pub mod Stored
pub mod Invariant
pub mod Reach
pub mod Effects
use wattanman.Base.{
  ℕ, zero, ◌+◌, ◌-◌, ◌*◌, String, Bool, true, false, not, ◌&&◌, ◌||◌, Option, none, some, List, [],
  ◌∷◌, leb, ltb, ◌==◌, str_eq, is_some, is_empty, if◌then◌else◌, any, Result, ok, err, conflict,
  not_found, bad_request, ◌>>=◌, ◌>>◌, throw_if, require, or_else,
}
use wattanman.Base.Table.{Table}
use wattanman.Extensions.Types.{
  State, requested, payment_review, approved, installed, active, uninstalled, Billing, Pricing,
  Runtime, Policy, Group, Semver, Theme, Overrides, Configuration, Version, Extension, Installation,
  Loaded, Action, Audit, Written, unchanged, logged, is_state, is_active_billing, is_free,
  is_invoiced, is_theme, is_declarative, is_core, is_published, is_rollback_target, Dependency,
}
use wattanman.Extensions.Ranges.{assert_platform_compatibility}
use wattanman.Extensions.Controls.{KillSwitch, assert_allowed}
use wattanman.Extensions.Dependencies.{assert_dependencies, permission_review}
use wattanman.Extensions.Themes.{theme_overrides, apply_theme_version, no_overrides}
use Stored.{lifecycle_state}

-- What a command reads besides its installation.
pub record Context : Type 0 where
  pub now : ℕ
  pub platform : Semver
  pub grace_days : ℕ
  pub versions : Table Version
  pub installations : Table Loaded
  pub switches : Table KillSwitch
  pub site : String → Option Theme
  pub signed : Version → Result (Unit {0})
  pub style : Version → String

-- A billing that a paid extension still lacks.
abbrev unpaid : Loaded → Bool
unpaid l = not (is_free l.extension.pricing) && not (is_active_billing l.row.billing_status)

unfoldable pub approve : Context → Option Loaded → Result Written
unfolding lifecycle_state
approve c found = do
  l ← require found not_found
  throw_if (not (is_some l.row.requested_at)) conflict
  let state = lifecycle_state l.row
  if is_state state approved then ok (unchanged l.row) else do
    throw_if (not (is_state state requested || is_state state payment_review)) conflict
    throw_if (unpaid l) conflict
    throw_if (is_invoiced l.extension.pricing && not (is_some l.row.payment_submitted_at)) conflict
    ok (
        logged (record l.row { approved_at = some c.now; lifecycle_state = some approved })
          Action.approve (some state) (some approved))

-- A status that is none of the four is refused.
unfoldable pub set_billing_status : Option Billing → Option Loaded → Result Written
unfolding lifecycle_state
set_billing_status wanted found = do
  status ← require wanted bad_request
  l ← require found not_found
  throw_if (is_free l.extension.pricing) conflict
  throw_if (is_state (lifecycle_state l.row) active && not (is_active_billing status)) conflict
  ok (
      logged (record l.row { billing_status = status }) Action.billing_status
        (some (lifecycle_state l.row)) (some (lifecycle_state l.row)))

-- The published version of the extension with the identifier.
abbrev pub is_release : String → String → Version → Bool
is_release id extension_id v =
    str_eq v.id id && str_eq v.extension_id extension_id && is_published v.status

abbrev pub when : Bool → Result (Unit {0}) → Result (Unit {0})
when true check = check
when false check = ok tt

-- The checks that `install` and `upgrade` make of the version they are given.
unfoldable pub admit_version : Context → Loaded → Version → Option String → Result (Unit {0})
admit_version c l version excluded = do
  assert_allowed c.switches l version.id none
  assert_platform_compatibility c.platform version.compatibility_range
  when (is_declarative l.extension.runtime)
      (assert_dependencies c.installations l.row.school_id l.extension.key version excluded)
  when (not (is_core l.extension.runtime)) (c.signed version)

unfoldable pub install : Context → String → Option Loaded → Result Written
unfolding lifecycle_state
install c version_id found = do
  l ← require found not_found
  let same = str_eq l.row.installed_version_id version_id
  if is_state (lifecycle_state l.row) installed && same then ok (unchanged l.row) else do
    throw_if (not (is_state (lifecycle_state l.row) approved)) conflict
    version ← require (c.versions.find_first (is_release version_id l.row.extension_id)) not_found
    admit_version c l version none
    ok (
        logged
          (record l.row {
            installed_version_id = version_id;
            installed_at = some c.now;
            lifecycle_state = some installed;
            uninstalled_at = none;
            purge_after = none;
          })
          Action.install (some approved) (some installed))

unfoldable pub set_update_policy : Option Policy → Option Loaded → Result Written
set_update_policy wanted found = do
  policy ← require wanted bad_request
  l ← require found not_found
  ok (logged (record l.row { update_policy = policy }) Action.update_policy none none)

unfoldable pub set_rollout_group : Option Group → Option Loaded → Result Written
set_rollout_group wanted found = do
  group ← require wanted bad_request
  l ← require found not_found
  ok (logged (record l.row { rollout_group = group }) Action.rollout_group none none)

-- The checks before an activation.
unfoldable pub admit_activation : Context → Loaded → Result (Unit {0})
admit_activation c l = do
  throw_if (not (is_published l.version.status)) conflict
  throw_if (unpaid l) conflict
  when (is_declarative l.extension.runtime) (
      assert_dependencies c.installations l.row.school_id l.extension.key l.version (some l.row.id))
  when (not (is_core l.extension.runtime)) (c.signed l.version)

abbrev pub activated : Context → Loaded → Written
activated c l =
    if is_theme l.extension.runtime
    then (let theme = record l.version.theme { custom_css = c.style l.version } in
        record (logged
          (record l.row {
            enabled = true;
            lifecycle_state = some active;
            configuration = record l.row.configuration {
              previous_theme = c.site l.row.school_id;
              active_theme_version_id = some l.row.installed_version_id;
              applied_theme = some theme;
              school_overrides = no_overrides;
            };
          })
          Action.activate (some installed) (some active)) { site = some theme })
    else logged (record l.row { enabled = true; lifecycle_state = some active }) Action.activate
        (some installed) (some active)

abbrev pub deactivated : Loaded → Written
deactivated l =
    record (logged (record l.row { enabled = false; lifecycle_state = some installed })
      Action.deactivate (some active) (some installed)) {
        site = if is_theme l.extension.runtime then l.row.configuration.previous_theme else none;
      }

unfoldable pub activate : Context → Bool → Option Loaded → Result Written
unfolding lifecycle_state
activate c true found = do
  l ← require found not_found
  assert_allowed c.switches l l.row.installed_version_id none
  if is_state (lifecycle_state l.row) active then ok (unchanged l.row) else do
    throw_if (not (is_state (lifecycle_state l.row) installed)) conflict
    admit_activation c l
    ok (activated c l)
activate c false found = do
  l ← require found not_found
  if is_state (lifecycle_state l.row) installed
      then ok (unchanged l.row)
      else do throw_if (not (is_state (lifecycle_state l.row) active)) conflict; ok (deactivated l)

-- An enabled installation of the school, other than this one, whose version requires the extension.
abbrev pub depends_on : String → Loaded → Bool
depends_on key l = any (λ d. str_eq d.key key && not d.optional) l.version.dependencies

abbrev pub is_other : Loaded → Loaded → Bool
is_other l other =
    str_eq other.row.school_id l.row.school_id
    && other.row.enabled
    && not (str_eq other.row.id l.row.id)

abbrev pub day_ms : ℕ
day_ms = 24 * 60 * 60 * 1000

unfoldable pub uninstall : Context → Option Loaded → Result Written
unfolding lifecycle_state
uninstall c found = do
  l ← require found not_found
  let state = lifecycle_state l.row
  if is_state state uninstalled then ok (unchanged l.row) else do
    throw_if (not (is_state state installed || is_state state active)) conflict
    throw_if (any (depends_on l.extension.key) (c.installations.find_many (is_other l))) conflict
    ok
        (record (logged
          (record l.row {
            enabled = false;
            uninstalled_at = some c.now;
            purge_after = some (c.now + c.grace_days * day_ms);
            lifecycle_state = some uninstalled;
          })
          Action.uninstall (some state) (some uninstalled)) {
            site =
                if l.row.enabled && is_theme l.extension.runtime
                then l.row.configuration.previous_theme
                else none;
          })

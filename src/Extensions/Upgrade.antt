-- ===== src/Extensions/Upgrade.antt =====
-- `upgrade`, `rollback` and `removeUninstalled` of
-- backend/src/platform/extension-installations.service.ts, with the records, the school's counter
-- and the migration run that they work on.
pub mod Permissions
pub mod Versions
pub mod Return
use wattanman.Base.{
  ℕ, zero, ◌+◌, ◌-◌, String, Bool, true, false, not, ◌&&◌, ◌||◌, Option, none, some, List, [], ◌∷◌,
  filter, leb, ltb, str_eq, is_some, is_empty, if◌then◌else◌, or_else, Result, ok, err, conflict,
  not_found, ◌>>=◌, ◌>>◌, throw_if, require, Error,
}
use wattanman.Base.Map.{Map}
use wattanman.Base.Table.{Table}
use wattanman.Extensions.Types.{
  Theme, Configuration, Version, Operation, Migration, Installation, Loaded, Action, Written,
  unchanged, logged, is_theme, is_declarative, is_core, is_rollback_target,
}
use wattanman.Extensions.Dependencies.{permission_review}
use wattanman.Extensions.Themes.{theme_overrides, apply_theme_version}
use wattanman.Extensions.Migrations
use wattanman.Extensions.Migrations.{
  FieldMap, Record, Run, Capacity, World, find_migration, apply_migration, rollback_migration,
}
use wattanman.Extensions.Lifecycle.{Context, is_release, admit_version, when}

-- The extension's data of the school.
pub record Data : Type 0 where
  pub records : Map Record
  pub school_bytes : ℕ
  pub run : Option Run

-- What the migration of a version works with: the size of a record's text, the user, the quotas, the records
-- that a list of operations loads, and the run that would be created.
pub record Setting : Type 0 where
  pub size : FieldMap → ℕ
  pub actor : String
  pub quotas : Capacity
  pub max_attempts : ℕ
  pub load : List Operation → List Record
  pub fresh : Run

-- The version, the configuration and the site settings of an accepted upgrade.
pub record Plan : Type 0 where
  pub version : Version
  pub configuration : Configuration
  pub site : Option Theme

abbrev pub retheme : Context → Loaded → Version → Plan
retheme c l version =
    if l.row.enabled && is_theme l.extension.runtime
    then (let overrides =
          theme_overrides (c.site l.row.school_id) l.row.configuration.applied_theme in
        let (applied, site) = apply_theme_version c.style version overrides in
        record {
          version = version;
          configuration = record l.row.configuration {
            rollback_version_id = some l.row.installed_version_id;
            active_theme_version_id = some version.id;
            school_overrides = overrides;
            applied_theme = some applied;
          };
          site = some site;
        })
    else record { version = version; configuration = l.row.configuration; site = none }

-- The checks of an upgrade. `none` stands for the early return at the same version.
unfoldable pub plan_upgrade : Context → String → Bool → Loaded → Result (Option Plan)
plan_upgrade c version_id acknowledged l = do
  throw_if (not (is_some l.row.installed_at)) conflict
  if str_eq l.row.installed_version_id version_id then ok none else do
    version ← require (c.versions.find_first (is_release version_id l.row.extension_id)) not_found
    admit_version c l version (some l.row.id)
    let added = (permission_review l.version version).added
    throw_if (not (is_empty added) && not acknowledged) conflict
    ok (some (retheme c l version))

abbrev pub migration_of : Loaded → Version → Option Migration
migration_of l version =
    if is_declarative l.extension.runtime then find_migration l.version.version version else none

abbrev pub upgraded : Plan → Loaded → Installation → Written
upgraded plan l row = record (logged row Action.upgrade none none) { site = plan.site }

abbrev pub plain_row : Context → Plan → Loaded → Installation
plain_row c plan l = record l.row {
  installed_version_id = plan.version.id;
  installed_at = some c.now;
  configuration = plan.configuration;
  available_version_id = none;
  update_notified_at = none;
}

abbrev pub migrated : Plan → Loaded → Data → Result World × Option Run → Result Written × Data
migrated plan l d (ok w, run) = (
  ok (upgraded plan l w.row),
  record { records = w.records; school_bytes = w.school_bytes; run = run },
)
migrated plan l d (err e, run) = (err e, record d { run = run })

abbrev pub carry_out_with :
    Setting → Context → Plan → Loaded → Data → Option Migration → Result Written × Data
carry_out_with s c plan l d none = (ok (upgraded plan l (plain_row c plan l)), d)
carry_out_with s c plan l d (some m) = migrated plan l d (
    apply_migration s.size s.actor s.quotas s.max_attempts plan.version m.operations
      (s.load m.operations) plan.configuration c.now s.fresh d.run
      (record { row = l.row; records = d.records; school_bytes = d.school_bytes }))

abbrev pub carry_out :
    Setting → Context → Loaded → Data → Result (Option Plan) → Result Written × Data
carry_out s c l d (err e) = (err e, d)
carry_out s c l d (ok none) = (ok (unchanged l.row), d)
carry_out s c l d (ok (some plan)) = carry_out_with s c plan l d (migration_of l plan.version)

unfoldable pub upgrade :
    Setting → Context → String → Bool → Option Loaded → Data → Result Written × Data
upgrade s c version_id acknowledged none d = (err not_found, d)
upgrade s c version_id acknowledged (some l) d =
    carry_out s c l d (plan_upgrade c version_id acknowledged l)

-- A version of the extension that is published or deprecated.
abbrev pub is_target : String → String → Version → Bool
is_target id extension_id v =
    str_eq v.id id && str_eq v.extension_id extension_id && is_rollback_target v.status

abbrev pub rollback_target : Option String → Configuration → Option String
rollback_target none configuration = configuration.rollback_version_id
rollback_target (some target) configuration = some target

abbrev pub back_to : Loaded → Version → Configuration
back_to l version = record l.row.configuration {
  rollback_version_id = some l.row.installed_version_id;
  active_theme_version_id = some version.id;
}

-- The version to return to, with the configuration and the site settings.
unfoldable pub plan_rollback : Context → Option String → Loaded → Result Plan
plan_rollback c target l = do
  id ← require (rollback_target target l.row.configuration) conflict
  version ← require (c.versions.find_first (is_target id l.row.extension_id)) not_found
  when (not (is_core l.extension.runtime)) (c.signed version)
  let (applied, site) = apply_theme_version c.style version l.row.configuration.school_overrides
  if l.row.enabled && is_theme l.extension.runtime
      then ok (record {
        version = version;
        configuration = record (back_to l version) { applied_theme = some applied };
        site = some site;
      })
      else ok (record { version = version; configuration = back_to l version; site = none })

abbrev pub rolled_back : Plan → Installation → Written
rolled_back plan row = record (logged row Action.rollback none none) { site = plan.site }

abbrev pub unmigrate : Plan → Data → Result (World × Run) → Result Written × Data
unmigrate plan d (err e) = (err e, d)
unmigrate plan d (ok (w, run)) = (
  ok (rolled_back plan w.row),
  record { records = w.records; school_bytes = w.school_bytes; run = some run },
)

abbrev pub return_to : Setting → Loaded → Data → Result Plan → Result Written × Data
return_to s l d (err e) = (err e, d)
return_to s l d (ok plan) =
    if is_declarative l.extension.runtime && is_some l.row.configuration.migration_run_id
    then unmigrate plan d (
        rollback_migration s.quotas plan.version plan.configuration d.run
          (record { row = l.row; records = d.records; school_bytes = d.school_bytes }))
    else (
      ok (
          rolled_back plan (record l.row {
            installed_version_id = plan.version.id;
            configuration = plan.configuration;
          })),
      d,
    )

abbrev pub is_target_installed : Option String → Loaded → Bool
is_target_installed none l = false
is_target_installed (some target) l = str_eq l.row.installed_version_id target

-- `d.run` is the run that the configuration names.
unfoldable pub rollback :
    Setting → Context → Option String → Option Loaded → Data → Result Written × Data
rollback s c target none d = (err not_found, d)
rollback s c target (some l) d =
    if is_target_installed target l
    then (ok (unchanged l.row), d)
    else return_to s l d (plan_rollback c target l)

-- The counters of the school.
pub record Usage : Type 0 where
  pub bytes : ℕ
  pub records : ℕ

-- A record with the school and the extension that it belongs to.
pub record Owned : Type 0 where
  pub school_id : String
  pub extension_id : String
  pub row : Record

-- The records, the counters of the school, and the installations.
pub record History : Type 0 where
  pub records : List Owned
  pub usage : Usage
  pub installations : List Installation

abbrev is_data_of : Installation → Owned → Bool
is_data_of i r = str_eq r.school_id i.school_id && str_eq r.extension_id i.extension_id

-- The counters go down together, or stay as they are where either is too low.
abbrev without : Installation → Usage → Usage
without i usage =
    if leb i.data_bytes usage.bytes && leb i.data_records usage.records
    then record { bytes = usage.bytes - i.data_bytes; records = usage.records - i.data_records }
    else usage

-- `retained` counts the payment evidence that is still stored.
unfoldable pub remove_uninstalled : ℕ → Option Loaded → History → Result History
remove_uninstalled retained found h = do
  l ← require found not_found
  throw_if (not (is_some l.row.uninstalled_at) || l.row.enabled) conflict
  throw_if (ltb 0 retained) conflict
  ok (record {
    records = filter (λ r. not (is_data_of l.row r)) h.records;
    usage = without l.row h.usage;
    installations = filter (λ i. not (str_eq i.id l.row.id)) h.installations;
  })

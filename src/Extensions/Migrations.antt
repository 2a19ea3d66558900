-- ===== src/Extensions/Migrations.antt =====
-- `findMigration`, `applyMigration`, `rollbackMigration`, `interveneMigration` and
-- `adjustMigrationCapacity` of backend/src/platform/extension-installations.service.ts. A record's
-- data is a map of its fields, `size` is the length of its JSON text, and a signed number of bytes
-- is the pair of what is added and what is taken away. A roll-back leaves the column `updatedBy` as it is.
pub mod Fields
pub mod RoundTrip
pub mod Attempts
use wattanman.Base.{
  ℕ, zero, suc, ◌+◌, ◌-◌, String, Bool, true, false, not, ◌&&◌, ◌||◌, Option, none, some, List, [],
  ◌∷◌, ltb, leb, ◌==◌, str_eq, is_some, if◌then◌else◌, find, Result, ok, err, conflict, bad_request,
  not_found, ◌>>=◌, ◌>>◌, throw_if, require,
}
use wattanman.Base.Map.{Map, set, delete}
use wattanman.Extensions.Types.{
  Operation, rename_field, set_default, remove_field, Migration, Version, Installation,
  Configuration,
}

abbrev pub FieldMap : Type 0
FieldMap = Map String

pub record Record : Type 0 where
  pub id : String
  pub resource : String
  pub fields : FieldMap
  pub byte_size : ℕ
  pub version_id : String
  pub schema_version : ℕ
  pub concurrency_version : ℕ
  pub updated_by : Option String

abbrev pub resource_of : Operation → String
resource_of (rename_field resource from to) = resource
resource_of (set_default resource field value) = resource
resource_of (remove_field resource field) = resource

abbrev move_value : FieldMap → String → String → Option String → FieldMap
move_value m from to none = m
move_value m from to (some v) = delete (set m to v) from

unfoldable pub apply_operation : Operation → FieldMap → Result FieldMap
apply_operation (rename_field resource from to) m =
    if is_some (m from)
    then (if is_some (m to) then err conflict else ok (move_value m from to (m from)))
    else ok m
apply_operation (set_default resource field value) m =
    ok (if is_some (m field) then m else set m field value)
apply_operation (remove_field resource field) m = ok (delete m field)

-- The operations on the record's resource, in order.
unfoldable pub migrate_fields : List Operation → String → FieldMap → Result FieldMap
migrate_fields [] resource m = ok m
migrate_fields (o ∷ os) resource m =
    (if str_eq (resource_of o) resource then apply_operation o m else ok m) >>= λ m'.
    migrate_fields os resource m'

unfoldable pub find_migration : String → Version → Option Migration
find_migration from_version target =
    find (λ m. str_eq m.from_version from_version && str_eq m.to_version target.version)
      target.migrations

pub record Bytes : Type 0 where
  pub added : ℕ
  pub removed : ℕ

pub record Store : Type 0 where
  pub records : Map Record
  pub bytes : Bytes

abbrev pub count_bytes : Bytes → ℕ → ℕ → Bytes
count_bytes b after before = record { added = b.added + after; removed = b.removed + before }

-- The row of a key written anew, and its bytes counted.
abbrev pub save : Store → String → Record → ℕ → Store
save s key r before = record {
  records = set s.records key r;
  bytes = count_bytes s.bytes r.byte_size before;
}

abbrev pub migrate_record : (size : FieldMap → ℕ) → String → Version → FieldMap → Record → Record
migrate_record size actor version fields r = record r {
  fields = fields;
  byte_size = size fields;
  version_id = version.id;
  schema_version = if version.manifest_schema == 0 then 1 else version.manifest_schema;
  concurrency_version = r.concurrency_version + 1;
  updated_by = some actor;
}

-- The loop over the records. A record's backup is the record as it was read.
unfoldable pub migrate_all :
    (size : FieldMap → ℕ) → String → Version → List Operation → List Record → Store → Result Store
migrate_all size actor version os [] s = ok s
migrate_all size actor version os (r ∷ rs) s = migrate_fields os r.resource r.fields >>= λ fields.
    migrate_all size actor version os rs
      (save s r.id (migrate_record size actor version fields r) r.byte_size)

abbrev pub restore_record : Record → Record → Record
restore_record b current = record current {
  fields = b.fields;
  byte_size = b.byte_size;
  version_id = b.version_id;
  schema_version = b.schema_version;
  concurrency_version = b.concurrency_version;
}

-- The loop over the backups.
unfoldable pub restore_all : List Record → Store → Result Store
restore_all [] s = ok s
restore_all (b ∷ bs) s = require (s.records b.id) conflict >>= λ current.
    restore_all bs (save s b.id (restore_record b current) current.byte_size)

-- The bytes that an installation and its school use, and their quotas.
pub record Capacity : Type 0 where
  pub installation_bytes : ℕ
  pub school_bytes : ℕ

abbrev give_back : ℕ → ℕ → ℕ
give_back delta used = if leb delta used then used - delta else used

unfoldable pub adjust_capacity : Capacity → Bytes → Capacity → Result Capacity
adjust_capacity quotas b used =
    if ltb b.removed b.added
    then (let delta = b.added - b.removed in
        throw_if (not (leb (used.installation_bytes + delta) quotas.installation_bytes)) conflict
        >> throw_if (not (leb (used.school_bytes + delta) quotas.school_bytes)) conflict
        >> ok (record {
          installation_bytes = used.installation_bytes + delta;
          school_bytes = used.school_bytes + delta;
        }))
    else (let delta = b.removed - b.added in
        ok (record {
          installation_bytes = give_back delta used.installation_bytes;
          school_bytes = give_back delta used.school_bytes;
        }))

pub data RunStatus : Type 0 where
  pending applied failed intervention_required rolled_back abandoned : RunStatus

pub record Run : Type 0 where
  pub id : String
  pub installation_id : String
  pub from_version_id : String
  pub to_version_id : String
  pub status : RunStatus
  pub attempts : ℕ
  pub backups : List Record

-- What the transaction works on.
pub record World : Type 0 where
  pub row : Installation
  pub records : Map Record
  pub school_bytes : ℕ

abbrev pub capacity_of : World → Capacity
capacity_of w = record { installation_bytes = w.row.data_bytes; school_bytes = w.school_bytes }

abbrev needs_operator : Option Run → Bool
needs_operator none = false
needs_operator (some run) = elim run.status [ intervention_required ↦ true | _ ↦ false ]

-- The run that this attempt works under; `fresh` is the one that it would create.
abbrev pub start_run : Run → Option Run → Run
start_run fresh none = record fresh { status = pending; attempts = 1; backups = [] }
start_run fresh (some run) = record run { status = pending; attempts = run.attempts + 1 }

module _ (size : FieldMap → ℕ) (actor : String) (quotas : Capacity) (max_attempts : ℕ) where
  unfoldable pub migrate :
      Version → List Operation → List Record → Configuration → ℕ → Run → World → Result World
  migrate version os loaded configuration now run w =
      migrate_all size actor version os loaded
        (record { records = w.records; bytes = record { added = 0; removed = 0 } })
      >>= λ s. adjust_capacity quotas s.bytes (capacity_of w) >>= λ capacity. ok (record {
        row = record w.row {
          installed_version_id = version.id;
          installed_at = some now;
          configuration = record configuration {
            rollback_version_id = some w.row.installed_version_id;
            migration_run_id = some run.id;
          };
          data_bytes = capacity.installation_bytes;
          available_version_id = none;
          update_notified_at = none;
        };
        records = s.records;
        school_bytes = capacity.school_bytes;
      })

  abbrev close_run : List Record → Run → Result World → Run
  close_run loaded run (ok w) = record run { status = applied; backups = loaded }
  close_run loaded run (err e) = record run {
    status = if leb max_attempts run.attempts then intervention_required else failed;
  }

  -- A transaction that throws leaves the world as it was; the run keeps count of it.
  unfoldable pub apply_migration :
      Version
      → List Operation
      → List Record
      → Configuration
      → ℕ
      → Run
      → Option Run
      → World
      → Result World × Option Run
  apply_migration version os loaded configuration now fresh previous w =
      if needs_operator previous
      then (err conflict, previous)
      else (let run = start_run fresh previous in
          let result = migrate version os loaded configuration now run w in
          (result, some (close_run loaded run result)))

-- The run must be the one that brought the installation to its version from the given one.
abbrev undoes : World → Version → Run → Bool
undoes w version run =
    elim run.status [ applied ↦ true | _ ↦ false ]
    && str_eq run.installation_id w.row.id
    && str_eq run.to_version_id w.row.installed_version_id
    && str_eq run.from_version_id version.id

unfoldable pub rollback_migration :
    Capacity → Version → Configuration → Option Run → World → Result (World × Run)
rollback_migration quotas version configuration found w = require found conflict >>= λ run.
    throw_if (not (undoes w version run)) conflict
    >> (restore_all run.backups
          (record { records = w.records; bytes = record { added = 0; removed = 0 } })
        >>= λ s. adjust_capacity quotas s.bytes (capacity_of w) >>= λ capacity. ok (
          record {
            row = record w.row {
              installed_version_id = version.id;
              data_bytes = capacity.installation_bytes;
              configuration = record configuration { migration_run_id = none };
            };
            records = s.records;
            school_bytes = capacity.school_bytes;
          },
          record run { status = rolled_back },
        ))

pub data Intervention : Type 0 where
  retry abandon : Intervention

abbrev intervened : Intervention → Run → Run
intervened retry run = record run { status = failed; attempts = 0 }
intervened abandon run = record run { status = abandoned }

-- An action that is neither of the two, or an empty reason, is refused.
unfoldable pub intervene_migration : Option Intervention → String → Option Run → Result Run
intervene_migration action reason found = do
  chosen ← require action bad_request
  throw_if (str_eq reason "") bad_request
  run ← require found not_found
  throw_if (not (elim run.status [ intervention_required ↦ true | _ ↦ false ])) conflict
  ok (intervened chosen run)

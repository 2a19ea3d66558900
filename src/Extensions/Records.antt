-- ===== src/Extensions/Records.antt =====
-- backend/src/platform/extension-runtime.service.ts: the records of a declarative module, from the check
-- of the caller to the write. The size of a record's JSON text, the version that the header `If-Match`
-- names, if it names one, and the outcome of the signature's check are arguments. The audit entries are
-- left out, and so are the pages and the navigation.
pub mod Schema
pub mod Writes
pub mod Counters
pub mod Quota
pub mod Admission
pub mod View
pub mod Versions
use wattanman.Base.{
  ℕ, ◌+◌, ◌-◌, ◌*◌, String, Bool, true, false, not, ◌&&◌, ◌||◌, Option, none, some, List, [], ◌∷◌,
  any, includes, leb, ltb, ◌==◌, str_eq, is_some, if◌then◌else◌, Result, ok, err, conflict,
  not_found, forbidden, bad_request, payload_too_large, ◌>>=◌, ◌>>◌, throw_if, require,
}
use wattanman.Base.Table.{Table}
use wattanman.Extensions.Types.{Loaded, is_core, is_declarative, is_published}
use wattanman.Extensions.Controls.{KillSwitch, assert_allowed}
use wattanman.Extensions.Migrations.{FieldMap, Record}
use wattanman.Extensions.Upgrade.{Usage}
use Schema.{Field, Value, validate_data}

pub data Access : Type 0 where
  read write : Access

pub record Page : Type 0 where
  pub resource : String
  pub roles : List String

pub record Resource : Type 0 where
  pub name : String
  pub fields : List Field

-- A declarative module as it is loaded, with the parts of its manifest.
pub record Module : Type 0 where
  pub loaded : Loaded
  pub is_active : Bool
  pub pages : List Page
  pub resources : List Resource

-- `${resource}:${action}`: a permission is a resource and an access.
pub record Permission : Type 0 where
  pub resource : String
  pub access : Access
  pub text : String

-- What a request reads: the modules, the switches and the check of a signature.
pub record Site : Type 0 where
  pub modules : Table Module
  pub switches : Table KillSwitch
  pub verified : Module → Result (Unit {0})

abbrev pub is_running : String → Module → Bool
is_running key m =
    m.loaded.row.enabled
    && str_eq m.loaded.extension.key key
    && is_declarative m.loaded.extension.runtime
    && m.is_active

unfoldable pub installation : Site → String → Result Module
installation s key = do
  m ← require (s.modules.find_first (is_running key)) not_found
  throw_if (not (is_published m.loaded.version.status)) not_found
  assert_allowed s.switches m.loaded m.loaded.row.installed_version_id none
  if is_core m.loaded.extension.runtime then ok m else do s.verified m; ok m

abbrev pub shows : String → String → Page → Bool
shows resource role p = str_eq p.resource resource && includes p.roles role

abbrev find_fields : String → List Resource → Option (List Field)
find_fields name [] = none
find_fields name (r ∷ rs) = if str_eq r.name name then some r.fields else find_fields name rs

-- The module, with the fields of the resource.
unfoldable pub authorize : Site → String → Permission → String → Result (Module × List Field)
authorize s key p role = do
  m ← installation s key
  throw_if (not (includes m.loaded.version.permissions p.text)) forbidden
  throw_if (not (any (shows p.resource role) m.pages)) forbidden
  fields ← require (find_fields p.resource m.resources) not_found
  assert_allowed s.switches m.loaded m.loaded.row.installed_version_id (some p.text)
  ok (m, fields)

pub record Limits : Type 0 where
  pub installation_bytes : ℕ
  pub installation_records : ℕ
  pub school_bytes : ℕ
  pub school_records : ℕ

-- The records of an installation, and what it and its school use.
pub record Shelf : Type 0 where
  pub rows : List Record
  pub used : Usage
  pub school : Usage

abbrev max_record_bytes : ℕ
max_record_bytes = 1024 * 1024

abbrev pub fits : ℕ → ℕ → ℕ → ℕ → Usage → Bool
fits max_bytes max_records bytes records u =
    leb (u.bytes + bytes) max_bytes && leb (u.records + records) max_records

abbrev pub add_usage : ℕ → ℕ → Usage → Usage
add_usage bytes records u = record { bytes = u.bytes + bytes; records = u.records + records }

-- `dataBytes: { lte: quota - bytes }` holds of no row where the quota is less than the bytes.
unfoldable pub reserve_capacity : Limits → ℕ → ℕ → Shelf → Result Shelf
reserve_capacity l bytes records s = do
  throw_if (not (fits l.installation_bytes l.installation_records bytes records s.used))
      payload_too_large
  throw_if (not (fits l.school_bytes l.school_records bytes records s.school)) payload_too_large
  ok (record s { used = add_usage bytes records s.used; school = add_usage bytes records s.school })

abbrev take_bytes : ℕ → Usage → Usage
take_bytes delta u = record u { bytes = u.bytes - delta }

abbrev take_bytes_if : ℕ → Usage → Usage
take_bytes_if delta u = if leb delta u.bytes then take_bytes delta u else u

-- The size goes from `before` to `after`. The column of the installation is lowered without a test; it is
-- the sum of the records' sizes, and so is not below what is taken.
unfoldable pub adjust_bytes : Limits → ℕ → ℕ → Shelf → Result Shelf
adjust_bytes l before after s =
    if ltb before after
    then reserve_capacity l (after - before) 0 s
    else (if ltb after before
        then ok (record s {
          used = take_bytes (before - after) s.used;
          school = take_bytes_if (before - after) s.school;
        })
        else ok s)

-- The identifier is the primary key: at most one row has it.
unfoldable pub find_row : String → List Record → Option Record
find_row id [] = none
find_row id (r ∷ rs) = let rest = find_row id rs in if str_eq r.id id then some r else rest

unfoldable pub put_row : String → Record → List Record → List Record
put_row id new [] = []
put_row id new (r ∷ rs) =
    let rest = put_row id new rs in if str_eq r.id id then new ∷ rs else r ∷ rest

unfoldable pub drop_row : String → List Record → List Record
drop_row id [] = []
drop_row id (r ∷ rs) = let rest = drop_row id rs in if str_eq r.id id then rs else r ∷ rest

abbrev schema_of : Module → ℕ
schema_of m = if m.loaded.version.manifest_schema == 0 then 1 else m.loaded.version.manifest_schema

-- A value that is written: the data with its size, and the user who writes.
pub record Written : Type 0 where
  pub data_ : List (String × Value)
  pub fields : FieldMap
  pub byte_size : ℕ
  pub user_id : String

abbrev pub check_data : List Field → Written → Result (Unit {0})
check_data fields w = do
  validate_data fields w.data_
  throw_if (ltb max_record_bytes w.byte_size) payload_too_large

abbrev pub new_record : String → String → Module → Written → Record
new_record id resource m w = record {
  id = id;
  resource = resource;
  fields = w.fields;
  byte_size = w.byte_size;
  version_id = m.loaded.row.installed_version_id;
  schema_version = schema_of m;
  concurrency_version = 1;
  updated_by = none;
}

-- `id` is the identifier of the new row.
unfoldable pub create_record :
    Site
    → Limits
    → String
    → Permission
    → String
    → String
    → Written
    → Shelf
    → Result (Record × Shelf)
create_record site l key p role id w s = do
  (m, fields) ← authorize site key p role
  check_data fields w
  s' ← reserve_capacity l w.byte_size 1 s
  ok (new_record id p.resource m w, record s' { rows = new_record id p.resource m w ∷ s'.rows })

-- The row, if it is of the resource and at the expected version.
unfoldable pub expected_row : String → String → ℕ → Shelf → Result Record
expected_row id resource expected s = do
  r ← require (find_row id s.rows) not_found
  throw_if (not (str_eq r.resource resource)) not_found
  throw_if (not (r.concurrency_version == expected)) conflict
  ok r

-- `If-Match` names a version from 1 on.
abbrev pub expected_version : Option ℕ → Result ℕ
expected_version none = err bad_request
expected_version (some n) = if ltb n 1 then err bad_request else ok n

abbrev pub changed : Module → Written → Record → Record
changed m w r = record r {
  fields = w.fields;
  byte_size = w.byte_size;
  version_id = m.loaded.row.installed_version_id;
  schema_version = schema_of m;
  concurrency_version = r.concurrency_version + 1;
  updated_by = some w.user_id;
}

unfoldable pub update_record :
    Site
    → Limits
    → String
    → Permission
    → String
    → String
    → Option ℕ
    → Written
    → Shelf
    → Result (Record × Shelf)
update_record site l key p role id if_match w s = do
  (m, fields) ← authorize site key p role
  check_data fields w
  expected ← expected_version if_match
  r ← expected_row id p.resource expected s
  s' ← adjust_bytes l r.byte_size w.byte_size s
  ok (changed m w r, record s' { rows = put_row id (changed m w r) s'.rows })

abbrev pub take_record : Usage → Usage
take_record u = if ltb 0 u.records then record u { records = u.records - 1 } else u

unfoldable pub delete_record :
    Site → Limits → String → Permission → String → String → Option ℕ → Shelf → Result Shelf
delete_record site l key p role id if_match s = do
  (m, fields) ← authorize site key p role
  expected ← expected_version if_match
  r ← expected_row id p.resource expected s
  s' ← adjust_bytes l r.byte_size 0 s
  ok (record {
    rows = drop_row id s'.rows;
    used = take_record s'.used;
    school = take_record s'.school;
  })

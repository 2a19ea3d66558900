-- ===== src/Schools/Tenancy.antt =====
-- backend/src/database/tenant-query-policy.ts: `applyTenantQueryPolicy`, which scopes a call of the
-- database's client to the school of the request. `owns` is the answer of the look-up of the row
-- among the school's rows, which the caller passes in.
pub mod Scoping
use wattanman.Base.{
  String, Bool, true, false, not, ◌++◌, Option, none, some, List, [], ◌∷◌, map, filter, or_else,
  if◌then◌else◌, Result, ok, err, not_found, str_eq,
}
use wattanman.Base.Map
use wattanman.Base.Map.{Map}

pub data Action : Type 0 where
  find_many find_first find_first_or_throw count aggregate group_by update_many delete_many : Action
  create create_many find_unique find_unique_or_throw update delete upsert other : Action

-- A value of a `where` clause: a plain one, or an object, such as a compound key or a test.
pub data Value : Type 0 where
  plain : String → Value
  object : List (String × String) → Value

pub record Entry : Type 0 where
  pub key : String
  pub value : Value

-- A call: its `where` clause, the row that it writes, the rows of `createMany`, which may be given
-- otherwise than as a list, and the row that `upsert` creates.
pub record Query : Type 0 where
  pub model : Option String
  pub action : Action
  pub conditions : List Entry
  pub values : Map String
  pub rows : Option (List (Map String))
  pub create_values : Map String

abbrev set_all : Map String → List (String × String) → Map String
set_all m [] = m
set_all m ((k, v) ∷ kvs) = set_all (Map.set m k v) kvs

abbrev set_entry : Map String → String → Value → Map String
set_entry m k (plain v) = Map.set m k v
set_entry m k (object kvs) = set_all m kvs

abbrev flatten_into : Map String → List Entry → Map String
flatten_into m [] = m
flatten_into m (e ∷ es) = flatten_into (set_entry m e.key e.value) es

unfoldable pub flatten_unique_where : List Entry → Map String
flatten_unique_where es = flatten_into Map.empty es

-- `{ ...where, schoolId }`
abbrev pub scoped : String → List Entry → List Entry
scoped school_id es =
    filter (λ e. not (str_eq e.key "schoolId")) es
    ++ record { key = "schoolId"; value = plain school_id } ∷ []

-- `{ ...row, schoolId: row.schoolId ?? schoolId }`
abbrev pub owned : String → Map String → Map String
owned school_id row = Map.set row "schoolId" (or_else (row "schoolId") school_id)

abbrev filtered : String → Query → Result Query
filtered school_id q = ok (record q { conditions = scoped school_id q.conditions })

abbrev own_all : String → Option (List (Map String)) → Option (List (Map String))
own_all school_id none = none
own_all school_id (some rows) = some (map (owned school_id) rows)

-- The `switch` over the action.
abbrev scope : String → (Map String → Bool) → Query → Action → Result Query
scope school_id owns q find_many = filtered school_id q
scope school_id owns q find_first = filtered school_id q
scope school_id owns q find_first_or_throw = filtered school_id q
scope school_id owns q count = filtered school_id q
scope school_id owns q aggregate = filtered school_id q
scope school_id owns q group_by = filtered school_id q
scope school_id owns q update_many = filtered school_id q
scope school_id owns q delete_many = filtered school_id q
scope school_id owns q create = ok (record q { values = owned school_id q.values })
scope school_id owns q create_many = ok (record q { rows = own_all school_id q.rows })
scope school_id owns q find_unique = filtered school_id (record q { action = find_first })
scope school_id owns q find_unique_or_throw = filtered school_id (record q { action = find_first })
scope school_id owns q update =
    if owns (flatten_unique_where q.conditions) then ok q else err not_found
scope school_id owns q delete =
    if owns (flatten_unique_where q.conditions) then ok q else err not_found
scope school_id owns q upsert =
    if owns (flatten_unique_where q.conditions)
    then ok q
    else ok (record q { create_values = Map.set q.create_values "schoolId" school_id })
scope school_id owns q other = ok q

abbrev apply_to :
    String → (String → Map String → String → Bool) → Query → Option String → Result Query
apply_to school_id owns q none = ok q
apply_to school_id owns q (some model) =
    scope school_id (λ where_. owns model where_ school_id) q q.action

unfoldable pub apply_tenant_query_policy :
    String → (String → Map String → String → Bool) → Query → Result Query
apply_tenant_query_policy school_id owns q = apply_to school_id owns q q.model

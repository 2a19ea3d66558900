-- ===== src/Extensions/Controls.antt =====
-- `assertAllowed` of backend/src/platform/extension-control.service.ts: the kill switches.
pub mod Blocking
pub mod Setting
use wattanman.Base.{
  String, Bool, true, false, ◌&&◌, ◌||◌, Option, none, some, str_eq, is_some, Result, forbidden,
  throw_if,
}
use wattanman.Base.Table.{Table}
use wattanman.Extensions.Types.{Loaded}

pub data Scope : Type 0 where
  publisher extension version school capability : Scope

pub record KillSwitch : Type 0 where
  pub scope_type : Scope
  pub scope_id : String
  pub capability : String
  pub active : Bool

-- The conditions of the query, for one switch; a capability is asked for only where it is given.
abbrev asked : Option String → String → Bool
asked none held = false
asked (some wanted) held = str_eq held wanted

abbrev pub applies : Loaded → String → Option String → Scope → String → String → Bool
applies l version_id wanted publisher id held = str_eq id l.extension.publisher_id
applies l version_id wanted extension id held = str_eq id l.row.extension_id
applies l version_id wanted version id held = str_eq id version_id
applies l version_id wanted school id held = str_eq id l.row.school_id
applies l version_id wanted Scope.capability id held =
    str_eq id l.row.extension_id && asked wanted held

abbrev pub blocks : Loaded → String → Option String → KillSwitch → Bool
blocks l version_id wanted s =
    s.active && applies l version_id wanted s.scope_type s.scope_id s.capability

-- For the installation with the given version; an empty capability is none.
unfoldable pub assert_allowed :
    Table KillSwitch → Loaded → String → Option String → Result (Unit {0})
assert_allowed switches l version_id wanted =
    throw_if (is_some (switches.find_first (blocks l version_id wanted))) forbidden

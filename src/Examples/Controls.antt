-- ===== src/Examples/Controls.antt =====
-- A kill switch that is set for an installed extension.
use wattanman.Base.{true, false, ◌≡◌, refl, Option, none, some, List, [], ◌∷◌, ok, is_ok}
use wattanman.Base.Table.{of_list}
use wattanman.Extensions.Controls.{Scope, KillSwitch, assert_allowed}
use wattanman.Extensions.Controls.Blocking.{Covers}
use wattanman.Extensions.Controls.Setting.{
  SwitchRequest, Targets, switch_of, set_switch, set_switch-refuses,
}
use wattanman.Examples.Sample.{active_row, loaded}

abbrev targets : Targets
targets = record {
  publishers = "p1" ∷ [];
  extensions = "e1" ∷ [];
  versions = "v1" ∷ [];
  schools = "s1" ∷ [];
}

abbrev stop_library : SwitchRequest
stop_library = record {
  scope_type = some Scope.extension;
  scope_id = "e1";
  capability = "";
  is_well_formed = false;
  active = none;
  reason = "It leaks.";
}

-- The extension was stopped once, and a school is.
abbrev switches : List KillSwitch
switches =
    record { scope_type = Scope.school; scope_id = "s2"; capability = ""; active = true }
    ∷ record { scope_type = Scope.extension; scope_id = "e1"; capability = ""; active = false }
    ∷ []

abbrev switches_after : List KillSwitch
switches_after =
    record { scope_type = Scope.school; scope_id = "s2"; capability = ""; active = true }
    ∷ record { scope_type = Scope.extension; scope_id = "e1"; capability = ""; active = true }
    ∷ []

set_switch-refuses_example :
    is_ok (assert_allowed (of_list switches_after) (loaded active_row) "v1" none) ≡ false
unfolding set_switch wattanman.Base.any wattanman.Extensions.Controls.Setting.put_switch
set_switch-refuses_example =
    set_switch-refuses targets stop_library Scope.extension switches switches_after
      (loaded active_row) "v1" none refl refl refl (Covers.by_extension refl refl)

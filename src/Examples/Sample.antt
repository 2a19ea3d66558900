-- ===== src/Examples/Sample.antt =====
-- A school, an extension with two versions, and rows for them.
use wattanman.Base.{true, false, none, some, List, [], ◌∷◌, ok}
use wattanman.Base.Table.{of_list}
use wattanman.Extensions.Types.{
  State, Billing, Pricing, Runtime, Lifecycle, Policy, Group, Theme, Overrides, Configuration,
  Version, Extension, Installation, Loaded,
}
use wattanman.Extensions.Controls.{KillSwitch}
use wattanman.Extensions.Lifecycle.{Context}

abbrev pub plain_theme : Theme
plain_theme = record {
  mode = "light";
  primary_color = "#111111";
  secondary_color = "#222222";
  font = "Inter";
  radius = "8";
  custom_css = "";
}

abbrev pub no_overrides : Overrides
no_overrides = record {
  mode = none;
  primary_color = none;
  secondary_color = none;
  font = none;
  radius = none;
  custom_css = none;
}

abbrev pub no_configuration : Configuration
no_configuration = record {
  rollback_version_id = none;
  active_theme_version_id = none;
  migration_run_id = none;
  applied_theme = none;
  previous_theme = none;
  school_overrides = no_overrides;
}

abbrev pub library : Extension
library = record {
  id = "e1";
  key = "library";
  publisher_id = "p1";
  runtime = Runtime.declarative_module;
  pricing = Pricing.free;
}

abbrev pub first_version : Version
first_version = record {
  id = "v1";
  extension_id = "e1";
  version = "1.0.0";
  number = record { major = 1; minor = 0; patch = 0 };
  manifest_schema = 1;
  status = Lifecycle.published;
  compatibility_range = [];
  permissions = "books:read" ∷ [];
  dependencies = [];
  conflicts = [];
  migrations = [];
  theme = plain_theme;
}

abbrev pub second_version : Version
second_version = record first_version {
  id = "v2";
  version = "1.1.0";
  number = record { major = 1; minor = 1; patch = 0 };
}

abbrev pub approved_row : Installation
approved_row = record {
  id = "i1";
  school_id = "s1";
  extension_id = "e1";
  installed_version_id = "v1";
  enabled = false;
  lifecycle_state = some State.approved;
  billing_status = Billing.active;
  configuration = no_configuration;
  snapshot = none;
  invoice = none;
  payment_submitted_at = none;
  requested_at = some 10;
  approved_at = some 20;
  installed_at = none;
  uninstalled_at = none;
  purge_after = none;
  data_bytes = 0;
  data_records = 0;
  update_policy = Policy.automatic;
  rollout_group = Group.pilot;
  available_version_id = none;
  update_notified_at = none;
}

abbrev pub active_row : Installation
active_row = record approved_row {
  enabled = true;
  lifecycle_state = some State.active;
  installed_at = some 30;
}

abbrev pub loaded : Installation → Loaded
loaded i = record { row = i; extension = library; version = first_version }

abbrev pub no_switches : List KillSwitch
no_switches = []

abbrev pub context_with : List KillSwitch → List Loaded → Context
context_with switches installations = record {
  now = 100;
  platform = record { major = 2; minor = 0; patch = 0 };
  grace_days = 30;
  versions = of_list (first_version ∷ second_version ∷ []);
  installations = of_list installations;
  switches = of_list switches;
  site = λ school_id. none;
  signed = λ v. ok tt;
  style = λ v. "";
}

abbrev pub context : Context
context = context_with no_switches []

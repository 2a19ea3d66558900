-- ===== src/Extensions/Types.antt =====
-- The rows that backend/src/platform/extension-installations.service.ts reads and writes, with the
-- columns of backend/prisma/schema.prisma that it uses. A time is in milliseconds; a column that
-- may be null is an `Option`; a JSON column is the record of the fields that the code uses.
use wattanman.Base.{ℕ, String, Bool, true, false, Option, none, List, [], ◌∷◌}

pub data State : Type 0 where
  requested payment_review approved installed active uninstalled : State

pub data Billing : Type 0 where
  pending active overdue cancelled : Billing

pub data Pricing : Type 0 where
  free one_time subscription private_contract : Pricing

pub data Runtime : Type 0 where
  core_module declarative_module theme integration code_extension : Runtime

pub data Lifecycle : Type 0 where
  published deprecated unpublished : Lifecycle

pub data Policy : Type 0 where
  manual notify_admins automatic : Policy

pub data Group : Type 0 where
  internal pilot general : Group

-- The three numbers of a version, and a comparator of a range.
pub record Semver : Type 0 where
  pub major : ℕ
  pub minor : ℕ
  pub patch : ℕ

pub data Operator : Type 0 where
  ge gt le lt : Operator

pub record Comparator : Type 0 where
  pub operator : Operator
  pub target : Semver

pub record Theme : Type 0 where
  pub mode : String
  pub primary_color : String
  pub secondary_color : String
  pub font : String
  pub radius : String
  pub custom_css : String

-- The theme settings that a school has changed.
pub record Overrides : Type 0 where
  pub mode : Option String
  pub primary_color : Option String
  pub secondary_color : Option String
  pub font : Option String
  pub radius : Option String
  pub custom_css : Option String

pub record Configuration : Type 0 where
  pub rollback_version_id : Option String
  pub active_theme_version_id : Option String
  pub migration_run_id : Option String
  pub applied_theme : Option Theme
  pub previous_theme : Option Theme
  pub school_overrides : Overrides

pub record Dependency : Type 0 where
  pub key : String
  pub version_range : List Comparator
  pub optional : Bool

pub data Operation : Type 0 where
  rename_field : (resource from to : String) → Operation
  set_default : (resource field value : String) → Operation
  remove_field : (resource field : String) → Operation

pub record Migration : Type 0 where
  pub from_version : String
  pub to_version : String
  pub operations : List Operation

-- The theme of a manifest is the one of a version with the text of its style sheet.
pub record Version : Type 0 where
  pub id : String
  pub extension_id : String
  pub version : String
  pub number : Semver
  pub manifest_schema : ℕ
  pub status : Lifecycle
  pub compatibility_range : List Comparator
  pub permissions : List String
  pub dependencies : List Dependency
  pub conflicts : List String
  pub migrations : List Migration
  pub theme : Theme

pub record Extension : Type 0 where
  pub id : String
  pub key : String
  pub publisher_id : String
  pub runtime : Runtime
  pub pricing : Pricing

pub record Snapshot : Type 0 where
  pub school_name : String
  pub admin_name : String
  pub pricing : Pricing

pub record Invoice : Type 0 where
  pub storage_key : String
  pub content_type : String
  pub size : ℕ
  pub checksum : String
  pub uploaded_at : Option ℕ

pub record Installation : Type 0 where
  pub id : String
  pub school_id : String
  pub extension_id : String
  pub installed_version_id : String
  pub enabled : Bool
  pub lifecycle_state : Option State
  pub billing_status : Billing
  pub configuration : Configuration
  pub snapshot : Option Snapshot
  pub invoice : Option Invoice
  pub payment_submitted_at : Option ℕ
  pub requested_at : Option ℕ
  pub approved_at : Option ℕ
  pub installed_at : Option ℕ
  pub uninstalled_at : Option ℕ
  pub purge_after : Option ℕ
  pub data_bytes : ℕ
  pub data_records : ℕ
  pub update_policy : Policy
  pub rollout_group : Group
  pub available_version_id : Option String
  pub update_notified_at : Option ℕ

-- An installation as `requireInstallation` loads it.
pub record Loaded : Type 0 where
  pub row : Installation
  pub extension : Extension
  pub version : Version

pub data Action : Type 0 where
  request paid_request evidence_initiated evidence_submitted approve billing_status install : Action
  upgrade update_policy rollout_group remove_history rollback activate deactivate uninstall : Action

pub record Audit : Type 0 where
  pub action : Action
  pub resource_id : String
  pub from_state : Option State
  pub to_state : Option State

-- What a handler leaves: the row, its audit entries, and the school's site settings where it
-- writes them.
pub record Written : Type 0 where
  pub row : Installation
  pub audit : List Audit
  pub site : Option Theme

-- An early return.
abbrev pub unchanged : Installation → Written
unchanged row = record { row = row; audit = []; site = none }

abbrev pub logged : Installation → Action → Option State → Option State → Written
logged row action from to = record {
  row = row;
  audit = record { action = action; resource_id = row.id; from_state = from; to_state = to } ∷ [];
  site = none;
}

-- `===` between the texts of two enumerations.
abbrev pub is_state : State → State → Bool
is_state State.requested State.requested = true
is_state State.payment_review State.payment_review = true
is_state State.approved State.approved = true
is_state State.installed State.installed = true
is_state State.active State.active = true
is_state State.uninstalled State.uninstalled = true
is_state _ _ = false

abbrev pub is_active_billing : Billing → Bool
is_active_billing Billing.active = true
is_active_billing _ = false

abbrev pub is_free : Pricing → Bool
is_free Pricing.free = true
is_free _ = false

abbrev pub is_invoiced : Pricing → Bool
is_invoiced Pricing.one_time = true
is_invoiced Pricing.subscription = true
is_invoiced _ = false

abbrev pub is_theme : Runtime → Bool
is_theme Runtime.theme = true
is_theme _ = false

abbrev pub is_declarative : Runtime → Bool
is_declarative Runtime.declarative_module = true
is_declarative _ = false

abbrev pub is_core : Runtime → Bool
is_core Runtime.core_module = true
is_core _ = false

abbrev pub is_published : Lifecycle → Bool
is_published Lifecycle.published = true
is_published _ = false

abbrev pub is_rollback_target : Lifecycle → Bool
is_rollback_target Lifecycle.unpublished = false
is_rollback_target _ = true

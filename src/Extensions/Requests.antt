-- ===== src/Extensions/Requests.antt =====
-- `request` of backend/src/platform/extension-installations.service.ts, with what it shares with
-- the paid requests: the offers of the catalogue and the row that a request writes. The columns that
-- only describe the requester and the price further (the administrator's address, payment notes, the
-- amount) are left out.
pub mod Evidence
pub mod Invoices
pub mod Consistent
use wattanman.Base.{
  ℕ, zero, ◌+◌, ◌*◌, String, Bool, true, false, not, ◌&&◌, ◌||◌, Option, none, some, List, [], ◌∷◌,
  leb, ltb, ◌==◌, str_eq, is_some, any, filter, length, head?, if◌then◌else◌, Result, ok, err,
  Error, bad_request, conflict, not_found, includes, or_else, ◌>>=◌, ◌>>◌, throw_if, require, map,
}
use wattanman.Base.Map
use wattanman.Base.Map.{Map}
use wattanman.Extensions.Types.{
  State, Billing, Pricing, Policy, Group, Overrides, Configuration, Version, Extension, Snapshot,
  Invoice, Installation, Action, Audit, is_free, is_invoiced,
}
use wattanman.Extensions.Themes.{no_overrides}
use wattanman.Extensions.Lifecycle.Stored.{lifecycle_state}

pub data Visibility : Type 0 where
  listed unlisted private : Visibility

-- An extension of the catalogue, its published versions with the latest first.
pub record Offer : Type 0 where
  pub extension : Extension
  pub is_active : Bool
  pub visibility : Visibility
  pub grants : List String
  pub releases : List Version

-- What a request reads: the clock, the school and its administrator by name, and the school's
-- row for the extension; `fresh_id` is the identifier of a row that is created.
pub record Requester : Type 0 where
  pub now : ℕ
  pub school_id : String
  pub school_name : Option String
  pub admin_name : Option String
  pub existing : Option Installation
  pub fresh_id : String

pub record Granted : Type 0 where
  pub row : Installation
  pub audit : Audit

abbrev is_granted : String → Visibility → List String → Bool
is_granted school_id Visibility.private grants = any (str_eq school_id) grants
is_granted school_id _ grants = true

abbrev is_unpaid_model : Pricing → Bool
is_unpaid_model Pricing.free = true
is_unpaid_model Pricing.private_contract = true
is_unpaid_model _ = false

-- The offer that a request finds, given the test of its pricing model.
abbrev is_offered : (Pricing → Bool) → String → Offer → Bool
is_offered priced school_id o =
    o.is_active && priced o.extension.pricing && is_granted school_id o.visibility o.grants

abbrev pub when_offered : (Pricing → Bool) → String → Option Offer → Option Offer
when_offered priced school_id none = none
when_offered priced school_id (some o) = if is_offered priced school_id o then some o else none

abbrev pub is_enabled : Option Installation → Bool
is_enabled none = false
is_enabled (some i) = i.enabled

unfoldable pub pricing_snapshot : Extension → String → String → Snapshot
pricing_snapshot e school admin = record {
  school_name = school;
  admin_name = admin;
  pricing = e.pricing;
}

abbrev first_billing : Pricing → Billing
first_billing p = if is_free p then Billing.active else Billing.pending

abbrev no_configuration : Configuration
no_configuration = record {
  rollback_version_id = none;
  active_theme_version_id = none;
  migration_run_id = none;
  applied_theme = none;
  previous_theme = none;
  school_overrides = no_overrides;
}

-- A row with the defaults of the schema.
unfoldable pub new_row : String → String → Extension → Version → Installation
new_row id school_id e v = record {
  id = id;
  school_id = school_id;
  extension_id = e.id;
  installed_version_id = v.id;
  enabled = false;
  lifecycle_state = some State.requested;
  billing_status = Billing.pending;
  configuration = no_configuration;
  snapshot = none;
  invoice = none;
  payment_submitted_at = none;
  requested_at = none;
  approved_at = none;
  installed_at = none;
  uninstalled_at = none;
  purge_after = none;
  data_bytes = 0;
  data_records = 0;
  update_policy = Policy.manual;
  rollout_group = Group.general;
  available_version_id = none;
  update_notified_at = none;
}

abbrev pub audit_of : Action → String → Option State → Option State → Audit
audit_of action id from to = record {
  action = action;
  resource_id = id;
  from_state = from;
  to_state = to;
}

abbrev pub row_or_new : Requester → Extension → Version → Installation
row_or_new q e v = or_else q.existing (new_row q.fresh_id q.school_id e v)

abbrev requested_row : Requester → Extension → Snapshot → Installation → Installation
requested_row q e snapshot i = record i {
  requested_at = some q.now;
  lifecycle_state = some State.requested;
  enabled = false;
  approved_at = none;
  installed_at = none;
  uninstalled_at = none;
  purge_after = none;
  billing_status = first_billing e.pricing;
  snapshot = some snapshot;
}

unfoldable pub request : Requester → Option Offer → Result Granted
unfolding pricing_snapshot new_row
request q found = do
  offer ← require (when_offered is_unpaid_model q.school_id found) not_found
  latest ← require (head? offer.releases) not_found
  school ← require q.school_name not_found
  admin ← require q.admin_name not_found
  throw_if (is_enabled q.existing) conflict
  let e = offer.extension
  let row = requested_row q e (pricing_snapshot e school admin) (row_or_new q e latest)
  ok (record { row = row; audit = audit_of Action.request row.id none (some State.requested) })

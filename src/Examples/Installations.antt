-- ===== src/Examples/Installations.antt =====
-- The commands on an installation: from the request to the removal, an upgrade and its rollback.
use wattanman.Base.{
  ◌+◌, ◌*◌, String, ◌≡◌, ◌≢◌, refl, true, false, none, some, [], ◌∷◌, ok, In, inl, find, filter,
  any, ne_of_str_eq, ◌⊎◌, is_some,
}
use wattanman.Base.Map.{empty}
use wattanman.Extensions.Types.{
  State, Pricing, Installation, Loaded, Written, Version, Action, logged, Policy, Group,
}
use wattanman.Extensions.Migrations.{RunStatus}
use wattanman.Extensions.Lifecycle
use wattanman.Extensions.Lifecycle.{approve, install, activate, activated, uninstall}
use wattanman.Extensions.Lifecycle.Stored.{lifecycle_state}
use wattanman.Extensions.Lifecycle.Invariant.{IsConsistent}
use wattanman.Extensions.Lifecycle.Effects.{Admitted, install-Admitted, uninstall-free}
use wattanman.Extensions.Lifecycle.Reach.{Reaches, Reaches-IsConsistent}
use wattanman.Extensions.Requests.{Offer, Requester, Granted, Visibility, request}
use wattanman.Extensions.Requests.Evidence
use wattanman.Extensions.Requests.Evidence.{Evidence, Stored, finalize_payment_evidence}
use wattanman.Extensions.Requests.Consistent.{late_evidence}
use wattanman.Extensions.Upgrade
use wattanman.Extensions.Upgrade.{Setting, Data, Plan, plan_upgrade, rollback}
use wattanman.Extensions.Upgrade.Permissions.{plan_upgrade-Admitted}
use wattanman.Extensions.Upgrade.Versions.{plan_upgrade-uninstall}
use wattanman.Examples.Sample.{
  library, first_version, second_version, approved_row, active_row, loaded, context, context_with,
  no_configuration, no_switches,
}

abbrev offer : Offer
offer = record {
  extension = library;
  is_active = true;
  visibility = Visibility.listed;
  grants = [];
  releases = first_version ∷ [];
}

abbrev requester : Requester
requester = record {
  now = 10;
  school_id = "s1";
  school_name = some "North";
  admin_name = some "Ada";
  existing = none;
  fresh_id = "i1";
}

abbrev requested_row : Installation
requested_row = record approved_row {
  lifecycle_state = some State.requested;
  snapshot = some (record { school_name = "North"; admin_name = "Ada"; pricing = Pricing.free });
  approved_at = none;
  update_policy = Policy.manual;
  rollout_group = Group.general;
}

abbrev granted : Granted
granted = record {
  row = requested_row;
  audit = record {
    action = Action.request;
    resource_id = "i1";
    from_state = none;
    to_state = some State.requested;
  };
}

library_requested : request requester (some offer) ≡ ok granted
unfolding request
library_requested = refl

abbrev approval : Written
approval =
    logged (record requested_row { approved_at = some 100; lifecycle_state = some State.approved })
      Action.approve (some State.requested) (some State.approved)

library_approved : approve context (some (loaded requested_row)) ≡ ok approval
unfolding approve
library_approved = refl

abbrev installation : Written
installation =
    logged (record approval.row { installed_at = some 100; lifecycle_state = some State.installed })
      Action.install (some State.approved) (some State.installed)

library_installed : install context "v1" (some (loaded approval.row)) ≡ ok installation
unfolding install find Lifecycle.admit_version wattanman.Extensions.Controls.assert_allowed
    wattanman.Extensions.Ranges.assert_platform_compatibility
    wattanman.Extensions.Dependencies.assert_dependencies filter
    wattanman.Extensions.Dependencies.resolve_dependencies
library_installed = refl

abbrev activation : Written
activation = activated context (loaded installation.row)

library_activated : activate context true (some (loaded installation.row)) ≡ ok activation
unfolding activate wattanman.Extensions.Controls.assert_allowed find Lifecycle.admit_activation
    wattanman.Extensions.Dependencies.assert_dependencies filter
    wattanman.Extensions.Dependencies.resolve_dependencies
library_activated = refl

activation-Reaches : Reaches library activation.row
activation-Reaches =
    Reaches.by_activation context true installation.row first_version activation
      (Reaches.by_install context "v1" approval.row first_version installation
        (Reaches.by_approval context requested_row first_version approval
          (Reaches.by_request requester offer granted refl library_requested) library_approved)
        library_installed)
      library_activated

Reaches-IsConsistent_example : IsConsistent Pricing.free activation.row
Reaches-IsConsistent_example = Reaches-IsConsistent library activation.row activation-Reaches

install-Admitted_example :
    (installation.row ≡ approval.row)
    ⊎ ((version : Version) × Admitted context (loaded approval.row) none version
        × (version.id ≡ "v1")
        × (lifecycle_state approval.row ≡ State.approved)
        × (installation.row.lifecycle_state ≡ some State.installed)
        × (installation.row.installed_version_id ≡ "v1"))
install-Admitted_example =
    install-Admitted context "v1" (loaded approval.row) installation library_installed

abbrev plan : Plan
plan = record { version = second_version; configuration = no_configuration; site = none }

library_planned : plan_upgrade context "v2" false (loaded active_row) ≡ ok (some plan)
unfolding plan_upgrade find Lifecycle.admit_version wattanman.Extensions.Controls.assert_allowed
    wattanman.Extensions.Ranges.assert_platform_compatibility
    wattanman.Extensions.Dependencies.assert_dependencies filter
    wattanman.Extensions.Dependencies.resolve_dependencies
    wattanman.Extensions.Dependencies.permission_review any
library_planned = refl

plan_upgrade-Admitted_example :
    Admitted context (loaded active_row) (some "i1") second_version
    × (second_version.id ≡ "v2")
    × (is_some active_row.installed_at ≡ true)
    × (false ≡ false
        → (s : String) → In s second_version.permissions
        → In s first_version.permissions)
plan_upgrade-Admitted_example =
    plan_upgrade-Admitted context "v2" false (loaded active_row) plan library_planned

abbrev uninstalled_books : Written
uninstalled_books =
    record (logged
      (record active_row {
        enabled = false;
        uninstalled_at = some context.now;
        purge_after = some (context.now + context.grace_days * 86400000);
        lifecycle_state = some State.uninstalled;
      })
      Action.uninstall (some State.active) (some State.uninstalled)) { site = none }

books_uninstalled : uninstall context (some (loaded active_row)) ≡ ok uninstalled_books
unfolding uninstall lifecycle_state any filter
books_uninstalled = refl

plan_upgrade-uninstall_example :
    plan_upgrade context "v2" false (loaded uninstalled_books.row)
    ≡ plan_upgrade context "v2" false (loaded active_row)
plan_upgrade-uninstall_example =
    plan_upgrade-uninstall context context "v2" false (loaded active_row) uninstalled_books refl
      books_uninstalled

abbrev upgraded_row : Installation
upgraded_row = record active_row {
  installed_version_id = "v2";
  configuration = record no_configuration { rollback_version_id = some "v1" };
}

abbrev upgraded : Loaded
upgraded = record { row = upgraded_row; extension = library; version = second_version }

abbrev returned_row : Installation
returned_row = record active_row {
  configuration = record no_configuration {
    rollback_version_id = some "v2";
    active_theme_version_id = some "v1";
  };
}

abbrev setting : Setting
setting = record {
  size = λ fields. 2;
  actor = "u1";
  quotas = record { installation_bytes = 100; school_bytes = 100 };
  max_attempts = 3;
  load = λ operations. [];
  fresh = record {
    id = "m1";
    installation_id = "i1";
    from_version_id = "v1";
    to_version_id = "v2";
    status = RunStatus.pending;
    attempts = 0;
    backups = [];
  };
}

abbrev no_data : Data
no_data = record { records = empty; school_bytes = 0; run = none }

library_returned :
    (rollback setting context none (some upgraded) no_data).0
    ≡ ok (logged returned_row Action.rollback none none)
unfolding rollback Upgrade.plan_rollback find
library_returned = refl

abbrev reading : Loaded
reading = record {
  row = record active_row { id = "i2"; extension_id = "e2"; enabled = false };
  extension = record library { id = "e2"; key = "reading" };
  version = record first_version {
    id = "w1";
    extension_id = "e2";
    dependencies = record { key = "library"; version_range = []; optional = false } ∷ [];
  };
}

abbrev removal : Written
removal =
    logged
      (record active_row {
        enabled = false;
        uninstalled_at = some 100;
        purge_after = some 2592000100;
        lifecycle_state = some State.uninstalled;
      })
      Action.uninstall (some State.active) (some State.uninstalled)

library_removed :
    uninstall (context_with no_switches (reading ∷ [])) (some (loaded active_row)) ≡ ok removal
unfolding uninstall any filter
library_removed = refl

active_row-present : lifecycle_state active_row ≢ State.uninstalled
unfolding lifecycle_state
active_row-present = λ e. cc

abbrev reading_id : String
reading_id = "i2"

uninstall-free_example : reading.row.enabled ≡ false
uninstall-free_example =
    uninstall-free (context_with no_switches (reading ∷ [])) (loaded active_row) removal reading
      (record { key = "library"; version_range = []; optional = false }) library_removed
      active_row-present (inl refl) refl (ne_of_str_eq reading_id "i1" refl) (inl refl) refl refl

abbrev pending_row : Installation
pending_row = record active_row {
  invoice = some (record {
    storage_key = "k";
    content_type = "image/png";
    size = 5;
    checksum = "c";
    uploaded_at = none;
  });
}

abbrev upload : Stored
upload = record {
  content_length = 5;
  media_type = some "image/png";
  checksum = some "c";
  read_length = 5;
  digest = "c";
}

abbrev awaited_evidence : Evidence
awaited_evidence = record {
  installation_id = "i1";
  storage_key = "k";
  size = 5;
  checksum = "c";
  status = Evidence.Status.pending;
  uploaded_at = none;
  submitted_at = none;
  retain_until = 0;
}

abbrev submitted_evidence : Evidence
submitted_evidence = record awaited_evidence {
  status = Evidence.Status.submitted;
  uploaded_at = some 200;
  submitted_at = some 200;
  retain_until = 2592000200;
}

abbrev reviewed : Written
reviewed =
    logged
      (record pending_row {
        invoice = some (record {
          storage_key = "k";
          content_type = "image/png";
          size = 5;
          checksum = "c";
          uploaded_at = some 200;
        });
        payment_submitted_at = some 200;
        lifecycle_state = some State.payment_review;
      })
      Action.evidence_submitted (some State.active) (some State.payment_review)

evidence_finalized :
    finalize_payment_evidence 200 (some 30) (some pending_row) upload (awaited_evidence ∷ [])
    ≡ ok (reviewed, submitted_evidence ∷ [])
unfolding finalize_payment_evidence filter lifecycle_state Evidence.retention_date
evidence_finalized = refl

late_evidence_example :
    (w' : Written) × (finalize_payment_evidence 200
        (some 30)
        (some (record pending_row { lifecycle_state = some State.active; enabled = true }))
        upload
        (awaited_evidence ∷ [])
      ≡ ok (w', submitted_evidence ∷ []))
    × (lifecycle_state w'.row ≡ State.payment_review)
    × (w'.row.enabled ≡ true)
late_evidence_example =
    late_evidence 200 (some 30) pending_row upload (awaited_evidence ∷ []) (submitted_evidence ∷ [])
      reviewed (some State.active) true refl evidence_finalized

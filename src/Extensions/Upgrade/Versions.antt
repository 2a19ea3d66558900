-- ===== src/Extensions/Upgrade/Versions.antt =====
-- What `upgrade` and `rollback` leave as it is, and what they write.
use mathlib.Core.Path.{subst}
use wattanman.Base.{
  ◌&&◌, ◌+◌, ◌*◌, sym, ap, ◌∙◌, Bool-cases, ℕ, String, Bool, true, false, Option, none, some, List,
  ◌≡◌, refl, is_some, arith, Result, ok, err, inl, inr,
}
use wattanman.Extensions.Types.{
  State, Pricing, Configuration, Operation, Installation, Loaded, Version, Written, Migration,
  is_declarative, is_theme, is_state,
}
use wattanman.Extensions.Migrations.{
  FieldMap, Record, Capacity, Run, World, migrate, apply_migration, start_run, rollback_migration,
}
use wattanman.Extensions.Controls.{assert_allowed}
use wattanman.Extensions.Lifecycle.{Context, admit_version, uninstall, day_ms}
use wattanman.Extensions.Lifecycle.Stored.{lifecycle_state}
use wattanman.Extensions.Lifecycle.Invariant.{IsConsistent, agrees}
use wattanman.Extensions.Upgrade.{
  Setting, Data, Plan, upgrade, rollback, plan_upgrade, plan_rollback, carry_out, carry_out_with,
  migrated, unmigrate, is_target_installed, return_to, migration_of,
}

-- The state of the installation, its billing and its times are the same; it may be installed anew.
pub record Keeps (i j : Installation) : Type 0 where
  pub state : j.lifecycle_state ≡ i.lifecycle_state
  pub enabled : j.enabled ≡ i.enabled
  pub billing : j.billing_status ≡ i.billing_status
  pub requested : j.requested_at ≡ i.requested_at
  pub submitted : j.payment_submitted_at ≡ i.payment_submitted_at
  pub uninstalled : j.uninstalled_at ≡ i.uninstalled_at
  pub purged : j.purge_after ≡ i.purge_after
  pub installed : is_some i.installed_at ≡ true → is_some j.installed_at ≡ true

Keeps-refl : (i : Installation) → Keeps i i
Keeps-refl i = record {
  state = refl;
  enabled = refl;
  billing = refl;
  requested = refl;
  submitted = refl;
  uninstalled = refl;
  purged = refl;
  installed = λ h. h;
}

migrate-Keeps :
    (size : FieldMap → ℕ) (actor : String) (quotas : Capacity) (n : ℕ) (v : Version)
    (os : List Operation) (loaded : List Record) (c : Configuration) (now : ℕ) (run : Run)
    (w w' : World)
    → migrate size actor quotas n v os loaded c now run w ≡ ok w'
    → Keeps w.row w'.row
unfolding migrate
migrate-Keeps size actor quotas n v os loaded c now run w w' h = record {
  state = ground arith;
  enabled = ground arith;
  billing = ground arith;
  requested = ground arith;
  submitted = ground arith;
  uninstalled = ground arith;
  purged = ground arith;
  installed = λ i. ground arith;
}

rollback_migration-Keeps :
    (quotas : Capacity) (v : Version) (c : Configuration) (found : Option Run) (w : World)
    (r : World × Run)
    → rollback_migration quotas v c found w ≡ ok r
    → Keeps w.row r.0.row
unfolding rollback_migration
rollback_migration-Keeps quotas v c found w r h = record {
  state = ground arith;
  enabled = ground arith;
  billing = ground arith;
  requested = ground arith;
  submitted = ground arith;
  uninstalled = ground arith;
  purged = ground arith;
  installed = λ i. ground arith;
}

module _ (l : Loaded) (w : Written) where
  same-Keeps : w.row ≡ l.row → Keeps l.row w.row
  same-Keeps e = subst (Keeps l.row) (sym e) (Keeps-refl l.row)

  apply_migration-Keeps :
      (s : Setting) (v : Version) (os : List Operation) (loaded : List Record) (c : Configuration)
      (now : ℕ) (previous : Option Run) (world world' : World)
      → (apply_migration s.size s.actor s.quotas s.max_attempts v os loaded c now s.fresh previous
          world).0
        ≡ ok world'
      → Keeps world.row world'.row
  unfolding apply_migration
  apply_migration-Keeps s v os loaded c now previous world world' h =
      migrate-Keeps s.size s.actor s.quotas s.max_attempts v os loaded c now
        (start_run s.fresh previous) world world' (ground arith)

  migrated-Keeps :
      (plan : Plan) (d : Data) (r : Result World × Option Run)
      → ((world : World) → r.0 ≡ ok world → Keeps l.row world.row)
      → (migrated plan l d r).0 ≡ ok w
      → Keeps l.row w.row
  migrated-Keeps plan d (ok world, run) keeps h =
      subst (Keeps l.row) (ground arith) (keeps world refl)
  migrated-Keeps plan d (err e, run) keeps h = cc

  carry_out-Keeps :
      (s : Setting) (c : Context) (d : Data) (plan : Result (Option Plan))
      → (carry_out s c l d plan).0 ≡ ok w
      → Keeps l.row w.row
  carry_out-Keeps s c d (err e) h = cc
  carry_out-Keeps s c d (ok none) h = same-Keeps (ground arith)
  carry_out-Keeps s c d (ok (some plan)) h = by_migration (migration_of l plan.version) h
    where
      by_migration :
          (m : Option Migration) → (carry_out_with s c plan l d m).0 ≡ ok w → Keeps l.row w.row
      by_migration none h = record {
        state = ground arith;
        enabled = ground arith;
        billing = ground arith;
        requested = ground arith;
        submitted = ground arith;
        uninstalled = ground arith;
        purged = ground arith;
        installed = λ i. ground arith;
      }
      by_migration (some m) h =
          migrated-Keeps plan d
            (apply_migration s.size s.actor s.quotas s.max_attempts plan.version m.operations
              (s.load m.operations) plan.configuration c.now s.fresh d.run
              (record { row = l.row; records = d.records; school_bytes = d.school_bytes }))
            (apply_migration-Keeps s plan.version m.operations (s.load m.operations)
              plan.configuration c.now d.run
              (record { row = l.row; records = d.records; school_bytes = d.school_bytes }))
            h

  -- An upgrade leaves the state, the billing and the times of an installation, except that of its
  -- installation, in every state that the installation is in.
  pub upgrade-Keeps :
      (s : Setting) (c : Context) (id : String) (acknowledged : Bool) (d : Data)
      → (upgrade s c id acknowledged (some l) d).0 ≡ ok w
      → Keeps l.row w.row
  unfolding upgrade
  upgrade-Keeps s c id acknowledged d h = carry_out-Keeps s c d (plan_upgrade c id acknowledged l) h

  unmigrate-Keeps :
      (plan : Plan) (d : Data) (r : Result (World × Run))
      → ((done : World × Run) → r ≡ ok done → Keeps l.row done.0.row)
      → (unmigrate plan d r).0 ≡ ok w
      → Keeps l.row w.row
  unmigrate-Keeps plan d (ok (world, run)) keeps h =
      subst (Keeps l.row) (ground arith) (keeps (world, run) refl)
  unmigrate-Keeps plan d (err e) keeps h = cc

  return_to-Keeps :
      (s : Setting) (d : Data) (plan : Result Plan)
      → (return_to s l d plan).0 ≡ ok w
      → Keeps l.row w.row
  return_to-Keeps s d (err e) h = cc
  return_to-Keeps s d (ok plan) h =
      elim (Bool-cases
        (is_declarative l.extension.runtime && is_some l.row.configuration.migration_run_id)) [
          | inl t ↦ undone t
          | inr f ↦ plain f
        ]
    where
      undone :
          (is_declarative l.extension.runtime && is_some l.row.configuration.migration_run_id)
            ≡ true
          → Keeps l.row w.row
      undone t =
          unmigrate-Keeps plan d
            (rollback_migration s.quotas plan.version plan.configuration d.run
              (record { row = l.row; records = d.records; school_bytes = d.school_bytes }))
            (rollback_migration-Keeps s.quotas plan.version plan.configuration d.run
              (record { row = l.row; records = d.records; school_bytes = d.school_bytes }))
            (ground arith)

      plain :
          (is_declarative l.extension.runtime && is_some l.row.configuration.migration_run_id)
            ≡ false
          → Keeps l.row w.row
      plain f = record {
        state = ground arith;
        enabled = ground arith;
        billing = ground arith;
        requested = ground arith;
        submitted = ground arith;
        uninstalled = ground arith;
        purged = ground arith;
        installed = λ i. ground arith;
      }

  pub rollback-Keeps :
      (s : Setting) (c : Context) (target : Option String) (d : Data)
      → (rollback s c target (some l) d).0 ≡ ok w
      → Keeps l.row w.row
  unfolding rollback
  rollback-Keeps s c target d h = elim (Bool-cases (is_target_installed target l)) [
    | inl t ↦ same-Keeps (ground arith)
    | inr f ↦ return_to-Keeps s d (plan_rollback c target l) (ground arith)
  ]

agrees-Keeps :
    (p : Pricing) (i j : Installation) (s : State)
    → Keeps i j
    → agrees p i s ≡ true
    → agrees p j s ≡ true
agrees-Keeps p i j State.requested k h = ground arith
agrees-Keeps p i j State.payment_review k h = ground arith
agrees-Keeps p i j State.approved k h = ground arith
agrees-Keeps p i j State.installed k h = ground arith
agrees-Keeps p i j State.active k h = ground arith
agrees-Keeps p i j State.uninstalled k h = ground arith

-- The columns that a state goes with are among those that are kept.
pub Keeps-IsConsistent :
    (p : Pricing) (i j : Installation) → Keeps i j → IsConsistent p i → IsConsistent p j
unfolding lifecycle_state
Keeps-IsConsistent p i j k h = (
  ground arith,
  subst (λ s. agrees p j s ≡ true) same (agrees-Keeps p i j (lifecycle_state i) k h.1),
)
  where
    same : lifecycle_state i ≡ lifecycle_state j
    same = let e = h.0 in ground arith

abbrev removed : Context → Installation → Installation
removed c i = record i {
  enabled = false;
  uninstalled_at = some c.now;
  purge_after = some (c.now + c.grace_days * day_ms);
  lifecycle_state = some State.uninstalled;
}

-- After an accepted uninstallation of an extension that is no theme, the checks of an upgrade answer as they
-- did before it: where they accepted a version, they accept it still, with the same plan.
pub plan_upgrade-uninstall :
    (c c' : Context) (id : String) (acknowledged : Bool) (l : Loaded) (w : Written)
    → is_theme l.extension.runtime ≡ false
    → uninstall c' (some l) ≡ ok w
    → plan_upgrade c id acknowledged (record l { row = w.row }) ≡ plan_upgrade c id acknowledged l
unfolding uninstall plan_upgrade lifecycle_state admit_version assert_allowed
plan_upgrade-uninstall c c' id acknowledged l w t h =
    elim (Bool-cases (is_state (lifecycle_state l.row) State.uninstalled)) [
      | inl e ↦
          let same : w.row ≡ l.row = ground arith in
          ap (λ r. plan_upgrade c id acknowledged (record l { row = r })) same
      | inr e ↦
          let row : w.row ≡ removed c' l.row = ground arith in
          ap (λ r. plan_upgrade c id acknowledged (record l { row = r })) row
          ∙ rw t (elim (Bool-cases l.row.enabled) [ inl y ↦ ground arith | inr n ↦ ground arith ])
    ]

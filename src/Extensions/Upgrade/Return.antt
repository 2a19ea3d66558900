-- ===== src/Extensions/Upgrade/Return.antt =====
-- Where a rollback goes.
use wattanman.Base.{
  ◌&&◌, Bool-cases, Option-cases, eq_iff, Option, none, some, ◌≡◌, refl, is_some, arith, Result, ok,
  err, inl, inr, ◌∙◌, ap, sym,
}
use wattanman.Extensions.Types.{Configuration, Loaded, Version, Written, is_declarative}
use wattanman.Extensions.Migrations.{Capacity, Run, World, rollback_migration}
use wattanman.Extensions.Lifecycle.{Context}
use wattanman.Extensions.Upgrade.{
  Setting, Data, Plan, rollback, plan_rollback, is_target, return_to, unmigrate,
}

plan_rollback-cases :
    (c : Context) (l : Loaded) (plan : Plan)
    → plan_rollback c none l ≡ ok plan
    → (l.row.configuration.rollback_version_id ≡ some plan.version.id)
      × (plan.configuration.rollback_version_id ≡ some l.row.installed_version_id)
unfolding plan_rollback
plan_rollback-cases c l plan h = elim (Option-cases l.row.configuration.rollback_version_id) [
  | inl n ↦ absurd (ground arith)
  | inr (id, e) ↦ elim (Option-cases (c.versions.find_first (is_target id l.row.extension_id))) [
    | inl n ↦ absurd (ground arith)
    | inr (version, found) ↦
        let (m, t) = c.versions.find_first_meets (is_target id l.row.extension_id) version found in
        let same : version.id ≡ id = (eq_iff _ _).0 (ground arith) in (ground arith, ground arith)
  ]
]

rollback_migration-written :
    (quotas : Capacity) (v : Version) (c : Configuration) (found : Option Run) (w : World)
    (r : World × Run)
    → rollback_migration quotas v c found w ≡ ok r
    → (r.0.row.installed_version_id ≡ v.id)
      × (r.0.row.configuration.rollback_version_id ≡ c.rollback_version_id)
unfolding rollback_migration
rollback_migration-written quotas v c found w r h = (ground arith, ground arith)

module _ (s : Setting) (c : Context) (l : Loaded) (d : Data) (w : Written) where
  -- The row is at the plan's version, which it came to by the plan's configuration.
  abbrev Goes : Plan → Type 0
  Goes plan =
      (w.row.installed_version_id ≡ plan.version.id)
      × (w.row.configuration.rollback_version_id ≡ plan.configuration.rollback_version_id)

  unmigrate-Goes :
      (plan : Plan) (r : Result (World × Run))
      → ((done : World × Run)
          → r ≡ ok done
          → (done.0.row.installed_version_id ≡ plan.version.id)
            × (done.0.row.configuration.rollback_version_id
                ≡ plan.configuration.rollback_version_id))
      → (unmigrate plan d r).0 ≡ ok w
      → Goes plan
  unmigrate-Goes plan (ok (world, run)) goes h =
      let (version, configuration) = goes (world, run) refl in (ground arith, ground arith)
  unmigrate-Goes plan (err e) goes h = cc

  return_to-Goes : (plan : Plan) → (return_to s l d (ok plan)).0 ≡ ok w → Goes plan
  return_to-Goes plan h =
      elim (Bool-cases
        (is_declarative l.extension.runtime && is_some l.row.configuration.migration_run_id)) [
          | inl t ↦
              unmigrate-Goes plan
                (rollback_migration s.quotas plan.version plan.configuration d.run world)
                (rollback_migration-written s.quotas plan.version plan.configuration d.run world)
                (ground arith)
          | inr f ↦ (ground arith, ground arith)
        ]
    where
      world : World
      world = record { row = l.row; records = d.records; school_bytes = d.school_bytes }

  -- A rollback without a target moves the row to the version that its configuration names, and the
  -- configuration then names the version that the row came from, so that a second rollback without a
  -- target asks for that one.
  pub rollback-swaps :
      (rollback s c none (some l) d).0 ≡ ok w
      → (l.row.configuration.rollback_version_id ≡ some w.row.installed_version_id)
        × (w.row.configuration.rollback_version_id ≡ some l.row.installed_version_id)
  unfolding rollback
  rollback-swaps h = planned (plan_rollback c none l) refl h
    where
      planned :
          (r : Result Plan)
          → plan_rollback c none l ≡ r
          → (return_to s l d r).0 ≡ ok w
          → (l.row.configuration.rollback_version_id ≡ some w.row.installed_version_id)
            × (w.row.configuration.rollback_version_id ≡ some l.row.installed_version_id)
      planned (err e) p h = cc
      planned (ok plan) p h =
          let (target, kept) = plan_rollback-cases c l plan p in
          let (version, configuration) = return_to-Goes plan h in
          (target ∙ ap some (sym version), configuration ∙ kept)

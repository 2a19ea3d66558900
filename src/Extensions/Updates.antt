-- ===== src/Extensions/Updates.antt =====
-- backend/src/platform/extension-update.service.ts: the scheduled search for updates. The bucket of a
-- school for a version, which the code takes from a SHA-256 digest, is an argument; so is the answer of
-- the submission of a job. A target's failures are counted before the loop over the installations.
pub mod Rollout
use wattanman.Base.{
  ℕ, String, Bool, true, false, not, ◌&&◌, ◌||◌, Option, none, some, List, [], ◌∷◌, filter,
  includes, is_empty, is_some, leb, ltb, str_eq, if◌then◌else◌, Result, ok, err,
}
use wattanman.Extensions.Types.{
  Policy, manual, automatic, Group, internal, pilot, general, Version, Installation, Loaded,
}

pub data Stage : Type 0 where
  internal_stage pilot_stage percent_5 percent_25 full unknown : Stage

-- A version that may be rolled out; a stage that is not set is that of the internal schools.
pub record Target : Type 0 where
  pub version : Version
  pub stage : Stage
  pub paused : Bool
  pub failures : ℕ

abbrev is_early : Group → Bool
is_early internal = true
is_early pilot = true
is_early general = false

abbrev is_internal : Group → Bool
is_internal internal = true
is_internal _ = false

-- `bucket` gives the number below 100 that a version and a school hash to.
unfoldable pub in_rollout : (bucket : String → String → ℕ) → Installation → Target → Bool
in_rollout bucket i t = in_stage t.stage
  where
    in_percent : ℕ → Bool
    in_percent percent = is_early i.rollout_group || ltb (bucket t.version.id i.school_id) percent

    in_stage : Stage → Bool
    in_stage internal_stage = is_internal i.rollout_group
    in_stage pilot_stage = is_early i.rollout_group
    in_stage full = true
    in_stage percent_5 = in_percent 5
    in_stage percent_25 = in_percent 25
    in_stage unknown = false

-- The answer, and the target, which is paused where it failed too often.
unfoldable pub target_available : ℕ → Target → Bool × Target
target_available threshold t =
    if t.paused
    then (false, t)
    else (if ltb t.failures threshold then (true, t) else (false, record t { paused = true }))

abbrev is_automatic : Policy → Bool
is_automatic automatic = true
is_automatic _ = false

abbrev is_manual : Policy → Bool
is_manual manual = true
is_manual _ = false

-- What the loop does with an installation: nothing, an upgrade that was submitted, or a version that
-- is made known, with or without a notification.
pub data Decision : Type 0 where
  skipped : Decision
  submitted : (version_id : String) → Decision
  made_known : Installation → Bool → Decision

abbrev pub added_permissions : Loaded → Target → List String
added_permissions l t = filter (λ p. not (includes l.version.permissions p)) t.version.permissions

abbrev is_at : Option String → String → Bool
is_at none id = false
is_at (some held) id = str_eq held id

abbrev make_known : ℕ → Loaded → Target → Decision
make_known now l t =
    let notify =
      not (is_at l.row.available_version_id t.version.id) && not (is_manual l.row.update_policy) in
    made_known
      (record l.row {
        available_version_id = some t.version.id;
        update_notified_at = if notify then some now else l.row.update_notified_at;
      })
      notify

abbrev submit_or_make_known : ℕ → Loaded → Target → Result (Unit {0}) → Decision
submit_or_make_known now l t (ok tt) = submitted t.version.id
submit_or_make_known now l t (err e) = make_known now l t

abbrev decide :
    (bucket : String → String → ℕ) → ℕ → ℕ → Result (Unit {0}) → Loaded → Target → Decision
decide bucket threshold now submission l t =
    if str_eq t.version.id l.row.installed_version_id
    then skipped
    else (if not (target_available threshold t).0 || not (in_rollout bucket l.row t)
        then skipped
        else (if is_automatic l.row.update_policy && is_empty (added_permissions l t)
            then submit_or_make_known now l t submission
            else make_known now l t))

-- The body of the loop for an installation and the latest version of its extension.
unfoldable pub update_one :
    (bucket : String → String → ℕ) → ℕ → ℕ → Result (Unit {0}) → Loaded → Option Target → Decision
unfolding target_available in_rollout
update_one bucket threshold now submission l none = skipped
update_one bucket threshold now submission l (some t) = decide bucket threshold now submission l t

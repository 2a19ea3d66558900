-- ===== src/Extensions/Updates/Rollout.antt =====
-- Which installations an update reaches.
use wattanman.Base.{
  ℕ, ◌≤◌, String, true, false, not, In, empty-In, filter_complete, includes, includes-In, is_empty,
  some, ◌≡◌, arith, Result, ok, str_eq, ltb, Bool-cases, inl, inr,
}
use wattanman.Extensions.Types.{automatic, Installation, Loaded}
use wattanman.Extensions.Updates.{
  Stage, internal_stage, pilot_stage, percent_5, percent_25, full, unknown, Target, in_rollout,
  target_available, submitted, update_one, added_permissions,
}

-- The place of a stage in the order in which a rollout is widened.
abbrev pub width : Stage → ℕ
width unknown = 0
width internal_stage = 1
width pilot_stage = 2
width percent_5 = 3
width percent_25 = 4
width full = 5

-- A rollout that is widened reaches each installation that it reached before.
pub in_rollout-widened :
    (bucket : String → String → ℕ) (i : Installation) (t : Target) (stage : Stage)
    → width t.stage ≤ width stage
    → in_rollout bucket i t ≡ true
    → in_rollout bucket i (record t { stage = stage }) ≡ true
unfolding in_rollout
in_rollout-widened bucket i t stage w h = ground arith

-- An upgrade that was submitted is one to the version of the target, which is not the installed one, for
-- an installation that is updated automatically; the target is not paused, has failed less often than the
-- threshold, has no permission that the current version lacks, and is rolled out to the installation; and
-- the submission was accepted.
pub update_one-submitted :
    (bucket : String → String → ℕ) (threshold now : ℕ) (submission : Result (Unit {0})) (l : Loaded)
    (t : Target) (id : String)
    → update_one bucket threshold now submission l (some t) ≡ submitted id
    → (id ≡ t.version.id)
      × (str_eq id l.row.installed_version_id ≡ false)
      × (submission ≡ ok tt)
      × (l.row.update_policy ≡ automatic)
      × (t.paused ≡ false)
      × (ltb t.failures threshold ≡ true)
      × (in_rollout bucket l.row t ≡ true)
      × ((p : String) → In p t.version.permissions → In p l.version.permissions)
unfolding update_one target_available
update_one-submitted bucket threshold now submission l t id h = (
  ground arith,
  ground arith,
  ground arith,
  ground arith,
  ground arith,
  ground arith,
  ground arith,
  λ p m. elim (Bool-cases (includes l.version.permissions p)) [
    | inl y ↦ includes-In l.version.permissions p y
    | inr n ↦
        let e : is_empty (added_permissions l t) ≡ true = ground arith in
        absurd (
          empty-In (added_permissions l t) p e (
            filter_complete (λ q. not (includes l.version.permissions q)) p t.version.permissions m
              (ground arith)))
  ],
)

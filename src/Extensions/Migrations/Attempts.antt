-- ===== src/Extensions/Migrations/Attempts.antt =====
-- How often a migration is tried before an operator has to act.
use native.Mathlib.Nat.{add-zero, add-suc, suc-add, zero-add}
use wattanman.Base.{
  ℕ, String, zero, suc, ◌+◌, ◌<◌, ◌≡◌, refl, Option, none, some, List, [], ◌∷◌, arith, err, leb,
  if◌then◌else◌, length, Error,
}
use wattanman.Extensions.Types.{Operation, Version, Configuration}
use wattanman.Extensions.Migrations.{
  FieldMap, Record, Capacity, Run, failed, intervention_required, World, start_run, migrate,
  apply_migration,
}

module _ (size : FieldMap → ℕ) (actor : String) (quotas : Capacity) (max_attempts : ℕ)
    (version : Version) (os : List Operation) (loaded : List Record) (configuration : Configuration)
    (fresh : Run) (w : World) where
  -- Attempts at the given times, each finding the run that the one before it left.
  pub attempt_all : List ℕ → Option Run → Option Run
  attempt_all [] previous = previous
  attempt_all (now ∷ nows) previous =
      attempt_all nows
        (apply_migration size actor quotas max_attempts version os loaded configuration now fresh
          previous w).1

  -- The run after `n` failed attempts.
  abbrev pub HasFailed : ℕ → Option Run → Type 0
  HasFailed zero run = run ≡ none
  HasFailed (suc n) none = ⊥
  HasFailed (suc n) (some run) =
      (run.attempts ≡ (if leb max_attempts (suc n) then max_attempts else suc n))
      × (run.status ≡ (if leb max_attempts (suc n) then intervention_required else failed))

  module _
      (fails : (now : ℕ) (run : Run)
        → (e : Error) × (migrate size actor quotas max_attempts version os loaded configuration now
              run w
            ≡ err e))
      (some_attempts : 0 < max_attempts) where
    attempt-HasFailed :
        (n now : ℕ) (previous : Option Run)
        → HasFailed n previous
        → HasFailed
            (suc n)
            (apply_migration size actor quotas max_attempts version os loaded configuration now
              fresh previous w).1
    unfolding apply_migration
    attempt-HasFailed zero now previous h =
        let (e, f) = fails now (start_run fresh previous) in ground arith
    attempt-HasFailed (suc n) now none h = elim h [ ]
    attempt-HasFailed (suc n) now (some run) h =
        let (e, f) = fails now (start_run fresh (some run)) in ground arith

    attempt_all-HasFailed :
        (n : ℕ) (nows : List ℕ) (previous : Option Run)
        → HasFailed n previous
        → HasFailed (n + length nows) (attempt_all nows previous)
    unfolding attempt_all
    attempt_all-HasFailed n [] previous h = rw add-zero h
    attempt_all-HasFailed n (now ∷ nows) previous h =
        rw (add-suc, ← suc-add)
          (attempt_all-HasFailed (suc n) nows
            (apply_migration size actor quotas max_attempts version os loaded configuration now
              fresh previous w).1
            (attempt-HasFailed n now previous h))

    -- While a migration fails, each attempt is counted up to the maximum; from then on the run
    -- waits for an operator and is not tried again.
    pub attempt_all_failing : (nows : List ℕ) → HasFailed (length nows) (attempt_all nows none)
    attempt_all_failing nows =
        rw (← zero-add (length nows)) (attempt_all-HasFailed 0 nows none refl)

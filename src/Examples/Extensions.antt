-- ===== src/Examples/Extensions.antt =====
-- Versions, kill switches, dependencies, migrations, lifecycle jobs and updates, each on a small input.
use wattanman.Base.{
  ℕ, ◌≤◌, String, ◌≡◌, ◌↔◌, refl, true, false, none, some, List, [], ◌∷◌, arith, ok, err, Result,
  Error, In, inl, find, filter, any, length, ltb, str_eq, if◌then◌else◌, conflict,
}
use wattanman.Base.Map
use wattanman.Base.Map.{Map, empty, set}
use wattanman.Base.Table.{Table, of_list}
use wattanman.Extensions.Types.{
  Policy, Operator, Comparator, Dependency, Version, Loaded, Operation,
}
use wattanman.Extensions.Controls.{KillSwitch, Scope, assert_allowed}
use wattanman.Extensions.Controls.Blocking.{Covers, assert_allowed_iff}
use wattanman.Extensions.Dependencies.{permission_review, assert_dependencies, is_peer}
use wattanman.Extensions.Dependencies.Satisfied.{Provides, assert_dependencies-Provides}
use wattanman.Extensions.Migrations.{
  FieldMap, Record, Store, Bytes, Run, RunStatus, World, migrate, migrate_fields, migrate_all,
  restore_all,
}
use wattanman.Extensions.Migrations.RoundTrip.{has, signed, restore_all-migrate_all}
use wattanman.Extensions.Jobs
use wattanman.Extensions.Jobs.{
  Job, Input, Quotas, Command, claim, execute, submit, is_of_school, counts,
}
use wattanman.Extensions.Jobs.Submission.{submit-bounded}
use wattanman.Extensions.Updates.{Stage, Target, Decision, in_rollout, update_one}
use wattanman.Extensions.Updates.Rollout.{update_one-submitted}
use wattanman.Examples.Sample.{first_version, second_version, active_row, loaded, no_configuration}

abbrev one_two : List Comparator
one_two =
    record { operator = Operator.ge; target = record { major = 1; minor = 2; patch = 0 } }
    ∷ record { operator = Operator.lt; target = record { major = 2; minor = 0; patch = 0 } }
    ∷ []

abbrev old_switch : KillSwitch
old_switch = record { scope_type = Scope.school; scope_id = "s1"; capability = ""; active = false }

assert_allowed_iff_example :
    (assert_allowed (of_list (old_switch ∷ [])) (loaded active_row) "v1" none ≡ ok tt) ↔ (
      (s : KillSwitch)
      → In s (old_switch ∷ [])
      → s.active ≡ true
      → ¬ Covers (loaded active_row) "v1" none s)
assert_allowed_iff_example =
    assert_allowed_iff (of_list (old_switch ∷ [])) (loaded active_row) "v1" none

abbrev wider_version : Version
wider_version = record second_version { permissions = "books:read" ∷ "books:write" ∷ [] }

abbrev on_library : Dependency
on_library = record { key = "library"; version_range = []; optional = false }

abbrev reading_version : Version
reading_version = record first_version { id = "w1"; dependencies = on_library ∷ [] }

abbrev installed : Table Loaded
installed = of_list (loaded active_row ∷ [])

reading_accepted : assert_dependencies installed "s1" "reading" reading_version none ≡ ok tt
unfolding assert_dependencies filter wattanman.Extensions.Dependencies.resolve_dependencies
    wattanman.Extensions.Dependencies.resolve wattanman.Extensions.Dependencies.get_active any
reading_accepted = refl

assert_dependencies-Provides_example :
    (l : Loaded) × In l installed.rows × Provides "s1" none on_library l
assert_dependencies-Provides_example =
    assert_dependencies-Provides installed "s1" "reading" reading_version none reading_accepted
      on_library (inl refl) refl

abbrev renaming : List Operation
renaming =
    Operation.rename_field "book" "name" "title" ∷ Operation.set_default "loan" "days" "14" ∷ []

abbrev fields : FieldMap
fields = set (set empty "name" "Emma") "year" "1815"

abbrev renamed : FieldMap
renamed = Map.delete (set fields "title" "Emma") "name"

fields_migrated : migrate_fields renaming "book" fields ≡ ok renamed
unfolding migrate_fields wattanman.Extensions.Migrations.apply_operation
fields_migrated = refl

abbrev name_field : String
name_field = "name"

abbrev title_field : String
title_field = "title"

abbrev loan_resource : String
loan_resource = "loan"

abbrev book : Record
book = record {
  id = "b1";
  resource = "book";
  fields = fields;
  byte_size = 30;
  version_id = "v1";
  schema_version = 1;
  concurrency_version = 4;
  updated_by = none;
}

abbrev books : Store
books = record { records = set empty "b1" book; bytes = record { added = 0; removed = 0 } }

abbrev renamed_book : Record
renamed_book = record book {
  fields = renamed;
  byte_size = 31;
  version_id = "v2";
  concurrency_version = 5;
  updated_by = some "u1";
}

abbrev renamed_books : Store
renamed_books = record {
  records = set books.records "b1" renamed_book;
  bytes = record { added = 31; removed = 30 };
}

books_migrated :
    migrate_all (λ f. 31) "u1" second_version renaming (book ∷ []) books ≡ ok renamed_books
unfolding migrate_all migrate_fields wattanman.Extensions.Migrations.apply_operation
books_migrated = refl

restore_all-migrate_all_example :
    (final : Store) × (restore_all
        (book ∷ [])
        (record { records = renamed_books.records; bytes = books.bytes })
      ≡ ok final)
    × ((k : String)
        → final.records k
          ≡ (if has (book ∷ []) k then signed "u1" (books.records k) else books.records k))
restore_all-migrate_all_example =
    restore_all-migrate_all (λ f. 31) "u1" second_version renaming (book ∷ []) books renamed_books
      books.bytes (refl, tt) books_migrated

abbrev clashing : List Operation
clashing = Operation.rename_field "book" "name" "year" ∷ []

abbrev world : World
world = record { row = active_row; records = books.records; school_bytes = 30 }

abbrev fresh_run : Run
fresh_run = record {
  id = "m1";
  installation_id = "i1";
  from_version_id = "v1";
  to_version_id = "v2";
  status = RunStatus.pending;
  attempts = 0;
  backups = [];
}

clash_fails :
    (now : ℕ) (run : Run)
    → (e : Error) × (migrate
          (λ f. 31)
          "u1"
          (record { installation_bytes = 100; school_bytes = 100 })
          2
          second_version
          clashing
          (book ∷ [])
          no_configuration
          now
          run
          world
        ≡ err e)
unfolding migrate migrate_all migrate_fields wattanman.Extensions.Migrations.apply_operation
clash_fails now run = (conflict, refl)

abbrev input : Input
input = record {
  school_id = "s1";
  extension_id = "e1";
  installation_id = some "i1";
  command = Command.upgrade;
  payload = "{}";
  idempotency_key = "k1";
}

abbrev queued_job : Job
queued_job = Jobs.new_job "j1" input

abbrev running_job : Job
running_job = record queued_job {
  status = Jobs.Status.running;
  attempts = 1;
  started_at = some 100;
}

job_claimed : claim 100 1000 1 queued_job ≡ some running_job
unfolding claim
job_claimed = refl

job_done : (execute 100 150 1000 1 (ok "done") queued_job).0 ≡ ok "done"
unfolding execute claim Jobs.complete
job_done = refl

abbrev quotas : Quotas
quotas = record { school = 2; extension = 3 }

within_school : length (filter (is_of_school "s1") (running_job ∷ [])) ≤ 2
unfolding filter
within_school = omega arith

abbrev second_input : Input
second_input = record input { idempotency_key = "k2" }

within_extension : length (filter (counts false second_input) (running_job ∷ [])) ≤ 3
unfolding filter
within_extension = omega arith

submit-bounded_example :
    (length (
        filter
          (is_of_school "s1")
          (submit quotas false (ok tt) "j2" second_input (running_job ∷ [])).1)
      ≤ 2)
    × (length (
          filter
            (counts false second_input)
            (submit quotas false (ok tt) "j2" second_input (running_job ∷ [])).1)
        ≤ 3)
submit-bounded_example =
    submit-bounded quotas false (ok tt) "j2" second_input (running_job ∷ []) within_school
      within_extension

job_submitted : (submit quotas false (ok tt) "j1" input []).0 ≡ ok queued_job
unfolding submit find filter
job_submitted = refl

abbrev target : Target
target = record {
  version = second_version;
  stage = Stage.pilot_stage;
  paused = false;
  failures = 1;
}

abbrev bucket : String → String → ℕ
bucket version_id school_id = 40

reached : in_rollout bucket active_row target ≡ true
unfolding in_rollout
reached = refl

update_submitted :
    update_one bucket 5 100 (ok tt) (loaded active_row) (some target) ≡ Decision.submitted "v2"
unfolding update_one filter any
update_submitted = refl

abbrev queue_answers : Result (Unit {0})
queue_answers = ok tt

update_one-submitted_example :
    ("v2" ≡ second_version.id)
    × (str_eq "v2" active_row.installed_version_id ≡ false)
    × (queue_answers ≡ ok tt)
    × (active_row.update_policy ≡ Policy.automatic)
    × (target.paused ≡ false)
    × (ltb 1 5 ≡ true)
    × (in_rollout bucket active_row target ≡ true)
    × ((p : String) → In p second_version.permissions → In p first_version.permissions)
update_one-submitted_example =
    update_one-submitted bucket 5 100 queue_answers (loaded active_row) target "v2" update_submitted

-- ===== src/Extensions/Jobs.antt =====
-- backend/src/platform/extension-lifecycle-jobs.service.ts: `submit`, and `execute` with its claim of
-- a job and the write that ends it. The payload and the result are JSON texts; the outcome of the
-- command under its lock, and that of the queue, are arguments. The columns that only describe the
-- actor are left out.
pub mod Claims
pub mod Submission
use wattanman.Base.{
  ℕ, ◌+◌, String, Bool, true, false, not, ◌&&◌, ◌||◌, Option, none, some, List, [], ◌∷◌, filter,
  find, length, leb, ltb, str_eq, if◌then◌else◌, Result, ok, err, Error, conflict, not_found, ◌>>=◌,
  ◌>>◌, throw_if,
}

pub data Command : Type 0 where
  install upgrade rollback activate deactivate uninstall purge_installation purge_extension :
      Command

pub data Status : Type 0 where
  queued running succeeded failed : Status

pub record Job : Type 0 where
  pub id : String
  pub school_id : String
  pub extension_id : String
  pub installation_id : Option String
  pub command : Command
  pub payload : String
  pub idempotency_key : String
  pub status : Status
  pub attempts : ℕ
  pub started_at : Option ℕ
  pub completed_at : Option ℕ
  pub error : Option Error
  pub result : Option String

-- What a job is submitted with.
pub record Input : Type 0 where
  pub school_id : String
  pub extension_id : String
  pub installation_id : Option String
  pub command : Command
  pub payload : String
  pub idempotency_key : String

pub record Quotas : Type 0 where
  pub school : ℕ
  pub extension : ℕ

abbrev pub command_name : Command → String
command_name install = "INSTALL"
command_name upgrade = "UPGRADE"
command_name rollback = "ROLLBACK"
command_name activate = "ACTIVATE"
command_name deactivate = "DEACTIVATE"
command_name uninstall = "UNINSTALL"
command_name purge_installation = "PURGE_INSTALLATION"
command_name purge_extension = "PURGE_EXTENSION"

-- `QUEUED` or `RUNNING`
abbrev pub is_active : Status → Bool
is_active queued = true
is_active running = true
is_active _ = false

abbrev pub is_of_school : String → Job → Bool
is_of_school school_id j = str_eq j.school_id school_id && is_active j.status

abbrev pub is_of_extension : String → Job → Bool
is_of_extension extension_id j = str_eq j.extension_id extension_id && is_active j.status

-- A request of a school sees the jobs of that school only, one of the platform all of them.
abbrev pub sees : Bool → String → Job → Bool
sees scoped school_id j = if scoped then str_eq j.school_id school_id else true

abbrev pub counts : Bool → Input → Job → Bool
counts scoped i j = sees scoped i.school_id j && is_of_extension i.extension_id j

abbrev pub has_key : Input → Job → Bool
has_key i j = str_eq j.school_id i.school_id && str_eq j.idempotency_key i.idempotency_key

abbrev pub new_job : String → Input → Job
new_job id i = record {
  id = id;
  school_id = i.school_id;
  extension_id = i.extension_id;
  installation_id = i.installation_id;
  command = i.command;
  payload = i.payload;
  idempotency_key = i.idempotency_key;
  status = queued;
  attempts = 0;
  started_at = none;
  completed_at = none;
  error = none;
  result = none;
}

abbrev pub create_job : Quotas → Bool → String → Input → List Job → Result Job
create_job quotas scoped id i jobs = do
  throw_if (leb quotas.school (length (filter (is_of_school i.school_id) jobs))) conflict
  throw_if (leb quotas.extension (length (filter (counts scoped i) jobs))) conflict
  ok (new_job id i)

-- A job that the queue refuses is deleted again.
abbrev pub enqueue : Result (Unit {0}) → List Job → Result Job → Result Job × List Job
enqueue (ok tt) jobs (ok j) = (ok j, j ∷ jobs)
enqueue (err e) jobs (ok j) = (err e, jobs)
enqueue queue jobs (err e) = (err e, jobs)

abbrev pub submit_new :
    Quotas
    → Bool
    → Result (Unit {0})
    → String
    → Input
    → List Job
    → Option Job
    → Result Job × List Job
submit_new quotas scoped queue id i jobs none =
    enqueue queue jobs (create_job quotas scoped id i jobs)
submit_new quotas scoped queue id i jobs (some j) =
    if not (str_eq (command_name j.command) (command_name i.command))
      || not (str_eq j.payload i.payload)
    then (err conflict, jobs)
    else (ok j, jobs)

-- `scoped`: the request is made by the school of the job, whose queries the policy of the tenants restricts
-- to its rows.
unfoldable pub submit :
    Quotas → Bool → Result (Unit {0}) → String → Input → List Job → Result Job × List Job
submit quotas scoped queue id i jobs =
    submit_new quotas scoped queue id i jobs (find (has_key i) jobs)

abbrev is_stale : ℕ → ℕ → Option ℕ → Bool
is_stale now timeout none = false
is_stale now timeout (some started) = leb (started + timeout) now

abbrev is_claimable : ℕ → ℕ → ℕ → Job → Status → Bool
is_claimable now timeout attempt j queued = true
is_claimable now timeout attempt j failed = true
is_claimable now timeout attempt j running =
    ltb j.attempts attempt || is_stale now timeout j.started_at
is_claimable now timeout attempt j succeeded = false

-- The `updateMany` that claims a job: `none` where it changes no row.
unfoldable pub claim : ℕ → ℕ → ℕ → Job → Option Job
claim now timeout attempt j =
    if is_claimable now timeout attempt j j.status
    then some (record j {
      status = running;
      attempts = attempt;
      started_at = some now;
      completed_at = none;
      error = none;
    })
    else none

abbrev is_purge : Command → Bool
is_purge purge_installation = true
is_purge purge_extension = true
is_purge _ = false

abbrev is_not_found : Error → Bool
is_not_found not_found = true
is_not_found _ = false

abbrev absent : String
absent = "{\"purged\":true,\"alreadyAbsent\":true}"

-- The write that ends a job at a time, with the answer. It names the job by its identifier alone.
unfoldable pub complete : ℕ → Result String → Job → Result String × Job
complete now (ok result) j =
    (ok result, record j { status = succeeded; result = some result; completed_at = some now })
complete now (err e) j =
    if is_not_found e && is_purge j.command
    then (ok absent, record j { status = succeeded; result = some absent; completed_at = some now })
    else (err e, record j { status = failed; error = some e; completed_at = some now })

abbrev run_claimed : ℕ → Result String → Job → Option Job → Result String × Job
run_claimed ended outcome j none = (err conflict, j)
run_claimed ended outcome j (some claimed) = complete ended outcome claimed

abbrev result_of : Option String → String
result_of none = "null"
result_of (some r) = r

abbrev execute_at : ℕ → ℕ → ℕ → ℕ → Result String → Job → Status → Result String × Job
execute_at now ended timeout attempt outcome j succeeded = (ok (result_of j.result), j)
execute_at now ended timeout attempt outcome j _ =
    run_claimed ended outcome j (claim now timeout attempt j)

-- `outcome` is that of the command under the lock of its resource, and `ended` the time it ends.
unfoldable pub execute : ℕ → ℕ → ℕ → ℕ → Result String → Job → Result String × Job
execute now ended timeout attempt outcome j =
    execute_at now ended timeout attempt outcome j j.status

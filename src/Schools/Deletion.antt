-- ===== src/Schools/Deletion.antt =====
-- backend/src/platform/school-deletion.service.ts: a request to delete a school, its approval, its
-- execution and the job that carries it out. A reason and a change ticket are taken without the spaces
-- around them. The queue, the object store, the database's cascade and the signing key are arguments:
-- the outcomes of their calls, and what is stored at each point.
pub mod Approval
pub mod Purging
use wattanman.Base.{
  ℕ, ◌+◌, String, Bool, true, false, not, ◌&&◌, ◌||◌, Option, none, some, List, [], ◌∷◌, is_empty,
  any, all, filter, includes, length, ltb, ◌==◌, str_eq, is_some, if◌then◌else◌, Result, ok, err,
  bad_request, conflict, not_found, unavailable, ◌>>=◌, ◌>>◌, throw_if, require,
}
use wattanman.Base.Table.{Table}

pub data Status : Type 0 where
  pending_approval approved queued executing completed failed : Status

pub record Request : Type 0 where
  pub id : String
  pub school_id : String
  pub school_name : String
  pub subdomain : String
  pub reason : String
  pub status : Status
  pub requested_by : String
  pub approved_by : Option String
  pub executed_by : Option String
  pub change_ticket : Option String
  pub attempts : ℕ
  pub deleted_objects : ℕ

pub record School : Type 0 where
  pub id : String
  pub name : String
  pub subdomain : String

pub record Hold : Type 0 where
  pub school_id : String
  pub active : Bool

abbrev is_pending_approval : Status → Bool
is_pending_approval Status.pending_approval = true
is_pending_approval _ = false

abbrev pub is_approved : Status → Bool
is_approved Status.approved = true
is_approved _ = false

abbrev pub is_completed : Status → Bool
is_completed Status.completed = true
is_completed _ = false

-- `PENDING_APPROVAL`, `APPROVED`, `QUEUED` or `EXECUTING`
abbrev is_open : Status → Bool
is_open Status.completed = false
is_open Status.failed = false
is_open _ = true

-- `QUEUED`, `EXECUTING` or `FAILED`
abbrev pub is_executable : Status → Bool
is_executable Status.queued = true
is_executable Status.executing = true
is_executable Status.failed = true
is_executable _ = false

abbrev pub holds : String → Hold → Bool
holds school_id h = str_eq h.school_id school_id && h.active

unfoldable pub assert_no_legal_hold : Table Hold → String → Result (Unit {0})
assert_no_legal_hold table school_id =
    throw_if (is_some (table.find_first (holds school_id))) conflict

abbrev pub is_open_for : String → Request → Bool
is_open_for school_id r = str_eq r.school_id school_id && is_open r.status

abbrev pub new_request : String → School → String → String → Request
new_request id school reason requester = record {
  id = id;
  school_id = school.id;
  school_name = school.name;
  subdomain = school.subdomain;
  reason = reason;
  status = Status.pending_approval;
  requested_by = requester;
  approved_by = none;
  executed_by = none;
  change_ticket = none;
  attempts = 0;
  deleted_objects = 0;
}

abbrev pub or_existing : Option Request → Request → Request
or_existing none new = new
or_existing (some r) new = r

-- `size` is the length of the reason; the new row has the identifier `id`.
unfoldable pub request :
    Table Hold → Table Request → Option School → String → String → ℕ → String → Result Request
request held requests found id reason size user = do
  throw_if (ltb size 10) bad_request
  school ← require found not_found
  throw_if (str_eq school.subdomain "platform") not_found
  assert_no_legal_hold held school.id
  ok (or_existing (requests.find_first (is_open_for school.id)) (new_request id school reason user))

unfoldable pub approve : Table Hold → Option Request → String → String → Result Request
approve held found reason user = do
  r ← require found not_found
  throw_if (not (is_pending_approval r.status)) conflict
  throw_if (str_eq r.requested_by user) conflict
  throw_if (str_eq reason "") bad_request
  assert_no_legal_hold held r.school_id
  ok (record r { status = Status.approved; approved_by = some user })

abbrev is_actor : Option String → String → Bool
is_actor none user = false
is_actor (some a) user = str_eq a user

abbrev pub admit_execution : Request → String → String → String → Result (Unit {0})
admit_execution r confirmed ticket user = do
  throw_if (not (is_approved r.status)) conflict
  throw_if (str_eq r.requested_by user || is_actor r.approved_by user) conflict
  throw_if (not (str_eq confirmed r.school_id)) bad_request
  throw_if (str_eq ticket "") bad_request

abbrev pub enqueue : Request → Result (Unit {0}) → Result Request × Request
enqueue r (ok tt) = (ok r, r)
enqueue r (err e) = (err e, r)

abbrev pub execute_admitted :
    Request → String → String → Result (Unit {0}) → Result (Unit {0}) → Result Request × Request
execute_admitted r ticket user enqueued (err e) = (err e, r)
execute_admitted r ticket user enqueued (ok tt) =
    enqueue
      (record r { status = Status.queued; executed_by = some user; change_ticket = some ticket })
      enqueued

-- The answer and the row that is left. `enqueued` is the answer of the queue.
unfoldable pub execute :
    Request → String → String → String → Result (Unit {0}) → Result Request × Request
execute r confirmed ticket user enqueued =
    execute_admitted r ticket user enqueued (admit_execution r confirmed ticket user)

-- What a run of the job meets: the signing key; the stored keys under the school's prefixes when it
-- lists them, whether a key's deletion succeeds, and the keys that it finds when it lists them again;
-- the number of schools that the deletion removes; the counts of the school's rows after it; and the
-- storing of the report.
pub record Run : Type 0 where
  pub signing : Result (Unit {0})
  pub keys : List String
  pub found_after : List String
  pub delete_private : String → Result (Unit {0})
  pub removed_schools : ℕ
  pub remaining : List ℕ
  pub report : Result (Unit {0})

-- `for (const key of keys) await deletePrivate(key)`
unfoldable pub delete_all : (String → Result (Unit {0})) → List String → Result (Unit {0})
delete_all f [] = ok tt
delete_all f (k ∷ ks) = f k >> delete_all f ks

abbrev pub is_zero : ℕ → Bool
is_zero n = n == 0

-- The body of the `try` up to the listing of the keys, and from their deletion on.
unfoldable pub prepare : Table Hold → Run → Request → Result (Unit {0})
prepare held run r = run.signing >> assert_no_legal_hold held r.school_id

unfoldable pub wipe : Run → Result (Unit {0})
wipe run = do
  delete_all run.delete_private run.keys
  throw_if (not (is_empty run.found_after)) unavailable
  throw_if (ltb 1 run.removed_schools) conflict
  throw_if (any (λ n. not (is_zero n)) run.remaining) conflict
  run.report

abbrev pub finish : Request → Result (Unit {0}) → Result Request × Request
finish r (ok tt) =
    (ok (record r { status = Status.completed }), record r { status = Status.completed })
finish r (err e) = (err e, record r { status = Status.failed })

-- The number of deleted objects is written once the keys are listed.
abbrev pub attempted : Run → Request → Result (Unit {0}) → Result Request × Request
attempted run r (err e) = finish r (err e)
attempted run r (ok tt) =
    finish (record r { deleted_objects = r.deleted_objects + length run.keys }) (wipe run)

unfoldable pub execute_queued : Table Hold → Run → ℕ → Request → Result Request × Request
execute_queued held run attempt r =
    if is_completed r.status
    then (ok r, r)
    else (if is_executable r.status
        then attempted run (record r { status = Status.executing; attempts = attempt })
            (prepare held run r)
        else (err conflict, r))

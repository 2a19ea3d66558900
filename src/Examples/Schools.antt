-- ===== src/Examples/Schools.antt =====
-- Scoped queries, and a deletion from its request to the job.
use mathlib.Core.Path.{subst}
use wattanman.Base.{
  Bool, ap, inl, inr, find, filter, all, is_some, str_eq, ◌&&◌, ℕ, ◌+◌, String, ◌≡◌, ◌≢◌, refl,
  true, false, Option, none, some, List, [], ◌∷◌, arith, ok, err, Result, unavailable, conflict,
  length,
}
use wattanman.Base.Map.{Map, empty, set}
use wattanman.Base.Table.{Table, of_list}
use wattanman.Schools.Tenancy.{
  Query, Action, Value, Entry, scoped, apply_tenant_query_policy, flatten_unique_where,
}
use wattanman.Schools.Tenancy.Scoping.{selects, policy-selects}
use wattanman.Schools.Deletion
use wattanman.Schools.Deletion.{
  Request, School, Hold, Run, Status, admit_execution, approve, execute, execute_queued, prepare,
}
use wattanman.Schools.Deletion.Approval.{Reaches, Reaches-three_people, lost_job}
use wattanman.Schools.Deletion.Purging.{Verified, execute_queued-Verified}

abbrev no_object : String → List (String × String) → Map String → Bool
no_object key object row = false

abbrev owns_u1 : String → Map String → String → Bool
owns_u1 model where_ school_id = str_eq school_id "s1" && is_some (where_ "email")

abbrev by_email : List Entry
by_email = record { key = "email"; value = Value.plain "a@b.c" } ∷ []

abbrev query : Action → Query
query action = record {
  model = some "User";
  action = action;
  conditions = by_email;
  values = empty;
  rows = none;
  create_values = empty;
}

abbrev row : Map String
row = set (set empty "email" "a@b.c") "schoolId" "s1"

query-scoped :
    apply_tenant_query_policy "s1" owns_u1 (query Action.find_unique)
    ≡ ok (record (query Action.find_first) { conditions = scoped "s1" by_email })
unfolding apply_tenant_query_policy
query-scoped = refl

row_selected : selects no_object (scoped "s1" by_email) row ≡ true
unfolding filter all
row_selected = refl

policy-selects_example : row "schoolId" ≡ some "s1"
policy-selects_example =
    policy-selects no_object "s1" owns_u1 (query Action.find_unique)
      (record (query Action.find_first) { conditions = scoped "s1" by_email }) "User" row refl refl
      query-scoped row_selected

update_passed :
    apply_tenant_query_policy "s1" owns_u1 (query Action.update) ≡ ok (query Action.update)
unfolding apply_tenant_query_policy flatten_unique_where
update_passed = refl

abbrev pending_request : Request
pending_request = record {
  id = "r1";
  school_id = "s1";
  school_name = "North";
  subdomain = "north";
  reason = "closed for good";
  status = Status.pending_approval;
  requested_by = "a";
  approved_by = none;
  executed_by = none;
  change_ticket = none;
  attempts = 0;
  deleted_objects = 0;
}

abbrev approved_request : Request
approved_request = record pending_request { status = Status.approved; approved_by = some "b" }

abbrev queued_request : Request
queued_request = record approved_request {
  status = Status.queued;
  executed_by = some "c";
  change_ticket = some "T-1";
}

abbrev no_holds : Table Hold
no_holds = of_list []

abbrev clean_run : Run
clean_run = record {
  signing = ok tt;
  keys = "schools/s1/a" ∷ "schools/s1/b" ∷ [];
  found_after = [];
  delete_private = λ key. ok tt;
  removed_schools = 1;
  remaining = 0 ∷ 0 ∷ [];
  report = ok tt;
}

abbrev completed_request : Request
completed_request = record queued_request {
  status = Status.completed;
  attempts = 1;
  deleted_objects = 2;
}

pending_made :
    Deletion.request no_holds
      (of_list [])
      (some (record { id = "s1"; name = "North"; subdomain = "north" }))
      "r1"
      "closed for good"
      15
      "a"
    ≡ ok pending_request
unfolding Deletion.request Deletion.assert_no_legal_hold find
pending_made = refl

nothing_open : (of_list []).find_first (Deletion.is_open_for "s1") ≡ none
unfolding find
nothing_open = refl

pending_approved : approve no_holds (some pending_request) "agreed" "b" ≡ ok approved_request
unfolding approve Deletion.assert_no_legal_hold find
pending_approved = refl

approved_executed : (execute approved_request "s1" "T-1" "c" (ok tt)).1 ≡ queued_request
unfolding execute
approved_executed = refl

queued_run :
    execute_queued no_holds clean_run 1 queued_request ≡ (ok completed_request, completed_request)
unfolding execute_queued prepare Deletion.assert_no_legal_hold find Deletion.wipe
    Deletion.delete_all filter wattanman.Base.any
queued_run = refl

completed_request-Reaches : Reaches completed_request
completed_request-Reaches = subst Reaches (ap (λ (p : Result Request × Request). p.1) queued_run) (
    Reaches.by_job no_holds clean_run 1 queued_request (
      subst Reaches approved_executed (
        Reaches.by_execution approved_request "s1" "T-1" "c" (ok tt) (
          Reaches.by_approval no_holds pending_request approved_request "agreed" "b"
            (Reaches.by_request no_holds (of_list [])
              (record { id = "s1"; name = "North"; subdomain = "north" }) "r1" "closed for good" 15
              "a" pending_request nothing_open pending_made)
            pending_approved))))

Reaches-three_people_example :
    (a e : String) × (completed_request.approved_by ≡ some a)
    × (completed_request.executed_by ≡ some e)
    × (a ≢ "a")
    × (e ≢ "a")
    × (e ≢ a)
Reaches-three_people_example = Reaches-three_people completed_request completed_request-Reaches refl

execution_admitted : admit_execution approved_request "s1" "T-1" "c" ≡ ok tt
execution_admitted = refl

lost_job_example :
    let left = execute approved_request "s1" "T-1" "c" (err unavailable) in
    (left.0 ≡ err unavailable)
    × (left.1.status ≡ Status.queued)
    × ((confirmed ticket user : String) (enqueued : Result (Unit {0}))
        → (execute left.1 confirmed ticket user enqueued).0 ≡ err conflict)
    × ((reason user : String) → approve no_holds (some left.1) reason user ≡ err conflict)
lost_job_example = lost_job no_holds approved_request "s1" "T-1" "c" unavailable execution_admitted

not_completed : queued_request.status ≢ Status.completed
not_completed = λ e. cc

execute_queued-Verified_example : Verified no_holds clean_run queued_request
execute_queued-Verified_example =
    execute_queued-Verified no_holds clean_run 1 queued_request completed_request not_completed
      (ap (λ (p : Result Request × Request). p.0) queued_run)

prepared : prepare no_holds clean_run queued_request ≡ ok tt
unfolding prepare Deletion.assert_no_legal_hold find
prepared = refl

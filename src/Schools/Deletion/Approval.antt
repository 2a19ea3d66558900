-- ===== src/Schools/Deletion/Approval.antt =====
-- Who takes part in the deletion of a school.
use wattanman.Base.{
  ℕ, String, Bool, true, false, not, ◌&&◌, str_eq, Option-cases, Error, Option, none, some, ◌≡◌,
  refl, ◌≢◌, arith, eq_iff, Result, ok, err, inl, inr, conflict,
}
use wattanman.Base.Table.{Table}
use wattanman.Schools.Deletion.{
  Status, Request, School, Hold, request, approve, execute, execute_queued, Run, is_open_for,
  admit_execution,
}

-- A request from its creation on: each step is an operation, with what it leaves in the row, be it
-- accepted or refused.
pub data Reaches : Request → Type 0 where
  by_request :
      (held : Table Hold) (requests : Table Request) (s : School) (id reason : String) (size : ℕ)
      (user : String) (r : Request)
      → requests.find_first (is_open_for s.id) ≡ none
      → request held requests (some s) id reason size user ≡ ok r
      → Reaches r
  by_approval :
      (held : Table Hold) (r r' : Request) (reason user : String)
      → Reaches r
      → approve held (some r) reason user ≡ ok r'
      → Reaches r'
  by_execution :
      (r : Request) (confirmed ticket user : String) (enqueued : Result (Unit {0}))
      → Reaches r
      → Reaches (execute r confirmed ticket user enqueued).1
  by_job :
      (held : Table Hold) (run : Run) (attempt : ℕ) (r : Request)
      → Reaches r
      → Reaches (execute_queued held run attempt r).1

abbrev differs : String → Option String → Bool
differs by none = false
differs by (some a) = not (str_eq by a)

abbrev differ : Option String → Option String → Bool
differ none e = false
differ (some a) e = differs a e

-- What a status tells of the people: a second one has approved an approved request, and a third one
-- has executed it from then on.
abbrev involves : String → Option String → Option String → Status → Bool
involves by a e Status.pending_approval = true
involves by a e Status.approved = differs by a
involves by a e Status.queued = differs by a && differs by e && differ a e
involves by a e Status.executing = differs by a && differs by e && differ a e
involves by a e Status.completed = differs by a && differs by e && differ a e
involves by a e Status.failed = differs by a && differs by e && differ a e

abbrev pub is_signed : Request → Bool
is_signed r = involves r.requested_by r.approved_by r.executed_by r.status

request-is_signed :
    (held : Table Hold) (requests : Table Request) (s : School) (id reason : String) (size : ℕ)
    (user : String) (r : Request)
    → requests.find_first (is_open_for s.id) ≡ none
    → request held requests (some s) id reason size user ≡ ok r
    → is_signed r ≡ true
unfolding request
request-is_signed held requests s id reason size user r n h = ground arith

approve-is_signed :
    (held : Table Hold) (r r' : Request) (reason user : String)
    → approve held (some r) reason user ≡ ok r'
    → is_signed r' ≡ true
unfolding approve
approve-is_signed held r r' reason user h = ground arith

execute-is_signed :
    (r : Request) (confirmed ticket user : String) (enqueued : Result (Unit {0}))
    → is_signed r ≡ true
    → is_signed (execute r confirmed ticket user enqueued).1 ≡ true
unfolding execute
execute-is_signed r confirmed ticket user enqueued h = ground arith

execute_queued-is_signed :
    (held : Table Hold) (run : Run) (attempt : ℕ) (r : Request)
    → is_signed r ≡ true
    → is_signed (execute_queued held run attempt r).1 ≡ true
unfolding execute_queued
execute_queued-is_signed held run attempt r h = ground arith

Reaches-is_signed : (r : Request) → Reaches r → is_signed r ≡ true
Reaches-is_signed r (by_request held requests s id reason size user r' n h) =
    request-is_signed held requests s id reason size user r' n h
Reaches-is_signed r (by_approval held r0 r' reason user x h) =
    approve-is_signed held r0 r' reason user h
Reaches-is_signed r (by_execution r0 confirmed ticket user enqueued x) =
    execute-is_signed r0 confirmed ticket user enqueued (Reaches-is_signed r0 x)
Reaches-is_signed r (by_job held run attempt r0 x) =
    execute_queued-is_signed held run attempt r0 (Reaches-is_signed r0 x)

-- However a request came to its status, a completed one was approved and executed by two people, and
-- neither of them made the request.
pub Reaches-three_people :
    (r : Request)
    → Reaches r
    → r.status ≡ Status.completed
    → (a e : String) × (r.approved_by ≡ some a)
      × (r.executed_by ≡ some e)
      × (a ≢ r.requested_by)
      × (e ≢ r.requested_by)
      × (e ≢ a)
Reaches-three_people r x c =
    let t = Reaches-is_signed r x in
    elim (Option-cases r.approved_by) [
      | inl n ↦ absurd (ground arith)
      | inr (a, p) ↦ elim (Option-cases r.executed_by) [
        | inl n ↦ absurd (ground arith)
        | inr (e, q) ↦ (
          a,
          e,
          p,
          q,
          λ s. ground (arith, eq_iff r.requested_by a),
          λ s. ground (arith, eq_iff r.requested_by e),
          λ s. ground (arith, eq_iff a e),
        )
      ]
    ]

-- Where an execution is admitted and the queue refuses the job, the error is answered, the request is left
-- queued, and no further execution or approval of it is accepted, whoever asks for it.
pub lost_job :
    (held : Table Hold) (r : Request) (confirmed ticket user : String) (e : Error)
    → admit_execution r confirmed ticket user ≡ ok tt
    → let left = execute r confirmed ticket user (err e) in
      (left.0 ≡ err e)
      × (left.1.status ≡ Status.queued)
      × ((confirmed' ticket' user' : String) (enqueued : Result (Unit {0}))
          → (execute left.1 confirmed' ticket' user' enqueued).0 ≡ err conflict)
      × ((reason user' : String) → approve held (some left.1) reason user' ≡ err conflict)
unfolding execute approve
lost_job held r confirmed ticket user e h =
    rw h (refl, refl, λ confirmed' ticket' user' enqueued. refl, λ reason user'. refl)

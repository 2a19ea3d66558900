-- ===== src/Extensions/Jobs/Submission.antt =====
-- How many lifecycle jobs a school and an extension have at once.
use wattanman.Base.{
  Bool, ◌≤◌, ◌<◌, Option-cases, Result-cases, ◌⊎◌, inl, inr, String, none, some, List, ◌∷◌, filter,
  find, length, ◌≡◌, arith, Result, ok, eq_refl,
}
use wattanman.Extensions.Jobs.{
  Job, Input, Quotas, submit, submit_new, command_name, create_job, new_job, is_of_school, counts,
  has_key,
}

module _ (quotas : Quotas) (scoped : Bool) (queue : Result (Unit {0})) (id : String) (i : Input)
    (jobs : List Job) where
  submit-cases :
      ((submit quotas scoped queue id i jobs).1 ≡ jobs)
      ⊎ ((find (has_key i) jobs ≡ none)
          × (submit quotas scoped queue id i jobs ≡ (ok (new_job id i), new_job id i ∷ jobs))
          × (length (filter (is_of_school i.school_id) jobs) < quotas.school)
          × (length (filter (counts scoped i) jobs) < quotas.extension))
  unfolding submit
  submit-cases = elim (Option-cases (find (has_key i) jobs)) [
    | inr (j, e) ↦ inl (ground arith)
    | inl n ↦ elim (Result-cases (create_job quotas scoped id i jobs)) [
      | inr (e, f) ↦ inl (ground arith)
      | inl (j, f) ↦ elim (Result-cases queue) [
        | inr (e, q) ↦ inl (ground arith)
        | inl (t, q) ↦ inr (n, ground arith, ground arith, ground arith)
      ]
    ]
  ]

  -- No submission takes the school above its quota of queued and running jobs, nor the extension above its
  -- quota of those that the request sees: the ones of all schools in a request of the platform, the ones of
  -- the school in a request of a school.
  pub submit-bounded :
      length (filter (is_of_school i.school_id) jobs) ≤ quotas.school
      → length (filter (counts scoped i) jobs) ≤ quotas.extension
      → (length (filter (is_of_school i.school_id) (submit quotas scoped queue id i jobs).1)
          ≤ quotas.school)
        × (length (filter (counts scoped i) (submit quotas scoped queue id i jobs).1)
            ≤ quotas.extension)
  unfolding filter
  submit-bounded s e = elim submit-cases [
    | inl same ↦ (ground arith, ground arith)
    | inr (n, added, f, g) ↦
        (ground (arith, eq_refl i.school_id), ground (arith, eq_refl i.extension_id))
  ]

  -- A command that was accepted is answered with the same job when it is submitted again, whatever the
  -- quotas and the queue are by then, and no job is added.
  pub submit-again :
      (j : Job)
      → (submit quotas scoped queue id i jobs).0 ≡ ok j
      → (quotas' : Quotas) (scoped' : Bool) (queue' : Result (Unit {0})) (id' : String)
      → submit quotas' scoped' queue' id' i (submit quotas scoped queue id i jobs).1
        ≡ (ok j, (submit quotas scoped queue id i jobs).1)
  unfolding submit find
  submit-again j h quotas' scoped' queue' id' = elim (Option-cases (find (has_key i) jobs)) [
    | inr (x, e) ↦ again (submit quotas scoped queue id i jobs) (ground arith) e h
    | inl n ↦ elim (Result-cases (create_job quotas scoped id i jobs)) [
      | inr (e, f) ↦ absurd (ground arith)
      | inl (new, f) ↦ elim (Result-cases queue) [
        | inr (e, q) ↦ absurd (ground arith)
        | inl (t, q) ↦ added (submit quotas scoped queue id i jobs) (ground arith) h
      ]
    ]
  ]
    where
      again :
          (r : Result Job × List Job) {x : Job}
          → r ≡ submit_new quotas scoped queue id i jobs (some x)
          → find (has_key i) jobs ≡ some x
          → r.0 ≡ ok j
          → submit quotas' scoped' queue' id' i r.1 ≡ (ok j, r.1)
      again r e f h = ground arith

      added :
          (r : Result Job × List Job)
          → r ≡ (ok (new_job id i), new_job id i ∷ jobs)
          → r.0 ≡ ok j
          → submit quotas' scoped' queue' id' i r.1 ≡ (ok j, r.1)
      added r e h = ground (
        arith,
        eq_refl i.school_id,
        eq_refl i.idempotency_key,
        eq_refl i.payload,
        eq_refl (command_name i.command),
      )

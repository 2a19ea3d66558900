-- ===== src/Schools/Deletion/Purging.antt =====
-- What a run of the deletion job has made sure of.
use mathlib.Core.Path.{subst}
use wattanman.Base.{
  empty-In, ℕ, ◌+◌, String, true, false, not, List, [], ◌∷◌, In, any, any-none, is_empty, length,
  none, ◌≡◌, ◌≢◌, arith, Result, ok, ◌⊎◌, inl, inr, eq_iff,
}
use wattanman.Base.Table.{Table, find_first-eq-none_iff}
use wattanman.Schools.Deletion.{
  Status, Request, Hold, holds, Run, assert_no_legal_hold, delete_all, prepare, wipe,
  execute_queued, is_zero,
}

delete_all-In :
    (f : String → Result (Unit {0})) (ks : List String) (k : String)
    → delete_all f ks ≡ ok tt
    → In k ks
    → f k ≡ ok tt
unfolding delete_all
delete_all-In f [] k h m = elim m [ ]
delete_all-In f (x ∷ ks) k h (inl e) = subst (λ y. f y ≡ ok tt) e (ground arith)
delete_all-In f (x ∷ ks) k h (inr m) = delete_all-In f ks k (ground arith) m

no_hold :
    (held : Table Hold) (school_id : String)
    → assert_no_legal_hold held school_id ≡ ok tt
    → (h : Hold) → In h held.rows
    → h.school_id ≡ school_id
    → h.active ≡ false
unfolding assert_no_legal_hold
no_hold held school_id e h m s =
    let n : held.find_first (holds school_id) ≡ none = ground arith in
    let f = (find_first-eq-none_iff held (holds school_id)).0 n h m in
    ground (arith, eq_iff h.school_id school_id)

-- What a completed deletion rests on.
pub record Verified (held : Table Hold) (run : Run) (r : Request) : Type 0 where
  pub signed : run.signing ≡ ok tt
  pub unheld : (h : Hold) → In h held.rows → h.school_id ≡ r.school_id → h.active ≡ false
  pub deleted : (k : String) → In k run.keys → run.delete_private k ≡ ok tt
  pub none_left : (k : String) → ¬ In k run.found_after
  pub no_rows : (n : ℕ) → In n run.remaining → n ≡ 0

module _ (held : Table Hold) (run : Run) (attempt : ℕ) (r : Request) where
  execute_queued-cases :
      (r' : Request)
      → r.status ≢ Status.completed
      → (execute_queued held run attempt r).0 ≡ ok r'
      → (prepare held run r ≡ ok tt) × (wipe run ≡ ok tt)
  unfolding execute_queued
  execute_queued-cases r' n h = (ground arith, ground arith)

  -- A run that completes a deletion had a signing key; the school was under no legal hold; each key
  -- that was listed was deleted, none was found after that, and no row of the school was left.
  pub execute_queued-Verified :
      (r' : Request)
      → r.status ≢ Status.completed
      → (execute_queued held run attempt r).0 ≡ ok r'
      → Verified held run r
  unfolding prepare wipe
  execute_queued-Verified r' n h =
      let (p, w) = execute_queued-cases r' n h in
      let gone : delete_all run.delete_private run.keys ≡ ok tt = ground arith in
      let bare : is_empty run.found_after ≡ true = ground arith in
      let zero_rows : any (λ k. not (is_zero k)) run.remaining ≡ false = ground arith in
      record {
        signed = ground arith;
        unheld = no_hold held r.school_id (ground arith);
        deleted = λ k m. delete_all-In run.delete_private run.keys k gone m;
        none_left = λ k m. empty-In run.found_after k bare m;
        no_rows = λ k m.
            let f = any-none (λ x. not (is_zero x)) run.remaining zero_rows k m in ground arith;
      }

  -- A run that lists the keys adds all of them to the number of deleted objects, whatever becomes of
  -- their deletion, so that a run which fails and is repeated counts a key twice.
  pub execute_queued-counts :
      (r.status ≡ Status.queued) ⊎ (r.status ≡ Status.failed)
      → prepare held run r ≡ ok tt
      → (execute_queued held run attempt r).1.deleted_objects ≡ r.deleted_objects + length run.keys
  unfolding execute_queued
  execute_queued-counts (inl q) p = ground arith
  execute_queued-counts (inr q) p = ground arith

-- ===== src/Extensions/Records/Writes.antt =====
-- What an accepted write of a record has found.
use wattanman.Base.{ℕ, String, ◌≡◌, sym, ap, ◌∙◌, Option, none, some, arith, ok, eq_iff, >>=-eq-ok}
use wattanman.Extensions.Migrations.{Record}
use wattanman.Extensions.Records.{
  Site, Permission, Limits, Shelf, Module, Written, find_row, put_row, drop_row, expected_row,
  expected_version, check_data, changed, take_record, adjust_bytes, authorize, update_record,
  delete_record,
}

expected_row-find :
    (id resource : String) (n : ℕ) (s : Shelf) (r : Record)
    → expected_row id resource n s ≡ ok r
    → (find_row id s.rows ≡ some r) × (r.concurrency_version ≡ n)
unfolding expected_row
expected_row-find id resource n s r h = (ground arith, ground arith)

expected_row-resource :
    (id resource : String) (n : ℕ) (s : Shelf) (r old : Record)
    → expected_row id resource n s ≡ ok r
    → find_row id s.rows ≡ some old
    → old.resource ≡ resource
unfolding expected_row
expected_row-resource id resource n s r old h found = ground (arith, eq_iff old.resource resource)

expected_version-some :
    (if_match : Option ℕ) (n : ℕ) → expected_version if_match ≡ ok n → if_match ≡ some n
expected_version-some none n h = cc
expected_version-some (some k) n h = ground arith

module _ (site : Site) (l : Limits) (key : String) (p : Permission) (role id : String)
    (if_match : Option ℕ) (s : Shelf) where
  pub update_record-cases :
      (w : Written) (r : Record) (s' : Shelf)
      → update_record site l key p role id if_match w s ≡ ok (r, s')
      → (m : Module) × (old : Record) × (s0 : Shelf) × (find_row id s.rows ≡ some old)
        × (if_match ≡ some old.concurrency_version)
        × (adjust_bytes l old.byte_size w.byte_size s ≡ ok s0)
        × (r ≡ changed m w old)
        × (s' ≡ record s0 { rows = put_row id (changed m w old) s0.rows })
  unfolding update_record
  update_record-cases w r s' h =
      let ((m, fields), a, h1) = >>=-eq-ok (authorize site key p role) _ h in
      let (u, b, h2) = >>=-eq-ok (check_data fields w) _ h1 in
      let (n, c, h3) = >>=-eq-ok (expected_version if_match) _ h2 in
      let (old, d, h4) = >>=-eq-ok (expected_row id p.resource n s) _ h3 in
      let (s0, e, h5) = >>=-eq-ok (adjust_bytes l old.byte_size w.byte_size s) _ h4 in
      let (f, v) = expected_row-find id p.resource n s old d in
      (
        m,
        old,
        s0,
        f,
        expected_version-some if_match n c ∙ ap some (sym v),
        e,
        ground arith,
        ground arith,
      )

  pub delete_record-cases :
      (s' : Shelf)
      → delete_record site l key p role id if_match s ≡ ok s'
      → (old : Record) × (s0 : Shelf) × (find_row id s.rows ≡ some old)
        × (if_match ≡ some old.concurrency_version)
        × (adjust_bytes l old.byte_size 0 s ≡ ok s0)
        × (s' ≡ record {
          rows = drop_row id s0.rows;
          used = take_record s0.used;
          school = take_record s0.school;
        })
  unfolding delete_record
  delete_record-cases s' h =
      let ((m, fields), a, h1) = >>=-eq-ok (authorize site key p role) _ h in
      let (n, c, h3) = >>=-eq-ok (expected_version if_match) _ h1 in
      let (old, d, h4) = >>=-eq-ok (expected_row id p.resource n s) _ h3 in
      let (s0, e, h5) = >>=-eq-ok (adjust_bytes l old.byte_size 0 s) _ h4 in
      let (f, v) = expected_row-find id p.resource n s old d in
      (old, s0, f, expected_version-some if_match n c ∙ ap some (sym v), e, ground arith)

  -- The row that an accepted write has found is of the resource that the permission names.
  pub update_record-resource :
      (w : Written) (r : Record) (s' : Shelf) (old : Record)
      → update_record site l key p role id if_match w s ≡ ok (r, s')
      → find_row id s.rows ≡ some old
      → old.resource ≡ p.resource
  unfolding update_record
  update_record-resource w r s' old h found =
      let ((m, fields), a, h1) = >>=-eq-ok (authorize site key p role) _ h in
      let (u, b, h2) = >>=-eq-ok (check_data fields w) _ h1 in
      let (n, c, h3) = >>=-eq-ok (expected_version if_match) _ h2 in
      let (there, d, h4) = >>=-eq-ok (expected_row id p.resource n s) _ h3 in
      expected_row-resource id p.resource n s there old d found

  pub delete_record-resource :
      (s' : Shelf) (old : Record)
      → delete_record site l key p role id if_match s ≡ ok s'
      → find_row id s.rows ≡ some old
      → old.resource ≡ p.resource
  unfolding delete_record
  delete_record-resource s' old h found =
      let ((m, fields), a, h1) = >>=-eq-ok (authorize site key p role) _ h in
      let (n, c, h3) = >>=-eq-ok (expected_version if_match) _ h1 in
      let (there, d, h4) = >>=-eq-ok (expected_row id p.resource n s) _ h3 in
      expected_row-resource id p.resource n s there old d found

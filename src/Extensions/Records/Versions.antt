-- ===== src/Extensions/Records/Versions.antt =====
-- Two callers who have read the same version of a record.
use wattanman.Base.{
  ℕ, String, ◌≡◌, ap, ◌∙◌, Option, some, List, [], ◌∷◌, arith, ok, is_ok, false, Result-cases, inl,
  inr, str_eq, Bool-cases, eq_iff,
}
use wattanman.Extensions.Migrations.{Record}
use wattanman.Extensions.Records.{
  Site, Permission, Limits, Shelf, Written, find_row, put_row, changed, update_record,
  delete_record, adjust_bytes, reserve_capacity,
}
use wattanman.Extensions.Records.Writes.{update_record-cases, delete_record-cases}

pub find_row-id :
    (id : String) (r : Record) (rows : List Record) → find_row id rows ≡ some r → r.id ≡ id
unfolding find_row
find_row-id id r [] h = cc
find_row-id id r (x ∷ xs) h = elim (Bool-cases (str_eq x.id id)) [
  | inl t ↦ ground (arith, eq_iff x.id id)
  | inr f ↦ find_row-id id r xs (ground arith)
]

find_row-put_row :
    (id : String) (new r : Record) (rows : List Record)
    → find_row id rows ≡ some r
    → new.id ≡ id
    → find_row id (put_row id new rows) ≡ some new
unfolding find_row put_row
find_row-put_row id new r [] h e = cc
find_row-put_row id new r (x ∷ xs) h e = elim (Bool-cases (str_eq x.id id)) [
  | inl t ↦ ground (arith, eq_iff new.id id)
  | inr f ↦ ground (arith, find_row-put_row id new r xs (ground arith) e)
]

pub adjust_bytes-rows :
    (l : Limits) (before after : ℕ) (s s' : Shelf)
    → adjust_bytes l before after s ≡ ok s'
    → s'.rows ≡ s.rows
unfolding adjust_bytes reserve_capacity
adjust_bytes-rows l before after s s' h = ground arith

module _ (l : Limits) (site site' : Site) (key key' : String) (p p' : Permission)
    (role role' id : String) (n : Option ℕ) (w : Written) (r : Record) (s s' : Shelf) where
  -- In what an accepted update of a record leaves, no update and no deletion of the record is accepted that
  -- names the version that this update named: the update is not lost to a write that has not seen it.
  pub update_record-once :
      update_record site l key p role id n w s ≡ ok (r, s')
      → ((w' : Written) → is_ok (update_record site' l key' p' role' id n w' s') ≡ false)
        × (is_ok (delete_record site' l key' p' role' id n s') ≡ false)
  update_record-once h =
      let (m, old, s0, f, v, e, same, new) =
        update_record-cases site l key p role id n s w r s' h in
      let rows : s'.rows ≡ put_row id (changed m w old) s.rows =
        ap Shelf.rows new
        ∙ ap (put_row id (changed m w old))
            (adjust_bytes-rows l old.byte_size w.byte_size s s0 e) in
      let there : find_row id s'.rows ≡ some (changed m w old) =
        ap (find_row id) rows
        ∙ find_row-put_row id (changed m w old) old s.rows f (find_row-id id old s.rows f) in
      (
        λ w'. elim (Result-cases (update_record site' l key' p' role' id n w' s')) [
          | inr (e', a) ↦ ap is_ok a
          | inl ((r', s2), a) ↦
              let (m', old', s1, f', v', e', same', new') =
                update_record-cases site' l key' p' role' id n s' w' r' s2 a in
              absurd (ground arith)
        ],
        elim (Result-cases (delete_record site' l key' p' role' id n s')) [
          | inr (e', a) ↦ ap is_ok a
          | inl (s2, a) ↦
              let (old', s1, f', v', e', new') =
                delete_record-cases site' l key' p' role' id n s' s2 a in
              absurd (ground arith)
        ],
      )

-- ===== src/Extensions/Records/View.antt =====
-- The records as a map: what each request promises, whatever the order of the rows.
use wattanman.Base.{
  ℕ, ◌+◌, String, Bool, true, false, not, ◌&&◌, ◌≡◌, refl, sym, ap, subst, ◌∙◌, inl, inr, Option,
  none, some, List, [], ◌∷◌, is_some, arith, eq_iff, str_eq, if◌then◌else◌, ok, Result-cases,
  Bool-cases, >>=-eq-ok,
}
use wattanman.Base.Map.{Map, set, delete}
use wattanman.Extensions.Migrations.{Record}
use wattanman.Extensions.Records.{
  Site, Permission, Limits, Shelf, Written, find_row, put_row, drop_row, create_record,
  update_record, delete_record, reserve_capacity, authorize, check_data, new_record, changed,
}
use wattanman.Extensions.Records.Counters.{reserve_capacity-cases}
use wattanman.Extensions.Records.Versions.{find_row-id, adjust_bytes-rows}
use wattanman.Extensions.Records.Writes.{
  update_record-cases, delete_record-cases, update_record-resource, delete_record-resource,
}
use wattanman.Extensions.Records.Admission.{is_admissible, is_accepted-is_admissible}
use wattanman.Extensions.Records.Quota.{Command, creates, updates, deletes, perform, is_accepted}

abbrev pub view : Shelf → Map Record
view s id = find_row id s.rows

-- No two rows have one identifier: it is the primary key.
unfoldable pub is_keyed : List Record → Bool
is_keyed [] = true
is_keyed (r ∷ rs) = not (is_some (find_row r.id rs)) && is_keyed rs

-- A request that is not admissible changes nothing. An admissible one adds a record with what was sent at its first version,
-- puts in the place of a record of the resource, at the version that was named, one with what was sent and
-- the next version, or takes such a record away. It leaves all others.
pub data Promised : Command → Bool → Map Record → Map Record → Type 0 where
  refused : {c : Command} {m m' : Map Record} → ((k : String) → m' k ≡ m k) → Promised c false m m'
  added :
      {site : Site} {key : String} {p : Permission} {role id : String} {w : Written}
      {m m' : Map Record} (r : Record)
      → (r.id ≡ id) × (r.resource ≡ p.resource)
      → (r.fields ≡ w.fields) × (r.byte_size ≡ w.byte_size)
      → (r.concurrency_version ≡ 1) × (r.updated_by ≡ none)
      → ((k : String) → m' k ≡ set m id r k)
      → Promised (creates site key p role id w) true m m'
  replaced :
      {site : Site} {key : String} {p : Permission} {role id : String} {n : Option ℕ} {w : Written}
      {m m' : Map Record} (old r : Record)
      → (m id ≡ some old) × (old.resource ≡ p.resource) × (n ≡ some old.concurrency_version)
      → (r.id ≡ id) × (r.resource ≡ p.resource)
      → (r.fields ≡ w.fields) × (r.byte_size ≡ w.byte_size)
      → (r.concurrency_version ≡ old.concurrency_version + 1) × (r.updated_by ≡ some w.user_id)
      → ((k : String) → m' k ≡ set m id r k)
      → Promised (updates site key p role id n w) true m m'
  removed :
      {site : Site} {key : String} {p : Permission} {role id : String} {n : Option ℕ}
      {m m' : Map Record} (old : Record)
      → (m id ≡ some old) × (old.resource ≡ p.resource) × (n ≡ some old.concurrency_version)
      → ((k : String) → m' k ≡ delete m id k)
      → Promised (deletes site key p role id n) true m m'

put_row-view :
    (id : String) (old new : Record) (rows : List Record) (k : String)
    → find_row id rows ≡ some old
    → new.id ≡ id
    → find_row k (put_row id new rows) ≡ (if str_eq id k then some new else find_row k rows)
unfolding find_row put_row
put_row-view id old new [] k h e = cc
put_row-view id old new (x ∷ xs) k h e = elim (Bool-cases (str_eq x.id id)) [
  | inl t ↦ ground (arith, eq_iff x.id id)
  | inr f ↦ ground (
    arith,
    put_row-view id old new xs k (ground arith) e,
    eq_iff x.id id,
    eq_iff x.id k,
    eq_iff id k,
  )
]

drop_row-view :
    (id : String) (rows : List Record) (k : String)
    → is_keyed rows ≡ true
    → find_row k (drop_row id rows) ≡ (if str_eq id k then none else find_row k rows)
unfolding find_row drop_row is_keyed
drop_row-view id [] k u = ground arith
drop_row-view id (x ∷ xs) k u = elim (Bool-cases (str_eq x.id id)) [
  | inl t ↦
      let e : x.id ≡ id = (eq_iff x.id id).0 t in
      let none_ : is_some (find_row id xs) ≡ false =
        subst (λ i. is_some (find_row i xs) ≡ false) e (ground arith) in
      elim (Bool-cases (str_eq id k)) [
        | inl t' ↦
            let e' : id ≡ k = (eq_iff id k).0 t' in
            let gone : is_some (find_row k xs) ≡ false =
              subst (λ i. is_some (find_row i xs) ≡ false) e' none_ in
            ground arith
        | inr f' ↦ ground (arith, eq_iff x.id id)
      ]
  | inr f ↦
      ground
        (arith, drop_row-view id xs k (ground arith), eq_iff x.id id, eq_iff x.id k, eq_iff id k)
]

module _ (l : Limits) where
  creates-Promised :
      (site : Site) (key : String) (p : Permission) (role id : String) (w : Written) (s s' : Shelf)
      (r : Record)
      → create_record site l key p role id w s ≡ ok (r, s')
      → Promised (creates site key p role id w) true (view s) (view s')
  unfolding create_record find_row
  creates-Promised site key p role id w s s' r h =
      let ((m, fields), _, h1) = >>=-eq-ok (authorize site key p role) _ h in
      let (_, _, h2) = >>=-eq-ok (check_data fields w) _ h1 in
      let (s0, e, h3) = >>=-eq-ok (reserve_capacity l w.byte_size 1 s) _ h2 in
      let same : s0.rows ≡ s.rows = (reserve_capacity-cases l w.byte_size 1 s s0 e).1 in
      let rows : new_record id p.resource m w ∷ s0.rows ≡ s'.rows = cc in
      added (new_record id p.resource m w) (refl, refl) (refl, refl) (refl, refl)
        (λ k.
          ap (find_row k) (sym rows)
          ∙ ap (λ rs. find_row k (new_record id p.resource m w ∷ rs)) same)

  updates-Promised :
      (site : Site) (key : String) (p : Permission) (role id : String) (n : Option ℕ) (w : Written)
      (s s' : Shelf) (r : Record)
      → update_record site l key p role id n w s ≡ ok (r, s')
      → Promised (updates site key p role id n w) true (view s) (view s')
  updates-Promised site key p role id n w s s' r h =
      let (m, old, s0, found, named, e, same, new) =
        update_record-cases site l key p role id n s w r s' h in
      let rows : s'.rows ≡ put_row id (changed m w old) s.rows =
        ap Shelf.rows new
        ∙ ap (put_row id (changed m w old))
            (adjust_bytes-rows l old.byte_size w.byte_size s s0 e) in
      let kind = update_record-resource site l key p role id n s w r s' old h found in
      let itself = find_row-id id old s.rows found in
      replaced old (changed m w old) (found, kind, named) (itself, kind) (refl, refl) (refl, refl)
        (λ k.
          ap (find_row k) rows
          ∙ put_row-view id old (changed m w old) s.rows k found (find_row-id id old s.rows found))

  deletes-Promised :
      (site : Site) (key : String) (p : Permission) (role id : String) (n : Option ℕ) (s s' : Shelf)
      → is_keyed s.rows ≡ true
      → delete_record site l key p role id n s ≡ ok s'
      → Promised (deletes site key p role id n) true (view s) (view s')
  deletes-Promised site key p role id n s s' u h =
      let (old, s0, found, named, e, new) = delete_record-cases site l key p role id n s s' h in
      let rows : s'.rows ≡ drop_row id s.rows =
        ap Shelf.rows new ∙ ap (drop_row id) (adjust_bytes-rows l old.byte_size 0 s s0 e) in
      removed old (found, delete_record-resource site l key p role id n s s' old h found, named)
        (λ k. ap (find_row k) rows ∙ drop_row-view id s.rows k u)

  perform-accepted :
      (c : Command) (s : Shelf)
      → is_keyed s.rows ≡ true
      → Promised c (is_accepted l c s) (view s) (view (perform l c s))
  unfolding perform is_accepted
  perform-accepted (creates site key p role id w) s u =
      elim (Result-cases (create_record site l key p role id w s)) [
        | inr (e, a) ↦ rw a (refused (λ k. refl))
        | inl ((r, s'), a) ↦ rw a (creates-Promised site key p role id w s s' r a)
      ]
  perform-accepted (updates site key p role id n w) s u =
      elim (Result-cases (update_record site l key p role id n w s)) [
        | inr (e, a) ↦ rw a (refused (λ k. refl))
        | inl ((r, s'), a) ↦ rw a (updates-Promised site key p role id n w s s' r a)
      ]
  perform-accepted (deletes site key p role id n) s u =
      elim (Result-cases (delete_record site l key p role id n s)) [
        | inr (e, a) ↦ rw a (refused (λ k. refl))
        | inl (s', a) ↦ rw a (deletes-Promised site key p role id n s s' u a)
      ]

  -- The rows of a shelf, whose identifiers are different, are used as a map. A request that is not
  -- admissible leaves the map as it is: one of a caller who may not, with data that do not suit the resource,
  -- for which there is no room, or of a record that is not there at the version that was named. An admissible
  -- one adds the record that was sent, replaces the record of that version by the one that was sent, with the
  -- next version, or removes it; all other records stay.
  pub perform-Promised :
      (c : Command) (s : Shelf)
      → is_keyed s.rows ≡ true
      → Promised c (is_admissible l c s) (view s) (view (perform l c s))
  perform-Promised c s u =
      subst (λ b. Promised c b (view s) (view (perform l c s))) (is_accepted-is_admissible l c s)
        (perform-accepted c s u)

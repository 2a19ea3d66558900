-- ===== src/Extensions/Records/Admission.antt =====
-- Which requests on the records of a module are accepted.
use wattanman.Base.{
  ℕ, ◌-◌, String, Bool, true, false, ◌&&◌, ◌||◌, ◌≡◌, refl, ◌∙◌, inl, inr, Option, none, some, List,
  ◌⊎◌, arith, leb, ◌==◌, str_eq, Result, ok, err, is_ok, Result-cases, Option-cases, Bool-cases,
  ◌>>=◌,
}
use wattanman.Extensions.Migrations.{Record}
use wattanman.Extensions.Records.{
  Site, Permission, Limits, Shelf, Module, Written, find_row, create_record, update_record,
  delete_record, reserve_capacity, adjust_bytes, authorize, check_data, expected_row,
  expected_version, fits,
}
use wattanman.Extensions.Records.Schema.{Field}
use wattanman.Extensions.Records.Quota.{Command, creates, updates, deletes, is_accepted}

-- The caller may write the resource.
abbrev may_write : Site → String → Permission → String → Bool
may_write site key p role = is_ok (authorize site key p role)

-- The caller may, and the data suit the fields of the resource.
abbrev suits : Written → Result (Module × List Field) → Bool
suits w (ok (m, fields)) = is_ok (check_data fields w)
suits w (err e) = false

-- The record is one of the resource, at the version that is named.
abbrev is_named : String → Option ℕ → Option Record → Bool
is_named resource none found = false
is_named resource (some n) none = false
is_named resource (some n) (some r) =
    leb 1 n && str_eq r.resource resource && r.concurrency_version == n

-- The installation and its school have room for more bytes and records.
abbrev has_room : Limits → ℕ → ℕ → Shelf → Bool
has_room l bytes records s =
    fits l.installation_bytes l.installation_records bytes records s.used
    && fits l.school_bytes l.school_records bytes records s.school

abbrev has_room_for : Limits → Option Record → ℕ → Shelf → Bool
has_room_for l none after s = false
has_room_for l (some r) after s = leb after r.byte_size || has_room l (after - r.byte_size) 0 s

-- A record is created where the caller may, the data suit the resource and there is room for it; updated
-- where besides the record is one of the resource at the version that is named, and there is room for what it
-- grows by; and deleted where the caller may and the record is such a one.
unfoldable pub is_admissible : Limits → Command → Shelf → Bool
is_admissible l (creates site key p role id w) s =
    suits w (authorize site key p role) && has_room l w.byte_size 1 s
is_admissible l (updates site key p role id n w) s =
    suits w (authorize site key p role)
    && is_named p.resource n (find_row id s.rows)
    && has_room_for l (find_row id s.rows) w.byte_size s
is_admissible l (deletes site key p role id n) s =
    may_write site key p role && is_named p.resource n (find_row id s.rows)

reserve_capacity_iff :
    (l : Limits) (bytes records : ℕ) (s : Shelf)
    → is_ok (reserve_capacity l bytes records s) ≡ has_room l bytes records s
unfolding reserve_capacity
reserve_capacity_iff l bytes records s = ground arith

adjust_bytes_iff :
    (l : Limits) (r : Record) (after : ℕ) (s : Shelf)
    → is_ok (adjust_bytes l r.byte_size after s) ≡ has_room_for l (some r) after s
unfolding adjust_bytes
adjust_bytes_iff l r after s = ground (arith, reserve_capacity_iff l (after - r.byte_size) 0 s)

adjust_bytes-nothing :
    (l : Limits) (r : Record) (s : Shelf) → is_ok (adjust_bytes l r.byte_size 0 s) ≡ true
unfolding adjust_bytes
adjust_bytes-nothing l r s = ground arith

-- The row that a write finds, if it finds one.
abbrev expected : String → Permission → Option ℕ → Shelf → Result Record
expected id p n s = expected_version n >>= λ v. expected_row id p.resource v s

expected-is_named :
    (id : String) (p : Permission) (n : Option ℕ) (s : Shelf)
    → ((is_named p.resource n (find_row id s.rows) ≡ false) × (is_ok (expected id p n s) ≡ false))
      ⊎ ((r : Record) × (v : ℕ) × (find_row id s.rows ≡ some r)
          × (is_named p.resource n (find_row id s.rows) ≡ true)
          × (expected_version n ≡ ok v)
          × (expected_row id p.resource v s ≡ ok r))
unfolding expected_row
expected-is_named id p none s = inl (refl, refl)
expected-is_named id p (some n) s = elim (Option-cases (find_row id s.rows)) [
  | inl e ↦ inl (ground arith, ground arith)
  | inr (r, e) ↦ elim (Bool-cases (is_named p.resource (some n) (some r))) [
    | inr f ↦ inl (ground arith, ground arith)
    | inl t ↦ inr (r, n, e, ground arith, ground arith, ground arith)
  ]
]

is_ok-bind : {A B : Type 0} (x : Result A) (f : A → B) → is_ok (x >>= λ a. ok (f a)) ≡ is_ok x
is_ok-bind (ok a) f = refl
is_ok-bind (err e) f = refl

is_ok-refused :
    {A B : Type 0} (x : Result A) (k : A → Result B) → is_ok x ≡ false → is_ok (x >>= k) ≡ false
is_ok-refused (ok a) k h = absurd (ground arith)
is_ok-refused (err e) k h = refl

is_ok-refused_then :
    {A B C : Type 0} (x : Result A) (y : A → Result B) (k : B → Result C)
    → is_ok (x >>= y) ≡ false
    → is_ok (x >>= λ a. y a >>= k) ≡ false
is_ok-refused_then (ok a) y k h = is_ok-refused (y a) k h
is_ok-refused_then (err e) y k h = refl

-- A request is accepted if and only if it is admissible.
pub is_accepted-is_admissible :
    (l : Limits) (c : Command) (s : Shelf) → is_accepted l c s ≡ is_admissible l c s
unfolding is_accepted is_admissible create_record update_record delete_record
is_accepted-is_admissible l (creates site key p role id w) s =
    elim (Result-cases (authorize site key p role)) [
      | inr (e, a) ↦ rw a refl
      | inl ((m, fields), a) ↦ elim (Result-cases (check_data fields w)) [
        | inr (e, b) ↦ rw (a, b) refl
        | inl (u, b) ↦
            rw (a, b)
              (is_ok-bind (reserve_capacity l w.byte_size 1 s) _
                ∙ reserve_capacity_iff l w.byte_size 1 s)
      ]
    ]
is_accepted-is_admissible l (updates site key p role id n w) s =
    elim (Result-cases (authorize site key p role)) [
      | inr (e, a) ↦ rw a refl
      | inl ((m, fields), a) ↦ elim (Result-cases (check_data fields w)) [
        | inr (e, b) ↦ rw (a, b) refl
        | inl (u, b) ↦ elim (expected-is_named id p n s) [
          | inl (f, g) ↦
              rw (a, b, f)
                (is_ok-refused_then (expected_version n) (λ v. expected_row id p.resource v s) _ g)
          | inr (r, v, found, t, f, g) ↦
              rw (a, b, f, g, t, found)
                (is_ok-bind (adjust_bytes l r.byte_size w.byte_size s) _
                  ∙ adjust_bytes_iff l r w.byte_size s)
        ]
      ]
    ]
is_accepted-is_admissible l (deletes site key p role id n) s =
    elim (Result-cases (authorize site key p role)) [
      | inr (e, a) ↦ rw a refl
      | inl ((m, fields), a) ↦ elim (expected-is_named id p n s) [
        | inl (f, g) ↦
            rw (a, f)
              (is_ok-refused_then (expected_version n) (λ v. expected_row id p.resource v s) _ g)
        | inr (r, v, found, t, f, g) ↦
            rw (a, f, g, t)
              (is_ok-bind (adjust_bytes l r.byte_size 0 s) _ ∙ adjust_bytes-nothing l r s)
      ]
    ]

-- ===== src/Extensions/Records/Counters.antt =====
-- What a write that is accepted does to the counters of a module's records.
use wattanman.Base.{
  ℕ, ◌+◌, ◌-◌, ◌≤◌, ltb, String, ◌≡◌, some, List, [], ◌∷◌, length, arith, ok, str_eq, Bool-cases,
  inl, inr,
}
use wattanman.Extensions.Migrations.{Record}
use wattanman.Extensions.Upgrade.{Usage}
use wattanman.Extensions.Records.{
  Limits, Shelf, find_row, put_row, drop_row, adjust_bytes, take_record, reserve_capacity,
}

abbrev pub total : List Record → ℕ
total [] = 0
total (r ∷ rs) = r.byte_size + total rs

total-put_row :
    (id : String) (new r : Record) (rows : List Record)
    → find_row id rows ≡ some r
    → (total (put_row id new rows) + r.byte_size ≡ total rows + new.byte_size)
      × (length (put_row id new rows) ≡ length rows)
unfolding find_row put_row
total-put_row id new r [] h = cc
total-put_row id new r (x ∷ xs) h = elim (Bool-cases (str_eq x.id id)) [
  | inl t ↦ (ground arith, ground arith)
  | inr f ↦ let (a, b) = total-put_row id new r xs (ground arith) in (ground arith, ground arith)
]

total-drop_row :
    (id : String) (r : Record) (rows : List Record)
    → find_row id rows ≡ some r
    → (total (drop_row id rows) + r.byte_size ≡ total rows)
      × (length (drop_row id rows) + 1 ≡ length rows)
unfolding find_row drop_row
total-drop_row id r [] h = cc
total-drop_row id r (x ∷ xs) h = elim (Bool-cases (str_eq x.id id)) [
  | inl t ↦ (ground arith, ground arith)
  | inr f ↦ let (a, b) = total-drop_row id r xs (ground arith) in (ground arith, ground arith)
]

-- The counters of the installation are the number of its records and the sum of their sizes, and those
-- of the school add what its other installations use.
pub record IsExact (others : Usage) (s : Shelf) : Type 0 where
  pub bytes : s.used.bytes ≡ total s.rows
  pub records : s.used.records ≡ length s.rows
  pub school_bytes : s.school.bytes ≡ others.bytes + s.used.bytes
  pub school_records : s.school.records ≡ others.records + s.used.records

pub record IsWithin (l : Limits) (s : Shelf) : Type 0 where
  pub bytes : s.used.bytes ≤ l.installation_bytes
  pub records : s.used.records ≤ l.installation_records
  pub school_bytes : s.school.bytes ≤ l.school_bytes
  pub school_records : s.school.records ≤ l.school_records

-- What a write that is accepted does to the rows and the counters.
pub data Change (l : Limits) (s : Shelf) : Shelf → Type 0 where
  adds :
      (r : Record) (s' : Shelf)
      → reserve_capacity l r.byte_size 1 s ≡ ok s'
      → Change l s (record s' { rows = r ∷ s'.rows })
  puts :
      (id : String) (r new : Record) (s' : Shelf)
      → find_row id s.rows ≡ some r
      → adjust_bytes l r.byte_size new.byte_size s ≡ ok s'
      → Change l s (record s' { rows = put_row id new s'.rows })
  drops :
      (id : String) (r : Record) (s' : Shelf)
      → find_row id s.rows ≡ some r
      → adjust_bytes l r.byte_size 0 s ≡ ok s'
      → Change l s (record {
        rows = drop_row id s'.rows;
        used = take_record s'.used;
        school = take_record s'.school;
      })

pub reserve_capacity-cases :
    (l : Limits) (bytes records : ℕ) (s s' : Shelf)
    → reserve_capacity l bytes records s ≡ ok s'
    → IsWithin l s'
      × (s'.rows ≡ s.rows)
      × (s'.used.bytes ≡ s.used.bytes + bytes)
      × (s'.used.records ≡ s.used.records + records)
      × (s'.school.bytes ≡ s.school.bytes + bytes)
      × (s'.school.records ≡ s.school.records + records)
unfolding reserve_capacity
reserve_capacity-cases l bytes records s s' h = (
  record {
    bytes = ground arith;
    records = ground arith;
    school_bytes = ground arith;
    school_records = ground arith;
  },
  ground arith,
  ground arith,
  ground arith,
  ground arith,
  ground arith,
)

-- From counters that are exact for the size that is given up.
pub adjust_bytes-cases :
    (l : Limits) (before after : ℕ) (others : Usage) (s s' : Shelf)
    → IsExact others s
    → before ≤ s.used.bytes
    → adjust_bytes l before after s ≡ ok s'
    → (s'.rows ≡ s.rows)
      × (s'.used.bytes + before ≡ s.used.bytes + after)
      × (s'.used.records ≡ s.used.records)
      × (s'.school.bytes + before ≡ s.school.bytes + after)
      × (s'.school.records ≡ s.school.records)
      × (IsWithin l s → IsWithin l s')
unfolding adjust_bytes
adjust_bytes-cases l before after others s s' x b h = elim (Bool-cases (ltb before after)) [
  | inl more ↦
      let (w, rows, bytes, records, school_bytes, school_records) =
        reserve_capacity-cases l (after - before) 0 s s' (ground arith) in
      (rows, ground arith, ground arith, ground arith, ground arith, λ within. w)
  | inr less ↦ (
    ground arith,
    ground arith,
    ground arith,
    ground arith,
    ground arith,
    λ within. record {
      bytes = ground arith;
      records = ground arith;
      school_bytes = ground arith;
      school_records = ground arith;
    },
  )
]

row-total :
    (id : String) (r : Record) (rows : List Record)
    → find_row id rows ≡ some r
    → (r.byte_size ≤ total rows) × (1 ≤ length rows)
row-total id r rows h = let (a, b) = total-drop_row id r rows h in (omega arith, omega arith)

-- A write that is accepted keeps the counters exact and within the quotas.
pub Change-IsExact :
    (l : Limits) (others : Usage) (s s' : Shelf)
    → Change l s s'
    → IsExact others s
    → IsExact others s' × (IsWithin l s → IsWithin l s')
Change-IsExact l others s s' (Change.adds r s0 h) x =
    let (w, rows, bytes, records, school_bytes, school_records) =
      reserve_capacity-cases l r.byte_size 1 s s0 h in
    (
      record {
        bytes = ground arith;
        records = ground arith;
        school_bytes = ground arith;
        school_records = ground arith;
      },
      λ within. record {
        bytes = w.bytes;
        records = w.records;
        school_bytes = w.school_bytes;
        school_records = w.school_records;
      },
    )
Change-IsExact l others s s' (Change.puts id r new s0 f h) x =
    let (le, pos) = row-total id r s.rows f in
    let (rows, bytes, records, school_bytes, school_records, w) =
      adjust_bytes-cases l r.byte_size new.byte_size others s s0 x (omega (arith, x.bytes)) h in
    let (t, n) = total-put_row id new r s.rows f in
    (
      record {
        bytes = rw rows (omega (arith, x.bytes));
        records = rw rows (omega (arith, x.records));
        school_bytes = omega (arith, x.school_bytes);
        school_records = omega (arith, x.school_records);
      },
      λ within.
          let v = w within in
          record {
            bytes = v.bytes;
            records = v.records;
            school_bytes = v.school_bytes;
            school_records = v.school_records;
          },
    )
Change-IsExact l others s s' (Change.drops id r s0 f h) x =
    let (le, pos) = row-total id r s.rows f in
    let (rows, bytes, records, school_bytes, school_records, w) =
      adjust_bytes-cases l r.byte_size 0 others s s0 x (omega (arith, x.bytes)) h in
    let (t, n) = total-drop_row id r s.rows f in
    (
      record {
        bytes = ground arith;
        records = ground arith;
        school_bytes = ground arith;
        school_records = ground arith;
      },
      λ within.
          let v = w within in
          record {
            bytes = ground arith;
            records = ground arith;
            school_bytes = ground arith;
            school_records = ground arith;
          },
    )

-- ===== src/Extensions/Migrations/RoundTrip.antt =====
-- A migration rolled back.
use mathlib.Core.Path.{subst}
use wattanman.Base.{
  ℕ, ◌≤◌, String, ◌≡◌, refl, ◌∙◌, Bool, true, false, ◌||◌, Option, none, some, List, [], ◌∷◌, arith,
  All, ok, eq_iff, eq_refl, ◌⊎◌, str_eq, if◌then◌else◌, Bool-cases, inl, inr, >>=-eq-ok,
}
use wattanman.Base.Map.{Map, set}
use wattanman.Extensions.Types.{Operation, Version}
use wattanman.Extensions.Migrations.{
  FieldMap, Record, Store, Bytes, Capacity, migrate_fields, migrate_all, restore_all,
  adjust_capacity, save, migrate_record, restore_record,
}

-- A record of the table keeps its identifier and its resource.
abbrev SameKind : Option Record → Option Record → Type 0
SameKind none now = Unit
SameKind (some b) none = ⊥
SameKind (some b) (some c) = (c.id ≡ b.id) × (c.resource ≡ b.resource)

abbrev AllSameKind : Map Record → Map Record → Type 0
AllSameKind before now = (k : String) → SameKind (before k) (now k)

SameKind-refl : (r : Option Record) → SameKind r r
SameKind-refl none = tt
SameKind-refl (some r) = (refl, refl)

unfoldable pub has : List Record → String → Bool
has [] k = false
has (b ∷ bs) k = str_eq b.id k || has bs k

-- The loaded records are the ones of the table.
abbrev pub AreRead : Map Record → List Record → Type 0
AreRead table rs = All (λ r. table r.id ≡ some r) rs

abbrev sign : String → Record → Record
sign actor r = record r { updated_by = some actor }

-- A row with its last writer.
abbrev pub signed : String → Option Record → Option Record
signed actor none = none
signed actor (some r) = some (sign actor r)

abbrev IsSigned : String → Option Record → Type 0
IsSigned actor none = ⊥
IsSigned actor (some r) = r.updated_by ≡ some actor

IsSigned-set :
    (actor : String) (now : Map Record) (id k : String) (r : Record)
    → r.updated_by ≡ some actor
    → IsSigned actor (now k)
    → IsSigned actor (set now id r k)
IsSigned-set actor now id k r e h = elim (Bool-cases (str_eq id k)) [
  | inl t ↦ rw t e
  | inr f ↦ rw f h
]

SameKind-set :
    (before now : Map Record) (b c : Record)
    → AllSameKind before now
    → before b.id ≡ some b
    → c.id ≡ b.id
    → c.resource ≡ b.resource
    → AllSameKind before (set now b.id c)
SameKind-set before now b c same read id resource k = elim (Bool-cases (str_eq b.id k)) [
  | inr f ↦ rw f (same k)
  | inl t ↦
      rw t
        (subst (λ j. SameKind (before j) (some c)) ((eq_iff b.id k).0 t) (rw read (id, resource)))
]

module _ (size : FieldMap → ℕ) (actor : String) (version : Version) (os : List Operation)
    (before : Map Record) where
  migrate_all-SameKind :
      (rs : List Record) (s s' : Store)
      → AreRead before rs
      → AllSameKind before s.records
      → migrate_all size actor version os rs s ≡ ok s'
      → AllSameKind before s'.records
  unfolding migrate_all
  migrate_all-SameKind [] s s' read same h =
      let e : s ≡ s' = ground arith in subst {A = Store} (λ t. AllSameKind before t.records) e same
  migrate_all-SameKind (r ∷ rs) s s' (here, read) same h =
      let (fields, e, rest) = >>=-eq-ok (migrate_fields os r.resource r.fields) _ h in
      let c = migrate_record size actor version fields r in
      migrate_all-SameKind rs (save s r.id c r.byte_size) s' read
        (SameKind-set before s.records r c same here refl refl) rest

  migrate_all-other :
      (rs : List Record) (s s' : Store) (k : String)
      → migrate_all size actor version os rs s ≡ ok s'
      → has rs k ≡ false
      → s'.records k ≡ s.records k
  unfolding migrate_all has
  migrate_all-other [] s s' k h n = ground arith
  migrate_all-other (r ∷ rs) s s' k h n =
      let (fields, e, rest) = >>=-eq-ok (migrate_fields os r.resource r.fields) _ h in
      let c = migrate_record size actor version fields r in
      let later = migrate_all-other rs (save s r.id c r.byte_size) s' k rest (ground arith) in
      later ∙ ground arith

  migrate_all-IsSigned :
      (rs : List Record) (s s' : Store) (k : String)
      → migrate_all size actor version os rs s ≡ ok s'
      → (has rs k ≡ true) ⊎ IsSigned actor (s.records k)
      → IsSigned actor (s'.records k)
  unfolding migrate_all has
  migrate_all-IsSigned [] s s' k h (inl t) = absurd (ground arith)
  migrate_all-IsSigned [] s s' k h (inr i) =
      let e : s ≡ s' = ground arith in subst {A = Store} (λ t. IsSigned actor (t.records k)) e i
  migrate_all-IsSigned (r ∷ rs) s s' k h seen =
      let (fields, e, rest) = >>=-eq-ok (migrate_fields os r.resource r.fields) _ h in
      let c = migrate_record size actor version fields r in
      migrate_all-IsSigned rs (save s r.id c r.byte_size) s' k rest
        (elim (Bool-cases (str_eq r.id k)) [
          | inl t ↦ inr (rw t refl)
          | inr f ↦ elim seen [ inl t ↦ inl (rw f at t) | inr i ↦ inr (rw f i) ]
        ])

restore_record-copy :
    (actor : String) (b c : Record)
    → c.id ≡ b.id
    → c.resource ≡ b.resource
    → c.updated_by ≡ some actor
    → restore_record b c ≡ sign actor b
restore_record-copy actor b c e f g = ground arith

SameKind-some :
    (b : Record) (found : Option Record)
    → SameKind (some b) found
    → (c : Record) × (found ≡ some c) × (c.id ≡ b.id) × (c.resource ≡ b.resource)
SameKind-some b none h = elim h [ ]
SameKind-some b (some c) h = (c, refl, h.0, h.1)

covered :
    (actor : String) (before now : Map Record) (b c : Record) (seen : Bool) (k : String)
    → before b.id ≡ some b
    → restore_record b c ≡ sign actor b
    → (if seen then signed actor (before k) else set now b.id (restore_record b c) k)
      ≡ (if str_eq b.id k || seen then signed actor (before k) else now k)
covered actor before now b c seen k here copy = elim (Bool-cases (str_eq b.id k)) [
  | inr f ↦ rw f
  | inl t ↦ rw (t, copy, ← (eq_iff b.id k).0 t, here) (ground arith)
]

restore_all-AreRead :
    (actor : String) (before : Map Record) (bs : List Record) (s : Store)
    → AreRead before bs
    → AllSameKind before s.records
    → ((k : String) → has bs k ≡ true → IsSigned actor (s.records k))
    → (s' : Store) × (restore_all bs s ≡ ok s')
      × ((k : String) → s'.records k ≡ (if has bs k then signed actor (before k) else s.records k))
unfolding restore_all has
restore_all-AreRead actor before [] s read same by = (s, refl, λ k. refl)
restore_all-AreRead actor before (b ∷ bs) s (here, read) same by =
    let (c, e, id, resource) = SameKind-some b (s.records b.id) (rw here at (same b.id)) in
    let mark : c.updated_by ≡ some actor = rw e at (by b.id (ground (arith, eq_refl b.id))) in
    let r = restore_record b c in
    let (s', done, each) =
      restore_all-AreRead actor before bs (save s b.id r c.byte_size) read
        (SameKind-set before s.records b r same here id resource)
        (λ k h. IsSigned-set actor s.records b.id k r mark (by k (ground arith))) in
    (
      s',
      rw (e, restore_all) done,
      λ k.
          each k
          ∙ covered actor before s.records b c (has bs k) k here
              (restore_record-copy actor b c id resource mark),
    )

-- The loop that rolls a migration back succeeds on what the loop of the migration has left, and gives the
-- records that were migrated back as they were, but for their last writer, which stays the one who
-- migrated them. No other record is touched.
pub restore_all-migrate_all :
    (size : FieldMap → ℕ) (actor : String) (version : Version) (os : List Operation)
    (rs : List Record) (s s' : Store) (bytes : Bytes)
    → AreRead s.records rs
    → migrate_all size actor version os rs s ≡ ok s'
    → (final : Store) × (restore_all rs (record { records = s'.records; bytes = bytes }) ≡ ok final)
      × ((k : String)
          → final.records k ≡ (if has rs k then signed actor (s.records k) else s.records k))
restore_all-migrate_all size actor version os rs s s' bytes read h =
    let kinds =
      migrate_all-SameKind size actor version os s.records rs s s' read
        (λ k. SameKind-refl (s.records k)) h in
    let (final, done, each) =
      restore_all-AreRead actor s.records rs (record { records = s'.records; bytes = bytes }) read
        kinds (λ k t. migrate_all-IsSigned size actor version os s.records rs s s' k h (inl t)) in
    (final, done, λ k. each k ∙ untouched k (has rs k) refl)
  where
    untouched :
        (k : String) (seen : Bool)
        → has rs k ≡ seen
        → (if seen then signed actor (s.records k) else s'.records k)
          ≡ (if seen then signed actor (s.records k) else s.records k)
    untouched k true e = refl
    untouched k false e = migrate_all-other size actor version os s.records rs s s' k h e

-- Giving back what a migration took, or taking what it gave back, restores the bytes in use, if
-- they were within the quotas and counted all that was taken away.
pub adjust_capacity-swap :
    (quotas used used' : Capacity) (b : Bytes)
    → used.installation_bytes ≤ quotas.installation_bytes
    → used.school_bytes ≤ quotas.school_bytes
    → b.removed ≤ used.installation_bytes
    → b.removed ≤ used.school_bytes
    → adjust_capacity quotas b used ≡ ok used'
    → adjust_capacity quotas (record { added = b.removed; removed = b.added }) used' ≡ ok used
unfolding adjust_capacity
adjust_capacity-swap quotas used used' b qi qs ri rs h = ground arith

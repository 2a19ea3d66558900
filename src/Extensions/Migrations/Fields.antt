-- ===== src/Extensions/Migrations/Fields.antt =====
-- What a migration leaves alone in a record.
use wattanman.Base.{
  ◌⊎◌, ◌∙◌, >>=-eq-ok, String, ◌≡◌, ◌≢◌, List, [], ◌∷◌, arith, All, ok, eq_iff, str_eq,
  if◌then◌else◌, Bool-cases, inl, inr,
}
use wattanman.Extensions.Types.{Operation, rename_field, set_default, remove_field}
use wattanman.Extensions.Migrations.{FieldMap, apply_operation, migrate_fields, resource_of}

-- The operation does not name the field.
abbrev pub Avoids : String → Operation → Type 0
Avoids field (rename_field resource from to) = (from ≢ field) × (to ≢ field)
Avoids field (set_default resource other value) = other ≢ field
Avoids field (remove_field resource other) = other ≢ field

apply_operation-Avoids :
    (o : Operation) (m m' : FieldMap) (field : String)
    → Avoids field o
    → apply_operation o m ≡ ok m'
    → m' field ≡ m field
unfolding apply_operation
apply_operation-Avoids (rename_field resource from to) m m' field a h =
    ground (arith, eq_iff from field, eq_iff to field)
apply_operation-Avoids (set_default resource other value) m m' field a h =
    ground (arith, eq_iff other field)
apply_operation-Avoids (remove_field resource other) m m' field a h =
    ground (arith, eq_iff other field)

-- The operation is of another resource, or does not name the field.
abbrev pub Misses : String → String → Operation → Type 0
Misses resource field o = (resource_of o ≢ resource) ⊎ Avoids field o

step-Misses :
    (o : Operation) (resource : String) (m m' : FieldMap) (field : String)
    → Misses resource field o
    → (if str_eq (resource_of o) resource then apply_operation o m else ok m) ≡ ok m'
    → m' field ≡ m field
step-Misses o resource m m' field (inl other) h = ground (arith, eq_iff (resource_of o) resource)
step-Misses o resource m m' field (inr avoids) h =
    elim (Bool-cases (str_eq (resource_of o) resource)) [
      | inl t ↦ apply_operation-Avoids o m m' field avoids (ground arith)
      | inr f ↦ ground arith
    ]

-- A migration that succeeds leaves each field of a record that none of its operations on the
-- record's resource names.
pub migrate_fields-Misses :
    (os : List Operation) (resource : String) (m m' : FieldMap) (field : String)
    → All (Misses resource field) os
    → migrate_fields os resource m ≡ ok m'
    → m' field ≡ m field
unfolding migrate_fields
migrate_fields-Misses [] resource m m' field h e = ground arith
migrate_fields-Misses (o ∷ os) resource m m' field h e =
    let (m'', first, rest) =
      >>=-eq-ok (if str_eq (resource_of o) resource then apply_operation o m else ok m)
        (λ x. migrate_fields os resource x) e in
    migrate_fields-Misses os resource m'' m' field h.1 rest
    ∙ step-Misses o resource m m'' field h.0 first

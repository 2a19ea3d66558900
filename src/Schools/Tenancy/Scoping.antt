-- ===== src/Schools/Tenancy/Scoping.antt =====
-- What a scoped call may reach.
use mathlib.Core.Path.{subst}
use wattanman.Base.{
  ap, String, Bool, true, false, not, ◌++◌, Option, none, some, List, [], ◌∷◌, ◌≡◌, arith, all,
  filter, str_eq, eq_iff, eq_refl, or_else, ok, ◌⊎◌, inl, inr,
}
use wattanman.Base.Map
use wattanman.Base.Map.{Map}
use wattanman.Schools.Tenancy.{
  Action, create, create_many, update, delete, upsert, Value, plain, object, Entry, Query,
  flatten_unique_where, scoped, apply_tenant_query_policy,
}

-- The actions that select rows by a `where` clause which need not name one row.
abbrev pub is_selecting : Action → Bool
is_selecting create = false
is_selecting create_many = false
is_selecting update = false
is_selecting delete = false
is_selecting upsert = false
is_selecting Action.other = false
is_selecting _ = true

abbrev equals : Option String → String → Bool
equals none s = false
equals (some t) s = str_eq t s

-- A row that a `where` clause selects: it has the plain values, and meets the objects, whose reading
-- is left to the client.
module _ (meets_object : String → List (String × String) → Map String → Bool) where
  abbrev pub meets_value : String → Value → Map String → Bool
  meets_value key (plain v) row = equals (row key) v
  meets_value key (object o) row = meets_object key o row

  abbrev pub selects : List Entry → Map String → Bool
  selects es row = all (λ e. meets_value e.key e.value row) es

  all-last :
      (p : Entry → Bool) (es : List Entry) (e : Entry) → all p (es ++ e ∷ []) ≡ true → p e ≡ true
  unfolding all
  all-last p [] e h = ground arith
  all-last p (x ∷ es) e h = all-last p es e (ground arith)

  scoped-selects :
      (school_id : String) (es : List Entry) (row : Map String)
      → selects (scoped school_id es) row ≡ true
      → row "schoolId" ≡ some school_id
  scoped-selects school_id es row h =
      let e =
        all-last (λ x. meets_value x.key x.value row)
          (filter (λ x. not (str_eq x.key "schoolId")) es)
          (record { key = "schoolId"; value = plain school_id }) h in
      equals-some (row "schoolId") e
    where
      equals-some : (o : Option String) → equals o school_id ≡ true → o ≡ some school_id
      equals-some none h = cc
      equals-some (some t) h = ap some ((eq_iff t school_id).0 h)

  -- Whatever a caller asks for, a call that selects rows of a model selects only rows of the school.
  pub policy-selects :
      (school_id : String) (owns : String → Map String → String → Bool) (q q' : Query)
      (model : String) (row : Map String)
      → q.model ≡ some model
      → is_selecting q.action ≡ true
      → apply_tenant_query_policy school_id owns q ≡ ok q'
      → selects q'.conditions row ≡ true
      → row "schoolId" ≡ some school_id
  unfolding apply_tenant_query_policy
  policy-selects school_id owns q q' model row m s h r =
      let e : q'.conditions ≡ scoped school_id q.conditions = ground arith in
      scoped-selects school_id q.conditions row (subst (λ es. selects es row ≡ true) e r)

-- A call that updates or deletes one row is passed on as it is where the row is the school's, and
-- refused where it is not.
pub policy-owns :
    (school_id : String) (owns : String → Map String → String → Bool) (q q' : Query)
    (model : String)
    → q.model ≡ some model
    → (q.action ≡ update) ⊎ (q.action ≡ delete)
    → apply_tenant_query_policy school_id owns q ≡ ok q'
    → (owns model (flatten_unique_where q.conditions) school_id ≡ true) × (q' ≡ q)
unfolding apply_tenant_query_policy
policy-owns school_id owns q q' model m (inl a) h = (ground arith, ground arith)
policy-owns school_id owns q q' model m (inr a) h = (ground arith, ground arith)

-- A created row belongs to the school of the request, unless the caller names a school.
pub policy-creates :
    (school_id : String) (owns : String → Map String → String → Bool) (q q' : Query)
    (model : String)
    → q.model ≡ some model
    → q.action ≡ create
    → apply_tenant_query_policy school_id owns q ≡ ok q'
    → q'.values "schoolId" ≡ some (or_else (q.values "schoolId") school_id)
unfolding apply_tenant_query_policy
policy-creates school_id owns q q' model m a h = ground (arith, eq_refl "schoolId")

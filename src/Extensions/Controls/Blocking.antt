-- ===== src/Extensions/Controls/Blocking.antt =====
-- A kill switch shuts what it covers.
use wattanman.Base.{
  String, ◌≡◌, refl, ◌↔◌, inl, inr, true, false, Option, none, some, arith, In, ok, eq_iff,
  Bool-cases,
}
use wattanman.Base.Table.{Table, find_first-eq-none_iff}
use wattanman.Extensions.Types.{Loaded}
use wattanman.Extensions.Controls.{
  Scope, publisher, extension, version, school, KillSwitch, applies, blocks, assert_allowed,
}

-- What a switch of each scope covers, for an installation at a version.
pub data Covers (l : Loaded) (version_id : String) (wanted : Option String) (s : KillSwitch)
    : Type 0 where
  by_publisher :
      s.scope_type ≡ publisher
      → s.scope_id ≡ l.extension.publisher_id
      → Covers l version_id wanted s
  by_extension :
      s.scope_type ≡ extension → s.scope_id ≡ l.row.extension_id → Covers l version_id wanted s
  by_version : s.scope_type ≡ version → s.scope_id ≡ version_id → Covers l version_id wanted s
  by_school : s.scope_type ≡ school → s.scope_id ≡ l.row.school_id → Covers l version_id wanted s
  by_capability :
      s.scope_type ≡ Scope.capability
      → s.scope_id ≡ l.row.extension_id
      → wanted ≡ some s.capability
      → Covers l version_id wanted s

module _ (l : Loaded) (version_id : String) (wanted : Option String) (s : KillSwitch) where
  Covers-blocks :
      s.active ≡ true → Covers l version_id wanted s → blocks l version_id wanted s ≡ true
  Covers-blocks a (by_publisher t e) = ground (arith, eq_iff s.scope_id l.extension.publisher_id)
  Covers-blocks a (by_extension t e) = ground (arith, eq_iff s.scope_id l.row.extension_id)
  Covers-blocks a (by_version t e) = ground (arith, eq_iff s.scope_id version_id)
  Covers-blocks a (by_school t e) = ground (arith, eq_iff s.scope_id l.row.school_id)
  Covers-blocks a (by_capability t e w) =
      ground (arith, eq_iff s.scope_id l.row.extension_id, eq_iff s.capability s.capability)

Covers-of_applies :
    (l : Loaded) (version_id : String) (wanted : Option String) (s : KillSwitch) (scope : Scope)
    → s.scope_type ≡ scope
    → applies l version_id wanted scope s.scope_id s.capability ≡ true
    → Covers l version_id wanted s
Covers-of_applies l version_id wanted s publisher t h = by_publisher t ((eq_iff _ _).0 h)
Covers-of_applies l version_id wanted s extension t h = by_extension t ((eq_iff _ _).0 h)
Covers-of_applies l version_id wanted s version t h = by_version t ((eq_iff _ _).0 h)
Covers-of_applies l version_id wanted s school t h = by_school t ((eq_iff _ _).0 h)
Covers-of_applies l version_id none s Scope.capability t h = absurd (ground arith)
Covers-of_applies l version_id (some w) s Scope.capability t h =
    by_capability t (ground (arith, eq_iff s.scope_id l.row.extension_id))
      (ground (arith, eq_iff s.capability w))

unblocked :
    (l : Loaded) (version_id : String) (wanted : Option String) (s : KillSwitch)
    → (s.active ≡ true → ¬ Covers l version_id wanted s)
    → blocks l version_id wanted s ≡ false
unblocked l version_id wanted s h = elim (Bool-cases (blocks l version_id wanted s)) [
  | inr f ↦ f
  | inl t ↦
      absurd (
        h (ground arith) (Covers-of_applies l version_id wanted s s.scope_type refl (ground arith)))
]

-- Access is allowed exactly when no active switch covers the publisher, the extension, the version,
-- the school or the capability.
pub assert_allowed_iff :
    (switches : Table KillSwitch) (l : Loaded) (version_id : String) (wanted : Option String)
    → (assert_allowed switches l version_id wanted ≡ ok tt)
      ↔ ((s : KillSwitch) → In s switches.rows → s.active ≡ true → ¬ Covers l version_id wanted s)
unfolding assert_allowed
assert_allowed_iff switches l version_id wanted =
    let (none_meets, meets_none) = find_first-eq-none_iff switches (blocks l version_id wanted) in
    (
      λ h s m a c.
          let e : switches.find_first (blocks l version_id wanted) ≡ none = ground arith in
          let on = Covers-blocks l version_id wanted s a c in cc (none_meets e s m),
      λ h. rw (meets_none (λ s m. unblocked l version_id wanted s (h s m))),
    )

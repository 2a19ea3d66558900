-- ===== src/Extensions/Controls/Setting.antt =====
-- `set` of backend/src/platform/extension-control.service.ts: a kill switch is set or lifted. The texts of
-- the request are given trimmed, in the case that the code gives them; who has done it and when is left out.
use wattanman.Base.{
  String, Bool, true, false, not, ◌&&◌, ◌==◌, ℕ, ◌≡◌, refl, ap, includes, subst, inl, inr, Option,
  some, List, [], ◌∷◌, str_eq, if◌then◌else◌, In, Result, ok, is_ok, bad_request, not_found,
  throw_if, require, ◌>>=◌, ◌>>◌, Bool-cases, Result-cases, arith,
}
use wattanman.Base.Table.{of_list}
use wattanman.Extensions.Types.{Loaded}
use wattanman.Extensions.Controls.{
  Scope, publisher, extension, version, school, KillSwitch, assert_allowed,
}
use wattanman.Extensions.Controls.Blocking.{Covers, assert_allowed_iff}

abbrev number_of : Scope → ℕ
number_of publisher = 0
number_of extension = 1
number_of version = 2
number_of school = 3
number_of Scope.capability = 4

abbrev pub same_scope : Scope → Scope → Bool
same_scope a b = number_of a == number_of b

abbrev is_capability : Scope → Bool
is_capability Scope.capability = true
is_capability _ = false

-- The scope is none where its text is no scope. Of the capability, whether it has the form of one.
pub record SwitchRequest : Type 0 where
  pub scope_type : Option Scope
  pub scope_id : String
  pub capability : String
  pub is_well_formed : Bool
  pub active : Option Bool
  pub reason : String

-- `active !== false`
abbrev pub is_activation : Option Bool → Bool
is_activation (some false) = false
is_activation _ = true

abbrev pub is_switch : Scope → String → String → KillSwitch → Bool
is_switch scope id capability s =
    same_scope s.scope_type scope && str_eq s.scope_id id && str_eq s.capability capability

-- `upsert`: the row of the scope, the identifier and the capability.
unfoldable pub put_switch : KillSwitch → List KillSwitch → List KillSwitch
put_switch new [] = new ∷ []
put_switch new (s ∷ ss) =
    let rest = put_switch new ss in
    if is_switch new.scope_type new.scope_id new.capability s then new ∷ ss else s ∷ rest

abbrev pub switch_of : SwitchRequest → Scope → KillSwitch
switch_of q scope = record {
  scope_type = scope;
  scope_id = q.scope_id;
  capability = q.capability;
  active = is_activation q.active;
}

-- The identifiers of the rows that a switch may name.
pub record Targets : Type 0 where
  pub publishers : List String
  pub extensions : List String
  pub versions : List String
  pub schools : List String

abbrev targets_of : Scope → Targets → List String
targets_of publisher t = t.publishers
targets_of extension t = t.extensions
targets_of Scope.capability t = t.extensions
targets_of version t = t.versions
targets_of school t = t.schools

abbrev pub assert_scope_exists : Targets → Scope → String → Result (Unit {0})
assert_scope_exists t scope id = throw_if (not (includes (targets_of scope t) id)) not_found

unfoldable pub set_switch : Targets → SwitchRequest → List KillSwitch → Result (List KillSwitch)
set_switch targets q switches = do
  scope ← require q.scope_type bad_request
  throw_if (str_eq q.scope_id "") bad_request
  throw_if (is_capability scope && not q.is_well_formed) bad_request
  throw_if (not (is_capability scope) && not (str_eq q.capability "")) bad_request
  throw_if (str_eq q.reason "") bad_request
  assert_scope_exists targets scope q.scope_id
  ok (put_switch (switch_of q scope) switches)

put_switch-In : (new : KillSwitch) (ss : List KillSwitch) → In new (put_switch new ss)
unfolding put_switch
put_switch-In new [] = inl refl
put_switch-In new (s ∷ ss) =
    elim (Bool-cases (is_switch new.scope_type new.scope_id new.capability s)) [
      | inl t ↦ rw (t) (inl refl)
      | inr f ↦ rw (f) (inr (put_switch-In new ss))
    ]

set_switch-eq :
    (targets : Targets) (q : SwitchRequest) (scope : Scope) (switches after : List KillSwitch)
    → q.scope_type ≡ some scope
    → set_switch targets q switches ≡ ok after
    → put_switch (switch_of q scope) switches ≡ after
unfolding set_switch
set_switch-eq targets q scope switches after e h = ground arith

-- Once a switch is accepted and not a lifting, no installation that it covers is allowed any more, whatever
-- the other switches are.
pub set_switch-refuses :
    (targets : Targets) (q : SwitchRequest) (scope : Scope) (switches after : List KillSwitch)
    (l : Loaded) (version_id : String) (wanted : Option String)
    → q.scope_type ≡ some scope
    → is_activation q.active ≡ true
    → set_switch targets q switches ≡ ok after
    → Covers l version_id wanted (switch_of q scope)
    → is_ok (assert_allowed (of_list after) l version_id wanted) ≡ false
set_switch-refuses targets q scope switches after l version_id wanted e a h c =
    elim (Result-cases (assert_allowed (of_list after) l version_id wanted)) [
      | inr (x, r) ↦ ap is_ok r
      | inl (u, r) ↦ absurd (
          (assert_allowed_iff (of_list after) l version_id wanted).0 r (switch_of q scope)
            (subst (λ ss. In (switch_of q scope) ss)
              (set_switch-eq targets q scope switches after e h)
              (put_switch-In (switch_of q scope) switches))
            a c)
    ]

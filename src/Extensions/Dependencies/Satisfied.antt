-- ===== src/Extensions/Dependencies/Satisfied.antt =====
-- When the dependencies of a version are accepted.
use wattanman.Base.{
  String, ◌≡◌, refl, ◌⊎◌, inl, inr, true, false, List, [], ◌∷◌, map, Option, some, arith, In,
  filter, is_empty, eq_iff, ok, includes, filter-is_empty, Option-cases, ap,
}
use wattanman.Base.Table.{Table}
use wattanman.Extensions.Types.{Loaded, Version, Dependency}
use wattanman.Extensions.Ranges.{version_matches}
use wattanman.Extensions.Dependencies.{
  get_active, resolve, is_missing, is_peer, conflicts_with, resolve_dependencies,
  assert_dependencies,
}

get_active-In :
    (key : String) (ls : List Loaded) (l : Loaded)
    → get_active key ls ≡ some l
    → In l ls × (l.extension.key ≡ key)
unfolding get_active
get_active-In key [] l h = absurd (ground arith)
get_active-In key (x ∷ xs) l h = elim (Option-cases (get_active key xs)) [
  | inl e ↦ ground (arith, eq_iff x.extension.key key)
  | inr (y, e) ↦ let (m, k) = get_active-In key xs l (ground arith) in (inr m, k)
]

map-In {ℓ κ} :
    {A : Type ℓ} {B : Type κ} (f : A → B) (a : A) (xs : List A) → In a xs → In (f a) (map f xs)
map-In f a [] m = elim m [ ]
map-In f a (x ∷ xs) (inl e) = inl (ap f e)
map-In f a (x ∷ xs) (inr m) = inr (map-In f a xs m)

map-is_empty {ℓ κ} :
    {A : Type ℓ} {B : Type κ} (f : A → B) (xs : List A) → is_empty (map f xs) ≡ is_empty xs
map-is_empty f [] = refl
map-is_empty f (x ∷ xs) = refl

-- An enabled installation of the school that a dependency accepts.
pub record Provides (school_id : String) (excluded : Option String) (d : Dependency) (l : Loaded)
    : Type 0 where
  pub peer : is_peer school_id excluded l ≡ true
  pub same_key : l.extension.key ≡ d.key
  pub in_range :
      (is_empty d.version_range ≡ true) ⊎ (version_matches l.version.number d.version_range ≡ true)

provided :
    (d : Dependency) (ls : List Loaded)
    → d.optional ≡ false
    → is_missing (resolve ls d) ≡ false
    → (l : Loaded) × In l ls
      × (l.extension.key ≡ d.key)
      × ((is_empty d.version_range ≡ true)
          ⊎ (version_matches l.version.number d.version_range ≡ true))
unfolding resolve
provided d ls o h = elim (Option-cases (get_active d.key ls)) [
  | inl e ↦ absurd (ground arith)
  | inr (l, e) ↦ let (m, k) = get_active-In d.key ls l e in (l, m, k, ground arith)
]

module _ (table : Table Loaded) (school_id extension_key : String) (version : Version)
    (excluded : Option String)
    (h : assert_dependencies table school_id extension_key version excluded ≡ ok tt) where
  -- Where the check passes, each required dependency is provided by an enabled installation of the
  -- same school, of a version in its range.
  pub assert_dependencies-Provides :
      (d : Dependency)
      → In d version.dependencies
      → d.optional ≡ false
      → (l : Loaded) × In l table.rows × Provides school_id excluded d l
  unfolding assert_dependencies resolve_dependencies
  assert_dependencies-Provides d m o =
      let peers = table.find_many (is_peer school_id excluded) in
      let none_missing : is_empty (filter is_missing (map (resolve peers) version.dependencies))
          ≡ true =
        ground arith in
      let found =
        filter-is_empty is_missing (map (resolve peers) version.dependencies) none_missing
          (resolve peers d) (map-In (resolve peers) d version.dependencies m) in
      let (l, in_peers, k, r) = provided d peers o found in
      let (row, p) = table.find_many_meets (is_peer school_id excluded) l in_peers in
      (l, row, record { peer = p; same_key = k; in_range = r })

  -- Where the check passes, no other enabled installation of the school declares a conflict with
  -- the extension, and the version declares none with it.
  pub assert_dependencies-compatible :
      (l : Loaded)
      → In l table.rows
      → is_peer school_id excluded l ≡ true
      → (includes version.conflicts l.extension.key ≡ false)
        × (includes l.version.conflicts extension_key ≡ false)
  unfolding assert_dependencies resolve_dependencies
  assert_dependencies-compatible l m p =
      let peers = table.find_many (is_peer school_id excluded) in
      let test = conflicts_with extension_key version in
      let e = map-is_empty (λ (x : Loaded). x.extension.key) (filter test peers) in
      let none_found : is_empty (filter test peers) ≡ true = ground arith in
      let free =
        filter-is_empty test peers none_found l
          (table.find_many_complete (is_peer school_id excluded) l m p) in
      ground arith

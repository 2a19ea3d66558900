-- ===== src/Catalogue/Graph/Fuel.antt =====
-- The search for a cycle ends on the fuel that it is given, and refuses a graph only for a cycle.
use wattanman.Base.{
  ℕ, zero, suc, ◌+◌, ◌<◌, String, true, ◌≡◌, ◌≢◌, ◌↔◌, refl, subst, sym, ap, ◌⊎◌, inl, inr, List,
  [], ◌∷◌, is_some, includes, In, includes-In, Bool-cases, arith, length,
}
use wattanman.Catalogue.Graph.{
  Node, Walk, stuck, cycle, done, then_, mark, get, targets, visit_all, visit, search_cycle,
  is_done,
}
use wattanman.Catalogue.Graph.Pigeonhole.{Distinct, Present, pigeonhole}
use wattanman.Catalogue.Graph.Cycles.{Edge, Reaches, edge, further, visit-acyclic}

then_-moves :
    (w : Walk) (next : List String → Walk)
    → w ≢ stuck
    → ((v : List String) → next v ≢ stuck)
    → then_ w next ≢ stuck
then_-moves stuck next n m e = n refl
then_-moves cycle next n m e = ground arith
then_-moves (done v) next n m e = m v e

then_-eq-cycle :
    (w : Walk) (next : List String → Walk)
    → then_ w next ≡ cycle
    → (w ≡ cycle) ⊎ ((v : List String) × (next v ≡ cycle))
then_-eq-cycle stuck next e = absurd (ground arith)
then_-eq-cycle cycle next e = inl refl
then_-eq-cycle (done v) next e = inr (v, e)

module _ (g : List Node) where
  abbrev Moves : (String → List String → Walk) → Type 0
  Moves step = (d : String) (vs : List String) → is_some (get g d) ≡ true → step d vs ≢ stuck

  visit_all-Moves :
      (step : String → List String → Walk)
      → Moves step
      → (ds vs : List String) → visit_all step g ds vs ≢ stuck
  unfolding visit_all
  visit_all-Moves step s [] vs h = ground arith
  visit_all-Moves step s (d ∷ ds) vs h = elim (Bool-cases (is_some (get g d))) [
    | inr f ↦ visit_all-Moves step s ds vs (rw (f, visit_all) at h)
    | inl t ↦
        then_-moves (step d vs) (visit_all step g ds) (s d vs t) (λ v. visit_all-Moves step s ds v)
          (rw (t, visit_all) at h)
  ]

  visit-Moves :
      (fuel : ℕ) (visiting : List String)
      → Distinct visiting
      → Present g visiting
      → length g < length visiting + fuel
      → Moves (visit fuel g visiting)
  unfolding visit
  visit-Moves zero visiting d p l key vs t h = let most = pigeonhole g visiting d p in ground arith
  visit-Moves (suc fuel) visiting d p l key vs t h = elim (Bool-cases (includes visiting key)) [
    | inl t' ↦ no_cycle (rw (t', visit) at h)
    | inr f ↦ elim (Bool-cases (includes vs key)) [
      | inl t' ↦ no_done (rw (f, t', visit) at h)
      | inr f' ↦
          then_-moves (visit_all (visit fuel g (key ∷ visiting)) g (targets g key) vs) (mark key)
            (visit_all-Moves (visit fuel g (key ∷ visiting))
              (visit-Moves fuel (key ∷ visiting) (f, d) (t, p) (ground arith)) (targets g key) vs)
            (λ v e. no_done e) (rw (f, f', visit) at h)
    ]
  ]
    where
      no_cycle : cycle ≢ stuck
      no_cycle e = ground arith

      no_done : {v : List String} → done v ≢ stuck
      no_done e = ground arith

  -- The key is the first one, or the first one leads to it.
  abbrev pub Within : String → String → Type 0
  Within root k = (root ≡ k) ⊎ Reaches g root k

  -- A key depends on itself that is the first one, or that the first one leads to.
  abbrev pub Loop : String → Type 0
  Loop root = (k : String) × Within root k × Reaches g k k

  extend : (x y z : String) → Reaches g x y → Edge g y z → Reaches g x z
  extend x y z (edge e) e' = further e (edge e')
  extend x y z (further {y = d} e r) e' = further e (extend d y z r e')

  extend-Within : (x y z : String) → Within x y → Edge g y z → Within x z
  extend-Within x y z (inl q) e = inr (edge (subst (λ k. Edge g k z) (sym q) e))
  extend-Within x y z (inr r) e = inr (extend x y z r e)

  abbrev Finds : String → String → (String → List String → Walk) → Type 0
  Finds root key step =
      (d : String) (vs : List String) → Edge g key d → step d vs ≡ cycle → Loop root

  visit_all-cycle :
      (root key : String) (step : String → List String → Walk)
      → Finds root key step
      → (ds vs : List String) → ((d : String) → In d ds → In d (targets g key))
      → visit_all step g ds vs ≡ cycle
      → Loop root
  unfolding visit_all
  visit_all-cycle root key step s [] vs m h = absurd (ground arith)
  visit_all-cycle root key step s (d ∷ ds) vs m h = elim (Bool-cases (is_some (get g d))) [
    | inr f ↦ visit_all-cycle root key step s ds vs (λ x i. m x (inr i)) (rw (f, visit_all) at h)
    | inl t ↦ elim (then_-eq-cycle (step d vs) (visit_all step g ds) (rw (t, visit_all) at h)) [
      | inl e ↦ s d vs (m d (inl refl), t) e
      | inr (v, e) ↦ visit_all-cycle root key step s ds v (λ x i. m x (inr i)) e
    ]
  ]

  visit-cycle :
      (root : String) (fuel : ℕ) (visiting : List String) (key : String) (vs : List String)
      → Within root key
      → ((k : String) → In k visiting → Reaches g k key)
      → visit fuel g visiting key vs ≡ cycle
      → Loop root
  unfolding visit
  visit-cycle root zero visiting key vs w path h = absurd (ground arith)
  visit-cycle root (suc fuel) visiting key vs w path h = elim (Bool-cases (includes visiting key)) [
    | inl t ↦ (key, w, path key (includes-In visiting key t))
    | inr f ↦ elim (Bool-cases (includes vs key)) [
      | inl t ↦ absurd (no_done (rw (f, t, visit) at h))
      | inr f' ↦
          elim (then_-eq-cycle (visit_all (visit fuel g (key ∷ visiting)) g (targets g key) vs)
            (mark key) (rw (f, f', visit) at h)) [
              | inr (v, e) ↦ absurd (no_done e)
              | inl e ↦
                  let inner : Finds root key (visit fuel g (key ∷ visiting)) = λ d vs' e' h'.
                    visit-cycle root fuel (key ∷ visiting) d vs' (extend-Within root key d w e')
                      (λ k m. elim m [
                        | inl q ↦ subst (λ x. Reaches g x d) q (edge e')
                        | inr m' ↦ extend k key d (path k m') e'
                      ])
                      h' in
                  visit_all-cycle root key (visit fuel g (key ∷ visiting)) inner (targets g key) vs
                    (λ d m. m) e
            ]
    ]
  ]
    where
      no_done : {v : List String} → done v ≢ cycle
      no_done e = ground arith

  Walk-cases : (w : Walk) → (w ≡ stuck) ⊎ (w ≡ cycle) ⊎ ((vs : List String) × (w ≡ done vs))
  Walk-cases stuck = inl refl
  Walk-cases cycle = inr (inl refl)
  Walk-cases (done vs) = inr (inr (vs, refl))

  -- The search from a key of the graph is done, on the fuel that it is given, if and only if no key
  -- that is the first one or that the first one leads to depends on itself.
  pub search_cycle_iff :
      (key : String)
      → is_some (get g key) ≡ true
      → (is_done (search_cycle g key) ≡ true)
        ↔ ((k : String) → (key ≡ k) ⊎ Reaches g key k → ¬ Reaches g k k)
  search_cycle_iff key t = elim (Walk-cases (search_cycle g key)) [
    | inl e ↦ absurd (visit-Moves (length g + 1) [] tt tt (ground arith) key [] t e)
    | inr (inl e) ↦ (
      λ d. absurd (ground arith),
      λ none_.
          let (k, w, r) =
            visit-cycle key (length g + 1) [] key [] (inl refl) (λ k m. elim m [ ]) e in
          absurd (none_ k w r),
    )
    | inr (inr (vs, e)) ↦ (
      λ d k w.
          let (itself, others) = visit-acyclic g (length g + 1) key vs e in
          elim w [ inl q ↦ subst (λ x. ¬ Reaches g x x) q itself | inr r ↦ others k r ],
      λ none_. ap is_done e,
    )
  ]

  -- The search from a key of the graph comes to an end on the fuel that it is given: it finds a cycle if and
  -- only if the first key, or one that it leads to, depends on itself, and is done otherwise.
  pub search_cycle-ends :
      (key : String)
      → is_some (get g key) ≡ true
      → ((search_cycle g key ≡ cycle) ↔ Loop key)
        × (¬ Loop key → (vs : List String) × (search_cycle g key ≡ done vs))
  search_cycle-ends key t = elim (Walk-cases (search_cycle g key)) [
    | inl e ↦ absurd (visit-Moves (length g + 1) [] tt tt (ground arith) key [] t e)
    | inr (inl e) ↦ ((λ h. found e, λ l. e), λ none_. absurd (none_ (found e)))
    | inr (inr (vs, e)) ↦ (
      (
        λ h. absurd (ground arith),
        λ (k, w, r).
            let (itself, others) = visit-acyclic g (length g + 1) key vs e in
            absurd
              (elim w [ inl q ↦ subst (λ x. ¬ Reaches g x x) q itself r | inr p ↦ others k p r ]),
      ),
      λ none_. (vs, e),
    )
  ]
    where
      found : search_cycle g key ≡ cycle → Loop key
      found e = visit-cycle key (length g + 1) [] key [] (inl refl) (λ k m. elim m [ ]) e

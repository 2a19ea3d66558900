-- ===== src/Catalogue/Graph/Cycles.antt =====
-- What the search for a cycle says of the graph: the keys that it has visited, in the order in which their
-- visits end, each come after all that they depend on.
use wattanman.Base.{
  ℕ, zero, suc, String, true, false, ◌≡◌, refl, subst, sym, inl, inr, List, [], ◌∷◌, is_some,
  includes, In, In-includes, includes-In, Bool-cases, arith,
}
use wattanman.Catalogue.Graph.{
  Node, Walk, stuck, cycle, done, then_, mark, get, targets, visit_all, visit,
}

module _ (g : List Node) where
  -- `x` depends on `d`, which the graph has.
  abbrev pub Edge : String → String → Type 0
  Edge x d = In d (targets g x) × (is_some (get g d) ≡ true)

  -- From `x`, one edge or more lead to `y`.
  pub data Reaches : String → String → Type 0 where
    edge : {x y : String} → Edge x y → Reaches x y
    further : {x y z : String} → Edge x y → Reaches y z → Reaches x z

  abbrev Ordered : List String → Type 0
  Ordered [] = Unit
  Ordered (x ∷ xs) = ((d : String) → Edge x d → In d xs) × (¬ In x xs) × Ordered xs

  Edge-In : (vs : List String) (x d : String) → Ordered vs → In x vs → Edge x d → In d vs
  Edge-In [] x d o m e = elim m [ ]
  Edge-In (v ∷ vs) x d o (inl q) e = inr (o.0 d (subst (λ y. Edge y d) (sym q) e))
  Edge-In (v ∷ vs) x d o (inr m) e = inr (Edge-In vs x d o.2 m e)

  Reaches-In : (vs : List String) (x y : String) → Ordered vs → In x vs → Reaches x y → In y vs
  Reaches-In vs x y o m (edge e) = Edge-In vs x y o m e
  Reaches-In vs x y o m (further {y = d} e r) = Reaches-In vs d y o (Edge-In vs x d o m e) r

  from_head : (v : String) (vs : List String) → Ordered (v ∷ vs) → ¬ Reaches v v
  from_head v vs o (edge e) = o.1 (o.0 v e)
  from_head v vs o (further {y = d} e r) = o.1 (Reaches-In vs d v o.2 (o.0 d e) r)

  acyclic : (vs : List String) (x : String) → Ordered vs → In x vs → ¬ Reaches x x
  acyclic [] x o m r = elim m [ ]
  acyclic (v ∷ vs) x o (inl q) r = from_head v vs o (subst (λ y. Reaches y y) (sym q) r)
  acyclic (v ∷ vs) x o (inr m) r = acyclic vs x o.2 m r

  -- What a walk along the path `visiting` makes of the visited keys.
  abbrev Grows : List String → List String → List String → Type 0
  Grows visiting vs vs' =
      Ordered vs'
      × ((k : String) → In k vs → In k vs')
      × ((k : String) → In k visiting → In k vs' → In k vs)

  abbrev Steps : List String → (String → List String → Walk) → Type 0
  Steps visiting step =
      (d : String) (vs vs' : List String)
      → step d vs ≡ done vs'
      → Ordered vs
      → Grows visiting vs vs' × In d vs'

  then_-eq-done :
      (w : Walk) (next : List String → Walk) (vs' : List String)
      → then_ w next ≡ done vs'
      → (vs : List String) × (w ≡ done vs) × (next vs ≡ done vs')
  then_-eq-done stuck next vs' h = absurd (ground arith)
  then_-eq-done cycle next vs' h = absurd (ground arith)
  then_-eq-done (done vs) next vs' h = (vs, refl, h)

  visit_all-Grows :
      (visiting : List String) (step : String → List String → Walk)
      → Steps visiting step
      → (ds vs vs' : List String) → visit_all step g ds vs ≡ done vs'
      → Ordered vs
      → Grows visiting vs vs' × ((d : String) → In d ds → is_some (get g d) ≡ true → In d vs')
  unfolding visit_all
  visit_all-Grows visiting step s [] vs vs' h o =
      let e : vs ≡ vs' = cc in
      (
        (subst Ordered e o, λ k m. subst (In k) e m, λ k m m'. subst (In k) (sym e) m'),
        λ d m. elim m [ ],
      )
  visit_all-Grows visiting step s (d ∷ ds) vs vs' h o = elim (Bool-cases (is_some (get g d))) [
    | inl t ↦
        let (v, hd, hs) =
          then_-eq-done (step d vs) (visit_all step g ds) vs' (rw (t, visit_all) at h) in
        let (grown, there) = s d vs v hd o in
        let (grows, all_) = visit_all-Grows visiting step s ds v vs' hs grown.0 in
        (
          (grows.0, λ k m. grows.1 k (grown.1 k m), λ k m m'. grown.2 k m (grows.2 k m m')),
          λ d' m t'. elim m [
            | inl e ↦ subst (λ x. In x vs') e (grows.1 d there)
            | inr m' ↦ all_ d' m' t'
          ],
        )
    | inr f ↦
        let (grows, all_) = visit_all-Grows visiting step s ds vs vs' (rw (f, visit_all) at h) o in
        (grows, λ d' m t'. elim m [ inl e ↦ absurd (cc) | inr m' ↦ all_ d' m' t' ])
  ]

  -- The key joins the visited ones, after what it depends on.
  finished :
      (key : String) (visiting vs v : List String)
      → includes visiting key ≡ false
      → includes vs key ≡ false
      → Grows (key ∷ visiting) vs v
      → ((d : String) → Edge key d → In d v)
      → Grows visiting vs (key ∷ v) × In key (key ∷ v)
  finished key visiting vs v f f' grows all_ = (
    (
      (all_, λ m. absurd (unseen vs f' (grows.2 key (inl refl) m)), grows.0),
      λ k m. inr (grows.1 k m),
      λ k m m'. elim m' [
        | inl e ↦ absurd (unseen visiting f (subst (λ x. In x visiting) (sym e) m))
        | inr m'' ↦ grows.2 k (inr m) m''
      ],
    ),
    inl refl,
  )
    where
      unseen : (xs : List String) → includes xs key ≡ false → ¬ In key xs
      unseen xs e m = let t = In-includes xs key m in ground arith

  visit-Grows : (fuel : ℕ) (visiting : List String) → Steps visiting (visit fuel g visiting)
  unfolding visit
  visit-Grows zero visiting key vs vs' h o = absurd (ground arith)
  visit-Grows (suc fuel) visiting key vs vs' h o = elim (Bool-cases (includes visiting key)) [
    | inl t ↦ absurd (impossible (rw (t, visit) at h))
    | inr f ↦ elim (Bool-cases (includes vs key)) [
      | inl t ↦
          let e : vs ≡ vs' = same (rw (f, t, visit) at h) in
          (
            (subst Ordered e o, λ k m. subst (In k) e m, λ k m m'. subst (In k) (sym e) m'),
            subst (In key) e (includes-In vs key t),
          )
      | inr f' ↦
          let (v, hv, e) =
            then_-eq-done (visit_all (visit fuel g (key ∷ visiting)) g (targets g key) vs)
              (mark key) vs' (rw (f, f', visit) at h) in
          let (grows, all_) =
            visit_all-Grows (key ∷ visiting) (visit fuel g (key ∷ visiting))
              (visit-Grows fuel (key ∷ visiting)) (targets g key) vs v hv o in
          subst (λ w. Grows visiting vs w × In key w) (same e)
            (finished key visiting vs v f f' grows (λ d d_. all_ d d_.0 d_.1))
    ]
  ]
    where
      impossible : {a : List String} → cycle ≡ done a → ⊥
      impossible e = ground arith

      same : {a b : List String} → (done a ≡ done b) → a ≡ b
      same e = cc

  -- Where the search from a key ends with the keys that it has visited, no key that the first one leads to
  -- depends on itself, directly or through others.
  pub visit-acyclic :
      (fuel : ℕ) (key : String) (vs : List String)
      → visit fuel g [] key [] ≡ done vs
      → (¬ Reaches key key) × ((k : String) → Reaches key k → ¬ Reaches k k)
  visit-acyclic fuel key vs h =
      let (grows, there) = visit-Grows fuel [] key [] vs h tt in
      (
        acyclic vs key grows.0 there,
        λ k r. acyclic vs k grows.0 (Reaches-In vs key k grows.0 there r),
      )

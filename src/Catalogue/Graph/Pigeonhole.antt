-- ===== src/Catalogue/Graph/Pigeonhole.antt =====
-- Different keys of a graph are not more than its nodes.
use wattanman.Base.{
  suc, ◌≤◌, String, true, false, not, ◌≡◌, subst, inl, inr, List, [], ◌∷◌, is_some, includes, All,
  Bool-cases, arith, length, str_eq, eq_iff, filter, any, find,
}
use wattanman.Catalogue.Graph.{Node, get}

-- No key stands twice.
abbrev pub Distinct : List String → Type 0
Distinct [] = Unit
Distinct (k ∷ ks) = (includes ks k ≡ false) × Distinct ks

abbrev without : String → List String → List String
without k ks = filter (λ x. not (str_eq x k)) ks

without_absent :
    (k : String) (ks : List String) → includes ks k ≡ false → length ks ≤ length (without k ks)
unfolding any filter
without_absent k [] h = ground arith
without_absent k (x ∷ ks) h = ground (arith, without_absent k ks)

length-without :
    (k : String) (ks : List String) → Distinct ks → length ks ≤ suc (length (without k ks))
unfolding filter
length-without k [] d = ground arith
length-without k (x ∷ ks) d = elim (Bool-cases (str_eq x k)) [
  | inl t ↦
      let e : x ≡ k = (eq_iff x k).0 t in
      let less : length ks ≤ length (without k ks) =
        without_absent k ks (subst (λ y. includes ks y ≡ false) e d.0) in
      ground arith
  | inr f ↦ let less = length-without k ks d.1 in ground arith
]

includes-without :
    (k y : String) (ks : List String) → includes ks y ≡ false → includes (without k ks) y ≡ false
unfolding any filter
includes-without k y [] h = h
includes-without k y (x ∷ ks) h = ground (arith, includes-without k y ks)

without-Distinct : (k : String) (ks : List String) → Distinct ks → Distinct (without k ks)
unfolding filter
without-Distinct k [] d = tt
without-Distinct k (x ∷ ks) d = elim (Bool-cases (str_eq x k)) [
  | inl t ↦ rw (t, filter) (without-Distinct k ks d.1)
  | inr f ↦ rw (f, filter) (includes-without k x ks d.0, without-Distinct k ks d.1)
]

abbrev pub Present : List Node → List String → Type 0
Present g ks = All (λ k. is_some (get g k) ≡ true) ks

without-Present :
    (n : Node) (g : List Node) (ks : List String)
    → Present (n ∷ g) ks
    → Present g (without n.key ks)
unfolding filter find
without-Present n g [] p = tt
without-Present n g (x ∷ ks) p = elim (Bool-cases (str_eq x n.key)) [
  | inl t ↦ rw (t, filter) (without-Present n g ks p.1)
  | inr f ↦
      rw (f, filter) (ground (arith, eq_iff n.key x, eq_iff x n.key), without-Present n g ks p.1)
]

-- Keys that a graph has are not more than its nodes.
pub pigeonhole :
    (g : List Node) (ks : List String) → Distinct ks → Present g ks → length ks ≤ length g
unfolding find
pigeonhole [] [] d p = ground arith
pigeonhole [] (k ∷ ks) d p = absurd (ground arith)
pigeonhole (n ∷ g) ks d p =
    let most =
      pigeonhole g (without n.key ks) (without-Distinct n.key ks d) (without-Present n g ks p) in
    let less = length-without n.key ks d in ground arith

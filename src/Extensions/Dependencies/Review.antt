-- ===== src/Extensions/Dependencies/Review.antt =====
-- What a permission review lists.
use wattanman.Base.{
  String, ◌≡◌, ◌↔◌, true, false, not, List, arith, In, includes, filter, filter-In, filter_complete,
  includes-In, In-includes, inl, inr, ◌⊎◌, Bool-cases,
}
use wattanman.Extensions.Types.{Version}
use wattanman.Extensions.Dependencies.{permission_review}

difference_iff :
    (xs ys : List String) (s : String)
    → In s (filter (λ p. not (includes ys p)) xs) ↔ (In s xs × ¬ In s ys)
difference_iff xs ys s = (to, from)
  where
    to : In s (filter (λ p. not (includes ys p)) xs) → In s xs × ¬ In s ys
    to h =
        let (m, e) = filter-In (λ p. not (includes ys p)) s xs h in
        (m, λ m'. let t = In-includes ys s m' in ground arith)

    from : In s xs × ¬ In s ys → In s (filter (λ p. not (includes ys p)) xs)
    from h =
        filter_complete (λ p. not (includes ys p)) s xs h.0 (absent (Bool-cases (includes ys s)))
      where
        absent : (includes ys s ≡ true) ⊎ (includes ys s ≡ false) → not (includes ys s) ≡ true
        absent (inl t) = absurd (h.1 (includes-In ys s t))
        absent (inr f) = ground arith

-- A review lists as added exactly the permissions that the target asks for and the current version
-- does not, and as removed exactly those that only the current version asks for.
pub permission_review_iff :
    (current target : Version) (s : String)
    → (In s (permission_review current target).added
        ↔ (In s target.permissions × ¬ In s current.permissions))
      × (In s (permission_review current target).removed
          ↔ (In s current.permissions × ¬ In s target.permissions))
unfolding permission_review
permission_review_iff current target s = (
  difference_iff target.permissions current.permissions s,
  difference_iff current.permissions target.permissions s,
)

-- ===== src/Common/Pages/Walk.antt =====
-- A client that follows the cursors sees every row once.
use mathlib.Core.Path.{subst}
use wattanman.Base.{
  ℕ, zero, suc, ◌+◌, ◌≤◌, ◌<◌, String, Bool, true, false, ◌≡◌, refl, sym, ap, ◌∙◌, Option, none,
  some, List, [], ◌∷◌, ◌++◌, arith, All, ltb, length, take, filter, Bool-cases, inl, inr,
}
use wattanman.Common.Pages.{Cursor, last_cursor, is_past, selected, find_page, date_id_page_by}

module _ {T : Type 0} (cursor_of : T → Cursor) (before : String → String → Bool) where
  -- The rows are in the order of the query: each is past those above it, and none past itself or one
  -- below it.
  abbrev pub IsDescending : List T → Type 0
  IsDescending [] = Unit
  IsDescending (x ∷ xs) =
      (is_past cursor_of before (cursor_of x) x ≡ false)
      × All
          (λ y.
            (is_past cursor_of before (cursor_of x) y ≡ true)
            × (is_past cursor_of before (cursor_of y) x ≡ false))
          xs
      × IsDescending xs

  abbrev follow : (Option Cursor → Option (List T)) → Option Cursor → Option (List T)
  follow rest none = some []
  follow rest (some c) = rest (some c)

  abbrev append : List T → Option (List T) → Option (List T)
  append items none = none
  append items (some rest) = some (items ++ rest)

  -- The items of the pages from a cursor on, up to one without a next cursor; none where that many pages do
  -- not reach it.
  unfoldable pub walk : ℕ → List T → ℕ → Option Cursor → Option (List T)
  walk zero rows limit cursor = none
  walk (suc fuel) rows limit cursor =
      let page = find_page cursor_of before rows limit cursor in
      append page.items (follow (λ c. walk fuel rows limit c) page.next_cursor)

  append_nil : (xs : List T) → xs ++ [] ≡ xs
  append_nil [] = refl
  append_nil (x ∷ xs) = ap (λ ys. x ∷ ys) (append_nil xs)

  append_assoc : (xs ys zs : List T) → (xs ++ ys) ++ zs ≡ xs ++ (ys ++ zs)
  append_assoc [] ys zs = refl
  append_assoc (x ∷ xs) ys zs = ap (λ us. x ∷ us) (append_assoc xs ys zs)

  filter-all : (xs : List T) → filter (λ x. true) xs ≡ xs
  unfolding filter
  filter-all [] = refl
  filter-all (x ∷ xs) = ap (λ ys. x ∷ ys) (filter-all xs)

  filter-past :
      (x : T) (xs : List T)
      → All
          (λ y.
            (is_past cursor_of before (cursor_of x) y ≡ true)
            × (is_past cursor_of before (cursor_of y) x ≡ false))
          xs
      → filter (is_past cursor_of before (cursor_of x)) xs ≡ xs
  unfolding filter
  filter-past x [] h = refl
  filter-past x (y ∷ ys) h = ground (arith, filter-past x ys h.1)

  All-middle : (P : T → Type 0) (pre post : List T) (x : T) → All P (pre ++ x ∷ post) → P x
  All-middle P [] post x h = h.0
  All-middle P (y ∷ ys) post x h = All-middle P ys post x h.1

  -- The rows past a row are those below it.
  filter-below :
      (pre post : List T) (x : T)
      → IsDescending (pre ++ x ∷ post)
      → filter (is_past cursor_of before (cursor_of x)) (pre ++ x ∷ post) ≡ post
  unfolding filter
  filter-below [] post x h = ground (arith, filter-past x post h.1)
  filter-below (y ∷ ys) post x h =
      let (a, b) =
        All-middle
          (λ z.
            (is_past cursor_of before (cursor_of y) z ≡ true)
            × (is_past cursor_of before (cursor_of z) y ≡ false))
          ys post x h.1 in
      ground (arith, filter-below ys post x h.2)

  last_cursor-append :
      (top : List T) (x : T) → last_cursor cursor_of (top ++ x ∷ []) ≡ some (cursor_of x)
  last_cursor-append [] x = refl
  last_cursor-append (y ∷ []) x = refl
  last_cursor-append (y ∷ z ∷ zs) x = last_cursor-append (z ∷ zs) x

  -- Where a list splits after its first `n + 1` items.
  record Split (n : ℕ) (xs : List T) : Type 0 where
    top : List T
    last : T
    rest : List T
    whole : xs ≡ top ++ last ∷ rest
    taken : take (suc n) xs ≡ top ++ last ∷ []
    shorter : length rest < length xs

  split : (n : ℕ) (xs : List T) → n < length xs → Split n xs
  split n [] h = absurd (omega arith)
  split zero (x ∷ xs) h = record {
    top = [];
    last = x;
    rest = xs;
    whole = refl;
    taken = refl;
    shorter = omega arith;
  }
  split (suc n) (x ∷ []) h = absurd (omega arith)
  split (suc n) (x ∷ y ∷ ys) h =
      let s = split n (y ∷ ys) (omega arith) in
      record {
        top = x ∷ s.top;
        last = s.last;
        rest = s.rest;
        whole = ap (λ zs. x ∷ zs) s.whole;
        taken = ap (λ zs. x ∷ zs) s.taken;
        shorter = omega (arith, s.shorter);
      }

  take-short : (n : ℕ) (xs : List T) → length xs ≤ n → take n xs ≡ xs
  take-short zero [] h = refl
  take-short zero (x ∷ xs) h = absurd (omega arith)
  take-short (suc n) [] h = refl
  take-short (suc n) (x ∷ xs) h = ap (λ ys. x ∷ ys) (take-short n xs (omega arith))

  length-take : (n : ℕ) (xs : List T) → n ≤ length xs → length (take n xs) ≡ n
  length-take zero xs h = refl
  length-take (suc n) [] h = absurd (omega arith)
  length-take (suc n) (x ∷ xs) h = ground (arith, length-take n xs (omega arith))

  take-take : (n m : ℕ) (xs : List T) → n ≤ m → take n (take m xs) ≡ take n xs
  take-take zero m xs h = refl
  take-take (suc n) zero xs h = absurd (omega arith)
  take-take (suc n) (suc m) [] h = refl
  take-take (suc n) (suc m) (x ∷ xs) h = ap (λ ys. x ∷ ys) (take-take n m xs (omega arith))

  -- The page of the rows that are left: all of them, or those up to a last one, whose cursor follows.
  page-last :
      (post : List T) (limit : ℕ)
      → length post ≤ limit
      → let page = date_id_page_by cursor_of (take (limit + 1) post) limit in
        (page.items ≡ post) × (page.next_cursor ≡ none)
  unfolding date_id_page_by
  page-last post limit h = rw (take-short (limit + 1) post (omega arith)) (ground arith)

  page-more :
      (post : List T) (limit : ℕ)
      → limit < length post
      → let page = date_id_page_by cursor_of (take (limit + 1) post) limit in
        (page.items ≡ take limit post)
        × (page.next_cursor ≡ last_cursor cursor_of (take limit post))
  unfolding date_id_page_by
  page-more post limit h = ground (
    arith,
    length-take (limit + 1) post (omega arith),
    take-take limit (limit + 1) post (omega arith),
  )

  walk-rest :
      (fuel limit : ℕ) (rows pre post : List T) (cursor : Option Cursor)
      → IsDescending rows
      → rows ≡ pre ++ post
      → filter (selected cursor_of before cursor) rows ≡ post
      → length post < fuel
      → walk fuel rows (suc limit) cursor ≡ some post
  unfolding walk find_page
  walk-rest zero limit rows pre post cursor d w e h = absurd (omega arith)
  walk-rest (suc fuel) limit rows pre post cursor d w e h =
      elim (Bool-cases (ltb (suc limit) (length post))) [
        | inr short ↦
            let (items, next) = page-last post (suc limit) (ground arith) in
            rw (e, items, next) (ap some (append_nil post))
        | inl long ↦
            let (items, next) = page-more post (suc limit) (ground arith) in
            let s = split limit post (ground arith) in
            let w' : rows ≡ (pre ++ s.top) ++ s.last ∷ s.rest =
              w ∙ ap (λ xs. pre ++ xs) s.whole ∙ sym (append_assoc pre s.top (s.last ∷ s.rest)) in
            let tail =
              walk-rest fuel limit rows ((pre ++ s.top) ++ s.last ∷ []) s.rest
                (some (cursor_of s.last)) d
                (w' ∙ sym (append_assoc (pre ++ s.top) (s.last ∷ []) s.rest))
                (subst (λ xs. filter (is_past cursor_of before (cursor_of s.last)) xs ≡ s.rest)
                  (sym w') (filter-below (pre ++ s.top) s.rest s.last (subst IsDescending w' d)))
                (omega (arith, s.shorter)) in
            rw (e, items, next, s.taken, last_cursor-append s.top s.last, tail)
              (ap some (append_assoc s.top (s.last ∷ []) s.rest ∙ sym s.whole))
      ]

  -- A client that follows the cursors from the first page on, with any limit but 0, comes to a page without
  -- a next cursor after no more pages than there are rows and one, and has got each row of the query once and
  -- in order. The rows are in the order of the query, and do not change meanwhile.
  pub walk_complete :
      (limit fuel : ℕ) (rows : List T)
      → 0 < limit
      → IsDescending rows
      → length rows < fuel
      → walk fuel rows limit none ≡ some rows
  walk_complete zero fuel rows pos d h = absurd (omega arith)
  walk_complete (suc limit) fuel rows pos d h =
      walk-rest fuel limit rows [] rows none d refl (filter-all rows) h

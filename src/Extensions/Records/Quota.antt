-- ===== src/Extensions/Records/Quota.antt =====
-- The quotas of a module's records over any requests.
use mathlib.Core.Path.{subst}
use wattanman.Base.{
  ℕ, Bool, is_ok, String, ◌≡◌, sym, Option, List, [], ◌∷◌, arith, Result, ok, err, Result-cases,
  inl, inr,
}
use wattanman.Extensions.Migrations.{Record}
use wattanman.Extensions.Upgrade.{Usage}
use wattanman.Extensions.Records.Writes.{update_record-cases, delete_record-cases}
use wattanman.Extensions.Records.{
  Site, Permission, Limits, Shelf, Written, reserve_capacity, authorize, new_record, changed,
  create_record, update_record, delete_record,
}
use wattanman.Extensions.Records.Counters.{IsExact, IsWithin, Change, Change-IsExact}

-- A request of a caller, with the site as it is then.
pub data Command : Type 0 where
  creates : (site : Site) (key : String) (p : Permission) (role id : String) (w : Written) → Command
  updates :
      (site : Site) (key : String) (p : Permission) (role id : String) (if_match : Option ℕ)
      (w : Written)
      → Command
  deletes :
      (site : Site) (key : String) (p : Permission) (role id : String) (if_match : Option ℕ)
      → Command

-- A refused request leaves the shelf.
abbrev shelf_of : Shelf → Result (Record × Shelf) → Shelf
shelf_of s (ok (r, s')) = s'
shelf_of s (err e) = s

abbrev shelf_or : Shelf → Result Shelf → Shelf
shelf_or s (ok s') = s'
shelf_or s (err e) = s

unfoldable pub perform : Limits → Command → Shelf → Shelf
perform l (creates site key p role id w) s = shelf_of s (create_record site l key p role id w s)
perform l (updates site key p role id if_match w) s =
    shelf_of s (update_record site l key p role id if_match w s)
perform l (deletes site key p role id if_match) s =
    shelf_or s (delete_record site l key p role id if_match s)

-- Whether a request is accepted.
unfoldable pub is_accepted : Limits → Command → Shelf → Bool
is_accepted l (creates site key p role id w) s = is_ok (create_record site l key p role id w s)
is_accepted l (updates site key p role id if_match w) s =
    is_ok (update_record site l key p role id if_match w s)
is_accepted l (deletes site key p role id if_match) s =
    is_ok (delete_record site l key p role id if_match s)

pub perform_all : Limits → List Command → Shelf → Shelf
perform_all l [] s = s
perform_all l (c ∷ cs) s = perform_all l cs (perform l c s)

create_record-Change :
    (site : Site) (l : Limits) (key : String) (p : Permission) (role id : String) (w : Written)
    (s s' : Shelf) (r : Record)
    → create_record site l key p role id w s ≡ ok (r, s')
    → Change l s s'
unfolding create_record
create_record-Change site l key p role id w s s' r h =
    elim (Result-cases (authorize site key p role)) [
      | inr (e, a) ↦ absurd (ground arith)
      | inl ((m, fields), a) ↦ elim (Result-cases (reserve_capacity l w.byte_size 1 s)) [
        | inr (e, b) ↦ absurd (ground arith)
        | inl (s0, b) ↦
            subst (Change l s) (ground arith) (Change.adds (new_record id p.resource m w) s0 b)
      ]
    ]

update_record-Change :
    (site : Site) (l : Limits) (key : String) (p : Permission) (role id : String)
    (if_match : Option ℕ) (w : Written) (s s' : Shelf) (r : Record)
    → update_record site l key p role id if_match w s ≡ ok (r, s')
    → Change l s s'
update_record-Change site l key p role id if_match w s s' r h =
    let (m, old, s0, f, v, e, same, new) =
      update_record-cases site l key p role id if_match s w r s' h in
    subst (Change l s) (sym new) (Change.puts id old (changed m w old) s0 f e)

delete_record-Change :
    (site : Site) (l : Limits) (key : String) (p : Permission) (role id : String)
    (if_match : Option ℕ) (s s' : Shelf)
    → delete_record site l key p role id if_match s ≡ ok s'
    → Change l s s'
delete_record-Change site l key p role id if_match s s' h =
    let (old, s0, f, v, e, new) = delete_record-cases site l key p role id if_match s s' h in
    subst (Change l s) (sym new) (Change.drops id old s0 f e)

module _ (l : Limits) (others : Usage) where
  abbrev Kept : Shelf → Type 0
  Kept s = IsExact others s × IsWithin l s

  kept : (s s' : Shelf) → Change l s s' → Kept s → Kept s'
  kept s s' c (x, w) = let (x', w') = Change-IsExact l others s s' c x in (x', w' w)

  perform-Kept : (c : Command) (s : Shelf) → Kept s → Kept (perform l c s)
  unfolding perform
  perform-Kept (creates site key p role id w) s k =
      elim (Result-cases (create_record site l key p role id w s)) [
        | inr (e, a) ↦ rw a k
        | inl ((r, s'), a) ↦
            rw a (kept s s' (create_record-Change site l key p role id w s s' r a) k)
      ]
  perform-Kept (updates site key p role id if_match w) s k =
      elim (Result-cases (update_record site l key p role id if_match w s)) [
        | inr (e, a) ↦ rw a k
        | inl ((r, s'), a) ↦
            rw a (kept s s' (update_record-Change site l key p role id if_match w s s' r a) k)
      ]
  perform-Kept (deletes site key p role id if_match) s k =
      elim (Result-cases (delete_record site l key p role id if_match s)) [
        | inr (e, a) ↦ rw a k
        | inl (s', a) ↦
            rw a (kept s s' (delete_record-Change site l key p role id if_match s s' a) k)
      ]

  -- Whatever requests come, in any order and accepted or refused: from counters that are exact and within
  -- the quotas, the counters stay the number of the records and the sum of their sizes, those of the school
  -- stay the ones of all its installations, and all four stay within the quotas.
  pub perform_all-IsExact :
      (cs : List Command) (s : Shelf)
      → IsExact others s
      → IsWithin l s
      → IsExact others (perform_all l cs s) × IsWithin l (perform_all l cs s)
  unfolding perform_all
  perform_all-IsExact [] s x w = (x, w)
  perform_all-IsExact (c ∷ cs) s x w =
      let (x', w') = perform-Kept c s (x, w) in perform_all-IsExact cs (perform l c s) x' w'

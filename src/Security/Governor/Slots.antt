-- ===== src/Security/Governor/Slots.antt =====
-- Concurrency slots: taken and given back in pairs, and never more than the quota allows while the
-- counter lives.
use mathlib.Core.Path.{fun_ext}
use wattanman.Base.{
  ℕ, zero, suc, ◌+◌, ◌≤◌, ◌<◌, String, ◌≡◌, refl, ap, Bool-cases, inl, inr, true, false, Option,
  none, some, List, [], ◌∷◌, arith, leb, if◌then◌else◌, eq_refl, All, eq_iff, Error, err,
}
use wattanman.Security.Governor.{
  Key, key_eq, LocalCounter, Counters, Governor, Limits, local_increment, local_acquire, release,
  acquire, enter_slots, concurrency_school, concurrency_extension,
}

pub key_eq_refl : (k : Key) → key_eq k k ≡ true
key_eq_refl (Key.requests_school a) = eq_refl a
key_eq_refl (Key.requests_extension a) = eq_refl a
key_eq_refl (Key.concurrency_school a) = eq_refl a
key_eq_refl (Key.concurrency_extension a) = eq_refl a
key_eq_refl (Key.exports_school a) = eq_refl a
key_eq_refl (Key.exports_extension a) = eq_refl a

-- The slots in use by a counter.
abbrev pub slots : Option LocalCounter → ℕ
slots none = 0
slots (some c) = c.count

-- A counter that has not run out, with at least one slot in use, or no counter.
abbrev pub IsLive : ℕ → Option LocalCounter → Type 0
IsLive now none = Unit
IsLive now (some c) = (0 < c.count) × (now < c.expires_at)

key_eq_sound : (a b : Key) → key_eq a b ≡ true → a ≡ b
key_eq_sound (Key.requests_school a) (Key.requests_school b) h =
    ap Key.requests_school ((eq_iff a b).0 h)
key_eq_sound (Key.requests_extension a) (Key.requests_extension b) h =
    ap Key.requests_extension ((eq_iff a b).0 h)
key_eq_sound (Key.concurrency_school a) (Key.concurrency_school b) h =
    ap Key.concurrency_school ((eq_iff a b).0 h)
key_eq_sound (Key.concurrency_extension a) (Key.concurrency_extension b) h =
    ap Key.concurrency_extension ((eq_iff a b).0 h)
key_eq_sound (Key.exports_school a) (Key.exports_school b) h =
    ap Key.exports_school ((eq_iff a b).0 h)
key_eq_sound (Key.exports_extension a) (Key.exports_extension b) h =
    ap Key.exports_extension ((eq_iff a b).0 h)
key_eq_sound _ _ h = cc

module _ (key : Key) (ttl limit now : ℕ) (local : Counters) (live : IsLive now (local key)) where
  local_acquire-refused :
      leb (local_acquire key ttl limit now local).0 limit ≡ false
      → (k : Key) → (local_acquire key ttl limit now local).1 k ≡ local k
  unfolding local_acquire local_increment release
  local_acquire-refused h k = ground (arith, key_eq_sound key k, key_eq_refl key)

  release-local_acquire :
      leb (local_acquire key ttl limit now local).0 limit ≡ true
      → (k : Key) → release key (local_acquire key ttl limit now local).1 k ≡ local k
  unfolding local_acquire local_increment release
  release-local_acquire h k = ground (arith, key_eq_sound key k, key_eq_refl key)

local_acquire-other :
    (key : Key) (ttl limit now : ℕ) (local : Counters) (k : Key)
    → key_eq key k ≡ false
    → (local_acquire key ttl limit now local).1 k ≡ local k
unfolding local_acquire local_increment release
local_acquire-other key ttl limit now local k h = ground arith

module _ (l : Limits) (school_id extension : String) (now : ℕ) (g : Governor) (e : Error)
    (live : IsLive now (g.local (concurrency_school school_id)))
    (live' : IsLive now (g.local (concurrency_extension extension))) where
  abbrev first : ℕ × Counters
  first = local_acquire (concurrency_school school_id) 300000 l.school_concurrency now g.local

  abbrev second : ℕ × Counters
  second = local_acquire (concurrency_extension extension) 300000 l.global_concurrency now first.1

  first-IsLive : IsLive now (first.1 (concurrency_extension extension))
  first-IsLive =
      rw
        (local_acquire-other (concurrency_school school_id) 300000 l.school_concurrency now g.local
          (concurrency_extension extension) refl)
        live'

  undone :
      leb first.0 l.school_concurrency ≡ true
      → leb second.0 l.global_concurrency ≡ false
      → (k : Key) → release (concurrency_school school_id) second.1 k ≡ g.local k
  undone t f k =
      rw
        (fun_ext (
          local_acquire-refused (concurrency_extension extension) 300000 l.global_concurrency now
            first.1 first-IsLive f))
        (release-local_acquire (concurrency_school school_id) 300000 l.school_concurrency now
          g.local live t k)

  -- A request that either quota refuses leaves every concurrency counter as it was.
  pub enter_slots-refused :
      (enter_slots l school_id extension now g).0 ≡ err e
      → (k : Key) → (enter_slots l school_id extension now g).1.local k ≡ g.local k
  unfolding enter_slots acquire
  enter_slots-refused h k = elim (Bool-cases (leb first.0 l.school_concurrency)) [
    | inr f ↦
        rw (f, enter_slots, acquire)
          (local_acquire-refused (concurrency_school school_id) 300000 l.school_concurrency now
            g.local live f k)
    | inl t ↦ elim (Bool-cases (leb second.0 l.global_concurrency)) [
      | inl t' ↦ ground arith
      | inr f ↦ rw (t, f) (undone t f k)
    ]
  ]

pub data Event : Type 0 where
  enters : (now : ℕ) → Event
  leaves : Event

-- The counter of one key and the number of requests that hold a slot of it.
pub step : Key → ℕ → Event → ℕ × Counters → ℕ × Counters
step key limit (enters now) (holders, local) =
    let (count, local') = local_acquire key 300000 limit now local in
    (if leb count limit then holders + 1 else holders, local')
step key limit leaves (zero, local) = (zero, local)
step key limit leaves (suc holders, local) = (holders, release key local)

pub steps : Key → ℕ → List Event → ℕ × Counters → ℕ × Counters
steps key limit [] s = s
steps key limit (e ∷ es) s = steps key limit es (step key limit e s)

-- An event in the five minutes from `start`.
abbrev pub IsWithin : ℕ → Event → Type 0
IsWithin start (enters now) = (start ≤ now) × (now < start + 300000)
IsWithin start leaves = Unit

-- The counter counts the holders, and outlives the five minutes.
abbrev IsExact : ℕ → ℕ → ℕ → Option LocalCounter → Type 0
IsExact limit end holders none = holders ≡ 0
IsExact limit end holders (some c) =
    (c.count ≡ holders) × (0 < holders) × (holders ≤ limit) × (end ≤ c.expires_at)

step-IsExact :
    (key : Key) (limit start : ℕ) (e : Event) (s : ℕ × Counters)
    → IsWithin start e
    → IsExact limit (start + 300000) s.0 (s.1 key)
    → let after = step key limit e s in IsExact limit (start + 300000) after.0 (after.1 key)
unfolding step local_acquire local_increment release
step-IsExact key limit start (enters now) (holders, local) w h = ground (arith, key_eq_refl key)
step-IsExact key limit start leaves (zero, local) w h = h
step-IsExact key limit start leaves (suc holders, local) w h = ground (arith, key_eq_refl key)

steps-IsExact :
    (key : Key) (limit start : ℕ) (es : List Event) (s : ℕ × Counters)
    → All (IsWithin start) es
    → IsExact limit (start + 300000) s.0 (s.1 key)
    → let after = steps key limit es s in IsExact limit (start + 300000) after.0 (after.1 key)
unfolding steps
steps-IsExact key limit start [] s w h = h
steps-IsExact key limit start (e ∷ es) s (w, ws) h =
    steps-IsExact key limit start es (step key limit e s) ws (step-IsExact key limit start e s w h)

IsExact-bound :
    (limit end holders : ℕ) (c : Option LocalCounter)
    → IsExact limit end holders c
    → (slots c ≡ holders) × (holders ≤ limit)
IsExact-bound limit end holders none h = (omega arith, omega arith)
IsExact-bound limit end holders (some c) h = (h.0, h.2)

-- Whatever the order in which requests come and go within five minutes, the counter is the number
-- of requests that hold a slot, and that is within the quota.
pub steps-bounded :
    (key : Key) (limit start : ℕ) (es : List Event) (local : Counters)
    → local key ≡ none
    → All (IsWithin start) es
    → let after = steps key limit es (0, local) in
      (slots (after.1 key) ≡ after.0) × (after.0 ≤ limit)
steps-bounded key limit start es local e w =
    let after = steps key limit es (0, local) in
    IsExact-bound limit (start + 300000) after.0 (after.1 key)
      (steps-IsExact key limit start es (0, local) w (rw e refl))

-- A counter runs out five minutes after its first request, whoever still holds a slot: from then
-- on the full quota is given out once more.
pub slots_forgotten :
    (key : Key) (limit now : ℕ) (holders : ℕ) (local : Counters) (c : LocalCounter)
    → local key ≡ some c
    → c.count ≡ holders
    → limit ≤ holders
    → 0 < limit
    → c.expires_at ≤ now
    → let after = step key limit (enters now) (holders, local) in
      (limit < after.0) × (slots (after.1 key) ≡ 1)
unfolding step local_acquire local_increment release
slots_forgotten key limit now holders local c e n full pos over = ground (arith, key_eq_refl key)

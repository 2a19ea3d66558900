-- ===== src/Security/Schedule/Once.antt =====
-- A scheduled task runs once in each time window.
use native.Mathlib.Nat.{div-add-mod, mod-lt}
use wattanman.Base.{
  ℕ, ◌+◌, ◌*◌, ◌/◌, ◌≤◌, ◌<◌, String, ◌≡◌, ap, str_eq, Bool, true, false, some, List, [], ◌∷◌,
  arith, eq_refl, All, eq_iff, Result, ok, err,
}
use wattanman.Security.Schedule.{Claims, acquire, sweep_claims}

-- A claim by any task.
pub record Claim : Type 0 where
  pub task : String
  pub window_ms : ℕ
  pub now : ℕ

abbrev after : Claims → Result (Bool × Claims) → Claims
after local (err e) = local
after local (ok (taken, local')) = local'

pub claim_all : List Claim → Claims → Claims
claim_all [] local = local
claim_all (c ∷ cs) local = claim_all cs (after local (acquire c.task c.window_ms c.now local))

abbrev Claimed : Claims → String → ℕ → ℕ → Type 0
Claimed local task bucket end = local task bucket ≡ some end

claim-Claimed :
    (c : Claim) (local : Claims) (task : String) (bucket end : ℕ)
    → c.now < end
    → Claimed local task bucket end
    → Claimed (after local (acquire c.task c.window_ms c.now local)) task bucket end
unfolding acquire
claim-Claimed c local task bucket end early h = ground (arith, eq_iff c.task task)

claim_all-Claimed :
    (cs : List Claim) (local : Claims) (task : String) (bucket end : ℕ)
    → All (λ c. c.now < end) cs
    → Claimed local task bucket end
    → Claimed (claim_all cs local) task bucket end
unfolding claim_all
claim_all-Claimed [] local task bucket end f h = h
claim_all-Claimed (c ∷ cs) local task bucket end (f, fs) h =
    claim_all-Claimed cs (after local (acquire c.task c.window_ms c.now local)) task bucket end fs
      (claim-Claimed c local task bucket end f h)

same_window : (now later w : ℕ) → 0 < w → now / w ≡ later / w → later < now + w * 2
same_window now later w pos e = omega (
  arith,
  div-add-mod now w,
  div-add-mod later w,
  mod-lt later pos,
  mod-lt now pos,
  ap (λ t. w * t) e,
)

first_claim :
    (task : String) (w now : ℕ) (local local' : Claims)
    → acquire task w now local ≡ ok (true, local')
    → (1000 ≤ w) × Claimed local' task (now / w) (now + w * 2)
unfolding acquire
first_claim task w now local local' h = ground (arith, eq_refl task)

acquire_again :
    (task : String) (w later end : ℕ) (local : Claims)
    → str_eq task "" ≡ false
    → 1000 ≤ w
    → later < end
    → Claimed local task (later / w) end
    → acquire task w later local ≡ ok (false, sweep_claims local later)
unfolding acquire
acquire_again task w later end local named wide early h = ground arith

claim_named :
    (task : String) (w now : ℕ) (local local' : Claims)
    → acquire task w now local ≡ ok (true, local')
    → str_eq task "" ≡ false
unfolding acquire
claim_named task w now local local' h = ground arith

claims_before :
    (cs : List Claim) (later end : ℕ)
    → later < end
    → All (λ c. c.now ≤ later) cs
    → All (λ c. c.now < end) cs
claims_before [] later end early fs = tt
claims_before (c ∷ cs) later end early (f, fs) = (omega arith, claims_before cs later end early fs)

-- Once a task has claimed its window, every later claim of it in that window is refused, whatever
-- other claims are made up to then.
pub acquire_once :
    (task : String) (window_ms now later : ℕ) (local local' : Claims) (cs : List Claim)
    → acquire task window_ms now local ≡ ok (true, local')
    → now / window_ms ≡ later / window_ms
    → All (λ c. c.now ≤ later) cs
    → acquire task window_ms later (claim_all cs local')
      ≡ ok (false, sweep_claims (claim_all cs local') later)
acquire_once task window_ms now later local local' cs h same fs =
    let (wide, claimed) = first_claim task window_ms now local local' h in
    let end : ℕ = now + window_ms * 2 in
    let early : later < end = same_window now later window_ms (omega arith) same in
    let kept =
      claim_all-Claimed cs local' task (now / window_ms) end (claims_before cs later end early fs)
        claimed in
    acquire_again task window_ms later end (claim_all cs local')
      (claim_named task window_ms now local local' h) wide early (rw same at kept)

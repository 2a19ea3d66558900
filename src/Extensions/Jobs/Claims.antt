-- ===== src/Extensions/Jobs/Claims.antt =====
-- How often a lifecycle job runs.
use wattanman.Base.{ℕ, ◌+◌, ◌≤◌, ◌<◌, String, none, some, ◌≡◌, arith, Result, ok}
use wattanman.Extensions.Jobs.{Job, claim, complete, execute}

-- A claimed job is not claimed again by an attempt that is no later, before the time of a stale run is
-- over.
pub claim-exclusive :
    (now now' timeout attempt attempt' : ℕ) (j j' : Job)
    → claim now timeout attempt j ≡ some j'
    → attempt' ≤ attempt
    → now' < now + timeout
    → claim now' timeout attempt' j' ≡ none
unfolding claim
claim-exclusive now now' timeout attempt attempt' j j' h a t = ground arith

-- A job that has succeeded is answered with its result, and no attempt changes it any more.
pub execute-succeeded :
    (now ended timeout attempt : ℕ) (outcome : Result String) (j : Job) (r : String)
    → (execute now ended timeout attempt outcome j).0 ≡ ok r
    → (now' ended' timeout' attempt' : ℕ) (outcome' : Result String)
    → execute now' ended' timeout' attempt' outcome' (execute now ended timeout attempt outcome j).1
      ≡ (ok r, (execute now ended timeout attempt outcome j).1)
unfolding execute complete
execute-succeeded now ended timeout attempt outcome j r h now' ended' timeout' attempt' outcome' =
    ground arith

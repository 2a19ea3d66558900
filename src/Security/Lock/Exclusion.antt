-- ===== src/Security/Lock/Exclusion.antt =====
-- Mutual exclusion over any interleaving of commands.
use wattanman.Base.{
  ℕ, ◌+◌, ◌≤◌, ◌<◌, String, ◌≡◌, ◌≢◌, true, false, some, List, [], ◌∷◌, arith, eq_refl, All, eq_iff,
}
use wattanman.Base.Map.{Map}
use wattanman.Security.Lock.{Lease, acquire, release, Reply, run, owned_by}

-- What the commands of a process do to the locks, one event at a time.
pub data Event : Type 0 where
  acquires : (key owner : String) (now : ℕ) → Event
  releases : (key owner : String) → Event

pub step : ℕ → Event → Map Lease → Map Lease
step ttl (acquires key owner now) local = (acquire ttl key owner now local).1
step ttl (releases key owner) local = release key owner local

pub steps : ℕ → List Event → Map Lease → Map Lease
steps ttl [] local = local
steps ttl (e ∷ es) local = steps ttl es (step ttl e local)

-- An event before `end` that is not the owner's own release.
abbrev pub IsForeign : String → ℕ → Event → Type 0
IsForeign owner end (acquires key other now) = now < end
IsForeign owner end (releases key other) = other ≢ owner

-- `owner` holds `key` until `end`.
abbrev pub Holds : Map Lease → String → String → ℕ → Type 0
Holds local key owner end = local key ≡ some (record { owner = owner; expires_at = end })

step-Holds :
    (ttl : ℕ) (e : Event) (local : Map Lease) (key owner : String) (end : ℕ)
    → IsForeign owner end e
    → Holds local key owner end
    → Holds (step ttl e local) key owner end
unfolding step acquire release
step-Holds ttl (acquires k o now) local key owner end f h = ground (arith, eq_iff k key)
step-Holds ttl (releases k o) local key owner end f h = ground (arith, eq_iff k key, eq_iff owner o)

steps-Holds :
    (ttl : ℕ) (es : List Event) (local : Map Lease) (key owner : String) (end : ℕ)
    → All (IsForeign owner end) es
    → Holds local key owner end
    → Holds (steps ttl es local) key owner end
unfolding steps
steps-Holds ttl [] local key owner end f h = h
steps-Holds ttl (e ∷ es) local key owner end (f, fs) h =
    steps-Holds ttl es (step ttl e local) key owner end fs
      (step-Holds ttl e local key owner end f h)

-- After a successful acquisition, whatever other commands do before the lease ends, the lock is
-- still held by its owner and every attempt to take it is refused.
pub steps-acquire_exclusive :
    (ttl : ℕ) (key owner : String) (now : ℕ) (local : Map Lease) (es : List Event)
    → (acquire ttl key owner now local).0 ≡ true
    → All (IsForeign owner (now + ttl)) es
    → (other : String) (later : ℕ) → later < now + ttl
    → let held = steps ttl es (acquire ttl key owner now local).1 in
      Holds held key owner (now + ttl) × ((acquire ttl key other later held).0 ≡ false)
steps-acquire_exclusive ttl key owner now local es h f other later early =
    let taken : Holds (acquire ttl key owner now local).1 key owner (now + ttl) =
      unfold acquire in ground (arith, eq_refl key) in
    let held =
      steps-Holds ttl es (acquire ttl key owner now local).1 key owner (now + ttl) f taken in
    (held, unfold acquire in ground arith)

-- A command that runs longer than its lease does not release the lock of the command that has
-- taken it over.
pub late_release_keeps :
    (ttl : ℕ) (key owner other : String) (now later : ℕ) (local : Map Lease)
    → Holds local key owner now
    → other ≢ owner
    → now ≤ later
    → Holds (release key owner (acquire ttl key other later local).1) key other (later + ttl)
unfolding acquire release
late_release_keeps ttl key owner other now later local h ne le =
    ground (arith, eq_refl key, eq_iff other owner)

-- The lock is free after `run`, also when the operation throws, unless another command holds it.
pub run-frees :
    {T : Type 0} (ttl : ℕ) (key owner : String) (now : ℕ)
    (operation : Map Lease → Reply T × Map Lease) (local : Map Lease)
    → (acquire ttl key owner now local).0 ≡ true
    → owned_by owner ((run ttl key owner now operation local).1 key) ≡ false
unfolding run
run-frees ttl key owner now operation local h = ground (arith, eq_refl key)

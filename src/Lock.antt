-- ===== src/Lock.antt =====
-- internal/inventory/lock.go: the process-global table of host locks. A mutex is the Boolean
-- "locked", and the table keeps every host that was ever asked for.
pub mod Exclusion
mod Tests
use bare_metal_operator.Prelude.{
  String, Bool, true, false, not, Option, none, some, ◌≡◌, arith, ◌==◌, eq_iff, eq_refl,
  if◌then◌else◌,
}
use bare_metal_operator.Prelude.Dict.{Dict, lookup, insert, lookup-insert}

abbrev pub HostLocks : Type 0
HostLocks = Dict Bool

abbrev or_unlocked : Option Bool → Bool
or_unlocked none = false
or_unlocked (some locked) = locked

-- Is the mutex of the host locked? An unknown host has none.
unfoldable pub is_locked : String → HostLocks → Bool
unfolding lookup
is_locked host locks = or_unlocked (lookup host locks)

-- hostLocks.LoadOrStore(hostID, &sync.Mutex{})
load_or_store : String → HostLocks → Option Bool → Bool × HostLocks
load_or_store host locks none = (false, insert host false locks)
load_or_store host locks (some locked) = (locked, locks)

-- (*sync.Mutex).TryLock
abbrev mutex_try_lock : String → Bool × HostLocks → Bool × HostLocks
mutex_try_lock host (locked, locks) =
    if locked then (false, locks) else (true, insert host true locks)

unfoldable pub try_lock : String → HostLocks → Bool × HostLocks
unfolding load_or_store lookup insert
try_lock host locks = mutex_try_lock host (load_or_store host locks (lookup host locks))

-- (*sync.Mutex).Unlock: `none` is the panic of a mutex that is not locked.
abbrev mutex_unlock : String → HostLocks → Option Bool → Option HostLocks
mutex_unlock host locks none = some locks
mutex_unlock host locks (some locked) = if locked then some (insert host false locks) else none

unfoldable pub unlock : String → HostLocks → Option HostLocks
unfolding lookup
unlock host locks = mutex_unlock host locks (lookup host locks)

-- `try_lock` succeeds exactly when the host is not locked. Afterwards the host is locked either
-- way, and no other host's lock has changed.
pub try_lock_lem :
    (host j : String) (locks : HostLocks)
    → ((try_lock host locks).0 ≡ not (is_locked host locks))
      × (is_locked j (try_lock host locks).1 ≡ (if host == j then true else is_locked j locks))
unfolding try_lock is_locked
try_lock_lem host j locks = (
  ground (arith, lookup-insert host host true locks, eq_refl host),
  ground (
    arith,
    eq_iff host j,
    lookup-insert host j true locks,
    lookup-insert host j false locks,
    lookup-insert host j true (insert host false locks),
  ),
)

-- `unlock` of a host that is locked does not panic, and leaves it unlocked.
pub unlock_locked :
    (host : String) (locks : HostLocks)
    → is_locked host locks ≡ true
    → unlock host locks ≡ some (insert host false locks)
unfolding unlock is_locked
unlock_locked host locks h = ground arith

pub is_locked-insert :
    (host j : String) (b : Bool) (locks : HostLocks)
    → is_locked j (insert host b locks) ≡ (if host == j then b else is_locked j locks)
unfolding is_locked
is_locked-insert host j b locks = ground (arith, lookup-insert host j b locks)

-- ===== src/Lock/Tests.antt =====
-- The lock theorems on two workers that want one host.
use bare_metal_operator.Prelude.{◌≤◌, none, ◌≢◌, refl}
use bare_metal_operator.Prelude.Dict.{lookup, insert}
use bare_metal_operator.Lock.{try_lock, load_or_store, unlock}
use bare_metal_operator.Lock.Exclusion.{
  System, init, Reach, start, next, tries, after_try, holders, Reach-exclusive, Reach-unlock,
}

abbrev contended : System
contended = after_try 2 "host-1" (after_try 1 "host-1" init)

contended-Reach : Reach contended
contended-Reach =
    next (next start (tries 1 "host-1" init)) (tries 2 "host-1" (after_try 1 "host-1" init))

Reach-exclusive_example : holders "host-1" contended.held ≤ 1
Reach-exclusive_example = Reach-exclusive "host-1" contended-Reach

Reach-unlock_example : unlock "host-1" contended.locks ≢ none
unfolding try_lock load_or_store lookup insert
Reach-unlock_example = Reach-unlock 1 "host-1" contended-Reach refl

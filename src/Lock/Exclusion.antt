-- ===== src/Lock/Exclusion.antt =====
-- Workers that share the table of internal/inventory/lock.go, as a step relation over the orders of
-- their calls.
use bare_metal_operator.Prelude.{
  ℕ, suc, ◌≤◌, String, Bool, true, false, ◌&&◌, none, some, List, [], ◌∷◌, ◌≡◌, ◌≢◌, refl, arith,
  eqb, ◌==◌, eq_iff, if◌then◌else◌,
}
use bare_metal_operator.Lock.{
  HostLocks, is_locked, try_lock, unlock, try_lock_lem, unlock_locked, is_locked-insert,
}

-- A worker, by number, and the host that it has locked.
abbrev pub Holder : Type 0
Holder = ℕ × String

abbrev is_holder : ℕ → String → Holder → Bool
is_holder worker host (w, h) = eqb w worker && h == host

-- Does the worker hold the host?
abbrev pub holds : ℕ → String → List Holder → Bool
holds worker host [] = false
holds worker host (p ∷ ps) = if is_holder worker host p then true else holds worker host ps

abbrev pub holders : String → List Holder → ℕ
holders host [] = 0
holders host ((w, h) ∷ ps) = let rest = holders host ps in if h == host then suc rest else rest

abbrev pub give_up : ℕ → String → List Holder → List Holder
give_up worker host [] = []
give_up worker host (p ∷ ps) =
    let rest = give_up worker host ps in if is_holder worker host p then ps else p ∷ rest

pub record System : Type 0 where
  pub locks : HostLocks
  pub held : List Holder

abbrev pub init : System
init = record { locks = []; held = [] }

abbrev pub after_try : ℕ → String → System → System
after_try worker host s = record {
  locks = (try_lock host s.locks).1;
  held = if (try_lock host s.locks).0 then (worker, host) ∷ s.held else s.held;
}

-- A worker tries a lock, or gives one up that it holds (the deferred `Unlock`).
pub data Step : System → System → Type 0 where
  tries : (worker : ℕ) (host : String) (s : System) → Step s (after_try worker host s)
  gives :
      (worker : ℕ) (host : String) (s : System) (locks : HostLocks)
      → holds worker host s.held ≡ true
      → unlock host s.locks ≡ some locks
      → Step s (record { locks = locks; held = give_up worker host s.held })

pub data Reach : System → Type 0 where
  start : Reach init
  next : {s t : System} → Reach s → Step s t → Reach t

-- The table tells how many workers hold a host: one if it is locked, none if it is not.
abbrev Agrees : System → Type 0
Agrees s = (j : String) → holders j s.held ≡ (if is_locked j s.locks then 1 else 0)

holds-holders :
    (worker : ℕ) (host : String) (ps : List Holder)
    → holds worker host ps ≡ true
    → 1 ≤ holders host ps
holds-holders worker host [] h = absurd (ground arith)
holds-holders worker host ((w, g) ∷ ps) h =
    ground (arith, holds-holders worker host ps, eq_iff g host)

holders-give_up :
    (worker : ℕ) (host j : String) (ps : List Holder)
    → holds worker host ps ≡ true
    → holders j ps ≡ (
        if host == j
        then suc (holders j (give_up worker host ps))
        else holders j (give_up worker host ps))
holders-give_up worker host j [] h = absurd (ground arith)
holders-give_up worker host j ((w, g) ∷ ps) h =
    ground (arith, holders-give_up worker host j ps, eq_iff g host, eq_iff g j, eq_iff host j)

Step-Agrees : {s t : System} → Step s t → Agrees s → Agrees t
Step-Agrees (tries worker host s) a j =
    ground (arith, a j, a host, try_lock_lem host j s.locks, eq_iff host j)
Step-Agrees (gives worker host s locks h u) a j = ground (
  arith,
  a j,
  a host,
  holds-holders worker host s.held h,
  holders-give_up worker host j s.held h,
  unlock_locked host s.locks,
  is_locked-insert host j false s.locks,
  eq_iff host j,
)

Reach-Agrees : {s : System} → Reach s → Agrees s
unfolding is_locked
Reach-Agrees start j = refl
Reach-Agrees (next r st) j = Step-Agrees st (Reach-Agrees r) j

-- In every state that any interleaving of tries and releases by any number of workers reaches, no
-- host has two holders.
pub Reach-exclusive : {s : System} (host : String) → Reach s → holders host s.held ≤ 1
Reach-exclusive {s} host r = ground (arith, Reach-Agrees r host)

-- In every state that any interleaving of tries and releases reaches, a worker that holds a host
-- can unlock it: the panic of Unlock is out of its reach.
pub Reach-unlock :
    {s : System} (worker : ℕ) (host : String)
    → Reach s
    → holds worker host s.held ≡ true
    → unlock host s.locks ≢ none
Reach-unlock {s} worker host r h =
    ground
      (arith, Reach-Agrees r host, holds-holders worker host s.held h, unlock_locked host s.locks)

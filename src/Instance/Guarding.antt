-- ===== src/Instance/Guarding.antt =====
-- The calls made under a host's lock, and the lock table around a part between TryLock and the
-- deferred Unlock.
use bare_metal_operator.Prelude.{
  String, Bool, true, false, List, [], ◌∷◌, ◌≡◌, inl, inr, refl, arith, ◌==◌, eq_iff, eq_refl,
  if◌then◌else◌, Bool-cases,
}
use bare_metal_operator.Effect.{Keeps, ◌>>=◌, ◌>>◌, pure}
use bare_metal_operator.Lock
use bare_metal_operator.Lock.{HostLocks, is_locked, try_lock_lem, unlock_locked, is_locked-insert}
use bare_metal_operator.Instance.State.{
  State, Handler, Call, assigns, unassigns, locked, refused, unlocked, try_lock, unlock,
}
use bare_metal_operator.Instance.Frame.{At, Pushes, is_plain}

-- Does the reconcile hold the host's lock after these calls (newest first)?
abbrev pub lock_held : String → List Call → Bool
lock_held host [] = false
lock_held host (locked h ∷ cs) = if h == host then true else lock_held host cs
lock_held host (unlocked h ∷ cs) = if h == host then false else lock_held host cs
lock_held host (_ ∷ cs) = lock_held host cs

-- Every assignment and unassignment was made under the lock of its host.
abbrev pub Guarded : List Call → Type 0
Guarded [] = Unit
Guarded (assigns host uid labels ∷ cs) = (lock_held host cs ≡ true) × Guarded cs
Guarded (unassigns host labels ∷ cs) = (lock_held host cs ≡ true) × Guarded cs
Guarded (_ ∷ cs) = Guarded cs

-- No panic, and the same hosts are locked as in the given table.
pub record IsQuiet (table : HostLocks) (locks : HostLocks) (panicked : Bool) : Type 0 where
  pub same : (j : String) → is_locked j locks ≡ is_locked j table
  pub calm : panicked ≡ false

-- What holds outside the locked part, and inside it.
pub record Outside (table : HostLocks) (cs : List Call) (ls : HostLocks) (p : Bool) : Type 0 where
  pub guarded : Guarded cs
  pub quiet : IsQuiet table ls p

pub record Inside (table : HostLocks) (host : String) (cs : List Call) (ls : HostLocks) (p : Bool)
    : Type 0 where
  pub held : lock_held host cs ≡ true
  pub guarded : Guarded cs
  pub quiet : IsQuiet table ls p

Guarded-plain : (c : Call) (cs : List Call) → is_plain c ≡ true → Guarded cs → Guarded (c ∷ cs)
Guarded-plain (assigns h u l) cs e g = absurd (ground arith)
Guarded-plain (unassigns h l) cs e g = absurd (ground arith)
Guarded-plain _ cs e g = g

lock_held-plain :
    (host : String) (c : Call) (cs : List Call)
    → is_plain c ≡ true
    → lock_held host (c ∷ cs) ≡ lock_held host cs
lock_held-plain host (locked h) cs e = absurd (ground arith)
lock_held-plain host (unlocked h) cs e = absurd (ground arith)
lock_held-plain host _ cs e = refl

pub Outside-plain : (table : HostLocks) (c : Call) → is_plain c ≡ true → Pushes (Outside table) c
Outside-plain table c e cs ls p h = record {
  guarded = Guarded-plain c cs e h.guarded;
  quiet = h.quiet;
}

pub Inside-plain :
    (table : HostLocks) (host : String) (c : Call)
    → is_plain c ≡ true
    → Pushes (Inside table host) c
Inside-plain table host c e cs ls p h = record {
  held = ground (arith, lock_held-plain host c cs e, h.held);
  guarded = Guarded-plain c cs e h.guarded;
  quiet = h.quiet;
}

module _ {W : Type 0} where
  abbrev after_try : String → Bool → State W → State W
  after_try host got s = record s {
    calls = (if got then locked host else refused host) ∷ s.calls;
    locks = (Lock.try_lock host s.locks).1;
  }

  try_lock-free :
      (host : String) (s : State W)
      → is_locked host s.locks ≡ false
      → try_lock host s ≡ (true, after_try host true s)
  unfolding try_lock
  try_lock-free host s e = ground (arith, try_lock_lem host host s.locks)

  try_lock-busy :
      (host : String) (s : State W)
      → is_locked host s.locks ≡ true
      → try_lock host s ≡ (false, after_try host false s)
  unfolding try_lock
  try_lock-busy host s e = ground (arith, try_lock_lem host host s.locks)

  -- What holds inside, and an `unlock`: the host was free, and is free again.
  unlock-Outside :
      (host : String) (table before : HostLocks) (s : State W)
      → is_locked host before ≡ false
      → ((j : String) → is_locked j before ≡ is_locked j table)
      → Inside (Lock.try_lock host before).1 host s.calls s.locks s.panicked
      → At (Outside table) (unlock host s).1
  unfolding unlock
  unlock-Outside host table before s free same h =
      let taken : is_locked host s.locks ≡ true =
        ground (arith, try_lock_lem host host before, h.quiet.same host, eq_refl host) in
      rw (unlock_locked host s.locks taken, unlock)
        (record {
          guarded = h.guarded;
          quiet = record {
            same = λ j. ground (
              arith,
              is_locked-insert host j false s.locks,
              h.quiet.same j,
              try_lock_lem host j before,
              same j,
              eq_iff host j,
              free,
            );
            calm = h.quiet.calm;
          };
        })

  -- A handler that keeps what holds inside, between `TryLock` and the deferred `Unlock`.
  pub bracket :
      {A : Type 0} (host : String) (m : Handler W A) (y : A) (table : HostLocks)
      → ((t : HostLocks) → Keeps (At (Inside t host)) m)
      → Keeps
          (At (Outside table))
          (do got ← try_lock host; if got then (do x ← m; unlock host; pure x) else pure y)
  unfolding ◌>>=◌
  bracket host m y table body = record {
    at = λ s h. elim (Bool-cases (is_locked host s.locks)) [
      | inl busy ↦ rw (try_lock-busy host s busy) (record {
        guarded = h.guarded;
        quiet = record {
          same =
              λ j. ground (arith, try_lock_lem host j s.locks, h.quiet.same j, eq_iff host j, busy);
          calm = h.quiet.calm;
        };
      })
      | inr free ↦ rw (try_lock-free host s free) (
          unlock-Outside host table s.locks _ free h.quiet.same (
            (body (Lock.try_lock host s.locks).1).at (after_try host true s) (record {
              held = rw eq_refl;
              guarded = h.guarded;
              quiet = record { same = λ j. refl; calm = h.quiet.calm };
            })))
    ];
  }

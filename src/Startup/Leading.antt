-- ===== src/Startup/Leading.antt =====
-- The calls of main in cmd/main.go, one after the other: what holds before each, and at its end.
use bare_metal_operator.Prelude.{
  Bool, true, false, Option, none, List, [], ◌∷◌, ◌≡◌, arith, inl, inr, Option-cases,
}
use bare_metal_operator.Shared.{Error}
use bare_metal_operator.Effect.{M, ◌>>=◌, pure, on_error}
use bare_metal_operator.Startup.Setup.{Program, Parts}
use bare_metal_operator.Startup.Entry.{
  Libraries, Event, adds_healthz, adds_readyz, starts, Ending, returned, exited, Launch, Main,
  on_program, call, attempt,
}
use bare_metal_operator.Startup.Launch.{PoolsRun, InstancesRun}

abbrev pub has_started : List Event → Bool
has_started [] = false
has_started (starts ∷ es) = true
has_started (_ ∷ es) = has_started es

abbrev pub has_healthz : List Event → Bool
has_healthz [] = false
has_healthz (adds_healthz name ∷ es) = true
has_healthz (_ ∷ es) = has_healthz es

abbrev pub has_readyz : List Event → Bool
has_readyz [] = false
has_readyz (adds_readyz name ∷ es) = true
has_readyz (_ ∷ es) = has_readyz es

-- Both controllers run, with the provider or without it, and both checks are served.
pub record IsServing {W : Type 0} (provider : Bool) (s : Launch W) : Type 0 where
  pub pools : PoolsRun provider s.program
  pub instances : InstancesRun provider s.program
  pub healthz : has_healthz s.events ≡ true
  pub readyz : has_readyz s.events ≡ true

-- The manager is not started, and `P`.
pub record Before {W : Type 0} (P : Launch W → Type 0) (s : Launch W) : Type 0 where
  pub quiet : has_started s.events ≡ false
  pub holds : P s

-- A start leaves all in place, and main returns only after a start.
pub record Leads {W : Type 0} (provider : Bool) (P : Launch W → Type 0) (m : Main W Ending)
    : Type 0 where
  pub serves :
      (s : Launch W) → Before P s → has_started (m s).1.events ≡ true → IsServing provider (m s).1
  pub returns : (s : Launch W) → Before P s → (m s).0 ≡ returned → has_started (m s).1.events ≡ true

-- The state after a call.
abbrev pub called : {W : Type 0} → Event → W → Launch W → Launch W
called event w s = record { program = record s.program { world = w }; events = event ∷ s.events }

module _ {J W : Type 0} (l : Libraries W) (p : Parts J W) (provider : Bool) where
  pub Leads-exited : (P : Launch W → Type 0) → Leads provider P (pure exited)
  unfolding pure
  Leads-exited P = record {
    serves = λ s before started. absurd (ground (arith, started, before.quiet));
    returns = λ s before ended. absurd (ground (arith, ended));
  }

  pub Leads-attempt :
      (P Q : Launch W → Type 0) (event : Event) (f : W → Option Error × W) (next : Main W Ending)
      → ((s : Launch W) (w : W) → Before P s → Before Q (called event w s))
      → Leads provider Q next
      → Leads provider P (attempt l p event f next)
  unfolding attempt call ◌>>=◌
  Leads-attempt P Q event f next moves leads = record {
    serves = λ s before started. elim (Option-cases (f s.program.world).0) [
      | inl silent ↦ rw silent (
          leads.serves (called event (f s.program.world).1 s) (moves s _ before)
            (rw silent at started))
      | inr (e, failed) ↦
          absurd
            (ground (arith, (moves s (f s.program.world).1 before).quiet, (rw failed at started)))
    ];
    returns = λ s before ended. elim (Option-cases (f s.program.world).0) [
      | inl silent ↦ rw silent (
          leads.returns (called event (f s.program.world).1 s) (moves s _ before)
            (rw silent at ended))
      | inr (e, failed) ↦ absurd (ground (arith, (rw failed at ended)))
    ];
  }

  pub Leads-set_up :
      (P Q : Launch W → Type 0) (set_up : M (Program W) (Option Error)) (next : Main W Ending)
      → ((s : Launch W)
          → P s
          → (set_up s.program).0 ≡ none
          → Q (record s { program = (set_up s.program).1 }))
      → Leads provider Q next
      → Leads provider P (do e ← on_program l p set_up; on_error e (λ _. pure exited) next)
  unfolding on_program ◌>>=◌
  Leads-set_up P Q set_up next moves leads =
      let after : (s : Launch W)
          → Before P s
          → (set_up s.program).0 ≡ none
          → Before Q (record s { program = (set_up s.program).1 }) =
        λ s before silent. record { quiet = before.quiet; holds = moves s before.holds silent } in
      record {
        serves = λ s before started. elim (Option-cases (set_up s.program).0) [
          | inl silent ↦ rw silent (leads.serves _ (after s before silent) (rw silent at started))
          | inr (e, failed) ↦ absurd (ground (arith, before.quiet, (rw failed at started)))
        ];
        returns = λ s before ended. elim (Option-cases (set_up s.program).0) [
          | inl silent ↦ rw silent (leads.returns _ (after s before silent) (rw silent at ended))
          | inr (e, failed) ↦ absurd (ground (arith, (rw failed at ended)))
        ];
      }

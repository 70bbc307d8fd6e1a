-- ===== src/Inventory/Attempts.antt =====
-- Two attempts of a call, as one call of the contract; the write of an attempt that ends in an error
-- may have come through.
use bare_metal_operator.Prelude.{String, true, Option, none, some, ◌≡◌, ◌∙◌, sym, arith, eq_refl}
use bare_metal_operator.Shared.{Error, Res, err}
use bare_metal_operator.Inventory.{Host}
use bare_metal_operator.Inventory.Contract.{
  Owners, Same, is_open, put_owner, Assigns, given, taken, failed, written, Unassigns, freed, kept,
  cleared,
}

put_owner-Same :
    (host_id : String) (owner : Option String) (first second : Owners)
    → Same first second
    → Same (put_owner host_id owner first) (put_owner host_id owner second)
put_owner-Same host_id owner first second same j = ground (arith, same j)

-- The owner is put once more.
put_owner-again :
    (host_id : String) (owner : Option String) (first second third : Owners)
    → Same (put_owner host_id owner first) second
    → Same (put_owner host_id owner second) third
    → Same (put_owner host_id owner first) third
put_owner-again host_id owner first second third once twice j = ground (arith, once j, twice j)

-- A table with the same owners, before the call.
pub Assigns-before :
    (host_id instance_id : String) (first second third : Owners) (answer : Res (Option Host))
    → Same first second
    → Assigns host_id instance_id second third answer
    → Assigns host_id instance_id first third answer
Assigns-before host_id instance_id first second third _ same (given host vacant put) =
    given host (rw (sym (same host_id)) vacant)
      (λ j. put j ∙ put_owner-Same host_id (some instance_id) first second same j)
Assigns-before host_id instance_id first second third _ same (taken closed rest) =
    taken (rw (sym (same host_id)) closed) (λ j. rest j ∙ same j)
Assigns-before host_id instance_id first second third _ same (failed e rest) =
    failed e (λ j. rest j ∙ same j)
Assigns-before host_id instance_id first second third _ same (written e vacant put) =
    written e (rw (sym (same host_id)) vacant)
      (λ j. put j ∙ put_owner-Same host_id (some instance_id) first second same j)

-- The first attempt has put the owner.
Assigns-behind :
    (host_id instance_id : String) (first second third : Owners) (answer : Res (Option Host))
    → is_open instance_id (first host_id) ≡ true
    → Same (put_owner host_id (some instance_id) first) second
    → Assigns host_id instance_id second third answer
    → Assigns host_id instance_id first third answer
Assigns-behind host_id instance_id first second third _ vacant once (given host free put) =
    given host vacant (put_owner-again host_id (some instance_id) first second third once put)
Assigns-behind host_id instance_id first second third _ vacant once (taken closed rest) =
    absurd (ground (arith, closed, once host_id, eq_refl host_id, eq_refl instance_id))
Assigns-behind host_id instance_id first second third _ vacant once (failed e rest) =
    written e vacant (λ j. rest j ∙ once j)
Assigns-behind host_id instance_id first second third _ vacant once (written e free put) =
    written e vacant (put_owner-again host_id (some instance_id) first second third once put)

pub Assigns-again :
    (host_id instance_id : String) (first second third : Owners)
    (failure answer : Res (Option Host)) (e : Error)
    → failure ≡ err e
    → Assigns host_id instance_id first second failure
    → Assigns host_id instance_id second third answer
    → Assigns host_id instance_id first third answer
Assigns-again host_id instance_id first second third _ answer e h (given host vacant put) =
    absurd (ground (arith, h))
Assigns-again host_id instance_id first second third _ answer e h (taken closed rest) =
    absurd (ground (arith, h))
Assigns-again host_id instance_id first second third _ answer e h (failed x same) =
    Assigns-before host_id instance_id first second third answer same
Assigns-again host_id instance_id first second third _ answer e h (written x vacant put) =
    Assigns-behind host_id instance_id first second third answer vacant put

-- Another error in place of the one that came.
pub Assigns-error :
    (host_id instance_id : String) (first second : Owners) (answer : Res (Option Host))
    (e x : Error)
    → answer ≡ err e
    → Assigns host_id instance_id first second answer
    → Assigns host_id instance_id first second (err x)
Assigns-error host_id instance_id first second _ e x h (given host vacant put) =
    absurd (ground (arith, h))
Assigns-error host_id instance_id first second _ e x h (taken closed rest) =
    absurd (ground (arith, h))
Assigns-error host_id instance_id first second _ e x h (failed y same) = failed x same
Assigns-error host_id instance_id first second _ e x h (written y vacant put) = written x vacant put

pub Unassigns-before :
    (host_id : String) (first second third : Owners) (answer : Option Error)
    → Same first second
    → Unassigns host_id second third answer
    → Unassigns host_id first third answer
Unassigns-before host_id first second third _ same (freed put) =
    freed (λ j. put j ∙ put_owner-Same host_id none first second same j)
Unassigns-before host_id first second third _ same (kept e rest) = kept e (λ j. rest j ∙ same j)
Unassigns-before host_id first second third _ same (cleared e put) =
    cleared e (λ j. put j ∙ put_owner-Same host_id none first second same j)

Unassigns-behind :
    (host_id : String) (first second third : Owners) (answer : Option Error)
    → Same (put_owner host_id none first) second
    → Unassigns host_id second third answer
    → Unassigns host_id first third answer
Unassigns-behind host_id first second third _ once (freed put) =
    freed (put_owner-again host_id none first second third once put)
Unassigns-behind host_id first second third _ once (kept e rest) = cleared e (λ j. rest j ∙ once j)
Unassigns-behind host_id first second third _ once (cleared e put) =
    cleared e (put_owner-again host_id none first second third once put)

pub Unassigns-again :
    (host_id : String) (first second third : Owners) (failure answer : Option Error) (e : Error)
    → failure ≡ some e
    → Unassigns host_id first second failure
    → Unassigns host_id second third answer
    → Unassigns host_id first third answer
Unassigns-again host_id first second third _ answer e h (freed put) = absurd (ground (arith, h))
Unassigns-again host_id first second third _ answer e h (kept x same) =
    Unassigns-before host_id first second third answer same
Unassigns-again host_id first second third _ answer e h (cleared x put) =
    Unassigns-behind host_id first second third answer put

pub Unassigns-error :
    (host_id : String) (first second : Owners) (answer : Option Error) (e x : Error)
    → answer ≡ some e
    → Unassigns host_id first second answer
    → Unassigns host_id first second (some x)
Unassigns-error host_id first second _ e x h (freed put) = absurd (ground (arith, h))
Unassigns-error host_id first second _ e x h (kept y same) = kept x same
Unassigns-error host_id first second _ e x h (cleared y put) = cleared x put

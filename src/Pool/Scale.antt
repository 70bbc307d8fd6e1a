-- ===== src/Pool/Scale.antt =====
-- reconcileBareMetalInstances and its parts: the desired counts, scaling up and down, and the
-- counts of the status. Counts are int32, by their bit patterns.
use bare_metal_operator.Prelude.{
  ℕ, zero, suc, String, Option, none, some, List, [], ◌∷◌, ◌++◌, length, is_empty, if◌then◌else◌,
}
use Prim.Native.String.{compare}
use text.Mathlib.Text.{is_lt}
use bare_metal_operator.Prelude.Dict.{Dict, lookup, insert, erase, keys}
use bare_metal_operator.Prelude.Int.{wrap32, sub32, is_positive32, is_negative32, lt32}
use bare_metal_operator.Shared.{Error, ignore_not_found}
use bare_metal_operator.Effect.{◌>>=◌, ◌>>◌, pure, on_error, on_option}
use bare_metal_operator.Profile.{Profile, is_some}
use bare_metal_operator.Api.Instance.{BareMetalInstance}
use bare_metal_operator.Api.Pool.{BareMetalPool, BareMetalHostSet}
use bare_metal_operator.Pool.State.{
  Reconciler, Handler, Current, deletes, pool, change, current, put_current, panic, perform, fail,
}
use bare_metal_operator.Pool.Create.{create_instance}

-- desiredReplicas[hostSet.HostType] = hostSet.Replicas
unfoldable pub desired_replicas : Dict ℕ → List BareMetalHostSet → Dict ℕ
desired_replicas desired [] = desired
desired_replicas desired (set ∷ sets) =
    desired_replicas (insert set.host_type set.replicas desired) sets

-- Host types that are no longer asked for.
unfoldable pub with_unwanted : Dict ℕ → List String → Dict ℕ
with_unwanted desired [] = desired
with_unwanted desired (t ∷ types) =
    with_unwanted (if is_some (lookup t desired) then desired else insert t 0 desired) types

abbrev or_nil : {A : Type 0} → Option (List A) → List A
or_nil none = []
or_nil (some xs) = xs

-- current[hostType], the nil slice for a missing key
abbrev pub instances : String → Current → List (Option BareMetalInstance)
instances host_type m = or_nil (lookup host_type m)

-- int32(len(current[hostType]))
abbrev pub count32 : String → Current → ℕ
count32 host_type m = wrap32 (length (instances host_type m))

unfoldable pub last? : {A : Type 0} → List A → Option A
last? [] = none
last? (x ∷ []) = some x
last? (x ∷ y ∷ xs) = last? (y ∷ xs)

unfoldable pub drop_last : {A : Type 0} → List A → List A
drop_last [] = []
drop_last (x ∷ []) = []
drop_last (x ∷ y ∷ xs) = x ∷ drop_last (y ∷ xs)

-- current[hostType] = xs, or its deletion where nothing is left
abbrev pub put_instances : String → List (Option BareMetalInstance) → Current → Current
put_instances host_type [] m = erase host_type m
put_instances host_type (x ∷ xs) m = insert host_type (x ∷ xs) m

-- One entry of the status, inserted by host type (sort.Slice).
unfoldable pub insert_host_set : BareMetalHostSet → List BareMetalHostSet → List BareMetalHostSet
insert_host_set h [] = h ∷ []
insert_host_set h (g ∷ gs) =
    if is_lt (compare h.host_type g.host_type) then h ∷ g ∷ gs else g ∷ insert_host_set h gs

-- The status entries of the host types that have instances.
unfoldable pub host_sets_of : Current → List BareMetalHostSet
host_sets_of [] = []
host_sets_of ((host_type, xs) ∷ m) =
    let rest = host_sets_of m in
    if is_empty xs
    then rest
    else insert_host_set (record { host_type = host_type; replicas = wrap32 (length xs) }) rest

abbrev put_host_sets : List BareMetalHostSet → BareMetalPool → BareMetalPool
put_host_sets sets p = record p { status = record p.status { host_sets = sets } }

module _ {W : Type 0} (r : Reconciler W) where
  unfoldable pub failed_with : String → Error → Handler W (Option Error)
  failed_with message e = do fail r message; pure (some e)

  unfoldable pub appended : String → Handler W (Unit {0})
  appended host_type = do
    m ← current
    put_current (insert host_type (instances host_type m ++ none ∷ []) m)

  -- `for range delta`
  unfoldable pub scale_up : ℕ → String → Option Profile → Handler W (Option Error)
  scale_up zero host_type profile = pure none
  scale_up (suc delta) host_type profile = do
    e ← create_instance r host_type profile
    on_error e (failed_with "Failed to create BareMetalInstance CR")
        (do appended host_type; scale_up delta host_type profile)

  unfoldable pub deleted : Option BareMetalInstance → Handler W (Option Error)
  deleted none = do panic; pure none
  deleted (some o) = perform (deletes o) (r.client.delete_instance o)

  -- The index of the last element is -1 on an empty slice: a panic.
  unfoldable pub delete_last : List (Option BareMetalInstance) → Handler W (Option Error)
  delete_last xs = on_option (last? xs) (do panic; pure none) deleted

  -- The loop, on fuel: every round drops an instance, so the length of the slice is enough.
  unfoldable pub scale_down_loop : ℕ → String → ℕ → Handler W (Option Error)
  scale_down_loop zero host_type replicas = pure none
  scale_down_loop (suc fuel) host_type replicas = do
    m ← current
    if lt32 replicas (count32 host_type m)
        then (do
          e ← delete_last (instances host_type m)
          on_error (ignore_not_found e) (failed_with "Failed to delete BareMetalInstance CR") (do
            put_current (put_instances host_type (drop_last (instances host_type m)) m)
            if is_empty (drop_last (instances host_type m))
                then pure none
                else scale_down_loop fuel host_type replicas))
        else pure none

  unfoldable pub scale_down : String → ℕ → Handler W (Option Error)
  scale_down host_type replicas = do
    m ← current
    scale_down_loop (suc (length (instances host_type m))) host_type replicas

  -- The body of the loop over the desired counts.
  unfoldable pub scale : String → ℕ → Option Profile → Handler W (Option Error)
  scale host_type replicas profile = do
    m ← current
    let delta = sub32 replicas (count32 host_type m)
    if is_positive32 delta
        then scale_up delta host_type profile
        else if is_negative32 delta
        then scale_down host_type replicas
        else pure none

  unfoldable pub scale_all : Dict ℕ → Option Profile → Handler W (Option Error)
  scale_all [] profile = pure none
  scale_all ((host_type, replicas) ∷ desired) profile = do
    e ← scale host_type replicas profile
    on_error e (λ x. pure (some x)) (scale_all desired profile)

  unfoldable pub update_status_host_sets : Handler W (Unit {0})
  update_status_host_sets = do m ← current; change (put_host_sets (host_sets_of m))

  -- The status is updated on every way out: the call is deferred.
  unfoldable pub reconcile_instances : Option Profile → Handler W (Option Error)
  reconcile_instances profile = do
    p ← pool
    m ← current
    e ←
        scale_all
          (r.client.range_order (with_unwanted (desired_replicas [] p.spec.host_sets) (keys m)))
          profile
    update_status_host_sets
    pure e

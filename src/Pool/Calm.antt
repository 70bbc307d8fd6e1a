-- ===== src/Pool/Calm.antt =====
-- The primitives of a pool's handlers, and the state of a reconcile before any panic.
use bare_metal_operator.Prelude.{◌<◌, String, false, List, ◌≡◌, refl, inl, inr}
use bare_metal_operator.Shared.{ok, Res-cases}
use bare_metal_operator.Effect.{
  M, ◌>>=◌, ◌>>◌, pure, on_error, on_res, on_option, Keeps, Keeps-bind, Keeps-pure, Keeps-on_error,
  Keeps-on_res, keeps_rules,
}
use bare_metal_operator.Kube.{ConditionStatus}
use bare_metal_operator.Profile.{is_some}
use bare_metal_operator.Api.Instance.{BareMetalInstance}
use bare_metal_operator.Api.Pool
use bare_metal_operator.Api.Pool.{BareMetalPool, PoolPhase}
use bare_metal_operator.Pool.State.{
  Reconciler, PoolClient, State, Call, pool, change, perform, act, update, update_status, set_phase,
  set_ready_condition, fail, list_instances, primitives,
}
use bare_metal_operator.Pool.Grouping.{live}
use bare_metal_operator.Pool.Replicas.{asked, or_zero}

-- The replicas of a pool's spec fit an int32 and are not negative.
abbrev pub IsSmall : BareMetalPool → Type 0
IsSmall p = (j : String) → or_zero (asked j p.spec.host_sets) < 2147483648

-- What the resource's schema promises: a pool that the API server answers with fits, where the one
-- that was sent did, and an update's answer has a profile exactly where the pool that was sent has
-- one. And a bound on its listings.
pub record IsBounded {W : Type 0} (client : PoolClient W) : Type 0 where
  pub get_lem :
      (name : String) (w : W) (p : BareMetalPool) → (client.get name w).0 ≡ ok p → IsSmall p
  pub update_lem :
      (o : BareMetalPool) (w : W) (p : BareMetalPool)
      → IsSmall o
      → (client.update o w).0 ≡ ok p
      → IsSmall p
  pub update_status_lem :
      (o : BareMetalPool) (w : W) (p : BareMetalPool)
      → IsSmall o
      → (client.update_status o w).0 ≡ ok p
      → IsSmall p
  pub profile_lem :
      (o : BareMetalPool) (w : W) (p : BareMetalPool)
      → (client.update o w).0 ≡ ok p
      → is_some p.spec.profile ≡ is_some o.spec.profile
  pub list_lem :
      (namespace uid : String) (w : W) (items : List BareMetalInstance)
      → (client.list_instances namespace uid w).0 ≡ ok items
      → (j : String) → live j items < 2147483648

-- No panic so far, with a pool that fits.
pub record IsCalm {W : Type 0} (s : State W) : Type 0 where
  pub calm : s.panicked ≡ false
  pub small : IsSmall s.pool

module _ {W : Type 0} (r : Reconciler W) (bounded : IsBounded r.client) where
  pub change-Keeps :
      (f : BareMetalPool → BareMetalPool)
      → ((p : BareMetalPool) → (f p).spec ≡ p.spec)
      → Keeps {S = State W} IsCalm (change f)
  unfolding change
  change-Keeps f same = record {
    at = λ s h. record { calm = h.calm; small = λ j. rw (same s.pool) (h.small j) };
  }

  pub set_phase-Keeps : (phase : PoolPhase) → Keeps IsCalm (set_phase r phase)
  unfolding set_phase
  set_phase-Keeps phase = change-Keeps _ (λ p. refl)

  pub set_ready_condition-Keeps :
      (status : ConditionStatus) (message reason : String)
      → Keeps IsCalm (set_ready_condition r status message reason)
  unfolding set_ready_condition Pool.set_status_condition
  set_ready_condition-Keeps status message reason = change-Keeps _ (λ p. refl)

  pub fail-Keeps : (message : String) → Keeps IsCalm (fail r message)
  unfolding fail
  fail-Keeps message = search (keeps_rules, set_phase-Keeps, set_ready_condition-Keeps) depth 9

  pub pool-Keeps : Keeps {S = State W} IsCalm pool
  unfolding pool
  pool-Keeps = record { at = λ s h. h }

  pub perform-Keeps :
      {A : Type 0} (c : Call) (f : W → A × W) → Keeps {S = State W} IsCalm (perform c f)
  unfolding perform
  perform-Keeps c f = record { at = λ s h. record { calm = h.calm; small = h.small } }

  pub act-Keeps : {A : Type 0} (f : W → A × W) → Keeps {S = State W} IsCalm (act f)
  unfolding act
  act-Keeps f = record { at = λ s h. record { calm = h.calm; small = h.small } }

  pub update-Keeps : Keeps IsCalm (update r)
  unfolding primitives
  update-Keeps = record {
    at = λ s h. elim (Res-cases (r.client.update s.pool s.world).0) [
      | inl (p, answered) ↦
          rw answered
            (record { calm = h.calm; small = bounded.update_lem s.pool s.world p h.small answered })
      | inr (e, failed) ↦ rw failed (record { calm = h.calm; small = h.small })
    ];
  }

  pub update_status-Keeps : Keeps IsCalm (update_status r)
  unfolding primitives
  update_status-Keeps = record {
    at = λ s h. elim (Res-cases (r.client.update_status s.pool s.world).0) [
      | inl (p, answered) ↦ rw answered (record {
        calm = h.calm;
        small = bounded.update_status_lem s.pool s.world p h.small answered;
      })
      | inr (e, failed) ↦ rw failed (record { calm = h.calm; small = h.small })
    ];
  }

  pub list_instances-Keeps : Keeps IsCalm (list_instances r)
  unfolding list_instances
  list_instances-Keeps = search (keeps_rules, pool-Keeps, perform-Keeps) depth 9

  pub ruleset calls = (
    keeps_rules, set_phase-Keeps, set_ready_condition-Keeps, fail-Keeps, pool-Keeps, perform-Keeps,
    act-Keeps, update-Keeps, update_status-Keeps, list_instances-Keeps,
  )

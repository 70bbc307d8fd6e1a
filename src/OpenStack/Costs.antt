-- ===== src/OpenStack/Costs.antt =====
-- What the handlers of the two backends cost, for any measure of the world that a request and a new
-- client raise by a given number at most.
use bare_metal_operator.Prelude.{
  ℕ, ◌+◌, ◌≤◌, List, String, Bool, true, false, Option, none, some, arith, if◌then◌else◌,
}
use bare_metal_operator.Shared.{Error, Res, ok, err}
use bare_metal_operator.Effect.{M, ◌>>=◌, pure, on_error, on_res, on_option}
use bare_metal_operator.OpenStack.{Ironic, Session, UpdateOperation}
use bare_metal_operator.OpenStack.Reconnect.{
  request, use_client, inventory_reconnect, after_reconnect, retrying, checked_client, reconnect,
  with_auth_retry,
}

-- A request costs at most `price`, a new client at most `login`.
pub record IsMetered {C W : Type 0} (ironic : Ironic C W) (cost : W → ℕ) (price login : ℕ)
    : Type 0 where
  pub gets : (c : C) (id : String) (w : W) → cost (ironic.get c id w).1 ≤ cost w + price
  pub updates :
      (c : C) (id : String) (ops : List UpdateOperation) (w : W)
      → cost (ironic.update c id ops w).1 ≤ cost w + price
  pub changes :
      (c : C) (id target : String) (w : W)
      → cost (ironic.change_power_state c id target w).1 ≤ cost w + price
  pub logs_in : (w : W) → cost (ironic.new_service_client w).1 ≤ cost w + login
  pub renews : (w : W) → cost (ironic.new_management_client w).1 ≤ cost w + login

-- The handler costs at most `n`.
pub record Costs {C W A : Type 0} (cost : W → ℕ) (n : ℕ) (m : M (Session C W) A) : Type 0 where
  pub at : (s : Session C W) → cost (m s).1.world ≤ cost s.world + n

module _ {C W : Type 0} (cost : W → ℕ) where
  pub Costs-more :
      {A : Type 0} (a b : ℕ) (m : M (Session C W) A) → Costs cost a m → a ≤ b → Costs cost b m
  Costs-more a b m within more = record { at = λ s. ground (arith, within.at s, more) }

  pub Costs-pure : {A : Type 0} (n : ℕ) (a : A) → Costs {C = C} cost n (pure a)
  unfolding pure
  Costs-pure n a = record { at = λ s. ground arith }

  pub Costs-bind :
      {A B : Type 0} (a b : ℕ) (m : M (Session C W) A) (f : A → M (Session C W) B)
      → Costs cost a m
      → ((x : A) → Costs cost b (f x))
      → Costs cost (a + b) (m >>= f)
  unfolding ◌>>=◌
  Costs-bind a b m f first rest = record {
    at = λ s. ground (arith, first.at s, (rest (m s).0).at (m s).1);
  }

  pub Costs-if :
      {A : Type 0} (n : ℕ) (test : Bool) (m k : M (Session C W) A)
      → Costs cost n m
      → Costs cost n k
      → Costs cost n (if test then m else k)
  Costs-if n true m k first second = first
  Costs-if n false m k first second = second

  pub Costs-on_res :
      {A B : Type 0} (n : ℕ) (x : Res A) (f : Error → M (Session C W) B) (g : A → M (Session C W) B)
      → ((e : Error) → Costs cost n (f e))
      → ((a : A) → Costs cost n (g a))
      → Costs cost n (on_res x f g)
  unfolding on_res
  Costs-on_res n (ok a) f g failed found = found a
  Costs-on_res n (err e) f g failed found = failed e

  pub Costs-on_error :
      {A : Type 0} (n : ℕ) (o : Option Error) (f : Error → M (Session C W) A)
      (m : M (Session C W) A)
      → ((e : Error) → Costs cost n (f e))
      → Costs cost n m
      → Costs cost n (on_error o f m)
  unfolding on_error
  Costs-on_error n none f m failed passed = passed
  Costs-on_error n (some e) f m failed passed = failed e

  pub Costs-on_option :
      {A B : Type 0} (n : ℕ) (o : Option A) (m : M (Session C W) B) (f : A → M (Session C W) B)
      → Costs cost n m
      → ((a : A) → Costs cost n (f a))
      → Costs cost n (on_option o m f)
  unfolding on_option
  Costs-on_option n none m f missing found = missing
  Costs-on_option n (some a) m f missing found = found a

  pub Costs-request :
      {A : Type 0} (n : ℕ) (f : C → W → A × W)
      → ((c : C) (w : W) → cost (f c w).1 ≤ cost w + n)
      → Costs cost n (request f)
  unfolding request
  Costs-request n f within = record { at = λ s. within s.client s.world }

  pub Costs-use_client : (n : ℕ) (c : C) → Costs cost n (use_client c)
  unfolding use_client
  Costs-use_client n c = record { at = λ s. ground arith }

pub ruleset cost_rules =
    (Costs-pure, Costs-if, Costs-on_res, Costs-on_error, Costs-on_option, Costs-use_client)

-- The operations that are tried again.
module _ {C W : Type 0} (ironic : Ironic C W) (cost : W → ℕ) (price login : ℕ)
    (metered : IsMetered ironic cost price login) where
  checked_client-Costs : (c : Option C) → Costs cost 0 (checked_client ironic c)
  checked_client-Costs none = Costs-pure cost 0 _
  checked_client-Costs (some c) =
      Costs-if cost 0 _ _ _ (Costs-pure cost 0 _)
        (Costs-bind cost 0 0 _ _ (Costs-use_client cost 0 c) (λ x. Costs-pure cost 0 _))

  reconnect-Costs : Costs cost (login + 0) (reconnect ironic)
  unfolding reconnect
  reconnect-Costs =
      Costs-bind cost login 0 _ _ (Costs-request cost login _ (λ c w. metered.renews w))
        (λ answer. Costs-on_res cost 0 answer _ _ (λ e. Costs-pure cost 0 _) checked_client-Costs)

  pub with_auth_retry-Costs :
      {A : Type 0} (n : ℕ) (f : C → W → Res A × W)
      → ((c : C) (w : W) → cost (f c w).1 ≤ cost w + n)
      → Costs cost (n + (login + 0 + n)) (with_auth_retry ironic f)
  unfolding with_auth_retry
  with_auth_retry-Costs n f within =
      Costs-bind cost n (login + 0 + n) _ _ (Costs-request cost n f within) (λ answer.
        Costs-on_res cost (login + 0 + n) answer _ _
          (λ e.
            Costs-if cost (login + 0 + n) _ _ _
              (Costs-bind cost (login + 0) n _ _ reconnect-Costs (λ x.
                Costs-on_error cost n x _ _ (λ y. Costs-pure cost n _)
                  (Costs-request cost n f within)))
              (Costs-pure cost _ _))
          (λ a. Costs-pure cost _ _))

  inventory_reconnect-Costs : Costs cost (login + 0) (inventory_reconnect ironic)
  unfolding inventory_reconnect
  inventory_reconnect-Costs =
      Costs-bind cost login 0 _ _ (Costs-request cost login _ (λ c w. metered.logs_in w)) (λ answer.
        Costs-on_res cost 0 answer _ _ (λ e. Costs-pure cost 0 _)
          (λ c. Costs-bind cost 0 0 _ _ (Costs-use_client cost 0 c) (λ x. Costs-pure cost 0 _)))

  pub retrying-Costs :
      {A : Type 0} (n : ℕ) (text : String) (m : M (Session C W) (Res A))
      → Costs cost n m
      → Costs cost (n + (login + 0 + (n + 0))) (retrying ironic text m)
  unfolding retrying after_reconnect
  retrying-Costs n text m within = Costs-bind cost n (login + 0 + (n + 0)) _ _ within (λ answer.
      Costs-on_res cost (login + 0 + (n + 0)) answer _ _
        (λ e.
          Costs-if cost (login + 0 + (n + 0)) _ _ _
            (Costs-bind cost (login + 0) (n + 0) _ _ inventory_reconnect-Costs (λ x.
              Costs-on_error cost (n + 0) x _ _ (λ y. Costs-pure cost (n + 0) _)
                (Costs-bind cost n 0 _ _ within (λ y. Costs-pure cost 0 _))))
            (Costs-pure cost _ _))
        (λ a. Costs-pure cost _ _))

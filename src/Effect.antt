-- ===== src/Effect.antt =====
-- Handlers that change an object and call out: a state monad, and the rules by which a property
-- of the state is kept by every handler that is built from calls that keep it.
use bare_metal_operator.Prelude.{
  Bool, true, false, Option, none, some, ◌≡◌, refl, arith, if◌then◌else◌,
}
use bare_metal_operator.Shared.{Error, Res, ok, err}

abbrev pub M : Type 0 → Type 0 → Type 0
M S A = S → A × S

module _ {S : Type 0} where
  unfoldable pub pure : {A : Type 0} → A → M S A
  pure a s = (a, s)

  unfoldable pub gets : {A : Type 0} → (S → A) → M S A
  gets f s = (f s, s)

  unfoldable pub modify : (S → S) → M S (Unit {0})
  modify f s = (tt, f s)

  -- Go's tests on an error, on a pair with an error, and on a pointer.
  unfoldable pub on_error : {A : Type 0} → Option Error → (Error → M S A) → M S A → M S A
  on_error none f m = m
  on_error (some e) f m = f e

  unfoldable pub on_res : {A B : Type 0} → Res A → (Error → M S B) → (A → M S B) → M S B
  on_res (ok a) f g = g a
  on_res (err e) f g = f e

  unfoldable pub on_option : {A B : Type 0} → Option A → M S B → (A → M S B) → M S B
  on_option none m f = m
  on_option (some a) m f = f a

  infixl 5 ◌>>=◌ ◌>>◌
  -- To open this is to open the other ways to build a handler too.
  unfoldable pub ◌>>=◌ : {A B : Type 0} → M S A → (A → M S B) → M S B
  unfolding pure gets modify on_error on_res on_option
  ◌>>=◌ m f s = let (a, s') = m s in f a s'

  abbrev pub ◌>>◌ : {A B : Type 0} → M S A → M S B → M S B
  m >> k = m >>= λ _. k

-- Whatever it returns, `m` leads from a state with `P` to a state with `P`.
pub record Keeps {S A : Type 0} (P : S → Type 0) (m : M S A) : Type 0 where
  pub at : (s : S) → P s → P (m s).1

module _ {S : Type 0} {Q : S → Type 0} where
  pub Keeps-pure : {A : Type 0} (result : A) → Keeps Q (pure result)
  unfolding pure
  Keeps-pure result = record { at = λ state holds. holds }

  pub Keeps-gets : {A : Type 0} (read : S → A) → Keeps Q (gets read)
  unfolding gets
  Keeps-gets read = record { at = λ state holds. holds }

  pub Keeps-bind :
      {A B : Type 0} (first : M S A) (rest : A → M S B)
      → Keeps Q first
      → ((result : A) → Keeps Q (rest result))
      → Keeps Q (first >>= rest)
  unfolding ◌>>=◌
  Keeps-bind first rest keeps_first keeps_rest = record {
    at =
        λ state holds. (keeps_rest (first state).0).at (first state).1 (keeps_first.at state holds);
  }

  pub Keeps-if :
      {A : Type 0} (test : Bool) (chosen other : M S A)
      → (test ≡ true → Keeps Q chosen)
      → (test ≡ false → Keeps Q other)
      → Keeps Q (if test then chosen else other)
  Keeps-if true chosen other keeps_yes keeps_no = keeps_yes refl
  Keeps-if false chosen other keeps_yes keeps_no = keeps_no refl

  pub Keeps-on_error :
      {A : Type 0} (o : Option Error) (f : Error → M S A) (m : M S A)
      → ((e : Error) → Keeps Q (f e))
      → Keeps Q m
      → Keeps Q (on_error o f m)
  unfolding on_error
  Keeps-on_error none f m kf km = km
  Keeps-on_error (some e) f m kf km = kf e

  pub Keeps-on_res :
      {A B : Type 0} (x : Res A) (f : Error → M S B) (g : A → M S B)
      → ((e : Error) → Keeps Q (f e))
      → ((a : A) → Keeps Q (g a))
      → Keeps Q (on_res x f g)
  unfolding on_res
  Keeps-on_res (ok a) f g kf kg = kg a
  Keeps-on_res (err e) f g kf kg = kf e

  pub Keeps-on_option :
      {A B : Type 0} (o : Option A) (m : M S B) (f : A → M S B)
      → Keeps Q m
      → ((a : A) → Keeps Q (f a))
      → Keeps Q (on_option o m f)
  unfolding on_option
  Keeps-on_option none m f km kf = km
  Keeps-on_option (some a) m f km kf = kf a

pub ruleset keeps_rules =
    (Keeps-pure, Keeps-gets, Keeps-bind, Keeps-if, Keeps-on_error, Keeps-on_res, Keeps-on_option)

-- Where `m` returns no error, it leads to a state with `Q`.
pub record Yields {S : Type 0} (Q : S → Type 0) (m : M S (Option Error)) : Type 0 where
  pub at : (s : S) → (m s).0 ≡ none → Q (m s).1

module _ {S : Type 0} {Q : S → Type 0} where
  pub Yields-pure : (e : Error) → Yields Q (pure (some e))
  unfolding pure
  Yields-pure e = record { at = λ s silent. absurd (ground (arith, silent)) }

  pub Yields-bind :
      {A : Type 0} (first : M S A) (rest : A → M S (Option Error))
      → ((result : A) → Yields Q (rest result))
      → Yields Q (first >>= rest)
  unfolding ◌>>=◌
  Yields-bind first rest yields = record {
    at = λ s silent. (yields (first s).0).at (first s).1 silent;
  }

  pub Yields-on_error :
      (o : Option Error) (f : Error → M S (Option Error)) (m : M S (Option Error))
      → ((e : Error) → Yields Q (f e))
      → Yields Q m
      → Yields Q (on_error o f m)
  unfolding on_error
  Yields-on_error none f m yf ym = ym
  Yields-on_error (some e) f m yf ym = yf e

  pub Yields-on_res :
      {A : Type 0} (x : Res A) (f : Error → M S (Option Error)) (g : A → M S (Option Error))
      → ((e : Error) → Yields Q (f e))
      → ((a : A) → Yields Q (g a))
      → Yields Q (on_res x f g)
  unfolding on_res
  Yields-on_res (ok a) f g yf yg = yg a
  Yields-on_res (err e) f g yf yg = yf e

  pub Yields-on_option :
      {A : Type 0} (o : Option A) (m : M S (Option Error)) (f : A → M S (Option Error))
      → Yields Q m
      → ((a : A) → Yields Q (f a))
      → Yields Q (on_option o m f)
  unfolding on_option
  Yields-on_option none m f ym yf = ym
  Yields-on_option (some a) m f ym yf = yf a

pub ruleset yields_rules =
    (Yields-pure, Yields-bind, Yields-on_error, Yields-on_res, Yields-on_option)

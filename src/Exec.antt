-- ===== src/Exec.antt =====
-- Fallible steps over a state, as the async methods with `?` are. What was done before an error
-- stays done, so the state comes back beside the error too. An `await` is a plain call.
pub mod Ensures
pub mod Wp
pub mod Keeps
use code_storm.Prelude.{List, [], ◌∷◌}
use code_storm.Error.{ReconcilerError, Result, ok, err}

abbrev pub Exec : Type 0 → Type 0 → Type 0
Exec S A = S → Result A × S

module _ {S A : Type 0} where
  unfoldable pub pure : A → Exec S A
  pure a s = (ok a, s)

  unfoldable pub raise : ReconcilerError → Exec S A
  raise e s = (err e, s)

  -- `?` on a result that is at hand.
  unfoldable pub lift : Result A → Exec S A
  lift r s = (r, s)

  -- The result of a step, an error too, as a value.
  unfoldable pub attempt : Exec S A → Exec S (Result A)
  attempt m s = let (r, s') = m s in (ok r, s')

  unfoldable pub gets : (S → A) → Exec S A
  gets f s = (ok (f s), s)

module _ {S : Type 0} where
  unfoldable pub modify : (S → S) → Exec S (Unit {0})
  modify f s = (ok tt, f s)

  -- `let _ = …;`: the error is dropped, what was done stays.
  unfoldable pub ignore : Exec S (Unit {0}) → Exec S (Unit {0})
  ignore m s = (ok tt, (m s).1)

module _ {S A B : Type 0} where
  abbrev pub continue : Result A → (A → Exec S B) → Exec S B
  continue (ok a) f s = f a s
  continue (err e) f s = (err e, s)

  infixl 5 ◌>>=◌ ◌>>◌
  unfoldable pub ◌>>=◌ : Exec S A → (A → Exec S B) → Exec S B
  ◌>>=◌ m f s = let (r, s') = m s in continue r f s'

  abbrev pub ◌>>◌ : Exec S A → Exec S B → Exec S B
  m >> n = m >>= λ _. n

module _ {S A : Type 0} where
  -- `for x in xs { body(x)?; }`
  unfoldable pub for_each : (A → Exec S (Unit {0})) → List A → Exec S (Unit {0})
  for_each body [] = pure tt
  for_each body (x ∷ xs) = body x >> for_each body xs

module _ {S T A : Type 0} where
  -- A step of a part of the state.
  unfoldable pub zoom : (S → T) → (T → S → S) → Exec T A → Exec S A
  zoom get put m s = let (r, t) = m (get s) in (r, put t s)

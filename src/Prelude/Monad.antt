-- ===== src/Prelude/Monad.antt =====
-- Stateful code: a computation takes the state and returns its result with the new state.
use mathlib.Core.Bool.{Bool, true, false}

abbrev pub Run : Type 0 → Type 0 → Type 0
Run S A = S → A × S

module _ {S : Type 0} where
  abbrev pub pure : {A : Type 0} → A → Run S A
  pure a s = (a, s)

  abbrev pub get : Run S S
  get s = (s, s)

  abbrev pub gets : {A : Type 0} → (S → A) → Run S A
  gets f s = (f s, s)

  abbrev pub modify : (S → S) → Run S (Unit {0})
  modify f s = (tt, f s)

  abbrev pub when : Bool → Run S (Unit {0}) → Run S (Unit {0})
  when true m = m
  when false m = pure tt

  infixl 5 ◌>>=◌ ◌>>◌
  abbrev pub ◌>>=◌ : {A B : Type 0} → Run S A → (A → Run S B) → Run S B
  ◌>>=◌ m f s = let (a, s') = m s in f a s'

  abbrev pub ◌>>◌ : {B : Type 0} → Run S (Unit {0}) → Run S B → Run S B
  ◌>>◌ m k s = let (a, s') = m s in k s'

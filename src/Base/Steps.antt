-- ===== src/Base/Steps.antt =====
-- What is known of a sequence of calls that returned a value, one step at a time: each rule hands the
-- rest of a proof the value of the first step, its equation and the sequence that is left.
use mathlib.Core.Path.{◌≡◌, refl}
use mathlib.Core.Bool.{Bool, true, false}
use mathlib.Core.Option.{Option, none}
use native.Mathlib.Omega.{arith}
use hal_agent_operator.Base.Results.{Error, ok, err, Outcome, panics, returns}
use hal_agent_operator.Base.Effects.{
  Act, attempt, read, lift, require, perform, ◌>>=◌, bind-ok, perform-ok,
}

-- A world with a value.
abbrev pub Returned : {World A : Type 0} → World × Outcome A → World → A → Type 0
Returned x w a = x ≡ (w, returns (ok a))

module _ {World A B C : Type 0} where
  pub after_bind :
      (m : Act World A) (f : A → Act World B) {w w' : World} {b : B}
      → Returned ((m >>= f) w) w' b
      → ((w1 : World) (a : A) → Returned (m w) w1 a → Returned (f a w1) w' b → C)
      → C
  after_bind m f h k = let (w1, a, e, h1) = bind-ok m f h in k w1 a e h1

  attempted :
      (x : World × A) (f : A → Act World B) {w' : World} {b : B}
      → Returned (let (w1, a) = x in f a w1) w' b
      → ((w1 : World) (a : A) → x ≡ (w1, a) → Returned (f a w1) w' b → C)
      → C
  attempted (w1, a) f h k = k w1 a refl h

  pub after_attempt :
      (g : World → World × A) (f : A → Act World B) {w w' : World} {b : B}
      → Returned ((attempt g >>= f) w) w' b
      → ((w1 : World) (a : A) → g w ≡ (w1, a) → Returned (f a w1) w' b → C)
      → C
  unfolding attempt ◌>>=◌
  after_attempt g f {w} h k = attempted (g w) f h k

  pub after_lift :
      (o : Outcome A) (f : A → Act World B) {w w' : World} {b : B}
      → Returned ((lift o >>= f) w) w' b
      → ((a : A) → o ≡ returns (ok a) → Returned (f a w) w' b → C)
      → C
  unfolding lift ◌>>=◌
  after_lift panics f h k = absurd (ground arith)
  after_lift (returns (err e)) f h k = absurd (ground arith)
  after_lift (returns (ok a)) f h k = k a refl h

module _ {World A B : Type 0} where
  pub after_read :
      (g : World → A) (f : A → Act World B) {w w' : World} {b : B}
      → Returned ((read g >>= f) w) w' b
      → Returned (f (g w) w) w' b
  unfolding read ◌>>=◌
  after_read g f h = h

module _ {World B C : Type 0} where
  pub after_require :
      (b : Bool) (e : Error) (f : Unit {0} → Act World B) {w w' : World} {v : B}
      → Returned ((require b e >>= f) w) w' v
      → (b ≡ true → Returned (f tt w) w' v → C)
      → C
  unfolding require ◌>>=◌
  after_require true e f h k = k refl h
  after_require false e f h k = absurd (ground arith)

  pub after_perform :
      (wrap : Error → Error) (g : World → World × Option Error) (f : Unit {0} → Act World B)
      {w w' : World} {v : B}
      → Returned ((perform wrap g >>= f) w) w' v
      → ((w1 : World) → g w ≡ (w1, none) → Returned (f tt w1) w' v → C)
      → C
  after_perform wrap g f h k =
      after_bind (perform wrap g) f h (λ w1 u e h1. k w1 (perform-ok wrap g e) h1)

-- ===== src/Base/Unchanged.antt =====
-- Sequences of calls that leave a part of the world as it is, whether they return or not.
use mathlib.Core.Path.{◌≡◌, refl, ◌∙◌}
use mathlib.Core.Bool.{Bool, true, false}
use mathlib.Core.Option.{Option, none, some}
use hal_agent_operator.Base.Results.{Error, ok, err, Outcome, panics, returns}
use hal_agent_operator.Base.Effects.{
  Act, done, attempt, read, lift, pure, require, perform, continue, ◌>>=◌,
}

module _ {World Part : Type 0} (part : World → Part) where
  pub record Keeps {A : Type 0} (m : Act World A) : Type 0 where
    pub same : (w : World) → part (m w).0 ≡ part w

  module _ {A B : Type 0} where
    continued :
        (x : World × Outcome A) (f : A → Act World B)
        → ((a : A) → Keeps (f a))
        → part (continue x f).0 ≡ part x.0
    continued (w, panics) f k = refl
    continued (w, returns (err e)) f k = refl
    continued (w, returns (ok a)) f k = (k a).same w

    pub bind-Keeps :
        (m : Act World A) (f : A → Act World B)
        → Keeps m
        → ((a : A) → Keeps (f a))
        → Keeps (m >>= f)
    unfolding ◌>>=◌
    bind-Keeps m f h k = record { same = λ w. continued (m w) f k ∙ h.same w }

  module _ {A : Type 0} where
    pub pure-Keeps : (a : A) → Keeps (pure {World = World} a)
    unfolding pure
    pure-Keeps a = record { same = λ w. refl }

    pub lift-Keeps : (o : Outcome A) → Keeps (lift {World = World} o)
    unfolding lift
    lift-Keeps o = record { same = λ w. refl }

    pub read-Keeps : (f : World → A) → Keeps (read f)
    unfolding read
    read-Keeps f = record { same = λ w. refl }

    pub attempt-Keeps :
        (f : World → World × A) → ((w : World) → part (f w).0 ≡ part w) → Keeps (attempt f)
    unfolding attempt
    attempt-Keeps f h = record { same = h }

  done_part : (wrap : Error → Error) (x : World × Option Error) → part (done wrap x).0 ≡ part x.0
  done_part wrap (w, none) = refl
  done_part wrap (w, some e) = refl

  pub perform-Keeps :
      (wrap : Error → Error) (f : World → World × Option Error)
      → ((w : World) → part (f w).0 ≡ part w)
      → Keeps (perform wrap f)
  unfolding perform
  perform-Keeps wrap f h = record { same = λ w. done_part wrap (f w) ∙ h w }

  required : (b : Bool) (e : Error) (w : World) → part (require b e w).0 ≡ part w
  unfolding require
  required true e w = refl
  required false e w = refl

  pub require-Keeps : (b : Bool) (e : Error) → Keeps (require {World = World} b e)
  require-Keeps b e = record { same = required b e }

pub ruleset keeps =
    (bind-Keeps, pure-Keeps, lift-Keeps, read-Keeps, attempt-Keeps, perform-Keeps, require-Keeps)

-- ===== src/Base/Effects.antt =====
-- Code that calls the outside world and may fail or panic: what was done before stays done, so the
-- world comes back with every outcome.
use mathlib.Core.Path.{◌≡◌, refl}
use mathlib.Core.Bool.{Bool, true, false}
use mathlib.Core.Option.{Option, none, some}
use mathlib.Core.List.{◌++◌}
use native.Mathlib.Omega.{arith}
use hal_agent_operator.Base.GoText.{Text, utf8}
use hal_agent_operator.Base.Results.{Error, failure, error_text, ok, err, Outcome, panics, returns}

abbrev pub Act : Type 0 → Type 0 → Type 0
Act World A = World → World × Outcome A

-- `fmt.Errorf("what: %w", err)`
abbrev pub wrapped : Text → Error → Error
wrapped what e = failure (what ++ (utf8 ": " ++ error_text e))

abbrev pub done :
    {World : Type 0} → (Error → Error) → World × Option Error → World × Outcome (Unit {0})
done wrap (w, none) = (w, returns (ok tt))
done wrap (w, some e) = (w, returns (err (wrap e)))

module _ {World A : Type 0} where
  unfoldable pub pure : A → Act World A
  pure a w = (w, returns (ok a))

  unfoldable pub fail : Error → Act World A
  fail e w = (w, returns (err e))

  -- A computation that calls nothing, or a read of the world.
  unfoldable pub lift : Outcome A → Act World A
  lift o w = (w, o)

  unfoldable pub read : (World → A) → Act World A
  read f w = (w, returns (ok (f w)))

  -- A call that returns a value, which may hold its error.
  unfoldable pub attempt : (World → World × A) → Act World A
  attempt f w = let (w', a) = f w in (w', returns (ok a))

module _ {World : Type 0} where
  -- `if err := f(); err != nil { return wrap(err) }`
  unfoldable pub perform : (Error → Error) → (World → World × Option Error) → Act World (Unit {0})
  perform wrap f w = done wrap (f w)

  -- `if !b { return e }`
  unfoldable pub require : Bool → Error → Act World (Unit {0})
  require true e w = (w, returns (ok tt))
  require false e w = (w, returns (err e))

module _ {World A B : Type 0} where
  abbrev pub continue : World × Outcome A → (A → Act World B) → World × Outcome B
  continue (w, panics) f = (w, panics)
  continue (w, returns (err e)) f = (w, returns (err e))
  continue (w, returns (ok a)) f = f a w

  infixl 10 ◌>>=◌ ◌>>◌
  unfoldable pub ◌>>=◌ : Act World A → (A → Act World B) → Act World B
  ◌>>=◌ m f w = continue (m w) f

  abbrev pub ◌>>◌ : Act World A → Act World B → Act World B
  m >> n = m >>= λ _. n

  continue-ok :
      (x : World × Outcome A) (f : A → Act World B) {w' : World} {b : B}
      → continue x f ≡ (w', returns (ok b))
      → (w1 : World) × (a : A) × (x ≡ (w1, returns (ok a))) × (f a w1 ≡ (w', returns (ok b)))
  continue-ok (w, panics) f h = ground arith
  continue-ok (w, returns (err e)) f h = ground arith
  continue-ok (w, returns (ok a)) f h = (w, a, refl, h)

  -- A sequence that returns a value went through both of its parts.
  pub bind-ok :
      (m : Act World A) (f : A → Act World B) {w w' : World} {b : B}
      → (m >>= f) w ≡ (w', returns (ok b))
      → (w1 : World) × (a : A) × (m w ≡ (w1, returns (ok a))) × (f a w1 ≡ (w', returns (ok b)))
  unfolding ◌>>=◌
  bind-ok m f {w} h = continue-ok (m w) f h

  continue-post :
      (P : World → Type 0) (x : World × Outcome A) (f : A → Act World B)
      → P x.0
      → ((w1 : World) (a : A) → x ≡ (w1, returns (ok a)) → P w1 → P (f a w1).0)
      → P (continue x f).0
  continue-post P (w, panics) f p h = p
  continue-post P (w, returns (err e)) f p h = p
  continue-post P (w, returns (ok a)) f p h = h w a refl p

  -- What holds of the world after the first part, and goes on through the second wherever the first
  -- returned a value, holds after the sequence.
  pub bind-post :
      (P : World → Type 0) (m : Act World A) (f : A → Act World B) (w : World)
      → P (m w).0
      → ((w1 : World) (a : A) → m w ≡ (w1, returns (ok a)) → P w1 → P (f a w1).0)
      → P ((m >>= f) w).0
  unfolding ◌>>=◌
  bind-post P m f w p h = continue-post P (m w) f p h

  continue-result :
      (P : World × Outcome B → Type 0) (x : World × Outcome A) (f : A → Act World B)
      → ((o : Outcome B) → P (x.0, o))
      → ((w1 : World) (a : A) → x ≡ (w1, returns (ok a)) → P (f a w1))
      → P (continue x f)
  continue-result P (w, panics) f p h = p panics
  continue-result P (w, returns (err e)) f p h = p (returns (err e))
  continue-result P (w, returns (ok a)) f p h = h w a refl

  -- What holds of the world that the first part leaves, however it ends there, and of the result of
  -- the second part wherever the first returned a value, holds of the result of the sequence.
  pub bind-result :
      (P : World × Outcome B → Type 0) (m : Act World A) (f : A → Act World B) (w : World)
      → ((o : Outcome B) → P ((m w).0, o))
      → ((w1 : World) (a : A) → m w ≡ (w1, returns (ok a)) → P (f a w1))
      → P ((m >>= f) w)
  unfolding ◌>>=◌
  bind-result P m f w p h = continue-result P (m w) f p h

module _ {World : Type 0} where
  done-ok :
      (wrap : Error → Error) (x : World × Option Error) {w' : World} {u : Unit {0}}
      → done wrap x ≡ (w', returns (ok u))
      → x ≡ (w', none)
  done-ok wrap (w, none) h = ground arith
  done-ok wrap (w, some e) h = ground arith

  pub perform-ok :
      (wrap : Error → Error) (f : World → World × Option Error) {w w' : World} {u : Unit {0}}
      → perform wrap f w ≡ (w', returns (ok u))
      → f w ≡ (w', none)
  unfolding perform
  perform-ok wrap f {w} h = done-ok wrap (f w) h

  pub require-ok :
      (b : Bool) (e : Error) {w w' : World} {u : Unit {0}}
      → require b e w ≡ (w', returns (ok u))
      → (b ≡ true) × (w' ≡ w)
  unfolding require
  require-ok true e h = ground arith
  require-ok false e h = ground arith

module _ {World A : Type 0} where
  pub pure-ok :
      (a : A) {w w' : World} {b : A} → pure a w ≡ (w', returns (ok b)) → (w' ≡ w) × (b ≡ a)
  unfolding pure
  pure-ok a h = ground arith

  pub lift-ok :
      (o : Outcome A) {w w' : World} {b : A}
      → lift o w ≡ (w', returns (ok b))
      → (w' ≡ w) × (o ≡ returns (ok b))
  unfolding lift
  lift-ok o h = ground arith

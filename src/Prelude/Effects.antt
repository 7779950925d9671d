-- ===== src/Prelude/Effects.antt =====
-- Asynchronous code that reads and writes a world and may throw: a function from the world to an
-- outcome and the world that it leaves. What was written before a throw stays written.
use mathlib.Core.Bool.{Bool, true, false}
use mathlib.Core.Path.{◌≡◌, refl}
use openkedge.Prelude.Results.{Result, ok, err}
use openkedge.Prelude.Tests.{if◌then◌else◌}

abbrev pub Eff : Type 0 → Type 0 → Type 0 → Type 0
Eff W E A = W → Result E A × W

module _ {W E A : Type 0} where
  unfoldable pub pure : A → Eff W E A
  pure a w = (ok a, w)

  unfoldable pub raise : E → Eff W E A
  raise e w = (err e, w)

  -- A pure part of the code that may throw.
  unfoldable pub run : Result E A → Eff W E A
  run r w = (r, w)

  unfoldable pub ask : (W → A) → Eff W E A
  ask f w = (ok (f w), w)

  abbrev pub caught : Result E A × W → (E → Eff W E A) → Result E A × W
  caught (ok a, w) k = (ok a, w)
  caught (err e, w) k = k e w

  -- `try { m } catch (error) { k }`
  unfoldable pub catch : Eff W E A → (E → Eff W E A) → Eff W E A
  catch m k w = caught (m w) k

  -- The outcome as a value, for code that goes on by it.
  unfoldable pub attempt : Eff W E A → Eff W E (Result E A)
  attempt m w = let (r, w') = m w in (ok r, w')

abbrev pub modify : {W E : Type 0} → (W → W) → Eff W E (Unit {0})
modify f w = (ok tt, f w)

abbrev pub then_do : {W E A B : Type 0} → Result E A × W → (A → Eff W E B) → Result E B × W
then_do (ok a, w) f = f a w
then_do (err e, w) f = (err e, w)

-- `await m`, then the rest of the code.
unfoldable pub bind : {W E A B : Type 0} → Eff W E A → (A → Eff W E B) → Eff W E B
bind m f w = then_do (m w) f

unfoldable pub and_then : {W E A B : Type 0} → Eff W E A → Eff W E B → Eff W E B
unfolding bind
and_then m k = bind m (λ _. k)

abbrev pub restored : {W E A : Type 0} → Result E A → Result E (Unit {0}) × W → Result E A × W
restored r (ok _, w) = (r, w)
restored r (err e, w) = (err e, w)

-- `try { m } finally { k }`: what `k` throws takes the place of the outcome.
unfoldable pub finally : {W E A : Type 0} → Eff W E A → Eff W E (Unit {0}) → Eff W E A
finally m k w = let (r, w') = m w in restored r (k w')

-- `if (b) m`
abbrev pub when : {W E : Type 0} → Bool → Eff W E (Unit {0}) → Eff W E (Unit {0})
when true m = m
when false m = pure tt

-- The rest matters only where the first part returns.
pub bind-cong :
    {W E A B : Type 0} (m : Eff W E A) (f g : A → Eff W E B) (w : W)
    → ((a : A) (v : W) → m w ≡ (ok a, v) → f a v ≡ g a v)
    → bind m f w ≡ bind m g w
unfolding bind
bind-cong {W} {E} {A} m f g w same = step (m w) same
  where
    step :
        (o : Result E A × W)
        → ((a : A) (v : W) → o ≡ (ok a, v) → f a v ≡ g a v)
        → then_do o f ≡ then_do o g
    step (ok a, v) s = s a v refl
    step (err e, v) s = refl

pub finally-cong :
    {W E A : Type 0} (m n : Eff W E A) (k : Eff W E (Unit {0})) (w : W)
    → m w ≡ n w
    → finally m k w ≡ finally n k w
unfolding finally
finally-cong m n k w same = rw same

-- What an outcome satisfies: `Q` of a returned value, `R` of an error, with the world left.
abbrev pub Post : {W E A : Type 0} → (A → W → Type 0) → (E → W → Type 0) → Result E A × W → Type 0
Post Q R (ok a, w) = Q a w
Post Q R (err e, w) = R e w

-- From a world with `P`, the outcome of `m` is as `Q` and `R` say.
pub record Triple {W E A : Type 0} (P : W → Type 0) (m : Eff W E A) (Q : A → W → Type 0)
    (R : E → W → Type 0) : Type 0 where
  pub at : (w : W) → P w → Post Q R (m w)

-- `m` keeps `P`, whether it returns or throws.
abbrev pub Keeps : {W E A : Type 0} → (W → Type 0) → Eff W E A → Type 0
Keeps P m = Triple P m (λ _. P) (λ _. P)

module _ {W E A : Type 0} where
  pub Post-weaken :
      {Q Q' : A → W → Type 0} {R R' : E → W → Type 0} (o : Result E A × W)
      → ((a : A) (w : W) → Q a w → Q' a w)
      → ((e : E) (w : W) → R e w → R' e w)
      → Post Q R o
      → Post Q' R' o
  Post-weaken (ok a, w) q r h = q a w h
  Post-weaken (err e, w) q r h = r e w h

  pub Triple-weaken :
      {P P' : W → Type 0} {Q Q' : A → W → Type 0} {R R' : E → W → Type 0} {m : Eff W E A}
      → ((w : W) → P' w → P w)
      → ((a : A) (w : W) → Q a w → Q' a w)
      → ((e : E) (w : W) → R e w → R' e w)
      → Triple P m Q R
      → Triple P' m Q' R'
  Triple-weaken p q r t = record { at = λ w h. Post-weaken _ q r (t.at w (p w h)) }

  pub Keeps-pure : {P : W → Type 0} (a : A) → Triple {E = E} P (pure a) (λ _. P) (λ _. P)
  unfolding pure
  Keeps-pure a = record { at = λ w h. h }

  pub Triple-pure : {Q : A → W → Type 0} {R : E → W → Type 0} (a : A) → Triple (Q a) (pure a) Q R
  unfolding pure
  Triple-pure a = record { at = λ w h. h }

  pub Keeps-raise : {P : W → Type 0} (e : E) → Triple {A = A} P (raise e) (λ _. P) (λ _. P)
  unfolding raise
  Keeps-raise e = record { at = λ w h. h }

  pub Keeps-ask : {P : W → Type 0} (f : W → A) → Triple {E = E} P (ask f) (λ _. P) (λ _. P)
  unfolding ask
  Keeps-ask f = record { at = λ w h. h }

  pub Keeps-run : {P : W → Type 0} (r : Result E A) → Triple P (run r) (λ _. P) (λ _. P)
  unfolding run
  Keeps-run (ok a) = record { at = λ w h. h }
  Keeps-run (err e) = record { at = λ w h. h }

  -- The rest may use what a pure part returned.
  pub Triple-run :
      {P : W → Type 0} (r : Result E A)
      → Triple P (run r) (λ a w. P w × (r ≡ ok a)) (λ e w. P w × (r ≡ err e))
  unfolding run
  Triple-run (ok a) = record { at = λ w h. (h, refl) }
  Triple-run (err e) = record { at = λ w h. (h, refl) }

  pub Triple-catch :
      {P : W → Type 0} {Q : A → W → Type 0} {R S : E → W → Type 0} {m : Eff W E A}
      {k : E → Eff W E A}
      → Triple P m Q R
      → ((e : E) → Triple (R e) (k e) Q S)
      → Triple P (catch m k) Q S
  unfolding catch
  Triple-catch {Q} {R} {S} {m} {k} t u = record { at = λ w h. step (m w) (t.at w h) }
    where
      step : (o : Result E A × W) → Post Q R o → Post Q S (caught o k)
      step (ok a, w) h = h
      step (err e, w) h = (u e).at w h

  pub if-Keeps :
      {P : W → Type 0} {m n : Eff W E A} (b : Bool)
      → Triple P m (λ _. P) (λ _. P)
      → Triple P n (λ _. P) (λ _. P)
      → Triple P (if b then m else n) (λ _. P) (λ _. P)
  if-Keeps true k l = k
  if-Keeps false k l = l

  -- An outcome as a value is never an error.
  pub Triple-attempt :
      {P : W → Type 0} {R : E → W → Type 0} {m : Eff W E A}
      → Triple P m (λ _. P) (λ _. P)
      → Triple P (attempt m) (λ _. P) R
  unfolding attempt
  Triple-attempt {P} {m} t = record { at = λ w h. step (m w) (t.at w h) }
    where
      step : (o : Result E A × W) → Post (λ _. P) (λ _. P) o → P o.1
      step (ok a, w) h = h
      step (err e, w) h = h

  pub Keeps-attempt :
      {P : W → Type 0} {m : Eff W E A}
      → Triple P m (λ _. P) (λ _. P)
      → Triple P (attempt m) (λ _. P) (λ _. P)
  Keeps-attempt t = Triple-attempt t

  pub Triple-finally :
      {P M : W → Type 0} {Q : A → W → Type 0} {R : E → W → Type 0} {m : Eff W E A}
      {k : Eff W E (Unit {0})}
      → Triple P m (λ _. M) (λ _. M)
      → Triple M k (λ _ w. ((a : A) → Q a w) × ((e : E) → R e w)) R
      → Triple P (finally m k) Q R
  unfolding finally
  Triple-finally {M} {Q} {R} {m} {k} t u = record { at = λ w h. step (m w) (t.at w h) }
    where
      rest :
          (r : Result E A) (o : Result E (Unit {0}) × W)
          → Post (λ _ w. ((a : A) → Q a w) × ((e : E) → R e w)) R o
          → Post Q R (restored r o)
      rest (ok a) (ok _, w) h = h.0 a
      rest (err e) (ok _, w) h = h.1 e
      rest r (err e, w) h = h

      step : (o : Result E A × W) → Post (λ _. M) (λ _. M) o → Post Q R (restored o.0 (k o.1))
      step (ok a, w) h = rest (ok a) (k w) (u.at w h)
      step (err e, w) h = rest (err e) (k w) (u.at w h)

pub Triple-bind :
    {W E A B : Type 0} {P : W → Type 0} {M : A → W → Type 0} {Q : B → W → Type 0}
    {R : E → W → Type 0} {m : Eff W E A} {f : A → Eff W E B}
    → Triple P m M R
    → ((a : A) → Triple (M a) (f a) Q R)
    → Triple P (bind m f) Q R
unfolding bind
Triple-bind {W} {E} {A} {M} {Q} {R} {m} {f} t u = record { at = λ w h. step (m w) (t.at w h) }
  where
    step : (o : Result E A × W) → Post M R o → Post Q R (then_do o f)
    step (ok a, w) h = (u a).at w h
    step (err e, w) h = h

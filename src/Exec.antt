-- ===== src/Exec.antt =====
-- Asynchronous methods of a client, run to their end: a method that throws leaves what it has
-- changed so far, and one whose promise never settles `waits`.
use mobile_wallet_protocol.Prelude.{◌≡◌, refl, sym, subst, Bool, true, false}
use mobile_wallet_protocol.Domain.{Error, Result, ok, err}

pub data Run {ℓ} (A : Type ℓ) : Type ℓ where
  returns : A → Run A
  throws : Error → Run A
  waits : Run A

abbrev pub Exec {ℓ} : Type ℓ → Type ℓ → Type ℓ
Exec W A = W → Run A × W

abbrev pub continue {ℓ} : {W A B : Type ℓ} → Run A × W → (A → Exec W B) → Run B × W
continue (returns a, w) f = f a w
continue (throws e, w) f = (throws e, w)
continue (waits, w) f = (waits, w)

infixl 5 ◌>>=◌ ◌>>◌
abbrev pub ◌>>=◌ {ℓ} : {W A B : Type ℓ} → Exec W A → (A → Exec W B) → Exec W B
◌>>=◌ m f w = continue (m w) f

abbrev pub ◌>>◌ {ℓ} : {W A B : Type ℓ} → Exec W A → Exec W B → Exec W B
m >> n = m >>= λ _. n

abbrev pub of_result {ℓ} : {A : Type ℓ} → Result A → Run A
of_result (ok a) = returns a
of_result (err e) = throws e

module _ {ℓ} {W A : Type ℓ} where
  abbrev pub pure : A → Exec W A
  pure a w = (returns a, w)

  abbrev pub throw : Error → Exec W A
  throw e w = (throws e, w)

  abbrev pub gets : (W → A) → Exec W A
  gets f w = (returns (f w), w)

  -- `try { m } catch (error) { h }`.
  abbrev pub handle : Run A × W → (Error → Exec W A) → Run A × W
  handle (returns a, w) h = (returns a, w)
  handle (throws e, w) h = h e w
  handle (waits, w) h = (waits, w)

  abbrev pub try_catch : Exec W A → (Error → Exec W A) → Exec W A
  try_catch m h w = handle (m w) h

  abbrev pub when : Bool → Exec W A → A → Exec W A
  when true m a = m
  when false m a = pure a

-- A sequence that returned has run both parts.
pub bind-returns {ℓ} :
    {W A B : Type ℓ} (r : Run A × W) (f : A → Exec W B) {b : B} {u : W}
    → continue r f ≡ (returns b, u)
    → (a : A) × (w : W) × (r ≡ (returns a, w)) × (f a w ≡ (returns b, u))
bind-returns (returns a, w) f e = (a, w, refl, e)
bind-returns (throws x, w) f e = cc
bind-returns (waits, w) f e = cc

-- A sequence goes on where its first part has returned.
pub bind-goes {ℓ} :
    {W A B : Type ℓ} {r : Run A × W} (f : A → Exec W B) {a : A} {w : W} {b : B}
    → r ≡ (returns a, w)
    → (f a w).0 ≡ returns b
    → (continue r f).0 ≡ returns b
bind-goes f {a} {w} {b} e = subst (λ (t : Run _ × _). (continue t f).0 ≡ returns b) (sym e)

-- A `throw` changes nothing more, whether what comes before it returned or not.
pub throw-state {ℓ} :
    {W A : Type ℓ} (r : Run A × W) (e : Error) → (continue r (λ _. throw {A = A} e)).1 ≡ r.1
throw-state (returns a, w) e = refl
throw-state (throws x, w) e = refl
throw-state (waits, w) e = refl

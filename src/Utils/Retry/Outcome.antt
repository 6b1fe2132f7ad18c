-- ===== src/Utils/Retry/Outcome.antt =====
-- What `retry` returns and how long it waits.
use native.Mathlib.Nat.{pow-suc, add-zero}
use native.Mathlib.Numerals.{add-one}
use mobile_wallet_protocol.Prelude.{
  ℕ, zero, suc, ◌+◌, ◌*◌, ◌^◌, ◌<◌, ◌≡◌, ◌⊎◌, inl, inr, Bool-cases, ltb, refl, ap, sym, subst, List,
  [], ◌∷◌, arith,
}
use mobile_wallet_protocol.Domain.{Error, Result, ok, err}
use mobile_wallet_protocol.Utils.Retry.{after_failure, retry_loop, retry}

-- The delays after `k` failures in a row, from the given attempt on.
pub backoffs : ℕ → ℕ → ℕ → List ℕ
backoffs delay attempt zero = []
backoffs delay attempt (suc k) = (delay * 2 ^ attempt) ∷ backoffs delay (attempt + 1) k

pub total : List ℕ → ℕ
total [] = 0
total (x ∷ xs) = x + total xs

total-backoffs_from :
    (delay i k : ℕ) → total (backoffs delay i k) + delay * 2 ^ i ≡ delay * 2 ^ (i + k)
unfolding total backoffs
total-backoffs_from delay i zero = rw (add-zero i) (omega arith)
total-backoffs_from delay i (suc k) = omega (
  arith,
  total-backoffs_from delay (i + 1) k,
  ap (λ (t : ℕ). delay * 2 ^ t) (shift i k),
  twice delay i,
)
  where
    shift : (a b : ℕ) → a + 1 + b ≡ a + suc b
    shift a b = omega arith

    twice : (d a : ℕ) → d * 2 ^ (a + 1) ≡ 2 * (d * 2 ^ a)
    twice d a = rw (add-one a, pow-suc 2 a) (grind arith)

-- The delays double: `k` failures in a row wait `delay * (2 ^ k - 1)` in all.
pub total-backoffs : (delay k : ℕ) → total (backoffs delay 0 k) + delay ≡ delay * 2 ^ k
total-backoffs delay k =
    omega (arith, total-backoffs_from delay 0 k, ap (λ (t : ℕ). delay * 2 ^ t) (plain k))
  where
    plain : (a : ℕ) → 0 + a ≡ a
    plain a = omega arith

shift : (i j : ℕ) → i + suc j ≡ i + 1 + j
shift i j = omega arith

module _ {A : Type 0} (fn : ℕ → Result A) where
  -- The first `k` calls from the `i`-th on fail.
  abbrev pub AllFail : ℕ → ℕ → Type 0
  AllFail i k = (j : ℕ) → j < k → (e : Error) × (fn (i + j) ≡ err e)

  first : (i k : ℕ) → AllFail i (suc k) → (e : Error) × (fn i ≡ err e)
  first i k f = subst (λ (t : ℕ). (e : Error) × (fn t ≡ err e)) (add-zero i) (f 0 (omega arith))

  later : (i k : ℕ) → AllFail i (suc k) → AllFail (i + 1) k
  later i k f j h =
      subst (λ (t : ℕ). (e : Error) × (fn t ≡ err e)) (shift i j) (f (suc j) (omega arith))

  here : (i : ℕ) {r : Result A} → fn (i + 0) ≡ r → fn i ≡ r
  here i {r} = subst (λ (t : ℕ). fn t ≡ r) (add-zero i)

  there : (i k : ℕ) {r : Result A} → fn (i + suc k) ≡ r → fn (i + 1 + k) ≡ r
  there i k {r} = subst (λ (t : ℕ). fn t ≡ r) (shift i k)

lt_or_eq : (j n : ℕ) → j < suc n → (j < n) ⊎ (j ≡ n)
lt_or_eq j n h = elim (Bool-cases (ltb j n)) [
  | inl before ↦ inl (ground (arith, before))
  | inr not_before ↦ inr (ground (arith, not_before))
]

Result-cases : {A : Type 0} (r : Result A) → ((a : A) × (r ≡ ok a)) ⊎ ((e : Error) × (r ≡ err e))
Result-cases (ok a) = inl (a, refl)
Result-cases (err e) = inr (e, refl)

module _ {A : Type 0} (fn : ℕ → Result A) (delay : ℕ) where
  extend :
      (n j : ℕ) (e : Error)
      → AllFail fn 0 n
      → fn (0 + n) ≡ err e
      → j < suc n
      → (x : Error) × (fn (0 + j) ≡ err x)
  extend n j e fails bad h = elim (lt_or_eq j n h) [
    | inl before ↦ fails j before
    | inr here ↦ (e, subst (λ (k : ℕ). fn (0 + k) ≡ err e) (sym here) bad)
  ]

  loop_succeeds :
      (attempts k remaining i : ℕ) (a : A)
      → i + remaining ≡ attempts
      → k < remaining
      → AllFail fn i k
      → fn (i + k) ≡ ok a
      → retry_loop fn attempts delay remaining i ≡ (ok a, backoffs delay i k)
  unfolding retry_loop backoffs after_failure
  loop_succeeds attempts k zero i a n h fails good = absurd (omega arith)
  loop_succeeds attempts zero (suc remaining) i a n h fails good =
      rw (here fn i good, retry_loop) refl
  loop_succeeds attempts (suc k) (suc remaining) i a n h fails good =
      let rest =
        loop_succeeds attempts k remaining (i + 1) a (omega arith) (omega arith)
          (later fn i k fails) (there fn i k good) in
      rw ((first fn i k fails).1, retry_loop) (ground (arith, rest))

  loop_fails :
      (attempts remaining i : ℕ) (e : Error)
      → i + suc remaining ≡ attempts
      → AllFail fn i (suc remaining)
      → fn (i + remaining) ≡ err e
      → retry_loop fn attempts delay (suc remaining) i ≡ (err e, backoffs delay i remaining)
  unfolding retry_loop backoffs after_failure
  loop_fails attempts zero i e n fails bad = rw (here fn i bad, retry_loop) (ground arith)
  loop_fails attempts (suc remaining) i e n fails bad =
      let rest =
        loop_fails attempts remaining (i + 1) e (omega arith) (later fn i (suc remaining) fails)
          (there fn i remaining bad) in
      rw ((first fn i (suc remaining) fails).1, retry_loop) (ground (arith, rest))

  -- When some call within the attempts succeeds after failures only, `retry` returns its value,
  -- and has waited once after each failure, twice as long each time.
  pub retry_succeeds :
      (attempts k : ℕ) (a : A)
      → k < attempts
      → ((j : ℕ) → j < k → (e : Error) × (fn (0 + j) ≡ err e))
      → fn (0 + k) ≡ ok a
      → retry fn attempts delay ≡ (ok a, backoffs delay 0 k)
  unfolding retry
  retry_succeeds attempts k a h fails good =
      loop_succeeds attempts k attempts 0 a (omega arith) h fails good

  -- When every attempt fails, `retry` throws the last error, after a wait between any two attempts
  -- and none after the last.
  pub retry_exhausted :
      (n : ℕ) (e : Error)
      → ((j : ℕ) → j < suc n → (x : Error) × (fn (0 + j) ≡ err x))
      → fn (0 + n) ≡ err e
      → retry fn (suc n) delay ≡ (err e, backoffs delay 0 n)
  unfolding retry
  retry_exhausted n e fails bad = loop_fails (suc n) n 0 e (omega arith) fails bad

  -- Either the first success among the first `n` calls, or that they all fail.
  first_success :
      (n : ℕ)
      → ((k : ℕ) × (a : A) × (k < n) × AllFail fn 0 k × (fn (0 + k) ≡ ok a)) ⊎ AllFail fn 0 n
  first_success zero = inr (λ j h. absurd (omega (arith, h)))
  first_success (suc n) = elim (first_success n) [
    | inl (k, a, h, fails, good) ↦ inl (k, a, omega (arith, h), fails, good)
    | inr fails ↦ elim (Result-cases (fn (0 + n))) [
      | inl (a, good) ↦ inl (n, a, omega arith, fails, good)
      | inr (e, bad) ↦ inr (λ j h. extend n j e fails bad h)
    ]
  ]

  -- `retry` with at least one attempt either returns the value of the first call that succeeds, after
  -- one wait for each failure before it, or throws the last error when every attempt fails, after a
  -- wait between any two attempts and none after the last; each wait is twice as long as the one
  -- before.
  pub retry_outcome :
      (n : ℕ)
      → ((k : ℕ) × (a : A) × (k < suc n)
          × AllFail fn 0 k
          × (fn (0 + k) ≡ ok a)
          × (retry fn (suc n) delay ≡ (ok a, backoffs delay 0 k)))
        ⊎ ((e : Error) × AllFail fn 0 (suc n)
            × (fn (0 + n) ≡ err e)
            × (retry fn (suc n) delay ≡ (err e, backoffs delay 0 n)))
  retry_outcome n = elim (first_success (suc n)) [
    | inl (k, a, h, fails, good) ↦
        inl (k, a, h, fails, good, retry_succeeds (suc n) k a h fails good)
    | inr fails ↦
        let (e, bad) = fails n (omega arith) in inr (e, fails, bad, retry_exhausted n e fails bad)
  ]

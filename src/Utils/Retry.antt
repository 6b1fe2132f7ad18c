-- ===== src/Utils/Retry.antt =====
-- packages/core/src/utils/retry.ts. The function that is retried is what its calls come to, by the
-- number of the call; `retry` returns its result with the delays that it has waited, in order.
pub mod Outcome
use mobile_wallet_protocol.Prelude.{
  ℕ, zero, suc, ◌+◌, ◌-◌, ◌*◌, ◌^◌, Bool, true, false, List, [], ◌∷◌, ◌==◌,
}
use mobile_wallet_protocol.Domain.{Error, Result, ok, err, protocol_error, unknown}

module _ {A : Type 0} where
  after_failure : Bool → Error → ℕ → Result A × List ℕ → Result A × List ℕ
  after_failure true error backoff rest = (err error, [])
  after_failure false error backoff rest = (rest.0, backoff ∷ rest.1)

  -- `remaining` rounds of the loop are left, and `attempt` is its variable.
  retry_loop : (ℕ → Result A) → ℕ → ℕ → ℕ → ℕ → Result A × List ℕ
  unfolding after_failure
  retry_loop fn attempts delay zero attempt = (err (protocol_error unknown), [])
  retry_loop fn attempts delay (suc remaining) attempt =
      let rest = retry_loop fn attempts delay remaining (attempt + 1) in
      elim (fn attempt) [
        | ok a ↦ (ok a, [])
        | err error ↦ after_failure (attempt == attempts - 1) error (delay * 2 ^ attempt) rest
      ]

  pub retry : (ℕ → Result A) → ℕ → ℕ → Result A × List ℕ
  retry fn attempts delay = retry_loop fn attempts delay attempts 0

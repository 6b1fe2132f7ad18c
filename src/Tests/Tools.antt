-- ===== src/Tests/Tools.antt =====
-- The theorems on the helpers, the codecs and the passwords at concrete inputs.
use mobile_wallet_protocol.Prelude.{
  ℕ, zero, suc, ◌≡◌, ◌<◌, ◌+◌, ◌↔◌, ◌⊎◌, codes, length, true, [], ◌∷◌,
}
use mobile_wallet_protocol.Domain.{Error, Result, ok, err, foreign}
use mobile_wallet_protocol.Utils.TimingSafeEqual.{timing_safe_equal, timing_safe_equal_iff}
use mobile_wallet_protocol.Utils.Retry.{retry}
use mobile_wallet_protocol.Utils.Retry.Outcome.{backoffs, AllFail, retry_outcome}
use mobile_wallet_protocol.Dapp.Otp.{
  submits, accepted, otp_loop, EntersWithin, otp_attempts, otp_accepted_iff,
}
use mobile_wallet_protocol.Wallet.Otp.{otp_of, length-otp_of}

timing_safe_equal_iff_example :
    (timing_safe_equal (codes "123456") (codes "123457") ≡ true) ↔ (codes "123456" ≡ codes "123457")
timing_safe_equal_iff_example = timing_safe_equal_iff (codes "123456") (codes "123457")

-- A call that fails twice and then succeeds.
abbrev third_time : ℕ → Result ℕ
third_time zero = err (foreign 0)
third_time (suc zero) = err (foreign 0)
third_time (suc (suc n)) = ok 7

retry_outcome_example :
    ((k : ℕ) × (a : ℕ) × (k < 5)
      × AllFail third_time 0 k
      × (third_time (0 + k) ≡ ok a)
      × (retry third_time 5 100 ≡ (ok a, backoffs 100 0 k)))
    ⊎ ((e : Error) × AllFail third_time 0 5
        × (third_time 4 ≡ err e)
        × (retry third_time 5 100 ≡ (err e, backoffs 100 0 4)))
retry_outcome_example = retry_outcome third_time 100 4

otp_accepted_iff_example :
    (otp_loop (codes "123456") 0 (submits (codes "1") ∷ submits (codes "123456") ∷ []) ≡ accepted)
    ↔ EntersWithin
        (codes "123456")
        otp_attempts
        (submits (codes "1") ∷ submits (codes "123456") ∷ [])
otp_accepted_iff_example =
    otp_accepted_iff (codes "123456") (submits (codes "1") ∷ submits (codes "123456") ∷ [])

length-otp_of_example : length (otp_of 4294967295) ≡ 6
length-otp_of_example = length-otp_of 4294967295

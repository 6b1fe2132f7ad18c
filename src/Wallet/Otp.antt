-- ===== src/Wallet/Otp.antt =====
-- `_generateOtpWithDeadline` of packages/wallet-client/src/handlers/untrusted-connection-handler.ts:
-- the one-time password for a random 32-bit number.
use mobile_wallet_protocol.Prelude.{
  ℕ, zero, suc, ◌+◌, ◌/◌, ◌%◌, ◌≤◌, ◌<◌, ◌≡◌, Text, length, length-append, [], ◌∷◌, ◌++◌, arith,
  ltb, if◌then◌else◌,
}

-- `n.toString()`: the decimal digits, at most as many as the fuel.
unfoldable pub to_string : ℕ → ℕ → Text
to_string zero n = []
to_string (suc fuel) n =
    let rest = to_string fuel (n / 10) ++ (b'0' + n % 10) ∷ [] in
    if ltb n 10 then (b'0' + n) ∷ [] else rest

-- Ten digits are enough for any 32-bit number.
unfoldable pub otp_of : ℕ → Text
unfolding to_string
otp_of random = to_string 10 (100000 + random % 900000)

to_string-last : (fuel n : ℕ) → n < 10 → length (to_string (suc fuel) n) ≡ 1
unfolding to_string
to_string-last fuel n h = ground arith

to_string-more :
    (fuel n : ℕ) → 10 ≤ n → length (to_string (suc fuel) n) ≡ length (to_string fuel (n / 10)) + 1
unfolding to_string
to_string-more fuel n h =
    ground (arith, length-append (to_string fuel (n / 10)) ((b'0' + n % 10) ∷ []))

length-to_string : (n : ℕ) → 100000 ≤ n → n < 1000000 → length (to_string 10 n) ≡ 6
length-to_string n lo hi = omega (
  arith,
  to_string-more 9 n (omega arith),
  to_string-more 8 (n / 10) (omega arith),
  to_string-more 7 (n / 10 / 10) (omega arith),
  to_string-more 6 (n / 10 / 10 / 10) (omega arith),
  to_string-more 5 (n / 10 / 10 / 10 / 10) (omega arith),
  to_string-last 4 (n / 10 / 10 / 10 / 10 / 10) (omega arith),
)

-- The password has six digits, whatever the random number.
pub length-otp_of : (random : ℕ) → length (otp_of random) ≡ 6
unfolding otp_of
length-otp_of random = length-to_string (100000 + random % 900000) (omega arith) (omega arith)

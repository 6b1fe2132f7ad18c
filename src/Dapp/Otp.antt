-- ===== src/Dapp/Otp.antt =====
-- packages/dapp-client/src/handlers/untrusted-connection-handler.ts: the entry of the one-time
-- password. The user's actions are a list; a promise that no action settles keeps waiting.
use mobile_wallet_protocol.Prelude.{
  ℕ, zero, suc, ◌+◌, ◌≡◌, ◌≢◌, ◌⊎◌, ◌↔◌, Text, leb, List, [], ◌∷◌, arith, if◌then◌else◌,
}
use mobile_wallet_protocol.Utils.TimingSafeEqual.{timing_safe_equal, timing_safe_equal_iff}

pub data Action : Type 0 where
  submits : Text → Action
  cancels : Action

pub data Verdict : Type 0 where
  accepted max_attempts cancelled waiting : Verdict

-- What the promise of one `submit` comes to: on the last attempt it returns, although the password
-- is wrong.
pub data Submitted : Type 0 where
  returned incorrect : Submitted

abbrev pub otp_attempts : ℕ
otp_attempts = 3

-- The handlers of `_handleOtpInput`, over `attempts` wrong entries so far; the first call of
-- `resolve` or `reject` decides.
pub otp_loop : Text → ℕ → List Action → Verdict
otp_loop expected attempts [] = waiting
otp_loop expected attempts (cancels ∷ rest) = cancelled
otp_loop expected attempts (submits otp ∷ rest) =
    let further = otp_loop expected (attempts + 1) rest in
    if timing_safe_equal otp expected
    then accepted
    else if leb otp_attempts (attempts + 1)
    then max_attempts
    else further

-- The promise that `submit` returns to its caller.
pub submit_result : Text → ℕ → Text → Submitted
submit_result expected attempts otp =
    if timing_safe_equal otp expected
    then returned
    else if leb otp_attempts (attempts + 1)
    then returned
    else incorrect

-- Some entry within the given number is the password, with neither a `cancel` before it nor too
-- many wrong ones.
abbrev pub EntersWithin : Text → ℕ → List Action → Type 0
EntersWithin expected zero actions = ⊥
EntersWithin expected (suc left) [] = ⊥
EntersWithin expected (suc left) (cancels ∷ rest) = ⊥
EntersWithin expected (suc left) (submits otp ∷ rest) =
    (otp ≡ expected) ⊎ EntersWithin expected left rest

loop_sound :
    (expected : Text) (left attempts : ℕ) (actions : List Action)
    → attempts + suc left ≡ otp_attempts
    → otp_loop expected attempts actions ≡ accepted
    → EntersWithin expected (suc left) actions
unfolding otp_loop
loop_sound expected left attempts [] n e = cc
loop_sound expected left attempts (cancels ∷ rest) n e = cc
loop_sound expected zero attempts (submits otp ∷ rest) n e =
    ground (arith, timing_safe_equal_iff otp expected)
loop_sound expected (suc left) attempts (submits otp ∷ rest) n e = ground (
  arith,
  timing_safe_equal_iff otp expected,
  loop_sound expected left (attempts + 1) rest (omega arith),
)

loop_complete :
    (expected : Text) (left attempts : ℕ) (actions : List Action)
    → attempts + suc left ≡ otp_attempts
    → EntersWithin expected (suc left) actions
    → otp_loop expected attempts actions ≡ accepted
unfolding otp_loop
loop_complete expected left attempts [] n e = absurd e
loop_complete expected left attempts (cancels ∷ rest) n e = absurd e
loop_complete expected zero attempts (submits otp ∷ rest) n e =
    ground (arith, timing_safe_equal_iff otp expected)
loop_complete expected (suc left) attempts (submits otp ∷ rest) n e = ground (
  arith,
  timing_safe_equal_iff otp expected,
  loop_complete expected left (attempts + 1) rest (omega arith),
)

-- The password is accepted exactly when one of the first three actions enters it and every action
-- before that is a wrong entry: no `cancel`, and never a fourth try.
pub otp_accepted_iff :
    (expected : Text) (actions : List Action)
    → (otp_loop expected 0 actions ≡ accepted) ↔ EntersWithin expected otp_attempts actions
otp_accepted_iff expected actions = (
  loop_sound expected 2 0 actions (omega arith),
  loop_complete expected 2 0 actions (omega arith),
)

-- The wrong entry that ends the attempts is not reported to the caller of `submit`: its promise
-- returns, as for the right password, while the connection is given up.
pub last_submit_returns :
    (expected otp : Text) (attempts : ℕ) (rest : List Action)
    → otp ≢ expected
    → attempts + 1 ≡ otp_attempts
    → (submit_result expected attempts otp ≡ returned)
      × (otp_loop expected attempts (submits otp ∷ rest) ≡ max_attempts)
unfolding submit_result otp_loop
last_submit_returns expected otp attempts rest wrong last = (
  ground (arith, timing_safe_equal_iff otp expected),
  ground (arith, timing_safe_equal_iff otp expected),
)

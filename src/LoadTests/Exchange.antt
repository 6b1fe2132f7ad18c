-- ===== src/LoadTests/Exchange.antt =====
-- apps/load-tests/src/client/session-pair.ts: `createMessageExchanger`, one request of a dApp and the
-- wallet's response.
--
-- Times are in milliseconds since the request is sent. What the two clients do is a `Trip`; a call of
-- theirs that stays pending for ever may hold the exchange up. Of an error's message only its kind is
-- kept.
use Prim.Native.Nat.{max}
use mobile_wallet_protocol.Prelude.{
  ℕ, ◌+◌, ◌-◌, ◌≤◌, ◌<◌, ◌≡◌, ◌≢◌, Bool, true, false, ◌&&◌, Option, none, some, ltb, ◌==◌, arith,
  if◌then◌else◌, Option-cases, inl, inr,
}
use mobile_wallet_protocol.LoadTests.Messaging.{
  Exchange, succeeds, fails, Metrics, initial, run_messaging_loop,
}

-- `thrown`: an error of a client, and whether its message says "not connected".
pub data Failure : Type 0 where
  wallet_timeout dapp_timeout mismatch : Failure
  thrown : Bool → Failure

-- When `sendRequest` ends, and its error if it rejects, and `none` where it never does: it has no
-- timeout, and a transport's `publish` may stay pending; when the wallet's first message comes; how
-- long `sendResponse` takes, and its error, or `none` as before; and when the dApp's first message
-- comes, with its `id`.
pub record Trip : Type 0 where
  pub request : Option (ℕ × Option Bool)
  pub wallet_message : Option ℕ
  pub response : Option (ℕ × Option Bool)
  pub dapp_message : Option (ℕ × Option ℕ)

-- When a promise settles, and how, if it does.
pub data Settled (A : Type 0) : Type 0 where
  resolved : ℕ → A → Settled A
  rejected : ℕ → Failure → Settled A
  pending : Settled A

abbrev pub receive_timeout : ℕ
receive_timeout = 30000

-- The wait at the start of an exchange.
abbrev pub sync_buffer : ℕ
sync_buffer = 500

abbrev respond : ℕ → Option (ℕ × Option Bool) → Settled (Unit {0})
respond start none = pending
respond start (some (elapsed, none)) = resolved (start + elapsed) tt
respond start (some (elapsed, some dead)) = rejected (start + elapsed) (thrown dead)

-- `walletReceivePromise`.
unfoldable pub wallet_receive : ℕ → Trip → Settled (Unit {0})
wallet_receive delay trip = elim trip.wallet_message [
  | none ↦ rejected receive_timeout wallet_timeout
  | some time ↦
      if ltb time receive_timeout
      then respond (time + delay) trip.response
      else rejected receive_timeout wallet_timeout
]

-- `dappReceivePromise`.
unfoldable pub dapp_receive : ℕ → Trip → Settled (Option ℕ)
dapp_receive delay trip = elim trip.dapp_message [
  | none ↦ rejected (receive_timeout + delay) dapp_timeout
  | some (time, id) ↦
      if ltb time (receive_timeout + delay)
      then resolved time id
      else rejected (receive_timeout + delay) dapp_timeout
]

-- `await Promise.all([wallet, dapp])` from a time on.
unfoldable pub both_settled : ℕ → Settled (Unit {0}) → Settled (Option ℕ) → Settled (Option ℕ)
both_settled from (resolved tw u) (resolved td id) = resolved (max from (max tw td)) id
both_settled from (resolved tw u) (rejected td g) = rejected (max from td) g
both_settled from (rejected tw f) (resolved td id) = rejected (max from tw) f
both_settled from (rejected tw f) pending = rejected (max from tw) f
both_settled from pending (rejected td g) = rejected (max from td) g
both_settled from pending (resolved td id) = pending
both_settled from pending pending = pending
both_settled from (resolved tw u) pending = pending
both_settled from (rejected tw f) (rejected td g) =
    if ltb td tw && ltb from tw then rejected (max from td) g else rejected (max from tw) f

pub record MessageExchangeResult : Type 0 where
  pub success : Bool
  pub latency_ms : ℕ
  pub message_id : ℕ
  pub error : Option Failure

abbrev same_id : Option ℕ → ℕ → Bool
same_id none message_id = false
same_id (some id) message_id = id == message_id

abbrev failure : ℕ → ℕ → Failure → MessageExchangeResult
failure message_id latency f = record {
  success = false;
  latency_ms = latency;
  message_id = message_id;
  error = some f;
}

abbrev verify : ℕ → ℕ → ℕ → Option ℕ → MessageExchangeResult
verify message_id delay total id =
    if same_id id message_id
    then record {
      success = true;
      latency_ms = total - delay;
      message_id = message_id;
      error = none;
    }
    else failure message_id (total - delay) mismatch

-- The end of the exchange, and its result.
abbrev conclude : ℕ → ℕ → Settled (Option ℕ) → Option (ℕ × MessageExchangeResult)
conclude message_id delay (resolved time id) = some (time, verify message_id delay time id)
conclude message_id delay (rejected time f) = some (time, failure message_id time f)
conclude message_id delay pending = none

abbrev after_request : ℕ → ℕ → Trip → Option (ℕ × Option Bool) → Option (ℕ × MessageExchangeResult)
after_request message_id delay trip none = none
after_request message_id delay trip (some (time, none)) =
    conclude message_id delay
      (both_settled time (wallet_receive delay trip) (dapp_receive delay trip))
after_request message_id delay trip (some (time, some dead)) =
    some (time, failure message_id time (thrown dead))

-- `exchangeMessage`: how long it takes, the wait at its start included, and its result; `none` where
-- it stays pending for ever.
unfoldable pub exchange_message : ℕ → ℕ → Trip → Option (ℕ × MessageExchangeResult)
unfolding wallet_receive dapp_receive both_settled
exchange_message message_id delay trip = elim (after_request message_id delay trip trip.request) [
  | none ↦ none
  | some (time, result) ↦ some (sync_buffer + time, result)
]

-- What the messaging loop sees of a result.
abbrev says_dead : Option Failure → Bool
says_dead none = false
says_dead (some wallet_timeout) = false
says_dead (some dapp_timeout) = false
says_dead (some mismatch) = false
says_dead (some (thrown dead)) = dead

pub exchange_of : MessageExchangeResult → Exchange
exchange_of r = if r.success then succeeds r.latency_ms else fails (says_dead r.error)

-- An exchange whose calls end does so too.
pub exchange_ends :
    (message_id delay : ℕ) (trip : Trip)
    → trip.request ≢ none
    → trip.response ≢ none
    → exchange_message message_id delay trip ≢ none
unfolding exchange_message wallet_receive dapp_receive both_settled
exchange_ends message_id delay trip sent answered = λ e. ground (arith, sent, answered, e)

-- It lasts at least the wait at its start.
pub exchange_waits :
    (message_id delay : ℕ) (trip : Trip) (taken : ℕ × MessageExchangeResult)
    → exchange_message message_id delay trip ≡ some taken
    → sync_buffer ≤ taken.0
unfolding exchange_message
exchange_waits message_id delay trip taken e =
    elim (Option-cases (after_request message_id delay trip trip.request)) [
      | inl stuck ↦ absurd (ground arith)
      | inr (done, d) ↦ ground arith
    ]

-- An exchange that ends with success is one where the request went out, the wallet got a message
-- within its timeout and its response went out, and the dApp got the message with the exchange's
-- number within its own; the latency and the wallet's delay are then exactly the time that it took
-- after the wait at its start.
pub exchange_success :
    (message_id delay elapsed : ℕ) (trip : Trip) (r : MessageExchangeResult)
    → exchange_message message_id delay trip ≡ some (elapsed, r)
    → r.success ≡ true
    → (sent : ℕ) × (tw : ℕ) × (replied : ℕ) × (td : ℕ) × (trip.request ≡ some (sent, none))
      × (trip.wallet_message ≡ some tw)
      × (tw < receive_timeout)
      × (trip.response ≡ some (replied, none))
      × (trip.dapp_message ≡ some (td, some message_id))
      × (td < receive_timeout + delay)
      × (elapsed ≡ sync_buffer + r.latency_ms + delay)
unfolding exchange_message wallet_receive dapp_receive both_settled
exchange_success message_id delay elapsed trip r e h = elim (Option-cases trip.request) [
  | inl stuck ↦ absurd (ground arith)
  | inr (q, asked) ↦ elim (Option-cases trip.wallet_message) [
    | inl silent ↦ absurd (ground arith)
    | inr (tw, came) ↦ elim (Option-cases trip.response) [
      | inl stuck ↦ absurd (ground arith)
      | inr (a, answered) ↦ elim (Option-cases trip.dapp_message) [
        | inl silent ↦ absurd (ground arith)
        | inr (d, reply) ↦ (
          q.0,
          tw,
          a.0,
          d.0,
          ground arith,
          came,
          ground arith,
          ground arith,
          ground arith,
          ground arith,
          ground arith,
        )
      ]
    ]
  ]
]

-- What the loop sees of the exchanges.
pub exchanges : (ℕ → Trip) → ℕ → ℕ → Option (ℕ × Exchange)
exchanges trips delay id = elim (exchange_message id delay (trips id)) [
  | none ↦ none
  | some (elapsed, r) ↦ some (elapsed, exchange_of r)
]

-- `runMessagingLoop` of a pair of clients from a time on, over what happens in each exchange.
pub run_exchange_loop : (ℕ → Trip) → ℕ → ℕ → ℕ → ℕ → Option Metrics
run_exchange_loop trips test_end delay fuel now =
    run_messaging_loop (exchanges trips delay) test_end delay fuel 0 now initial

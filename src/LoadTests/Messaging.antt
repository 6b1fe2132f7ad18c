-- ===== src/LoadTests/Messaging.antt =====
-- apps/load-tests/src/scenarios/steady-messaging.ts: the messaging loop of one pair of clients.
use mobile_wallet_protocol.Prelude.{
  ℕ, zero, suc, ◌+◌, ◌*◌, ◌≤◌, ◌≡◌, refl, Bool, true, false, Option, none, some, List, [], ◌∷◌,
  ◌++◌, length, length-append, ltb, le→ltb, arith, if◌then◌else◌, Bool-cases, inl, inr,
}

-- How `exchangeMessage` ends: with a latency, with an error that does or does not say "not
-- connected", or by an exception.
pub data Exchange : Type 0 where
  succeeds : ℕ → Exchange
  fails : Bool → Exchange
  throws : Exchange

-- The counters that the loops share, for one loop; `active` is whether the pair is in `activePairs`.
pub record Metrics : Type 0 where
  pub total_exchanges : ℕ
  pub successful_exchanges : ℕ
  pub failed_exchanges : ℕ
  pub disconnects : ℕ
  pub all_latencies : List ℕ
  pub active : Bool

abbrev pub initial : Metrics
initial = record {
  total_exchanges = 0;
  successful_exchanges = 0;
  failed_exchanges = 0;
  disconnects = 0;
  all_latencies = [];
  active = true;
}

abbrev drop_pair : Metrics → Metrics
drop_pair m = record m { active = false; disconnects = m.disconnects + 1 }

abbrev count_failure : Metrics → Metrics
count_failure m = record m {
  total_exchanges = m.total_exchanges + 1;
  failed_exchanges = m.failed_exchanges + 1;
}

-- The body of the loop up to its `sleep`; whether the loop goes on.
pub record_exchange : Exchange → Metrics → Metrics × Bool
record_exchange (succeeds latency) m = (
  record m {
    total_exchanges = m.total_exchanges + 1;
    successful_exchanges = m.successful_exchanges + 1;
    all_latencies = m.all_latencies ++ latency ∷ [];
  },
  true,
)
record_exchange (fails true) m = (drop_pair (count_failure m), false)
record_exchange (fails false) m = (count_failure m, true)
record_exchange throws m = (drop_pair (count_failure m), false)

-- `runMessagingLoop`: `exchange` is how long the exchange of an identifier takes and how it ends, and
-- `none` for one that never does. The loop looks at the clock before each exchange; `none` is a loop
-- that has not ended within the fuel, or is held up by such an exchange.
pub run_messaging_loop : (ℕ → Option (ℕ × Exchange)) → ℕ → ℕ → ℕ → ℕ → ℕ → Metrics → Option Metrics
run_messaging_loop exchange test_end delay zero message_id now m = none
run_messaging_loop exchange test_end delay (suc fuel) message_id now m =
    elim (exchange (message_id + 1)) [
      | none ↦ if ltb now test_end then none else some m
      | some (elapsed, outcome) ↦
          let (m', goes_on) = record_exchange outcome m in
          let rest =
            run_messaging_loop exchange test_end delay fuel (message_id + 1) (now + elapsed + delay)
              m' in
          if ltb now test_end then (if goes_on then rest else some m') else some m
    ]

-- The numbers of a loop agree: every exchange has succeeded or failed, each success has its latency,
-- and a pair is given up at most once, and then for good.
pub record IsCounted (m : Metrics) : Type 0 where
  pub total : m.total_exchanges ≡ m.successful_exchanges + m.failed_exchanges
  pub latencies : length m.all_latencies ≡ m.successful_exchanges
  pub given_up : m.disconnects ≡ (if m.active then 0 else 1)

record-IsCounted :
    (e : Exchange) (m : Metrics)
    → IsCounted m
    → m.active ≡ true
    → IsCounted (record_exchange e m).0
      × ((record_exchange e m).1 ≡ true → (record_exchange e m).0.active ≡ true)
unfolding record_exchange
record-IsCounted (succeeds latency) m h on = (
  record {
    total = omega (arith, h.total);
    latencies = omega (arith, h.latencies, length-append m.all_latencies (latency ∷ []));
    given_up = h.given_up;
  },
  λ goes. on,
)
record-IsCounted (fails true) m h on = (
  record {
    total = omega (arith, h.total);
    latencies = h.latencies;
    given_up = ground (arith, h.given_up, on);
  },
  λ goes. cc,
)
record-IsCounted (fails false) m h on = (
  record { total = omega (arith, h.total); latencies = h.latencies; given_up = h.given_up },
  λ goes. on,
)
record-IsCounted throws m h on = (
  record {
    total = omega (arith, h.total);
    latencies = h.latencies;
    given_up = ground (arith, h.given_up, on);
  },
  λ goes. cc,
)

record-total :
    (e : Exchange) (m : Metrics) → (record_exchange e m).0.total_exchanges ≡ m.total_exchanges + 1
unfolding record_exchange
record-total (succeeds latency) m = refl
record-total (fails true) m = refl
record-total (fails false) m = refl
record-total throws m = refl

-- Where every exchange ends, so does the loop, and its numbers agree. Each exchange takes at least the half second that it waits
-- at first, so as much fuel as there are half seconds left, and one more, is enough; and no more
-- exchanges than that are counted.
pub messaging_ends :
    (exchange : ℕ → Option (ℕ × Exchange)) (test_end delay fuel message_id now : ℕ) (m : Metrics)
    → ((id : ℕ) → (taken : ℕ × Exchange) × (exchange id ≡ some taken) × (500 ≤ taken.0))
    → test_end ≤ now + 500 * fuel
    → IsCounted m
    → m.active ≡ true
    → (u : Metrics) × (run_messaging_loop exchange test_end delay (suc fuel) message_id now m
        ≡ some u)
      × IsCounted u
      × (u.total_exchanges ≤ m.total_exchanges + fuel)
unfolding run_messaging_loop
messaging_ends exchange test_end delay zero message_id now m slow enough h on =
    let over : ltb now test_end ≡ false = le→ltb now test_end (omega (arith, enough)) in
    (m, rw ((slow (message_id + 1)).1, run_messaging_loop, over) refl, h, omega arith)
messaging_ends exchange test_end delay (suc fuel) message_id now m slow enough h on =
    let (taken, e, long) = slow (message_id + 1) in
    let done = record_exchange taken.1 m in
    let counted = record-IsCounted taken.1 m h on in
    elim (Bool-cases (ltb now test_end)) [
      | inr over ↦ (m, rw (e, run_messaging_loop, over) refl, h, omega arith)
      | inl early ↦ elim (Bool-cases done.1) [
        | inr ended ↦ (
          done.0,
          rw (e, run_messaging_loop, early, ended) refl,
          counted.0,
          omega (arith, record-total taken.1 m),
        )
        | inl goes ↦
            let more =
              messaging_ends exchange test_end delay fuel (message_id + 1) (now + taken.0 + delay)
                done.0 slow (omega (arith, enough, long)) counted.0 (counted.1 goes) in
            (
              more.0,
              rw (e, run_messaging_loop, early, goes) more.1,
              more.2,
              omega (arith, more.3, record-total taken.1 m),
            )
      ]
    ]

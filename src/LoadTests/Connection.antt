-- ===== src/LoadTests/Connection.antt =====
-- apps/load-tests/src/client/centrifuge-client.ts and the connection-storm scenario
-- that runs many such clients.
--
-- The events of Centrifuge's client and of the timeout are a list, each with the time since the
-- start. Rates and averages of a run, which are fractions, are left out.
use mathlib.Core.Option.{some-injective}
use mobile_wallet_protocol.Prelude.{
  ℕ, ◌+◌, ◌<◌, ◌≡◌, refl, subst, Bool, true, false, Option, none, some, List, [], ◌∷◌, length,
  count, one_if, All, arith, if◌then◌else◌,
}

pub data ConnectionOutcome : Type 0 where
  immediate recovered failed : ConnectionOutcome

-- `error` is the timeout that the message names.
pub record ConnectionResult : Type 0 where
  pub success : Bool
  pub outcome : ConnectionOutcome
  pub connection_time_ms : ℕ
  pub retry_count : ℕ
  pub error : Option ℕ

pub data ClientEvent : Type 0 where
  connected error timed_out : ClientEvent

-- The listeners of `connect`, from the start on: the promise settles once, by the first event that
-- resolves it, and is pending (`none`) until then.
pub listen : ℕ → ℕ → Bool → List (ℕ × ClientEvent) → Option ConnectionResult
listen timeout_ms retries had_error [] = none
listen timeout_ms retries had_error ((time, connected) ∷ rest) = some (record {
  success = true;
  outcome = if had_error then recovered else immediate;
  connection_time_ms = time;
  retry_count = retries;
  error = none;
})
listen timeout_ms retries had_error ((time, error) ∷ rest) =
    listen timeout_ms (retries + 1) true rest
listen timeout_ms retries had_error ((time, timed_out) ∷ rest) = some (record {
  success = false;
  outcome = failed;
  connection_time_ms = time;
  retry_count = retries;
  error = some timeout_ms;
})

pub connect : ℕ → List (ℕ × ClientEvent) → Option ConnectionResult
connect timeout_ms events = listen timeout_ms 0 false events

abbrev same_outcome : ConnectionOutcome → ConnectionOutcome → Bool
same_outcome immediate immediate = true
same_outcome recovered recovered = true
same_outcome failed failed = true
same_outcome _ _ = false

abbrev pub is_immediate : ConnectionResult → Bool
is_immediate r = same_outcome r.outcome immediate

abbrev pub is_recovered : ConnectionResult → Bool
is_recovered r = same_outcome r.outcome recovered

abbrev pub is_failed : ConnectionResult → Bool
is_failed r = same_outcome r.outcome failed

abbrev pub is_success : ConnectionResult → Bool
is_success r = r.success

pub record Connections : Type 0 where
  pub attempted : ℕ
  pub successful : ℕ
  pub failures : ℕ
  pub immediates : ℕ
  pub recoveries : ℕ

pub record ScenarioResult : Type 0 where
  pub connections : Connections
  pub total_time_ms : ℕ
  pub connection_latencies : List ℕ
  pub total_retries : ℕ

-- `filter((r) => r.success).map((r) => r.connectionTimeMs)`.
abbrev latencies : List ConnectionResult → List ℕ
latencies [] = []
latencies (r ∷ rest) = if r.success then r.connection_time_ms ∷ latencies rest else latencies rest

abbrev sum_retries : List ConnectionResult → ℕ
sum_retries [] = 0
sum_retries (r ∷ rest) = r.retry_count + sum_retries rest

-- What the scenario returns, of the results in the order in which they came.
pub run_connection_storm : ℕ → ℕ → List ConnectionResult → ScenarioResult
run_connection_storm connections total_time results = record {
  connections = record {
    attempted = connections;
    successful = count is_success results;
    failures = count is_failed results;
    immediates = count is_immediate results;
    recoveries = count is_recovered results;
  };
  total_time_ms = total_time;
  connection_latencies = latencies results;
  total_retries = sum_retries results;
}

-- A result of a client: it says success exactly where it did not fail, and recovered where it
-- connected after errors.
abbrev Sound : ConnectionOutcome → Bool → ℕ → Type 0
Sound immediate success retries = (success ≡ true) × (retries ≡ 0)
Sound recovered success retries = (success ≡ true) × (0 < retries)
Sound failed success retries = success ≡ false

abbrev pub IsSound : ConnectionResult → Type 0
IsSound r = Sound r.outcome r.success r.retry_count

listen-IsSound :
    (timeout_ms retries : ℕ) (had_error : Bool) (events : List (ℕ × ClientEvent))
    (r : ConnectionResult)
    → (if had_error then 0 < retries else retries ≡ 0)
    → listen timeout_ms retries had_error events ≡ some r
    → IsSound r
unfolding listen
listen-IsSound timeout_ms retries had_error [] r h e = cc
listen-IsSound timeout_ms retries true ((time, connected) ∷ rest) r h e =
    subst IsSound (some-injective _ _ e) (refl, h)
listen-IsSound timeout_ms retries false ((time, connected) ∷ rest) r h e =
    subst IsSound (some-injective _ _ e) (refl, h)
listen-IsSound timeout_ms retries had_error ((time, error) ∷ rest) r h e =
    listen-IsSound timeout_ms (retries + 1) true rest r (omega arith) e
listen-IsSound timeout_ms retries had_error ((time, timed_out) ∷ rest) r h e =
    subst IsSound (some-injective _ _ e) refl

-- A promise of `connect` that has settled says success exactly where the client connected: at once
-- where no error was counted, and recovered where some was.
pub connect-IsSound :
    (timeout_ms : ℕ) (events : List (ℕ × ClientEvent)) (r : ConnectionResult)
    → connect timeout_ms events ≡ some r
    → IsSound r
unfolding connect
connect-IsSound timeout_ms events r e = listen-IsSound timeout_ms 0 false events r refl e

-- Every attempt has one outcome.
abbrev pub IsBalanced : Connections → Type 0
IsBalanced c =
    (c.attempted ≡ c.successful + c.failures) × (c.successful ≡ c.immediates + c.recoveries)

Sound-count :
    (o : ConnectionOutcome) (success : Bool) (retries : ℕ)
    → Sound o success retries
    → (one_if success + one_if (same_outcome o failed) ≡ 1)
      × (one_if success ≡ one_if (same_outcome o immediate) + one_if (same_outcome o recovered))
Sound-count immediate success retries h = ground (arith, h)
Sound-count recovered success retries h = ground (arith, h)
Sound-count failed success retries h = ground (arith, h)

counts-IsBalanced :
    (results : List ConnectionResult)
    → All IsSound results
    → (length results ≡ count is_success results + count is_failed results)
      × (count is_success results ≡ count is_immediate results + count is_recovered results)
counts-IsBalanced [] all = (omega arith, omega arith)
counts-IsBalanced (r ∷ rest) all =
    let ih = counts-IsBalanced rest all.1 in
    let one = Sound-count r.outcome r.success r.retry_count all.0 in
    (omega (arith, ih.0, one.0), omega (arith, ih.1, one.1))

-- Where every client's promise has settled, a storm's result is balanced: the attempts are the
-- successes and the failures, and the successes those at once and the recovered ones.
pub storm-IsBalanced :
    (total_time : ℕ) (results : List ConnectionResult)
    → All IsSound results
    → IsBalanced (run_connection_storm (length results) total_time results).connections
unfolding run_connection_storm
storm-IsBalanced total_time results all = counts-IsBalanced results all

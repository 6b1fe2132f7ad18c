-- ===== src/LoadTests/Aggregate.antt =====
-- apps/load-tests/src/results/aggregate.ts, which adds the results of several runs up.
--
-- The files' names, and the rates and averages of the totals, which are fractions, are left out.
use mathlib.Core.Option.{some-injective}
use mobile_wallet_protocol.Prelude.{
  ℕ, ◌+◌, ◌*◌, ◌≡◌, subst, Option, none, some, List, [], ◌∷◌, ◌++◌, length, All, arith,
}
use mobile_wallet_protocol.LoadTests.Stats.{ConnectTimeStats, calculate_connect_time_stats}
use mobile_wallet_protocol.LoadTests.Connection.{Connections, IsBalanced}

-- The fields of `TestResults` that are added up.
pub record TestResults : Type 0 where
  pub connections : Connections
  pub total_time_ms : ℕ
  pub total_retries : ℕ
  pub connect_time : Option ConnectTimeStats

pub record Totals : Type 0 where
  pub connections : Connections
  pub total_time_ms : ℕ
  pub total_retries : ℕ
  pub all_connect_times : List ℕ

pub record AggregatedResults : Type 0 where
  pub droplet_count : ℕ
  pub totals : Totals
  pub connect_time : Option ConnectTimeStats

abbrev no_totals : Totals
no_totals = record {
  connections = record {
    attempted = 0;
    successful = 0;
    failures = 0;
    immediates = 0;
    recoveries = 0;
  };
  total_time_ms = 0;
  total_retries = 0;
  all_connect_times = [];
}

-- In microseconds, as the times of the statistics are.
abbrev samples : Option ConnectTimeStats → List ℕ
samples none = []
samples (some times) = (1000 * times.min) ∷ (1000 * times.avg) ∷ (1000 * times.max) ∷ []

unfoldable pub add_results : Totals → TestResults → Totals
add_results t d = record {
  connections = record {
    attempted = t.connections.attempted + d.connections.attempted;
    successful = t.connections.successful + d.connections.successful;
    failures = t.connections.failures + d.connections.failures;
    immediates = t.connections.immediates + d.connections.immediates;
    recoveries = t.connections.recoveries + d.connections.recoveries;
  };
  total_time_ms = t.total_time_ms + d.total_time_ms;
  total_retries = t.total_retries + d.total_retries;
  all_connect_times = t.all_connect_times ++ samples d.connect_time;
}

-- The loop over the files.
unfoldable pub add_all : Totals → List TestResults → Totals
add_all t [] = t
add_all t (d ∷ rest) = add_all (add_results t d) rest

-- `aggregateResults`, of the files that could be read; `none` is the exception when there is none.
-- The statistics are of the files' own.
unfoldable pub aggregate_results : List TestResults → Option AggregatedResults
aggregate_results [] = none
aggregate_results (d ∷ rest) =
    let totals = add_all no_totals (d ∷ rest) in
    some (record {
      droplet_count = length (d ∷ rest);
      totals = totals;
      connect_time = calculate_connect_time_stats totals.all_connect_times;
    })

add_all-IsBalanced :
    (t : Totals) (ds : List TestResults)
    → IsBalanced t.connections
    → All (λ d. IsBalanced d.connections) ds
    → IsBalanced (add_all t ds).connections
unfolding add_all add_results
add_all-IsBalanced t [] h all = h
add_all-IsBalanced t (d ∷ ds) h all =
    add_all-IsBalanced (add_results t d) ds
      (omega (arith, h.0, all.0.0), omega (arith, h.1, all.0.1)) all.1

-- The totals over the files of several runs are balanced, where each file's numbers are.
pub aggregate-IsBalanced :
    (ds : List TestResults) (r : AggregatedResults)
    → All (λ d. IsBalanced d.connections) ds
    → aggregate_results ds ≡ some r
    → IsBalanced r.totals.connections
unfolding aggregate_results
aggregate-IsBalanced [] r all e = absurd (cc)
aggregate-IsBalanced (d ∷ rest) r all e =
    subst (λ (x : AggregatedResults). IsBalanced x.totals.connections) (some-injective _ _ e)
      (add_all-IsBalanced no_totals (d ∷ rest) (omega arith, omega arith) all)

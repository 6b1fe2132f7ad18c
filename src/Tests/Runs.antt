-- ===== src/Tests/Runs.antt =====
-- The theorems on the load tests, at concrete inputs.
use mobile_wallet_protocol.Prelude.{ℕ, ◌+◌, ◌<◌, ◌≡◌, refl, true, none, some, List, [], ◌∷◌}
use mobile_wallet_protocol.LoadTests.Stats.{
  ConnectTimeStats, calculate_connect_time_stats, sort, insert,
}
use mobile_wallet_protocol.LoadTests.Aggregate.{
  TestResults, AggregatedResults, aggregate_results, add_all, add_results,
}
use mobile_wallet_protocol.LoadTests.Exchange.{
  Trip, exchange_message, wallet_receive, dapp_receive, both_settled, exchange_success, sync_buffer,
  receive_timeout,
}

-- An exchange in which all goes well.
abbrev good_trip : Trip
good_trip = record {
  request = some (20, none);
  wallet_message = some 40;
  response = some (20, none);
  dapp_message = some (1100, some 1);
}

exchange_success_example :
    (sent : ℕ) × (tw : ℕ) × (replied : ℕ) × (td : ℕ) × (good_trip.request ≡ some (sent, none))
    × (good_trip.wallet_message ≡ some tw)
    × (tw < receive_timeout)
    × (good_trip.response ≡ some (replied, none))
    × (good_trip.dapp_message ≡ some (td, some 1))
    × (td < receive_timeout + 1000)
    × (1600 ≡ sync_buffer + 100 + 1000)
unfolding exchange_message wallet_receive dapp_receive both_settled
exchange_success_example =
    exchange_success 1 1000 1600 good_trip
      (record { success = true; latency_ms = 100; message_id = 1; error = none }) refl refl

-- The results of two runs.
abbrev two_runs : List TestResults
two_runs =
    record {
      connections = record {
        attempted = 3;
        successful = 2;
        failures = 1;
        immediates = 1;
        recoveries = 1;
      };
      total_time_ms = 900;
      total_retries = 4;
      connect_time = none;
    }
    ∷ record {
      connections = record {
        attempted = 1;
        successful = 1;
        failures = 0;
        immediates = 1;
        recoveries = 0;
      };
      total_time_ms = 100;
      total_retries = 0;
      connect_time = none;
    }
    ∷ []

abbrev totals_of_two : AggregatedResults
totals_of_two = record {
  droplet_count = 2;
  totals = record {
    connections = record {
      attempted = 4;
      successful = 3;
      failures = 1;
      immediates = 2;
      recoveries = 1;
    };
    total_time_ms = 1000;
    total_retries = 4;
    all_connect_times = [];
  };
  connect_time = none;
}

two_aggregated : aggregate_results two_runs ≡ some totals_of_two
unfolding aggregate_results add_all add_results calculate_connect_time_stats
two_aggregated = refl

-- Connections that took 12, 7 and 30 milliseconds.
abbrev three_times : List ℕ
three_times = 12000 ∷ 7000 ∷ 30000 ∷ []

abbrev stats_of_three : ConnectTimeStats
stats_of_three = record { min = 7; max = 30; avg = 16; p50 = 12; p95 = 12; p99 = 12 }

three_calculated : calculate_connect_time_stats three_times ≡ some stats_of_three
unfolding calculate_connect_time_stats sort insert
three_calculated = refl

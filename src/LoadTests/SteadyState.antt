-- ===== src/LoadTests/SteadyState.antt =====
-- apps/load-tests/src/scenarios/steady-state.ts: its counters.
--
-- What the clients' connections come to, and how many clients are connected at each look, are
-- arguments. The stability, a percentage, is left out.
use mobile_wallet_protocol.Prelude.{
  ℕ, ◌+◌, ◌-◌, ◌≤◌, ◌≡◌, List, [], ◌∷◌, count, All, ltb, ◌==◌, arith, if◌then◌else◌, Bool-cases,
  inl, inr,
}
use mobile_wallet_protocol.LoadTests.Connection.{
  ConnectionResult, ScenarioResult, is_success, run_connection_storm,
}

-- The counters of the hold phase.
pub record Hold : Type 0 where
  pub peak_disconnects : ℕ
  pub reconnects_during_hold : ℕ
  pub previous_disconnect_count : ℕ

abbrev pub no_hold : Hold
no_hold = record { peak_disconnects = 0; reconnects_during_hold = 0; previous_disconnect_count = 0 }

-- One look at the clients, of which `current` are disconnected.
pub look : ℕ → Hold → Hold
look current h = record {
  peak_disconnects = if ltb h.peak_disconnects current then current else h.peak_disconnects;
  reconnects_during_hold =
      if ltb current h.previous_disconnect_count
      then h.reconnects_during_hold + (h.previous_disconnect_count - current)
      else h.reconnects_during_hold;
  previous_disconnect_count = current;
}

-- The loop, over how many clients are connected at each look. A client is connected only if it was
-- successful, so the difference is not negative.
pub hold : ℕ → List ℕ → Hold → Hold
hold successful [] h = h
hold successful (active ∷ rest) h = hold successful rest (look (successful - active) h)

pub record SteadyStateResult : Type 0 where
  pub scenario : ScenarioResult
  pub ramp_up_time_ms : ℕ
  pub hold_duration_ms : ℕ
  pub current_disconnects : ℕ
  pub peak_disconnects : ℕ
  pub reconnects_during_hold : ℕ

-- `buildResult`.
pub build_result : List ConnectionResult → ℕ → ℕ → ℕ → ℕ → Hold → SteadyStateResult
build_result results total ramp_up hold_time current h = record {
  scenario = run_connection_storm total (ramp_up + hold_time) results;
  ramp_up_time_ms = ramp_up;
  hold_duration_ms = hold_time;
  current_disconnects = current;
  peak_disconnects = h.peak_disconnects;
  reconnects_during_hold = h.reconnects_during_hold;
}

-- `runSteadyState`: the results of the connections, the looks, and who is connected at the end.
pub run_steady_state : ℕ → ℕ → ℕ → List ConnectionResult → List ℕ → ℕ → SteadyStateResult
run_steady_state connections ramp_up hold_time results looks final_active =
    let successful = count is_success results in
    if successful == 0
    then build_result results connections ramp_up 0 0 no_hold
    else build_result results connections ramp_up hold_time (successful - final_active)
        (hold successful looks no_hold)

-- By how much a number of disconnected clients rises in all, from one look to the next.
abbrev pub rises : ℕ → ℕ → List ℕ → ℕ
rises successful from [] = 0
rises successful from (active ∷ rest) =
    (successful - active - from) + rises successful (successful - active) rest

hold_lem :
    (successful : ℕ) (looks : List ℕ) (h : Hold)
    → let u = hold successful looks h in
      (h.peak_disconnects ≤ u.peak_disconnects)
      × All (λ active. successful - active ≤ u.peak_disconnects) looks
      × (u.reconnects_during_hold + u.previous_disconnect_count
          ≡ h.reconnects_during_hold
            + h.previous_disconnect_count
            + rises successful h.previous_disconnect_count looks)
unfolding hold look
hold_lem successful [] h = (omega arith, tt, omega arith)
hold_lem successful (active ∷ rest) h =
    let ih = hold_lem successful rest (look (successful - active) h) in
    (ground (arith, ih.0), (ground (arith, ih.0), ih.1), ground (arith, ih.2))

zero_peak : (looks : List ℕ) → All (λ active. 0 - active ≤ 0) looks
zero_peak [] = tt
zero_peak (active ∷ rest) = (omega arith, zero_peak rest)

-- The peak that a steady-state run reports is at least the number of disconnected clients at every
-- look, and it reports no more reconnects than clients were seen to disconnect.
pub steady_state_bounds :
    (connections ramp_up hold_time final_active : ℕ) (results : List ConnectionResult)
    (looks : List ℕ)
    → let r = run_steady_state connections ramp_up hold_time results looks final_active in
      All (λ active. count is_success results - active ≤ r.peak_disconnects) looks
      × (r.reconnects_during_hold ≤ rises (count is_success results) 0 looks)
unfolding run_steady_state build_result
steady_state_bounds connections ramp_up hold_time final_active results looks =
    elim (Bool-cases (count is_success results == 0)) [
      | inl none_up ↦
          let e : count is_success results ≡ 0 = ground arith in
          rw (none_up, e) (zero_peak looks, omega arith)
      | inr up ↦
          let h = hold_lem (count is_success results) looks no_hold in
          rw up (h.1, omega (arith, h.2))
    ]

-- ===== src/LoadTests/AsyncDelivery.antt =====
-- apps/load-tests/src/scenarios/async-delivery.ts: its counters.
--
-- The sessions are set up and recovered side by side and add to shared counters; they are taken one
-- after another. What setting a session up and recovering it come to are arguments: of a session it
-- matters here only whether there is one.
use Prim.Native.Nat.{max}
use mobile_wallet_protocol.Prelude.{
  ℕ, ◌+◌, ◌*◌, ◌≡◌, refl, Option, none, some, List, [], ◌∷◌, ◌++◌, length, length-append, arith,
}

-- The times in milliseconds; a recovery waits longer where there are many sessions.
abbrev pub recovery_timeout : ℕ → ℕ
recovery_timeout active = max 60000 (active * 20)

pub record Setup (S : Type 0) : Type 0 where
  pub successful : ℕ
  pub failed : ℕ
  pub active : List S

-- `onStart` of one session; `none` is a session that is not there, or an exception.
pub set_up : {S : Type 0} → Option S → Setup S → Setup S
set_up none s = record s { failed = s.failed + 1 }
set_up (some session) s = record s {
  successful = s.successful + 1;
  active = s.active ++ session ∷ [];
}

pub set_up_all : {S : Type 0} → List (Option S) → Setup S → Setup S
set_up_all [] s = s
set_up_all (session ∷ rest) s = set_up_all rest (set_up session s)

pub record Recovery : Type 0 where
  pub received : ℕ
  pub failed : ℕ
  pub latencies : List ℕ

-- The recovery of one session; `none` is a result without a latency, or an exception.
pub recover : Option ℕ → Recovery → Recovery
recover none r = record r { failed = r.failed + 1 }
recover (some latency) r = record r {
  received = r.received + 1;
  latencies = r.latencies ++ latency ∷ [];
}

-- `test` is `testAsyncRecovery`, with its timeout.
pub recover_all : {S : Type 0} → (S → ℕ → Option ℕ) → ℕ → List S → Recovery → Recovery
recover_all test timeout [] r = r
recover_all test timeout (session ∷ rest) r =
    recover_all test timeout rest (recover (test session timeout) r)

pub record AsyncDeliveryResult : Type 0 where
  pub attempted : ℕ
  pub successful : ℕ
  pub failed : ℕ
  pub messages_sent : ℕ
  pub recovery_attempted : ℕ
  pub recovery : Recovery

pub run_async_delivery : {S : Type 0} → (S → ℕ → Option ℕ) → List (Option S) → AsyncDeliveryResult
run_async_delivery test sessions =
    let setup = set_up_all sessions (record { successful = 0; failed = 0; active = [] }) in
    record {
      attempted = length sessions;
      successful = setup.successful;
      failed = setup.failed;
      messages_sent = setup.successful;
      recovery_attempted = length setup.active;
      recovery =
          recover_all test (recovery_timeout (length setup.active)) setup.active
            (record { received = 0; failed = 0; latencies = [] });
    }

set_up_all_lem :
    {S : Type 0} (sessions : List (Option S)) (s : Setup S)
    → length s.active ≡ s.successful
    → let u = set_up_all sessions s in
      (length u.active ≡ u.successful)
      × (u.successful + u.failed ≡ s.successful + s.failed + length sessions)
unfolding set_up_all set_up
set_up_all_lem [] s h = (h, omega arith)
set_up_all_lem (none ∷ rest) s h =
    let ih = set_up_all_lem rest (set_up none s) h in (ih.0, omega (arith, ih.1))
set_up_all_lem (some session ∷ rest) s h =
    let ih =
      set_up_all_lem rest (set_up (some session) s)
        (omega (arith, h, length-append s.active (session ∷ []))) in
    (ih.0, omega (arith, ih.1))

recover_lem :
    (result : Option ℕ) (r : Recovery)
    → length r.latencies ≡ r.received
    → let u = recover result r in
      (length u.latencies ≡ u.received) × (u.received + u.failed ≡ r.received + r.failed + 1)
unfolding recover
recover_lem none r h = (h, omega arith)
recover_lem (some latency) r h =
    (omega (arith, h, length-append r.latencies (latency ∷ [])), omega arith)

recover_all_lem :
    {S : Type 0} (test : S → ℕ → Option ℕ) (timeout : ℕ) (sessions : List S) (r : Recovery)
    → length r.latencies ≡ r.received
    → let u = recover_all test timeout sessions r in
      (length u.latencies ≡ u.received)
      × (u.received + u.failed ≡ r.received + r.failed + length sessions)
unfolding recover_all
recover_all_lem test timeout [] r h = (h, omega arith)
recover_all_lem test timeout (session ∷ rest) r h =
    let one = recover_lem (test session timeout) r h in
    let ih = recover_all_lem test timeout rest (recover (test session timeout) r) one.0 in
    (ih.0, omega (arith, ih.1, one.1))

-- An async-delivery run accounts for everything: each session was set up or failed, a recovery was
-- tried for each one that was set up, and it was received, with its latency, or failed.
pub async_delivery_accounted :
    {S : Type 0} (test : S → ℕ → Option ℕ) (sessions : List (Option S))
    → let r = run_async_delivery test sessions in
      (r.attempted ≡ r.successful + r.failed)
      × (r.recovery_attempted ≡ r.successful)
      × (r.recovery_attempted ≡ r.recovery.received + r.recovery.failed)
      × (length r.recovery.latencies ≡ r.recovery.received)
unfolding run_async_delivery
async_delivery_accounted {S} test sessions =
    let start : Setup S = record { successful = 0; failed = 0; active = [] } in
    let setup = set_up_all sessions start in
    let made = set_up_all_lem sessions start refl in
    let done =
      recover_all_lem test (recovery_timeout (length setup.active)) setup.active
        (record { received = 0; failed = 0; latencies = [] }) refl in
    (omega (arith, made.1), made.0, omega (arith, done.1), done.0)

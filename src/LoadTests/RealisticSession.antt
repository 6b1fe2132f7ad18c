-- ===== src/LoadTests/RealisticSession.antt =====
-- apps/load-tests/src/scenarios/realistic-session.ts: its counters.
--
-- The pairs run side by side and add to shared counters; they are taken one after another. What each
-- pair comes to is an argument.
use Prim.Native.Nat.add
use native.Mathlib.Nat.{add-zero}
use mathlib.Core.Option.{some-injective}
use mobile_wallet_protocol.Prelude.{
  ℕ, zero, suc, ◌+◌, ◌*◌, ◌≡◌, refl, ap, subst, ◌∙◌, Option, none, some, Option-cases, inl, inr,
  Bool, true, false, List, [], ◌∷◌, ◌++◌, length, length-append, arith,
}
use mobile_wallet_protocol.LoadTests.Exchange.{Trip, exchange_message}

-- What `createSessionPair` comes to, with the handshake's time and what then
-- happens in the exchanges of the pair, by their number.
pub data PairOutcome : Type 0 where
  paired : ℕ → (ℕ → Trip) → PairOutcome
  refused breaks : PairOutcome

pub record RealisticSessionResult : Type 0 where
  pub successful_sessions : ℕ
  pub failed_sessions : ℕ
  pub handshake_latencies : List ℕ
  pub messages_sent : ℕ
  pub messages_received : ℕ
  pub messages_failed : ℕ
  pub message_latencies : List ℕ

abbrev pub no_sessions : RealisticSessionResult
no_sessions = record {
  successful_sessions = 0;
  failed_sessions = 0;
  handshake_latencies = [];
  messages_sent = 0;
  messages_received = 0;
  messages_failed = 0;
  message_latencies = [];
}

-- The wallet's delay when none is given.
abbrev pub default_response_delay : ℕ
default_response_delay = 1000

pub count_exchange : Bool → ℕ → RealisticSessionResult → RealisticSessionResult
count_exchange true latency r = record r {
  messages_sent = r.messages_sent + 1;
  messages_received = r.messages_received + 1;
  message_latencies = r.message_latencies ++ latency ∷ [];
}
count_exchange false latency r = record r {
  messages_sent = r.messages_sent + 1;
  messages_failed = r.messages_failed + 1;
}

-- The loop over the messages of a pair, of which some are left, from number `m + 1` on. It is held up
-- by an exchange that never ends: `none`.
pub exchange_messages : (ℕ → Trip) → ℕ → ℕ → RealisticSessionResult → Option RealisticSessionResult
exchange_messages trips zero m r = some r
exchange_messages trips (suc left) m r =
    elim (exchange_message (m + 1) default_response_delay (trips (m + 1))) [
      | none ↦ none
      | some (elapsed, done) ↦
          exchange_messages trips left (m + 1) (count_exchange done.success done.latency_ms r)
    ]

-- `onStart` of one pair. `exchangeMessage` does not throw.
pub run_pair : ℕ → PairOutcome → RealisticSessionResult → Option RealisticSessionResult
run_pair messages (paired handshake trips) r = exchange_messages trips messages 0 (record r {
  successful_sessions = r.successful_sessions + 1;
  handshake_latencies = r.handshake_latencies ++ handshake ∷ [];
})
run_pair messages refused r = some (record r { failed_sessions = r.failed_sessions + 1 })
run_pair messages breaks r = some (record r { failed_sessions = r.failed_sessions + 1 })

-- A run waits for all of its pairs.
pub run_realistic_session :
    ℕ → List PairOutcome → RealisticSessionResult → Option RealisticSessionResult
run_realistic_session messages [] r = some r
run_realistic_session messages (pair ∷ rest) r = elim (run_pair messages pair r) [
  | none ↦ none
  | some u ↦ run_realistic_session messages rest u
]

-- The numbers of sessions that were tried so far, with as many messages for each pair.
pub record IsTallied (tried messages : ℕ) (r : RealisticSessionResult) : Type 0 where
  pub sessions : tried ≡ r.successful_sessions + r.failed_sessions
  pub handshakes : length r.handshake_latencies ≡ r.successful_sessions
  pub sent : r.messages_sent ≡ r.successful_sessions * messages
  pub answered : r.messages_sent ≡ r.messages_received + r.messages_failed
  pub latencies : length r.message_latencies ≡ r.messages_received

count_exchange_lem :
    (ok : Bool) (latency : ℕ) (r : RealisticSessionResult)
    → r.messages_sent ≡ r.messages_received + r.messages_failed
    → length r.message_latencies ≡ r.messages_received
    → let u = count_exchange ok latency r in
      (u.messages_sent ≡ r.messages_sent + 1)
      × (u.messages_sent ≡ u.messages_received + u.messages_failed)
      × (length u.message_latencies ≡ u.messages_received)
      × (u.successful_sessions ≡ r.successful_sessions)
      × (u.failed_sessions ≡ r.failed_sessions)
      × (u.handshake_latencies ≡ r.handshake_latencies)
unfolding count_exchange
count_exchange_lem true latency r a l = (
  refl,
  omega (arith, a),
  omega (arith, l, length-append r.message_latencies (latency ∷ [])),
  refl,
  refl,
  refl,
)
count_exchange_lem false latency r a l = (refl, omega (arith, a), l, refl, refl, refl)

exchange_messages_lem :
    (trips : ℕ → Trip) (left m : ℕ) (r u : RealisticSessionResult)
    → r.messages_sent ≡ r.messages_received + r.messages_failed
    → length r.message_latencies ≡ r.messages_received
    → exchange_messages trips left m r ≡ some u
    → (u.messages_sent ≡ r.messages_sent + left)
      × (u.messages_sent ≡ u.messages_received + u.messages_failed)
      × (length u.message_latencies ≡ u.messages_received)
      × (u.successful_sessions ≡ r.successful_sessions)
      × (u.failed_sessions ≡ r.failed_sessions)
      × (u.handshake_latencies ≡ r.handshake_latencies)
unfolding exchange_messages
exchange_messages_lem trips zero m r u a l e =
    subst
      (λ (v : RealisticSessionResult).
        (v.messages_sent ≡ r.messages_sent + 0)
        × (v.messages_sent ≡ v.messages_received + v.messages_failed)
        × (length v.message_latencies ≡ v.messages_received)
        × (v.successful_sessions ≡ r.successful_sessions)
        × (v.failed_sessions ≡ r.failed_sessions)
        × (v.handshake_latencies ≡ r.handshake_latencies))
      (some-injective _ _ e) (omega arith, a, l, refl, refl, refl)
exchange_messages_lem trips (suc left) m r u a l e =
    elim (Option-cases (exchange_message (m + 1) default_response_delay (trips (m + 1)))) [
      | inl stuck ↦ absurd (ground arith)
      | inr (taken, d) ↦
          let done = taken.1 in
          let one = count_exchange_lem done.success done.latency_ms r a l in
          let rest =
            exchange_messages_lem trips left (m + 1) (count_exchange done.success done.latency_ms r)
              u one.1 one.2 (ground arith) in
          (
            omega (arith, rest.0, one.0),
            rest.1,
            rest.2,
            rest.3 ∙ one.3,
            rest.4 ∙ one.4,
            rest.5 ∙ one.5,
          )
    ]

failed-IsTallied :
    {tried messages : ℕ} {r : RealisticSessionResult}
    → IsTallied tried messages r
    → IsTallied (tried + 1) messages (record r { failed_sessions = r.failed_sessions + 1 })
failed-IsTallied v = record {
  sessions = omega (arith, v.sessions);
  handshakes = v.handshakes;
  sent = v.sent;
  answered = v.answered;
  latencies = v.latencies;
}

run_pair-IsTallied :
    (tried messages : ℕ) (pair : PairOutcome) (r u : RealisticSessionResult)
    → IsTallied tried messages r
    → run_pair messages pair r ≡ some u
    → IsTallied (tried + 1) messages u
unfolding run_pair
run_pair-IsTallied tried messages (paired handshake trips) r u v e =
    let begun : RealisticSessionResult = record r {
      successful_sessions = r.successful_sessions + 1;
      handshake_latencies = r.handshake_latencies ++ handshake ∷ [];
    } in
    let all = exchange_messages_lem trips messages 0 begun u v.answered v.latencies e in
    record {
      sessions = omega (arith, v.sessions, all.3, all.4);
      handshakes =
          ap length all.5
          ∙ omega
              (arith, v.handshakes, all.3, length-append r.handshake_latencies (handshake ∷ []));
      sent = all.0 ∙ (rw all.3 (grind (arith, v.sent)));
      answered = all.1;
      latencies = all.2;
    }
run_pair-IsTallied tried messages refused r u v e =
    subst (IsTallied (tried + 1) messages) (some-injective _ _ e) (failed-IsTallied v)
run_pair-IsTallied tried messages breaks r u v e =
    subst (IsTallied (tried + 1) messages) (some-injective _ _ e) (failed-IsTallied v)

run_realistic-IsTallied :
    (tried messages : ℕ) (pairs : List PairOutcome) (r u : RealisticSessionResult)
    → IsTallied tried messages r
    → run_realistic_session messages pairs r ≡ some u
    → IsTallied (tried + length pairs) messages u
unfolding run_realistic_session
run_realistic-IsTallied tried messages [] r u v e =
    rw add-zero (subst (IsTallied tried messages) (some-injective _ _ e) v)
run_realistic-IsTallied tried messages (pair ∷ rest) r u v e =
    elim (Option-cases (run_pair messages pair r)) [
      | inl stuck ↦ absurd (ground arith)
      | inr (w, d) ↦
          let counted : tried + suc (length rest) ≡ (tried + 1) + length rest = omega arith in
          rw counted (
            run_realistic-IsTallied (tried + 1) messages rest w u
              (run_pair-IsTallied tried messages pair r w v d) (ground arith))
    ]

-- A realistic-session run that ends accounts for everything: each pair was successful or failed, each
-- successful one has its handshake's latency and sent as many messages as it was asked to, each
-- message sent was received or failed, and each one received has its latency.
pub realistic_session-IsTallied :
    (messages : ℕ) (pairs : List PairOutcome) (u : RealisticSessionResult)
    → run_realistic_session messages pairs no_sessions ≡ some u
    → IsTallied (length pairs) messages u
realistic_session-IsTallied messages pairs u e = rw (← add.zero (length pairs)) (
    run_realistic-IsTallied 0 messages pairs no_sessions u
      (record {
        sessions = refl;
        handshakes = refl;
        sent = omega arith;
        answered = refl;
        latencies = refl;
      })
      e)

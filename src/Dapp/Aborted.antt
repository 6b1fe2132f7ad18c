-- ===== src/Dapp/Aborted.antt =====
-- What a dApp's `connect` leaves when it throws.
use mobile_wallet_protocol.Prelude.{
  ◌≡◌, ◌⊎◌, refl, ap, sym, ◌∙◌, Text, codes, text_eq, Bool-cases, Option-cases, inl, inr, true,
  Option, none, some, ◌∷◌, arith,
}
use mobile_wallet_protocol.Domain.{
  Error, disconnected, connecting, Mode, trusted, connection_mode, session_error, request_expired,
  Session, SessionRequest,
}
use mobile_wallet_protocol.Json.{Json}
use mobile_wallet_protocol.Kv.{IkvStore}
use mobile_wallet_protocol.Exec.{Run, returns, throws, waits, handle, continue, throw, throw-state}
use mobile_wallet_protocol.Client.{
  Environment, IKeyManager, Client, is_disconnected, set_state, set_session, emit, emits_error,
  disconnect, emits_session_request, Log, connects, disconnects, clears, subscribes, clock,
  or_throw, ask, ask_,
}
use mobile_wallet_protocol.Client.Sessions.{
  disconnect_clears, disconnect_nothing, disconnect_deletes,
}
use mobile_wallet_protocol.Dapp.Closed.{IsClosed, execute-Keeps}
use mobile_wallet_protocol.Dapp.Failed.{connect_refused}
use mobile_wallet_protocol.Dapp.{
  Peer, mode_or_default, pending_session, session_request, execute, execute_trusted,
  wait_for_trusted_offer, await_offer, abort, begin, connect,
}

module _ (kv : IkvStore) (km : IKeyManager) (env : Environment) (peer : Peer) where
  abort_lem :
      (e : Error) (c : Client kv.Store)
      → IsClosed kv km env peer c
      → ((abort kv km env peer e c).1.state ≡ disconnected)
        × ((abort kv km env peer e c).1.session ≡ none)
  unfolding abort emit
  abort_lem e c h =
      let told : Client kv.Store = record c { log = emits_error e ∷ c.log } in
      rw (throw-state (disconnect kv env told) e) (elim (Option-cases c.session) [
        | inl missing ↦ rw (disconnect_nothing kv km env told missing) (h.closed missing, missing)
        | inr (s, found) ↦
            let cleared = disconnect_clears kv km env told s found in (cleared.1, cleared.0)
      ])

  handle_throws :
      (r : Run (Unit {0}) × Client kv.Store) (u : Client kv.Store) (x : Error)
      → IsClosed kv km env peer r.1
      → handle r (abort kv km env peer) ≡ (throws x, u)
      → (u.state ≡ disconnected) × (u.session ≡ none)
  handle_throws (returns a, w) u x h e = cc
  handle_throws (waits, w) u x h e = cc
  handle_throws (throws y, w) u x h e =
      let after : abort kv km env peer y w ≡ (throws x, u) = e in
      let left = abort_lem y w h in (ground (arith, left.0, after), ground (arith, left.1, after))

  -- A client that waits for the offer, with the session that it has begun.
  abbrev started : Text → Option Json → Client kv.Store → Client kv.Store
  started name payload c = record c {
    session = some (pending_session kv km env peer c);
    state = connecting;
    log = emits_session_request (session_request kv km env peer name payload c) ∷ c.log;
  }

  connect-execute :
      (mode : Option Text) (m : Mode) (payload : Option Json) (c : Client kv.Store)
      → is_disconnected c.state ≡ true
      → connection_mode (mode_or_default kv km env peer mode) ≡ some m
      → let name = mode_or_default kv km env peer mode in
        connect kv km env peer mode payload c
        ≡ handle
            (execute kv km env peer m
              (pending_session kv km env peer c)
              (session_request kv km env peer name payload c)
              (started name payload c))
            (abort kv km env peer)
  unfolding connect begin set_state set_session emit
  connect-execute mode m payload c idle known = rw (idle, known, connect) refl

  -- A dApp's `connect` that throws leaves the client disconnected and without a session, or, where it
  -- was refused before it began, as it was.
  pub connect_aborts :
      (mode : Option Text) (payload : Option Json) (c u : Client kv.Store) (x : Error)
      → connect kv km env peer mode payload c ≡ (throws x, u)
      → ((u.state ≡ disconnected) × (u.session ≡ none)) ⊎ (u ≡ c)
  connect_aborts mode payload c u x e =
      let name = mode_or_default kv km env peer mode in
      elim (Bool-cases (is_disconnected c.state)) [
        | inr busy ↦ inr (
            ap (λ (r : Run (Unit {0}) × Client kv.Store). r.1)
              (sym e ∙ connect_refused kv km env peer mode payload c (inl busy)))
        | inl idle ↦ elim (Option-cases (connection_mode name)) [
          | inl strange ↦ inr (
              ap (λ (r : Run (Unit {0}) × Client kv.Store). r.1)
                (sym e ∙ connect_refused kv km env peer mode payload c (inr strange)))
          | inr (m, known) ↦ inl (
              handle_throws
                (execute kv km env peer m (pending_session kv km env peer c)
                  (session_request kv km env peer name payload c) (started name payload c))
                u x
                ((execute-Keeps kv km env peer m (pending_session kv km env peer c)
                    (session_request kv km env peer name payload c)).keeps
                  (started name payload c) (record { closed = λ none_yet. cc }))
                (sym (connect-execute mode m payload c idle known) ∙ e))
        ]
      ]

  unanswered :
      (s : Session) (request : SessionRequest) (c : Client kv.Store)
      → ((l : Log) → env.answer l ≡ returns true)
      → ((l : Log) → peer.offer l ≡ none)
      → (execute kv km env peer trusted s request c).0 ≡ throws (session_error request_expired)
  unfolding execute execute_trusted wait_for_trusted_offer await_offer clock or_throw ask_ ask
  unanswered s request c answers silent = ground (
    arith,
    answers (connects ∷ c.log),
    answers (subscribes request.channel ∷ connects ∷ c.log),
    silent (subscribes request.channel ∷ connects ∷ c.log),
  )

  then_throws :
      (r : Run (Unit {0}) × Client kv.Store) (e : Error)
      → r.0 ≡ returns tt
      → (continue r (λ _. throw {A = Unit {0}} e)).0 ≡ throws e
  then_throws (returns a, w) e h = refl
  then_throws (throws x, w) e h = cc
  then_throws (waits, w) e h = cc

  abort-throws :
      (e : Error) (c : Client kv.Store)
      → ((l : Log) → env.answer l ≡ returns true)
      → (abort kv km env peer e c).0 ≡ throws e
  unfolding abort emit
  abort-throws e c answers =
      let told : Client kv.Store = record c { log = emits_error e ∷ c.log } in
      then_throws (disconnect kv env told) e (elim (Option-cases c.session) [
        | inl missing ↦ rw (disconnect_nothing kv km env told missing) refl
        | inr (s, found) ↦
            rw
              (disconnect_deletes kv km env told s true true found
                (answers (disconnects ∷ told.log))
                (answers (clears s.channel ∷ disconnects ∷ told.log)))
              refl
      ])

  handle-throws :
      (r : Run (Unit {0}) × Client kv.Store) (e : Error)
      → ((l : Log) → env.answer l ≡ returns true)
      → r.0 ≡ throws e
      → (handle r (abort kv km env peer)).0 ≡ throws e
  handle-throws (returns a, w) e answers h = cc
  handle-throws (waits, w) e answers h = cc
  handle-throws (throws x, w) e answers h = ground (arith, abort-throws x w answers)

  -- `connect` in the trusted mode throws where no offer comes.
  pub connect_unanswered :
      (payload : Option Json) (c : Client kv.Store)
      → is_disconnected c.state ≡ true
      → ((l : Log) → env.answer l ≡ returns true)
      → ((l : Log) → peer.offer l ≡ none)
      → (connect kv km env peer (some (codes "trusted")) payload c).0
        ≡ throws (session_error request_expired)
  unfolding connection_mode text_eq
  connect_unanswered payload c idle answers silent =
      rw (connect-execute (some (codes "trusted")) trusted payload c idle refl) (
        handle-throws
          (execute kv km env peer trusted (pending_session kv km env peer c)
            (session_request kv km env peer (codes "trusted") payload c)
            (started (codes "trusted") payload c))
          (session_error request_expired) answers
          (unanswered (pending_session kv km env peer c)
            (session_request kv km env peer (codes "trusted") payload c)
            (started (codes "trusted") payload c) answers silent))

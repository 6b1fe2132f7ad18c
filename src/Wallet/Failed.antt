-- ===== src/Wallet/Failed.antt =====
-- What a wallet's `connect` leaves when it throws, and its methods while it is not connected.
use mobile_wallet_protocol.Prelude.{
  ◌≡◌, ◌⊎◌, refl, sym, ◌∙◌, Bool-cases, Option-cases, inl, inr, true, false, is_some, ltb, none,
  some, ◌∷◌, arith, if◌then◌else◌,
}
use mobile_wallet_protocol.Domain.{
  Error, disconnected, connecting, session_error, session_invalid_state, request_expired,
  SessionRequest, Mode, connection_mode, message,
}
use mobile_wallet_protocol.Json.{Json}
use mobile_wallet_protocol.Kv.{IkvStore}
use mobile_wallet_protocol.Exec.{Run, returns, throws, waits, handle, continue, throw, throw-state}
use mobile_wallet_protocol.Client.{
  Environment, IKeyManager, Client, is_disconnected, is_connected, set_state, emit, emits_error,
  disconnect,
}
use mobile_wallet_protocol.Client.Sessions.{disconnect_clears}
use mobile_wallet_protocol.Wallet.{
  Peer, create_session, execute, abort, begin, connect, send_response, later, handle_message,
}

module _ (kv : IkvStore) (km : IKeyManager) (env : Environment) (peer : Peer) where
  left :
      (e : Error) (r : Run (Unit {0}) × Client kv.Store)
      → (r.1.state ≡ disconnected) × (r.1.session ≡ none)
      → ((continue r (λ _. throw {A = Unit {0}} e)).1.state ≡ disconnected)
        × ((continue r (λ _. throw {A = Unit {0}} e)).1.session ≡ none)
  left e r h = rw (throw-state r e) h

  abort_lem :
      (e : Error) (c : Client kv.Store)
      → ((abort kv km env peer e c).1.state ≡ disconnected)
        × ((abort kv km env peer e c).1.session ≡ none)
  unfolding abort emit set_state
  abort_lem e c =
      let told : Client kv.Store = record c { log = emits_error e ∷ c.log } in
      left e ((if is_some c.session then disconnect kv env told else set_state disconnected told))
        (elim (Option-cases c.session) [
          | inl missing ↦ (ground arith, ground arith)
          | inr (s, found) ↦ (
            ground (arith, disconnect_clears kv km env told s found),
            ground (arith, disconnect_clears kv km env told s found),
          )
        ])

  -- What `begin` tries.
  abbrev attempt : Mode → SessionRequest → Client kv.Store → Run (Unit {0}) × Client kv.Store
  attempt m request c =
      continue (create_session kv km env peer request (record c { state = connecting }))
        (λ session. execute kv km env peer m session request)

  handle_throws :
      (r : Run (Unit {0}) × Client kv.Store) (u : Client kv.Store) (x : Error)
      → handle r (abort kv km env peer) ≡ (throws x, u)
      → (u.state ≡ disconnected) × (u.session ≡ none)
  handle_throws (returns a, w) u x e = cc
  handle_throws (waits, w) u x e = cc
  handle_throws (throws y, w) u x e =
      let after : abort kv km env peer y w ≡ (throws x, u) = e in
      let h = abort_lem y w in (ground (arith, h.0, after), ground (arith, h.1, after))

  connect-attempt :
      (m : Mode) (request : SessionRequest) (c : Client kv.Store)
      → is_disconnected c.state ≡ true
      → connection_mode request.mode ≡ some m
      → ltb request.expires_at (env.now c.log) ≡ false
      → connect kv km env peer request c ≡ handle (attempt m request c) (abort kv km env peer)
  unfolding connect begin set_state
  connect-attempt m request c idle known early = rw (idle, known, connect, early) refl

  -- A wallet's `connect` that throws leaves the client disconnected and without a session, or, where
  -- it was refused before it began, as it was.
  pub connect-throws :
      (request : SessionRequest) (c u : Client kv.Store) (x : Error)
      → connect kv km env peer request c ≡ (throws x, u)
      → ((u.state ≡ disconnected) × (u.session ≡ none)) ⊎ (u ≡ c)
  unfolding connect begin
  connect-throws request c u x e = elim (Bool-cases (is_disconnected c.state)) [
    | inr busy ↦ inr (ground arith)
    | inl idle ↦ elim (Option-cases (connection_mode request.mode)) [
      | inl unknown ↦ inr (ground arith)
      | inr (m, known) ↦ elim (Bool-cases (ltb request.expires_at (env.now c.log))) [
        | inl late ↦ inr (ground arith)
        | inr early ↦ inl (
            handle_throws (attempt m request c) u x
              (sym (connect-attempt m request c idle known early) ∙ e))
      ]
    ]
  ]

  -- An expired request changes nothing.
  pub connect_expired :
      (m : Mode) (request : SessionRequest) (c : Client kv.Store)
      → is_disconnected c.state ≡ true
      → connection_mode request.mode ≡ some m
      → ltb request.expires_at (env.now c.log) ≡ true
      → connect kv km env peer request c ≡ (throws (session_error request_expired), c)
  unfolding connect
  connect_expired m request c idle known late = rw (idle, known, connect, late) refl

  -- A response to a dApp that is not connected throws and sends nothing.
  send_response_refused :
      (payload : Json) (c : Client kv.Store)
      → is_connected c.state ≡ false
      → send_response kv km env peer payload c ≡ (throws (session_error session_invalid_state), c)
  unfolding send_response
  send_response_refused payload c h = ground arith

  -- The request's first message, if there is one, reaches the wallet's listeners as any other does.
  later_lem :
      (request : SessionRequest) (v : Json) (c : Client kv.Store)
      → request.initial_message ≡ some v
      → later kv km env peer request c ≡ handle_message kv km env peer (message v) c
  unfolding later handle_message
  later_lem request v c e = ground arith

-- ===== src/Client/Sessions.antt =====
-- How a client's session begins and ends: `resume`, `disconnect`, `reconnect` and expiry.
use mobile_wallet_protocol.Prelude.{
  ℕ, ◌≤◌, ◌≢◌, ◌≡◌, sym, ◌∙◌, Text, Bool-cases, Option-cases, inl, inr, Bool, true, false, none,
  some, ◌∷◌, arith, ◌⊎◌,
}
use mobile_wallet_protocol.Domain.{
  Error, ClientState, disconnected, connecting, connected, session_error, session_invalid_state,
  transport_error, transport_reconnect_failed, Session, ProtocolMessage, not_before,
}
use mobile_wallet_protocol.Kv.{IkvStore}
use mobile_wallet_protocol.SessionStore
use mobile_wallet_protocol.SessionStore.View.{view, get-view, view-get}
use mobile_wallet_protocol.Exec.{Run, returns, throws, waits}
use mobile_wallet_protocol.Client.{
  connects, disconnects, subscribes, clears, emits_connected, emits_disconnected, Log, Environment,
  IKeyManager, Client, is_disconnected, is_connecting, reconnects, set_state, set_session, emit,
  or_throw, require, ask, ask_, clock, store_get, disconnect, expired_session, check_session_expiry,
  current_session, send_message, resume_with, abort_resume, resume, reconnect,
}

-- What a `reconnect` comes to, by the transport's answer.
abbrev pub reconnect_result : Run Bool → Run (Unit {0})
reconnect_result (returns b) = returns tt
reconnect_result (throws e) = throws (transport_error transport_reconnect_failed)
reconnect_result waits = waits

abbrev pub reconnect_state : Run Bool → ClientState
reconnect_state (returns b) = connected
reconnect_state (throws e) = disconnected
reconnect_state waits = connecting

module _ (kv : IkvStore) (km : IKeyManager) (env : Environment) where
  -- However the transport answers, a `disconnect` leaves no session in memory, and a client that had
  -- one is disconnected.
  pub disconnect_clears :
      (c : Client kv.Store) (s : Session)
      → c.session ≡ some s
      → ((disconnect kv env c).1.session ≡ none) × ((disconnect kv env c).1.state ≡ disconnected)
  unfolding disconnect
  disconnect_clears c s e = (ground arith, ground arith)

  -- Without a session there is nothing to disconnect.
  pub disconnect_nothing :
      (c : Client kv.Store) → c.session ≡ none → disconnect kv env c ≡ (returns tt, c)
  unfolding disconnect
  disconnect_nothing c e = ground arith

  -- Where the transport's two calls succeed, a `disconnect` of a client with a session returns,
  -- forgets the session, deletes it from the session store, and tells the listeners last.
  pub disconnect_deletes :
      (c : Client kv.Store) (s : Session) (a b : Bool)
      → c.session ≡ some s
      → env.answer (disconnects ∷ c.log) ≡ returns a
      → env.answer (clears s.channel ∷ disconnects ∷ c.log) ≡ returns b
      → disconnect kv env c ≡ (
        returns tt,
        record {
          session = none;
          state = disconnected;
          store = SessionStore.delete kv s.id c.store;
          log = emits_disconnected ∷ clears s.channel ∷ disconnects ∷ c.log;
        },
      )
  unfolding disconnect
  disconnect_deletes c s a b e ea eb = ground arith

  -- A message is never sent in an expired session: `sendMessage` does not return, and leaves the
  -- client as a `disconnect` does, disconnected and without a session.
  pub send_expired :
      (channel : Text) (m : ProtocolMessage) (c : Client kv.Store) (s : Session)
      → c.session ≡ some s
      → not_before s.expires_at (env.now c.log) ≡ false
      → ((send_message kv km env channel m c).1 ≡ (disconnect kv env c).1)
        × ((send_message kv km env channel m c).1.session ≡ none)
        × ((send_message kv km env channel m c).1.state ≡ disconnected)
        × ((send_message kv km env channel m c).0 ≡ returns tt → ⊥)
  unfolding send_message current_session or_throw check_session_expiry expired_session clock
  send_expired channel m c s e stale = (
    ground (arith, disconnect_clears c s e),
    ground (arith, disconnect_clears c s e),
    ground (arith, disconnect_clears c s e),
    λ r. ground arith,
  )

  -- A client that has resumed is connected, in the live session that the store holds under the
  -- identifier, whose key was validated, and has subscribed to that session's channel.
  pub resume-returns :
      (id : Text) (c u : Client kv.Store)
      → resume kv km env id c ≡ (returns tt, u)
      → (s : Session) × (view kv (env.now c.log) c.store id ≡ some s)
        × (km.validate_peer_key s.their_public_key ≡ true)
        × (u.session ≡ some s)
        × (u.state ≡ connected)
        × (u.log ≡ emits_connected ∷ subscribes s.channel ∷ connects ∷ c.log)
  unfolding resume resume_with abort_resume store_get set_state set_session ask_ ask emit require
  resume-returns id c u e = elim (Bool-cases (is_disconnected c.state)) [
    | inr busy ↦ absurd (ground arith)
    | inl idle ↦ elim (Option-cases (SessionStore.get kv (env.now c.log) id c.store).0) [
      | inl missing ↦ absurd (ground arith)
      | inr (s, found) ↦ (
        s,
        sym (get-view kv (env.now c.log) id c.store) ∙ found,
        ground arith,
        ground arith,
        ground arith,
        ground arith,
      )
    ]
  ]

  -- A disconnected client does resume a live stored session whose key is valid, if the transport
  -- connects and subscribes.
  pub resume_live :
      (id : Text) (c : Client kv.Store) (s : Session) (a b : Bool)
      → is_disconnected c.state ≡ true
      → view kv (env.now c.log) c.store id ≡ some s
      → km.validate_peer_key s.their_public_key ≡ true
      → env.answer (connects ∷ c.log) ≡ returns a
      → env.answer (subscribes s.channel ∷ connects ∷ c.log) ≡ returns b
      → (resume kv km env id c).0 ≡ returns tt
  unfolding resume resume_with abort_resume store_get set_state set_session ask_ ask emit require
  resume_live id c s a b idle stored valid ea eb =
      ground (arith, get-view kv (env.now c.log) id c.store)

  -- A `resume` ends where each call of the transport does.
  pub resume-ne-waits :
      (id : Text) (c : Client kv.Store)
      → ((l : Log) → env.answer l ≢ waits)
      → (resume kv km env id c).0 ≢ waits
  unfolding resume resume_with abort_resume store_get set_state set_session ask_ ask emit require
  resume-ne-waits id c ends = λ e.
      elim (Option-cases (SessionStore.get kv (env.now c.log) id c.store).0) [
        | inl missing ↦ ground arith
        | inr (s, found) ↦
            ground (arith, ends (connects ∷ c.log), ends (subscribes s.channel ∷ connects ∷ c.log))
      ]

  -- Whatever it does, the map of live sessions stays.
  pub view-resume :
      (id j : Text) (later : ℕ) (c : Client kv.Store)
      → env.now c.log ≤ later
      → view kv later (resume kv km env id c).1.store j ≡ view kv later c.store j
  unfolding resume resume_with abort_resume store_get set_state set_session ask_ ask emit require
  view-resume id j later c le = ground (arith, view-get kv (env.now c.log) later id j c.store)

  pub resume_busy :
      (id : Text) (c : Client kv.Store)
      → is_disconnected c.state ≡ false
      → resume kv km env id c ≡ (throws (session_error session_invalid_state), c)
  unfolding resume
  resume_busy id c busy = ground arith

  -- A `resume` that throws leaves a client that was disconnected so, without a session, and any
  -- other client untouched.
  pub resume-throws :
      (id : Text) (c u : Client kv.Store) (x : Error)
      → resume kv km env id c ≡ (throws x, u)
      → ((c.state ≡ disconnected) × (u.state ≡ disconnected) × (u.session ≡ none))
        ⊎ ((is_disconnected c.state ≡ false) × (u ≡ c) × (x ≡ session_error session_invalid_state))
  unfolding resume resume_with abort_resume store_get set_state set_session
  resume-throws id c u x e = elim (Bool-cases (is_disconnected c.state)) [
    | inr busy ↦ inr (busy, ground arith, ground arith)
    | inl idle ↦ elim (Option-cases (SessionStore.get kv (env.now c.log) id c.store).0) [
      | inl missing ↦ inl (ground arith, ground arith, ground arith)
      | inr (s, found) ↦ inl (ground arith, ground arith, ground arith)
    ]
  ]

  -- `reconnect` of a client that is not connecting, has a session and a transport that can: the
  -- session and the storage are kept, the client is connected exactly where the transport succeeds,
  -- and it is left connecting where the transport's call never ends.
  pub reconnect_lem :
      (c : Client kv.Store) (s : Session)
      → is_connecting c.state ≡ false
      → c.session ≡ some s
      → env.can_reconnect ≡ true
      → let (r, u) = reconnect kv km env c in
        (u.session ≡ some s)
        × (u.store ≡ c.store)
        × (r ≡ reconnect_result (env.answer (reconnects ∷ c.log)))
        × (u.state ≡ reconnect_state (env.answer (reconnects ∷ c.log)))
  unfolding reconnect set_state ask_ ask emit
  reconnect_lem c s idle e can = (ground arith, ground arith, ground arith, ground arith)

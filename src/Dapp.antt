-- ===== src/Dapp.antt =====
-- packages/dapp-client/src: the dApp's client and its two connection handlers.
--
-- The transport's answers, the clock, the wallet's offer and the user's entries are functions of the
-- history (`Environment`, `Peer`), so each may differ at every step; nothing else calls the client
-- while `connect` runs.
pub mod Otp
pub mod Stages
pub mod Requests
pub mod Connected
pub mod Complete
pub mod Failed
pub mod Closed
pub mod Aborted
pub mod Trusted
use mobile_wallet_protocol.Prelude.{
  ℕ, zero, suc, ◌+◌, ◌*◌, ◌++◌, Text, codes, Bool, true, false, ltb, leb, not, is_some, ◌||◌,
  Option, none, some, List, [], ◌∷◌, if◌then◌else◌,
}
use mobile_wallet_protocol.Domain.{
  Error, ClientState, disconnected, connecting, connected, session_error, session_invalid_state,
  request_expired, otp_max_attempts_reached, otp_entry_timeout, unknown, foreign, Bytes, KeyPair,
  num, Session, SessionRequest, Mode, trusted, untrusted, connection_mode, ProtocolMessage,
  handshake_offer, handshake_ack, message, HandshakeOfferPayload,
}
use mobile_wallet_protocol.Json.{Json, is_truthy}
use mobile_wallet_protocol.Kv.{IkvStore}
use mobile_wallet_protocol.SessionStore.{default_session_ttl}
use mobile_wallet_protocol.Exec.{
  Run, returns, throws, waits, Exec, ◌>>=◌, ◌>>◌, pure, throw, try_catch,
}
use mobile_wallet_protocol.Client.{
  Log, connects, subscribes, clears, emits_connected, emits_error, emits_message,
  emits_session_request, emits_offer, emits_otp_required, Environment, IKeyManager, Client,
  is_connecting, is_connected, is_disconnected, set_state, set_session, emit, or_throw, require,
  ask_, clock, store_set, disconnect, send_message, current_session,
}
use Otp.{Action, Verdict, accepted, max_attempts, cancelled, waiting, otp_loop}

-- 60 seconds each, in milliseconds.
abbrev pub session_request_ttl : ℕ
session_request_ttl = 60 * 1000

abbrev pub handshake_timeout : ℕ
handshake_timeout = 60 * 1000

-- The other ends of a connection: the identifier that `uuid` draws, the wallet's offer (`none` when
-- the wait for it times out), and what the user does with the password's prompt. `base64_to_bytes`
-- is of @metamask/utils; `none` is its exception.
pub record Peer : Type 0 where
  pub uuid : Log → Text
  pub offer : Log → Option HandshakeOfferPayload
  pub user : Log → List Action
  pub base64_to_bytes : Text → Option Bytes
  pub bytes_to_base64 : Bytes → Text

module _ (kv : IkvStore) (km : IKeyManager) (env : Environment) (peer : Peer) where
  abbrev Method : Type 0 → Type 0
  Method A = Exec (Client kv.Store) A

  -- `handleMessage`.
  pub handle_message : ProtocolMessage → Method (Unit {0})
  handle_message (handshake_offer p) c =
      if is_connecting c.state then emit (emits_offer p) c else pure tt c
  handle_message handshake_ack c = pure tt c
  handle_message (message v) c =
      if is_connected c.state then emit (emits_message v) c else pure tt c

  -- `sendRequest`.
  pub send_request : Json → Method (Unit {0})
  send_request payload c =
      if not (is_connected c.state)
      then throw (session_error session_invalid_state) c
      else (do
        session ← current_session kv env (session_error session_invalid_state)
        send_message kv km env session.channel (message payload))
          c

  -- `_createPendingSessionAndRequest`.
  unfoldable pub initial_message : Option Json → Option Json
  initial_message none = none
  initial_message (some payload) = if is_truthy payload then some payload else none

  unfoldable pub pending_session : Client kv.Store → Session
  pending_session c = record {
    id = peer.uuid c.log;
    channel = [];
    key_pair = km.generate_key_pair c.log;
    their_public_key = [];
    expires_at = num (env.now c.log + default_session_ttl);
  }

  unfoldable pub session_request : Text → Option Json → Client kv.Store → SessionRequest
  unfolding initial_message
  session_request mode payload c = record {
    id = peer.uuid c.log;
    mode = mode;
    channel = codes "handshake:" ++ peer.uuid c.log;
    public_key_b64 = peer.bytes_to_base64 (km.generate_key_pair c.log).public_key;
    expires_at = env.now c.log + session_request_ttl;
    initial_message = initial_message payload;
  }

  -- The wait itself: the offer, or the timeout's error.
  await_offer : Method HandshakeOfferPayload
  await_offer c = or_throw (peer.offer c.log) (session_error request_expired) c

  -- `_waitForHandshakeOffer` of each handler.
  pub wait_for_trusted_offer : ℕ → Method HandshakeOfferPayload
  unfolding await_offer
  wait_for_trusted_offer expiry = do
    now ← clock env
    if ltb expiry now then throw (session_error request_expired) else await_offer

  pub wait_for_untrusted_offer : ℕ → Method HandshakeOfferPayload
  unfolding await_offer
  wait_for_untrusted_offer expiry = do
    now ← clock env
    if leb expiry now then throw (session_error request_expired) else await_offer

  -- The promise of `_handleOtpInput`.
  settle : Verdict → Method (Unit {0})
  settle accepted = pure tt
  settle max_attempts = throw (session_error otp_max_attempts_reached)
  settle cancelled = throw (foreign 2)
  settle waiting = λ c. (waits, c)

  -- `!offer.deadline`, `!offer.otp`: 0 and the empty string are missing too.
  abbrev pub given_deadline : Option ℕ → Option ℕ
  given_deadline none = none
  given_deadline (some zero) = none
  given_deadline (some (suc n)) = some (suc n)

  abbrev pub given_otp : Option Text → Option Text
  given_otp none = none
  given_otp (some []) = none
  given_otp (some (c ∷ t)) = some (c ∷ t)

  pub handle_otp_input : HandshakeOfferPayload → Method (Unit {0})
  unfolding settle
  handle_otp_input offer = do
    deadline ← or_throw (given_deadline offer.deadline) (session_error unknown)
    expected ← or_throw (given_otp offer.otp) (session_error unknown)
    now ← clock env
    if ltb deadline now then throw (session_error otp_entry_timeout) else do
      emit (emits_otp_required deadline)
      λ c. settle (otp_loop expected 0 (peer.user c.log)) c

  -- `_createFinalSession`, the same in both handlers.
  pub create_final_session : Session → HandshakeOfferPayload → Method Session
  create_final_session session offer = do
    key ← or_throw (peer.base64_to_bytes offer.public_key_b64) (foreign 3)
    require (km.validate_peer_key key) (foreign 1)
    pure (record session { channel = codes "session:" ++ offer.channel_id; their_public_key = key })

  pub create_trusted_session : Session → HandshakeOfferPayload → Method Session
  unfolding create_final_session
  create_trusted_session session offer = create_final_session session offer

  -- `_finalizeConnection` of each handler.
  pub finalize_trusted : Session → Text → Method (Unit {0})
  finalize_trusted session channel = do
    current ← current_session kv env (session_error session_invalid_state)
    store_set kv env current
    ask_ env (subscribes session.channel)
    ask_ env (clears channel)
    set_state connected
    emit emits_connected

  pub finalize_untrusted : Text → Method (Unit {0})
  finalize_untrusted channel = do
    current ← current_session kv env (session_error session_invalid_state)
    store_set kv env current
    ask_ env (clears channel)
    set_state connected
    emit emits_connected

  -- `_acknowledgeHandshake`.
  pub acknowledge : Session → Method (Unit {0})
  acknowledge session = do
    ask_ env (subscribes session.channel)
    send_message kv km env session.channel handshake_ack

  -- `execute` of each handler.
  pub execute_trusted : Session → SessionRequest → Method (Unit {0})
  unfolding create_trusted_session finalize_trusted
  execute_trusted session request = do
    ask_ env connects
    ask_ env (subscribes request.channel)
    offer ← wait_for_trusted_offer request.expires_at
    final ← create_trusted_session session offer
    set_session (some final)
    finalize_trusted final request.channel

  pub execute_untrusted : Session → SessionRequest → Method (Unit {0})
  unfolding finalize_untrusted acknowledge
  execute_untrusted session request = do
    ask_ env connects
    ask_ env (subscribes request.channel)
    offer ← wait_for_untrusted_offer request.expires_at
    handle_otp_input offer
    final ← create_final_session session offer
    set_session (some final)
    acknowledge final
    finalize_untrusted request.channel

  -- The handler that `connect` chooses.
  pub execute : Mode → Session → SessionRequest → Method (Unit {0})
  execute trusted = execute_trusted
  execute untrusted = execute_untrusted

  abort : Error → Method (Unit {0})
  abort e = do emit (emits_error e); disconnect kv env; throw e

  -- `connect` once the mode is known.
  begin : Mode → Text → Option Json → Method (Unit {0})
  unfolding abort
  begin mode name payload c =
      let session = pending_session c in
      let request = session_request name payload c in
      (do
        set_state connecting
        set_session (some session)
        emit (emits_session_request request)
        try_catch (execute mode session request) abort)
        c

  -- The mode when none is given.
  abbrev mode_or_default : Option Text → Text
  mode_or_default none = codes "untrusted"
  mode_or_default (some mode) = mode

  pub connect : Option Text → Option Json → Method (Unit {0})
  unfolding begin
  connect mode payload c =
      if not (is_disconnected c.state)
      then throw (session_error session_invalid_state) c
      else elim (connection_mode (mode_or_default mode)) [
        | none ↦ throw (session_error session_invalid_state) c
        | some m ↦ begin m (mode_or_default mode) payload c
      ]

-- ===== src/Wallet.antt =====
-- packages/wallet-client/src: the wallet's client and its two connection handlers.
--
-- The transport's answers, the clock, the random number and the dApp's acknowledgement are functions
-- of the history (`Environment`, `Peer`); nothing else calls the client while `connect` runs. The
-- initial message is handled after `connect`, by `setTimeout`: `later` is what is left to run.
pub mod Otp
pub mod Connected
pub mod Complete
pub mod Failed
pub mod Created
pub mod Responses
use mobile_wallet_protocol.Prelude.{
  ℕ, ◌+◌, ◌*◌, ◌%◌, ◌++◌, Text, codes, Bool, true, false, ltb, leb, not, is_some, Option, none,
  some, List, [], ◌∷◌, if◌then◌else◌, ◌==◌,
}
use mobile_wallet_protocol.Domain.{
  Error, ClientState, disconnected, connecting, connected, session_error, session_invalid_state,
  request_expired, foreign, Bytes, KeyPair, num, Session, SessionRequest, Mode, trusted, untrusted,
  connection_mode, ProtocolMessage, handshake_offer, handshake_ack, message, HandshakeOfferPayload,
}
use mobile_wallet_protocol.Json.{Json}
use mobile_wallet_protocol.Kv.{IkvStore}
use mobile_wallet_protocol.SessionStore.{default_session_ttl}
use mobile_wallet_protocol.Exec.{
  Run, returns, throws, waits, Exec, ◌>>=◌, ◌>>◌, pure, throw, try_catch,
}
use mobile_wallet_protocol.Client.{
  Log, connects, subscribes, clears, emits_connected, emits_error, emits_message, emits_ack,
  emits_display_otp, Environment, IKeyManager, Client, is_connected, is_disconnected, set_state,
  set_session, emit, or_throw, require, ask_, clock, store_set, disconnect, send_message,
  current_session,
}
use Otp.{otp_of}

abbrev pub otp_timeout : ℕ
otp_timeout = 60 * 1000

-- The other ends of a connection: the channel's `uuid`, the random 32-bit number, whether the dApp's
-- acknowledgement comes before the timeout, and @metamask/utils (`none` is an exception).
pub record Peer : Type 0 where
  pub uuid : Log → Text
  pub random : Log → ℕ
  pub ack : Log → Bool
  pub base64_to_bytes : Text → Option Bytes
  pub bytes_to_base64 : Bytes → Text

-- What follows a prefix, in a text that begins with it.
rest_after : Text → Text → Option Text
rest_after [] t = some t
rest_after (p ∷ ps) [] = none
rest_after (p ∷ ps) (c ∷ t) = let rest = rest_after ps t in if p == c then rest else none

-- `text.replace(pattern, "")`: without the first occurrence of a pattern that is not empty, wherever
-- it stands, and unchanged where there is none.
without_first : Text → Text → Text
unfolding rest_after
without_first pattern [] = []
without_first pattern (c ∷ t) =
    let later = without_first pattern t in
    elim (rest_after pattern (c ∷ t)) [ none ↦ c ∷ later | some rest ↦ rest ]

module _ (kv : IkvStore) (km : IKeyManager) (env : Environment) (peer : Peer) where
  abbrev Method : Type 0 → Type 0
  Method A = Exec (Client kv.Store) A

  -- `handleMessage`.
  pub handle_message : ProtocolMessage → Method (Unit {0})
  handle_message (handshake_offer p) c = pure tt c
  handle_message handshake_ack c = emit emits_ack c
  handle_message (message v) c = emit (emits_message v) c

  -- `sendResponse`.
  pub send_response : Json → Method (Unit {0})
  send_response payload c =
      if not (is_connected c.state)
      then throw (session_error session_invalid_state) c
      else (do
        session ← current_session kv env (session_error session_invalid_state)
        send_message kv km env session.channel (message payload))
          c

  -- `_createSession`.
  pub create_session : SessionRequest → Method Session
  create_session request = do
    key ← or_throw (peer.base64_to_bytes request.public_key_b64) (foreign 3)
    require (km.validate_peer_key key) (foreign 1)
    λ c.
        pure
          (record {
            id = request.id;
            channel = codes "session:" ++ peer.uuid c.log;
            key_pair = km.generate_key_pair c.log;
            their_public_key = key;
            expires_at = num (env.now c.log + default_session_ttl);
          })
          c

  -- The payload of `_sendHandshakeOffer` of each handler.
  unfoldable pub offer_payload : Session → Option Text → Option ℕ → HandshakeOfferPayload
  unfolding without_first rest_after
  offer_payload session otp deadline = record {
    public_key_b64 = peer.bytes_to_base64 session.key_pair.public_key;
    channel_id = without_first (codes "session:") session.channel;
    otp = otp;
    deadline = deadline;
  }

  pub send_handshake_offer : Text → Option Text → Option ℕ → Method (Unit {0})
  send_handshake_offer channel otp deadline = do
    session ← current_session kv env (session_error session_invalid_state)
    send_message kv km env channel (handshake_offer (offer_payload session otp deadline))

  -- `_sendHandshakeOffer` of the trusted handler.
  pub send_trusted_offer : Text → Method (Unit {0})
  send_trusted_offer channel = send_handshake_offer channel none none

  -- `_waitForHandshakeAck`.
  pub wait_for_ack : ℕ → Method (Unit {0})
  wait_for_ack deadline = do
    now ← clock env
    if leb deadline now then throw (session_error request_expired) else λ c.
        require (peer.ack c.log) (session_error request_expired) c

  -- `_finalizeConnection`, the same in both handlers.
  pub finalize : Text → Method (Unit {0})
  finalize channel = do
    session ← current_session kv env (session_error session_invalid_state)
    store_set kv env session
    ask_ env (clears channel)
    set_state connected
    emit emits_connected

  -- `execute` of each handler, but for its last line (`later`).
  pub execute_trusted : Session → SessionRequest → Method (Unit {0})
  execute_trusted session request = do
    set_session (some session)
    ask_ env connects
    ask_ env (subscribes request.channel)
    ask_ env (subscribes session.channel)
    send_trusted_offer request.channel
    finalize request.channel

  pub execute_untrusted : Session → SessionRequest → Method (Unit {0})
  execute_untrusted session request = do
    ask_ env connects
    ask_ env (subscribes request.channel)
    ask_ env (subscribes session.channel)
    set_session (some session)
    now ← clock env
    otp ← λ c. pure (otp_of (peer.random c.log)) c
    emit (emits_display_otp otp (now + otp_timeout))
    send_handshake_offer request.channel (some otp) (some (now + otp_timeout))
    wait_for_ack (now + otp_timeout)
    finalize request.channel

  -- The handler that `connect` chooses.
  execute : Mode → Session → SessionRequest → Method (Unit {0})
  execute trusted = execute_trusted
  execute untrusted = execute_untrusted

  -- `_processInitialMessage`: what `setTimeout` runs once `execute` is done.
  pub later : SessionRequest → Method (Unit {0})
  later request = elim request.initial_message [
    | none ↦ pure tt
    | some v ↦ handle_message (message v)
  ]

  abort : Error → Method (Unit {0})
  abort e = do
    emit (emits_error e)
    λ c. if is_some c.session then disconnect kv env c else set_state disconnected c
    throw e

  begin : Mode → SessionRequest → Method (Unit {0})
  unfolding abort
  begin mode request = do
    set_state connecting
    try_catch (do session ← create_session request; execute mode session request) abort

  pub connect : SessionRequest → Method (Unit {0})
  unfolding begin
  connect request c =
      if not (is_disconnected c.state)
      then throw (session_error session_invalid_state) c
      else elim (connection_mode request.mode) [
        | none ↦ throw (session_error session_invalid_state) c
        | some m ↦
            if ltb request.expires_at (env.now c.log)
            then throw (session_error request_expired) c
            else begin m request c
      ]

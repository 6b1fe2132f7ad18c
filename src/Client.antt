-- ===== src/Client.antt =====
-- packages/core/src/base-client.ts: the client that the dApp's and the wallet's extend.
--
-- A method runs to its end with no other call in between. What the client asks of the transport,
-- and the events that it emits, are entries of `log`, newest first; the transport's answers and the
-- clock are functions of that history, so that they may differ at every step.
pub mod Codec
pub mod Sending
pub mod Sessions
pub mod Steps
use mobile_wallet_protocol.Prelude.{
  ℕ, Text, Bool, true, false, Option, none, some, List, [], ◌∷◌, is_some, not, ◌||◌, if◌then◌else◌,
}
use mobile_wallet_protocol.Domain.{
  Error, Result, ok, err, ClientState, disconnected, connecting, connected, session_error,
  transport_error, crypto_error, session_expired, session_not_found, session_invalid_state,
  transport_disconnected, transport_reconnect_failed, decryption_failed, foreign, Bytes, KeyPair,
  Session, ProtocolMessage, HandshakeOfferPayload, SessionRequest, not_before,
}
use mobile_wallet_protocol.Json.{Json, Str, stringify, parse}
use mobile_wallet_protocol.Kv.{IkvStore}
use mobile_wallet_protocol.SessionStore
use mobile_wallet_protocol.Exec.{
  Run, returns, throws, waits, Exec, ◌>>=◌, ◌>>◌, pure, throw, gets, of_result, try_catch, when,
}
use Codec.{encode_protocol, decode_protocol}

-- A call of the transport, or an event for the client's listeners.
pub data Entry : Type 0 where
  connects disconnects reconnects : Entry
  subscribes clears : Text → Entry
  publishes : Text → Text → Entry
  emits_connected emits_disconnected : Entry
  emits_error : Error → Entry
  emits_message : Json → Entry
  emits_session_request : SessionRequest → Entry
  emits_offer : HandshakeOfferPayload → Entry
  emits_ack : Entry
  emits_otp_required : ℕ → Entry
  emits_display_otp : Text → ℕ → Entry

abbrev pub Log : Type 0
Log = List Entry

-- The transport and the clock: the answer to the call that heads the history, and the time then. A
-- call may return, throw, or stay pending for ever (`waits`), as `connect` does while the relay
-- cannot be reached.
pub record Environment : Type 0 where
  pub answer : Log → Run Bool
  pub now : Log → ℕ
  pub can_reconnect : Bool

-- packages/core/src/domain/key-manager.ts. `none` is an exception.
pub record IKeyManager : Type 0 where
  pub generate_key_pair : Log → KeyPair
  pub encrypt : Str → Bytes → Option Text
  pub decrypt : Text → Bytes → Option Str
  pub validate_peer_key : Bytes → Bool

-- The fields of the client, with the storage that its session store writes.
pub record Client (Store : Type 0) : Type 0 where
  pub session : Option Session
  pub state : ClientState
  pub store : Store
  pub log : Log

abbrev pub is_connected : ClientState → Bool
is_connected connected = true
is_connected connecting = false
is_connected disconnected = false

abbrev pub is_connecting : ClientState → Bool
is_connecting connecting = true
is_connecting connected = false
is_connecting disconnected = false

abbrev pub is_disconnected : ClientState → Bool
is_disconnected disconnected = true
is_disconnected connecting = false
is_disconnected connected = false

module _ {Store : Type 0} where
  unfoldable pub set_state : ClientState → Exec (Client Store) (Unit {0})
  set_state state c = (returns tt, record c { state = state })

  unfoldable pub set_session : Option Session → Exec (Client Store) (Unit {0})
  set_session session c = (returns tt, record c { session = session })

  unfoldable pub emit : Entry → Exec (Client Store) (Unit {0})
  emit event c = (returns tt, record c { log = event ∷ c.log })

  unfoldable pub or_throw : {A : Type 0} → Option A → Error → Exec (Client Store) A
  or_throw none e = throw e
  or_throw (some a) e = pure a

  unfoldable pub require : Bool → Error → Exec (Client Store) (Unit {0})
  require true e = pure tt
  require false e = throw e

  module _ (env : Environment) where
    -- A call of the transport, with its answer.
    unfoldable pub ask : Entry → Exec (Client Store) Bool
    ask entry c = let log = entry ∷ c.log in (env.answer log, record c { log = log })

    unfoldable pub ask_ : Entry → Exec (Client Store) (Unit {0})
    ask_ entry = do ask entry; pure tt

    unfoldable pub clock : Exec (Client Store) ℕ
    clock = gets (λ c. env.now c.log)

module _ (kv : IkvStore) (env : Environment) where
  abbrev Method : Type 0 → Type 0
  Method A = Exec (Client kv.Store) A

  -- The calls of the session store.
  unfoldable pub store_get : Text → Method (Option Session)
  store_get id c =
      let (found, store) = SessionStore.get kv (env.now c.log) id c.store in
      (returns found, record c { store = store })

  unfoldable pub store_set : Session → Method (Unit {0})
  store_set s c =
      let (r, store) = SessionStore.set kv (env.now c.log) s c.store in
      (of_result r, record c { store = store })

  unfoldable pub store_delete : Text → Method (Unit {0})
  store_delete id c = (returns tt, record c { store = SessionStore.delete kv id c.store })

  disconnect_session : Option Session → Method (Unit {0})
  disconnect_session none = pure tt
  disconnect_session (some session) = do
    set_session none
    set_state disconnected
    ask_ env disconnects
    ask_ env (clears session.channel)
    store_delete session.id
    emit emits_disconnected

  pub disconnect : Method (Unit {0})
  unfolding disconnect_session set_session set_state ask_ ask store_delete emit
  disconnect c = disconnect_session c.session c

  unfoldable pub expired_session : Option Session → Method Bool
  expired_session none = pure false
  expired_session (some session) = do
    now ← clock env
    if not_before session.expires_at now then pure false else do disconnect; pure true

  unfoldable pub check_session_expiry : Method Bool
  unfolding expired_session clock
  check_session_expiry c = expired_session c.session c

  -- `this.session` where the code has just seen that it is there.
  unfoldable pub current_session : Error → Method Session
  unfolding or_throw
  current_session e c = or_throw c.session e c

module _ (kv : IkvStore) (km : IKeyManager) (env : Environment) where
  -- `sendMessage`.
  unfoldable pub send_message : Text → ProtocolMessage → Exec (Client kv.Store) (Unit {0})
  unfolding current_session require
  send_message channel m = do
    session ← current_session kv env (session_error session_invalid_state)
    expired ← check_session_expiry kv env
    if expired then throw (session_error session_expired) else do
      encrypted ←
          or_throw (km.encrypt (stringify (encode_protocol m)) session.their_public_key) (foreign 0)
      sent ← ask env (publishes channel encrypted)
      require sent (transport_error transport_disconnected)

  resume_with : Option Session → Exec (Client kv.Store) (Unit {0})
  resume_with none = throw (session_error session_not_found)
  resume_with (some session) = do
    require (km.validate_peer_key session.their_public_key) (foreign 1)
    set_session (some session)
    ask_ env connects
    ask_ env (subscribes session.channel)
    set_state connected
    emit emits_connected

  abort_resume : Error → Exec (Client kv.Store) (Unit {0})
  abort_resume e = do set_state disconnected; set_session none; throw e

  pub resume : Text → Exec (Client kv.Store) (Unit {0})
  unfolding resume_with abort_resume
  resume id c =
      if is_disconnected c.state
      then (do
        set_state connecting
        try_catch (do found ← store_get kv env id; resume_with found) abort_resume)
          c
      else throw (session_error session_invalid_state) c

  -- `reconnect`, of a client with a session that is not connecting.
  pub reconnect : Exec (Client kv.Store) (Unit {0})
  reconnect c =
      if is_connecting c.state || (not (is_some c.session) || not env.can_reconnect)
      then pure tt c
      else try_catch
          (do set_state connecting; ask_ env reconnects; set_state connected; emit emits_connected)
          (λ e. do set_state disconnected; throw (transport_error transport_reconnect_failed)) c

  -- `decryptMessage`: a failure is an event, and so is JSON that does not parse.
  decrypt_with : Option Session → Text → Exec (Client kv.Store) (Option Json)
  decrypt_with none encrypted = pure none
  decrypt_with (some session) encrypted = elim (km.decrypt encrypted session.key_pair.private_key) [
    | none ↦ do emit (emits_error (crypto_error decryption_failed)); pure none
    | some plain ↦ elim (parse plain) [
      | none ↦ do emit (emits_error (crypto_error decryption_failed)); pure none
      | some v ↦ pure (some v)
    ]
  ]

  pub decrypt_message : Text → Exec (Client kv.Store) (Option Json)
  unfolding decrypt_with
  decrypt_message encrypted c = decrypt_with c.session encrypted c

  -- The rest of the listener of the transport's messages, over the subclass's `handleMessage`.
  dispatch :
      (ProtocolMessage → Exec (Client kv.Store) (Unit {0}))
      → Option Json
      → Exec (Client kv.Store) (Unit {0})
  dispatch handle_message none = pure tt
  dispatch handle_message (some v) = elim (decode_protocol v) [
    | none ↦ pure tt
    | some m ↦ handle_message m
  ]

  receive :
      (ProtocolMessage → Exec (Client kv.Store) (Unit {0}))
      → Text
      → Exec (Client kv.Store) (Unit {0})
  unfolding dispatch
  receive handle_message encrypted = do
    expired ← check_session_expiry kv env
    if expired
        then emit (emits_error (session_error session_expired))
        else do v ← decrypt_message encrypted; dispatch handle_message v

  pub on_message :
      (ProtocolMessage → Exec (Client kv.Store) (Unit {0}))
      → Text
      → Exec (Client kv.Store) (Unit {0})
  unfolding receive
  on_message handle_message encrypted c =
      if is_some c.session then receive handle_message encrypted c else pure tt c

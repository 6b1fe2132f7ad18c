-- ===== src/Dapp/Closed.antt =====
-- A dApp's client without a session is disconnected, whatever its connection handlers do.
use mobile_wallet_protocol.Prelude.{
  ◌≡◌, Text, Bool, Option-cases, inl, inr, true, false, Option, none, some, ◌∷◌, arith, ℕ, ltb,
  if◌then◌else◌,
}
use mobile_wallet_protocol.Domain.{
  Error, Session, SessionRequest, disconnected, session_error, otp_entry_timeout, unknown,
  handshake_ack, ProtocolMessage, Mode, trusted, untrusted, HandshakeOfferPayload,
}
use mobile_wallet_protocol.Kv.{IkvStore}
use mobile_wallet_protocol.Exec.{Run, Exec, returns, throws, waits, continue, throw, ◌>>=◌, ◌>>◌}
use mobile_wallet_protocol.Client.{
  Environment, IKeyManager, Client, set_state, set_session, emit, ask_, store_set, send_message,
  current_session, or_throw, require, clock, Entry, ask, emits_otp_required, connects, subscribes,
  check_session_expiry, expired_session,
}
use mobile_wallet_protocol.Client.Sessions.{disconnect_clears}
use mobile_wallet_protocol.Dapp.Otp.{Verdict, accepted, max_attempts, cancelled, waiting, otp_loop}
use mobile_wallet_protocol.Dapp.{
  Peer, given_deadline, given_otp, await_offer, wait_for_trusted_offer, wait_for_untrusted_offer,
  settle, handle_otp_input, create_final_session, create_trusted_session, finalize_trusted,
  finalize_untrusted, acknowledge, execute_trusted, execute_untrusted, execute,
}

module _ (kv : IkvStore) (km : IKeyManager) (env : Environment) (peer : Peer) where
  -- Without a session the client is disconnected.
  pub record IsClosed (c : Client kv.Store) : Type 0 where
    pub closed : c.session ≡ none → c.state ≡ disconnected

  pub record Keeps {A : Type 0} (m : Exec (Client kv.Store) A) : Type 0 where
    pub keeps : (c : Client kv.Store) → IsClosed c → IsClosed (m c).1

  continue-IsClosed :
      {A B : Type 0} (r : Run A × Client kv.Store) (f : A → Exec (Client kv.Store) B)
      → IsClosed r.1
      → ((a : A) → Keeps (f a))
      → IsClosed (continue r f).1
  continue-IsClosed (returns a, w) f h k = (k a).keeps w h
  continue-IsClosed (throws e, w) f h k = h
  continue-IsClosed (waits, w) f h k = h

  bind-Keeps :
      {A B : Type 0} {m : Exec (Client kv.Store) A} {f : A → Exec (Client kv.Store) B}
      → Keeps m
      → ((a : A) → Keeps (f a))
      → Keeps (m >>= f)
  bind-Keeps {m} {f} k l = record { keeps = λ c h. continue-IsClosed (m c) f (k.keeps c h) l }

  if-Keeps :
      {A : Type 0} {m n : Exec (Client kv.Store) A} (b : Bool)
      → Keeps m
      → Keeps n
      → Keeps (if b then m else n)
  if-Keeps true k l = k
  if-Keeps false k l = l

  ask-Keeps : (entry : Entry) → Keeps (ask_ env entry)
  unfolding ask_ ask
  ask-Keeps entry = record { keeps = λ c h. record { closed = ground (arith, h.closed) } }

  wait_trusted-Keeps : (expiry : ℕ) → Keeps (wait_for_trusted_offer kv km env peer expiry)
  unfolding wait_for_trusted_offer await_offer clock or_throw
  wait_trusted-Keeps expiry = record { keeps = λ c h. record { closed = ground (arith, h.closed) } }

  wait_untrusted-Keeps : (expiry : ℕ) → Keeps (wait_for_untrusted_offer kv km env peer expiry)
  unfolding wait_for_untrusted_offer await_offer clock or_throw
  wait_untrusted-Keeps expiry = record {
    keeps = λ c h. record { closed = ground (arith, h.closed) };
  }

  final-Keeps :
      (s : Session) (offer : HandshakeOfferPayload)
      → Keeps (create_final_session kv km env peer s offer)
  unfolding create_final_session or_throw require
  final-Keeps s offer = record { keeps = λ c h. record { closed = ground (arith, h.closed) } }

  or_throw-Keeps : {A : Type 0} (o : Option A) (e : Error) → Keeps (or_throw {Store = kv.Store} o e)
  unfolding or_throw
  or_throw-Keeps none e = record { keeps = λ c h. h }
  or_throw-Keeps (some a) e = record { keeps = λ c h. h }

  settle-Keeps : (v : Verdict) → Keeps (settle kv km env peer v)
  unfolding settle
  settle-Keeps accepted = record { keeps = λ c h. h }
  settle-Keeps max_attempts = record { keeps = λ c h. h }
  settle-Keeps cancelled = record { keeps = λ c h. h }
  settle-Keeps waiting = record { keeps = λ c h. h }

  clock-Keeps : Keeps (clock {Store = kv.Store} env)
  unfolding clock
  clock-Keeps = record { keeps = λ c h. h }

  throw-Keeps : {A : Type 0} (e : Error) → Keeps (throw {W = Client kv.Store} {A = A} e)
  throw-Keeps e = record { keeps = λ c h. h }

  prompt-Keeps :
      (deadline : ℕ) (expected : Text)
      → Keeps (do
        emit (emits_otp_required deadline)
        λ (c : Client kv.Store). settle kv km env peer (otp_loop expected 0 (peer.user c.log)) c)
  unfolding emit
  prompt-Keeps deadline expected = record {
    keeps = λ c h.
        (settle-Keeps (otp_loop expected 0 (peer.user (emits_otp_required deadline ∷ c.log)))).keeps
          (record c { log = emits_otp_required deadline ∷ c.log }) (record { closed = h.closed });
  }

  otp-Keeps : (offer : HandshakeOfferPayload) → Keeps (handle_otp_input kv km env peer offer)
  unfolding handle_otp_input
  otp-Keeps offer =
      bind-Keeps
        (or_throw-Keeps (given_deadline kv km env peer offer.deadline) (session_error unknown))
        (λ deadline.
          bind-Keeps (or_throw-Keeps (given_otp kv km env peer offer.otp) (session_error unknown))
            (λ expected. bind-Keeps clock-Keeps (λ now.
              if-Keeps (ltb deadline now) (throw-Keeps (session_error otp_entry_timeout))
                (prompt-Keeps deadline expected))))

  finalize_trusted-Keeps :
      (s : Session) (channel : Text) → Keeps (finalize_trusted kv km env peer s channel)
  unfolding finalize_trusted current_session or_throw store_set ask_ ask set_state emit
  finalize_trusted-Keeps s channel = record {
    keeps = λ c h. record { closed = ground (arith, h.closed) };
  }

  finalize_untrusted-Keeps : (channel : Text) → Keeps (finalize_untrusted kv km env peer channel)
  unfolding finalize_untrusted current_session or_throw store_set ask_ ask set_state emit
  finalize_untrusted-Keeps channel = record {
    keeps = λ c h. record { closed = ground (arith, h.closed) };
  }

  -- A session that is found to have expired is closed properly.
  send-Keeps : (channel : Text) (m : ProtocolMessage) → Keeps (send_message kv km env channel m)
  unfolding send_message check_session_expiry expired_session current_session or_throw require ask
      clock
  send-Keeps channel m = record {
    keeps = λ c h. elim (Option-cases c.session) [
      | inl missing ↦ record { closed = ground (arith, h.closed) }
      | inr (s, found) ↦ record { closed = ground (arith, disconnect_clears kv km env c s found) }
    ];
  }

  acknowledge-Keeps : (s : Session) → Keeps (acknowledge kv km env peer s)
  unfolding acknowledge
  acknowledge-Keeps s =
      bind-Keeps (ask-Keeps (subscribes s.channel)) (λ _. send-Keeps s.channel handshake_ack)

  set_session-Keeps : (s : Session) → Keeps (set_session {Store = kv.Store} (some s))
  unfolding set_session
  set_session-Keeps s = record { keeps = λ c h. record { closed = cc } }

  trusted-Keeps :
      (s : Session) (request : SessionRequest) → Keeps (execute_trusted kv km env peer s request)
  unfolding execute_trusted create_trusted_session
  trusted-Keeps s request = bind-Keeps (ask-Keeps connects) (λ _.
      bind-Keeps (ask-Keeps (subscribes request.channel)) (λ _.
        bind-Keeps (wait_trusted-Keeps request.expires_at) (λ offer.
          bind-Keeps (final-Keeps s offer) (λ final.
            bind-Keeps (set_session-Keeps final)
              (λ _. finalize_trusted-Keeps final request.channel)))))

  untrusted-Keeps :
      (s : Session) (request : SessionRequest) → Keeps (execute_untrusted kv km env peer s request)
  unfolding execute_untrusted
  untrusted-Keeps s request = bind-Keeps (ask-Keeps connects) (λ _.
      bind-Keeps (ask-Keeps (subscribes request.channel)) (λ _.
        bind-Keeps (wait_untrusted-Keeps request.expires_at) (λ offer.
          bind-Keeps (otp-Keeps offer) (λ _. bind-Keeps (final-Keeps s offer) (λ final.
            bind-Keeps (set_session-Keeps final) (λ _.
              bind-Keeps (acknowledge-Keeps final)
                (λ _. finalize_untrusted-Keeps request.channel)))))))

  -- What a handler does leaves it so, wherever it stops.
  pub execute-Keeps :
      (m : Mode) (s : Session) (request : SessionRequest)
      → Keeps (execute kv km env peer m s request)
  unfolding execute
  execute-Keeps trusted s request = trusted-Keeps s request
  execute-Keeps untrusted s request = untrusted-Keeps s request

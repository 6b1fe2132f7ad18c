-- ===== src/SessionManager.antt =====
-- apps/rn-demo/lib/SessionManager.ts: the wallet app's clients, one for each session.
--
-- A client works on the storage of the session store that all clients share, so a method of a
-- client starts from the manager's storage and leaves its own there. Each client has a transport of
-- its own (`env`, by its session). The clients of one call, which the code starts together, run one
-- after another. A client's listeners only pass its events on.
pub mod Resumed
pub mod Deleted
use mobile_wallet_protocol.Prelude.{ℕ, Text, Option, none, some, List, [], ◌∷◌, ◌++◌, if◌then◌else◌}
use mobile_wallet_protocol.Domain.{Error, Session, SessionRequest, disconnected}
use mobile_wallet_protocol.Kv.{IkvStore, Map, map_get, map_set, map_delete}
use mobile_wallet_protocol.SessionStore
use mobile_wallet_protocol.Exec.{Run, returns, throws, waits, Exec, ◌>>=◌, ◌>>◌}
use mobile_wallet_protocol.Client.{Environment, IKeyManager, Client, resume, disconnect, reconnect}
use mobile_wallet_protocol.Wallet

-- What the manager tells its listeners; `system_log` with the session that it is about.
pub data Notice : Type 0 where
  session_resumed session_created session_deleted incoming_request : Text → Notice
  handshake_complete sessions_changed : Notice

pub record Manager (Store : Type 0) : Type 0 where
  pub clients : Map (Client Store)
  pub store : Store
  pub notices : List Notice

module _ (kv : IkvStore) (km : IKeyManager) (env : Text → Environment)
    (peer : Text → Wallet.Peer) where
  abbrev Method : Type 0 → Type 0
  Method A = Exec (Manager kv.Store) A

  -- `createClient`.
  pub create_client : kv.Store → Client kv.Store
  create_client st = record { session = none; state = disconnected; store = st; log = [] }

  abbrev tell : Notice → Manager kv.Store → Manager kv.Store
  tell notice m = record m { notices = m.notices ++ notice ∷ [] }

  -- What is done with one session of the list, once its `resume` has ended.
  pub resumed : Text → Run (Unit {0}) × Client kv.Store → Manager kv.Store → Manager kv.Store
  resumed id (returns a, c) m =
      tell (session_resumed id) (record m { clients = map_set m.clients id c; store = c.store })
  resumed id (throws e, c) m = record m { store = SessionStore.delete kv id c.store }
  resumed id (waits, c) m = record m { store = c.store }

  -- The first error, if there is one, is the outcome of calls that are awaited together.
  abbrev both : Run (Unit {0}) → Run (Unit {0}) → Run (Unit {0})
  both (returns a) r = r
  both (throws e) r = throws e
  both waits (throws e) = throws e
  both waits (returns a) = waits
  both waits waits = waits

  -- An error of one session is caught.
  abbrev caught : Run (Unit {0}) → Run (Unit {0})
  caught (returns a) = returns tt
  caught (throws e) = returns tt
  caught waits = waits

  pub resume_each : List Session → Method (Unit {0})
  resume_each [] m = (returns tt, m)
  resume_each (s ∷ rest) m =
      let r = resume kv km (env s.id) s.id (create_client m.store) in
      let (ended, m') = resume_each rest (resumed s.id r m) in (both (caught r.0) ended, m')

  pub resume_all_clients : ℕ → Method (Unit {0})
  resume_all_clients now m =
      let (sessions, st) = SessionStore.list kv now m.store in
      (do resume_each sessions; λ m'. (returns tt, tell sessions_changed m'))
        (record m { store = st })

  connected_client : Text → Run (Unit {0}) × Client kv.Store → Method (Client kv.Store)
  connected_client id (returns a, c) m = (
    returns c,
    tell sessions_changed (
        tell (session_created id) (record (tell handshake_complete m) {
          clients = map_set m.clients id c;
          store = c.store;
        })),
  )
  connected_client id (throws e, c) m = (throws e, record m { store = c.store })
  connected_client id (waits, c) m = (waits, record m { store = c.store })

  pub create_client_for_session : SessionRequest → Method (Client kv.Store)
  unfolding connected_client
  create_client_for_session request m =
      let id = request.id in
      let told = tell (incoming_request id) m in
      connected_client id (Wallet.connect kv km (env id) (peer id) request (create_client m.store))
        told

  -- `client.disconnect()` and what follows it.
  disconnected_client : Text → Run (Unit {0}) × Client kv.Store → Method (Unit {0})
  disconnected_client id (returns a, c) m = (
    returns tt,
    tell sessions_changed (
        tell (session_deleted id)
          (record m { clients = map_delete m.clients id; store = c.store })),
  )
  disconnected_client id (throws e, c) m =
      (throws e, record m { clients = map_set m.clients id c; store = c.store })
  disconnected_client id (waits, c) m =
      (waits, record m { clients = map_set m.clients id c; store = c.store })

  pub delete_client : Text → Method (Unit {0})
  unfolding disconnected_client
  delete_client id m = elim (map_get m.clients id) [
    | none ↦ (returns tt, m)
    | some c ↦ disconnected_client id (disconnect kv (env id) (record c { store = m.store })) m
  ]

  abbrev keys : Map (Client kv.Store) → List Text
  keys [] = []
  keys ((id, c) ∷ rest) = id ∷ keys rest

  pub delete_each : List Text → Method (Unit {0})
  delete_each [] m = (returns tt, m)
  delete_each (id ∷ rest) m =
      let (r, m') = delete_client id m in let (r', m'') = delete_each rest m' in (both r r', m'')

  pub delete_all_clients : Method (Unit {0})
  delete_all_clients m = delete_each (keys m.clients) m

  pub get_client : Text → Manager kv.Store → Option (Client kv.Store)
  get_client id m = map_get m.clients id

  -- `reconnectAllClients`.
  reconnect_client : Text → Method (Unit {0})
  reconnect_client id m = elim (map_get m.clients id) [
    | none ↦ (returns tt, m)
    | some c ↦
        let (r, c') = reconnect kv km (env id) (record c { store = m.store }) in
        (r, record m { clients = map_set m.clients id c'; store = c'.store })
  ]

  pub reconnect_each : List Text → Method (Unit {0})
  unfolding reconnect_client
  reconnect_each [] m = (returns tt, m)
  reconnect_each (id ∷ rest) m =
      let (r, m') = reconnect_client id m in
      let (r', m'') = reconnect_each rest m' in (both r r', m'')

  pub reconnect_all_clients : Method (Unit {0})
  reconnect_all_clients m = reconnect_each (keys m.clients) m

  -- `getAllSessions`.
  pub get_all_sessions : ℕ → Method (List Session)
  get_all_sessions now m =
      let (sessions, st) = SessionStore.list kv now m.store in
      (returns sessions, record m { store = st })

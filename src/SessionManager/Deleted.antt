-- ===== src/SessionManager/Deleted.antt =====
-- What `deleteClient` and `deleteAllClients` leave.
use mobile_wallet_protocol.Prelude.{
  ℕ, true, ◌≡◌, refl, ◌∙◌, sym, ap, Text, text_eq, text_eq_iff, includes, false, Bool, none, some,
  List, [], ◌∷◌, ◌++◌, arith, Option-cases, inl, inr, if◌then◌else◌,
}
use mobile_wallet_protocol.Domain.{Session}
use mobile_wallet_protocol.Kv.{IkvStore, Map, map_get, map_get-map_delete}
use mobile_wallet_protocol.SessionStore.View.{view, view-delete}
use mobile_wallet_protocol.Exec.{Run, returns, throws, waits}
use mobile_wallet_protocol.Client.{
  Environment, IKeyManager, Client, Log, disconnect, disconnects, clears,
}
use mobile_wallet_protocol.Client.Sessions.{disconnect_deletes, disconnect_nothing}
use mobile_wallet_protocol.Wallet
use mobile_wallet_protocol.SessionManager.{
  Manager, session_deleted, sessions_changed, disconnected_client, delete_client, both, delete_each,
  delete_all_clients, keys, get_client,
}

module _ (kv : IkvStore) (km : IKeyManager) (env : Text → Environment)
    (peer : Text → Wallet.Peer) where
  delete-found :
      (id : Text) (c : Client kv.Store) (m : Manager kv.Store)
      → map_get m.clients id ≡ some c
      → delete_client kv km env peer id m
        ≡ disconnected_client kv km env peer id
            (disconnect kv (env id) (record c { store = m.store }))
            m
  unfolding delete_client
  delete-found id c m e = rw (e, delete_client) refl

  delete-missing :
      (id : Text) (m : Manager kv.Store)
      → map_get m.clients id ≡ none
      → delete_client kv km env peer id m ≡ (returns tt, m)
  unfolding delete_client
  delete-missing id m e = rw (e, delete_client) refl

  -- Where the transport's two calls succeed, `deleteClient` of a client with a session returns: the
  -- client is gone and its session is deleted from the store, and no other client or session is
  -- touched.
  pub delete_client_lem :
      (id j : Text) (later : ℕ) (c : Client kv.Store) (s : Session) (a b : Bool)
      (m : Manager kv.Store)
      → map_get m.clients id ≡ some c
      → c.session ≡ some s
      → (env id).answer (disconnects ∷ c.log) ≡ returns a
      → (env id).answer (clears s.channel ∷ disconnects ∷ c.log) ≡ returns b
      → let (r, u) = delete_client kv km env peer id m in
        (r ≡ returns tt)
        × (get_client kv km env peer j u ≡ (if text_eq id j then none else map_get m.clients j))
        × (view kv later u.store j ≡ (if text_eq s.id j then none else view kv later m.store j))
        × (u.notices ≡ (m.notices ++ session_deleted id ∷ []) ++ sessions_changed ∷ [])
  unfolding disconnected_client get_client
  delete_client_lem id j later c s a b m e es da db =
      rw
        (
          delete-found id c m e,
          disconnect_deletes kv km (env id) (record c { store = m.store }) s a b es da db,
        )
        (refl, map_get-map_delete m.clients id j, view-delete kv later s.id j m.store, refl)

  disconnected-gone :
      (id j : Text) (r : Run (Unit {0}) × Client kv.Store) (m : Manager kv.Store)
      → (disconnected_client kv km env peer id r m).0 ≡ returns tt
      → map_get (disconnected_client kv km env peer id r m).1.clients j
        ≡ (if text_eq id j then none else map_get m.clients j)
  unfolding disconnected_client
  disconnected-gone id j (returns tt, c) m e = map_get-map_delete m.clients id j
  disconnected-gone id j (throws x, c) m e = cc
  disconnected-gone id j (waits, c) m e = cc

  delete_client-gone :
      (id j : Text) (m : Manager kv.Store)
      → (delete_client kv km env peer id m).0 ≡ returns tt
      → map_get (delete_client kv km env peer id m).1.clients j
        ≡ (if text_eq id j then none else map_get m.clients j)
  delete_client-gone id j m e = elim (Option-cases (map_get m.clients id)) [
    | inl missing ↦ rw (delete-missing id m missing) (ground (arith, text_eq_iff id j, missing))
    | inr (c, found) ↦ rw (delete-found id c m found) (
        disconnected-gone id j (disconnect kv (env id) (record c { store = m.store })) m (
          ap (λ (x : Run (Unit {0}) × Manager kv.Store). x.0) (sym (delete-found id c m found))
          ∙ e))
  ]

  both-returns :
      (r r' : Run (Unit {0}))
      → both kv km env peer r r' ≡ returns tt
      → (r ≡ returns tt) × (r' ≡ returns tt)
  both-returns (returns tt) r' e = (refl, e)
  both-returns (throws x) r' e = cc
  both-returns waits (throws x) e = cc
  both-returns waits (returns a) e = cc
  both-returns waits waits e = cc

  delete_each-gone :
      (ids : List Text) (j : Text) (m : Manager kv.Store)
      → (delete_each kv km env peer ids m).0 ≡ returns tt
      → map_get (delete_each kv km env peer ids m).1.clients j
        ≡ (if includes ids j then none else map_get m.clients j)
  unfolding delete_each includes
  delete_each-gone [] j m e = refl
  delete_each-gone (id ∷ ids) j m e =
      let one = delete_client kv km env peer id m in
      let rest = delete_each kv km env peer ids one.1 in
      let ended = both-returns one.0 rest.0 e in
      delete_each-gone ids j one.1 ended.1 ∙ ground (arith, delete_client-gone id j m ended.0)

  keys-cover :
      (clients : Map (Client kv.Store)) (j : Text)
      → includes (keys kv km env peer clients) j ≡ false
      → map_get clients j ≡ none
  unfolding includes map_get
  keys-cover [] j e = refl
  keys-cover ((id, c) ∷ rest) j e = ground (arith, keys-cover rest j)

  -- When `deleteAllClients` returns, the manager has no client left.
  pub delete_all_empties :
      (j : Text) (m : Manager kv.Store)
      → (delete_all_clients kv km env peer m).0 ≡ returns tt
      → get_client kv km env peer j (delete_all_clients kv km env peer m).1 ≡ none
  unfolding delete_all_clients get_client
  delete_all_empties j m e =
      delete_each-gone (keys kv km env peer m.clients) j m e
      ∙ ground (arith, keys-cover m.clients j)

  module _ (answers : (id : Text) (l : Log) → (env id).answer l ≡ returns true) where
    disconnect-goes : (id : Text) (c : Client kv.Store) → (disconnect kv (env id) c).0 ≡ returns tt
    disconnect-goes id c = elim (Option-cases c.session) [
      | inl missing ↦ rw (disconnect_nothing kv km (env id) c missing) refl
      | inr (s, found) ↦
          rw
            (disconnect_deletes kv km (env id) c s true true found
              (answers id (disconnects ∷ c.log))
              (answers id (clears s.channel ∷ disconnects ∷ c.log)))
            refl
    ]

    disconnected-goes :
        (id : Text) (r : Run (Unit {0}) × Client kv.Store) (m : Manager kv.Store)
        → r.0 ≡ returns tt
        → (disconnected_client kv km env peer id r m).0 ≡ returns tt
    unfolding disconnected_client
    disconnected-goes id (returns a, c) m e = refl
    disconnected-goes id (throws x, c) m e = cc
    disconnected-goes id (waits, c) m e = cc

    delete_client-goes :
        (id : Text) (m : Manager kv.Store) → (delete_client kv km env peer id m).0 ≡ returns tt
    delete_client-goes id m = elim (Option-cases (map_get m.clients id)) [
      | inl missing ↦ rw (delete-missing id m missing) refl
      | inr (c, found) ↦
          rw (delete-found id c m found)
            (disconnected-goes id _ m (disconnect-goes id (record c { store = m.store })))
    ]

    delete_each-goes :
        (ids : List Text) (m : Manager kv.Store) → (delete_each kv km env peer ids m).0 ≡ returns tt
    unfolding delete_each
    delete_each-goes [] m = refl
    delete_each-goes (id ∷ ids) m =
        let m' = (delete_client kv km env peer id m).1 in
        rw (delete_client-goes id m, delete_each-goes ids m') refl

    -- `deleteAllClients` returns where the transports succeed.
    pub delete_all_live :
        (m : Manager kv.Store) → (delete_all_clients kv km env peer m).0 ≡ returns tt
    unfolding delete_all_clients
    delete_all_live m = delete_each-goes (keys kv km env peer m.clients) m

-- ===== src/SessionManager/Resumed.antt =====
-- What `resumeAllClients` leaves.
use native.Mathlib.Nat.{le_trans}
use mathlib.Core.Option.{some-injective}
use mobile_wallet_protocol.Prelude.{
  ℕ, ◌≤◌, ◌≢◌, ◌⊎◌, All, is_some, arith, none, text_eq_refl, ◌≡◌, refl, ◌∙◌, sym, ap, subst, Text,
  text_eq, true, some, List, [], ◌∷◌, Bool-cases, inl, inr,
}
use mobile_wallet_protocol.Domain.{Session, connected}
use mobile_wallet_protocol.Kv.{IkvStore, Map, map_get, map_set, map_get-map_set}
use mobile_wallet_protocol.SessionStore
use mobile_wallet_protocol.SessionStore.View.{view, view-delete}
use mobile_wallet_protocol.Exec.{Run, returns, throws, waits, continue}
use mobile_wallet_protocol.Client.{Log, Environment, IKeyManager, Client, resume}
use mobile_wallet_protocol.Client.Sessions.{resume-returns, resume-ne-waits, view-resume}
use mobile_wallet_protocol.Wallet
use mobile_wallet_protocol.SessionManager.{
  Manager, tell, sessions_changed, caught, both, create_client, resumed, resume_each,
  resume_all_clients,
}

-- A client that is connected in a session, with the key of its peer accepted.
pub record IsJoined (km : IKeyManager) {Store : Type 0} (c : Client Store) : Type 0 where
  pub joined : Session
  pub session : c.session ≡ some joined
  pub state : c.state ≡ connected
  pub valid : km.validate_peer_key joined.their_public_key ≡ true

pair_of : {R S : Type 0} (p : R × S) {r : R} → p.0 ≡ r → p ≡ (r, p.1)
pair_of {R} {S} p e = ap (λ (x : R). (x, p.1)) e

module _ (kv : IkvStore) (km : IKeyManager) (env : Text → Environment)
    (peer : Text → Wallet.Peer) where
  -- Every client that the manager has is connected.
  AllJoined : Map (Client kv.Store) → Type 0
  AllJoined clients =
      (id : Text) (c : Client kv.Store) → map_get clients id ≡ some c → IsJoined km c

  set-AllJoined :
      (clients : Map (Client kv.Store)) (id : Text) (c : Client kv.Store)
      → AllJoined clients
      → IsJoined km c
      → AllJoined (map_set clients id c)
  unfolding AllJoined
  set-AllJoined clients id c all one j d e = elim (Bool-cases (text_eq id j)) [
    | inl same ↦
        subst (IsJoined km)
          (some-injective _ _ (sym (map_get-map_set clients id j c ∙ (rw same refl)) ∙ e)) one
    | inr other ↦ all j d (sym (map_get-map_set clients id j c ∙ (rw other refl)) ∙ e)
  ]

  resume-IsJoined :
      (id : Text) (st : kv.Store) (u : Client kv.Store)
      → resume kv km (env id) id (create_client kv km env peer st) ≡ (returns tt, u)
      → IsJoined km u
  resume-IsJoined id st u e =
      let back = resume-returns kv km (env id) id (create_client kv km env peer st) u e in
      record { joined = back.0; session = back.3; state = back.4; valid = back.2 }

  resumed-AllJoined :
      (id : Text) (r : Run (Unit {0}) × Client kv.Store) (m : Manager kv.Store)
      → (r.0 ≡ returns tt → IsJoined km r.1)
      → AllJoined m.clients
      → AllJoined (resumed kv km env peer id r m).clients
  unfolding resumed
  resumed-AllJoined id (returns tt, c) m joins all = set-AllJoined m.clients id c all (joins refl)
  resumed-AllJoined id (throws e, c) m joins all = all
  resumed-AllJoined id (waits, c) m joins all = all

  resume_each-AllJoined :
      (sessions : List Session) (m : Manager kv.Store)
      → AllJoined m.clients
      → AllJoined (resume_each kv km env peer sessions m).1.clients
  unfolding resume_each
  resume_each-AllJoined [] m all = all
  resume_each-AllJoined (s ∷ rest) m all =
      let r = resume kv km (env s.id) s.id (create_client kv km env peer m.store) in
      resume_each-AllJoined rest (resumed kv km env peer s.id r m)
        (resumed-AllJoined s.id r m (λ e. resume-IsJoined s.id m.store r.1 (pair_of r e)) all)

  both-caught :
      (r r' : Run (Unit {0}))
      → r ≢ waits
      → r' ≡ returns tt
      → both kv km env peer (caught kv km env peer r) r' ≡ returns tt
  both-caught (returns a) r' h e = e
  both-caught (throws x) r' h e = e
  both-caught waits r' h e = absurd (h refl)

  resume_each-returns :
      (sessions : List Session) (m : Manager kv.Store)
      → ((id : Text) (l : Log) → (env id).answer l ≢ waits)
      → (resume_each kv km env peer sessions m).0 ≡ returns tt
  unfolding resume_each
  resume_each-returns [] m ends = refl
  resume_each-returns (s ∷ rest) m ends =
      let r = resume kv km (env s.id) s.id (create_client kv km env peer m.store) in
      both-caught r.0 _
        (resume-ne-waits kv km (env s.id) s.id (create_client kv km env peer m.store) (ends s.id))
        (resume_each-returns rest (resumed kv km env peer s.id r m) ends)

  -- A session is in the hands of a client, or is not found in the store from a time on.
  Settled : ℕ → Text → Manager kv.Store → Type 0
  Settled from id m =
      is_some (map_get m.clients id) ≡ true
      ⊎ ((later : ℕ) → from ≤ later → view kv later m.store id ≡ none)

  resumed-keeps :
      (now : ℕ) (id j : Text) (r : Run (Unit {0}) × Client kv.Store) (m : Manager kv.Store)
      → ((later : ℕ) → now ≤ later → view kv later r.1.store j ≡ view kv later m.store j)
      → Settled now j m
      → Settled now j (resumed kv km env peer id r m)
  unfolding resumed Settled
  resumed-keeps now id j (returns tt, c) m same (inl had) =
      inl (rw (map_get-map_set m.clients id j c) (ground (arith, had)))
  resumed-keeps now id j (returns tt, c) m same (inr gone) =
      inr (λ later le. same later le ∙ gone later le)
  resumed-keeps now id j (throws e, c) m same (inl had) = inl had
  resumed-keeps now id j (throws e, c) m same (inr gone) =
      inr (λ later le.
        view-delete kv later id j c.store ∙ ground (arith, same later le, gone later le))
  resumed-keeps now id j (waits, c) m same (inl had) = inl had
  resumed-keeps now id j (waits, c) m same (inr gone) =
      inr (λ later le. same later le ∙ gone later le)

  resumed-Settled :
      (now : ℕ) (id : Text) (r : Run (Unit {0}) × Client kv.Store) (m : Manager kv.Store)
      → r.0 ≢ waits
      → Settled now id (resumed kv km env peer id r m)
  unfolding resumed Settled
  resumed-Settled now id (returns tt, c) m ends =
      inl (rw (map_get-map_set m.clients id id c, text_eq_refl id) refl)
  resumed-Settled now id (throws e, c) m ends =
      inr (λ later le. view-delete kv later id id c.store ∙ (rw (text_eq_refl id) refl))
  resumed-Settled now id (waits, c) m ends = absurd (ends refl)

  module _ (now : ℕ) (at : (id : Text) → (env id).now [] ≤ now) where
    resume_each-keeps :
        (sessions : List Session) (j : Text) (m : Manager kv.Store)
        → Settled now j m
        → Settled now j (resume_each kv km env peer sessions m).1
    unfolding resume_each create_client
    resume_each-keeps [] j m h = h
    resume_each-keeps (s ∷ rest) j m h =
        let c = create_client kv km env peer m.store in
        let r = resume kv km (env s.id) s.id c in
        resume_each-keeps rest j (resumed kv km env peer s.id r m) (
          resumed-keeps now s.id j r m
            (λ later le. view-resume kv km (env s.id) s.id j later c (le_trans (at s.id) le)) h)

    resume_each-Settled :
        (sessions : List Session) (m : Manager kv.Store)
        → ((id : Text) (l : Log) → (env id).answer l ≢ waits)
        → All (λ s. Settled now s.id (resume_each kv km env peer sessions m).1) sessions
    unfolding resume_each
    resume_each-Settled [] m ends = tt
    resume_each-Settled (s ∷ rest) m ends =
        let c = create_client kv km env peer m.store in
        let r = resume kv km (env s.id) s.id c in
        let m' = resumed kv km env peer s.id r m in
        (
          resume_each-keeps rest s.id m'
              (resumed-Settled now s.id r m (resume-ne-waits kv km (env s.id) s.id c (ends s.id))),
          resume_each-Settled rest m' ends,
        )

  resume_all_lem :
      (now : ℕ) (m : Manager kv.Store)
      → ((id : Text) (l : Log) → (env id).answer l ≢ waits)
      → let listed = SessionStore.list kv now m.store in
        resume_all_clients kv km env peer now m ≡ (
          returns tt,
          tell kv km env peer sessions_changed
              (resume_each kv km env peer listed.0 (record m { store = listed.1 })).1,
        )
  unfolding resume_all_clients
  resume_all_lem now m ends =
      let listed = SessionStore.list kv now m.store in
      let run = resume_each kv km env peer listed.0 (record m { store = listed.1 }) in
      ap
        (λ (r : Run (Unit {0}) × Manager kv.Store).
          continue r (λ _ m'. (returns tt, tell kv km env peer sessions_changed m')))
        (pair_of run (resume_each-returns listed.0 (record m { store = listed.1 }) ends))

  -- Where no call of a client's transport stays pending for ever, as `connect` does while the relay
  -- cannot be reached, `resumeAllClients` returns, and then each session that the store listed is in
  -- the hands of a client, or is not found in the store any more, where the clients' clocks are not
  -- past the time from which on the store is looked at; and if every client that the manager had is connected, in
  -- a session whose peer's key was accepted, so is every client that it has.
  pub resume_all_settles :
      (now from : ℕ) (m : Manager kv.Store)
      → ((id : Text) (l : Log) → (env id).answer l ≢ waits)
      → ((id : Text) → (env id).now [] ≤ from)
      → ((id : Text) (c : Client kv.Store) → map_get m.clients id ≡ some c → IsJoined km c)
      → let (r, u) = resume_all_clients kv km env peer now m in
        (r ≡ returns tt)
        × All
            (λ s.
              (is_some (map_get u.clients s.id) ≡ true)
              ⊎ ((later : ℕ) → from ≤ later → view kv later u.store s.id ≡ none))
            (SessionStore.list kv now m.store).0
        × ((id : Text) (c : Client kv.Store) → map_get u.clients id ≡ some c → IsJoined km c)
  unfolding AllJoined Settled
  resume_all_settles now from m ends at all =
      let listed = SessionStore.list kv now m.store in
      let start : Manager kv.Store = record m { store = listed.1 } in
      rw (resume_all_lem now m ends) (
        refl,
        resume_each-Settled from at listed.0 start ends,
        resume_each-AllJoined listed.0 start all,
      )

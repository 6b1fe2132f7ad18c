-- ===== src/Client/Steps.antt =====
-- The steps that the connection handlers of both clients share.
use mobile_wallet_protocol.Prelude.{◌≡◌, refl, ap, ◌∙◌, subst, true, some, ◌∷◌, arith}
use mobile_wallet_protocol.Domain.{Session, connected, not_before}
use mobile_wallet_protocol.Kv.{IkvStore}
use mobile_wallet_protocol.SessionStore
use mobile_wallet_protocol.Exec.{returns, Exec, continue, bind-returns}
use mobile_wallet_protocol.Client.{Log, Entry, Environment, Client, ask, ask_}

module _ (kv : IkvStore) (env : Environment) where
  -- What a client is once its session is agreed and stored.
  pub record IsJoined (f : Session) (before u : Client kv.Store) : Type 0 where
    pub log : Log
    pub session : u.session ≡ some f
    pub state : u.state ≡ connected
    pub live : not_before f.expires_at (env.now log) ≡ true
    pub stored : u.store ≡ (SessionStore.set kv (env.now log) f before.store).1

  -- Where the storage is the same, it does not matter from which client on.
  pub IsJoined-from :
      (f : Session) (c d u : Client kv.Store) → d.store ≡ c.store → IsJoined f d u → IsJoined f c u
  IsJoined-from f c d u same j = record {
    log = j.log;
    session = j.session;
    state = j.state;
    live = j.live;
    stored = j.stored ∙ ap (λ (t : kv.Store). (SessionStore.set kv (env.now j.log) f t).1) same;
  }

  pub ask_-returns :
      (entry : Entry) (c u : Client kv.Store) (a : Unit {0})
      → ask_ env entry c ≡ (returns a, u)
      → u ≡ record c { log = entry ∷ c.log }
  unfolding ask_ ask
  ask_-returns entry c u a e = ground arith

  pub ask_-then :
      (entry : Entry) (f : Unit {0} → Exec (Client kv.Store) (Unit {0})) (c u : Client kv.Store)
      → continue (ask_ env entry c) f ≡ (returns tt, u)
      → f tt (record c { log = entry ∷ c.log }) ≡ (returns tt, u)
  ask_-then entry f c u e =
      let (a, w, m, rest) = bind-returns (ask_ env entry c) f e in
      subst (λ (v : Client kv.Store). f tt v ≡ (returns tt, u)) (ask_-returns entry c w a m) rest

  -- The transport does what it is asked.
  pub ask_-goes :
      (entry : Entry) (c : Client kv.Store)
      → ((l : Log) → env.answer l ≡ returns true)
      → ask_ env entry c ≡ (returns tt, record c { log = entry ∷ c.log })
  unfolding ask_ ask
  ask_-goes entry c answers = rw (answers (entry ∷ c.log)) refl

-- ===== src/Transport/Footprint.antt =====
-- The keys that a transport reads and writes in its storage.
use mobile_wallet_protocol.Prelude.{
  ℕ, ◌≡◌, refl, ap, ◌∙◌, Text, text_eq, false, Option-cases, inl, inr, List, [], ◌∷◌, arith,
}
use mobile_wallet_protocol.Json.{Json, Str, text}
use mobile_wallet_protocol.Kv.{IkvStore, Map, map_set}
use mobile_wallet_protocol.Transport.Storage
use mobile_wallet_protocol.Transport.Storage.{
  nonce_key, latest_nonces_key, client_id_key, get_next_nonce, get_latest_nonces, set_latest_nonces,
  clear, current_nonce, latest_of,
}
use mobile_wallet_protocol.Transport.Storage.Nonces.{counter}
use mobile_wallet_protocol.Transport.Incoming.{
  TransportMessage, read_message, accept, receive, handle_incoming,
}

-- What a transport does with its storage: its making, a nonce for a message, the clearing of a
-- channel, and a message that arrives.
pub data Effect : Type 0 where
  creates : Text → Effect
  numbers clears : Text → Effect
  receives : Text → Str → Effect

-- A key that no transport uses.
pub record IsForeign (k : Text) : Type 0 where
  pub client : text_eq client_id_key k ≡ false
  pub nonce : (client channel : Text) → text_eq (nonce_key client channel) k ≡ false
  pub latest : (client channel : Text) → text_eq (latest_nonces_key client channel) k ≡ false

module _ (kv : IkvStore) (layout : Json → Text) (client : Text) where
  open kv use {Store}

  pub effect : Effect → Store → Store
  effect (creates uuid) st = (Storage.create kv layout uuid st).1
  effect (numbers channel) st = (get_next_nonce kv client channel st).1
  effect (clears channel) st = clear kv client channel st
  effect (receives channel raw) st = (handle_incoming kv client channel raw st).1

  pub effects : List Effect → Store → Store
  effects [] st = st
  effects (e ∷ es) st = effects es (effect e st)

  module _ (k : Text) (f : IsForeign k) where
    create_keeps :
        (uuid : Text) (st : Store) → kv.get (Storage.create kv layout uuid st).1 k ≡ kv.get st k
    unfolding Storage.create
    create_keeps uuid st = ground (arith, kv.get-set st client_id_key k (text uuid), f.client)

    set_latest_nonces_keeps :
        (channel : Text) (nonces : Map ℕ) (st : Store)
        → kv.get (set_latest_nonces kv client channel nonces st) k ≡ kv.get st k
    unfolding set_latest_nonces
    set_latest_nonces_keeps channel nonces st = simp (kv.get-set, f.latest client channel) refl

    accept_keeps :
        (channel : Text) (m : TransportMessage) (latest : Map ℕ) (st : Store)
        → kv.get (accept kv client channel m latest st).1 k ≡ kv.get st k
    unfolding accept
    accept_keeps channel m latest st =
        ground (arith, set_latest_nonces_keeps channel (map_set latest m.client_id m.nonce) st)

    receive_keeps :
        (channel : Text) (m : TransportMessage) (st : Store)
        → kv.get (receive kv client channel m st).1 k ≡ kv.get st k
    unfolding receive
    receive_keeps channel m st = elim (Option-cases (get_latest_nonces kv client channel st)) [
      | inl unread ↦ ground (arith, unread)
      | inr (latest, read) ↦ ground (arith, read, accept_keeps channel m latest st)
    ]

    effect_keeps : (e : Effect) (st : Store) → kv.get (effect e st) k ≡ kv.get st k
    unfolding effect get_next_nonce clear handle_incoming
    effect_keeps (creates uuid) st = create_keeps uuid st
    effect_keeps (numbers channel) st = simp (kv.get-set, f.nonce client channel) refl
    effect_keeps (clears channel) st =
        simp (kv.get-delete, f.nonce client channel, f.latest client channel) refl
    effect_keeps (receives channel raw) st = elim (Option-cases (read_message raw)) [
      | inl garbled ↦ rw (effect, handle_incoming, garbled) refl
      | inr (m, read) ↦ rw (effect, handle_incoming, read) (receive_keeps channel m st)
    ]

    -- The transport changes nothing under such a key.
    pub effects_keep : (es : List Effect) (st : Store) → kv.get (effects es st) k ≡ kv.get st k
    unfolding effects
    effects_keep [] st = refl
    effects_keep (e ∷ es) st = effects_keep es (effect e st) ∙ effect_keeps e st

module _ (kv : IkvStore) (client channel : Text) where
  pub counter-congr :
      (u st : kv.Store)
      → kv.get u (nonce_key client channel) ≡ kv.get st (nonce_key client channel)
      → counter kv client channel u ≡ counter kv client channel st
  unfolding counter
  counter-congr u st e = ap (current_nonce kv client) e

  pub get_latest_nonces-congr :
      (u st : kv.Store)
      → kv.get u (latest_nonces_key client channel) ≡ kv.get st (latest_nonces_key client channel)
      → get_latest_nonces kv client channel u ≡ get_latest_nonces kv client channel st
  unfolding get_latest_nonces
  get_latest_nonces-congr u st e = ap (latest_of kv client) e

-- ===== src/Transport/Incoming/Race.antt =====
-- Two handlers that overlap. The handler awaits the storage twice, first to read the nonces and then
-- to write them, and nothing keeps a second handler from reading in between: a live publication and
-- the history that is fetched on subscribing are handled concurrently.
use mobile_wallet_protocol.Prelude.{
  ℕ, ◌<◌, ◌≡◌, refl, Text, text_eq, text_eq_refl, false, Option, none, some, List, [], ◌∷◌, ◌++◌,
  arith, lt→ltb, if◌then◌else◌,
}
use mobile_wallet_protocol.Kv.{IkvStore, Map, map_get, map_set, map_get-map_set}
use mobile_wallet_protocol.Transport.Storage.{get_latest_nonces, set_latest_nonces}
use mobile_wallet_protocol.Transport.Storage.Nonces.{get_latest_nonces-set}
use mobile_wallet_protocol.Transport.Incoming.{
  TransportMessage, Event, message, parse_failure, nonce_or_zero, accept, receive,
}

-- What the handler goes on with: nothing, or the nonces that it has read (`none` is an exception).
pub data Begun : Type 0 where
  ignored : Begun
  read : Option (Map ℕ) → Begun

module _ (kv : IkvStore) (client : Text) where
  open kv use {Store}

  -- The handler up to the answer of `getLatestNonces`: a message of the client itself is ignored.
  pub begin : Text → TransportMessage → Store → Begun
  begin channel m st =
      if text_eq m.client_id client then ignored else read (get_latest_nonces kv client channel st)

  -- The rest of the handler, on the storage as it is by then.
  pub finish : Text → TransportMessage → Begun → Store → List Event × Store
  finish channel m ignored st = ([], st)
  finish channel m (read none) st = (parse_failure, st)
  finish channel m (read (some latest)) st = accept kv client channel m latest st

  -- Two handlers that both read before either writes.
  pub overlap : Text → TransportMessage → TransportMessage → Store → List Event × Store
  overlap channel m n st =
      let read_m = begin channel m st in
      let read_n = begin channel n st in
      let (events_m, st') = finish channel m read_m st in
      let (events_n, st'') = finish channel n read_n st' in (events_m ++ events_n, st'')

  -- With no overlap, the two parts are the handler.
  pub begin-finish :
      (channel : Text) (m : TransportMessage) (st : Store)
      → finish channel m (begin channel m st) st ≡ receive kv client channel m st
  unfolding begin finish receive
  begin-finish channel m st = ground arith

  -- Where the channel's record of nonces can be read, a message of another client whose nonce is
  -- above the latest seen is delivered twice when two handlers of it overlap.
  pub overlap_duplicates :
      (channel : Text) (m : TransportMessage) (latest : Map ℕ) (st : Store)
      → text_eq m.client_id client ≡ false
      → get_latest_nonces kv client channel st ≡ some latest
      → nonce_or_zero (map_get latest m.client_id) < m.nonce
      → (overlap channel m m st).0 ≡ message channel m.payload ∷ message channel m.payload ∷ []
  unfolding overlap begin finish accept
  overlap_duplicates channel m latest st other e new = rw (other, e, finish, lt→ltb _ _ new)

  -- Where the channel's record of nonces can be read and the handlers of new messages of two
  -- other clients overlap, the record of the first sender's nonce is lost: what is stored then is below
  -- it.
  pub overlap_forgets :
      (channel : Text) (m n : TransportMessage) (latest : Map ℕ) (st : Store)
      → text_eq m.client_id client ≡ false
      → text_eq n.client_id client ≡ false
      → get_latest_nonces kv client channel st ≡ some latest
      → nonce_or_zero (map_get latest m.client_id) < m.nonce
      → nonce_or_zero (map_get latest n.client_id) < n.nonce
      → text_eq n.client_id m.client_id ≡ false
      → (found : Map ℕ) × (get_latest_nonces kv client channel (overlap channel m n st).1
          ≡ some found)
        × (nonce_or_zero (map_get found m.client_id) < m.nonce)
  unfolding overlap begin finish accept
  overlap_forgets channel m n latest st other_m other_n e new_m new_n apart = (
    map_set latest n.client_id n.nonce,
    rw (other_m, other_n, e, finish, lt→ltb _ _ new_m, lt→ltb _ _ new_n)
        (rw
          (
            get_latest_nonces-set kv client channel channel (map_set latest n.client_id n.nonce)
                (set_latest_nonces kv client channel (map_set latest m.client_id m.nonce) st),
            text_eq_refl channel,
          )
          refl),
    rw (map_get-map_set latest n.client_id m.client_id n.nonce, apart) new_m,
  )

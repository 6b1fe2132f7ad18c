-- ===== src/Transport/Incoming/Once.antt =====
-- A message is delivered at most once, also over restarts, when handlers do not overlap.
use mobile_wallet_protocol.Prelude.{
  ℕ, ◌≤◌, ◌<◌, ◌≡◌, refl, Text, text_eq, text_eq_iff, text_eq_refl, Bool-cases, Option-cases, inl,
  inr, false, Option, none, some, List, [], ◌∷◌, ◌∙◌, arith, lt→ltb, if◌then◌else◌,
}
use mobile_wallet_protocol.Json.{Str}
use mobile_wallet_protocol.Kv.{IkvStore, Map, map_get, map_set, map_get-map_set}
use mobile_wallet_protocol.Transport.Storage.{get_latest_nonces, set_latest_nonces}
use mobile_wallet_protocol.Transport.Storage.Nonces.{get_latest_nonces-set}
use mobile_wallet_protocol.Transport.Incoming.{
  TransportMessage, Event, message, error, read_message, parse_failure, nonce_or_zero, accept,
  receive, handle_incoming, handle_all,
}

-- The messages among the events.
abbrev pub deliveries : List Event → List Event
deliveries [] = []
deliveries (message channel payload ∷ rest) = message channel payload ∷ deliveries rest
deliveries (error code ∷ rest) = deliveries rest

-- A sender's nonce has been seen, or the record is corrupted and accepts nothing.
abbrev pub SeenIn : Text → ℕ → Option (Map ℕ) → Type 0
SeenIn sender n none = Unit {0}
SeenIn sender n (some latest) = n ≤ nonce_or_zero (map_get latest sender)

module _ (kv : IkvStore) (client : Text) where
  open kv use {Store}

  -- The latest nonce of a sender, 0 at first.
  pub latest_nonce : Text → Text → Store → ℕ
  latest_nonce channel sender st = elim (get_latest_nonces kv client channel st) [
    | none ↦ 0
    | some latest ↦ nonce_or_zero (map_get latest sender)
  ]

  pub Seen : Text → Text → ℕ → Store → Type 0
  Seen channel sender n st = SeenIn sender n (get_latest_nonces kv client channel st)

  accept-Seen :
      (c channel sender : Text) (n : ℕ) (m : TransportMessage) (latest : Map ℕ) (st : Store)
      → get_latest_nonces kv client c st ≡ some latest
      → Seen channel sender n st
      → Seen channel sender n (accept kv client c m latest st).1
  unfolding Seen accept
  accept-Seen c channel sender n m latest st e s = ground (
    arith,
    get_latest_nonces-set kv client c channel (map_set latest m.client_id m.nonce) st,
    text_eq_iff c channel,
    map_get-map_set latest m.client_id sender m.nonce,
    text_eq_iff m.client_id sender,
  )

  receive-Seen :
      (c channel sender : Text) (n : ℕ) (m : TransportMessage) (st : Store)
      → Seen channel sender n st
      → Seen channel sender n (receive kv client c m st).1
  unfolding receive
  receive-Seen c channel sender n m st s = elim (Bool-cases (text_eq m.client_id client)) [
    | inl own ↦ rw own s
    | inr other ↦ rw other (elim (Option-cases (get_latest_nonces kv client c st)) [
      | inl e ↦ rw (e, receive) s
      | inr (latest, e) ↦ rw (e, receive) (accept-Seen c channel sender n m latest st e s)
    ])
  ]

  handle-Seen :
      (c channel sender : Text) (n : ℕ) (raw : Str) (st : Store)
      → Seen channel sender n st
      → Seen channel sender n (handle_incoming kv client c raw st).1
  unfolding handle_incoming
  handle-Seen c channel sender n raw st s = elim (Option-cases (read_message raw)) [
    | inl e ↦ rw (e, handle_incoming) s
    | inr (m, e) ↦ rw (e, handle_incoming) (receive-Seen c channel sender n m st s)
  ]

  handle_all-Seen :
      (rest : List (Text × Str)) (channel sender : Text) (n : ℕ) (st : Store)
      → Seen channel sender n st
      → Seen channel sender n (handle_all kv client rest st)
  unfolding handle_all
  handle_all-Seen [] channel sender n st s = s
  handle_all-Seen ((c, raw) ∷ rest) channel sender n st s =
      handle_all-Seen rest channel sender n (handle_incoming kv client c raw st).1
        (handle-Seen c channel sender n raw st s)

  -- After the handler the message's nonce has been seen, unless the message is the client's own.
  receive-Seen' :
      (channel : Text) (m : TransportMessage) (st : Store)
      → text_eq m.client_id client ≡ false
      → Seen channel m.client_id m.nonce (receive kv client channel m st).1
  unfolding Seen receive accept
  receive-Seen' channel m st other = elim (Option-cases (get_latest_nonces kv client channel st)) [
    | inl e ↦ rw (other, e, receive) (ground arith)
    | inr (latest, e) ↦
        rw (other, e, receive)
          (ground (
            arith,
            get_latest_nonces-set kv client channel channel (map_set latest m.client_id m.nonce) st,
            text_eq_refl channel,
            map_get-map_set latest m.client_id m.client_id m.nonce,
            text_eq_refl m.client_id,
          ))
  ]

  -- A nonce that has been seen is not delivered.
  receive_stale :
      (channel : Text) (m : TransportMessage) (st : Store)
      → Seen channel m.client_id m.nonce st
      → deliveries (receive kv client channel m st).0 ≡ []
  unfolding Seen receive accept
  receive_stale channel m st s = ground arith

  receive_twice :
      (channel : Text) (m : TransportMessage) (between : List (Text × Str)) (st : Store)
      → deliveries
          (receive kv client channel m
            (handle_all kv client between (receive kv client channel m st).1)).0
        ≡ []
  receive_twice channel m between st = elim (Bool-cases (text_eq m.client_id client)) [
    | inl own ↦ unfold receive in rw (own, receive) refl
    | inr other ↦
        receive_stale channel m (handle_all kv client between (receive kv client channel m st).1) (
          handle_all-Seen between channel m.client_id m.nonce (receive kv client channel m st).1
            (receive-Seen' channel m st other))
  ]

  pub handle-receive :
      (channel : Text) (raw : Str) (m : TransportMessage) (st : Store)
      → read_message raw ≡ some m
      → handle_incoming kv client channel raw st ≡ receive kv client channel m st
  unfolding handle_incoming
  handle-receive channel raw m st e = rw (e, handle_incoming)

  handle_invalid :
      (channel : Text) (raw : Str) (st : Store)
      → read_message raw ≡ none
      → handle_incoming kv client channel raw st ≡ (parse_failure, st)
  unfolding handle_incoming
  handle_invalid channel raw st e = rw (e, handle_incoming)

  -- Once a message has been handled, handling the same message again delivers nothing, whatever
  -- messages were handled in between, on this channel or others.
  pub handle_twice :
      (channel : Text) (raw : Str) (between : List (Text × Str)) (st : Store)
      → deliveries
          (handle_incoming kv client channel raw
            (handle_all kv client between (handle_incoming kv client channel raw st).1)).0
        ≡ []
  handle_twice channel raw between st = elim (Option-cases (read_message raw)) [
    | inl e ↦ rw (handle_invalid channel raw _ e)
    | inr (m, e) ↦
        rw
          (
            handle-receive channel raw m st e,
            handle-receive channel raw m
                (handle_all kv client between (receive kv client channel m st).1) e,
          )
          (receive_twice channel m between st)
  ]

  latest_nonce-set :
      (channel sender : Text) (nonces : Map ℕ) (st : Store)
      → latest_nonce channel sender (set_latest_nonces kv client channel nonces st)
        ≡ nonce_or_zero (map_get nonces sender)
  unfolding latest_nonce
  latest_nonce-set channel sender nonces st =
      let written = get_latest_nonces-set kv client channel channel nonces st in
      rw (written, latest_nonce, text_eq_refl channel) refl

  -- A message of another client whose nonce is above the latest seen is delivered, with its payload
  -- and channel, and its nonce becomes the sender's latest; the other senders' nonces stay.
  pub receive_new :
      (channel sender : Text) (m : TransportMessage) (latest : Map ℕ) (st : Store)
      → text_eq m.client_id client ≡ false
      → get_latest_nonces kv client channel st ≡ some latest
      → nonce_or_zero (map_get latest m.client_id) < m.nonce
      → ((receive kv client channel m st).0 ≡ message channel m.payload ∷ [])
        × (latest_nonce channel sender (receive kv client channel m st).1
            ≡ (if text_eq m.client_id sender then m.nonce else latest_nonce channel sender st))
  unfolding receive accept latest_nonce
  receive_new channel sender m latest st other e new =
      rw (other, e, receive, lt→ltb _ _ new)
        (
          refl,
          latest_nonce-set channel sender (map_set latest m.client_id m.nonce) st
              ∙ (rw (map_get-map_set latest m.client_id sender m.nonce)
                  (ground (arith, latest_nonce-of))),
        )
    where
      latest_nonce-of : latest_nonce channel sender st ≡ nonce_or_zero (map_get latest sender)
      latest_nonce-of = rw (e, latest_nonce)

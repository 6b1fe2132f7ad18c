-- ===== src/Transport/Delivery/Sent.antt =====
-- What a sender puts on the relay: its messages, numbered one by one.
use mobile_wallet_protocol.Prelude.{
  ℕ, ◌+◌, ◌≡◌, refl, ap, ◌∙◌, Text, text_eq, text_eq_refl, some, List, [], ◌∷◌, map, arith, drop,
  zero, suc, ◌<◌, length, All, inl, inr,
}
use mobile_wallet_protocol.Domain.{Result, ok, num}
use mobile_wallet_protocol.Json.{Str, json, find_field}
use mobile_wallet_protocol.Kv.{IkvStore}
use mobile_wallet_protocol.Transport.Storage.{get_next_nonce}
use mobile_wallet_protocol.Transport.Storage.Nonces.{counter, counter-next}
use mobile_wallet_protocol.Transport.Incoming.{TransportMessage, read_message}
use mobile_wallet_protocol.Transport.Outgoing.{
  max_retry_attempts, base_retry_delay, envelope, process, process_all,
}
use mobile_wallet_protocol.Utils.Retry.{retry}
use mobile_wallet_protocol.Utils.Retry.Outcome.{retry_outcome}

-- A message as it was published.
abbrev pub wire : TransportMessage → Str
wire m = json (envelope m.client_id (num m.nonce) m.payload)

-- The messages of a sender, from the nonce after `n` on.
unfoldable pub numbered : Text → ℕ → List Text → List TransportMessage
numbered sender n [] = []
numbered sender n (payload ∷ rest) =
    record { client_id = sender; nonce = n + 1; payload = payload } ∷ numbered sender (n + 1) rest

-- The receiver reads what was published.
pub read_message-wire : (m : TransportMessage) → read_message (wire m) ≡ some m
unfolding read_message envelope find_field text_eq
read_message-wire m = refl

abbrev pub payloads : List (Text × (ℕ → Result (Unit {0}))) → List Text
payloads [] = []
payloads ((payload, relay) ∷ rest) = payload ∷ payloads rest

-- The relay takes the text within the attempts that are made.
unfoldable pub IsTaken : Text × (ℕ → Result (Unit {0})) → Type 0
IsTaken (payload, relay) = (k : ℕ) × (k < max_retry_attempts) × (relay k ≡ ok tt)

taken_ok :
    (relay : ℕ → Result (Unit {0})) (k : ℕ)
    → k < max_retry_attempts
    → relay k ≡ ok tt
    → (retry relay max_retry_attempts base_retry_delay).0 ≡ ok tt
taken_ok relay k h good = elim (retry_outcome relay base_retry_delay 4) [
  | inl (j, a, before, fails, succeeded, outcome) ↦
      ap (λ (r : Result (Unit {0}) × List ℕ). r.0) outcome
  | inr (e, fails, bad, outcome) ↦ absurd (ground (arith, fails k h, good))
]

process-published :
    (kv : IkvStore) (client channel payload : Text) (relay : ℕ → Result (Unit {0})) (st : kv.Store)
    → IsTaken (payload, relay)
    → let (nonce, st') = get_next_nonce kv client channel st in
      let done = process kv client relay channel payload st in
      (done.published ≡ json (envelope client nonce payload) ∷ []) × (done.store ≡ st')
unfolding IsTaken process
process-published kv client channel payload relay st taken =
    (ground (arith, taken_ok relay taken.0 taken.1 taken.2), refl)

module _ (kv : IkvStore) (client : Text) where
  -- Where the relay takes each message in the end, they are there in order, numbered one by one.
  pub process_all-numbered :
      (ms : List (Text × (ℕ → Result (Unit {0})))) (n : ℕ) (channel : Text) (st : kv.Store)
      → All IsTaken ms
      → counter kv client channel st ≡ num n
      → process_all kv client channel ms st ≡ map wire (numbered client n (payloads ms))
  unfolding process_all numbered
  process_all-numbered [] n channel st taken e = refl
  process_all-numbered ((payload, relay) ∷ rest) n channel st taken e =
      let step = counter-next kv client channel channel n st e in
      let one = process-published kv client channel payload relay st taken.0 in
      rw (one.0, one.1, step.0)
        (ap (◌∷◌ (json (envelope client (num (n + 1)) payload))) (
          process_all-numbered rest (n + 1) channel (get_next_nonce kv client channel st).1 taken.1
            (step.1 ∙ (rw (text_eq_refl channel) refl))))

pub length-numbered :
    (sender : Text) (n : ℕ) (ps : List Text) → length (map wire (numbered sender n ps)) ≡ length ps
unfolding numbered
length-numbered sender n [] = refl
length-numbered sender n (p ∷ ps) = ap (λ (k : ℕ). suc k) (length-numbered sender (n + 1) ps)

pub drop-numbered :
    (sender : Text) (i n : ℕ) (ps : List Text)
    → drop i (map wire (numbered sender n ps)) ≡ map wire (numbered sender (n + i) (drop i ps))
unfolding numbered
drop-numbered sender zero n ps = ap (λ (k : ℕ). map wire (numbered sender k ps)) (omega arith)
drop-numbered sender (suc i) n [] = refl
drop-numbered sender (suc i) n (p ∷ ps) =
    drop-numbered sender i (n + 1) ps
    ∙ ap (λ (k : ℕ). map wire (numbered sender k (drop i ps))) (omega arith)

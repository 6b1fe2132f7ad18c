-- ===== src/Transport/Storage/Nonces.antt =====
-- Nonces count up by one on each channel, and the record of seen nonces is read back as written.
use mathlib.Core.Path.{ap₂}
use mobile_wallet_protocol.Prelude.{
  ℕ, zero, suc, ◌+◌, ◌≡◌, refl, ap, ◌∙◌, Text, text_eq, text_eq_refl, some, List, [], ◌∷◌, arith,
  if◌then◌else◌,
}
use mobile_wallet_protocol.Domain.{Number, num}
use mobile_wallet_protocol.Json.{number, json, parse_int}
use mobile_wallet_protocol.Kv.{IkvStore, Map}
use mobile_wallet_protocol.Transport.Storage.{
  nonce_key, entries, from_entries, current_nonce, get_next_nonce, latest_of, get_latest_nonces,
  set_latest_nonces, clear,
}
use mobile_wallet_protocol.Transport.Storage.Keys.{transport_keys}

entries-from_entries : (m : Map ℕ) → entries (from_entries m) ≡ m
unfolding entries from_entries
entries-from_entries [] = refl
entries-from_entries ((sender, n) ∷ m) = ap (◌∷◌ (sender, n)) (entries-from_entries m)

-- `k` numbers in a row, after `n`.
pub count_up : ℕ → ℕ → List Number
count_up n zero = []
count_up n (suc k) = num (n + 1) ∷ count_up (n + 1) k

module _ (kv : IkvStore) (client : Text) where
  open kv use {Store}

  -- The record of nonces that was written last for a channel is what is read for it; writing it
  -- touches the record of no other channel.
  pub get_latest_nonces-set :
      (channel other : Text) (nonces : Map ℕ) (st : Store)
      → get_latest_nonces kv client other (set_latest_nonces kv client channel nonces st)
        ≡ (if text_eq channel other then some nonces else get_latest_nonces kv client other st)
  unfolding get_latest_nonces set_latest_nonces
  get_latest_nonces-set channel other nonces st =
      simp (kv.get-set, transport_keys) (ground (arith, entries-from_entries nonces))

  -- How often the counter of a channel was advanced: the nonce that it holds.
  unfoldable pub counter : Text → Store → Number
  counter channel st = current_nonce kv client (kv.get st (nonce_key client channel))

  counter-set :
      (channel other : Text) (n : ℕ) (st : Store)
      → counter other (kv.set st (nonce_key client channel) (json (number n)))
        ≡ (if text_eq channel other then num n else counter other st)
  unfolding counter current_nonce parse_int
  counter-set channel other n st = simp (kv.get-set, transport_keys) (ground arith)

  -- A nonce is one more than the last on its channel, and no other channel's counter moves.
  pub counter-next :
      (channel other : Text) (n : ℕ) (st : Store)
      → counter channel st ≡ num n
      → ((get_next_nonce kv client channel st).0 ≡ num (n + 1))
        × (counter other (get_next_nonce kv client channel st).1
            ≡ (if text_eq channel other then num (n + 1) else counter other st))
  unfolding get_next_nonce
  counter-next channel other n st e =
      let read : current_nonce kv client (kv.get st (nonce_key client channel)) ≡ num n =
        unfold counter in e in
      rw read (refl, counter-set channel other (n + 1) st)

  -- Clearing a channel starts its counter afresh and forgets the senders seen on it; no other
  -- channel is touched.
  pub clear_lem :
      (channel other : Text) (st : Store)
      → (counter other (clear kv client channel st)
          ≡ (if text_eq channel other then num 0 else counter other st))
        × (get_latest_nonces kv client other (clear kv client channel st)
            ≡ (if text_eq channel other then some [] else get_latest_nonces kv client other st))
  unfolding counter current_nonce clear get_latest_nonces latest_of
  clear_lem channel other st = (
    simp (kv.get-delete, transport_keys) (ground arith),
    simp (kv.get-delete, transport_keys) (ground arith),
  )

  -- The nonces of `k` messages on a channel, in the order of their sending.
  pub send_nonces : ℕ → Text → Store → List Number
  send_nonces zero channel st = []
  send_nonces (suc k) channel st =
      let (nonce, st') = get_next_nonce kv client channel st in nonce ∷ send_nonces k channel st'

  -- However many messages are sent on a channel, their nonces are consecutive, from the one after
  -- the counter's on.
  pub send_nonces-count_up :
      (k n : ℕ) (channel : Text) (st : Store)
      → counter channel st ≡ num n
      → send_nonces k channel st ≡ count_up n k
  unfolding send_nonces count_up
  send_nonces-count_up zero n channel st e = refl
  send_nonces-count_up (suc k) n channel st e =
      let step = counter-next channel channel n st e in
      ap₂ ◌∷◌ step.0 (
        send_nonces-count_up k (n + 1) channel (get_next_nonce kv client channel st).1
          (step.1 ∙ (rw (text_eq_refl channel) refl)))

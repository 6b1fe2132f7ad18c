-- ===== src/Transport/Delivery/Others.antt =====
-- A channel that both ends publish on: what a receiver makes of its own messages among the other's.
use mobile_wallet_protocol.Prelude.{
  ℕ, zero, suc, ◌≤◌, ◌≡◌, refl, ap, ◌∙◌, Text, text_eq, Bool-cases, inl, inr, Bool, true, false,
  none, some, List, [], ◌∷◌, ◌++◌, length, drop, arith, if◌then◌else◌,
}
use mobile_wallet_protocol.Json.{Str}
use mobile_wallet_protocol.Kv.{IkvStore}
use mobile_wallet_protocol.Transport.Incoming.{Event, read_message, receive, handle_incoming}
use mobile_wallet_protocol.Transport.History.{handle_each}

-- The text is a message of the client.
unfoldable pub is_own : Text → Str → Bool
is_own client raw = elim (read_message raw) [ none ↦ false | some m ↦ text_eq m.client_id client ]

-- The texts that are not messages of the client.
unfoldable pub others : Text → List Str → List Str
others client [] = []
others client (raw ∷ rest) =
    let later = others client rest in if is_own client raw then later else raw ∷ later

module _ (kv : IkvStore) (client channel : Text) where
  handle-own :
      (raw : Str) (st : kv.Store)
      → is_own client raw ≡ true
      → handle_incoming kv client channel raw st ≡ ([], st)
  unfolding is_own handle_incoming receive
  handle-own raw st own = ground (arith, own)

  own_first :
      (raw : Str) (rest : List Str) (st : kv.Store)
      → is_own client raw ≡ true
      → handle_each kv client channel (raw ∷ rest) st ≡ handle_each kv client channel rest st
  unfolding handle_each
  own_first raw rest st own =
      ap
        (λ (r : List Event × kv.Store).
          let (more, st') = handle_each kv client channel rest r.1 in (r.0 ++ more, st'))
        (handle-own raw st own)

  -- The receiver's own messages change nothing.
  pub handle_each-others :
      (raws : List Str) (st : kv.Store)
      → handle_each kv client channel raws st
        ≡ handle_each kv client channel (others client raws) st
  unfolding handle_each others
  handle_each-others [] st = refl
  handle_each-others (raw ∷ rest) st = elim (Bool-cases (is_own client raw)) [
    | inl own ↦ rw own (own_first raw rest st own ∙ handle_each-others rest st)
    | inr other ↦
        let first = handle_incoming kv client channel raw st in
        rw other (
          ap (λ (r : List Event × kv.Store). (first.0 ++ r.0, r.1))
            (handle_each-others rest first.1))
  ]

module _ (client : Text) where
  pub others-append :
      (xs ys : List Str) → others client (xs ++ ys) ≡ others client xs ++ others client ys
  unfolding others
  others-append [] ys = refl
  others-append (x ∷ xs) ys = ground (arith, others-append xs ys)

  -- Without a first part of a channel, a first part of the other's messages is missing.
  pub others-drop :
      (k : ℕ) (xs : List Str)
      → (j : ℕ) × (j ≤ length (others client xs))
        × (others client (drop k xs) ≡ drop j (others client xs))
  unfolding others
  others-drop zero xs = (0, omega arith, refl)
  others-drop (suc k) [] = (0, omega arith, refl)
  others-drop (suc k) (x ∷ xs) =
      let (j, le, e) = others-drop k xs in
      elim (Bool-cases (is_own client x)) [
        | inl own ↦ rw own (j, le, e)
        | inr other ↦ rw other (suc j, omega (arith, le), e)
      ]

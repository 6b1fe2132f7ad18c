-- ===== src/Transport/Storage/Keys.antt =====
-- The keys of the transport's storage: one for each use and channel.
use mobile_wallet_protocol.Prelude.{
  ◌≡◌, refl, ◌∙◌, Text, codes, text_eq, text_eq-append, false, ◌++◌,
}
use mobile_wallet_protocol.Transport.Storage.{client_id_key, nonce_key, latest_nonces_key}

pub nonce_key-eq : (c a b : Text) → text_eq (nonce_key c a) (nonce_key c b) ≡ text_eq a b
unfolding nonce_key
nonce_key-eq c a b =
    text_eq-append (codes "nonce:") (c ++ (codes ":" ++ a)) (c ++ (codes ":" ++ b))
    ∙ (text_eq-append c (codes ":" ++ a) (codes ":" ++ b) ∙ text_eq-append (codes ":") a b)

pub latest_nonces_key-eq :
    (c a b : Text) → text_eq (latest_nonces_key c a) (latest_nonces_key c b) ≡ text_eq a b
unfolding latest_nonces_key
latest_nonces_key-eq c a b =
    text_eq-append (codes "latest-nonces:") (c ++ (codes ":" ++ a)) (c ++ (codes ":" ++ b))
    ∙ (text_eq-append c (codes ":" ++ a) (codes ":" ++ b) ∙ text_eq-append (codes ":") a b)

pub nonce-ne-latest : (c d a b : Text) → text_eq (nonce_key c a) (latest_nonces_key d b) ≡ false
unfolding nonce_key latest_nonces_key text_eq
nonce-ne-latest c d a b = refl

pub latest-ne-nonce : (c d a b : Text) → text_eq (latest_nonces_key c a) (nonce_key d b) ≡ false
unfolding nonce_key latest_nonces_key text_eq
latest-ne-nonce c d a b = refl

pub nonce-ne-client : (c a : Text) → text_eq (nonce_key c a) client_id_key ≡ false
unfolding nonce_key client_id_key text_eq
nonce-ne-client c a = refl

pub latest-ne-client : (c a : Text) → text_eq (latest_nonces_key c a) client_id_key ≡ false
unfolding latest_nonces_key client_id_key text_eq
latest-ne-client c a = refl

pub ruleset transport_keys = (
  nonce_key-eq, latest_nonces_key-eq, nonce-ne-latest, latest-ne-nonce, nonce-ne-client,
  latest-ne-client,
)

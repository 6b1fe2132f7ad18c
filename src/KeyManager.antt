-- ===== src/KeyManager.antt =====
-- apps/rn-demo/lib/KeyManager.ts and apps/web-demo/src/lib/KeyManager.ts: the key manager of the
-- demonstrations, over eciesjs, and apps/load-tests/src/client/key-manager.ts, the mock of the load
-- tests.
--
-- The encryption of eciesjs and the UTF-8 of the platform's Buffer are parameters; base64 is the
-- Buffer's.
use mobile_wallet_protocol.Prelude.{
  ℕ, zero, suc, ◌≡◌, ap, sym, ◌∙◌, Text, Bool, true, Option, none, some, Option-cases, inl, inr, [],
  ◌∷◌, arith,
}
use mathlib.Core.Option.{some-injective}
use mobile_wallet_protocol.Domain.{Bytes, KeyPair, Session}
use mobile_wallet_protocol.Json.{Str}
use mobile_wallet_protocol.Base64.{AreBytes}
use mobile_wallet_protocol.Base64
use mobile_wallet_protocol.Base64.RoundTrip.{decode-encode}
use mobile_wallet_protocol.Client.{IKeyManager, Log}
use mobile_wallet_protocol.Conversation.{Opens}

-- `Buffer.from(s, "utf8")` and `toString("utf8")`.
pub record Utf8 : Type 0 where
  pub to_bytes : Str → Bytes
  pub from_bytes : Bytes → Str

-- eciesjs: new keys, the check of a public key, and the encryption; `none` is an exception.
pub record Ecies : Type 0 where
  pub new_keys : Log → KeyPair
  pub is_public_key : Bytes → Bool
  pub encrypt : Bytes → Bytes → Option Bytes
  pub decrypt : Bytes → Bytes → Option Bytes

abbrev to_base64 : Option Bytes → Option Text
to_base64 none = none
to_base64 (some bytes) = some (Base64.encode bytes)

abbrev to_text : Utf8 → Option Bytes → Option Str
to_text utf8 none = none
to_text utf8 (some bytes) = some (utf8.from_bytes bytes)

pub key_manager : Utf8 → Ecies → IKeyManager
key_manager utf8 ecies = record {
  generate_key_pair = ecies.new_keys;
  encrypt = λ plaintext their_public_key.
      to_base64 (ecies.encrypt their_public_key (utf8.to_bytes plaintext));
  decrypt = λ encrypted my_private_key.
      to_text utf8 (ecies.decrypt my_private_key (Base64.decode encrypted));
  validate_peer_key = ecies.is_public_key;
}

-- The mock's keys: 32 bytes 0x42 and 33 bytes 0x43.
abbrev fill : ℕ → ℕ → Bytes
fill zero b = []
fill (suc n) b = b ∷ fill n b

pub mock_key_manager : Utf8 → IKeyManager
mock_key_manager utf8 = record {
  generate_key_pair = λ log. record { public_key = fill 33 67; private_key = fill 32 66 };
  encrypt = λ plaintext their_public_key. some (Base64.encode (utf8.to_bytes plaintext));
  decrypt = λ encrypted my_private_key. some (utf8.from_bytes (Base64.decode encrypted));
  validate_peer_key = λ key. true;
}

-- What is read back of the bytes of a text is the text, and a text is made of bytes.
pub record IsUtf8 (utf8 : Utf8) : Type 0 where
  pub read_back : (s : Str) → utf8.from_bytes (utf8.to_bytes s) ≡ s
  pub bytes : (s : Str) → AreBytes (utf8.to_bytes s)

-- What was encrypted for a key pair is decrypted with it, and is made of bytes.
pub record Decrypts (ecies : Ecies) (keys : KeyPair) : Type 0 where
  pub undone :
      (plain sealed : Bytes)
      → ecies.encrypt keys.public_key plain ≡ some sealed
      → ecies.decrypt keys.private_key sealed ≡ some plain
  pub bytes :
      (plain sealed : Bytes) → ecies.encrypt keys.public_key plain ≡ some sealed → AreBytes sealed

-- The demonstrations' key managers decrypt with a session's key what was encrypted for it, where
-- eciesjs does for its key pair and UTF-8 reads back what it wrote.
pub key_manager-Opens :
    (utf8 : Utf8) (ecies : Ecies) (s : Session)
    → IsUtf8 utf8
    → Decrypts ecies s.key_pair
    → Opens (key_manager utf8 ecies) (key_manager utf8 ecies) s
unfolding key_manager
key_manager-Opens utf8 ecies s u v plain sealed e =
    elim (Option-cases (ecies.encrypt s.key_pair.public_key (utf8.to_bytes plain))) [
      | inl failed ↦ absurd (ground (arith, e, failed))
      | inr (hidden, made) ↦
          let written : some (Base64.encode hidden) ≡ some sealed = ap to_base64 (sym made) ∙ e in
          let back : Base64.decode sealed ≡ hidden =
            ap Base64.decode (sym (some-injective _ _ written))
            ∙ decode-encode hidden (v.bytes _ hidden made) in
          ap (λ (b : Bytes). to_text utf8 (ecies.decrypt s.key_pair.private_key b)) back
          ∙ ap (to_text utf8) (v.undone _ hidden made)
          ∙ ap (λ (t : Str). some t) (u.read_back plain)
    ]

-- The mock decrypts whatever it encrypts, for any keys.
pub mock_key_manager-Opens :
    (utf8 : Utf8) (s : Session)
    → IsUtf8 utf8
    → Opens (mock_key_manager utf8) (mock_key_manager utf8) s
unfolding mock_key_manager
mock_key_manager-Opens utf8 s u plain sealed e =
    ap (λ (t : Text). some (utf8.from_bytes (Base64.decode t))) (sym (some-injective _ _ e))
    ∙ ap (λ (b : Bytes). some (utf8.from_bytes b))
        (decode-encode (utf8.to_bytes plain) (u.bytes plain))
    ∙ ap (λ (t : Str). some t) (u.read_back plain)

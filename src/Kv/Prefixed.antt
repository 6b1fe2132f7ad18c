-- ===== src/Kv/Prefixed.antt =====
-- apps/rn-demo/lib/AsyncStorageKVStore.ts and apps/web-demo/src/lib/localStorage-kvstore.ts: a
-- key-value store that keeps its entries in a storage of the platform, under a prefix.
--
-- The storage is not of the repository, and a parameter: it is taken to be a key-value store
-- itself. A read that fails counts as a missing key in the code; failures are not modelled.
use mobile_wallet_protocol.Prelude.{
  ◌≡◌, refl, ap, ◌∙◌, Text, codes, text_eq, text_eq-append, false, none, some, ◌++◌, if◌then◌else◌,
}
use mobile_wallet_protocol.Json.{Str}
use mobile_wallet_protocol.Kv.{IkvStore}

-- The default of the constructors.
abbrev pub default_prefix : Text
default_prefix = codes "mwp-"

-- `getKey`.
abbrev pub get_key : Text → Text → Text
get_key prefix key = prefix ++ key

pub text_eq-get_key :
    (prefix k j : Text) → text_eq (get_key prefix k) (get_key prefix j) ≡ text_eq k j
text_eq-get_key prefix k j = text_eq-append prefix k j

-- The class: `getItem`, `setItem` and `removeItem` at the prefixed key. It is a key-value store.
abbrev pub prefixed : IkvStore → Text → IkvStore
prefixed storage prefix = record {
  Store = storage.Store;
  get = λ st key. storage.get st (get_key prefix key);
  set = λ st key value. storage.set st (get_key prefix key) value;
  delete = λ st key. storage.delete st (get_key prefix key);
  get-set = λ st k j value.
      storage.get-set st (get_key prefix k) (get_key prefix j) value
      ∙ ap (λ b. if b then some value else storage.get st (get_key prefix j))
          (text_eq-get_key prefix k j);
  get-delete = λ st k j.
      storage.get-delete st (get_key prefix k) (get_key prefix j)
      ∙ ap (λ b. if b then none else storage.get st (get_key prefix j))
          (text_eq-get_key prefix k j);
}

-- Neither prefix begins the other.
abbrev pub Apart : Text → Text → Type 0
Apart p q = (k j : Text) → text_eq (get_key p k) (get_key q j) ≡ false

-- Two stores over one storage, with such prefixes, do not see each other's writes and deletes.
pub stores_separate :
    (storage : IkvStore) (p q : Text) (st : storage.Store) (k j : Text) (value : Str)
    → Apart p q
    → ((prefixed storage q).get ((prefixed storage p).set st k value) j
        ≡ (prefixed storage q).get st j)
      × ((prefixed storage q).get ((prefixed storage p).delete st k) j
          ≡ (prefixed storage q).get st j)
stores_separate storage p q st k j value apart = (
  storage.get-set st (get_key p k) (get_key q j) value ∙ (rw (apart k j) refl),
  storage.get-delete st (get_key p k) (get_key q j) ∙ (rw (apart k j) refl),
)

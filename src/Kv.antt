-- ===== src/Kv.antt =====
-- packages/core/src/domain/kv-store.ts, the storage that a client is given, and the store of
-- apps/load-tests/src/utils/kvstore.ts, which keeps a `Map`.
--
-- A call returns the new storage. That a call may fail (a full disk) is not modelled.
pub mod Prefixed
use mobile_wallet_protocol.Prelude.{
  ◌≡◌, refl, Text, text_eq, text_eq_iff, Option, none, some, List, [], ◌∷◌, arith, if◌then◌else◌,
}
use mobile_wallet_protocol.Json.{Str}

-- The laws say what a key-value store is: a write is read back and touches no other key.
pub record IkvStore : Type 1 where
  pub Store : Type 0
  pub get : Store → Text → Option Str
  pub set : Store → Text → Str → Store
  pub delete : Store → Text → Store
  pub get-set :
      (s : Store) (k j : Text) (v : Str)
      → get (set s k v) j ≡ (if text_eq k j then some v else get s j)
  pub get-delete :
      (s : Store) (k j : Text) → get (delete s k) j ≡ (if text_eq k j then none else get s j)

-- A `Map` as a list of its entries.
abbrev pub Map {ℓ} : Type ℓ → Type ℓ
Map V = List (Text × V)

module _ {ℓ} {V : Type ℓ} where
  unfoldable pub map_get : Map V → Text → Option V
  map_get [] k = none
  map_get ((j, v) ∷ m) k = if text_eq j k then some v else map_get m k

  unfoldable pub map_set : Map V → Text → V → Map V
  map_set [] k v = (k, v) ∷ []
  map_set ((j, w) ∷ m) k v = if text_eq j k then (j, v) ∷ m else (j, w) ∷ map_set m k v

  unfoldable pub map_delete : Map V → Text → Map V
  map_delete [] k = []
  map_delete ((j, w) ∷ m) k =
      let rest = map_delete m k in if text_eq j k then rest else (j, w) ∷ rest

  pub map_get-map_set :
      (m : Map V) (k j : Text) (v : V)
      → map_get (map_set m k v) j ≡ (if text_eq k j then some v else map_get m j)
  unfolding map_get map_set
  map_get-map_set [] k j v = refl
  map_get-map_set ((i, w) ∷ m) k j v =
      ground (arith, map_get-map_set m k j v, text_eq_iff i k, text_eq_iff i j, text_eq_iff k j)

  pub map_get-map_delete :
      (m : Map V) (k j : Text)
      → map_get (map_delete m k) j ≡ (if text_eq k j then none else map_get m j)
  unfolding map_get map_delete
  map_get-map_delete [] k j = ground arith
  map_get-map_delete ((i, w) ∷ m) k j =
      ground (arith, map_get-map_delete m k j, text_eq_iff i k, text_eq_iff i j, text_eq_iff k j)

-- `InMemoryKVStore` meets the laws.
abbrev pub in_memory : IkvStore
in_memory = record {
  Store = Map Str;
  get = map_get;
  set = map_set;
  delete = map_delete;
  get-set = map_get-map_set;
  get-delete = map_get-map_delete;
}

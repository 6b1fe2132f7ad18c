-- ===== src/SessionStore.antt =====
-- packages/core/src/session-store/index.ts: the sessions of a client under `session:<id>`, and the
-- list of their identifiers under `sessions:master-list`.
--
-- Each method takes the clock and the storage and returns the new storage. The mutex makes the
-- updates of the master list atomic, so a method runs as one step. A stored value that parses but
-- whose fields have not the types that the code asserts of them (`SerializableSession`, `string[]`)
-- is taken for a corrupted one.
pub mod Codec
pub mod Keys
pub mod MasterList
pub mod View
pub mod Listing
pub mod Refinement
pub mod Footprint
use mobile_wallet_protocol.Prelude.{
  ℕ, ◌*◌, Text, codes, includes, without, Bool, true, false, ◌||◌, Option, none, some, List, [],
  ◌∷◌, ◌++◌, if◌then◌else◌,
}
use mobile_wallet_protocol.Domain.{
  Number, Session, Result, ok, err, session_error, session_save_failed, not_before, before, is_nan,
}
use mobile_wallet_protocol.Json.{
  Json, array, Str, json, stringify, parse, is_falsy, of_strings, to_strings, as_number, get_field,
}
use mobile_wallet_protocol.Json
use mobile_wallet_protocol.Kv.{IkvStore}
use Codec.{encode_session, decode_session}

-- Thirty days in milliseconds.
abbrev pub default_session_ttl : ℕ
default_session_ttl = 30 * 24 * 60 * 60 * 1000

-- `getSessionKey` and `MASTER_LIST_KEY`.
unfoldable pub session_key : Text → Text
session_key id = codes "session:" ++ id

unfoldable pub master_list_key : Text
master_list_key = codes "sessions:master-list"

-- `JSON.parse(raw) as string[]`.
abbrev pub list_of : Option Json → List Text
list_of (some (array xs)) = to_strings xs
list_of (some Json.null) = []
list_of (some (Json.boolean b)) = []
list_of (some (Json.number n)) = []
list_of (some (Json.string t)) = []
list_of (some (Json.object fs)) = []
list_of none = []

abbrev pub master_list_of : Option Str → List Text
master_list_of none = []
master_list_of (some raw) = if is_falsy raw then [] else list_of (parse raw)

-- The test of `get` on `data.expiresAt`: a number, and not in the past.
abbrev pub is_live : ℕ → Json → Bool
is_live now v = elim (as_number (get_field (codes "expiresAt") v)) [
  | none ↦ false
  | some n ↦ not_before (Number.num n) now
]

-- `if (session) sessions.push(session)`.
abbrev pub gather : Option Session → List Session → List Session
gather none found = found
gather (some session) found = session ∷ found

module _ (kv : IkvStore) where
  open kv use {Store}

  pub get_master_list : Store → List Text
  get_master_list st = master_list_of (kv.get st master_list_key)

  pub add_to_master_list : Text → Store → Store
  add_to_master_list id st =
      let ids = get_master_list st in
      if includes ids id
      then st
      else kv.set st master_list_key (stringify (array (of_strings (ids ++ id ∷ []))))

  pub remove_from_master_list : Text → Store → Store
  remove_from_master_list id st =
      kv.set st master_list_key (stringify (array (of_strings (without id (get_master_list st)))))

  pub set : ℕ → Session → Store → Result (Unit {0}) × Store
  set now session st =
      if is_nan session.expires_at || before session.expires_at now
      then (err (session_error session_save_failed), st)
      else (
        ok tt,
        add_to_master_list session.id
            (kv.set st (session_key session.id) (stringify (encode_session session))),
      )

  pub delete : Text → Store → Store
  delete id st = remove_from_master_list id (kv.delete st (session_key id))

  -- What `get` makes of the parsed value: an expired or corrupted session is deleted.
  load : ℕ → Text → Store → Option Json → Option Session × Store
  load now id st none = (none, delete id st)
  load now id st (some v) =
      if is_live now v
      then elim (decode_session v) [
        | none ↦ (none, delete id st)
        | some session ↦ (some session, st)
      ]
      else (none, delete id st)

  pub get : ℕ → Text → Store → Option Session × Store
  unfolding load
  get now id st = elim (kv.get st (session_key id)) [
    | none ↦ (none, st)
    | some raw ↦ if is_falsy raw then (none, st) else load now id st (parse raw)
  ]

  -- The loop of `list`; `garbage_collect` drops the sessions that it finds.
  pub get_all : ℕ → List Text → Store → List Session × Store
  get_all now [] st = ([], st)
  get_all now (id ∷ ids) st =
      let (session, st') = get now id st in
      let (found, st'') = get_all now ids st' in (gather session found, st'')

  pub list : ℕ → Store → List Session × Store
  list now st = get_all now (get_master_list st) st

  pub garbage_collect : ℕ → Store → Store
  garbage_collect now st = (get_all now (get_master_list st) st).1

  -- `SessionStore.create`.
  pub create : ℕ → Store → Store
  create now st = garbage_collect now st

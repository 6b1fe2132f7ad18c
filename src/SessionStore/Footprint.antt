-- ===== src/SessionStore/Footprint.antt =====
-- The keys that the session store reads and writes.
use mobile_wallet_protocol.Prelude.{
  ℕ, ◌≡◌, refl, ap, ◌∙◌, Text, text_eq, false, includes, Bool-cases, inl, inr, List, [], ◌∷◌, arith,
}
use mobile_wallet_protocol.Domain.{Session}
use mobile_wallet_protocol.Json.{json}
use mobile_wallet_protocol.Kv.{IkvStore}
use mobile_wallet_protocol.SessionStore.{
  session_key, master_list_key, get_master_list, master_list_of, add_to_master_list,
  remove_from_master_list, set, delete, get, get_all, list, garbage_collect, create,
}
use mobile_wallet_protocol.SessionStore.Codec.{encode_session}
use mobile_wallet_protocol.SessionStore.MasterList.{
  Call, sets, gets, deletes, lists, collects, call, calls, get_cases,
}
use mobile_wallet_protocol.SessionStore.View.{view, stored_session}

-- A key that no session is stored under, nor the list of sessions.
pub record IsForeign (j : Text) : Type 0 where
  pub sessions : (id : Text) → text_eq (session_key id) j ≡ false
  pub master : text_eq master_list_key j ≡ false

module _ (kv : IkvStore) where
  open kv use {Store}

  module _ (j : Text) (f : IsForeign j) where
    delete_keeps : (id : Text) (st : Store) → kv.get (delete kv id st) j ≡ kv.get st j
    unfolding delete remove_from_master_list
    delete_keeps id st = simp (kv.get-set, kv.get-delete, f.sessions id, f.master) refl

    add_keeps : (id : Text) (st : Store) → kv.get (add_to_master_list kv id st) j ≡ kv.get st j
    unfolding add_to_master_list
    add_keeps id st = elim (Bool-cases (includes (get_master_list kv st) id)) [
      | inl known ↦ rw known refl
      | inr new ↦ rw new (simp (kv.get-set, f.master) refl)
    ]

    set_keeps : (now : ℕ) (s : Session) (st : Store) → kv.get (set kv now s st).1 j ≡ kv.get st j
    unfolding set
    set_keeps now s st =
        let stored = kv.set st (session_key s.id) (json (encode_session s)) in
        ground (
          arith,
          add_keeps s.id stored,
          kv.get-set st (session_key s.id) j (json (encode_session s)),
          f.sessions s.id,
        )

    get_keeps : (now : ℕ) (id : Text) (st : Store) → kv.get (get kv now id st).1 j ≡ kv.get st j
    get_keeps now id st =
        get_cases kv (λ (u : Store). kv.get u j ≡ kv.get st j) now id st refl (delete_keeps id st)

    get_all_keeps :
        (now : ℕ) (ids : List Text) (st : Store) → kv.get (get_all kv now ids st).1 j ≡ kv.get st j
    unfolding get_all
    get_all_keeps now [] st = refl
    get_all_keeps now (id ∷ ids) st =
        get_all_keeps now ids (get kv now id st).1 ∙ get_keeps now id st

    call_keeps : (now : ℕ) (c : Call) (st : Store) → kv.get (call kv now c st) j ≡ kv.get st j
    unfolding call list create garbage_collect
    call_keeps now (sets s) st = set_keeps now s st
    call_keeps now (gets id) st = get_keeps now id st
    call_keeps now (deletes id) st = delete_keeps id st
    call_keeps now lists st = get_all_keeps now (get_master_list kv st) st
    call_keeps now collects st = get_all_keeps now (get_master_list kv st) st

    -- The methods change nothing under such a key.
    pub calls_keep : (cs : List (ℕ × Call)) (st : Store) → kv.get (calls kv cs st) j ≡ kv.get st j
    unfolding calls
    calls_keep [] st = refl
    calls_keep ((now, c) ∷ cs) st = calls_keep cs (call kv now c st) ∙ call_keeps now c st

  pub view-congr :
      (now : ℕ) (id : Text) (u st : Store)
      → kv.get u (session_key id) ≡ kv.get st (session_key id)
      → view kv now u id ≡ view kv now st id
  unfolding view
  view-congr now id u st e = ap (stored_session now) e

  pub get_master_list-congr :
      (u st : Store)
      → kv.get u master_list_key ≡ kv.get st master_list_key
      → get_master_list kv u ≡ get_master_list kv st
  unfolding get_master_list
  get_master_list-congr u st e = ap master_list_of e

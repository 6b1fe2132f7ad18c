-- ===== src/SessionStore/MasterList.antt =====
-- The master list names each stored session once, after any method.
use mobile_wallet_protocol.Prelude.{
  ℕ, ◌≡◌, refl, ap, ◌∙◌, Text, text_eq, text_eq_refl, text_eq_iff, includes, without,
  includes-append, includes-without, AllDistinct, append-AllDistinct, without-AllDistinct, true,
  ◌||◌, Bool-cases, inl, inr, is_some, none, List, [], ◌∷◌, ◌++◌, arith, if◌then◌else◌,
}
use mobile_wallet_protocol.Domain.{Session, is_nan, before}
use mobile_wallet_protocol.Json.{of_strings, to_strings, Str, json, array}
use mobile_wallet_protocol.Kv.{IkvStore}
use mobile_wallet_protocol.SessionStore.{
  session_key, master_list_key, get_master_list, add_to_master_list, remove_from_master_list, set,
  delete, load, get, get_all, list, garbage_collect, create,
}
use mobile_wallet_protocol.SessionStore.Codec.{encode_session}
use mobile_wallet_protocol.SessionStore.Keys.{session_key-eq, key_laws}

to_strings-of_strings : (ts : List Text) → to_strings (of_strings ts) ≡ ts
unfolding to_strings of_strings
to_strings-of_strings [] = refl
to_strings-of_strings (t ∷ ts) = ap (◌∷◌ t) (to_strings-of_strings ts)

module _ (kv : IkvStore) where
  open kv use {Store}

  -- What a write of the master list leaves.
  get_master_list-set :
      (ids : List Text) (st : Store)
      → get_master_list kv (kv.set st master_list_key (json (array (of_strings ids)))) ≡ ids
  unfolding get_master_list
  get_master_list-set ids st =
      rw (kv.get-set st master_list_key master_list_key, text_eq_refl master_list_key)
        (to_strings-of_strings ids)

  get_master_list-set_session :
      (id : Text) (v : Str) (st : Store)
      → get_master_list kv (kv.set st (session_key id) v) ≡ get_master_list kv st
  unfolding get_master_list
  get_master_list-set_session id v st = simp (kv.get-set, key_laws)

  get_master_list-delete_session :
      (id : Text) (st : Store)
      → get_master_list kv (kv.delete st (session_key id)) ≡ get_master_list kv st
  unfolding get_master_list
  get_master_list-delete_session id st = simp (kv.get-delete, key_laws)

  get_master_list-add :
      (id : Text) (st : Store)
      → get_master_list kv (add_to_master_list kv id st) ≡ (
          if includes (get_master_list kv st) id
          then get_master_list kv st
          else get_master_list kv st ++ id ∷ [])
  unfolding add_to_master_list
  get_master_list-add id st = elim (Bool-cases (includes (get_master_list kv st) id)) [
    | inl e ↦ rw e
    | inr e ↦ rw e (get_master_list-set (get_master_list kv st ++ id ∷ []) st)
  ]

  get_master_list-remove :
      (id : Text) (st : Store)
      → get_master_list kv (remove_from_master_list kv id st) ≡ without id (get_master_list kv st)
  unfolding remove_from_master_list
  get_master_list-remove id st = get_master_list-set (without id (get_master_list kv st)) st

  pub get-add :
      (id j : Text) (st : Store)
      → kv.get (add_to_master_list kv id st) (session_key j) ≡ kv.get st (session_key j)
  unfolding add_to_master_list
  get-add id j st = elim (Bool-cases (includes (get_master_list kv st) id)) [
    | inl e ↦ rw e
    | inr e ↦ rw e (simp (kv.get-set, key_laws))
  ]

  pub get-delete :
      (id j : Text) (st : Store)
      → kv.get (delete kv id st) (session_key j)
        ≡ (if text_eq id j then none else kv.get st (session_key j))
  unfolding delete remove_from_master_list
  get-delete id j st = simp (kv.get-set, kv.get-delete, key_laws)

  pub get_master_list-delete :
      (id : Text) (st : Store)
      → get_master_list kv (delete kv id st) ≡ without id (get_master_list kv st)
  unfolding delete
  get_master_list-delete id st =
      get_master_list-remove id (kv.delete st (session_key id))
      ∙ ap (without id) (get_master_list-delete_session id st)

  -- The master list names no identifier twice, and every identifier that has an entry.
  pub record IsIndexed (st : Store) : Type 0 where
    pub distinct : AllDistinct (get_master_list kv st)
    pub covers :
        (id : Text)
        → is_some (kv.get st (session_key id)) ≡ true
        → includes (get_master_list kv st) id ≡ true

  -- An empty storage is in order.
  pub empty-IsIndexed : (st : Store) → ((key : Text) → kv.get st key ≡ none) → IsIndexed st
  unfolding get_master_list
  empty-IsIndexed st h = record {
    distinct = rw (h master_list_key) tt;
    covers = λ id. rw (h (session_key id)) (λ e. cc);
  }

  -- A `get` changes nothing, or deletes the session that it was asked for.
  pub get_cases {ℓ} :
      (P : Store → Type ℓ) (now : ℕ) (id : Text) (st : Store)
      → P st
      → P (delete kv id st)
      → P (get kv now id st).1
  unfolding get load
  get_cases P now id st same deleted = ground arith

  pub delete-IsIndexed : (id : Text) (st : Store) → IsIndexed st → IsIndexed (delete kv id st)
  delete-IsIndexed id st v = record {
    distinct =
        rw (get_master_list-delete id st)
          (without-AllDistinct id (get_master_list kv st) v.distinct);
    covers = λ j h.
        rw (get_master_list-delete id st, includes-without id j (get_master_list kv st))
          (ground (arith, get-delete id j st, v.covers j));
  }

  pub add-IsIndexed :
      (id : Text) (v : Str) (st : Store)
      → IsIndexed st
      → IsIndexed (add_to_master_list kv id (kv.set st (session_key id) v))
  add-IsIndexed id v st i = record {
    distinct =
        rw
          (
            get_master_list-add id (kv.set st (session_key id) v),
            get_master_list-set_session id v st,
          )
          (ground (arith, i.distinct, append-AllDistinct id (get_master_list kv st)));
    covers = λ j h.
        rw
          (
            get_master_list-add id (kv.set st (session_key id) v),
            get_master_list-set_session id v st,
          )
          (ground (
            arith,
            get-add id j (kv.set st (session_key id) v),
            kv.get-set st (session_key id) (session_key j) v,
            session_key-eq id j,
            text_eq_iff id j,
            i.covers j,
            includes-append id j (get_master_list kv st),
          ));
  }

  pub set-IsIndexed :
      (now : ℕ) (s : Session) (st : Store) → IsIndexed st → IsIndexed (set kv now s st).1
  unfolding set
  set-IsIndexed now s st v = elim (Bool-cases (is_nan s.expires_at || before s.expires_at now)) [
    | inl e ↦ rw e v
    | inr e ↦ rw e (add-IsIndexed s.id (json (encode_session s)) st v)
  ]

  pub get-IsIndexed :
      (now : ℕ) (id : Text) (st : Store) → IsIndexed st → IsIndexed (get kv now id st).1
  get-IsIndexed now id st v = get_cases IsIndexed now id st v (delete-IsIndexed id st v)

  get_all-IsIndexed :
      (now : ℕ) (ids : List Text) (st : Store) → IsIndexed st → IsIndexed (get_all kv now ids st).1
  unfolding get_all
  get_all-IsIndexed now [] st v = v
  get_all-IsIndexed now (id ∷ ids) st v =
      get_all-IsIndexed now ids (get kv now id st).1 (get-IsIndexed now id st v)

-- The public methods of a session store.
pub data Call : Type 0 where
  sets : Session → Call
  gets deletes : Text → Call
  lists collects : Call

module _ (kv : IkvStore) where
  unfoldable pub call : ℕ → Call → kv.Store → kv.Store
  call now (sets s) st = (set kv now s st).1
  call now (gets id) st = (get kv now id st).1
  call now (deletes id) st = delete kv id st
  call now lists st = (list kv now st).1
  call now collects st = create kv now st

  unfoldable pub calls : List (ℕ × Call) → kv.Store → kv.Store
  calls [] st = st
  calls ((now, c) ∷ cs) st = calls cs (call now c st)

  pub call-IsIndexed :
      (now : ℕ) (c : Call) (st : kv.Store) → IsIndexed kv st → IsIndexed kv (call now c st)
  unfolding call list create garbage_collect
  call-IsIndexed now (sets s) st v = set-IsIndexed kv now s st v
  call-IsIndexed now (gets id) st v = get-IsIndexed kv now id st v
  call-IsIndexed now (deletes id) st v = delete-IsIndexed kv id st v
  call-IsIndexed now lists st v = get_all-IsIndexed kv now (get_master_list kv st) st v
  call-IsIndexed now collects st v = get_all-IsIndexed kv now (get_master_list kv st) st v

  -- Where the master list names each stored session, and each once, it keeps doing so, whatever
  -- methods run, at whatever times.
  pub calls-IsIndexed :
      (cs : List (ℕ × Call)) (st : kv.Store) → IsIndexed kv st → IsIndexed kv (calls cs st)
  unfolding calls
  calls-IsIndexed [] st v = v
  calls-IsIndexed ((now, c) ∷ cs) st v =
      calls-IsIndexed cs (call now c st) (call-IsIndexed now c st v)

-- ===== src/SessionStore/View.antt =====
-- The session store as a map from identifiers to live sessions, and each method on that map.
use mobile_wallet_protocol.Prelude.{
  ℕ, ◌≤◌, ◌≡◌, refl, Text, text_eq, text_eq_iff, true, false, is_some, Option, none, some, arith,
  if◌then◌else◌,
}
use mobile_wallet_protocol.Domain.{
  Number, num, nan, Session, ok, err, session_error, session_save_failed, not_before,
}
use mobile_wallet_protocol.Json.{Str, Json, json, parse, is_falsy, find_field}
use mobile_wallet_protocol.Kv.{IkvStore}
use mobile_wallet_protocol.SessionStore.{
  session_key, add_to_master_list, is_live, set, delete, load, get,
}
use mobile_wallet_protocol.SessionStore.Codec.{
  encode_session, decode_session, IsStorable, decode_session-encode_session,
}
use mobile_wallet_protocol.SessionStore.Keys.{session_key-eq}
use mobile_wallet_protocol.SessionStore.MasterList.{get-add, get-delete}

-- What a stored string stands for at a time: a session that has not expired, or nothing.
abbrev pub live_session : ℕ → Option Json → Option Session
live_session now none = none
live_session now (some v) = if is_live now v then decode_session v else none

pub stored_session : ℕ → Option Str → Option Session
stored_session now none = none
stored_session now (some raw) = if is_falsy raw then none else live_session now (parse raw)

-- Time only takes sessions away.
is_live_mono :
    (early late : ℕ) (v : Json) → early ≤ late → is_live early v ≡ false → is_live late v ≡ false
is_live_mono early late v h e = ground arith

is_live-encode_session :
    (now : ℕ) (s : Session) → is_live now (encode_session s) ≡ not_before s.expires_at now
unfolding encode_session find_field text_eq
is_live-encode_session now s = ground arith

live_session-encode_session :
    (now : ℕ) (s : Session)
    → IsStorable s
    → live_session now (some (encode_session s))
      ≡ (if not_before s.expires_at now then some s else none)
live_session-encode_session now s h = go s.expires_at refl
  where
    go :
        (e : Number)
        → s.expires_at ≡ e
        → live_session now (some (encode_session s))
          ≡ (if not_before s.expires_at now then some s else none)
    go (num n) e = rw (is_live-encode_session now s, decode_session-encode_session s n e h) refl
    go nan e = rw (is_live-encode_session now s, e) refl

module _ (kv : IkvStore) where
  open kv use {Store}

  unfoldable pub view : ℕ → Store → Text → Option Session
  view now st id = stored_session now (kv.get st (session_key id))

  -- `get` returns what the map holds: a session that was stored, is not corrupted and has not
  -- expired, and `null` in every other case.
  pub get-view : (now : ℕ) (id : Text) (st : Store) → (get kv now id st).0 ≡ view now st id
  unfolding get load view stored_session
  get-view now id st = ground arith

  -- A deleted session is gone, and no other is touched.
  pub view-delete :
      (now : ℕ) (id j : Text) (st : Store)
      → view now (delete kv id st) j ≡ (if text_eq id j then none else view now st j)
  unfolding view stored_session
  view-delete now id j st = rw (get-delete kv id j st) (ground arith)

  -- A `get` may delete what it was asked for, but from that time on nobody can tell: the map is the
  -- same, at every identifier.
  pub view-get :
      (early late : ℕ) (id j : Text) (st : Store)
      → early ≤ late
      → view late (get kv early id st).1 j ≡ view late st j
  unfolding get load view stored_session
  view-get early late id j st h = ground (arith, get-delete kv id j st, text_eq_iff id j)

  view-add :
      (now : ℕ) (id j : Text) (v : Json) (st : Store)
      → view now (add_to_master_list kv id (kv.set st (session_key id) (json v))) j
        ≡ (if text_eq id j then live_session now (some v) else view now st j)
  unfolding view stored_session
  view-add now id j v st =
      rw (get-add kv id j (kv.set st (session_key id) (json v)), kv.get-set, session_key-eq id j)
        (ground arith)

  -- Where the keys of a session are bytes and its expiry is not in the past, `set` makes it what
  -- the map holds under its identifier, until it expires; no other entry changes.
  pub view-set :
      (now later : ℕ) (s : Session) (st : Store) (j : Text)
      → IsStorable s
      → not_before s.expires_at now ≡ true
      → view later (set kv now s st).1 j ≡ (
          if text_eq s.id j
          then if not_before s.expires_at later then some s else none
          else view later st j)
  unfolding set
  view-set now later s st j h e =
      ground
        (arith, view-add later s.id j (encode_session s) st, live_session-encode_session later s h)

  -- `set` throws on a session that has expired or whose expiry is no number, and then stores
  -- nothing.
  pub set-rejects :
      (now : ℕ) (s : Session) (st : Store)
      → not_before s.expires_at now ≡ false
      → set kv now s st ≡ (err (session_error session_save_failed), st)
  unfolding set
  set-rejects now s st e = ground arith

  pub set-returns :
      (now : ℕ) (s : Session) (st : Store)
      → not_before s.expires_at now ≡ true
      → (set kv now s st).0 ≡ ok tt
  unfolding set
  set-returns now s st e = ground arith

  pub view-some_stored :
      (now : ℕ) (st : Store) (id : Text) (s : Session)
      → view now st id ≡ some s
      → is_some (kv.get st (session_key id)) ≡ true
  unfolding view stored_session
  view-some_stored now st id s e = ground arith

  -- Nothing is found where nothing is stored.
  pub view-missing :
      (now : ℕ) (id : Text) (st : Store) → kv.get st (session_key id) ≡ none → view now st id ≡ none
  unfolding view stored_session
  view-missing now id st e = ground arith

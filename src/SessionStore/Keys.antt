-- ===== src/SessionStore/Keys.antt =====
-- The keys of the storage do not collide: sessions have a key each, apart from the master list's.
use mobile_wallet_protocol.Prelude.{◌≡◌, refl, Text, codes, text_eq, text_eq-append, false}
use mobile_wallet_protocol.SessionStore.{session_key, master_list_key}

pub session_key-eq : (a b : Text) → text_eq (session_key a) (session_key b) ≡ text_eq a b
unfolding session_key
session_key-eq a b = text_eq-append (codes "session:") a b

pub session_key-ne-master : (id : Text) → text_eq (session_key id) master_list_key ≡ false
unfolding session_key master_list_key text_eq
session_key-ne-master id = refl

pub master-ne-session_key : (id : Text) → text_eq master_list_key (session_key id) ≡ false
unfolding session_key master_list_key text_eq
master-ne-session_key id = refl

pub ruleset key_laws = (session_key-eq, session_key-ne-master, master-ne-session_key)

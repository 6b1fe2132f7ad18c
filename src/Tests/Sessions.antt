-- ===== src/Tests/Sessions.antt =====
-- The theorems on the session store at concrete sessions.
use mobile_wallet_protocol.Prelude.{◌≡◌, refl, codes, text_eq, some, [], ◌∷◌, arith}
use mobile_wallet_protocol.Kv.{in_memory, map_get}
use mobile_wallet_protocol.SessionStore.Codec.{IsStorable}
use mobile_wallet_protocol.SessionStore.MasterList.{
  IsIndexed, sets, gets, lists, collects, calls, calls-IsIndexed, empty-IsIndexed,
}
use mobile_wallet_protocol.SessionStore.View.{view, view-set}
use mobile_wallet_protocol.Tests.{alice, one_session}

pub alice-IsStorable : IsStorable alice
alice-IsStorable = record {
  public = (omega arith, (omega arith, (omega arith, tt)));
  private = (omega arith, tt);
  theirs = (omega arith, (omega arith, tt));
}

empty-IsIndexed_memory : IsIndexed in_memory []
unfolding map_get
empty-IsIndexed_memory = empty-IsIndexed in_memory [] (λ key. refl)

calls-IsIndexed_example : IsIndexed in_memory (
    calls in_memory
      ((0, sets alice) ∷ (5, lists) ∷ (2000, gets (codes "a")) ∷ (2000, collects) ∷ [])
      [])
calls-IsIndexed_example = calls-IsIndexed in_memory _ [] empty-IsIndexed_memory

pub found : view in_memory 20 one_session (codes "a") ≡ some alice
unfolding text_eq
found = view-set in_memory 0 20 alice [] (codes "a") alice-IsStorable refl

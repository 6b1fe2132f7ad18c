-- ===== src/Utils/TimingSafeEqual.antt =====
-- packages/core/src/utils/timing-safe-equal.ts. A string is its UTF-16 code units, which are what
-- `charCodeAt` reads; a read past the end is NaN, which `^` takes for 0.
mod Bits
use Prim.Native.Nat.{bit_or, bit_xor}
use mobile_wallet_protocol.Prelude.{
  ℕ, zero, suc, ◌≡◌, ◌↔◌, refl, ap, Text, length, Bool, true, false, not, Bool-cases, inl, inr, [],
  ◌∷◌, arith, ◌==◌, ==_iff, if◌then◌else◌,
}
use Bits.{bit_or-zero, bit_xor-zero, bit_xor_self}

-- The loop: `result` collects the differing bits of every position.
collect : ℕ → Text → Text → ℕ
collect result [] b = result
collect result (x ∷ a) [] = collect (bit_or result (bit_xor x 0)) a []
collect result (x ∷ a) (y ∷ b) = collect (bit_or result (bit_xor x y)) a b

pub timing_safe_equal : Text → Text → Bool
unfolding collect
timing_safe_equal a b = if not (length a == length b) then false else collect 0 a b == 0

collect-zero : (r : ℕ) (a b : Text) → length a ≡ length b → collect r a b ≡ 0 → (r ≡ 0) × (a ≡ b)
unfolding collect
collect-zero r [] [] h e = (e, refl)
collect-zero r [] (y ∷ b) h e = absurd (omega arith)
collect-zero r (x ∷ a) [] h e = absurd (omega arith)
collect-zero r (x ∷ a) (y ∷ b) h e =
    let rest = collect-zero (bit_or r (bit_xor x y)) a b (omega arith) e in
    let clear = bit_or-zero r (bit_xor x y) rest.0 in
    (clear.0, ground (arith, bit_xor-zero x y clear.1, rest.1))

collect_self : (a : Text) → collect 0 a a ≡ 0
unfolding collect
collect_self [] = refl
collect_self (x ∷ a) = rw (bit_xor_self x) (collect_self a)

-- The comparison answers `true` exactly on equal strings.
pub timing_safe_equal_iff : (a b : Text) → (timing_safe_equal a b ≡ true) ↔ (a ≡ b)
unfolding timing_safe_equal
timing_safe_equal_iff a b = (
  λ h. (collect-zero 0 a b (ground arith) (ground arith)).1,
  λ e. rw (← e) (ground (arith, collect_self a)),
)

-- ===== src/Utils/TimingSafeEqual/Bits.antt =====
-- When `|` and `^` give zero.
use Prim.Native.Nat.{max, bit_or, bit_xor, bit_or-bitwise, bit_xor-bitwise, digits, differ}
use mobile_wallet_protocol.Prelude.{ℕ, zero, suc, ◌/◌, ◌%◌, ◌≤◌, ◌≡◌, refl, sym, ◌∙◌, ap, arith}

or_digits-zero : (n a b : ℕ) → a ≤ n → digits (λ y. y) max n a b ≡ 0 → (a ≡ 0) × (b ≡ 0)
or_digits-zero zero a b h e = (omega arith, e)
or_digits-zero (suc n) zero b h e = (refl, e)
or_digits-zero (suc n) (suc a) b h e =
    let halves = or_digits-zero n (suc a / 2) (b / 2) (omega arith) (omega arith) in
    (omega arith, omega arith)

pub bit_or-zero : (a b : ℕ) → bit_or a b ≡ 0 → (a ≡ 0) × (b ≡ 0)
bit_or-zero a b e = or_digits-zero a a b (omega arith) (sym (bit_or-bitwise a b) ∙ e)

differ-zero : (x y : ℕ) → differ x y ≡ 0 → x ≡ y
differ-zero zero y e = omega arith
differ-zero (suc x) zero e = e
differ-zero (suc x) (suc y) e = ap suc (differ-zero x y e)

differ_self : (x : ℕ) → differ x x ≡ 0
differ_self zero = refl
differ_self (suc x) = differ_self x

xor_digits-zero : (n a b : ℕ) → a ≤ n → digits (λ y. y) differ n a b ≡ 0 → a ≡ b
xor_digits-zero zero a b h e = omega arith
xor_digits-zero (suc n) zero b h e = omega arith
xor_digits-zero (suc n) (suc a) b h e =
    let halves = xor_digits-zero n (suc a / 2) (b / 2) (omega arith) (omega arith) in
    let low = differ-zero (suc a % 2) (b % 2) (omega arith) in omega arith

pub bit_xor-zero : (a b : ℕ) → bit_xor a b ≡ 0 → a ≡ b
bit_xor-zero a b e = xor_digits-zero a a b (omega arith) (sym (bit_xor-bitwise a b) ∙ e)

xor_digits_self : (n a : ℕ) → a ≤ n → digits (λ y. y) differ n a a ≡ 0
xor_digits_self zero a h = omega arith
xor_digits_self (suc n) zero h = refl
xor_digits_self (suc n) (suc a) h =
    omega (arith, xor_digits_self n (suc a / 2) (omega arith), differ_self (suc a % 2))

pub bit_xor_self : (a : ℕ) → bit_xor a a ≡ 0
bit_xor_self a = bit_xor-bitwise a a ∙ xor_digits_self a a (omega arith)

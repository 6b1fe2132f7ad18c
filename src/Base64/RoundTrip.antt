-- ===== src/Base64/RoundTrip.antt =====
-- Decoding what `encode` wrote gives the bytes back.
use mobile_wallet_protocol.Prelude.{ℕ, ◌+◌, ◌*◌, ◌/◌, ◌%◌, ◌<◌, ◌≡◌, refl, Text, [], ◌∷◌, arith}
use mobile_wallet_protocol.Domain.{Bytes}
use mobile_wallet_protocol.Base64.{
  digit, sextet, pad, encode, sextets, from_sextets, decode, AreBytes,
}

sextets-digit : (n : ℕ) (t : Text) → n < 64 → sextets (digit n ∷ t) ≡ n ∷ sextets t
unfolding sextets sextet digit
sextets-digit n t h = ground arith

sextets-pad : (t : Text) → sextets (pad ∷ t) ≡ []
unfolding sextets pad
sextets-pad t = refl

-- Two to four digits at a time, as `encode` writes them.
sextets_two :
    (p q : ℕ) → p < 64 → q < 64 → sextets (digit p ∷ digit q ∷ pad ∷ pad ∷ []) ≡ p ∷ q ∷ []
sextets_two p q hp hq = rw (sextets-digit p _ hp, sextets-digit q _ hq, sextets-pad (pad ∷ []))

sextets_three :
    (p q r : ℕ)
    → p < 64
    → q < 64
    → r < 64
    → sextets (digit p ∷ digit q ∷ digit r ∷ pad ∷ []) ≡ p ∷ q ∷ r ∷ []
sextets_three p q r hp hq hr =
    rw (sextets-digit p _ hp, sextets-digit q _ hq, sextets-digit r _ hr, sextets-pad [])

sextets_four :
    (p q r s : ℕ) (t : Text)
    → p < 64
    → q < 64
    → r < 64
    → s < 64
    → sextets (digit p ∷ digit q ∷ digit r ∷ digit s ∷ t) ≡ p ∷ q ∷ r ∷ s ∷ sextets t
sextets_four p q r s t hp hq hr hs =
    rw (sextets-digit p _ hp, sextets-digit q _ hq, sextets-digit r _ hr, sextets-digit s _ hs)

-- Encoding a byte array in base64 and decoding the text gives the same bytes, whatever the length.
pub decode-encode : (xs : Bytes) → AreBytes xs → decode (encode xs) ≡ xs
unfolding decode encode from_sextets
decode-encode [] h = unfold sextets in refl
decode-encode (a ∷ []) h =
    rw (sextets_two (a / 4) (a % 4 * 16) (omega arith) (omega arith)) (ground arith)
decode-encode (a ∷ b ∷ []) h =
    rw
      (sextets_three (a / 4) (a % 4 * 16 + b / 16) (b % 16 * 4) (omega arith) (omega arith)
        (omega arith))
      (ground arith)
decode-encode (a ∷ b ∷ c ∷ rest) h =
    rw
      (sextets_four (a / 4) (a % 4 * 16 + b / 16) (b % 16 * 4 + c / 64) (c % 64) (encode rest)
        (omega arith) (omega arith) (omega arith) (omega arith))
      (ground (arith, decode-encode rest h.1.1.1))

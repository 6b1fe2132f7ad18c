-- ===== src/Base64.antt =====
-- `Buffer.from(bytes).toString("base64")` and `Buffer.from(text, "base64")` of the platform, which
-- packages/core/src/session-store keeps its keys by.
--
-- Decoding reads the sextets up to the first `=`, skipping what is no digit, and drops the bits
-- that fill no byte.
pub mod RoundTrip
use mobile_wallet_protocol.Prelude.{
  ℕ, ◌+◌, ◌-◌, ◌*◌, ◌/◌, ◌%◌, ◌<◌, Text, Option, none, some, List, [], ◌∷◌, All, ltb, leb, ◌==◌,
  ◌&&◌, ◌||◌, if◌then◌else◌,
}
use mobile_wallet_protocol.Domain.{Bytes}

-- The digit for a sextet, and back; the URL-safe digits are read too.
digit : ℕ → ℕ
digit n =
    if ltb n 26
    then n + b'A'
    else if ltb n 52
    then n - 26 + b'a'
    else if ltb n 62
    then n - 52 + b'0'
    else if n == 62
    then b'+'
    else b'/'

sextet : ℕ → Option ℕ
sextet c =
    if leb b'A' c && leb c b'Z'
    then some (c - b'A')
    else if leb b'a' c && leb c b'z'
    then some (c - b'a' + 26)
    else if leb b'0' c && leb c b'9'
    then some (c - b'0' + 52)
    else if (c == b'+') || (c == b'-')
    then some 62
    else if (c == b'/') || (c == b'_')
    then some 63
    else none

pad : ℕ
pad = b'='

pub encode : Bytes → Text
unfolding digit pad
encode [] = []
encode (a ∷ []) = digit (a / 4) ∷ digit (a % 4 * 16) ∷ pad ∷ pad ∷ []
encode (a ∷ b ∷ []) = digit (a / 4) ∷ digit (a % 4 * 16 + b / 16) ∷ digit (b % 16 * 4) ∷ pad ∷ []
encode (a ∷ b ∷ c ∷ rest) =
    digit (a / 4)
    ∷ digit (a % 4 * 16 + b / 16)
    ∷ digit (b % 16 * 4 + c / 64)
    ∷ digit (c % 64)
    ∷ encode rest

keep : Option ℕ → List ℕ → List ℕ
keep none rest = rest
keep (some n) rest = n ∷ rest

sextets : Text → List ℕ
unfolding keep
sextets [] = []
sextets (c ∷ t) = let rest = keep (sextet c) (sextets t) in if c == b'=' then [] else rest

from_sextets : List ℕ → Bytes
from_sextets [] = []
from_sextets (p ∷ []) = []
from_sextets (p ∷ q ∷ []) = (p * 4 + q / 16) ∷ []
from_sextets (p ∷ q ∷ r ∷ []) = (p * 4 + q / 16) ∷ (q % 16 * 16 + r / 4) ∷ []
from_sextets (p ∷ q ∷ r ∷ s ∷ rest) =
    (p * 4 + q / 16) ∷ (q % 16 * 16 + r / 4) ∷ (r % 4 * 64 + s) ∷ from_sextets rest

pub decode : Text → Bytes
unfolding sextet sextets from_sextets
decode t = from_sextets (sextets t)

-- What a `Uint8Array` holds.
abbrev pub AreBytes : Bytes → Type 0
AreBytes = All (λ b. b < 256)

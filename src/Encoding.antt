-- ===== src/Encoding.antt =====
-- apps/web-demo/src/lib/encoding-utils.ts: base64 on whatever platform it runs on, and the texts
-- that are compressed with pako.
--
-- `btoa`, `atob` and Buffer are the platform's, pako's `deflate` and `inflate` and `TextDecoder` are
-- parameters. `none` is an exception. The sizes of compareEncodingSizes are left out.
use mobile_wallet_protocol.Prelude.{
  ◌%◌, ◌≡◌, refl, ap, ◌∙◌, Text, Option, none, some, [], ◌∷◌, map, arith,
}
use mobile_wallet_protocol.Domain.{Bytes}
use mobile_wallet_protocol.Base64.{AreBytes}

-- `Buffer.from(str).toString("base64")` and `Buffer.from(str, "base64").toString()`.
pub record Buffer : Type 0 where
  pub encode : Text → Text
  pub decode : Text → Text

-- What is defined: a function or Buffer that is not is `none`.
pub record Platform : Type 0 where
  pub btoa : Option (Text → Option Text)
  pub atob : Option (Text → Option Text)
  pub buffer : Option Buffer

pub record Pako : Type 0 where
  pub deflate : Text → Bytes
  pub inflate : Bytes → Option Bytes
  pub text_decode : Bytes → Text

abbrev encode_with : Option Buffer → Text → Option Text
encode_with none str = none
encode_with (some b) str = some (b.encode str)

abbrev decode_with : Option Buffer → Text → Option Text
decode_with none str = none
decode_with (some b) str = some (b.decode str)

pub base64_encode : Platform → Text → Option Text
base64_encode p str = elim p.btoa [ none ↦ encode_with p.buffer str | some btoa ↦ btoa str ]

pub base64_decode : Platform → Text → Option Text
base64_decode p str = elim p.atob [ none ↦ decode_with p.buffer str | some atob ↦ atob str ]

-- `String.fromCharCode` keeps the bytes.
pub compress_string : Platform → Pako → Text → Option Text
compress_string p pako str = base64_encode p (pako.deflate str)

abbrev decoded : Pako → Option Bytes → Option Text
decoded pako none = none
decoded pako (some bytes) = some (pako.text_decode bytes)

abbrev inflated : Pako → Option Text → Option Text
inflated pako none = none
inflated pako (some binary) = decoded pako (pako.inflate (map (λ c. c % 256) binary))

pub decompress_string : Platform → Pako → Text → Option Text
decompress_string p pako text = inflated pako (base64_decode p text)

-- One platform's base64 is undone by another's, for texts of bytes.
pub record Undoes (there here : Platform) : Type 0 where
  pub undone :
      (binary text : Text)
      → AreBytes binary
      → base64_encode there binary ≡ some text
      → base64_decode here text ≡ some binary

-- What pako deflates is made of bytes, and inflates to the text's encoding.
pub record Inflates (pako : Pako) (str : Text) : Type 0 where
  pub encoding : Bytes
  pub bytes : AreBytes (pako.deflate str)
  pub inflates : pako.inflate (pako.deflate str) ≡ some encoding
  pub decodes : pako.text_decode encoding ≡ str

bytes_kept : (binary : Bytes) → AreBytes binary → map (λ c. c % 256) binary ≡ binary
bytes_kept [] h = refl
bytes_kept (b ∷ rest) h = ground (arith, bytes_kept rest h.1, h.0)

-- A text that one platform has compressed is read back by another whose base64 undoes the first's,
-- where pako inflates what it has deflated.
pub decompress-compress :
    (there here : Platform) (pako : Pako) (str text : Text)
    → Undoes there here
    → Inflates pako str
    → compress_string there pako str ≡ some text
    → decompress_string here pako text ≡ some str
unfolding compress_string decompress_string
decompress-compress there here pako str text u v e =
    ap (inflated pako) (u.undone (pako.deflate str) text v.bytes e)
    ∙ ap (λ (b : Bytes). decoded pako (pako.inflate b)) (bytes_kept (pako.deflate str) v.bytes)
    ∙ ap (decoded pako) v.inflates
    ∙ ap (λ (t : Text). some t) v.decodes

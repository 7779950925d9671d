-- ===== src/Signing.antt =====
-- src/core/crypto/canonical.ts: the signature of a JSON value, over the HMAC of node:crypto as a
-- parameter. The text of a digest in hexadecimal stands for its bytes.
use Prim.Native.Char.{Char, code}
use Prim.Native.String.{String}
use openkedge.Json.{Value}
use openkedge.Json.Canonical.{canonical_json}
use openkedge.Prelude.{
  ℕ, ◌-◌, Bool, ◌&&◌, ◌||◌, [], ◌∷◌, Result, ok, err, ◌>>=◌, concat, ltb, leb, eqb, ◌==◌, string_eq,
  if◌then◌else◌,
}

-- `createHmac('sha256', key).update(text).digest('hex')` and `Buffer.byteLength`.
pub record Hmac : Type 0 where
  pub digest : String → String → String
  pub byte_length : String → ℕ

unfoldable pub sign_json : Hmac → String → Value → String → Result String String
sign_json h domain value secret_key =
    if ltb (h.byte_length secret_key) 32
    then err "Signing key must contain at least 32 bytes"
    else (canonical_json value >>= λ text.
        ok (h.digest secret_key (concat (domain ∷ "\n" ∷ text ∷ []))))

abbrev is_hex_digit : Char → Bool
is_hex_digit c = (leb 48 (code c) && leb (code c) 57) || (leb 97 (code c) && leb (code c) 102)

-- Whether the text has `n` characters, all of them hexadecimal digits in lower case.
unfoldable pub is_hex : ℕ → String → Bool
is_hex n String.[] = eqb n 0
is_hex n (String.◌∷◌ c rest) = is_hex_digit c && (ltb 0 n && is_hex (n - 1) rest)

-- `/^[a-f0-9]{64}$/`, then the comparison of the bytes.
unfoldable pub valid_signature : String → String → Bool
unfolding is_hex
valid_signature actual expected = is_hex 64 actual && actual == expected

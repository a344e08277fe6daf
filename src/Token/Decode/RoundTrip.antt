-- ===== src/Token/Decode/RoundTrip.antt =====
-- `decodeToken` reads what a server that issues tokens writes: a token is three parts joined by
-- points, and the middle one is the payload in UTF-8 and base64url.
use mathlib.Core.List.{◌++◌}
use microsvc.Prelude.{ℕ, String, codes, Option, List, [], ◌∷◌, ◌≡◌, ◌≢◌, arith, Json}
use microsvc.Prelude.Lists.{All}
use microsvc.Token.Decode.{split, payload_text, decode_token}
use microsvc.Token.Decode.Base64.{base64url, atob-base64url, base64url_no_point}
use microsvc.Token.Decode.Escapes.{
  IsScalar, utf8_text, utf8_text-below, decode_uri_component-percents,
}

-- The middle part of a token for a text.
abbrev pub encoded : List ℕ → List ℕ
encoded text = base64url (utf8_text text)

split-append :
    (sep : ℕ) (part rest : List ℕ)
    → All (λ c. c ≢ sep) part
    → split sep (part ++ sep ∷ rest) ≡ part ∷ split sep rest
unfolding split
split-append sep [] rest h = ground arith
split-append sep (c ∷ cs) rest (hc, h) = ground (arith, split-append sep cs rest h)

-- A token whose payload is a text, in UTF-8 and base64url, between two points, is decoded to what
-- `JSON.parse` makes of that text, whatever the signature is, provided that the header has no point
-- and the text no surrogate.
pub decode_token-encoded :
    (json_parse : List ℕ → Option Json) (token : String) (header text signature : List ℕ)
    → codes token ≡ header ++ b'.' ∷ (encoded text ++ b'.' ∷ signature)
    → All (λ c. c ≢ b'.') header
    → All IsScalar text
    → decode_token json_parse token ≡ json_parse text
unfolding decode_token payload_text
decode_token-encoded json_parse token header text signature joined no_point scalars =
    let below = utf8_text-below text scalars in
    rw (
      joined,
      split-append b'.' header (encoded text ++ b'.' ∷ signature) no_point,
      split-append b'.' (encoded text) signature (base64url_no_point (utf8_text text) below),
      atob-base64url (utf8_text text) below,
      decode_uri_component-percents text scalars,
    )

-- ===== src/Token/Tests.antt =====
-- The theorems of the token on a page of the samples.
use microsvc.Prelude.{
  false, some, ◌≡◌, refl, arith, ◌<◌, ◌≤◌, ◌*◌, ◌↔◌, get, find, codes, utf8, [], ◌∷◌,
}
use microsvc.Token.{is_token_expired}
use microsvc.Token.Decode.{decode_token, decode_token-sample}
use mathlib.Core.List.{◌++◌}
use microsvc.Token.Decode.RoundTrip.{encoded, decode_token-encoded}
use microsvc.Token.Decode.Base64.{base64url, to_sextets}
use microsvc.Token.Laws.{is_token_expired_iff}
use microsvc.Samples.{cookies, claims, platform}

sample_decoded : decode_token platform.json_parse "h.e30.s" ≡ some claims
sample_decoded = decode_token-sample platform.json_parse

pub sample_fresh : is_token_expired platform 1700000000000 "h.e30.s" ≡ false
unfolding is_token_expired get find
sample_fresh = ground (arith, sample_decoded)

is_token_expired_iff_example :
    (is_token_expired platform 1700000000000 "h.e30.s" ≡ false)
    ↔ ((0 < 2000000000) × (1700000000000 ≤ 2000000000 * 1000))
unfolding get find
is_token_expired_iff_example =
    is_token_expired_iff platform 1700000000000 2000000000 "h.e30.s" claims sample_decoded refl refl

-- `ä}` in UTF-8 is the bytes c3 a4 7d.
sample_encoded :
    codes "h.w6R9.s" ≡ (b'h' ∷ []) ++ b'.' ∷ (encoded (228 ∷ b'}' ∷ []) ++ b'.' ∷ (b's' ∷ []))
unfolding base64url to_sextets utf8
sample_encoded = refl

decode_token-encoded_example : decode_token platform.json_parse "h.w6R9.s" ≡ some claims
decode_token-encoded_example =
    decode_token-encoded platform.json_parse "h.w6R9.s" (b'h' ∷ []) (228 ∷ b'}' ∷ []) (b's' ∷ [])
      sample_encoded (ground arith, tt) (ground arith, (ground arith, tt))

-- ===== src/Token.antt =====
-- frontend/src/lib/auth/token.ts: the class `TokenManager`. The cookie is in `World.jar`, behind
-- the interface `Cookies`; decoding is in the child `Decode`.
pub mod Decode
pub mod Laws
pub mod Tests
use microsvc.Prelude.{
  ℕ, String, Bool, true, false, not, ◌||◌, Option, none, some, or_else, nonempty, is_some, List,
  Json, Number, dec, null, bool, num, str, arr, obj, get, truthy, truthy?, ltb, ◌*◌, ◌^◌,
  if◌then◌else◌,
}
use microsvc.Web.{Cookies, CookieOptions, World}
use Decode.{decode_token}

-- The parts of the language's library that stay parameters: `JSON.parse`, and the number that an
-- order test makes of a text, an array or an object (`none` is `NaN`), texts and dates.
pub record Platform : Type 0 where
  pub json_parse : List ℕ → Option Json
  pub to_number : Json → Option Number
  -- `String(v)`, of what is no text
  pub to_text : Json → String
  -- `new Date(ms).toISOString()`
  pub iso : ℕ → String

-- `process.env.NEXT_PUBLIC_JWT_COOKIE_NAME || 'auth_token'`
unfoldable pub token_key : {Jar : Type 0} → World Jar → String
token_key w = or_else (nonempty w.cookie_name) "auth_token"

abbrev pub token_options : CookieOptions
token_options = record { http_only = false; secure = false; same_site = "lax"; expires = 1 }

module _ {Jar : Type 0} ⦃C : Cookies Jar⦄ where
  unfoldable pub set_token : String → World Jar → World Jar
  unfolding token_key
  set_token token w = record w { jar = C.set (token_key w) token token_options w.jar }

  -- `Cookies.get(key) || null`
  unfoldable pub get_token : World Jar → Option String
  unfolding token_key
  get_token w = nonempty (C.get (token_key w) w.jar)

  unfoldable pub remove_token : World Jar → World Jar
  unfolding token_key
  remove_token w = record w { jar = C.remove (token_key w) w.jar }

  pub has_token : World Jar → Bool
  unfolding get_token
  has_token w = is_some (get_token w)

-- The number that `exp` is compared as.
abbrev pub number_of : Platform → Json → Option Number
number_of p null = some (dec false 0 0)
number_of p (bool b) = some (dec false (if b then 1 else 0) 0)
number_of p (num n) = some n
number_of p (str s) = p.to_number (str s)
number_of p (arr items) = p.to_number (arr items)
number_of p (obj fields) = p.to_number (obj fields)

-- `n < now / 1000`, cleared of fractions; `NaN` is below nothing.
abbrev pub is_past : ℕ → Option Number → Bool
is_past now none = false
is_past now (some (dec true digits places)) = ltb 0 digits || ltb 0 now
is_past now (some (dec false digits places)) = ltb (digits * 1000) (now * 10 ^ places)

abbrev expired_at : Platform → ℕ → Option Json → Bool
expired_at p now none = true
expired_at p now (some exp) = not (truthy exp) || is_past now (number_of p exp)

-- `TokenManager.isTokenExpired`: a token that cannot be decoded, or has no `exp`, is expired.
unfoldable pub is_token_expired : Platform → ℕ → String → Bool
is_token_expired p now token = elim (decode_token p.json_parse token) [
  | none ↦ true
  | some decoded ↦ if truthy decoded then expired_at p now (get "exp" decoded) else true
]

-- A field that a token or a profile lacks is `undefined`.
pub record User : Type 0 where
  pub id : Option Json
  pub username : Option Json
  pub email : Option Json
  pub roles : Option Json
  pub created_at : Option Json
  pub updated_at : Option Json

pub record TokenUser : Type 0 where
  pub id : Option Json
  pub username : Option Json
  pub roles : Option Json

-- `TokenManager.getUserFromToken`: the signature of the token is not looked at.
unfoldable pub get_user_from_token : Platform → String → Option TokenUser
get_user_from_token p token = elim (decode_token p.json_parse token) [
  | none ↦ none
  | some decoded ↦
      if truthy decoded
      then some (record {
        id = get "userId" decoded;
        username = get "sub" decoded;
        roles = get "roles" decoded;
      })
      else none
]

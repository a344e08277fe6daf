-- ===== src/Token/Laws.antt =====
-- The cookie of the token, and the two readings of a token.
use microsvc.Prelude.{
  ℕ, zero, suc, String, true, false, none, some, ◌≡◌, refl, arith, Json, int, get, truthy, is_some,
  nonempty, ◌*◌, ◌<◌, ◌≤◌, ◌↔◌,
}
use microsvc.Web.{Cookies, CookieLaws, World, redirect, LogEntry, log}
use microsvc.Token.Decode.{decode_token}
use microsvc.Token.{
  Platform, get_token, set_token, remove_token, token_key, is_token_expired, get_user_from_token,
}

module _ {Jar : Type 0} ⦃C : Cookies Jar⦄ (laws : CookieLaws C) where
  -- A token that has been stored is the one that is read back, and one that has been removed is
  -- gone; an empty token counts as none.
  pub get_token-set_token :
      (token : String) (w : World Jar) → get_token (set_token token w) ≡ nonempty (some token)
  unfolding get_token set_token token_key
  get_token-set_token token w = rw (laws.get-set)

  pub get_token-remove_token : (w : World Jar) → get_token (remove_token w) ≡ none
  unfolding get_token remove_token token_key
  get_token-remove_token w = rw (laws.get-remove)

-- A token that is not expired says who its user is.
pub get_user_from_token_of_fresh :
    (p : Platform) (now : ℕ) (token : String)
    → is_token_expired p now token ≡ false
    → is_some (get_user_from_token p token) ≡ true
unfolding is_token_expired get_user_from_token
get_user_from_token_of_fresh p now token h = ground arith

-- A token whose payload has as `exp` a whole number of seconds is not expired exactly when that
-- number is not zero and the moment is not before the current one, in milliseconds.
pub is_token_expired_iff :
    (p : Platform) (now seconds : ℕ) (token : String) (decoded : Json)
    → decode_token p.json_parse token ≡ some decoded
    → get "exp" decoded ≡ some (int seconds)
    → truthy decoded ≡ true
    → (is_token_expired p now token ≡ false) ↔ ((0 < seconds) × (now ≤ seconds * 1000))
unfolding is_token_expired
is_token_expired_iff p now zero token decoded h e t = ground arith
is_token_expired_iff p now (suc seconds) token decoded h e t = ground arith

-- Leaving the page does not change what is read of the cookie.
pub get_token-redirect :
    {Jar : Type 0} ⦃C : Cookies Jar⦄ (address : String) (w : World Jar)
    → get_token (redirect address w) ≡ get_token w
unfolding get_token token_key
get_token-redirect address w = refl

-- Neither does a line of the log.
pub get_token-log :
    {Jar : Type 0} ⦃C : Cookies Jar⦄ (entry : LogEntry) (w : World Jar)
    → get_token (log entry w) ≡ get_token w
unfolding get_token token_key
get_token-log entry w = refl

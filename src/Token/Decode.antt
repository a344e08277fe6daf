-- ===== src/Token/Decode.antt =====
-- frontend/src/lib/auth/token.ts: `TokenManager.decodeToken`, with what it calls of the language's
-- library: `split`, `replace`, `atob`, `toString(16)` and `decodeURIComponent`, over code points.
-- `JSON.parse` is a parameter, so that the results hold for any parser.
pub mod Base64
pub mod Escapes
pub mod RoundTrip
use mathlib.Core.List.{◌++◌}
use mathlib.Core.Option
use microsvc.Prelude.{
  ℕ, suc, ◌+◌, ◌-◌, ◌*◌, ◌/◌, ◌%◌, String, codes, Bool, ◌&&◌, ◌||◌, Option, none, some, List, [],
  ◌≡◌, refl, ◌∷◌, map, Json, ltb, leb, ◌==◌, if◌then◌else◌,
}
use microsvc.Prelude.Lists.{length, get_elem?}

infixl 5 ◌>>=◌
abbrev pub ◌>>=◌ {ℓ κ} : {A : Type ℓ} {B : Type κ} → Option A → (A → Option B) → Option B
none >>= f = none
some a >>= f = f a

-- `s.split(sep)` for one character
abbrev prepend : ℕ → List (List ℕ) → List (List ℕ)
prepend c [] = (c ∷ []) ∷ []
prepend c (part ∷ parts) = (c ∷ part) ∷ parts

pub split : ℕ → List ℕ → List (List ℕ)
split sep [] = [] ∷ []
split sep (c ∷ s) = let rest = split sep s in if c == sep then [] ∷ rest else prepend c rest

-- `.replace(/-/g, '+').replace(/_/g, '/')`
abbrev pub from_url : ℕ → ℕ
from_url c = if c == b'-' then b'+' else if c == b'_' then b'/' else c

-- The value of a character of the base64 alphabet.
pub sextet : ℕ → Option ℕ
sextet c =
    if leb b'A' c && leb c b'Z'
    then some (c - b'A')
    else if leb b'a' c && leb c b'z'
    then some (c - b'a' + 26)
    else if leb b'0' c && leb c b'9'
    then some (c - b'0' + 52)
    else if c == b'+'
    then some 62
    else if c == b'/'
    then some 63
    else none

pub sextets : List ℕ → Option (List ℕ)
sextets [] = some []
sextets (c ∷ s) = do v ← sextet c; vs ← sextets s; some (v ∷ vs)

-- Four sextets are three bytes; of two or three left over the spare low bits are dropped.
pub regroup : List ℕ → List ℕ
regroup (a ∷ b ∷ c ∷ d ∷ rest) =
    (a * 4 + b / 16) ∷ (b % 16 * 16 + c / 4) ∷ (c % 4 * 64 + d) ∷ regroup rest
regroup (a ∷ b ∷ c ∷ []) = (a * 4 + b / 16) ∷ (b % 16 * 16 + c / 4) ∷ []
regroup (a ∷ b ∷ []) = (a * 4 + b / 16) ∷ []
regroup _ = []

abbrev is_space : ℕ → Bool
is_space c = c == 9 || c == 10 || c == 12 || c == 13 || c == 32

pub strip_spaces : List ℕ → List ℕ
strip_spaces [] = []
strip_spaces (c ∷ s) = let rest = strip_spaces s in if is_space c then rest else c ∷ rest

-- One or two `=` at the end are dropped.
pub strip_padding : List ℕ → List ℕ
strip_padding [] = []
strip_padding (a ∷ []) = if a == b'=' then [] else a ∷ []
strip_padding (a ∷ b ∷ []) =
    if a == b'=' && b == b'=' then [] else a ∷ (if b == b'=' then [] else b ∷ [])
strip_padding (a ∷ b ∷ c ∷ s) = a ∷ strip_padding (b ∷ c ∷ s)

-- `atob`; `none` is an `InvalidCharacterError`.
pub atob : List ℕ → Option (List ℕ)
unfolding sextets sextet regroup strip_spaces strip_padding
atob text =
    let s = strip_spaces text in
    let t = if length s % 4 == 0 then strip_padding s else s in
    if length t % 4 == 1 then none else Option.map regroup (sextets t)

abbrev hex_digit : ℕ → ℕ
hex_digit d = if ltb d 10 then d + b'0' else d - 10 + b'a'

-- `'%' + ('00' + c.charCodeAt(0).toString(16)).slice(-2)` of a byte
abbrev pub percent : ℕ → List ℕ
percent b = b'%' ∷ hex_digit (b / 16) ∷ hex_digit (b % 16) ∷ []

pub percents : List ℕ → List ℕ
percents [] = []
percents (b ∷ bs) = percent b ++ percents bs

pub hex_value : ℕ → Option ℕ
hex_value c =
    if leb b'0' c && leb c b'9'
    then some (c - b'0')
    else if leb b'a' c && leb c b'f'
    then some (c - b'a' + 10)
    else if leb b'A' c && leb c b'F'
    then some (c - b'A' + 10)
    else none

-- A text with its escapes read: an octet for each `%XX`.
pub data Piece : Type 0 where
  raw octet : ℕ → Piece

abbrev escape : ℕ → ℕ → Option (List Piece) → Option (List Piece)
escape d e rest = do hi ← hex_value d; lo ← hex_value e; ps ← rest; some (octet (hi * 16 + lo) ∷ ps)

pub pieces : List ℕ → Option (List Piece)
pieces [] = some []
pieces (c ∷ []) = if c == b'%' then none else some (raw c ∷ [])
pieces (c ∷ d ∷ []) = if c == b'%' || d == b'%' then none else some (raw c ∷ raw d ∷ [])
pieces (c ∷ d ∷ e ∷ s) =
    let escaped = escape d e (pieces s) in
    let plain = Option.map (λ ps. raw c ∷ ps) (pieces (d ∷ e ∷ s)) in
    if c == b'%' then escaped else plain

-- Where the UTF-8 decoder stands: between characters, or `need + 1` octets short of a character
-- whose code point is at least `least`.
pub data Pending : Type 0 where
  between : Pending
  inside : ℕ → ℕ → ℕ → Pending

abbrev is_scalar : ℕ → Bool
is_scalar c = ltb c 0xd800 || (leb 0xe000 c && ltb c 0x110000)

pub decode_step : Pending → Piece → Option (Pending × List ℕ)
decode_step between (raw c) = some (between, c ∷ [])
decode_step between (octet b) =
    if ltb b 128
    then some (between, b ∷ [])
    else if ltb b 192
    then none
    else if ltb b 224
    then some (inside 0 (b - 192) 128, [])
    else if ltb b 240
    then some (inside 1 (b - 224) 2048, [])
    else if ltb b 248
    then some (inside 2 (b - 240) 65536, [])
    else none
decode_step (inside need acc least) (raw c) = none
decode_step (inside ℕ.zero acc least) (octet b) =
    let c = acc * 64 + (b - 128) in
    if leb 128 b && ltb b 192 && leb least c && is_scalar c then some (between, c ∷ []) else none
decode_step (inside (suc need) acc least) (octet b) =
    if leb 128 b && ltb b 192 then some (inside need (acc * 64 + (b - 128)) least, []) else none

pub decode_pieces : Pending → List Piece → Option (List ℕ)
decode_pieces between [] = some []
decode_pieces (inside need acc least) [] = none
decode_pieces st (p ∷ ps) = do
  (st', out) ← decode_step st p
  rest ← decode_pieces st' ps
  some (out ++ rest)

-- `decodeURIComponent`; `none` is a `URIError`.
pub decode_uri_component : List ℕ → Option (List ℕ)
unfolding pieces hex_value decode_pieces decode_step
decode_uri_component text = do ps ← pieces text; decode_pieces between ps

-- `decodeToken` up to `JSON.parse`: the text of the payload. A token without a dot has no part
-- at index 1, and reading `replace` of it throws.
pub payload_text : List ℕ → Option (List ℕ)
unfolding split atob percents decode_uri_component
payload_text token = do
  base64_url ← get_elem? (split b'.' token) 1
  bytes ← atob (map from_url base64_url)
  decode_uri_component (percents bytes)

-- `TokenManager.decodeToken`; every exception is caught, and the result is then `null`.
pub decode_token : (List ℕ → Option Json) → String → Option Json
unfolding payload_text
decode_token json_parse token = do text ← payload_text (codes token); json_parse text

sample_token : payload_text (codes "h.eyJhIjoi4oKsIn0.s") ≡ some (codes "{\"a\":\"€\"}")
unfolding payload_text
sample_token = refl

-- A token whose payload is `{}`.
pub decode_token-sample :
    (json_parse : List ℕ → Option Json)
    → decode_token json_parse "h.e30.s" ≡ json_parse (codes "{}")
unfolding decode_token payload_text
decode_token-sample json_parse = refl

-- ===== src/Prelude/Query.antt =====
-- `URLSearchParams` as a text: its entries in the form encoding, joined by `=` and `&`.
use Prim.Native.Nat.{ℕ, ◌+◌, ◌/◌, ◌%◌}
use Prim.Native.Char.{Char, code}
use Prim.Native.String.{String}
use mathlib.Core.Bool.{Bool, ◌&&◌, ◌||◌}
use mathlib.Core.List.{List, [], ◌∷◌}
use microsvc.Prelude.Tests.{if◌then◌else◌, ltb, leb, ◌==◌}
use microsvc.Prelude.Texts.{◌⧺◌, show}

-- The octets of a character in UTF-8.
unfoldable pub utf8 : ℕ → List ℕ
utf8 c =
    if ltb c 128
    then c ∷ []
    else if ltb c 2048
    then (192 + c / 64) ∷ (128 + c % 64) ∷ []
    else if ltb c 65536
    then (224 + c / 4096) ∷ (128 + c / 64 % 64) ∷ (128 + c % 64) ∷ []
    else (240 + c / 262144) ∷ (128 + c / 4096 % 64) ∷ (128 + c / 64 % 64) ∷ (128 + c % 64) ∷ []

abbrev upper_hex : ℕ → String
upper_hex d =
    if ltb d 10
    then show d
    else if d == 10
    then "A"
    else if d == 11
    then "B"
    else if d == 12
    then "C"
    else if d == 13
    then "D"
    else if d == 14
    then "E"
    else "F"

escapes : List ℕ → String
escapes [] = ""
escapes (b ∷ bs) = "%" ⧺ upper_hex (b / 16) ⧺ upper_hex (b % 16) ⧺ escapes bs

-- Letters, digits and `*-._` stand for themselves.
abbrev is_plain : ℕ → Bool
is_plain c =
    (leb b'a' c && leb c b'z')
    || (leb b'A' c && leb c b'Z')
    || (leb b'0' c && leb c b'9')
    || c == b'*'
    || c == b'-'
    || c == b'.'
    || c == b'_'

abbrev encode_char : Char → String
encode_char c =
    if is_plain (code c)
    then String.◌∷◌ c String.[]
    else if code c == 32
    then "+"
    else escapes (utf8 (code c))

pub encode : String → String
encode String.[] = ""
encode (String.◌∷◌ c s) = encode_char c ⧺ encode s

unfoldable pub serialize : List (String × String) → String
unfolding encode escapes utf8 show
serialize [] = ""
serialize ((k, v) ∷ []) = encode k ⧺ "=" ⧺ encode v
serialize ((k, v) ∷ e ∷ rest) = encode k ⧺ "=" ⧺ encode v ⧺ "&" ⧺ serialize (e ∷ rest)

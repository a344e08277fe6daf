-- ===== src/Token/Decode/Escapes.antt =====
-- The detour of `decodeToken` over percent escapes: an octet becomes an escape, and the escapes are
-- read as UTF-8.
use mathlib.Core.List.{◌++◌}
use mathlib.Core.Option
use microsvc.Prelude.{
  ℕ, ◌/◌, ◌%◌, ◌<◌, ◌≤◌, some, List, [], ◌∷◌, map, ◌≡◌, refl, ap, arith, utf8, ◌⊎◌,
}
use microsvc.Prelude.Lists.{All}
use microsvc.Token.Decode.{
  Piece, octet, between, percents, hex_value, pieces, decode_step, decode_pieces,
  decode_uri_component, hex_digit,
}

hex_value-hex_digit : (d : ℕ) → d < 16 → hex_value (hex_digit d) ≡ some d
unfolding hex_value
hex_value-hex_digit d h = ground arith

pieces-percents : (bs : List ℕ) → All (λ b. b < 256) bs → pieces (percents bs) ≡ some (map octet bs)
unfolding pieces percents
pieces-percents [] h = refl
pieces-percents (b ∷ bs) (hb, h) =
    rw
      (
        hex_value-hex_digit (b / 16) (omega arith),
        hex_value-hex_digit (b % 16) (omega arith),
        pieces-percents bs h,
      )
      (ground arith)

-- A code point that is no surrogate.
pub record IsScalar (c : ℕ) : Type 0 where
  pub in_range : c < 0x110000
  pub no_surrogate : (c < 0xd800) ⊎ (0xe000 ≤ c)

pub utf8-below : (c : ℕ) → IsScalar c → All (λ b. b < 256) (utf8 c)
unfolding utf8
utf8-below c s = ground arith

decode_pieces-utf8 :
    (c : ℕ) (ps : List Piece)
    → IsScalar c
    → decode_pieces between (map octet (utf8 c) ++ ps)
      ≡ Option.map (λ cs. c ∷ cs) (decode_pieces between ps)
unfolding decode_pieces decode_step utf8
decode_pieces-utf8 c ps s = ground arith

-- A text in UTF-8.
abbrev pub utf8_text : List ℕ → List ℕ
utf8_text [] = []
utf8_text (c ∷ cs) = utf8 c ++ utf8_text cs

All-append : (P : ℕ → Type 0) (xs ys : List ℕ) → All P xs → All P ys → All P (xs ++ ys)
All-append P [] ys h g = g
All-append P (x ∷ xs) ys (hx, h) g = (hx, All-append P xs ys h g)

pub utf8_text-below : (cs : List ℕ) → All IsScalar cs → All (λ b. b < 256) (utf8_text cs)
utf8_text-below [] h = tt
utf8_text-below (c ∷ cs) (hc, h) =
    All-append (λ b. b < 256) (utf8 c) (utf8_text cs) (utf8-below c hc) (utf8_text-below cs h)

map-append : (xs ys : List ℕ) → map octet (xs ++ ys) ≡ map octet xs ++ map octet ys
map-append [] ys = refl
map-append (x ∷ xs) ys = ap (λ zs. octet x ∷ zs) (map-append xs ys)

decode_pieces-utf8_text :
    (cs : List ℕ) → All IsScalar cs → decode_pieces between (map octet (utf8_text cs)) ≡ some cs
unfolding decode_pieces
decode_pieces-utf8_text [] h = refl
decode_pieces-utf8_text (c ∷ cs) (hc, h) = rw (
  map-append (utf8 c) (utf8_text cs),
  decode_pieces-utf8 c (map octet (utf8_text cs)) hc,
  decode_pieces-utf8_text cs h,
)

-- A text without surrogates comes back from its octets.
pub decode_uri_component-percents :
    (cs : List ℕ) → All IsScalar cs → decode_uri_component (percents (utf8_text cs)) ≡ some cs
unfolding decode_uri_component
decode_uri_component-percents cs h =
    rw (pieces-percents (utf8_text cs) (utf8_text-below cs h), decode_pieces-utf8_text cs h)

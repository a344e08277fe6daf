-- ===== src/Token/Decode/Base64.antt =====
-- The base64url encoding of RFC 4648 without padding, in which a token carries its payload, and
-- that `atob` after the two replacements takes it back.
use microsvc.Prelude.{
  ℕ, suc, ◌+◌, ◌-◌, ◌*◌, ◌/◌, ◌%◌, ◌<◌, Bool, true, false, some, List, [], ◌∷◌, map, ◌≡◌, ◌≢◌, refl,
  ap, arith, ltb, ◌==◌, if◌then◌else◌,
}
use microsvc.Prelude.Lists.{length, All}
use microsvc.Token.Decode.{from_url, sextet, sextets, regroup, strip_spaces, strip_padding, atob}

abbrev url_char : ℕ → ℕ
url_char v =
    if ltb v 26
    then b'A' + v
    else if ltb v 52
    then b'a' + (v - 26)
    else if ltb v 62
    then b'0' + (v - 52)
    else if v == 62
    then b'-'
    else b'_'

unfoldable pub to_sextets : List ℕ → List ℕ
to_sextets (x ∷ y ∷ z ∷ rest) =
    x / 4 ∷ (x % 4 * 16 + y / 16) ∷ (y % 16 * 4 + z / 64) ∷ z % 64 ∷ to_sextets rest
to_sextets (x ∷ y ∷ []) = x / 4 ∷ (x % 4 * 16 + y / 16) ∷ y % 16 * 4 ∷ []
to_sextets (x ∷ []) = x / 4 ∷ x % 4 * 16 ∷ []
to_sextets [] = []

unfoldable pub base64url : List ℕ → List ℕ
unfolding to_sextets
base64url bytes = map url_char (to_sextets bytes)

abbrev pub AreBelow : ℕ → List ℕ → Type 0
AreBelow bound = All (λ v. v < bound)

regroup-to_sextets : (bs : List ℕ) → AreBelow 256 bs → regroup (to_sextets bs) ≡ bs
unfolding regroup to_sextets
regroup-to_sextets (x ∷ y ∷ z ∷ rest) h = ground (arith, regroup-to_sextets rest)
regroup-to_sextets (x ∷ y ∷ []) h = ground arith
regroup-to_sextets (x ∷ []) h = ground arith
regroup-to_sextets [] h = refl

to_sextets-AreBelow : (bs : List ℕ) → AreBelow 256 bs → AreBelow 64 (to_sextets bs)
unfolding to_sextets
to_sextets-AreBelow (x ∷ y ∷ z ∷ rest) (hx, (hy, (hz, h))) =
    (omega arith, (omega arith, (omega arith, (omega arith, to_sextets-AreBelow rest h))))
to_sextets-AreBelow (x ∷ y ∷ []) (hx, (hy, h)) = (omega arith, (omega arith, (omega arith, tt)))
to_sextets-AreBelow (x ∷ []) (hx, h) = (omega arith, (omega arith, tt))
to_sextets-AreBelow [] h = tt

length-to_sextets : (bs : List ℕ) → length (to_sextets bs) % 4 ≢ 1
unfolding to_sextets
length-to_sextets (x ∷ y ∷ z ∷ rest) = omega (arith, length-to_sextets rest)
length-to_sextets (x ∷ y ∷ []) = omega arith
length-to_sextets (x ∷ []) = omega arith
length-to_sextets [] = omega arith

-- A character of the encoding, after the replacements.
abbrev char : ℕ → ℕ
char v = from_url (url_char v)

sextet-char : (v : ℕ) → v < 64 → sextet (char v) ≡ some v
unfolding sextet
sextet-char v h = ground arith

sextets-chars : (vs : List ℕ) → AreBelow 64 vs → sextets (map char vs) ≡ some vs
unfolding sextets
sextets-chars [] h = refl
sextets-chars (v ∷ vs) (hv, h) = rw (sextet-char v hv, sextets-chars vs h)

strip_spaces-chars : (vs : List ℕ) → AreBelow 64 vs → strip_spaces (map char vs) ≡ map char vs
unfolding strip_spaces
strip_spaces-chars [] h = refl
strip_spaces-chars (v ∷ vs) (hv, h) = ground (arith, strip_spaces-chars vs h)

strip_padding-chars : (vs : List ℕ) → AreBelow 64 vs → strip_padding (map char vs) ≡ map char vs
unfolding strip_padding
strip_padding-chars [] h = refl
strip_padding-chars (a ∷ []) (ha, h) = ground arith
strip_padding-chars (a ∷ b ∷ []) (ha, (hb, h)) = ground arith
strip_padding-chars (a ∷ b ∷ c ∷ vs) (ha, (hb, (hc, h))) =
    rw (strip_padding-chars (b ∷ c ∷ vs) (hb, (hc, h)))

length-map : (f : ℕ → ℕ) (xs : List ℕ) → length (map f xs) ≡ length xs
length-map f [] = refl
length-map f (x ∷ xs) = ap suc (length-map f xs)

map-map : (f g : ℕ → ℕ) (xs : List ℕ) → map f (map g xs) ≡ map (λ x. f (g x)) xs
map-map f g [] = refl
map-map f g (x ∷ xs) = ap (λ ys. f (g x) ∷ ys) (map-map f g xs)

if_same : (b : Bool) (x : List ℕ) → (if b then x else x) ≡ x
if_same true x = refl
if_same false x = refl

no_remainder : (bs : List ℕ) → (length (map char (to_sextets bs)) % 4 == 1) ≡ false
no_remainder bs = ground (arith, length-map char (to_sextets bs), length-to_sextets bs)

-- Bytes come back from their encoding, once its alphabet has been changed to that of `atob`.
pub atob-base64url : (bs : List ℕ) → AreBelow 256 bs → atob (map from_url (base64url bs)) ≡ some bs
unfolding atob base64url
atob-base64url bs h =
    let vs = to_sextets bs in
    let below = to_sextets-AreBelow bs h in
    rw (
      map-map from_url url_char vs,
      strip_spaces-chars vs below,
      strip_padding-chars vs below,
      if_same,
      no_remainder bs,
      sextets-chars vs below,
      regroup-to_sextets bs h,
    )

-- No character of an encoding is a point.
pub base64url_no_point : (bs : List ℕ) → AreBelow 256 bs → All (λ c. c ≢ b'.') (base64url bs)
unfolding base64url
base64url_no_point bs h = no_point (to_sextets bs) (to_sextets-AreBelow bs h)
  where
    no_point : (vs : List ℕ) → AreBelow 64 vs → All (λ c. c ≢ b'.') (map url_char vs)
    no_point [] g = tt
    no_point (v ∷ vs) (gv, g) = (ground arith, no_point vs g)

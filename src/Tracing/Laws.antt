-- ===== src/Tracing/Laws.antt =====
-- Attributes that are written as the environment has them are read back.
use mathlib.Core.List.{◌++◌}
use microsvc.Prelude.{
  ℕ, ◌==◌, ◌&&◌, not, Bool, true, some, List, [], ◌∷◌, map, if◌then◌else◌, ◌≡◌, refl, ap, sym, ◌∙◌,
  arith, Bool-cases, inl, inr,
}
use microsvc.Prelude.Lists.{All}
use microsvc.Tracing.{
  Text, text_eq, onto_first, split, join, trim, or_fallback, attribute_in, resource_attribute,
}

-- A text without a mark.
abbrev pub lacks : ℕ → Text → Bool
lacks mark [] = true
lacks mark (c ∷ cs) = not (c == mark) && lacks mark cs

split_lacking : (mark : ℕ) (cs : Text) → lacks mark cs ≡ true → split mark cs ≡ cs ∷ []
unfolding split
split_lacking mark [] h = refl
split_lacking mark (c ∷ cs) h = ground (arith, split_lacking mark cs)

split_first :
    (mark : ℕ) (cs rest : Text)
    → lacks mark cs ≡ true
    → split mark (cs ++ mark ∷ rest) ≡ cs ∷ split mark rest
unfolding split
split_first mark [] rest h = ground arith
split_first mark (c ∷ cs) rest h = ground (arith, split_first mark cs rest)

split_parts : (mark : ℕ) (cs : Text) → (p : Text) × (ps : List Text) × (split mark cs ≡ p ∷ ps)
unfolding split
split_parts mark [] = ([], [], refl)
split_parts mark (c ∷ cs) =
    let (p, ps, e) = split_parts mark cs in
    elim (Bool-cases (c == mark)) [
      | inl at_mark ↦ ([], split mark cs, ground arith)
      | inr other ↦ (c ∷ p, ps, ground arith)
    ]

join-onto_first :
    (mark c : ℕ) (p : Text) (ps : List Text)
    → join mark (onto_first c (p ∷ ps)) ≡ c ∷ join mark (p ∷ ps)
unfolding join
join-onto_first mark c p [] = refl
join-onto_first mark c p (q ∷ ps) = refl

join-empty :
    (mark : ℕ) (p : Text) (ps : List Text) → join mark ([] ∷ p ∷ ps) ≡ mark ∷ join mark (p ∷ ps)
unfolding join
join-empty mark p ps = refl

-- Splitting at a mark is undone by joining with it.
join-split : (mark : ℕ) (cs : Text) → join mark (split mark cs) ≡ cs
unfolding split join
join-split mark [] = refl
join-split mark (c ∷ cs) =
    let (p, ps, e) = split_parts mark cs in
    let whole : join mark (p ∷ ps) ≡ cs = ap (join mark) (sym e) ∙ join-split mark cs in
    elim (Bool-cases (c == mark)) [
      | inl at_mark ↦
          ap (join mark) {x = split mark (c ∷ cs)} {y = [] ∷ p ∷ ps} (ground arith)
          ∙ join-empty mark p ps
          ∙ ground arith
      | inr other ↦
          ap (join mark) {x = split mark (c ∷ cs)} {y = onto_first c (p ∷ ps)} (ground arith)
          ∙ join-onto_first mark c p ps
          ∙ ap (λ ds. c ∷ ds) whole
    ]

split-join :
    (mark : ℕ) (p : Text) (ps : List Text)
    → All (λ q. lacks mark q ≡ true) (p ∷ ps)
    → split mark (join mark (p ∷ ps)) ≡ p ∷ ps
unfolding join
split-join mark p [] h = split_lacking mark p h.0
split-join mark p (q ∷ ps) h =
    split_first mark p (join mark (q ∷ ps)) h.0 ∙ ap (λ rest. p ∷ rest) (split-join mark q ps h.1)

-- An attribute as it is written, and a list of them.
abbrev pub written_item : Text × Text → Text
written_item (key, value) = key ++ b'=' ∷ value

abbrev pub written : List (Text × Text) → Text
written attributes = join b',' (map written_item attributes)

-- What a reader can tell apart: a key without either mark and a value without a comma, neither with
-- outer spaces.
pub record IsPlain (attribute : Text × Text) : Type 0 where
  pub key_whole : (lacks b'=' attribute.0 ≡ true) × (lacks b',' attribute.0 ≡ true)
  pub value_whole : lacks b',' attribute.1 ≡ true
  pub trimmed : (trim attribute.0 ≡ attribute.0) × (trim attribute.1 ≡ attribute.1)

-- The first value of a key, unless it is empty.
abbrev pub value_of : List (Text × Text) → (name fallback : Text) → Text
value_of [] name fallback = fallback
value_of ((key, value) ∷ rest) name fallback =
    let later = value_of rest name fallback in
    if text_eq key name then or_fallback value fallback else later

attribute_in-cons :
    (item key : Text) (parts items : List Text) (name fallback : Text)
    → split b'=' item ≡ key ∷ parts
    → attribute_in (item ∷ items) name fallback ≡ (
        if text_eq (trim key) name
        then or_fallback (trim (join b'=' parts)) fallback
        else attribute_in items name fallback)
unfolding attribute_in
attribute_in-cons item key parts items name fallback e = ground arith

choice :
    (name fallback : Text) {k k' v v' later later' : Text}
    → k ≡ k'
    → v ≡ v'
    → later ≡ later'
    → (if text_eq k name then or_fallback v fallback else later)
      ≡ (if text_eq k' name then or_fallback v' fallback else later')
choice name fallback p q r = cc

attribute_in-written :
    (attributes : List (Text × Text)) (name fallback : Text)
    → All IsPlain attributes
    → attribute_in (map written_item attributes) name fallback ≡ value_of attributes name fallback
unfolding attribute_in
attribute_in-written [] name fallback h = refl
attribute_in-written ((key, value) ∷ rest) name fallback h =
    attribute_in-cons (written_item (key, value)) key (split b'=' value) (map written_item rest)
      name fallback (split_first b'=' key value h.0.key_whole.0)
    ∙ choice name fallback h.0.trimmed.0 (ap trim (join-split b'=' value) ∙ h.0.trimmed.1)
        (attribute_in-written rest name fallback h.1)

lacks-append :
    (mark : ℕ) (cs ds : Text)
    → lacks mark cs ≡ true
    → lacks mark ds ≡ true
    → lacks mark (cs ++ ds) ≡ true
lacks-append mark [] ds h g = g
lacks-append mark (c ∷ cs) ds h g = ground (arith, lacks-append mark cs ds)

items_whole :
    (attributes : List (Text × Text))
    → All IsPlain attributes
    → All (λ q. lacks b',' q ≡ true) (map written_item attributes)
items_whole [] h = tt
items_whole ((key, value) ∷ rest) h = (
  lacks-append b',' key (b'=' ∷ value) h.0.key_whole.1 (ground (arith, h.0.value_whole)),
  items_whole rest h.1,
)

-- Attributes written as `key=value`, with commas between, are read back: each name gives the value of
-- the first attribute of that key, and the fallback where there is none or its value is empty. The
-- keys have neither mark and the values no comma, and neither have outer spaces; the name is not
-- empty.
pub resource_attribute-written :
    (attributes : List (Text × Text)) (c : ℕ) (name fallback : Text)
    → All IsPlain attributes
    → resource_attribute (some (written attributes)) (c ∷ name) fallback
      ≡ value_of attributes (c ∷ name) fallback
unfolding resource_attribute split join
resource_attribute-written [] c name fallback h = refl
resource_attribute-written (a ∷ rest) c name fallback h =
    ap (λ items. attribute_in items (c ∷ name) fallback)
      (split-join b',' (written_item a) (map written_item rest) (items_whole (a ∷ rest) h))
    ∙ attribute_in-written (a ∷ rest) (c ∷ name) fallback h

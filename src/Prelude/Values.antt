-- ===== src/Prelude/Values.antt =====
-- The values that JSON carries, and JavaScript's truthiness and property reads on them.
use Prim.Native.Nat.{ℕ, zero, suc}
use Prim.Native.String.{String}
use mathlib.Core.Bool.{Bool, true, false}
use mathlib.Core.Option.{Option, none, some}
use text.Mathlib.Text.{◌==◌}
use microsvc.Prelude.Tests.{if◌then◌else◌}
use microsvc.Prelude.Texts.{is_nonempty}

-- A number as it is written in decimal: its sign, its digits as one natural number, and how many
-- of them stand behind the point. The program compares such numbers and passes them on; it does
-- no arithmetic on them that would round.
pub data Number : Type 0 where
  dec : Bool → ℕ → ℕ → Number

mutual
  pub data Json : Type 0 where
    null : Json
    bool : Bool → Json
    num : Number → Json
    str : String → Json
    arr : Items → Json
    obj : Fields → Json

  pub data Items : Type 0 where
    nil : Items
    cons : Json → Items → Items

  pub data Fields : Type 0 where
    end : Fields
    field : String → Json → Fields → Fields

abbrev pub int : ℕ → Json
int n = num (dec false n 0)

abbrev pub is_nonzero : Number → Bool
is_nonzero (dec sign zero places) = false
is_nonzero (dec sign (suc digits) places) = true

-- `Boolean(v)`: zero, the empty text, `false` and `null` are falsy.
abbrev pub truthy : Json → Bool
truthy null = false
truthy (bool b) = b
truthy (num n) = is_nonzero n
truthy (str s) = is_nonempty s
truthy (arr items) = true
truthy (obj fields) = true

unfoldable pub find : String → Fields → Option Json
find key end = none
find key (field k v rest) = if k == key then some v else find key rest

-- `v.key` for a `v` that is not `null`; `none` is `undefined`.
unfoldable pub get : String → Json → Option Json
unfolding find
get key (obj fields) = find key fields
get key null = none
get key (bool b) = none
get key (num n) = none
get key (str s) = none
get key (arr items) = none

-- A property that is missing is falsy.
abbrev pub truthy? : Option Json → Bool
truthy? none = false
truthy? (some v) = truthy v

-- `v || d`
abbrev pub or_default : Option Json → Json → Json
or_default none d = d
or_default (some v) d = if truthy v then v else d

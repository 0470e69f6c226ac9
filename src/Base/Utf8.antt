-- ===== src/Base/Utf8.antt =====
-- `utf8.ValidString`
use Prim.Native.Nat.{ℕ}
use mathlib.Core.Bool.{Bool, true, false, not, ◌&&◌}
use mathlib.Core.Option.{Option, none, some}
use mathlib.Core.List.{List, [], ◌∷◌}
use sshmux.Base.Equality.{ltb, ◌==◌, nat_eq, if◌then◌else◌}
use sshmux.Base.Strings.{Text}

-- A byte within bounds
abbrev Range : Type 0
Range = ℕ × ℕ

abbrev in_range : Range → ℕ → Bool
in_range (low, high) c = not (ltb c low) && not (ltb high c)

abbrev tail : Range
tail = (128, 191)

-- What has to follow a first byte: no surrogate, no overlong form, nothing above U+10FFFF.
unfoldable pub following : ℕ → Option (List Range)
unfolding nat_eq
following c =
    if ltb c 128
    then some []
    else if ltb c 194
    then none
    else if ltb c 224
    then some (tail ∷ [])
    else if c == 224
    then some ((160, 191) ∷ tail ∷ [])
    else if c == 237
    then some ((128, 159) ∷ tail ∷ [])
    else if ltb c 240
    then some (tail ∷ tail ∷ [])
    else if c == 240
    then some ((144, 191) ∷ tail ∷ tail ∷ [])
    else if ltb c 244
    then some (tail ∷ tail ∷ tail ∷ [])
    else if c == 244
    then some ((128, 143) ∷ tail ∷ tail ∷ [])
    else none

-- Whether a text goes on with bytes of these ranges and is valid from there.
unfoldable pub utf8_from : List Range → Text → Bool
utf8_from [] [] = true
utf8_from (range ∷ ranges) [] = false
utf8_from (range ∷ ranges) (c ∷ s) = in_range range c && utf8_from ranges s
utf8_from [] (c ∷ s) = elim (following c) [ none ↦ false | some ranges ↦ utf8_from ranges s ]

unfoldable pub valid_utf8 : Text → Bool
unfolding utf8_from
valid_utf8 s = utf8_from [] s

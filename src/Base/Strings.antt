-- ===== src/Base/Strings.antt =====
-- Go strings as lists of bytes, and the functions of package strings that the code calls.
use Prim.Native.Nat.{ℕ, zero, suc}
use Prim.Native.Char.{code}
use Prim.Native.String.{String}
use mathlib.Core.Bool.{Bool, true, false, ◌&&◌, ◌||◌}
use mathlib.Core.List.{List, [], ◌∷◌, map, reverse}
use mathlib.Core.Option.{Option, none, some}
use mathlib.Core.Option
use sshmux.Base.Equality.{◌==◌, leb, nat_eq, text_eq, if◌then◌else◌}
use sshmux.Base.Lists.{length}

-- A Go string: its bytes.
abbrev pub Text : Type 0
Text = List ℕ

-- The bytes of an ASCII literal.
abbrev pub codes : String → Text
codes String.[] = []
codes (String.◌∷◌ c s) = code c ∷ codes s

-- What follows the prefix, if the text begins with it.
unfoldable pub strip : Text → Text → Option Text
strip s [] = some s
strip [] (p ∷ ps) = none
strip (c ∷ s) (p ∷ ps) = if c == p then strip s ps else none

abbrev pub is_some {ℓ} : {A : Type ℓ} → Option A → Bool
is_some none = false
is_some (some a) = true

abbrev pub get_or {ℓ} : {A : Type ℓ} → Option A → A → A
get_or none d = d
get_or (some a) d = a

-- `strings.HasPrefix(s, prefix)`
unfoldable pub has_prefix : Text → Text → Bool
unfolding strip
has_prefix s prefix = is_some (strip s prefix)

-- `strings.TrimPrefix(s, prefix)`
unfoldable pub trim_prefix : Text → Text → Text
unfolding strip
trim_prefix s prefix = get_or (strip s prefix) s

-- `strings.HasSuffix(s, suffix)`
unfoldable pub has_suffix : Text → Text → Bool
unfolding has_prefix
has_suffix s suffix = has_prefix (reverse s) (reverse suffix)

-- `strings.TrimSuffix(s, suffix)`
unfoldable pub trim_suffix : Text → Text → Text
unfolding strip
trim_suffix s suffix = get_or {A = Text} (Option.map reverse (strip (reverse s) (reverse suffix))) s

-- `strings.Contains(s, sub)`
unfoldable pub has_infix : Text → Text → Bool
unfolding has_prefix
has_infix [] sub = has_prefix [] sub
has_infix (c ∷ s) sub = has_prefix (c ∷ s) sub || has_infix s sub

-- The bytes of the white space characters of Unicode, in UTF-8, that take more than one byte.
abbrev wide_spaces : List Text
wide_spaces =
    (0xC2 ∷ 0x85 ∷ [])
    ∷ (0xC2 ∷ 0xA0 ∷ [])
    ∷ (0xE1 ∷ 0x9A ∷ 0x80 ∷ [])
    ∷ (0xE2 ∷ 0x80 ∷ 0xA8 ∷ [])
    ∷ (0xE2 ∷ 0x80 ∷ 0xA9 ∷ [])
    ∷ (0xE2 ∷ 0x80 ∷ 0xAF ∷ [])
    ∷ (0xE2 ∷ 0x81 ∷ 0x9F ∷ [])
    ∷ (0xE3 ∷ 0x80 ∷ 0x80 ∷ [])
    ∷ map (λ k. 0xE2 ∷ 0x80 ∷ k ∷ [])
        (0x80 ∷ 0x81 ∷ 0x82 ∷ 0x83 ∷ 0x84 ∷ 0x85 ∷ 0x86 ∷ 0x87 ∷ 0x88 ∷ 0x89 ∷ 0x8A ∷ [])

-- Tab, line feed, vertical tab, form feed, carriage return and blank.
abbrev is_space : ℕ → Bool
is_space c = leb 9 c && leb c 13 || c == 32

-- What follows the first of the given texts that is a prefix.
strip_any : List Text → Text → Option Text
unfolding strip
strip_any [] s = none
strip_any (p ∷ ps) s = elim (strip s p) [ none ↦ strip_any ps s | some rest ↦ some rest ]

-- Drops leading white space, of which `wide` lists the characters of several bytes. Each round
-- drops a byte at least, so the length of the text is fuel enough.
trim_left : List Text → ℕ → Text → Text
unfolding strip_any
trim_left wide zero s = s
trim_left wide (suc f) [] = []
trim_left wide (suc f) (c ∷ s) =
    let narrow = trim_left wide f s in
    if is_space c
    then narrow
    else elim (strip_any wide (c ∷ s)) [ none ↦ c ∷ s | some rest ↦ trim_left wide f rest ]

-- `strings.TrimSpace(s)`: white space at the end is a prefix of the reversed text, whose
-- characters of several bytes are reversed too.
unfoldable pub trim_space : Text → Text
unfolding trim_left
trim_space s =
    let t = trim_left wide_spaces (length s) s in
    reverse (trim_left (map reverse wide_spaces) (length t) (reverse t))

-- ===== src/Helpers/Utf16.antt =====
-- helpers/helpers.go, UTF16Len to WithinSurrogate, over Go's unicode/utf16. A string is the list of
-- its code points, as `range` reads a valid UTF-8 string; a `[]uint16` is a list of numbers.
pub mod Laws
pub mod Decoding
use telegram_mcub_go.Base.{
  ℕ, zero, suc, ◌+◌, ◌-◌, ◌*◌, ◌/◌, ◌%◌, List, [], ◌∷◌, ◌++◌, Bool, true, false, ◌&&◌, ◌||◌, Option,
  none, some, if◌then◌else◌, leb, ltb, get_elem?, ℤ, pos, negsuc,
}

abbrev pub Text : Type 0
Text = List ℕ

abbrev pub is_high : ℕ → Bool
is_high u = leb 0xd800 u && leb u 0xdbff

abbrev pub is_low : ℕ → Bool
is_low u = leb 0xdc00 u && leb u 0xdfff

abbrev pub replacement : ℕ
replacement = 0xfffd

unfoldable pub utf16_rune_len : ℕ → ℕ
utf16_rune_len r = if leb 0x10000 r then 2 else 1

unfoldable pub utf16_len : Text → ℕ
utf16_len [] = 0
utf16_len (r ∷ s) = if leb 0x10000 r then 2 + utf16_len s else 1 + utf16_len s

-- `utf16.AppendRune`: a code point of the basic plane is one unit, a supplementary one is a pair,
-- and what is no character becomes U+FFFD.
unfoldable pub encode_rune : ℕ → List ℕ
encode_rune r =
    if ltb r 0xd800 || leb 0xe000 r && ltb r 0x10000
    then r ∷ []
    else if leb 0x10000 r && leb r 0x10ffff
    then (0xd800 + (r - 0x10000) / 1024 % 1024) ∷ (0xdc00 + (r - 0x10000) % 1024) ∷ []
    else replacement ∷ []

unfoldable pub to_utf16 : Text → List ℕ
to_utf16 [] = []
to_utf16 (r ∷ s) = encode_rune r ++ to_utf16 s

-- `utf16.Decode`: a high and a low surrogate in a row are one code point; a lone one is U+FFFD.
unfoldable pub from_utf16 : List ℕ → Text
from_utf16 [] = []
from_utf16 (u ∷ []) = (if is_high u || is_low u then replacement else u) ∷ []
from_utf16 (u ∷ v ∷ rest) = elim (is_high u && is_low v) [
  | true ↦ ((u - 0xd800) * 1024 + (v - 0xdc00) + 0x10000) ∷ from_utf16 rest
  | false ↦ (if is_high u || is_low u then replacement else u) ∷ from_utf16 (v ∷ rest)
]

abbrev pub splits_pair : Option ℕ → Option ℕ → Bool
splits_pair (some u) (some v) = is_high u && is_low v
splits_pair (some u) none = false
splits_pair none v = false

-- A read past the end stands for the guard `i >= len(u)`.
unfoldable pub within_surrogate : List ℕ → ℤ → Bool
within_surrogate u (negsuc n) = false
within_surrogate u (pos zero) = false
within_surrogate u (pos (suc i)) = splits_pair (get_elem? u i) (get_elem? u (suc i))

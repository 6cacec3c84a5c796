-- ===== src/Helpers/Tests.antt =====
-- Concrete inputs for the theorems on helpers/helpers.go: an emoji between spaces and entities on it.
use telegram_mcub_go.Base.{◌+◌, ◌≡◌, inl, inr, [], ◌∷◌, true, false, arith, pos}
use telegram_mcub_go.Helpers.Utf16.{Text, utf16_len, to_utf16, from_utf16, within_surrogate}
use telegram_mcub_go.Helpers.Utf16.Laws.{from_utf16-to_utf16, within_surrogate_iff}

-- " 😀b "
abbrev padded_text : Text
padded_text = 0x20 ∷ 0x1f600 ∷ 0x62 ∷ 0x20 ∷ []

from_utf16-to_utf16_example : from_utf16 (to_utf16 padded_text) ≡ padded_text
from_utf16-to_utf16_example = from_utf16-to_utf16 padded_text (
  (omega arith, inl (omega arith)),
  (
    (omega arith, inr (omega arith)),
    ((omega arith, inl (omega arith)), ((omega arith, inl (omega arith)), tt)),
  ),
)

within_surrogate_iff_example :
    (within_surrogate (to_utf16 (0x20 ∷ 0x1f600 ∷ 0x62 ∷ [])) (pos (utf16_len (0x20 ∷ []))) ≡ false)
    × (within_surrogate (to_utf16 (0x20 ∷ 0x1f600 ∷ 0x62 ∷ [])) (pos (utf16_len (0x20 ∷ []) + 1))
        ≡ true)
within_surrogate_iff_example =
    within_surrogate_iff (0x20 ∷ []) 0x1f600 (0x62 ∷ []) ((omega arith, inl (omega arith)), tt)
      (omega arith, inr (omega arith))

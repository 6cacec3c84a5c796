-- ===== src/Helpers/Strip/Tests.antt =====
-- Concrete inputs for StripText: an emoji between spaces, and a text that begins with U+200B.
use Prim.Native.Nat.{max}
use telegram_mcub_go.Base.{◌+◌, ◌<◌, ◌≡◌, refl, [], ◌∷◌, arith, All, some, pos, eqb_ℤ, ◌+ℤ◌, ◌-ℤ◌}
use telegram_mcub_go.Helpers.Utf16.{Text, utf16_len, utf16_rune_len}
use telegram_mcub_go.Helpers.Entity.{bold, get_entity_offset, get_entity_length}
use telegram_mcub_go.Helpers.Strip.{
  is_space, is_counted, trim_left, trim_right, trim_space, left_offset, clip_right, clip,
  strip_text,
}
use telegram_mcub_go.Helpers.Strip.Window.{strip_text-Fits, Fits}
use telegram_mcub_go.Helpers.Strip.Units.{clip-covered, strip_text-misplaces, covered}

-- " 😀b "
abbrev padded_text : Text
padded_text = 0x20 ∷ 0x1f600 ∷ 0x62 ∷ 0x20 ∷ []

strip_text-Fits_example :
    All
      (Fits (utf16_len (strip_text padded_text (bold (pos 0) (pos 9) ∷ [])).0))
      (strip_text padded_text (bold (pos 0) (pos 9) ∷ [])).1
unfolding get_entity_offset get_entity_length
strip_text-Fits_example =
    strip_text-Fits padded_text (bold (pos 0) (pos 9) ∷ []) ((omega arith, omega arith), tt)

clip-covered_example :
    covered (trim_space padded_text) 0 3 ≡ covered padded_text (max 0 (left_offset padded_text)) 3
unfolding is_space is_counted clip clip_right left_offset trim_space trim_left trim_right utf16_len
    utf16_rune_len eqb_ℤ ◌+ℤ◌ ◌-ℤ◌
clip-covered_example =
    clip-covered padded_text 0 9 0 3 (omega arith, (omega arith, (omega arith, (omega arith, tt))))
      refl refl

strip_text-misplaces_example :
    (trim_left (0x200b ∷ 0x61 ∷ 0x62 ∷ []) ≡ 0x200b ∷ 0x61 ∷ 0x62 ∷ [])
    × (clip
          (pos (left_offset (0x200b ∷ 0x61 ∷ 0x62 ∷ [])))
          (pos (utf16_len (trim_space (0x200b ∷ 0x61 ∷ 0x62 ∷ []))))
          (pos (left_offset (0x200b ∷ 0x61 ∷ 0x62 ∷ []) + 0))
          (pos 1)
        ≡ some (pos 0, pos 1))
    × (0 < left_offset (0x200b ∷ 0x61 ∷ 0x62 ∷ []) + 0)
unfolding is_space trim_space trim_left trim_right utf16_len
strip_text-misplaces_example =
    strip_text-misplaces (0x61 ∷ 0x62 ∷ []) 0 1 (omega arith) (omega arith)

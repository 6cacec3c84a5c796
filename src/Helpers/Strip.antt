-- ===== src/Helpers/Strip.antt =====
-- helpers/helpers.go, StripText, over Go's strings.TrimSpace.
pub mod Window
pub mod Units
mod Tests
use telegram_mcub_go.Base.{
  ℕ, zero, suc, ◌+◌, ◌==◌, List, [], ◌∷◌, Bool, true, false, ◌&&◌, ◌||◌, Option, none, some, leb,
  if◌then◌else◌, ℤ, pos, ◌+ℤ◌, ◌-ℤ◌, leb_ℤ, ltb_ℤ, eqb_ℤ,
}
use telegram_mcub_go.Helpers.Utf16.{Text, utf16_rune_len, utf16_len}
use telegram_mcub_go.Helpers.Entity.{
  Entity, get_entity_offset, get_entity_length, set_entity_offset, set_entity_length,
}

-- `unicode.IsSpace`, by which strings.TrimSpace trims.
unfoldable pub is_space : ℕ → Bool
is_space r =
    leb 0x9 r && leb r 0xd
    || r == 0x20
    || r == 0x85
    || r == 0xa0
    || r == 0x1680
    || leb 0x2000 r && leb r 0x200a
    || r == 0x2028
    || r == 0x2029
    || r == 0x202f
    || r == 0x205f
    || r == 0x3000

unfoldable pub trim_left : Text → Text
trim_left [] = []
trim_left (r ∷ s) = if is_space r then trim_left s else r ∷ s

unfoldable pub trim_right : Text → Text
trim_right [] = []
trim_right (r ∷ s) = elim (trim_right s) [
  | [] ↦ if is_space r then [] else r ∷ []
  | q ∷ rest ↦ r ∷ q ∷ rest
]

unfoldable pub trim_space : Text → Text
trim_space s = trim_right (trim_left s)

-- The test of the loop that measures the leading whitespace.
unfoldable pub is_counted : ℕ → Bool
is_counted r =
    r == 0x20
    || r == 0xa
    || r == 0x9
    || r == 0xd
    || r == 0xc
    || r == 0xb
    || r == 0xa0
    || r == 0x200b

unfoldable pub left_offset : Text → ℕ
left_offset [] = 0
left_offset (r ∷ s) = if is_counted r then utf16_rune_len r + left_offset s else 0

-- The part of the loop body that cuts off what lies behind the stripped text.
unfoldable pub clip_right : ℤ → ℤ → ℤ → Option (ℤ × ℤ)
clip_right len_final off length =
    if leb_ℤ len_final off
    then none
    else let cut = if ltb_ℤ len_final (off +ℤ length) then len_final -ℤ off else length in
      if eqb_ℤ cut (pos 0) then none else some (off, cut)

-- The loop body, on an entity's offset and length; `none` is `continue`.
unfoldable pub clip : ℤ → ℤ → ℤ → ℤ → Option (ℤ × ℤ)
clip left len_final off length =
    if eqb_ℤ length (pos 0)
    then none
    else if leb_ℤ (off +ℤ length) left
    then none
    else if leb_ℤ left off
    then clip_right len_final (off -ℤ left) length
    else clip_right len_final (pos 0) (off +ℤ length -ℤ left)

unfoldable pub clip_entities : ℤ → ℤ → List Entity → List Entity
clip_entities left len_final [] = []
clip_entities left len_final (e ∷ es) =
    elim (clip left len_final (get_entity_offset e) (get_entity_length e)) [
      | none ↦ clip_entities left len_final es
      | some (off, length) ↦
          set_entity_length (set_entity_offset e off) length ∷ clip_entities left len_final es
    ]

unfoldable pub strip_text : Text → List Entity → Text × List Entity
strip_text text [] = (trim_space text, [])
strip_text text (e ∷ es) =
    let stripped = trim_space text in
    (stripped, clip_entities (pos (left_offset text)) (pos (utf16_len stripped)) (e ∷ es))

-- ===== src/Helpers/Strip/Window.antt =====
-- The loop of StripText against intervals: what an entity becomes, and that it fits the text.
use Prim.Native.Nat.{min, max}
use telegram_mcub_go.Base.{
  ℕ, ◌+◌, ◌-◌, ◌≡◌, ◌≢◌, sym, ◌∙◌, inl, inr, List, [], ◌∷◌, arith, All, Option, none, some, ℤ, pos,
  negsuc, ◌+ℤ◌, ◌≤ℤ◌, ◌<ℤ◌, pos-+ℤ, pos--ℤ, eqb_ℤ, ltb, if◌then◌else◌, Option-cases,
}
use telegram_mcub_go.Helpers.Utf16.{Text, utf16_len}
use telegram_mcub_go.Helpers.Entity.{Entity, get_entity_offset, get_entity_length}
use telegram_mcub_go.Helpers.Entity.Laws.{get-place, ne-absent}
use telegram_mcub_go.Helpers.Strip.{
  trim_space, left_offset, clip_right, clip, clip_entities, strip_text,
}

-- The common part of the intervals [o, o + l) and [left, left + n), counted from `left`.
abbrev pub overlap : ℕ → ℕ → ℕ → ℕ → Option (ℤ × ℤ)
overlap left n o l =
    let start = max o left in
    let end = min (o + l) (left + n) in
    if ltb start end then some (pos (start - left), pos (end - start)) else none

-- What is left of [o, o + l) below n.
abbrev below : ℕ → ℕ → ℕ → Option (ℤ × ℤ)
below n o l = if ltb o (min (o + l) n) then some (pos o, pos (min l (n - o))) else none

clip_right-below : (n o l : ℕ) → clip_right (pos n) (pos o) (pos l) ≡ below n o l
unfolding clip_right eqb_ℤ
clip_right-below n o l = ground (arith, pos-+ℤ o l, pos--ℤ n o)

pub clip-overlap : (left n o l : ℕ) → clip (pos left) (pos n) (pos o) (pos l) ≡ overlap left n o l
unfolding clip eqb_ℤ
clip-overlap left n o l = ground (
  arith,
  pos-+ℤ o l,
  pos--ℤ o left,
  pos--ℤ (o + l) left,
  clip_right-below n (o - left) l,
  clip_right-below n 0 (o + l - left),
)

abbrev pub IsPlaced : Entity → Type 0
IsPlaced e = (pos 0 ≤ℤ get_entity_offset e) × (pos 0 ≤ℤ get_entity_length e)

abbrev pub Fits : ℕ → Entity → Type 0
Fits n e =
    (pos 0 ≤ℤ get_entity_offset e)
    × (pos 0 <ℤ get_entity_length e)
    × (get_entity_offset e +ℤ get_entity_length e ≤ℤ pos n)

overlap_bounds :
    (left n o l : ℕ) (off length : ℤ)
    → overlap left n o l ≡ some (off, length)
    → (pos 0 ≤ℤ off) × (pos 0 <ℤ length) × (off +ℤ length ≤ℤ pos n) × (pos l ≢ pos 0)
overlap_bounds left n o l off length e =
    ground (arith, pos-+ℤ (max o left - left) (min (o + l) (left + n) - max o left))

clip_bounds :
    (left n : ℕ) (o l off length : ℤ)
    → pos 0 ≤ℤ o
    → pos 0 ≤ℤ l
    → clip (pos left) (pos n) o l ≡ some (off, length)
    → (pos 0 ≤ℤ off) × (pos 0 <ℤ length) × (off +ℤ length ≤ℤ pos n) × (l ≢ pos 0)
clip_bounds left n (pos o) (pos l) off length h k e =
    overlap_bounds left n o l off length (sym (clip-overlap left n o l) ∙ e)
clip_bounds left n (pos o) (negsuc l) off length h k e = absurd (omega arith)
clip_bounds left n (negsuc o) l off length h k e = absurd (omega arith)

clip_entities-Fits :
    (left n : ℕ) (es : List Entity)
    → All IsPlaced es
    → All (Fits n) (clip_entities (pos left) (pos n) es)
unfolding clip_entities
clip_entities-Fits left n [] h = tt
clip_entities-Fits left n (e ∷ es) h =
    elim (Option-cases (clip (pos left) (pos n) (get_entity_offset e) (get_entity_length e))) [
      | inl out ↦ rw (out, clip_entities) (clip_entities-Fits left n es h.1)
      | inr ((off, length), kept) ↦
          let b = clip_bounds left n _ _ off length h.0.0 h.0.1 kept in
          let (o, l, _) = get-place e off length (ne-absent e b.3) in
          rw (kept, clip_entities) (rw (o, l) (b.0, b.1, b.2), clip_entities-Fits left n es h.1)
    ]

-- When every entity passed in has a place that is not negative, every entity that `StripText`
-- returns is not empty and lies within the UTF-16 length of the returned text.
pub strip_text-Fits :
    (text : Text) (es : List Entity)
    → All IsPlaced es
    → All (Fits (utf16_len (strip_text text es).0)) (strip_text text es).1
unfolding strip_text
strip_text-Fits text [] h = tt
strip_text-Fits text (e ∷ es) h =
    clip_entities-Fits (left_offset text) (utf16_len (trim_space text)) (e ∷ es) h

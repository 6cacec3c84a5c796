-- ===== src/Extensions/Markdown/Delimiters.antt =====
-- A delimiter in the units of ParseMarkdown: where it is found and what is left without it.
use telegram_mcub_go.Base.{
  ℕ, suc, ◌+◌, ◌-◌, ◌<◌, ◌≡◌, refl, sym, ap, ap₂, ◌∙◌, List, [], ◌∷◌, ◌++◌, append_assoc, map,
  arith, length, take, drop, drop-length_append, take-length_append, length-append, length-drop,
  All, All-append, true, false, none, some, pos, ◌+ℤ◌, ◌≤ℤ◌, ltb_ℤ,
}
use telegram_mcub_go.Helpers.Utf16.{Text, encode_rune, to_utf16}
use telegram_mcub_go.Helpers.Entity.{Entity, get_entity_offset, get_entity_length}
use telegram_mcub_go.Extensions.Markdown.{
  Style, pre, bold, italic, strike, code, delimiter, default_delimiters, u16_has_prefix, index_at,
  u16_index_from, closing, matched, adjust_delimited,
}
use telegram_mcub_go.Extensions.Markdown.Steps.{IsPlainUnit, IsPlain, drop_one}

-- An entity that ends at `i` or before it.
abbrev pub EndsBy : ℕ → Entity → Type 0
EndsBy i e = get_entity_offset e +ℤ get_entity_length e ≤ℤ pos i

adjust_delimited-past : (i dl end : ℕ) (e : Entity) → EndsBy i e → adjust_delimited i dl end e ≡ e
unfolding adjust_delimited
adjust_delimited-past i dl end e h =
    let k : ltb_ℤ (pos i) (get_entity_offset e +ℤ get_entity_length e) ≡ false = ground arith in
    rw k refl

pub adjust-past :
    (i dl end : ℕ) (es : List Entity) → All (EndsBy i) es → map (adjust_delimited i dl end) es ≡ es
adjust-past i dl end [] h = refl
adjust-past i dl end (e ∷ es) h =
    ap₂ ◌∷◌ (adjust_delimited-past i dl end e h.0) (adjust-past i dl end es h.1)

u16_has_prefix_self : (p us : List ℕ) → u16_has_prefix (p ++ us) p ≡ true
u16_has_prefix_self [] us = refl
u16_has_prefix_self (x ∷ p) us = ground (arith, u16_has_prefix_self p us)

index_at-here :
    (us needle : List ℕ) (i : ℕ) → u16_has_prefix us needle ≡ true → index_at us needle i ≡ some i
index_at-here [] needle i h = rw h refl
index_at-here (u ∷ us) needle i h = rw h refl

delimiter-unlike :
    (u : ℕ) (us : List ℕ) (d : Style)
    → IsPlainUnit u
    → u16_has_prefix (u ∷ us) (delimiter d) ≡ false
unfolding delimiter
delimiter-unlike u us d h = ground arith

-- A delimiter is found behind units that begin none.
index_at-skip :
    (us rest : List ℕ) (d : Style) (i : ℕ)
    → All IsPlainUnit us
    → index_at (us ++ (delimiter d ++ rest)) (delimiter d) i ≡ some (i + length us)
index_at-skip [] rest d i h =
    index_at-here (delimiter d ++ rest) (delimiter d) i (u16_has_prefix_self (delimiter d) rest)
    ∙ ap some (omega arith)
index_at-skip (u ∷ us) rest d i h =
    let e : suc i + length us ≡ i + suc (length us) = omega arith in
    rw (delimiter-unlike u (us ++ (delimiter d ++ rest)) d h.0)
      (index_at-skip us rest d (suc i) h.1 ∙ ap some e)

encode_rune-plain : (r : ℕ) → IsPlain r → All IsPlainUnit (encode_rune r)
unfolding encode_rune
encode_rune-plain r h = ground arith

pub IsPlain-units : (s : Text) → All IsPlain s → All IsPlainUnit (to_utf16 s)
unfolding to_utf16
IsPlain-units [] h = tt
IsPlain-units (r ∷ s) h =
    All-append IsPlainUnit (encode_rune r) (to_utf16 s) (encode_rune-plain r h.0)
      (IsPlain-units s h.1)

-- What is at a place of a list that is known in parts.
take-part : (n : ℕ) (zs xs ys : List ℕ) → n ≡ length xs → zs ≡ xs ++ ys → take n zs ≡ xs
take-part n zs xs ys e f = ap₂ take e f ∙ take-length_append xs ys

drop-part : (n : ℕ) (zs xs ys : List ℕ) → n ≡ length xs → zs ≡ xs ++ ys → drop n zs ≡ ys
drop-part n zs xs ys e f = ap₂ drop e f ∙ drop-length_append xs ys

pub to_utf16-delimiter : (d : Style) → to_utf16 (delimiter d) ≡ delimiter d
unfolding delimiter to_utf16 encode_rune
to_utf16-delimiter pre = refl
to_utf16-delimiter bold = refl
to_utf16-delimiter italic = refl
to_utf16-delimiter strike = refl
to_utf16-delimiter code = refl

closing-other :
    (u : List ℕ) (i : ℕ) (ys : List ℕ) (d : Style)
    → drop i u ≡ ys
    → u16_has_prefix ys (delimiter d) ≡ false
    → closing u i d ≡ none
unfolding closing
closing-other u i ys d h k = rw (h, k) refl

-- The first delimiter in the order that the loop tries them.
matched-delimiter :
    (u : List ℕ) (i x e : ℕ) (xs : List ℕ) (d : Style)
    → drop i u ≡ delimiter d ++ x ∷ xs
    → IsPlainUnit x
    → closing u i d ≡ some e
    → matched u i default_delimiters ≡ some (d, e)
unfolding matched delimiter
matched-delimiter u i x e xs pre h k c = rw c refl
matched-delimiter u i x e xs bold h k c = rw (closing-other u i _ pre h refl, c) refl
matched-delimiter u i x e xs italic h k c =
    rw (closing-other u i _ pre h refl, closing-other u i _ bold h refl, c) refl
matched-delimiter u i x e xs strike h k c =
    rw
      (
        closing-other u i _ pre h refl,
        closing-other u i _ bold h refl,
        closing-other u i _ italic h refl,
        c,
      )
      refl
matched-delimiter u i x e xs code h k c =
    rw
      (
        closing-other u i _ pre h (ground arith),
        closing-other u i _ bold h refl,
        closing-other u i _ italic h refl,
        closing-other u i _ strike h refl,
        c,
      )
      refl

-- The five parts of the units: what is done, a delimiter, the styled text, the delimiter, the rest.
module _ (ud : List ℕ) (d : Style) (x : ℕ) (xs ur : List ℕ) (i : ℕ) (u : List ℕ)
    (at_end : i ≡ length ud) (parts : u ≡ ud ++ (delimiter d ++ (x ∷ xs ++ (delimiter d ++ ur))))
    (plain : All IsPlainUnit (x ∷ xs)) where
  abbrev pub dl : ℕ
  dl = length (delimiter d)

  abbrev behind : List ℕ
  behind = x ∷ xs ++ (delimiter d ++ ur)

  abbrev end : ℕ
  end = i + dl + length (x ∷ xs)

  drop-done_units : drop i u ≡ delimiter d ++ behind
  drop-done_units = drop-part i u ud (delimiter d ++ behind) at_end parts

  drop-opening : drop (i + dl) u ≡ behind
  drop-opening =
      drop-part (i + dl) u (ud ++ delimiter d) behind
        (omega (arith, length-append ud (delimiter d)))
        (parts ∙ sym (append_assoc ud (delimiter d) behind))

  drop-closing : drop (end + dl) u ≡ ur
  drop-closing =
      let a = length-append ud (delimiter d) in
      let b = length-append (ud ++ delimiter d) (x ∷ xs) in
      let c = length-append (ud ++ delimiter d ++ x ∷ xs) (delimiter d) in
      drop-part (end + dl) u (ud ++ delimiter d ++ x ∷ xs ++ delimiter d) ur (omega arith) (
        parts
        ∙ (sym (append_assoc ud (delimiter d) behind)
            ∙ (sym (append_assoc (ud ++ delimiter d) (x ∷ xs) (delimiter d ++ ur))
                ∙ sym (append_assoc (ud ++ delimiter d ++ x ∷ xs) (delimiter d) ur))))

  closing-found : closing u i d ≡ some end
  unfolding closing u16_index_from
  closing-found =
      let e : i + dl + 1 ≡ suc (i + dl) = omega arith in
      let f : drop (i + dl + 1) u ≡ xs ++ (delimiter d ++ ur) =
        ap (λ n. drop n u) e ∙ (drop_one (i + dl) u ∙ ap (drop 1) drop-opening) in
      let g : suc (i + dl) + length xs ≡ end = omega arith in
      rw (drop-done_units, u16_has_prefix_self (delimiter d) behind, f, e)
        (index_at-skip xs ur d (suc (i + dl)) plain.1 ∙ ap some g)

  pub matched-found : matched u i default_delimiters ≡ some (d, end)
  matched-found =
      matched-delimiter u i x end (xs ++ (delimiter d ++ ur)) d drop-done_units plain.0
        closing-found

  pub units-left :
      take i u ++ (take (end - (i + dl)) (drop (i + dl) u) ++ drop (end + dl) u)
      ≡ ud ++ (x ∷ xs ++ ur)
  units-left = ap₂ ◌++◌ (take-part i u ud (delimiter d ++ behind) at_end parts) (
      ap₂ ◌++◌
        (take-part (end - (i + dl)) (drop (i + dl) u) (x ∷ xs) (delimiter d ++ ur) (omega arith)
          drop-opening)
        drop-closing)

  pub inside-found : i < length u
  inside-found =
      omega (arith, length-drop i u, ap length drop-done_units, length-append (delimiter d) behind)

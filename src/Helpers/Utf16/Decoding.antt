-- ===== src/Helpers/Utf16/Decoding.antt =====
-- FromUTF16 on any units, and where code points end in the encoding of a text.
use telegram_mcub_go.Base.{
  ℕ, suc, ◌+◌, ◌-◌, ◌*◌, ◌≤◌, ◌<◌, ◌≡◌, refl, ap, ◌∙◌, inl, inr, List, [], ◌∷◌, Bool, true, false,
  ◌&&◌, ◌||◌, arith, length, length-append, All, All-append, Bool-cases, if◌then◌else◌,
}
use telegram_mcub_go.Helpers.Utf16.{
  Text, is_high, is_low, replacement, utf16_rune_len, utf16_len, encode_rune, to_utf16, from_utf16,
}
use telegram_mcub_go.Helpers.Utf16.Laws.{utf16_len-cons}

-- A `uint16`.
abbrev pub IsUnit : ℕ → Type 0
IsUnit u = u < 0x10000

-- A code point, possibly a surrogate.
abbrev pub IsRune : ℕ → Type 0
IsRune r = r ≤ 0x10ffff

pub encode_rune-units : (r : ℕ) → All IsUnit (encode_rune r)
unfolding encode_rune
encode_rune-units r = ground arith

pub to_utf16-units : (s : Text) → All IsUnit (to_utf16 s)
unfolding to_utf16
to_utf16-units [] = tt
to_utf16-units (r ∷ s) =
    All-append IsUnit (encode_rune r) (to_utf16 s) (encode_rune-units r) (to_utf16-units s)

pub utf16_len-nil : utf16_len [] ≡ 0
unfolding utf16_len
utf16_len-nil = refl

pub utf16_len-narrow : (r : ℕ) (s : Text) → IsUnit r → utf16_len (r ∷ s) ≡ suc (utf16_len s)
unfolding utf16_len
utf16_len-narrow r s h = ground arith

pub utf16_len-wide : (r : ℕ) (s : Text) → 0x10000 ≤ r → utf16_len (r ∷ s) ≡ suc (suc (utf16_len s))
unfolding utf16_len
utf16_len-wide r s h = ground arith

-- The code point of a pair.
abbrev pair_rune : ℕ → ℕ → ℕ
pair_rune u v = (u - 0xd800) * 1024 + (v - 0xdc00) + 0x10000

pair_rune-bounds :
    (u v : ℕ)
    → (is_high u && is_low v) ≡ true
    → (pair_rune u v ≤ 0x10ffff) × (0x10000 ≤ pair_rune u v)
pair_rune-bounds u v h = ground arith

lone-IsUnit : (u : ℕ) (b : Bool) → IsUnit u → IsUnit (if b then replacement else u)
lone-IsUnit u true h = omega arith
lone-IsUnit u false h = h

IsUnit-IsRune : (u : ℕ) → IsUnit u → IsRune u
IsUnit-IsRune u h = omega arith

from_utf16-pair :
    (u v : ℕ) (rest : List ℕ)
    → (is_high u && is_low v) ≡ true
    → from_utf16 (u ∷ v ∷ rest) ≡ pair_rune u v ∷ from_utf16 rest
unfolding from_utf16
from_utf16-pair u v rest h = ground arith

from_utf16-lone :
    (u v : ℕ) (rest : List ℕ)
    → (is_high u && is_low v) ≡ false
    → from_utf16 (u ∷ v ∷ rest)
      ≡ (if is_high u || is_low u then replacement else u) ∷ from_utf16 (v ∷ rest)
unfolding from_utf16
from_utf16-lone u v rest h = ground arith

-- `FromUTF16` of units is a text of code points, as long as the units are many.
pub from_utf16-length :
    (us : List ℕ)
    → All IsUnit us
    → All IsRune (from_utf16 us) × (utf16_len (from_utf16 us) ≡ length us)
unfolding from_utf16
from_utf16-length [] h = (tt, unfold utf16_len in refl)
from_utf16-length (u ∷ []) h =
    let one = lone-IsUnit u (is_high u || is_low u) h.0 in
    ((IsUnit-IsRune _ one, tt), utf16_len-narrow _ [] one ∙ ap suc (unfold utf16_len in refl))
from_utf16-length (u ∷ v ∷ rest) h = elim (Bool-cases (is_high u && is_low v)) [
  | inl pair ↦
      let (rs, e) = from_utf16-length rest h.1.1 in
      let (below, above) = pair_rune-bounds u v pair in
      rw (from_utf16-pair u v rest pair)
        ((below, rs), utf16_len-wide _ (from_utf16 rest) above ∙ ap (λ n. suc (suc n)) e)
  | inr lone ↦
      let (rs, e) = from_utf16-length (v ∷ rest) h.1 in
      let r = if is_high u || is_low u then replacement else u in
      let one = lone-IsUnit u (is_high u || is_low u) h.0 in
      rw (from_utf16-lone u v rest lone)
        ((IsUnit-IsRune r one, rs), utf16_len-narrow r (from_utf16 (v ∷ rest)) one ∙ ap suc e)
]

encode_rune-length_le : (r : ℕ) → length (encode_rune r) ≤ utf16_rune_len r
unfolding encode_rune utf16_rune_len
encode_rune-length_le r = ground arith

-- No text has more units than `UTF16Len` counts.
pub to_utf16-length_le : (s : Text) → length (to_utf16 s) ≤ utf16_len s
unfolding to_utf16
to_utf16-length_le [] = omega arith
to_utf16-length_le (r ∷ s) = omega (
  arith,
  length-append (encode_rune r) (to_utf16 s),
  encode_rune-length_le r,
  to_utf16-length_le s,
  utf16_len-cons r s,
)

-- ===== src/Helpers/Utf16/Laws.antt =====
-- The UTF-16 functions of helpers/helpers.go: lengths, the round trip and the pair test.
use telegram_mcub_go.Base.{
  ℕ, suc, ◌+◌, ◌≤◌, ◌<◌, ◌≡◌, refl, sym, ap, ap₂, ◌∙◌, ◌⊎◌, inl, inr, List, [], ◌∷◌, ◌++◌, Bool,
  false, arith, length, length-append, All, pos, leb, Bool-cases, append_assoc,
}
use telegram_mcub_go.Helpers.Utf16.{
  Text, is_high, is_low, utf16_rune_len, utf16_len, encode_rune, to_utf16, from_utf16,
  within_surrogate,
}

-- A code point that is no surrogate.
abbrev pub IsScalar : ℕ → Type 0
IsScalar r = (r ≤ 0x10ffff) × ((r < 0xd800) ⊎ (0xe000 ≤ r))

pub length-encode_rune : (r : ℕ) → r ≤ 0x10ffff → length (encode_rune r) ≡ utf16_rune_len r
unfolding encode_rune utf16_rune_len
length-encode_rune r h = ground arith

pub utf16_len-cons : (r : ℕ) (s : Text) → utf16_len (r ∷ s) ≡ utf16_rune_len r + utf16_len s
unfolding utf16_len utf16_rune_len
utf16_len-cons r s = ground arith

pub utf16_len-append : (s t : Text) → utf16_len (s ++ t) ≡ utf16_len s + utf16_len t
unfolding utf16_len
utf16_len-append [] t = omega arith
utf16_len-append (r ∷ s) t = ground (arith, utf16_len-append s t)

pub to_utf16-append : (s t : Text) → to_utf16 (s ++ t) ≡ to_utf16 s ++ to_utf16 t
unfolding to_utf16
to_utf16-append [] t = refl
to_utf16-append (r ∷ s) t =
    ap (◌++◌ (encode_rune r)) (to_utf16-append s t)
    ∙ sym (append_assoc (encode_rune r) (to_utf16 s) (to_utf16 t))

-- For every text of code points, the length that `UTF16Len` computes is the number of units that
-- `ToUTF16` produces.
pub length-to_utf16 : (s : Text) → All (λ r. r ≤ 0x10ffff) s → length (to_utf16 s) ≡ utf16_len s
unfolding to_utf16
length-to_utf16 [] h = unfold utf16_len in refl
length-to_utf16 (r ∷ s) h =
    length-append (encode_rune r) (to_utf16 s)
    ∙ (ap₂ ◌+◌ (length-encode_rune r h.0) (length-to_utf16 s h.1) ∙ sym (utf16_len-cons r s))

from_utf16-unit :
    (r : ℕ) (us : List ℕ)
    → is_high r ≡ false
    → is_low r ≡ false
    → from_utf16 (r ∷ us) ≡ r ∷ from_utf16 us
unfolding from_utf16
from_utf16-unit r [] h k = ground arith
from_utf16-unit r (v ∷ us) h k = ground arith

from_utf16-encode_rune :
    (r : ℕ) (us : List ℕ) → IsScalar r → from_utf16 (encode_rune r ++ us) ≡ r ∷ from_utf16 us
unfolding encode_rune from_utf16
from_utf16-encode_rune r us h = elim (Bool-cases (leb 0x10000 r)) [
  | inl wide ↦ ground arith
  | inr narrow ↦ ground (arith, from_utf16-unit r us)
]

-- Decoding the units of a text of scalar values gives the text back: `FromUTF16(ToUTF16(s)) == s`.
pub from_utf16-to_utf16 : (s : Text) → All IsScalar s → from_utf16 (to_utf16 s) ≡ s
unfolding to_utf16
from_utf16-to_utf16 [] h = unfold from_utf16 in refl
from_utf16-to_utf16 (r ∷ s) h =
    from_utf16-encode_rune r (to_utf16 s) h.0 ∙ ap (◌∷◌ r) (from_utf16-to_utf16 s h.1)

utf16_rune_len-pos : (r : ℕ) → (utf16_rune_len r ≡ 1) ⊎ (utf16_rune_len r ≡ 2)
unfolding utf16_rune_len
utf16_rune_len-pos r = ground arith

-- The pair test looks only at the text from the tested position's own code point on.
within_surrogate-shift :
    (r : ℕ) (us : List ℕ) (m : ℕ)
    → r ≤ 0x10ffff
    → within_surrogate (encode_rune r ++ us) (pos (utf16_rune_len r + suc m))
      ≡ within_surrogate us (pos (suc m))
unfolding within_surrogate encode_rune utf16_rune_len
within_surrogate-shift r us m h = elim (Bool-cases (leb 0x10000 r)) [
  | inl wide ↦
      let e : utf16_rune_len r + suc m ≡ suc (suc (suc m)) = ground arith in
      rw (ap pos e) (ground arith)
  | inr narrow ↦
      let e : utf16_rune_len r + suc m ≡ suc (suc m) = ground arith in rw (ap pos e) (ground arith)
]

within_surrogate-end :
    (r : ℕ) (us : List ℕ)
    → IsScalar r
    → within_surrogate (encode_rune r ++ us) (pos (utf16_rune_len r)) ≡ false
unfolding within_surrogate encode_rune utf16_rune_len
within_surrogate-end r us h = elim (Bool-cases (leb 0x10000 r)) [
  | inl wide ↦ let e : utf16_rune_len r ≡ suc (suc 0) = ground arith in rw (ap pos e) (ground arith)
  | inr narrow ↦ let e : utf16_rune_len r ≡ suc 0 = ground arith in rw (ap pos e) (ground arith)
]

within_surrogate-start :
    (r : ℕ) (us : List ℕ)
    → IsScalar r
    → within_surrogate (encode_rune r ++ us) (pos 1) ≡ leb 0x10000 r
unfolding within_surrogate encode_rune
within_surrogate-start r us h = ground arith

utf16_len-suc : (r : ℕ) (s : Text) → (m : ℕ) × (utf16_len (r ∷ s) ≡ suc m)
utf16_len-suc r s = elim (utf16_rune_len-pos r) [
  | inl one ↦ (utf16_len s, omega (arith, utf16_len-cons r s))
  | inr two ↦ (suc (utf16_len s), omega (arith, utf16_len-cons r s))
]

within_surrogate-at :
    (us : List ℕ) {n m : ℕ} {b : Bool}
    → n ≡ m
    → within_surrogate us (pos m) ≡ b
    → within_surrogate us (pos n) ≡ b
within_surrogate-at us e h = rw e h

-- At the unit before a code point `r` of a text of scalar values the pair test fails, and at the
-- next unit it says whether `r` is a supplementary code point: the positions that
-- `WithinSurrogate` reports are exactly those in the middle of a pair.
pub within_surrogate_iff :
    (s : Text) (r : ℕ) (t : Text)
    → All IsScalar s
    → IsScalar r
    → (within_surrogate (to_utf16 (s ++ r ∷ t)) (pos (utf16_len s)) ≡ false)
      × (within_surrogate (to_utf16 (s ++ r ∷ t)) (pos (utf16_len s + 1)) ≡ leb 0x10000 r)
unfolding to_utf16
within_surrogate_iff [] r t h k =
    unfold utf16_len within_surrogate in (refl, within_surrogate-start r (to_utf16 t) k)
within_surrogate_iff (q ∷ []) r t h k =
    let e = utf16_len-cons q [] in
    let z : utf16_len [] ≡ 0 = unfold utf16_len in refl in
    (
      within_surrogate-at _ (omega arith) (within_surrogate-end q (to_utf16 (r ∷ t)) h.0),
      within_surrogate-at _ (omega arith) (
          within_surrogate-shift q (to_utf16 (r ∷ t)) 0 h.0.0
          ∙ within_surrogate-start r (to_utf16 t) k),
    )
within_surrogate_iff (q ∷ p ∷ s) r t h k =
    let (m, e) = utf16_len-suc p s in
    let ih = within_surrogate_iff (p ∷ s) r t h.1 k in
    let c = utf16_len-cons q (p ∷ s) in
    let us = to_utf16 (p ∷ s ++ r ∷ t) in
    (
      within_surrogate-at _ (omega arith)
          (within_surrogate-shift q us m h.0.0 ∙ within_surrogate-at us (sym e) ih.0),
      within_surrogate-at _ (omega arith)
          (within_surrogate-shift q us (suc m) h.0.0 ∙ within_surrogate-at us (omega arith) ih.1),
    )

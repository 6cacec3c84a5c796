-- ===== src/Helpers/Strip/Units.antt =====
-- What the entities that StripText returns cover, in UTF-16 units.
use Prim.Native.Nat.{max}
use telegram_mcub_go.Base.{
  ℕ, zero, suc, ◌+◌, ◌≤◌, ◌<◌, ◌≡◌, refl, sym, ap, ◌∙◌, inl, inr, List, [], ◌∷◌, ◌++◌, Bool, true,
  false, not, ◌&&◌, arith, All, All-prefix, some, pos, take, drop, take-length_append, subst,
  if◌then◌else◌, Bool-cases,
}
use telegram_mcub_go.Helpers.Utf16.{Text, utf16_rune_len, utf16_len, encode_rune, to_utf16}
use telegram_mcub_go.Helpers.Utf16.Laws.{to_utf16-append, length-to_utf16}
use telegram_mcub_go.Helpers.Strip.{
  is_space, is_counted, trim_left, trim_right, trim_space, left_offset, clip,
}
use telegram_mcub_go.Helpers.Strip.Window.{overlap, clip-overlap}

-- On the leading whitespace, and at its end, the test that StripText counts by agrees with that of
-- strings.TrimSpace.
abbrev pub lead_agrees : Text → Bool
lead_agrees [] = true
lead_agrees (r ∷ s) = if is_space r then is_counted r && lead_agrees s else not (is_counted r)

-- The units that a place covers.
abbrev pub covered : Text → ℕ → ℕ → List ℕ
covered t o l = take l (drop o (to_utf16 t))

is_counted-narrow :
    (r : ℕ) → is_counted r ≡ true → (utf16_rune_len r ≡ 1) × (encode_rune r ≡ r ∷ [])
unfolding is_counted utf16_rune_len encode_rune
is_counted-narrow r h = (ground arith, ground arith)

lead_agrees-space :
    (b c d : Bool) → (if b then c && d else not c) ≡ true → b ≡ true → (c ≡ true) × (d ≡ true)
lead_agrees-space b c d h k = ground arith

lead_agrees-black : (b c d : Bool) → (if b then c && d else not c) ≡ true → b ≡ false → c ≡ false
lead_agrees-black b c d h k = ground arith

drop-left_offset :
    (s : Text) → lead_agrees s ≡ true → drop (left_offset s) (to_utf16 s) ≡ to_utf16 (trim_left s)
unfolding left_offset to_utf16 trim_left
drop-left_offset [] h = refl
drop-left_offset (r ∷ s) h = elim (Bool-cases (is_space r)) [
  | inl space ↦
      let (c, d) = lead_agrees-space (is_space r) (is_counted r) (lead_agrees s) h space in
      let (one, unit) = is_counted-narrow r c in
      let e : utf16_rune_len r + left_offset s ≡ suc (left_offset s) = omega arith in
      rw (space, c, e, unit) (drop-left_offset s d)
  | inr black ↦
      rw (black, lead_agrees-black (is_space r) (is_counted r) (lead_agrees s) h black) refl
]

all_or_first :
    (r : ℕ) (s w : Text) (b : Bool)
    → s ≡ w
    → (w : Text) × (◌≡◌ {A = Text} (r ∷ s) ((if b then [] else r ∷ []) ++ w))
all_or_first r s w true e = (r ∷ s, refl)
all_or_first r s w false e = (w, ap (◌∷◌ r) e)

trim_right-prefix : (s : Text) → (w : Text) × (s ≡ trim_right s ++ w)
unfolding trim_right
trim_right-prefix [] = ([], refl)
trim_right-prefix (r ∷ s) = go (trim_right s) (trim_right-prefix s)
  where
    go :
        (p : Text)
        → (w : Text) × (s ≡ p ++ w)
        → (w : Text) × (◌≡◌ {A = Text}
            (r ∷ s)
            ((elim p [ [] ↦ if is_space r then [] else r ∷ [] | q ∷ rest ↦ r ∷ q ∷ rest ]) ++ w))
    go [] (w, e) = all_or_first r s w (is_space r) e
    go (q ∷ rest) (w, e) = (w, ap (◌∷◌ r) e)

trim_right-units :
    (s : Text)
    → All (λ r. r ≤ 0x10ffff) s
    → take (utf16_len (trim_right s)) (to_utf16 s) ≡ to_utf16 (trim_right s)
trim_right-units s h =
    let (w, e) = trim_right-prefix s in
    let p = trim_right s in
    let long = length-to_utf16 p (All-prefix _ p w (subst (All (λ r. r ≤ 0x10ffff)) e h)) in
    rw (ap to_utf16 e, to_utf16-append p w, ← long) (take-length_append (to_utf16 p) (to_utf16 w))

trim_left-All {κ} : (P : ℕ → Type κ) (s : Text) → All P s → All P (trim_left s)
unfolding trim_left
trim_left-All P [] h = h
trim_left-All P (r ∷ s) h = elim (Bool-cases (is_space r)) [
  | inl space ↦ rw space (trim_left-All P s h.1)
  | inr black ↦ rw black h
]

-- Stripping cuts out one interval of units, the one that the entities are measured against.
pub trim_space-units :
    (s : Text)
    → All (λ r. r ≤ 0x10ffff) s
    → lead_agrees s ≡ true
    → to_utf16 (trim_space s) ≡ take (utf16_len (trim_space s)) (drop (left_offset s) (to_utf16 s))
unfolding trim_space
trim_space-units s h k =
    rw (drop-left_offset s k) (sym (trim_right-units (trim_left s) (trim_left-All _ s h)))

module _ {A : Type 0} where
  drop-nil : (n : ℕ) → drop {A = A} n [] ≡ []
  drop-nil zero = refl
  drop-nil (suc n) = refl

  pub drop-add : (m n : ℕ) (xs : List A) → drop (m + n) xs ≡ drop n (drop m xs)
  drop-add zero n xs = ap (λ k. drop k xs) (omega arith)
  drop-add (suc m) n [] = drop-nil (suc m + n) ∙ sym (drop-nil n)
  drop-add (suc m) n (x ∷ xs) =
      let e : suc m + n ≡ suc (m + n) = omega arith in rw e (drop-add m n xs)

  take-take : (m n : ℕ) (xs : List A) → m ≤ n → take m (take n xs) ≡ take m xs
  take-take zero n xs h = refl
  take-take (suc m) zero xs h = absurd (omega arith)
  take-take (suc m) (suc n) [] h = refl
  take-take (suc m) (suc n) (x ∷ xs) h = ap (◌∷◌ x) (take-take m n xs (omega arith))

  take-drop-take :
      (l o n : ℕ) (xs : List A) → o + l ≤ n → take l (drop o (take n xs)) ≡ take l (drop o xs)
  take-drop-take l zero n xs h = take-take l n xs (omega arith)
  take-drop-take l (suc o) zero xs h = absurd (omega arith)
  take-drop-take l (suc o) (suc n) [] h = refl
  take-drop-take l (suc o) (suc n) (x ∷ xs) h = take-drop-take l o n xs (omega arith)

overlap-fits :
    (left n o l off len : ℕ)
    → overlap left n o l ≡ some (pos off, pos len)
    → (max o left ≡ left + off) × (off + len ≤ n)
overlap-fits left n o l off len e = ground arith

-- For a text of code points on whose leading whitespace the two tests agree, an entity at [o, o + l)
-- that `StripText` keeps covers, at its new place in the stripped text, the units that it covered
-- in the original text from the later of its old offset and the first kept unit on.
pub clip-covered :
    (s : Text) (o l off len : ℕ)
    → All (λ r. r ≤ 0x10ffff) s
    → lead_agrees s ≡ true
    → clip (pos (left_offset s)) (pos (utf16_len (trim_space s))) (pos o) (pos l)
      ≡ some (pos off, pos len)
    → covered (trim_space s) off len ≡ covered s (max o (left_offset s)) len
clip-covered s o l off len h k e =
    let left = left_offset s in
    let n = utf16_len (trim_space s) in
    let f = overlap-fits left n o l off len (sym (clip-overlap left n o l) ∙ e) in
    let us = to_utf16 s in
    ap (λ (v : List ℕ). take len (drop off v)) (trim_space-units s h k)
    ∙ (take-drop-take len off n (drop left us) f.1
        ∙ ap (take len) (sym (drop-add left off us) ∙ ap (λ m. drop m us) (sym f.0)))

-- For every text that begins with U+200B, stripping removes nothing at the left end, and yet an
-- entity that covers [left + k, left + k + l) of it, with the end at most `left` units before the
-- stripped text's end, is moved to [k, k + l): `left`, at least 1, is counted for the kept character.
pub strip_text-misplaces :
    (s : Text) (k l : ℕ)
    → 0 < l
    → k + l ≤ utf16_len (trim_space (0x200b ∷ s))
    → let left = left_offset (0x200b ∷ s) in
      (trim_left (0x200b ∷ s) ≡ 0x200b ∷ s)
      × (clip (pos left) (pos (utf16_len (trim_space (0x200b ∷ s)))) (pos (left + k)) (pos l)
          ≡ some (pos k, pos l))
      × (k < left + k)
strip_text-misplaces s k l h fits =
    let left = left_offset (0x200b ∷ s) in
    let n = utf16_len (trim_space (0x200b ∷ s)) in
    let counted : 1 ≤ left = unfold left_offset is_counted utf16_rune_len in omega arith in
    (
      unfold trim_left is_space in refl,
      clip-overlap left n (left + k) l ∙ moved left n k l h fits,
      omega arith,
    )
  where
    moved : (left n k l : ℕ) → 0 < l → k + l ≤ n → overlap left n (left + k) l ≡ some (pos k, pos l)
    moved left n k l h fits = ground arith

-- ===== src/Extensions/Markdown/Steps.antt =====
-- Rounds of ParseMarkdown over plain text: the position moves on, and nothing else changes.
use mathlib.Core.Option
use telegram_mcub_go.Base.{
  ℕ, zero, suc, ◌+◌, ◌-◌, ◌≤◌, ◌<◌, ◌≡◌, ◌≢◌, refl, sym, ap, ap₂, ◌∙◌, subst, inl, inr, List, [],
  ◌∷◌, ◌++◌, append_assoc, append-nil, arith, length, take, drop, length-drop, All-prefix,
  All-suffix, ◌/◌, ◌%◌, All, none, Bool-cases, lt→ltb, leb, leb→le,
}
use telegram_mcub_go.Helpers.Utf16.{Text, utf16_rune_len, utf16_len, encode_rune, to_utf16}
use telegram_mcub_go.Helpers.Utf16.Laws.{
  IsScalar, utf16_len-append, utf16_len-cons, to_utf16-append, from_utf16-to_utf16,
}
use telegram_mcub_go.Helpers.Utf16.Decoding.{utf16_len-nil}
use telegram_mcub_go.Helpers.Entity.{Entity}
use telegram_mcub_go.Extensions.Markdown.Positions.{
  between, pos-append, pos-inside, drop-done, linked-between,
}
use telegram_mcub_go.Extensions.Markdown.{
  Style, pre, bold, italic, strike, code, delimiter, default_delimiters, closing, matched, State,
  utf16_pos_to_byte_off, default_url_re, linked, link_at, step, parse_loop, take_link, round,
  or_advance,
}

-- Some rounds lead from one state to another.
abbrev pub Reaches : State → State → Type 0
Reaches s t = (k : ℕ) × ((fuel : ℕ) → parse_loop (k + fuel) s ≡ parse_loop fuel t)

pub Reaches-refl : (s : State) → Reaches s s
Reaches-refl s = (0, λ fuel. ap (λ n. parse_loop n s) (omega arith))

pub Reaches-trans : (s t v : State) → Reaches s t → Reaches t v → Reaches s v
Reaches-trans s t v (k, f) (l, g) = (
  k + l,
  λ fuel. let e : k + l + fuel ≡ k + (l + fuel) = omega arith in rw e (f (l + fuel)) ∙ g fuel,
)

pub Reaches-step : (s : State) → s.i < length s.u16 → Reaches s (step s)
unfolding parse_loop
Reaches-step s h = (
  1,
  λ fuel. let e : 1 + fuel ≡ suc fuel = omega arith in rw (e, lt→ltb s.i (length s.u16) h) refl,
)

-- A unit that begins no delimiter.
abbrev pub IsPlainUnit : ℕ → Type 0
IsPlainUnit u = (u ≢ 0x60) × (u ≢ 0x2a) × (u ≢ 0x5f) × (u ≢ 0x7e)

-- A character that begins neither a delimiter nor a link, and ends no link text.
abbrev pub IsPlain : ℕ → Type 0
IsPlain r = IsScalar r × IsPlainUnit r × (r ≢ 0x5b) × (r ≢ 0x5d)

closing-none :
    (u : List ℕ) (i x : ℕ) (xs : List ℕ) (d : Style)
    → drop i u ≡ x ∷ xs
    → IsPlainUnit x
    → closing u i d ≡ none
unfolding closing delimiter
closing-none u i x xs d e h = rw e (ground arith)

pub matched-none :
    (u : List ℕ) (i x : ℕ) (xs : List ℕ)
    → drop i u ≡ x ∷ xs
    → IsPlainUnit x
    → matched u i default_delimiters ≡ none
unfolding matched
matched-none u i x xs e h =
    rw
      (
        closing-none u i x xs pre e h,
        closing-none u i x xs bold e h,
        closing-none u i x xs italic e h,
        closing-none u i x xs strike e h,
        closing-none u i x xs code e h,
      )
      refl

pub drop_one : (n : ℕ) (us : List ℕ) → drop (suc n) us ≡ drop 1 (drop n us)
drop_one zero us = refl
drop_one (suc n) [] = refl
drop_one (suc n) (u ∷ us) = drop_one n us

pub inside : (n : ℕ) (us : List ℕ) (x : ℕ) (xs : List ℕ) → drop n us ≡ x ∷ xs → n < length us
inside n us x xs e = omega (arith, length-drop n us, ap length e)

-- A round at an ordinary unit, when no link is found, moves on by one unit.
plain-Reaches :
    (s : State) (x : ℕ) (xs : List ℕ)
    → drop s.i s.u16 ≡ x ∷ xs
    → IsPlainUnit x
    → linked s ≡ none
    → Reaches s (record s { i = suc s.i })
plain-Reaches s x xs e h k =
    let moves : step s ≡ record s { i = suc s.i } =
      unfold step in (ap (round s) (matched-none s.u16 s.i x xs e h) ∙ ap (or_advance s) k) in
    subst (Reaches s) moves (Reaches-step s (inside s.i s.u16 x xs e))

default_url_re-none : (r : ℕ) (rest : Text) → r ≢ 0x5b → default_url_re (r ∷ rest) ≡ none
unfolding default_url_re
default_url_re-none r rest h = ground arith

encode_rune-narrow : (r : ℕ) → IsScalar r → r < 0x10000 → encode_rune r ≡ r ∷ []
unfolding encode_rune
encode_rune-narrow r h k = ground arith

-- The units of a supplementary code point.
encode_rune-wide :
    (r : ℕ)
    → IsScalar r
    → 0x10000 ≤ r
    → (u : ℕ) × (v : ℕ) × (encode_rune r ≡ u ∷ v ∷ []) × IsPlainUnit u × IsPlainUnit v
unfolding encode_rune
encode_rune-wide r h k = (
  0xd800 + (r - 0x10000) / 1024 % 1024,
  0xdc00 + (r - 0x10000) % 1024,
  ground arith,
  (ground arith, ground arith, ground arith, ground arith),
  (ground arith, ground arith, ground arith, ground arith),
)

module _ (done rest : Text) (r : ℕ) (es : List Entity) (h : All IsScalar (done ++ r ∷ rest)) where
  scalars : All IsScalar done × IsScalar r
  scalars = (All-prefix IsScalar done (r ∷ rest) h, (All-suffix IsScalar done (r ∷ rest) h).0)

  units-between :
      drop (utf16_len done) (to_utf16 (done ++ r ∷ rest)) ≡ encode_rune r ++ to_utf16 rest
  units-between =
      ap (drop (utf16_len done)) (to_utf16-append done (r ∷ rest))
      ∙ (drop-done done (to_utf16 (r ∷ rest)) scalars.0 ∙ (unfold to_utf16 in refl))

  moved :
      (n : ℕ)
      → n ≡ utf16_len done + utf16_rune_len r
      → ◌≡◌ {A = State}
          (record (between done (r ∷ rest) es) { i = n })
          (between (done ++ r ∷ []) rest es)
  moved n e =
      ap₂ (λ (w : Text) m. record { u16 = to_utf16 w; result = es; i = m })
        (sym (append_assoc done (r ∷ []) rest))
        (omega (arith, utf16_len-append done (r ∷ []), utf16_len-cons r [], utf16_len-nil))

  unlinked : r ≢ 0x5b → linked (between done (r ∷ rest) es) ≡ none
  unlinked k =
      linked-between done (r ∷ rest) es h
      ∙ ap
          (Option.map (λ m.
            take_link (between done (r ∷ rest) es) (take (length done) (done ++ r ∷ rest)) m.0 m.1
              m.2))
          (default_url_re-none r rest k)

  unlinked_inside :
      0x10000 ≤ r → linked (record (between done (r ∷ rest) es) { i = suc (utf16_len done) }) ≡ none
  unfolding linked
  unlinked_inside k =
      let e : suc (utf16_len done) ≡ utf16_len done + 1 = omega arith in
      let s : State = record (between done (r ∷ rest) es) { i = suc (utf16_len done) } in
      ap (λ c. link_at s c (utf16_pos_to_byte_off c (suc (utf16_len done))))
        (from_utf16-to_utf16 (done ++ r ∷ rest) h)
      ∙ (ap (λ n. link_at s (done ++ r ∷ rest) (utf16_pos_to_byte_off (done ++ r ∷ rest) n)) e
          ∙ ap (link_at s (done ++ r ∷ rest)) (
              pos-append done (r ∷ rest) 1
              ∙ ap (Option.map (λ k. length done + k)) (pos-inside r rest k)))

  pub rune-Reaches :
      IsPlain r → Reaches (between done (r ∷ rest) es) (between (done ++ r ∷ []) rest es)
  rune-Reaches (scalar, unit, bracket, _) = elim (Bool-cases (leb 0x10000 r)) [
    | inl wide ↦
        let k = leb→le 0x10000 r wide in
        let (u, v, w, plain_u, plain_v) = encode_rune-wide r scalar k in
        let e = units-between ∙ ap (λ (v : List ℕ). v ++ to_utf16 rest) w in
        let f = drop_one (utf16_len done) (to_utf16 (done ++ r ∷ rest)) ∙ ap (drop 1) e in
        Reaches-trans (between done (r ∷ rest) es) _ _
          (plain-Reaches (between done (r ∷ rest) es) u (v ∷ to_utf16 rest) e plain_u
            (unlinked bracket))
          (subst (Reaches (record (between done (r ∷ rest) es) { i = suc (utf16_len done) }))
            (moved (suc (suc (utf16_len done))) (unfold utf16_rune_len in ground arith))
            (plain-Reaches _ v (to_utf16 rest) f plain_v (unlinked_inside k)))
    | inr narrow ↦
        let k : r < 0x10000 = ground arith in
        let e =
          units-between ∙ ap (λ (v : List ℕ). v ++ to_utf16 rest) (encode_rune-narrow r scalar k) in
        subst (Reaches (between done (r ∷ rest) es))
          (moved (suc (utf16_len done)) (unfold utf16_rune_len in ground arith))
          (plain-Reaches (between done (r ∷ rest) es) r (to_utf16 rest) e unit (unlinked bracket))
  ]

-- The loop passes over a plain text that stands at the position.
pub text-Reaches :
    (done body rest : Text) (es : List Entity)
    → All IsScalar (done ++ (body ++ rest))
    → All IsPlain body
    → Reaches (between done (body ++ rest) es) (between (done ++ body) rest es)
text-Reaches done [] rest es h k =
    subst (λ d. Reaches (between done rest es) (between d rest es)) (sym (append-nil done))
      (Reaches-refl (between done rest es))
text-Reaches done (r ∷ body) rest es h k =
    let w = append_assoc done (r ∷ []) (body ++ rest) in
    let d = append_assoc done (r ∷ []) body in
    Reaches-trans (between done (r ∷ (body ++ rest)) es)
      (between (done ++ r ∷ []) (body ++ rest) es) _ (rune-Reaches done (body ++ rest) r es h k.0)
      (subst
        (λ (d : Text). Reaches (between (done ++ r ∷ []) (body ++ rest) es) (between d rest es)) d
        (text-Reaches (done ++ r ∷ []) body rest es (subst (All IsScalar) (sym w) h) k.1))

-- ===== src/Extensions/Markdown/Linked.antt =====
-- The round of ParseMarkdown that takes a link.
use mathlib.Core.Option
use telegram_mcub_go.Base.{
  ℕ, ◌==◌, ◌≡◌, ◌≢◌, refl, sym, ap, ap₂, ◌∙◌, subst, List, [], ◌∷◌, ◌++◌, append_assoc, map, arith,
  length, take, drop, take-length_append, All, All-prefix, true, false, some, pos, ◌+ℤ◌, ltb_ℤ,
}
use telegram_mcub_go.Helpers.Utf16.{Text, utf16_len, encode_rune, to_utf16}
use telegram_mcub_go.Helpers.Utf16.Laws.{IsScalar, utf16_len-append, to_utf16-append}
use telegram_mcub_go.Helpers.Entity.{Entity, get_entity_offset, get_entity_length}
use telegram_mcub_go.Extensions.Markdown.{
  step, round, or_advance, linked, take_link, adjust_linked, url_entity, cut_at, cut_first,
  link_from, default_url_re,
}
use telegram_mcub_go.Extensions.Markdown.Positions.{between, drop-done, linked-between}
use telegram_mcub_go.Extensions.Markdown.Steps.{Reaches, Reaches-step, matched-none, inside}
use telegram_mcub_go.Extensions.Markdown.Delimited.{state-path}
use telegram_mcub_go.Extensions.Markdown.Delimiters.{EndsBy}

-- A link, as it is written in Markdown.
abbrev pub link_source : Text → Text → Text → Text
link_source link_text link_url rest =
    0x5b ∷ (link_text ++ (0x5d ∷ 0x28 ∷ (link_url ++ (0x29 ∷ rest))))

cut_at-found :
    (c : ℕ) (before after : Text)
    → All (λ r. r ≢ c) before
    → cut_at c (before ++ c ∷ after) ≡ some (before, after)
unfolding cut_at
cut_at-found c [] after h = let e : (c == c) ≡ true = ground arith in rw e refl
cut_at-found c (r ∷ before) after h =
    let e : (r == c) ≡ false = ground arith in
    rw e (ap (Option.map (cut_first r)) (cut_at-found c before after h.1))

default_url_re-found :
    (link_text link_url rest : Text)
    → All (λ r. r ≢ 0x5d) link_text
    → All (λ r. r ≢ 0x29) link_url
    → default_url_re (link_source link_text link_url rest) ≡ some (link_text, link_url, rest)
unfolding default_url_re
default_url_re-found link_text link_url rest h k =
    ap link_from (cut_at-found 0x5d link_text (0x28 ∷ (link_url ++ (0x29 ∷ rest))) h)
    ∙ ap (Option.map (λ p. (link_text, p.0, p.1))) (cut_at-found 0x29 link_url rest k)

adjust_linked-past : (i n : ℕ) (e : Entity) → EndsBy i e → adjust_linked i n e ≡ e
unfolding adjust_linked
adjust_linked-past i n e h =
    let k : ltb_ℤ (pos i) (get_entity_offset e +ℤ get_entity_length e) ≡ false = ground arith in
    rw k refl

adjust-past : (i n : ℕ) (es : List Entity) → All (EndsBy i) es → map (adjust_linked i n) es ≡ es
adjust-past i n [] h = refl
adjust-past i n (e ∷ es) h = ap₂ ◌∷◌ (adjust_linked-past i n e h.0) (adjust-past i n es h.1)

-- The entity of a link after `done`.
abbrev pub link_mark : Text → Text → Text → Entity
link_mark link_url done link_text =
    url_entity link_url (pos (utf16_len done)) (pos (utf16_len link_text))

take_link-state :
    (done link_text link_url rest : Text) (es : List Entity)
    → All (EndsBy (utf16_len done)) es
    → take_link (between done (link_source link_text link_url rest) es) done link_text link_url rest
      ≡ between (done ++ link_text) rest (es ++ link_mark link_url done link_text ∷ [])
unfolding take_link
take_link-state done link_text link_url rest es h =
    state-path (ap to_utf16 (sym (append_assoc done link_text rest)))
      (ap (λ (fs : List Entity). fs ++ link_mark link_url done link_text ∷ [])
        (adjust-past (utf16_len done) _ es h))
      (sym (utf16_len-append done link_text))

units-bracket : (s : Text) → to_utf16 (0x5b ∷ s) ≡ 0x5b ∷ to_utf16 s
unfolding to_utf16 encode_rune
units-bracket s = refl

-- The loop takes a link in one round, and marks it.
pub link-Reaches :
    (done link_text link_url rest : Text) (es : List Entity)
    → All IsScalar (done ++ link_source link_text link_url rest)
    → All (λ r. r ≢ 0x5d) link_text
    → All (λ r. r ≢ 0x29) link_url
    → All (EndsBy (utf16_len done)) es
    → Reaches
        (between done (link_source link_text link_url rest) es)
        (between (done ++ link_text) rest (es ++ link_mark link_url done link_text ∷ []))
link-Reaches done link_text link_url rest es h k l past =
    let source = link_source link_text link_url rest in
    let s = between done source es in
    let u : drop (utf16_len done) (to_utf16 (done ++ source))
        ≡ 0x5b ∷ to_utf16 (link_text ++ (0x5d ∷ 0x28 ∷ (link_url ++ (0x29 ∷ rest)))) =
      ap (drop (utf16_len done)) (to_utf16-append done source)
      ∙ (drop-done done (to_utf16 source) (All-prefix IsScalar done source h) ∙ units-bracket _) in
    let m =
      matched-none (to_utf16 (done ++ source)) (utf16_len done) 0x5b _ u
        (omega arith, omega arith, omega arith, omega arith) in
    let e : linked s
        ≡ some (between (done ++ link_text) rest (es ++ link_mark link_url done link_text ∷ [])) =
      linked-between done source es h
      ∙ (ap (Option.map (λ m. take_link s (take (length done) (done ++ source)) m.0 m.1 m.2))
            (default_url_re-found link_text link_url rest k l)
          ∙ ap some (
              ap (λ d. take_link s d link_text link_url rest) (take-length_append done source)
              ∙ take_link-state done link_text link_url rest es past)) in
    let moves : step s
        ≡ between (done ++ link_text) rest (es ++ link_mark link_url done link_text ∷ []) =
      unfold step in (ap (round s) m ∙ ap (or_advance s) e) in
    subst (Reaches s) moves
      (Reaches-step s (inside (utf16_len done) (to_utf16 (done ++ source)) 0x5b _ u))

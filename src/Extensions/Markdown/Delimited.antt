-- ===== src/Extensions/Markdown/Delimited.antt =====
-- The round of ParseMarkdown that takes a styled text.
use telegram_mcub_go.Base.{
  ℕ, ◌+◌, ◌≤◌, ◌<◌, ◌≡◌, refl, sym, ap, ap₂, ◌∙◌, subst, List, [], ◌∷◌, ◌++◌, append_assoc, arith,
  length, All, All-map, All-prefix, pos,
}
use telegram_mcub_go.Helpers.Utf16.{Text, utf16_len, encode_rune, to_utf16}
use telegram_mcub_go.Helpers.Utf16.Laws.{
  IsScalar, utf16_len-append, to_utf16-append, length-to_utf16,
}
use telegram_mcub_go.Helpers.Entity.{Entity}
use telegram_mcub_go.Extensions.Markdown.{
  Style, pre, bold, italic, strike, code, delimiter, State, styled, take_delimited, position_after,
  step, round,
}
use telegram_mcub_go.Extensions.Markdown.Positions.{between}
use telegram_mcub_go.Extensions.Markdown.Steps.{
  Reaches, Reaches-refl, Reaches-trans, Reaches-step, IsPlainUnit, IsPlain, text-Reaches,
}
use telegram_mcub_go.Extensions.Markdown.Delimiters.{
  EndsBy, adjust-past, IsPlain-units, to_utf16-delimiter, dl, matched-found, units-left,
  inside-found,
}

head_and_tail : (us vs : List ℕ) → 1 ≤ length us → (x : ℕ) × (xs : List ℕ) × (us ++ vs ≡ x ∷ xs)
head_and_tail [] vs h = absurd (omega arith)
head_and_tail (u ∷ us) vs h = (u, us ++ vs, refl)

encode_rune-nonempty : (r : ℕ) → 1 ≤ length (encode_rune r)
unfolding encode_rune
encode_rune-nonempty r = ground arith

to_utf16-cons : (r : ℕ) (s : Text) → (x : ℕ) × (xs : List ℕ) × (to_utf16 (r ∷ s) ≡ x ∷ xs)
unfolding to_utf16
to_utf16-cons r s = head_and_tail (encode_rune r) (to_utf16 s) (encode_rune-nonempty r)

pub state-path :
    {u v : List ℕ} {es fs : List Entity} {i j : ℕ}
    → u ≡ v
    → es ≡ fs
    → i ≡ j
    → ◌≡◌ {A = State}
        (record { u16 = u; result = es; i = i })
        (record { u16 = v; result = fs; i = j })
state-path e f g = λ k. record { u16 = e k; result = f k; i = g k }

-- A styled text, as it is written in Markdown.
abbrev pub delimited : Style → Text → Text → Text
delimited d body rest = delimiter d ++ (body ++ (delimiter d ++ rest))

to_utf16-delimited :
    (done body rest : Text) (d : Style)
    → to_utf16 (done ++ delimited d body rest)
      ≡ to_utf16 done ++ (delimiter d ++ (to_utf16 body ++ (delimiter d ++ to_utf16 rest)))
to_utf16-delimited done body rest d =
    let e = to_utf16-delimiter d in
    to_utf16-append done (delimited d body rest)
    ∙ ap (◌++◌ (to_utf16 done)) (
        to_utf16-append (delimiter d) (body ++ (delimiter d ++ rest))
        ∙ ap₂ ◌++◌ e (
            to_utf16-append body (delimiter d ++ rest)
            ∙ ap (◌++◌ (to_utf16 body))
                (to_utf16-append (delimiter d) rest ∙ ap (λ (v : List ℕ). v ++ to_utf16 rest) e)))

to_utf16-append₃ :
    (s t v : Text) → to_utf16 (s ++ (t ++ v)) ≡ to_utf16 s ++ (to_utf16 t ++ to_utf16 v)
to_utf16-append₃ s t v = to_utf16-append s (t ++ v) ∙ ap (◌++◌ (to_utf16 s)) (to_utf16-append t v)

-- The entity of a styled text after `done`.
abbrev pub marked : Style → Text → Text → Entity
marked d done body = styled d (pos (utf16_len done)) (pos (utf16_len body))

-- The round, for a styled text that is not empty.
step-delimited :
    (done body rest : Text) (r : ℕ) (es : List Entity) (d : Style)
    → All IsScalar done
    → All IsPlain (r ∷ body)
    → All (EndsBy (utf16_len done)) es
    → let s = between done (delimited d (r ∷ body) rest) es in
      let n = utf16_len done in
      let dl = length (delimiter d) in
      (s.i < length s.u16)
      × (step s ≡ record {
        u16 = to_utf16 (done ++ (r ∷ body ++ rest));
        result = es ++ marked d done (r ∷ body) ∷ [];
        i = position_after d n dl (n + dl + utf16_len (r ∷ body));
      })
unfolding step take_delimited
step-delimited done body rest r es d h k past =
    let (x, xs, e) = to_utf16-cons r body in
    let n = utf16_len done in
    let dl = length (delimiter d) in
    let u = to_utf16 (done ++ delimited d (r ∷ body) rest) in
    let ud = to_utf16 done in
    let ur = to_utf16 rest in
    let at_end : n ≡ length ud = sym (length-to_utf16 done (All-map _ _ (λ r k. k.0) done h)) in
    let parts : u ≡ ud ++ (delimiter d ++ (x ∷ xs ++ (delimiter d ++ ur))) =
      to_utf16-delimited done (r ∷ body) rest d
      ∙ ap (λ (v : List ℕ). ud ++ (delimiter d ++ (v ++ (delimiter d ++ ur)))) e in
    let plain = subst (All IsPlainUnit) e (IsPlain-units (r ∷ body) k) in
    let long : length (x ∷ xs) ≡ utf16_len (r ∷ body) =
      ap length (sym e) ∙ length-to_utf16 (r ∷ body) (All-map _ _ (λ r k. k.0.0) (r ∷ body) k) in
    (
      inside-found ud d x xs ur n u at_end parts plain,
      ap (round (between done (delimited d (r ∷ body) rest) es))
            (matched-found ud d x xs ur n u at_end parts plain)
          ∙ state-path
              (units-left ud d x xs ur n u at_end parts plain
                ∙ (ap (λ (v : List ℕ). ud ++ (v ++ ur)) (sym e)
                    ∙ sym (to_utf16-append₃ done (r ∷ body) rest)))
              (ap₂ (λ (fs : List Entity) m. fs ++ styled d (pos n) (pos m) ∷ [])
                (adjust-past n dl (n + dl + length (x ∷ xs)) es past) (omega arith))
              (ap (λ m. position_after d n dl (n + dl + m)) long),
    )

jumped :
    (done body rest : Text) (fs : List Entity) (i : ℕ)
    → i ≡ utf16_len done + utf16_len body
    → Reaches
        (record { u16 = to_utf16 (done ++ (body ++ rest)); result = fs; i = i })
        (between (done ++ body) rest fs)
jumped done body rest fs i e =
    subst (Reaches (record { u16 = to_utf16 (done ++ (body ++ rest)); result = fs; i = i }))
      (state-path (ap to_utf16 (sym (append_assoc done body rest))) refl
        (e ∙ sym (utf16_len-append done body)))
      (Reaches-refl _)

-- What follows that round: the loop passes over the styled text, or has jumped over it.
after_delimited :
    (d : Style) (done body rest : Text) (fs : List Entity) (dl : ℕ)
    → All IsScalar (done ++ (body ++ rest))
    → All IsPlain body
    → Reaches
        (record {
          u16 = to_utf16 (done ++ (body ++ rest));
          result = fs;
          i = position_after d (utf16_len done) dl (utf16_len done + dl + utf16_len body);
        })
        (between (done ++ body) rest fs)
after_delimited pre done body rest fs dl h k = jumped done body rest fs _ (omega arith)
after_delimited code done body rest fs dl h k = jumped done body rest fs _ (omega arith)
after_delimited bold done body rest fs dl h k = text-Reaches done body rest fs h k
after_delimited italic done body rest fs dl h k = text-Reaches done body rest fs h k
after_delimited strike done body rest fs dl h k = text-Reaches done body rest fs h k

-- The loop passes over a styled text and marks it.
pub delimited-Reaches :
    (done body rest : Text) (r : ℕ) (es : List Entity) (d : Style)
    → All IsScalar (done ++ (r ∷ body ++ rest))
    → All IsPlain (r ∷ body)
    → All (EndsBy (utf16_len done)) es
    → Reaches
        (between done (delimited d (r ∷ body) rest) es)
        (between (done ++ r ∷ body) rest (es ++ marked d done (r ∷ body) ∷ []))
delimited-Reaches done body rest r es d h k past =
    let (fits, e) = step-delimited done body rest r es d (All-prefix IsScalar done _ h) k past in
    let fs = es ++ marked d done (r ∷ body) ∷ [] in
    Reaches-trans (between done (delimited d (r ∷ body) rest) es) _ _
      (Reaches-step (between done (delimited d (r ∷ body) rest) es) fits)
      (subst (λ s. Reaches s (between (done ++ r ∷ body) rest fs)) (sym e)
        (after_delimited d done (r ∷ body) rest fs (length (delimiter d)) h k))

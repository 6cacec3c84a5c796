-- ===== src/Extensions/Markdown/Documents.antt =====
-- Documents of plain text, styled text and links, and what ParseMarkdown makes of them.
use mathlib.Core.Option
use telegram_mcub_go.Base.{
  ℕ, suc, ◌+◌, ◌≤◌, ◌<◌, ◌≡◌, ◌≢◌, inl, refl, sym, ap, ap₂, ◌∙◌, subst, List, [], ◌∷◌, ◌++◌,
  append_assoc, append-nil, arith, length, All, All-append, All-map, false, Option, some, pos, ◌+ℤ◌,
  ltb,
}
use telegram_mcub_go.Helpers.Utf16.{Text, utf16_len, to_utf16, from_utf16}
use telegram_mcub_go.Helpers.Utf16.Laws.{
  IsScalar, utf16_len-append, length-to_utf16, from_utf16-to_utf16,
}
use telegram_mcub_go.Helpers.Utf16.Decoding.{utf16_len-nil}
use telegram_mcub_go.Helpers.Entity.{Entity, get_entity_offset, get_entity_length}
use telegram_mcub_go.Helpers.Strip.{strip_text}
use telegram_mcub_go.Extensions.Markdown.{
  Style, delimiter, styled, url_entity, State, parse_loop, parse_markdown,
}
use telegram_mcub_go.Extensions.Markdown.Ends.{parse_markdown-ends}
use telegram_mcub_go.Extensions.Markdown.Positions.{between}
use telegram_mcub_go.Extensions.Markdown.Steps.{
  Reaches, Reaches-refl, Reaches-trans, IsPlain, text-Reaches,
}
use telegram_mcub_go.Extensions.Markdown.Delimited.{
  state-path, delimited, marked, delimited-Reaches,
}
use telegram_mcub_go.Extensions.Markdown.Delimiters.{EndsBy}
use telegram_mcub_go.Extensions.Markdown.Linked.{link_source, link_mark, link-Reaches}

-- A part of a message.
pub data Segment : Type 0 where
  plain : Text → Segment
  with_style : Style → ℕ → Text → Segment
  link : Text → Text → Segment

abbrev pub content_of : Segment → Text
content_of (plain s) = s
content_of (with_style d r s) = r ∷ s
content_of (link link_text link_url) = link_text

-- The entities of a part that stands after `done`.
abbrev pub marks_of : Text → Segment → List Entity
marks_of done (plain s) = []
marks_of done (with_style d r s) = marked d done (r ∷ s) ∷ []
marks_of done (link link_text link_url) = link_mark link_url done link_text ∷ []

-- The Markdown of a part, before `rest`.
abbrev pub source_of : Segment → Text → Text
source_of (plain s) rest = s ++ rest
source_of (with_style d r s) rest = delimited d (r ∷ s) rest
source_of (link link_text link_url) rest = link_source link_text link_url rest

-- The text of a part has no character of the markup; the URL of a link has no `)`.
abbrev pub IsRegular : Segment → Type 0
IsRegular (plain s) = All IsPlain s
IsRegular (with_style d r s) = All IsPlain (r ∷ s)
IsRegular (link link_text link_url) =
    All IsPlain link_text × All (λ r. IsScalar r × (r ≢ 0x29)) link_url

abbrev pub render : List Segment → Text
render [] = []
render (g ∷ gs) = source_of g (render gs)

abbrev pub content : List Segment → Text
content [] = []
content (g ∷ gs) = content_of g ++ content gs

abbrev pub marks : Text → List Segment → List Entity
marks done [] = []
marks done (g ∷ gs) = marks_of done g ++ marks (done ++ content_of g) gs

plain-IsScalar : (s : Text) → All IsPlain s → All IsScalar s
plain-IsScalar = All-map IsPlain IsScalar (λ r k. k.0)

delimiter-IsScalar : (d : Style) → All IsScalar (delimiter d)
unfolding delimiter
delimiter-IsScalar d = ground arith

pub ascii : (r : ℕ) → r < 0x80 → IsScalar r
ascii r h = (omega arith, inl (omega arith))

source-IsScalar :
    (g : Segment) (rest : Text) → IsRegular g → All IsScalar rest → All IsScalar (source_of g rest)
source-IsScalar (plain s) rest h j = All-append IsScalar s rest (plain-IsScalar s h) j
source-IsScalar (with_style d r s) rest h j =
    All-append IsScalar (delimiter d) _ (delimiter-IsScalar d) (
      All-append IsScalar (r ∷ s) _ (plain-IsScalar (r ∷ s) h)
        (All-append IsScalar (delimiter d) rest (delimiter-IsScalar d) j))
source-IsScalar (link link_text link_url) rest h j = (
  ascii 0x5b (omega arith),
  All-append IsScalar link_text _ (plain-IsScalar link_text h.0) (
    ascii 0x5d (omega arith),
    (
      ascii 0x28 (omega arith),
      All-append IsScalar link_url _ (All-map _ IsScalar (λ r k. k.0) link_url h.1)
          (ascii 0x29 (omega arith), j),
    ),
  ),
)

content-IsScalar : (g : Segment) → IsRegular g → All IsScalar (content_of g)
content-IsScalar (plain s) h = plain-IsScalar s h
content-IsScalar (with_style d r s) h = plain-IsScalar (r ∷ s) h
content-IsScalar (link link_text link_url) h = plain-IsScalar link_text h.0

-- Rounds over one part.
segment-Reaches :
    (g : Segment) (done rest : Text) (es : List Entity)
    → IsRegular g
    → All IsScalar done
    → All IsScalar rest
    → All (EndsBy (utf16_len done)) es
    → Reaches
        (between done (source_of g rest) es)
        (between (done ++ content_of g) rest (es ++ marks_of done g))
segment-Reaches (plain s) done rest es h i j past =
    subst
      (λ (fs : List Entity). Reaches (between done (s ++ rest) es) (between (done ++ s) rest fs))
      (sym (append-nil es))
      (text-Reaches done s rest es
        (All-append IsScalar done _ i (source-IsScalar (plain s) rest h j)) h)
segment-Reaches (with_style d r s) done rest es h i j past =
    delimited-Reaches done s rest r es d
      (All-append IsScalar done _ i (source-IsScalar (plain (r ∷ s)) rest h j)) h past
segment-Reaches (link link_text link_url) done rest es h i j past =
    link-Reaches done link_text link_url rest es
      (All-append IsScalar done _ i (source-IsScalar (link link_text link_url) rest h j))
      (All-map IsPlain (λ r. r ≢ 0x5d) (λ r k. k.3) link_text h.0)
      (All-map (λ r. IsScalar r × (r ≢ 0x29)) (λ r. r ≢ 0x29) (λ r k. k.1) link_url h.1) past

styled-EndsBy : (d : Style) (n l : ℕ) → EndsBy (n + l) (styled d (pos n) (pos l))
unfolding styled get_entity_offset get_entity_length ◌+ℤ◌
styled-EndsBy d n l = ground arith

url_entity-EndsBy :
    (link_url : Text) (n l : ℕ) → EndsBy (n + l) (url_entity link_url (pos n) (pos l))
unfolding url_entity get_entity_offset get_entity_length ◌+ℤ◌
url_entity-EndsBy link_url n l = ground arith

EndsBy-mono : (m n : ℕ) (e : Entity) → m ≤ n → EndsBy m e → EndsBy n e
EndsBy-mono m n e h k = omega arith

marks-EndBy :
    (g : Segment) (done : Text) → All (EndsBy (utf16_len (done ++ content_of g))) (marks_of done g)
marks-EndBy (plain s) done = tt
marks-EndBy (with_style d r s) done =
    rw (utf16_len-append done (r ∷ s)) (styled-EndsBy d (utf16_len done) (utf16_len (r ∷ s)), tt)
marks-EndBy (link link_text link_url) done =
    rw (utf16_len-append done link_text)
      (url_entity-EndsBy link_url (utf16_len done) (utf16_len link_text), tt)

still-past :
    (g : Segment) (done : Text) (es : List Entity)
    → All (EndsBy (utf16_len done)) es
    → All (EndsBy (utf16_len (done ++ content_of g))) (es ++ marks_of done g)
still-past g done es h =
    All-append (EndsBy (utf16_len (done ++ content_of g))) es (marks_of done g)
      (All-map (EndsBy (utf16_len done)) (EndsBy (utf16_len (done ++ content_of g)))
        (λ e.
          EndsBy-mono (utf16_len done) (utf16_len (done ++ content_of g)) e
            (omega (arith, utf16_len-append done (content_of g))))
        es h)
      (marks-EndBy g done)

render-IsScalar : (gs : List Segment) → All IsRegular gs → All IsScalar (render gs)
render-IsScalar [] h = tt
render-IsScalar (g ∷ gs) h = source-IsScalar g (render gs) h.0 (render-IsScalar gs h.1)

pub whole_content-IsScalar : (gs : List Segment) → All IsRegular gs → All IsScalar (content gs)
whole_content-IsScalar [] h = tt
whole_content-IsScalar (g ∷ gs) h =
    All-append IsScalar (content_of g) (content gs) (content-IsScalar g h.0)
      (whole_content-IsScalar gs h.1)

-- Rounds over a document.
document-Reaches :
    (gs : List Segment) (done : Text) (es : List Entity)
    → All IsRegular gs
    → All IsScalar done
    → All (EndsBy (utf16_len done)) es
    → Reaches (between done (render gs) es) (between (done ++ content gs) [] (es ++ marks done gs))
document-Reaches [] done es h i past =
    subst (λ (s : State). Reaches (between done [] es) s)
      (ap₂ (λ d (fs : List Entity). between d [] fs) (sym (append-nil done)) (sym (append-nil es)))
      (Reaches-refl (between done [] es))
document-Reaches (g ∷ gs) done es h i past =
    Reaches-trans (between done (source_of g (render gs)) es) _ _
      (segment-Reaches g done (render gs) es h.0 i (render-IsScalar gs h.1) past)
      (subst
        (λ (s : State).
          Reaches (between (done ++ content_of g) (render gs) (es ++ marks_of done g)) s)
        (ap₂ (λ d (fs : List Entity). between d [] fs)
          (append_assoc done (content_of g) (content gs))
          (append_assoc es (marks_of done g) (marks (done ++ content_of g) gs)))
        (document-Reaches gs (done ++ content_of g) (es ++ marks_of done g) h.1
          (All-append IsScalar done (content_of g) i (content-IsScalar g h.0))
          (still-past g done es past)))

-- At the end of the units the loop stops.
stops :
    (fuel : ℕ) (s : Text) (es : List Entity)
    → All IsScalar s
    → parse_loop (suc fuel) (between s [] es) ≡ some (between s [] es)
unfolding parse_loop
stops fuel s es h =
    let e = length-to_utf16 (s ++ []) (All-append _ s [] (All-map _ _ (λ r k. k.0) s h) tt) in
    let k : ltb (utf16_len s) (length (to_utf16 (s ++ []))) ≡ false =
      ground (arith, ap utf16_len (append-nil s)) in
    rw k refl

-- ParseMarkdown of the Markdown of a document is StripText of the document's text and of the entities
-- that mark its styled texts and links at their places.
pub parse_markdown-render :
    (gs : List Segment)
    → All IsRegular gs
    → parse_markdown (render gs) ≡ some (strip_text (content gs) (marks [] gs))
parse_markdown-render gs h =
    let (t, ends, e) = parse_markdown-ends (render gs) in
    let (k, reach) = document-Reaches gs [] [] h tt tt in
    let n = length (to_utf16 (render gs)) in
    let start : State = record { u16 = to_utf16 (render gs); result = []; i = 0 } in
    let final = between (content gs) [] (marks [] gs) in
    let begin : start ≡ between [] (render gs) [] = state-path refl refl (sym utf16_len-nil) in
    let same : ◌≡◌ {A = Option State} (some t) (some final) =
      sym (ends k)
      ∙ (ap (λ m. parse_loop m start) (omega arith)
          ∙ (ap (parse_loop (k + suc n)) begin
              ∙ (reach (suc n)
                  ∙ stops n (content gs) (marks [] gs) (whole_content-IsScalar gs h)))) in
    let decoded : from_utf16 (to_utf16 (content gs ++ [])) ≡ content gs =
      ap (λ s. from_utf16 (to_utf16 s)) (append-nil (content gs))
      ∙ from_utf16-to_utf16 (content gs) (whole_content-IsScalar gs h) in
    e
    ∙ (ap (Option.map (λ v. strip_text (from_utf16 v.u16) v.result)) same
        ∙ ap (λ s. some (strip_text s (marks [] gs))) decoded)

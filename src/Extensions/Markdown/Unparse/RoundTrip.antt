-- ===== src/Extensions/Markdown/Unparse/RoundTrip.antt =====
-- UnparseMarkdown prints a document, and ParseMarkdown reads it back.
use telegram_mcub_go.Base.{
  ℕ, suc, ◌≡◌, refl, sym, ap, ap₂, ◌∙◌, subst, List, [], ◌∷◌, ◌++◌, append_assoc, append-nil, arith,
  All, All-append, length, some,
}
use telegram_mcub_go.Helpers.Utf16.{Text, utf16_len, to_utf16}
use telegram_mcub_go.Helpers.Utf16.Laws.{IsScalar}
use telegram_mcub_go.Helpers.Utf16.Decoding.{utf16_len-nil}
use telegram_mcub_go.Helpers.Entity.{Entity}
use telegram_mcub_go.Helpers.Strip.{strip_text}
use telegram_mcub_go.Extensions.Markdown.{parse_markdown, delimiter}
use telegram_mcub_go.Extensions.Markdown.Documents.{
  Segment, plain, with_style, link, content, marks, render, IsRegular, whole_content-IsScalar,
  parse_markdown-render,
}
use telegram_mcub_go.Extensions.Markdown.Unparse.{
  sort_inserts, write_from, unparse_markdown, inserts_from,
}
use telegram_mcub_go.Extensions.Markdown.Unparse.Inserts.{
  inserts, IsPrintable, inserts_from-marks, sort_inserts-inserts,
}
use telegram_mcub_go.Extensions.Markdown.Unparse.Writing.{write_from-end, write_from-pair}

regroup :
    (done pending body rest : Text)
    → All IsScalar (done ++ (pending ++ (body ++ rest)))
    → All IsScalar (done ++ pending ++ body ++ rest)
regroup done pending body rest h =
    subst (All IsScalar)
      (sym (append_assoc done pending (body ++ rest))
        ∙ sym (append_assoc (done ++ pending) body rest))
      h

resume :
    (gs : List Segment) (i : ℕ) (done : Text)
    → write_from (to_utf16 (done ++ content gs)) (utf16_len done) (inserts i (done ++ []) gs)
      ≡ render gs
    → write_from (to_utf16 (done ++ content gs)) (utf16_len done) (inserts i done gs) ≡ render gs
resume gs i done h =
    subst
      (λ (d : Text).
        write_from (to_utf16 (done ++ content gs)) (utf16_len done) (inserts i d gs) ≡ render gs)
      (append-nil done) h

write_from-inserts :
    (gs : List Segment) (i : ℕ) (done pending : Text)
    → All IsScalar (done ++ (pending ++ content gs))
    → write_from
        (to_utf16 (done ++ (pending ++ content gs)))
        (utf16_len done)
        (inserts i (done ++ pending) gs)
      ≡ pending ++ render gs
write_from-inserts [] i done pending h = write_from-end done pending h ∙ sym (append-nil pending)
write_from-inserts (plain s ∷ gs) i done pending h =
    let a = append_assoc pending s (content gs) in
    subst
      (λ (d : Text).
        write_from (to_utf16 (done ++ (pending ++ (s ++ content gs)))) (utf16_len done)
          (inserts i d gs)
        ≡ pending ++ (s ++ render gs))
      (sym (append_assoc done pending s))
      (ap
          (λ (t : Text).
            write_from (to_utf16 (done ++ t)) (utf16_len done)
              (inserts i (done ++ (pending ++ s)) gs))
          (sym a)
        ∙ (write_from-inserts gs i done (pending ++ s)
              (subst (λ (t : Text). All IsScalar (done ++ t)) (sym a) h)
            ∙ append_assoc pending s (render gs)))
write_from-inserts (with_style d r s ∷ gs) i done pending h =
    write_from-pair (delimiter d) (delimiter d) (r ∷ s) done pending (content gs) i _ h
    ∙ ap (λ (t : Text). pending ++ (delimiter d ++ (r ∷ s ++ (delimiter d ++ t))))
        (resume gs (suc i) (done ++ pending ++ r ∷ s) (
          write_from-inserts gs (suc i) (done ++ pending ++ r ∷ s) []
            (regroup done pending (r ∷ s) (content gs) h)))
write_from-inserts (link link_text link_url ∷ gs) i done pending h =
    write_from-pair (0x5b ∷ []) (0x5d ∷ 0x28 ∷ (link_url ++ (0x29 ∷ []))) link_text done pending
      (content gs) i _ h
    ∙ ap (λ (t : Text). pending ++ (0x5b ∷ (link_text ++ (0x5d ∷ 0x28 ∷ t))))
        (append_assoc link_url (0x29 ∷ []) _
          ∙ ap (λ (t : Text). link_url ++ (0x29 ∷ t))
              (resume gs (suc i) (done ++ pending ++ link_text) (
                write_from-inserts gs (suc i) (done ++ pending ++ link_text) []
                  (regroup done pending link_text (content gs) h))))

unparse_markdown-write_from :
    (t : Text) (es : List Entity)
    → (t ≡ [] → es ≡ [])
    → All IsScalar t
    → unparse_markdown t es ≡ write_from (to_utf16 t) 0 (sort_inserts (inserts_from 0 es))
unfolding unparse_markdown
unparse_markdown-write_from [] [] f h = unfold write_from sort_inserts inserts_from to_utf16 in refl
unparse_markdown-write_from [] (e ∷ es) f h =
    let k : suc (length es) ≡ 0 = ap length (f refl) in absurd (omega arith)
unparse_markdown-write_from (r ∷ t) [] f h =
    unfold sort_inserts inserts_from in
    (sym (write_from-end [] (r ∷ t) (All-append IsScalar (r ∷ t) [] h tt))
      ∙ ap₂ (λ (w : Text) n. write_from (to_utf16 w) n []) (append-nil (r ∷ t)) utf16_len-nil)
unparse_markdown-write_from (r ∷ t) (e ∷ es) f h = refl

-- A document without text has no entities.
unmarked :
    (gs : List Segment) (done : Text) → All IsPrintable gs → content gs ≡ [] → marks done gs ≡ []
unmarked [] done h e = refl
unmarked (plain [] ∷ gs) done h e = unmarked gs (done ++ []) h.1 e
unmarked (plain (r ∷ s) ∷ gs) done h e =
    let k : suc (length (s ++ content gs)) ≡ 0 = ap length e in absurd (omega arith)
unmarked (with_style d r s ∷ gs) done h e =
    let k : suc (length (s ++ content gs)) ≡ 0 = ap length e in absurd (omega arith)
unmarked (link [] link_url ∷ gs) done h e = absurd (omega (arith, utf16_len-nil, h.0.0))
unmarked (link (r ∷ s) link_url ∷ gs) done h e =
    let k : suc (length (s ++ content gs)) ≡ 0 = ap length e in absurd (omega arith)

unparse_markdown-render :
    (gs : List Segment)
    → All IsRegular gs
    → All IsPrintable gs
    → unparse_markdown (content gs) (marks [] gs) ≡ render gs
unparse_markdown-render gs h k =
    let sorted : sort_inserts (inserts_from 0 (marks [] gs)) ≡ inserts 0 [] gs =
      ap sort_inserts (inserts_from-marks gs 0 [] k) ∙ sort_inserts-inserts gs 0 [] k in
    unparse_markdown-write_from (content gs) (marks [] gs) (unmarked gs [] k)
      (whole_content-IsScalar gs h)
    ∙ (ap₂ (write_from (to_utf16 (content gs))) (sym utf16_len-nil) sorted
        ∙ write_from-inserts gs 0 [] [] (whole_content-IsScalar gs h))

-- UnparseMarkdown of a document's text and entities is the document's Markdown, and ParseMarkdown of
-- that is StripText of the text and the entities: for a document whose text has no character of the
-- markup, with texts for its links and no URLs that stand for users.
pub parse_markdown-unparse_markdown :
    (gs : List Segment)
    → All IsRegular gs
    → All IsPrintable gs
    → (unparse_markdown (content gs) (marks [] gs) ≡ render gs)
      × (parse_markdown (unparse_markdown (content gs) (marks [] gs))
          ≡ some (strip_text (content gs) (marks [] gs)))
parse_markdown-unparse_markdown gs h k =
    let e = unparse_markdown-render gs h k in (e, ap parse_markdown e ∙ parse_markdown-render gs h)

-- ===== src/Extensions/Markdown/Unparse/Writing.antt =====
-- The loop of UnparseMarkdown that writes: a part of the text up to an insert, and the insert.
use telegram_mcub_go.Base.{
  ℕ, zero, suc, ◌+◌, ◌-◌, ◌≤◌, ◌≡◌, refl, sym, ap, ap₂, ◌∙◌, subst, List, [], ◌∷◌, ◌++◌,
  append_assoc, append-nil, arith, All, All-map, All-prefix, All-suffix, false, length, take, drop,
  get_elem?, take-length_append, Option, none, some, Bool-cases, inl, inr, if◌then◌else◌, ltb, pos,
  ltb_ℤ,
}
use telegram_mcub_go.Helpers.Utf16.{
  Text, splits_pair, utf16_len, to_utf16, from_utf16, within_surrogate,
}
use telegram_mcub_go.Helpers.Utf16.Laws.{
  IsScalar, utf16_len-append, to_utf16-append, length-to_utf16, from_utf16-to_utf16,
  within_surrogate_iff,
}
use telegram_mcub_go.Extensions.Markdown.Links.{choose}
use telegram_mcub_go.Extensions.Markdown.Positions.{drop-done}
use telegram_mcub_go.Extensions.Markdown.Unparse.{MdInsert, past_surrogate, place_of, write_from}
use telegram_mcub_go.Extensions.Markdown.Unparse.Inserts.{opening, closing, inserts}

get_elem?-end : (us : List ℕ) (n : ℕ) → length us ≤ n → get_elem? us n ≡ none
get_elem?-end [] n h = refl
get_elem?-end (u ∷ us) zero h = absurd (omega arith)
get_elem?-end (u ∷ us) (suc n) h = get_elem?-end us n (omega arith)

splits-none : (o : Option ℕ) → splits_pair o none ≡ false
splits-none none = refl
splits-none (some u) = refl

splits-end : (us : List ℕ) (n : ℕ) → n ≡ length us → within_surrogate us (pos n) ≡ false
unfolding within_surrogate
splits-end us zero e = refl
splits-end us (suc n) e =
    ap (splits_pair (get_elem? us n)) (get_elem?-end us (suc n) (omega arith))
    ∙ splits-none (get_elem? us n)

-- The boundaries of code points are not within a pair.
within_surrogate-boundary :
    (s t : Text)
    → All IsScalar (s ++ t)
    → within_surrogate (to_utf16 (s ++ t)) (pos (utf16_len s)) ≡ false
within_surrogate-boundary s [] h = splits-end (to_utf16 (s ++ [])) (utf16_len s) (
    ap utf16_len (sym (append-nil s))
    ∙ sym (length-to_utf16 (s ++ []) (All-map IsScalar _ (λ r k. k.0) (s ++ []) h)))
within_surrogate-boundary s (r ∷ t) h =
    (within_surrogate_iff s r t (All-prefix IsScalar s (r ∷ t) h)
      (All-suffix IsScalar s (r ∷ t) h).0).0

past_surrogate-boundary :
    (fuel : ℕ) (us : List ℕ) (n : ℕ)
    → within_surrogate us (pos n) ≡ false
    → past_surrogate fuel us (pos n) ≡ pos n
past_surrogate-boundary zero us n h = refl
past_surrogate-boundary (suc fuel) us n h = rw h refl

place_of-boundary :
    (us : List ℕ) (m n : ℕ)
    → within_surrogate us (pos n) ≡ false
    → m ≤ n
    → n ≤ length us
    → place_of us m (pos n) ≡ n
unfolding place_of
place_of-boundary us m n h k l =
    let a : ltb_ℤ (pos (length us)) (pos n) ≡ false = ground arith in
    let b : ltb_ℤ (pos n) (pos m) ≡ false = ground arith in
    rw (past_surrogate-boundary (length us) us n h, a, b) refl

empty : (s : Text) → utf16_len s ≡ 0 → s ≡ []
unfolding utf16_len
empty [] e = refl
empty (r ∷ s) e = ground arith

module _ (done pending rest : Text) (h : All IsScalar (done ++ (pending ++ rest))) where
  abbrev us : List ℕ
  us = to_utf16 (done ++ (pending ++ rest))

  pending-IsScalar : All IsScalar pending
  pending-IsScalar = All-prefix IsScalar pending rest (All-suffix IsScalar done (pending ++ rest) h)

  take-pending : from_utf16 (take (utf16_len pending) (drop (utf16_len done) us)) ≡ pending
  take-pending =
      let long =
        length-to_utf16 pending (All-map IsScalar _ (λ r k. k.0) pending pending-IsScalar) in
      let d =
        ap (drop (utf16_len done)) (to_utf16-append done (pending ++ rest))
        ∙ (drop-done done (to_utf16 (pending ++ rest)) (All-prefix IsScalar done _ h)
            ∙ to_utf16-append pending rest) in
      ap from_utf16 (ap₂ take (sym long) d ∙ take-length_append (to_utf16 pending) (to_utf16 rest))
      ∙ from_utf16-to_utf16 pending pending-IsScalar

  segment-pending :
      (n : ℕ)
      → n ≡ utf16_len done + utf16_len pending
      → (if ltb (utf16_len done) n
          then from_utf16 (take (n - utf16_len done) (drop (utf16_len done) us))
          else [])
        ≡ pending
  segment-pending n e = elim (Bool-cases (ltb (utf16_len done) n)) [
    | inl more ↦
        let f : n - utf16_len done ≡ utf16_len pending = omega arith in rw (more, f) take-pending
    | inr same ↦ let f : utf16_len pending ≡ 0 = ground arith in rw same (sym (empty pending f))
  ]

  -- One insert: the pending text is written, and then the insert.
  write_from-insert :
      (ins : MdInsert) (inserts : List MdInsert)
      → ins.position ≡ pos (utf16_len (done ++ pending))
      → write_from us (utf16_len done) (ins ∷ inserts)
        ≡ pending ++ (ins.content ++ write_from us (utf16_len (done ++ pending)) inserts)
  unfolding write_from
  write_from-insert ins inserts e =
      let w = utf16_len-append done pending in
      let assoc = append_assoc done pending rest in
      let b : within_surrogate us (pos (utf16_len (done ++ pending))) ≡ false =
        subst
          (λ (t : Text). within_surrogate (to_utf16 t) (pos (utf16_len (done ++ pending))) ≡ false)
          assoc
          (within_surrogate-boundary (done ++ pending) rest (subst (All IsScalar) (sym assoc) h)) in
      let long : length us ≡ utf16_len (done ++ pending) + utf16_len rest =
        length-to_utf16 (done ++ (pending ++ rest)) (All-map IsScalar _ (λ r k. k.0) _ h)
        ∙ (ap utf16_len (sym assoc) ∙ utf16_len-append (done ++ pending) rest) in
      let p : place_of us (utf16_len done) ins.position ≡ utf16_len (done ++ pending) =
        ap (place_of us (utf16_len done)) e
        ∙ place_of-boundary us (utf16_len done) (utf16_len (done ++ pending)) b (omega arith)
            (omega arith) in
      rw (p, segment-pending (utf16_len (done ++ pending)) w) refl

-- The end of the text.
pub write_from-end :
    (done pending : Text)
    → All IsScalar (done ++ (pending ++ []))
    → write_from (to_utf16 (done ++ (pending ++ []))) (utf16_len done) [] ≡ pending
unfolding write_from
write_from-end done pending h =
    let d =
      ap (drop (utf16_len done)) (to_utf16-append done (pending ++ []))
      ∙ drop-done done (to_utf16 (pending ++ [])) (All-prefix IsScalar done _ h) in
    let rest : from_utf16 (drop (utf16_len done) (to_utf16 (done ++ (pending ++ [])))) ≡ pending =
      ap from_utf16 d
      ∙ (from_utf16-to_utf16 (pending ++ []) (All-suffix IsScalar done (pending ++ []) h)
          ∙ append-nil pending) in
    let long : length (to_utf16 (done ++ (pending ++ []))) ≡ utf16_len done + utf16_len pending =
      length-to_utf16 _ (All-map IsScalar _ (λ r k. k.0) _ h)
      ∙ (utf16_len-append done (pending ++ [])
          ∙ ap (λ t. utf16_len done + utf16_len t) (append-nil pending)) in
    choose (λ t. t ≡ pending) (ltb (utf16_len done) (length (to_utf16 (done ++ (pending ++ [])))))
      (λ e. rest) (λ e. sym (empty pending (ground arith)))

-- The two inserts of one part.
pub write_from-pair :
    (before after body done pending rest : Text) (i : ℕ) (inserts : List MdInsert)
    → All IsScalar (done ++ (pending ++ (body ++ rest)))
    → write_from (to_utf16 (done ++ (pending ++ (body ++ rest)))) (utf16_len done) (
        opening (utf16_len (done ++ pending)) i before
        ∷ closing (utf16_len (done ++ pending ++ body)) i after
        ∷ inserts)
      ≡ pending
        ++ (before
            ++ (body
                ++ (after
                    ++ write_from
                        (to_utf16 (done ++ pending ++ body ++ rest))
                        (utf16_len (done ++ pending ++ body))
                        inserts)))
write_from-pair before after body done pending rest i inserts h =
    let a = append_assoc done pending (body ++ rest) in
    let b = append_assoc (done ++ pending) body rest in
    let tail = closing (utf16_len (done ++ pending ++ body)) i after ∷ inserts in
    let h' = subst (All IsScalar) (sym a) h in
    write_from-insert done pending (body ++ rest) h (opening (utf16_len (done ++ pending)) i before)
      tail refl
    ∙ ap (λ (t : Text). pending ++ (before ++ t))
        (ap (λ (t : Text). write_from (to_utf16 t) (utf16_len (done ++ pending)) tail) (sym a)
          ∙ (write_from-insert (done ++ pending) body rest h'
                (closing (utf16_len (done ++ pending ++ body)) i after) inserts refl
              ∙ ap
                  (λ (t : Text).
                    body
                    ++ (after
                        ++ write_from (to_utf16 t) (utf16_len (done ++ pending ++ body)) inserts))
                  (sym b)))

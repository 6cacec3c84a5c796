-- ===== src/Extensions/Markdown/Unparse/Inserts.antt =====
-- The inserts of a document's entities, which stand in order before they are sorted.
use telegram_mcub_go.Base.{
  ℕ, suc, ◌+◌, ◌≤◌, ◌<◌, ◌≡◌, refl, sym, ap, ap₂, ◌∙◌, List, [], ◌∷◌, ◌++◌, arith, All, false, pos,
  ◌-ℤ◌, ◌≤ℤ◌, eqb_ℤ, pos-+ℤ, leb_ℤ,
}
use telegram_mcub_go.Helpers.Utf16.{Text, utf16_len}
use telegram_mcub_go.Helpers.Utf16.Laws.{utf16_len-append}
use telegram_mcub_go.Helpers.Entity.{get_entity_offset, get_entity_length}
use telegram_mcub_go.Extensions.Markdown.{Style, delimiter, styled, url_entity}
use telegram_mcub_go.Extensions.Markdown.Mention.{parse_tg_mention}
use telegram_mcub_go.Extensions.Markdown.Documents.{Segment, plain, with_style, link, marks}
use telegram_mcub_go.Extensions.Markdown.Unparse.{
  MdInsert, inserts_of, inserts_from, less, insert_sorted, sort_inserts,
}

abbrev pub opening : ℕ → ℕ → Text → MdInsert
opening p i c = record { position = pos p; order = pos i; content = c }

abbrev pub closing : ℕ → ℕ → Text → MdInsert
closing p i c = record { position = pos p; order = pos 0 -ℤ pos i; content = c }

-- What is written before and after a marked text.
abbrev pub before_of : Segment → Text
before_of (plain s) = []
before_of (with_style d r s) = delimiter d
before_of (link link_text link_url) = 0x5b ∷ []

abbrev pub after_of : Segment → Text
after_of (plain s) = []
after_of (with_style d r s) = delimiter d
after_of (link link_text link_url) = 0x5d ∷ 0x28 ∷ (link_url ++ (0x29 ∷ []))

-- The inserts of the part with number `i`, from `p` to `q`.
abbrev pub pair_of : Segment → (i p q : ℕ) → List MdInsert
pair_of g i p q = opening p i (before_of g) ∷ closing q i (after_of g) ∷ []

-- The inserts of a document after `done`, in the order of the document.
abbrev pub inserts : ℕ → Text → List Segment → List MdInsert
inserts i done [] = []
inserts i done (plain s ∷ gs) = inserts i (done ++ s) gs
inserts i done (with_style d r s ∷ gs) =
    pair_of (with_style d r s) i (utf16_len done) (utf16_len (done ++ r ∷ s))
    ++ inserts (suc i) (done ++ r ∷ s) gs
inserts i done (link link_text link_url ∷ gs) =
    pair_of (link link_text link_url) i (utf16_len done) (utf16_len (done ++ link_text))
    ++ inserts (suc i) (done ++ link_text) gs

-- A link has a text, and its URL is not that of a user.
abbrev pub IsPrintable : Segment → Type 0
IsPrintable (plain s) = Unit
IsPrintable (with_style d r s) = Unit
IsPrintable (link link_text link_url) =
    (1 ≤ utf16_len link_text) × (leb_ℤ (pos 0) (parse_tg_mention link_url) ≡ false)

styled-inserts :
    (d : Style) (i n l : ℕ) (r : ℕ) (s : Text)
    → inserts_of (pos i) (styled d (pos n) (pos l)) ≡ pair_of (with_style d r s) i n (n + l)
unfolding inserts_of styled delimiter get_entity_offset get_entity_length
styled-inserts d i n l r s = ground (arith, pos-+ℤ n l)

link-inserts :
    (link_text link_url : Text) (i n l : ℕ)
    → leb_ℤ (pos 0) (parse_tg_mention link_url) ≡ false
    → inserts_of (pos i) (url_entity link_url (pos n) (pos l))
      ≡ pair_of (link link_text link_url) i n (n + l)
unfolding inserts_of url_entity get_entity_offset get_entity_length
link-inserts link_text link_url i n l h = rw (h, pos-+ℤ n l) refl

-- UnparseMarkdown makes these inserts of the document's entities.
pub inserts_from-marks :
    (gs : List Segment) (i : ℕ) (done : Text)
    → All IsPrintable gs
    → inserts_from i (marks done gs) ≡ inserts i done gs
unfolding inserts_from
inserts_from-marks [] i done h = refl
inserts_from-marks (plain s ∷ gs) i done h = inserts_from-marks gs i (done ++ s) h.1
inserts_from-marks (with_style d r s ∷ gs) i done h =
    ap₂ ◌++◌
      (styled-inserts d i (utf16_len done) (utf16_len (r ∷ s)) r s
        ∙ ap (pair_of (with_style d r s) i (utf16_len done)) (sym (utf16_len-append done (r ∷ s))))
      (inserts_from-marks gs (suc i) (done ++ r ∷ s) h.1)
inserts_from-marks (link link_text link_url ∷ gs) i done h =
    ap₂ ◌++◌
      (link-inserts link_text link_url i (utf16_len done) (utf16_len link_text) h.0.1
        ∙ ap (pair_of (link link_text link_url) i (utf16_len done))
            (sym (utf16_len-append done link_text)))
      (inserts_from-marks gs (suc i) (done ++ link_text) h.1)

-- The first of some inserts is at `p` or after it, and opens part `i` or a later one.
abbrev Starts : ℕ → ℕ → List MdInsert → Type 0
Starts p i [] = Unit
Starts p i (a ∷ rest) = (pos p ≤ℤ a.position) × (pos i ≤ℤ a.order)

inserts-Starts :
    (gs : List Segment) (i p : ℕ) (done : Text)
    → p ≤ utf16_len done
    → Starts p i (inserts i done gs)
inserts-Starts [] i p done h = tt
inserts-Starts (plain s ∷ gs) i p done h =
    inserts-Starts gs i p (done ++ s) (omega (arith, utf16_len-append done s))
inserts-Starts (with_style d r s ∷ gs) i p done h = (omega arith, omega arith)
inserts-Starts (link link_text link_url ∷ gs) i p done h = (omega arith, omega arith)

insert-closing :
    (q i : ℕ) (c : Text) (rest : List MdInsert)
    → Starts q (suc i) rest
    → insert_sorted (closing q i c) rest ≡ closing q i c ∷ rest
unfolding ◌-ℤ◌ eqb_ℤ
insert-closing q i c [] h = refl
insert-closing q i c (a ∷ rest) h =
    let e : less a (closing q i c) ≡ false = ground arith in rw e refl

insert-opening :
    (p q i : ℕ) (c c' : Text) (rest : List MdInsert)
    → p < q
    → insert_sorted (opening p i c) (closing q i c' ∷ rest) ≡ opening p i c ∷ closing q i c' ∷ rest
unfolding ◌-ℤ◌ eqb_ℤ
insert-opening p q i c c' rest h =
    let e : less (closing q i c') (opening p i c) ≡ false = ground arith in rw e refl

sort-pair :
    (g : Segment) (i p q : ℕ) (rest : List MdInsert)
    → p < q
    → Starts q (suc i) rest
    → sort_inserts rest ≡ rest
    → sort_inserts (pair_of g i p q ++ rest) ≡ pair_of g i p q ++ rest
unfolding sort_inserts
sort-pair g i p q rest h k e =
    ap (insert_sorted (opening p i (before_of g)))
      (ap (insert_sorted (closing q i (after_of g))) e ∙ insert-closing q i (after_of g) rest k)
    ∙ insert-opening p q i (before_of g) (after_of g) rest h

utf16_len-nonempty : (r : ℕ) (s : Text) → 1 ≤ utf16_len (r ∷ s)
unfolding utf16_len
utf16_len-nonempty r s = ground arith

-- They are sorted.
pub sort_inserts-inserts :
    (gs : List Segment) (i : ℕ) (done : Text)
    → All IsPrintable gs
    → sort_inserts (inserts i done gs) ≡ inserts i done gs
sort_inserts-inserts [] i done h = unfold sort_inserts in refl
sort_inserts-inserts (plain s ∷ gs) i done h = sort_inserts-inserts gs i (done ++ s) h.1
sort_inserts-inserts (with_style d r s ∷ gs) i done h =
    sort-pair (with_style d r s) i (utf16_len done) (utf16_len (done ++ r ∷ s)) _
      (omega (arith, utf16_len-append done (r ∷ s), utf16_len-nonempty r s))
      (inserts-Starts gs (suc i) (utf16_len (done ++ r ∷ s)) (done ++ r ∷ s) (omega arith))
      (sort_inserts-inserts gs (suc i) (done ++ r ∷ s) h.1)
sort_inserts-inserts (link link_text link_url ∷ gs) i done h =
    sort-pair (link link_text link_url) i (utf16_len done) (utf16_len (done ++ link_text)) _
      (omega (arith, utf16_len-append done link_text, h.0.0))
      (inserts-Starts gs (suc i) (utf16_len (done ++ link_text)) (done ++ link_text) (omega arith))
      (sort_inserts-inserts gs (suc i) (done ++ link_text) h.1)

-- ===== src/Extensions/Markdown/Positions.antt =====
-- Positions of ParseMarkdown at the boundaries of code points, and the link pattern there.
use mathlib.Core.Option
use telegram_mcub_go.Base.{
  ℕ, zero, suc, ◌+◌, ◌≤◌, ◌<◌, ◌≡◌, refl, sym, ap, ◌∙◌, inl, inr, List, [], ◌∷◌, ◌++◌, arith,
  length, take, drop, drop-length_append, All, All-map, Option, none, some, Bool-cases, leb, leb→le,
}
use telegram_mcub_go.Helpers.Utf16.{Text, utf16_len, to_utf16}
use telegram_mcub_go.Helpers.Utf16.Laws.{IsScalar, length-to_utf16, from_utf16-to_utf16}
use telegram_mcub_go.Helpers.Utf16.Decoding.{utf16_len-narrow, utf16_len-wide}
use telegram_mcub_go.Helpers.Entity.{Entity}
use telegram_mcub_go.Extensions.Markdown.{
  State, utf16_pos_to_byte_off, default_url_re, linked, link_at, take_link,
}

-- The state after `done`, before `rest`.
abbrev pub between : Text → Text → List Entity → State
between done rest es = record { u16 = to_utf16 (done ++ rest); result = es; i = utf16_len done }

pos-narrow :
    (r : ℕ) (s : Text) (n : ℕ)
    → r < 0x10000
    → utf16_pos_to_byte_off (r ∷ s) (suc n) ≡ Option.map suc (utf16_pos_to_byte_off s n)
unfolding utf16_pos_to_byte_off
pos-narrow r s zero h = ground arith
pos-narrow r s (suc n) h = ground arith

pos-wide :
    (r : ℕ) (s : Text) (n : ℕ)
    → 0x10000 ≤ r
    → utf16_pos_to_byte_off (r ∷ s) (suc (suc n)) ≡ Option.map suc (utf16_pos_to_byte_off s n)
unfolding utf16_pos_to_byte_off
pos-wide r s n h = ground arith

pub pos-inside : (r : ℕ) (s : Text) → 0x10000 ≤ r → utf16_pos_to_byte_off (r ∷ s) 1 ≡ none
unfolding utf16_pos_to_byte_off
pos-inside r s h = ground arith

add_suc :
    (m : ℕ) (o : Option ℕ)
    → Option.map suc (Option.map (λ k. m + k) o) ≡ Option.map (λ k. suc m + k) o
add_suc m none = refl
add_suc m (some k) = ap some (omega arith)

add_zero : (o : Option ℕ) → o ≡ Option.map (λ k. 0 + k) o
add_zero none = refl
add_zero (some k) = ap some (omega arith)

-- The search in a text for a position after its beginning `s` is the search in the rest.
pub pos-append :
    (s t : Text) (n : ℕ)
    → utf16_pos_to_byte_off (s ++ t) (utf16_len s + n)
      ≡ Option.map (λ k. length s + k) (utf16_pos_to_byte_off t n)
pos-append [] t n =
    let e : utf16_len [] + n ≡ n = unfold utf16_len in omega arith in
    ap (utf16_pos_to_byte_off t) e ∙ add_zero (utf16_pos_to_byte_off t n)
pos-append (r ∷ s) t n = elim (Bool-cases (leb 0x10000 r)) [
  | inl wide ↦
      let h = leb→le 0x10000 r wide in
      let c = utf16_len-wide r s h in
      let e : utf16_len (r ∷ s) + n ≡ suc (suc (utf16_len s + n)) = omega arith in
      ap (utf16_pos_to_byte_off (r ∷ (s ++ t))) e
      ∙ (pos-wide r (s ++ t) (utf16_len s + n) h
          ∙ (ap (Option.map suc) (pos-append s t n)
              ∙ add_suc (length s) (utf16_pos_to_byte_off t n)))
  | inr narrow ↦
      let h : r < 0x10000 = ground arith in
      let c = utf16_len-narrow r s h in
      let e : utf16_len (r ∷ s) + n ≡ suc (utf16_len s + n) = omega arith in
      ap (utf16_pos_to_byte_off (r ∷ (s ++ t))) e
      ∙ (pos-narrow r (s ++ t) (utf16_len s + n) h
          ∙ (ap (Option.map suc) (pos-append s t n)
              ∙ add_suc (length s) (utf16_pos_to_byte_off t n)))
]

pub drop-done :
    (s : Text) (us : List ℕ) → All IsScalar s → drop (utf16_len s) (to_utf16 s ++ us) ≡ us
drop-done s us h =
    ap (λ n. drop n (to_utf16 s ++ us)) (sym (length-to_utf16 s (All-map _ _ (λ r k. k.0) s h)))
    ∙ drop-length_append (to_utf16 s) us

-- At a position before `r ∷ rest` the link pattern is tried there.
pub linked-between :
    (done rest : Text) (es : List Entity)
    → All IsScalar (done ++ rest)
    → linked (between done rest es)
      ≡ Option.map
          (λ m. take_link (between done rest es) (take (length done) (done ++ rest)) m.0 m.1 m.2)
          (default_url_re rest)
unfolding linked utf16_pos_to_byte_off
linked-between done rest es h =
    let s = between done rest es in
    let e : utf16_len done ≡ utf16_len done + 0 = omega arith in
    let z : length done + 0 ≡ length done = omega arith in
    ap (λ c. link_at s c (utf16_pos_to_byte_off c (utf16_len done)))
      (from_utf16-to_utf16 (done ++ rest) h)
    ∙ (ap (λ n. link_at s (done ++ rest) (utf16_pos_to_byte_off (done ++ rest) n)) e
        ∙ (ap (link_at s (done ++ rest)) (pos-append done rest 0 ∙ ap some z)
            ∙ ap
                (λ w.
                  Option.map (λ m. take_link s (take (length done) (done ++ rest)) m.0 m.1 m.2)
                    (default_url_re w))
                (drop-length_append done rest)))

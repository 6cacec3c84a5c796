-- ===== src/Extensions/Markdown/Rounds.antt =====
-- A round of the loop of ParseMarkdown leaves fewer units from the position on.
use mathlib.Core.Option
use telegram_mcub_go.Base.{
  ℕ, suc, ◌+◌, ◌-◌, ◌≤◌, ◌<◌, ◌≡◌, refl, sym, ap, ◌∙◌, List, [], ◌∷◌, ◌++◌, arith, length, take,
  drop, length-append, length-take, length-drop, All, All-append, All-take, All-drop, true, Option,
  none, some, take-append-drop,
}
use telegram_mcub_go.Helpers.Utf16.{Text, utf16_len, from_utf16}
use telegram_mcub_go.Helpers.Utf16.Laws.{utf16_len-append}
use telegram_mcub_go.Helpers.Utf16.Decoding.{
  IsUnit, utf16_len-narrow, to_utf16-length_le, to_utf16-units, from_utf16-length,
}
use telegram_mcub_go.Extensions.Markdown.Links.{
  IsLink, default_url_re-IsLink, StandsAt, utf16_pos_to_byte_off-StandsAt,
}
use telegram_mcub_go.Extensions.Markdown.{
  link_at, or_advance, round, Style, delimiter, default_delimiters, u16_has_prefix, index_at,
  u16_index_from, closing, or_next, matched, State, take_delimited, position_after,
  utf16_pos_to_byte_off, default_url_re, take_link, linked, step,
}

u16_has_prefix-length : (u p : List ℕ) → u16_has_prefix u p ≡ true → length p ≤ length u
u16_has_prefix-length u [] h = omega arith
u16_has_prefix-length [] (v ∷ p) h = ground arith
u16_has_prefix-length (x ∷ u) (v ∷ p) h = ground (arith, u16_has_prefix-length u p)

index_at-bounds :
    (h needle : List ℕ) (i e : ℕ)
    → index_at h needle i ≡ some e
    → (i ≤ e) × (e + length needle ≤ i + length h)
index_at-bounds [] needle i e p = ground (arith, u16_has_prefix-length [] needle)
index_at-bounds (x ∷ h) needle i e p =
    ground (arith, u16_has_prefix-length (x ∷ h) needle, index_at-bounds h needle (suc i) e)

delimiter-length : (d : Style) → 1 ≤ length (delimiter d)
unfolding delimiter
delimiter-length d = ground arith

-- Both delimiters stand in the units, with something between them.
closing-bounds :
    (u : List ℕ) (i : ℕ) (d : Style) (e : ℕ)
    → closing u i d ≡ some e
    → (i + length (delimiter d) + 1 ≤ e) × (e + length (delimiter d) ≤ length u)
unfolding closing u16_index_from
closing-bounds u i d e h =
    let n = delimiter-length d in
    ground (
      arith,
      index_at-bounds (drop (i + length (delimiter d) + 1) u) (delimiter d)
          (i + length (delimiter d) + 1) e,
      length-drop (i + length (delimiter d) + 1) u,
    )

-- Where a delimiter and its closing one may stand in so many units.
abbrev Closes : ℕ → ℕ → Option (Style × ℕ) → Type 0
Closes n i none = Unit
Closes n i (some (d, e)) = (i + length (delimiter d) + 1 ≤ e) × (e + length (delimiter d) ≤ n)

or_next-Closes :
    (n i : ℕ) (d : Style) (o : Option ℕ) (next : Option (Style × ℕ))
    → ((e : ℕ) → o ≡ some e → Closes n i (some (d, e)))
    → Closes n i next
    → Closes n i (or_next d o next)
or_next-Closes n i d (some e) next h k = h e refl
or_next-Closes n i d none next h k = k

matched-Closes : (u : List ℕ) (i : ℕ) (ds : List Style) → Closes (length u) i (matched u i ds)
unfolding matched
matched-Closes u i [] = tt
matched-Closes u i (d ∷ ds) =
    or_next-Closes (length u) i d (closing u i d) (matched u i ds) (closing-bounds u i d)
      (matched-Closes u i ds)

-- Fewer units are left, and the units are still units.
abbrev pub Shrinks : State → State → Type 0
Shrinks s t = (length t.u16 - t.i < length s.u16 - s.i) × All IsUnit t.u16

-- Two places of the units are cut out.
abbrev cut_out : (i a e b : ℕ) → List ℕ → List ℕ
cut_out i a e b u = take i u ++ (take (e - a) (drop a u) ++ drop b u)

length-cut_out :
    (i a e b : ℕ) (u : List ℕ)
    → i ≤ a
    → a ≤ e
    → e ≤ b
    → b ≤ length u
    → length (cut_out i a e b u) ≡ i + (e - a) + (length u - b)
length-cut_out i a e b u h k l m =
    let x = length-append (take i u) (take (e - a) (drop a u) ++ drop b u) in
    let y = length-append (take (e - a) (drop a u)) (drop b u) in
    let t = length-take i u in
    let t' = length-take (e - a) (drop a u) in
    let d = length-drop a u in let d' = length-drop b u in omega arith

position_after-Shrinks :
    (d : Style) (i n e len new : ℕ)
    → i < len
    → i + n + 1 ≤ e
    → 1 ≤ n
    → e + n ≤ len
    → new ≡ i + (e - (i + n)) + (len - (e + n))
    → new - position_after d i n e < len - i
position_after-Shrinks d i n e len new h k one l c = ground arith

take_delimited-Shrinks :
    (s : State) (d : Style) (e : ℕ)
    → s.i < length s.u16
    → Closes (length s.u16) s.i (some (d, e))
    → All IsUnit s.u16
    → Shrinks s (take_delimited s d e)
unfolding take_delimited
take_delimited-Shrinks s d e h (k, l) us =
    let n = length (delimiter d) in
    let one = delimiter-length d in
    let c =
      length-cut_out s.i (s.i + n) e (e + n) s.u16 (omega arith) (omega arith) (omega arith) l in
    (
      position_after-Shrinks d s.i n e (length s.u16) _ h k one l c,
      All-append IsUnit (take s.i s.u16) _ (All-take IsUnit s.i s.u16 us) (
          All-append IsUnit (take (e - (s.i + n)) (drop (s.i + n) s.u16)) _
            (All-take IsUnit (e - (s.i + n)) _ (All-drop IsUnit (s.i + n) s.u16 us))
            (All-drop IsUnit (e + n) s.u16 us)),
    )

utf16_len-link :
    (a b rest : Text)
    → utf16_len (0x5b ∷ (a ++ (0x5d ∷ 0x28 ∷ (b ++ (0x29 ∷ rest)))))
      ≡ 4 + utf16_len a + utf16_len b + utf16_len rest
utf16_len-link a b rest = omega (
  arith,
  utf16_len-narrow 0x5b (a ++ (0x5d ∷ 0x28 ∷ (b ++ (0x29 ∷ rest)))) (omega arith),
  utf16_len-append a (0x5d ∷ 0x28 ∷ (b ++ (0x29 ∷ rest))),
  utf16_len-narrow 0x5d (0x28 ∷ (b ++ (0x29 ∷ rest))) (omega arith),
  utf16_len-narrow 0x28 (b ++ (0x29 ∷ rest)) (omega arith),
  utf16_len-append b (0x29 ∷ rest),
  utf16_len-narrow 0x29 rest (omega arith),
)

abbrev AllShrink : State → Option State → Type 0
AllShrink s none = Unit
AllShrink s (some t) = Shrinks s t

take_link-Shrinks :
    (s : State) (before after : Text) (m : Option (Text × Text × Text))
    → utf16_len before ≡ s.i
    → length s.u16 ≡ utf16_len before + utf16_len after
    → IsLink after m
    → AllShrink s (Option.map (λ m. take_link s before m.0 m.1 m.2) m)
unfolding take_link
take_link-Shrinks s before after none e f h = tt
take_link-Shrinks s before after (some (a, b, rest)) e f h =
    let new = to_utf16-length_le (before ++ (a ++ rest)) in
    let x = utf16_len-append before (a ++ rest) in
    let y = utf16_len-append a rest in
    let z = ap utf16_len h ∙ utf16_len-link a b rest in
    (omega arith, to_utf16-units (before ++ (a ++ rest)))

link_at-Shrinks :
    (s : State) (current : Text) (o : Option ℕ)
    → utf16_len current ≡ length s.u16
    → StandsAt current s.i o
    → AllShrink s (link_at s current o)
link_at-Shrinks s current none e h = tt
link_at-Shrinks s current (some off) e h =
    take_link-Shrinks s (take off current) (drop off current) (default_url_re (drop off current)) h
      (sym e
        ∙ (ap utf16_len (sym (take-append-drop off current))
            ∙ utf16_len-append (take off current) (drop off current)))
      (default_url_re-IsLink (drop off current))

or_advance-Shrinks :
    (s : State) (o : Option State)
    → s.i < length s.u16
    → All IsUnit s.u16
    → AllShrink s o
    → Shrinks s (or_advance s o)
or_advance-Shrinks s none h us k = (omega arith, us)
or_advance-Shrinks s (some t) h us k = k

round-Shrinks :
    (s : State) (o : Option (Style × ℕ))
    → s.i < length s.u16
    → All IsUnit s.u16
    → Closes (length s.u16) s.i o
    → Shrinks s (round s o)
unfolding linked
round-Shrinks s none h us k =
    let current = from_utf16 s.u16 in
    or_advance-Shrinks s _ h us (
      link_at-Shrinks s current (utf16_pos_to_byte_off current s.i) (from_utf16-length s.u16 us).1
        (utf16_pos_to_byte_off-StandsAt current s.i))
round-Shrinks s (some (d, e)) h us k = take_delimited-Shrinks s d e h k us

pub step-Shrinks : (s : State) → s.i < length s.u16 → All IsUnit s.u16 → Shrinks s (step s)
unfolding step
step-Shrinks s h us = round-Shrinks s _ h us (matched-Closes s.u16 s.i default_delimiters)

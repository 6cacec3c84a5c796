-- ===== src/Extensions/Markdown.antt =====
-- client/extensions/markdown.go, ParseMarkdown: on UTF-16 units, as the source. An offset into a string
-- is counted in code points where the source counts bytes. No string is empty in the loop.
pub mod Mention
pub mod Links
pub mod Rounds
pub mod Ends
pub mod Positions
pub mod Steps
pub mod Delimiters
pub mod Delimited
pub mod Linked
pub mod Documents
pub mod Unparse
mod Tests
use mathlib.Core.Option
use telegram_mcub_go.Base.{
  ℕ, zero, suc, ◌+◌, ◌-◌, ◌*◌, ◌==◌, List, [], ◌∷◌, ◌++◌, map, length, take, drop, Bool, true,
  false, ◌&&◌, Option, none, some, if◌then◌else◌, ltb, leb, ℤ, pos, ◌+ℤ◌, ◌-ℤ◌, leb_ℤ, ltb_ℤ,
}
use telegram_mcub_go.Helpers.Utf16.{Text, utf16_len, to_utf16, from_utf16}
use telegram_mcub_go.Helpers.Entity.{
  Entity, mention_name, text_url, get_entity_offset, get_entity_length, set_entity_length,
}
use telegram_mcub_go.Helpers.Strip.{strip_text}
use telegram_mcub_go.Extensions.Markdown.Mention.{parse_tg_mention}

-- The strings of `mdDelim.typ`.
pub data Style : Type 0 where
  pre bold italic strike code : Style

-- `mdDelim.str`; ASCII, so that its code points are its units.
unfoldable pub delimiter : Style → List ℕ
delimiter pre = 0x60 ∷ 0x60 ∷ 0x60 ∷ []
delimiter bold = 0x2a ∷ 0x2a ∷ []
delimiter italic = 0x5f ∷ 0x5f ∷ []
delimiter strike = 0x7e ∷ 0x7e ∷ []
delimiter code = 0x60 ∷ []

abbrev pub default_delimiters : List Style
default_delimiters = pre ∷ bold ∷ italic ∷ strike ∷ code ∷ []

abbrev pub u16_has_prefix : List ℕ → List ℕ → Bool
u16_has_prefix u [] = true
u16_has_prefix [] (v ∷ prefix) = false
u16_has_prefix (x ∷ u) (v ∷ prefix) = (x == v) && u16_has_prefix u prefix

-- The search on what stands at `i` and after it.
abbrev pub index_at : List ℕ → List ℕ → ℕ → Option ℕ
index_at [] needle i = if u16_has_prefix [] needle then some i else none
index_at (x ∷ haystack) needle i =
    let later = index_at haystack needle (suc i) in
    if u16_has_prefix (x ∷ haystack) needle then some i else later

unfoldable pub u16_index_from : List ℕ → List ℕ → ℕ → Option ℕ
u16_index_from haystack needle from = index_at (drop from haystack) needle from

-- Where a delimiter that stands at `i` is closed.
unfoldable pub closing : List ℕ → ℕ → Style → Option ℕ
unfolding u16_index_from
closing u16 i d =
    if u16_has_prefix (drop i u16) (delimiter d)
    then u16_index_from u16 (delimiter d) (i + length (delimiter d) + 1)
    else none

abbrev pub or_next : Style → Option ℕ → Option (Style × ℕ) → Option (Style × ℕ)
or_next d (some end) next = some (d, end)
or_next d none next = next

-- The first delimiter that is matched at `i`, and where it is closed.
unfoldable pub matched : List ℕ → ℕ → List Style → Option (Style × ℕ)
matched u16 i [] = none
matched u16 i (d ∷ delims) = or_next d (closing u16 i d) (matched u16 i delims)

-- Two delimiters of length `dl` are removed, from `i` and from `end`.
unfoldable pub adjust_delimited : (i dl end : ℕ) → Entity → Entity
adjust_delimited i dl end ent =
    let off = get_entity_offset ent in
    let len = get_entity_length ent in
    let ent_end = off +ℤ len in
    if ltb_ℤ (pos i) ent_end
    then if leb_ℤ off (pos i) && leb_ℤ (pos (end + dl)) ent_end
      then set_entity_length ent (len -ℤ pos (2 * dl))
      else set_entity_length ent (len -ℤ pos dl)
    else ent

unfoldable pub styled : Style → ℤ → ℤ → Entity
styled pre off len = Entity.pre off len []
styled bold off len = Entity.bold off len
styled italic off len = Entity.italic off len
styled strike off len = Entity.strike off len
styled code off len = Entity.code off len

-- Nothing is nested in code.
abbrev pub position_after : Style → (i dl end : ℕ) → ℕ
position_after pre i dl end = end - dl
position_after code i dl end = end - dl
position_after bold i dl end = i
position_after italic i dl end = i
position_after strike i dl end = i

-- What the loop of `ParseMarkdown` changes.
pub record State : Type 0 where
  pub u16 : List ℕ
  pub result : List Entity
  pub i : ℕ

-- The loop body, for a delimiter that is closed at `end`.
unfoldable pub take_delimited : State → Style → ℕ → State
take_delimited s d end =
    let dl = length (delimiter d) in
    record {
      u16 =
          take s.i s.u16
          ++ (take (end - (s.i + dl)) (drop (s.i + dl) s.u16) ++ drop (end + dl) s.u16);
      result =
          map (adjust_delimited s.i dl end) s.result
          ++ styled d (pos s.i) (pos (end - s.i - dl)) ∷ [];
      i = position_after d s.i dl end;
    }

unfoldable pub utf16_pos_to_byte_off : Text → ℕ → Option ℕ
utf16_pos_to_byte_off s zero = some 0
utf16_pos_to_byte_off [] (suc n) = none
utf16_pos_to_byte_off (r ∷ s) (suc zero) =
    let one = utf16_pos_to_byte_off s 0 in if leb 0x10000 r then none else Option.map suc one
utf16_pos_to_byte_off (r ∷ s) (suc (suc n)) =
    let one = utf16_pos_to_byte_off s (suc n) in
    let two = utf16_pos_to_byte_off s n in
    if leb 0x10000 r then Option.map suc two else Option.map suc one

abbrev cut_first : ℕ → Text × Text → Text × Text
cut_first r (before, after) = (r ∷ before, after)

-- What stands before and after the first `c`.
unfoldable pub cut_at : ℕ → Text → Option (Text × Text)
cut_at c [] = none
cut_at c (r ∷ s) =
    let later = cut_at c s in if r == c then some ([], s) else Option.map (cut_first r) later

-- The link whose text is known, from what follows the `]`.
abbrev link_target : Text → Text → Option (Text × Text × Text)
link_target link_text (r ∷ s) =
    let target = cut_at 0x29 s in
    if r == 0x28 then Option.map (λ p. (link_text, p.0, p.1)) target else none
link_target link_text [] = none

abbrev link_from : Option (Text × Text) → Option (Text × Text × Text)
link_from none = none
link_from (some (link_text, after)) = link_target link_text after

-- `\[([^\]]*?)\]\(([\s\S]*?)\)` at the start of a string: the two groups and what follows the match.
unfoldable pub default_url_re : Text → Option (Text × Text × Text)
default_url_re [] = none
default_url_re (r ∷ s) = let found = link_from (cut_at 0x5d s) in if r == 0x5b then found else none

unfoldable pub adjust_linked : (i delim_size : ℕ) → Entity → Entity
adjust_linked i delim_size ent =
    if ltb_ℤ (pos i) (get_entity_offset ent +ℤ get_entity_length ent)
    then set_entity_length ent (get_entity_length ent -ℤ pos delim_size)
    else ent

unfoldable pub url_entity : Text → ℤ → ℤ → Entity
url_entity link_url off len =
    let uid = parse_tg_mention link_url in
    if leb_ℤ (pos 0) uid then mention_name off len uid else text_url off len link_url

-- The loop body, for a link whose match, `[`, text, `](`, URL and `)`, stands at the position.
unfoldable pub take_link : State → Text → Text → Text → Text → State
take_link s before link_text link_url rest =
    let text_len = utf16_len link_text in
    let full = utf16_len (0x5b ∷ (link_text ++ (0x5d ∷ 0x28 ∷ (link_url ++ (0x29 ∷ []))))) in
    record {
      u16 = to_utf16 (before ++ (link_text ++ rest));
      result =
          map (adjust_linked s.i (full - text_len)) s.result
          ++ url_entity link_url (pos s.i) (pos text_len) ∷ [];
      i = s.i + text_len;
    }

abbrev pub link_at : State → Text → Option ℕ → Option State
link_at s current none = none
link_at s current (some off) =
    Option.map (λ m. take_link s (take off current) m.0 m.1 m.2) (default_url_re (drop off current))

-- The round that takes the link that is matched at the position.
unfoldable pub linked : State → Option State
linked s = let current = from_utf16 s.u16 in link_at s current (utf16_pos_to_byte_off current s.i)

abbrev pub or_advance : State → Option State → State
or_advance s (some t) = t
or_advance s none = record s { i = suc s.i }

abbrev pub round : State → Option (Style × ℕ) → State
round s (some (d, end)) = take_delimited s d end
round s none = or_advance s (linked s)

-- The loop body.
unfoldable pub step : State → State
step s = round s (matched s.u16 s.i default_delimiters)

-- `none` is a loop that has not ended within the fuel.
unfoldable pub parse_loop : ℕ → State → Option State
parse_loop zero s = none
parse_loop (suc fuel) s =
    let later = parse_loop fuel (step s) in if ltb s.i (length s.u16) then later else some s

-- The third result, the error, is always nil.
unfoldable pub parse_markdown : Text → Option (Text × List Entity)
unfolding parse_loop
parse_markdown [] = some ([], [])
parse_markdown (r ∷ s) =
    let u16 = to_utf16 (r ∷ s) in
    Option.map (λ t. strip_text (from_utf16 t.u16) t.result)
      (parse_loop (suc (length u16)) (record { u16 = u16; result = []; i = 0 }))

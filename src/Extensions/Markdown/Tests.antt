-- ===== src/Extensions/Markdown/Tests.antt =====
-- A document of a bold word, a plain one with an emoji, and a link; and overlapping delimiters.
use telegram_mcub_go.Base.{
  ℕ, suc, ◌+◌, List, [], ◌∷◌, some, pos, negsuc, eqb_ℤ, ◌+ℤ◌, ◌-ℤ◌, ◌≡◌, refl, arith, length, All,
}
use telegram_mcub_go.Helpers.Utf16.{
  Text, utf16_len, utf16_rune_len, encode_rune, to_utf16, from_utf16,
}
use telegram_mcub_go.Helpers.Entity.{
  Entity, italic, get_entity_offset, get_entity_length, set_entity_offset, set_entity_length,
}
use telegram_mcub_go.Helpers.Strip.{
  strip_text, trim_space, trim_left, trim_right, is_space, is_counted, left_offset, clip_entities,
  clip, clip_right,
}
use telegram_mcub_go.Extensions.Markdown.{
  bold, State, parse_loop, parse_markdown, step, matched, closing, u16_index_from, delimiter,
  take_delimited, adjust_delimited, styled, linked, utf16_pos_to_byte_off, default_url_re,
}
use telegram_mcub_go.Extensions.Markdown.Mention.{cut_prefix, parse_tg_mention}
use telegram_mcub_go.Extensions.Markdown.Ends.{parse_markdown-ends}
use telegram_mcub_go.Extensions.Markdown.Documents.{
  Segment, plain, with_style, link, content, marks, render, IsRegular,
}
use telegram_mcub_go.Extensions.Markdown.Unparse.{unparse_markdown}
use telegram_mcub_go.Extensions.Markdown.Unparse.Inserts.{IsPrintable}
use telegram_mcub_go.Extensions.Markdown.Unparse.RoundTrip.{parse_markdown-unparse_markdown}

-- "**hi** 😀[a](b)"
abbrev document : List Segment
document =
    with_style bold 0x68 (0x69 ∷ [])
    ∷ plain (0x20 ∷ 0x1f600 ∷ [])
    ∷ link (0x61 ∷ []) (0x62 ∷ [])
    ∷ []

abbrev greeting : Text
greeting = render document

document-IsRegular : All IsRegular document
document-IsRegular = ground arith

document-IsPrintable : All IsPrintable document
unfolding parse_tg_mention cut_prefix utf16_len
document-IsPrintable = ground arith

parse_markdown-ends_example :
    (t : State) × ((more : ℕ)
      → parse_loop
          (suc (length (to_utf16 greeting)) + more)
          (record { u16 = to_utf16 greeting; result = []; i = 0 })
        ≡ some t)
    × (parse_markdown greeting ≡ some (strip_text (from_utf16 t.u16) t.result))
parse_markdown-ends_example = parse_markdown-ends greeting

parse_markdown-unparse_markdown_example :
    (unparse_markdown (content document) (marks [] document) ≡ greeting)
    × (parse_markdown (unparse_markdown (content document) (marks [] document))
        ≡ some (strip_text (content document) (marks [] document)))
parse_markdown-unparse_markdown_example =
    parse_markdown-unparse_markdown document document-IsRegular document-IsPrintable

-- "ab**_**_x__": the bold text is closed within what the italic one then begins.
abbrev overlapping : Text
overlapping = 0x61 ∷ 0x62 ∷ 0x2a ∷ 0x2a ∷ 0x5f ∷ 0x2a ∷ 0x2a ∷ 0x5f ∷ 0x78 ∷ 0x5f ∷ 0x5f ∷ []

parse_markdown-overlapping :
    parse_markdown overlapping
    ≡ some (0x61 ∷ 0x62 ∷ 0x78 ∷ [], Entity.bold (pos 2) (negsuc 0) ∷ italic (pos 2) (pos 1) ∷ [])
unfolding parse_markdown parse_loop step matched closing u16_index_from delimiter take_delimited
    adjust_delimited styled linked utf16_pos_to_byte_off default_url_re to_utf16 from_utf16
    encode_rune get_entity_offset get_entity_length set_entity_offset set_entity_length strip_text
    trim_space trim_left trim_right is_space is_counted left_offset clip_entities clip clip_right
    utf16_len utf16_rune_len eqb_ℤ ◌+ℤ◌ ◌-ℤ◌
parse_markdown-overlapping = refl

-- ===== src/Extensions/Markdown/Unparse.antt =====
-- client/extensions/markdown.go, UnparseMarkdown. Of the order of equal inserts, which sort.Slice leaves
-- open, this sort keeps that of the list: only the two inserts of an empty first entity are equal.
pub mod Inserts
pub mod Writing
pub mod RoundTrip
use telegram_mcub_go.Base.{
  ℕ, zero, suc, ◌+◌, ◌-◌, ◌/◌, ◌%◌, ◌<◌, List, [], ◌∷◌, ◌++◌, length, take, drop, Bool, true, false,
  ◌&&◌, ◌||◌, if◌then◌else◌, ltb, ◌==◌, ℤ, pos, negsuc, pos_part, ◌+ℤ◌, ◌-ℤ◌, ltb_ℤ, eqb_ℤ,
}
use telegram_mcub_go.Helpers.Utf16.{Text, to_utf16, from_utf16, within_surrogate}
use telegram_mcub_go.Helpers.Entity.{
  Entity, bold, italic, strike, code, pre, text_url, mention_name, get_entity_offset,
  get_entity_length,
}
use telegram_mcub_go.Extensions.Markdown.Mention.{mention_prefix}

pub record MdInsert : Type 0 where
  pub position : ℤ
  pub order : ℤ
  pub content : Text

-- The digits of a number, before `buf`; every round divides by ten.
abbrev decimal : ℕ → ℕ → Text → Text
decimal zero n buf = buf
decimal (suc fuel) n buf =
    let more = decimal fuel (n / 10) ((0x30 + n % 10) ∷ buf) in elim n [ zero ↦ buf | suc m ↦ more ]

-- The negation of -2^63 is -2^63: no digit is written.
unfoldable pub int64_to_string : ℤ → Text
int64_to_string (pos zero) = 0x30 ∷ []
int64_to_string (pos (suc n)) = decimal (suc n) (suc n) []
int64_to_string (negsuc n) =
    let digits = decimal (suc n) (suc n) [] in
    if n == 0x7fffffffffffffff then 0x2d ∷ [] else 0x2d ∷ digits

unfoldable pub format_mention_close : ℤ → Text
unfolding int64_to_string
format_mention_close user_id =
    0x5d ∷ 0x28 ∷ (mention_prefix ++ (int64_to_string user_id ++ (0x29 ∷ [])))

-- The inserts of entity number `i`.
abbrev around : ℤ → Entity → Text → Text → List MdInsert
around i ent before after =
    let off = get_entity_offset ent in
    record { position = off; order = i; content = before }
    ∷ record { position = off +ℤ get_entity_length ent; order = pos 0 -ℤ i; content = after }
    ∷ []

unfoldable pub inserts_of : ℤ → Entity → List MdInsert
unfolding format_mention_close
inserts_of i (bold off len) = around i (bold off len) (0x2a ∷ 0x2a ∷ []) (0x2a ∷ 0x2a ∷ [])
inserts_of i (italic off len) = around i (italic off len) (0x5f ∷ 0x5f ∷ []) (0x5f ∷ 0x5f ∷ [])
inserts_of i (strike off len) = around i (strike off len) (0x7e ∷ 0x7e ∷ []) (0x7e ∷ 0x7e ∷ [])
inserts_of i (code off len) = around i (code off len) (0x60 ∷ []) (0x60 ∷ [])
inserts_of i (pre off len language) =
    around i (pre off len language) (0x60 ∷ 0x60 ∷ 0x60 ∷ []) (0x60 ∷ 0x60 ∷ 0x60 ∷ [])
inserts_of i (text_url off len link) =
    around i (text_url off len link) (0x5b ∷ []) (0x5d ∷ 0x28 ∷ (link ++ (0x29 ∷ [])))
inserts_of i (mention_name off len user_id) =
    around i (mention_name off len user_id) (0x5b ∷ []) (format_mention_close user_id)
inserts_of i _ = []

unfoldable pub inserts_from : ℕ → List Entity → List MdInsert
inserts_from i [] = []
inserts_from i (ent ∷ entities) = inserts_of (pos i) ent ++ inserts_from (suc i) entities

abbrev pub less : MdInsert → MdInsert → Bool
less a b = ltb_ℤ a.position b.position || eqb_ℤ a.position b.position && ltb_ℤ a.order b.order

abbrev pub insert_sorted : MdInsert → List MdInsert → List MdInsert
insert_sorted a [] = a ∷ []
insert_sorted a (b ∷ inserts) =
    let later = insert_sorted a inserts in if less b a then b ∷ later else a ∷ b ∷ inserts

unfoldable pub sort_inserts : List MdInsert → List MdInsert
sort_inserts [] = []
sort_inserts (a ∷ inserts) = insert_sorted a (sort_inserts inserts)

-- `for helpers.WithinSurrogate(u16, pos) { pos++ }`
abbrev pub past_surrogate : ℕ → List ℕ → ℤ → ℤ
past_surrogate zero u16 p = p
past_surrogate (suc fuel) u16 p =
    let later = past_surrogate fuel u16 (p +ℤ pos 1) in if within_surrogate u16 p then later else p

-- Where an insert goes, no earlier than what is written.
unfoldable pub place_of : List ℕ → ℕ → ℤ → ℕ
place_of u16 prev_pos p =
    let q = past_surrogate (length u16) u16 p in
    let r = if ltb_ℤ (pos (length u16)) q then pos (length u16) else q in
    if ltb_ℤ r (pos prev_pos) then prev_pos else pos_part r

-- The loop that writes; the units before `prev_pos` are written.
unfoldable pub write_from : List ℕ → ℕ → List MdInsert → Text
write_from u16 prev_pos [] =
    if ltb prev_pos (length u16) then from_utf16 (drop prev_pos u16) else []
write_from u16 prev_pos (ins ∷ inserts) =
    let p = place_of u16 prev_pos ins.position in
    let segment =
      if ltb prev_pos p then from_utf16 (take (p - prev_pos) (drop prev_pos u16)) else [] in
    segment ++ (ins.content ++ write_from u16 p inserts)

unfoldable pub unparse_markdown : Text → List Entity → Text
unparse_markdown [] entities = []
unparse_markdown (r ∷ text) [] = r ∷ text
unparse_markdown (r ∷ text) (ent ∷ entities) =
    write_from (to_utf16 (r ∷ text)) 0 (sort_inserts (inserts_from 0 (ent ∷ entities)))

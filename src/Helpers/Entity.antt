-- ===== src/Helpers/Entity.antt =====
-- helpers/helpers.go, GetEntityOffset to SetEntityLength: the entity classes that the type switches
-- name, each with its offset and length in UTF-16 units (Go's `int`) and what else it carries. A
-- setter of the source writes through a pointer; here it returns the changed entity.
pub mod Laws
use telegram_mcub_go.Base.{ℕ, ℤ, pos}
use telegram_mcub_go.Helpers.Utf16.{Text}

-- `absent` stands for a nil interface value, which no case of the switches takes. The user of
-- `input_mention_name` is the identity of an InputUser object.
pub data Entity : Type 0 where
  unknown : ℤ → ℤ → Entity
  mention : ℤ → ℤ → Entity
  hashtag : ℤ → ℤ → Entity
  bot_command : ℤ → ℤ → Entity
  url : ℤ → ℤ → Entity
  email : ℤ → ℤ → Entity
  bold : ℤ → ℤ → Entity
  italic : ℤ → ℤ → Entity
  code : ℤ → ℤ → Entity
  pre : ℤ → ℤ → Text → Entity
  text_url : ℤ → ℤ → Text → Entity
  mention_name : ℤ → ℤ → ℤ → Entity
  input_mention_name : ℤ → ℤ → ℕ → Entity
  phone : ℤ → ℤ → Entity
  cashtag : ℤ → ℤ → Entity
  underline : ℤ → ℤ → Entity
  strike : ℤ → ℤ → Entity
  bank_card : ℤ → ℤ → Entity
  spoiler : ℤ → ℤ → Entity
  custom_emoji : ℤ → ℤ → ℤ → Entity
  blockquote : ℤ → ℤ → Entity
  absent : Entity

unfoldable pub get_entity_offset : Entity → ℤ
get_entity_offset (unknown offset length) = offset
get_entity_offset (mention offset length) = offset
get_entity_offset (hashtag offset length) = offset
get_entity_offset (bot_command offset length) = offset
get_entity_offset (url offset length) = offset
get_entity_offset (email offset length) = offset
get_entity_offset (bold offset length) = offset
get_entity_offset (italic offset length) = offset
get_entity_offset (code offset length) = offset
get_entity_offset (pre offset length language) = offset
get_entity_offset (text_url offset length link) = offset
get_entity_offset (mention_name offset length user_id) = offset
get_entity_offset (input_mention_name offset length user) = offset
get_entity_offset (phone offset length) = offset
get_entity_offset (cashtag offset length) = offset
get_entity_offset (underline offset length) = offset
get_entity_offset (strike offset length) = offset
get_entity_offset (bank_card offset length) = offset
get_entity_offset (spoiler offset length) = offset
get_entity_offset (custom_emoji offset length document_id) = offset
get_entity_offset (blockquote offset length) = offset
get_entity_offset absent = pos 0

unfoldable pub get_entity_length : Entity → ℤ
get_entity_length (unknown offset length) = length
get_entity_length (mention offset length) = length
get_entity_length (hashtag offset length) = length
get_entity_length (bot_command offset length) = length
get_entity_length (url offset length) = length
get_entity_length (email offset length) = length
get_entity_length (bold offset length) = length
get_entity_length (italic offset length) = length
get_entity_length (code offset length) = length
get_entity_length (pre offset length language) = length
get_entity_length (text_url offset length link) = length
get_entity_length (mention_name offset length user_id) = length
get_entity_length (input_mention_name offset length user) = length
get_entity_length (phone offset length) = length
get_entity_length (cashtag offset length) = length
get_entity_length (underline offset length) = length
get_entity_length (strike offset length) = length
get_entity_length (bank_card offset length) = length
get_entity_length (spoiler offset length) = length
get_entity_length (custom_emoji offset length document_id) = length
get_entity_length (blockquote offset length) = length
get_entity_length absent = pos 0

unfoldable pub set_entity_offset : Entity → ℤ → Entity
set_entity_offset (unknown offset length) v = unknown v length
set_entity_offset (mention offset length) v = mention v length
set_entity_offset (hashtag offset length) v = hashtag v length
set_entity_offset (bot_command offset length) v = bot_command v length
set_entity_offset (url offset length) v = url v length
set_entity_offset (email offset length) v = email v length
set_entity_offset (bold offset length) v = bold v length
set_entity_offset (italic offset length) v = italic v length
set_entity_offset (code offset length) v = code v length
set_entity_offset (pre offset length language) v = pre v length language
set_entity_offset (text_url offset length link) v = text_url v length link
set_entity_offset (mention_name offset length user_id) v = mention_name v length user_id
set_entity_offset (input_mention_name offset length user) v = input_mention_name v length user
set_entity_offset (phone offset length) v = phone v length
set_entity_offset (cashtag offset length) v = cashtag v length
set_entity_offset (underline offset length) v = underline v length
set_entity_offset (strike offset length) v = strike v length
set_entity_offset (bank_card offset length) v = bank_card v length
set_entity_offset (spoiler offset length) v = spoiler v length
set_entity_offset (custom_emoji offset length document_id) v = custom_emoji v length document_id
set_entity_offset (blockquote offset length) v = blockquote v length
set_entity_offset absent v = absent

unfoldable pub set_entity_length : Entity → ℤ → Entity
set_entity_length (unknown offset length) v = unknown offset v
set_entity_length (mention offset length) v = mention offset v
set_entity_length (hashtag offset length) v = hashtag offset v
set_entity_length (bot_command offset length) v = bot_command offset v
set_entity_length (url offset length) v = url offset v
set_entity_length (email offset length) v = email offset v
set_entity_length (bold offset length) v = bold offset v
set_entity_length (italic offset length) v = italic offset v
set_entity_length (code offset length) v = code offset v
set_entity_length (pre offset length language) v = pre offset v language
set_entity_length (text_url offset length link) v = text_url offset v link
set_entity_length (mention_name offset length user_id) v = mention_name offset v user_id
set_entity_length (input_mention_name offset length user) v = input_mention_name offset v user
set_entity_length (phone offset length) v = phone offset v
set_entity_length (cashtag offset length) v = cashtag offset v
set_entity_length (underline offset length) v = underline offset v
set_entity_length (strike offset length) v = strike offset v
set_entity_length (bank_card offset length) v = bank_card offset v
set_entity_length (spoiler offset length) v = spoiler offset v
set_entity_length (custom_emoji offset length document_id) v = custom_emoji offset v document_id
set_entity_length (blockquote offset length) v = blockquote offset v
set_entity_length absent v = absent

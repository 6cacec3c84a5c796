-- ===== src/Helpers/Entity/Laws.antt =====
-- The accessors of message entities: a write is read back, and leaves the other field and the
-- entity's class and data alone.
use telegram_mcub_go.Base.{ℤ, pos, ◌≡◌, ◌≢◌, refl}
use telegram_mcub_go.Helpers.Entity.{
  Entity, unknown, mention, hashtag, bot_command, url, email, bold, italic, code, pre, text_url,
  mention_name, input_mention_name, phone, cashtag, underline, strike, bank_card, spoiler,
  custom_emoji, blockquote, absent, get_entity_offset, get_entity_length, set_entity_offset,
  set_entity_length,
}

-- The place of an entity, written by both setters.
abbrev pub place : Entity → ℤ → ℤ → Entity
place e o l = set_entity_length (set_entity_offset e o) l

-- On every class of entity that the switches name, what the two setters write is what the two
-- getters read back, and writing the place that an entity already has changes nothing in it.
pub get-place :
    (e : Entity) (o l : ℤ)
    → e ≢ absent
    → (get_entity_offset (place e o l) ≡ o)
      × (get_entity_length (place e o l) ≡ l)
      × (place (place e o l) (get_entity_offset e) (get_entity_length e) ≡ e)
unfolding get_entity_offset get_entity_length set_entity_offset set_entity_length
get-place (unknown o l) o' l' h = (refl, refl, refl)
get-place (mention o l) o' l' h = (refl, refl, refl)
get-place (hashtag o l) o' l' h = (refl, refl, refl)
get-place (bot_command o l) o' l' h = (refl, refl, refl)
get-place (url o l) o' l' h = (refl, refl, refl)
get-place (email o l) o' l' h = (refl, refl, refl)
get-place (bold o l) o' l' h = (refl, refl, refl)
get-place (italic o l) o' l' h = (refl, refl, refl)
get-place (code o l) o' l' h = (refl, refl, refl)
get-place (pre o l x) o' l' h = (refl, refl, refl)
get-place (text_url o l x) o' l' h = (refl, refl, refl)
get-place (mention_name o l x) o' l' h = (refl, refl, refl)
get-place (input_mention_name o l x) o' l' h = (refl, refl, refl)
get-place (phone o l) o' l' h = (refl, refl, refl)
get-place (cashtag o l) o' l' h = (refl, refl, refl)
get-place (underline o l) o' l' h = (refl, refl, refl)
get-place (strike o l) o' l' h = (refl, refl, refl)
get-place (bank_card o l) o' l' h = (refl, refl, refl)
get-place (spoiler o l) o' l' h = (refl, refl, refl)
get-place (custom_emoji o l x) o' l' h = (refl, refl, refl)
get-place (blockquote o l) o' l' h = (refl, refl, refl)
get-place absent o' l' h = absurd (h refl)

-- An entity of positive length is not the nil value.
pub ne-absent : (e : Entity) → get_entity_length e ≢ pos 0 → e ≢ absent
unfolding get_entity_length
ne-absent (unknown o l) h p = cc
ne-absent (mention o l) h p = cc
ne-absent (hashtag o l) h p = cc
ne-absent (bot_command o l) h p = cc
ne-absent (url o l) h p = cc
ne-absent (email o l) h p = cc
ne-absent (bold o l) h p = cc
ne-absent (italic o l) h p = cc
ne-absent (code o l) h p = cc
ne-absent (pre o l x) h p = cc
ne-absent (text_url o l x) h p = cc
ne-absent (mention_name o l x) h p = cc
ne-absent (input_mention_name o l x) h p = cc
ne-absent (phone o l) h p = cc
ne-absent (cashtag o l) h p = cc
ne-absent (underline o l) h p = cc
ne-absent (strike o l) h p = cc
ne-absent (bank_card o l) h p = cc
ne-absent (spoiler o l) h p = cc
ne-absent (custom_emoji o l x) h p = cc
ne-absent (blockquote o l) h p = cc
ne-absent absent h p = absurd (h refl)

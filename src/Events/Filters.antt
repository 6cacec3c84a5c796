-- ===== src/Events/Filters.antt =====
-- events/common.go, and the filters beside the event types: for an event type, and for what a message
-- was read or a request to join was made. `MatchString` of Go's regexp is a parameter.
pub mod Laws
mod Tests
use telegram_mcub_go.Base.{
  ℕ, ◌==◌, List, [], ◌∷◌, ◌++◌, Bool, true, false, not, ◌&&◌, ◌||◌, Option, none, some,
  if◌then◌else◌, ℤ, eqb_ℤ, any,
}
use telegram_mcub_go.Helpers.Utf16.{Text}
use telegram_mcub_go.Events.Update.{Media, photo, document, geo, contact, poll, other_media}
use telegram_mcub_go.Events.Event.{
  NewMessage, Event, new_message, message_edited, message_deleted, message_read, chat_action,
  user_update, callback_query, inline_query, bot_inline_send, join_request, album, raw_update, text,
  MessageRead, JoinRequest,
}

abbrev pub Filter : Type 0
Filter = Event → Bool

-- `nm, ok := e.(*NewMessage)`, where the filter is false without `ok`.
abbrev on_new_message : (NewMessage → Bool) → Filter
on_new_message test (new_message nm) = test nm
on_new_message test _ = false

abbrev pub outgoing_filter : Filter
outgoing_filter = on_new_message (λ nm. nm.is_outgoing)

abbrev pub incoming_filter : Filter
incoming_filter = on_new_message (λ nm. not nm.is_outgoing)

-- `set[id]`, where the set holds the given numbers.
abbrev in_set : List ℤ → ℤ → Bool
in_set ids id = any (λ i. eqb_ℤ i id) ids

abbrev pub chats_filter : List ℤ → Filter
chats_filter chat_ids (new_message nm) = in_set chat_ids nm.peer_id
chats_filter chat_ids (message_edited me) = in_set chat_ids me.peer_id
chats_filter chat_ids _ = false

abbrev pub from_users_filter : List ℤ → Filter
from_users_filter user_ids = on_new_message (λ nm. in_set user_ids nm.sender_id)

abbrev pub private_filter : Filter
private_filter = on_new_message (λ nm. nm.is_private)

abbrev pub group_filter : Filter
group_filter = on_new_message (λ nm. nm.is_group)

abbrev pub channel_filter : Filter
channel_filter = on_new_message (λ nm. nm.is_channel)

abbrev pub regex_filter : (Text → Bool) → Filter
regex_filter match_string = on_new_message (λ nm. match_string (text nm))

abbrev pub eqb_text : Text → Text → Bool
eqb_text [] [] = true
eqb_text [] (d ∷ t) = false
eqb_text (c ∷ s) [] = false
eqb_text (c ∷ s) (d ∷ t) = (c == d) && eqb_text s t

-- `strings.HasPrefix`
abbrev pub has_prefix : Text → Text → Bool
has_prefix s [] = true
has_prefix [] (d ∷ t) = false
has_prefix (c ∷ s) (d ∷ t) = (c == d) && has_prefix s t

abbrev pub command_filter : Text → Text → Filter
command_filter prefix command = on_new_message (λ nm.
    eqb_text (text nm) (prefix ++ command)
    || has_prefix (text nm) ((prefix ++ command) ++ 0x20 ∷ []))

abbrev media_of : NewMessage → Option Media
media_of nm = elim nm.raw [ none ↦ none | some raw ↦ raw.media ]

abbrev has_media : Option Media → Bool
has_media none = false
has_media (some m) = true

abbrev pub has_media_filter : Filter
has_media_filter = on_new_message (λ nm. has_media (media_of nm))

-- `set[name]` for the nine names of media; a name that is none of them is never looked up.
pub data MediaType : Type 0 where
  photo_type document_type video_type audio_type voice_type : MediaType
  sticker_type location_type contact_type poll_type : MediaType

abbrev has_type : (MediaType → Bool) → Option Media → Bool
has_type set none = false
has_type set (some photo) = set photo_type
has_type set (some document) =
    set document_type || set video_type || set audio_type || set voice_type || set sticker_type
has_type set (some geo) = set location_type
has_type set (some contact) = set contact_type
has_type set (some poll) = set poll_type
has_type set (some other_media) = false

abbrev pub media_type_filter : (MediaType → Bool) → Filter
media_type_filter set = on_new_message (λ nm. has_type set (media_of nm))

-- Each loop returns at the first filter that settles the answer.
abbrev pub and_filter : List Filter → Filter
and_filter [] e = true
and_filter (f ∷ filters) e = let rest = and_filter filters e in if not (f e) then false else rest

abbrev pub or_filter : List Filter → Filter
or_filter [] e = false
or_filter (f ∷ filters) e = let rest = or_filter filters e in if f e then true else rest

abbrev pub not_filter : Filter → Filter
not_filter f e = not (f e)

-- The filters that accept the events of one type.
pub new_message_filter : Filter
new_message_filter = on_new_message (λ nm. true)

pub private_message_filter : Filter
private_message_filter = on_new_message (λ nm. nm.is_private)

pub group_message_filter : Filter
group_message_filter = on_new_message (λ nm. nm.is_group)

pub pattern_filter : (Text → Bool) → Filter
pattern_filter match = on_new_message (λ nm. match (text nm))

pub message_edited_filter : Filter
message_edited_filter (message_edited e) = true
message_edited_filter _ = false

pub message_deleted_filter : Filter
message_deleted_filter (message_deleted e) = true
message_deleted_filter _ = false

abbrev on_message_read : (MessageRead → Bool) → Filter
on_message_read test (message_read mr) = test mr
on_message_read test _ = false

pub message_read_filter : Filter
message_read_filter = on_message_read (λ mr. true)

pub inbox_read_filter : Filter
inbox_read_filter = on_message_read (λ mr. not mr.outbox)

pub outbox_read_filter : Filter
outbox_read_filter = on_message_read (λ mr. mr.outbox)

pub chat_action_filter : Filter
chat_action_filter (chat_action e) = true
chat_action_filter _ = false

pub user_update_filter : Filter
user_update_filter (user_update e) = true
user_update_filter _ = false

pub callback_query_filter : Filter
callback_query_filter (callback_query e) = true
callback_query_filter _ = false

pub inline_query_filter : Filter
inline_query_filter (inline_query e) = true
inline_query_filter _ = false

pub bot_inline_send_filter : Filter
bot_inline_send_filter (bot_inline_send e) = true
bot_inline_send_filter _ = false

abbrev on_join_request : (JoinRequest → Bool) → Filter
on_join_request test (join_request jr) = test jr
on_join_request test _ = false

pub join_request_filter : Filter
join_request_filter = on_join_request (λ jr. true)

pub join_request_for_chat_filter : ℤ → Filter
join_request_for_chat_filter chat_id = on_join_request (λ jr. eqb_ℤ jr.chat_id chat_id)

pub album_filter : Filter
album_filter (album e) = true
album_filter _ = false

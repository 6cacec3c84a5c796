-- ===== src/Events/Converters.antt =====
-- The `…FromUpdate` functions of package events; `none` is their second result false. A converter leaves
-- the fields that it does not name at their zero value.
pub mod ChatActions
pub mod Users
use telegram_mcub_go.Base.{ℕ, List, [], ◌∷◌, Bool, true, false, Option, none, some, ℤ, pos, ◌-ℤ◌}
use telegram_mcub_go.Utils.Peers.{marked}
use telegram_mcub_go.Events.Update.{
  Peer, user_peer, chat_peer, channel_peer, ReplyHeader, ReplyTo, message_reply, story_reply,
  RawMessage, MessageClass, message, service, empty, Update, update_new_message,
  update_new_channel_message, update_edit_message, update_edit_channel_message,
  update_delete_messages, update_delete_channel_messages, update_read_history_inbox,
  update_read_history_outbox, update_read_channel_inbox, update_read_channel_outbox,
  update_read_messages_contents, update_channel_read_messages_contents,
}
use telegram_mcub_go.Events.Event.{NewMessage, MessageEdited, MessageDeleted, MessageRead}

-- The number that the type switches on a peer assign; nil leaves the zero.
unfoldable pub peer_number : Option Peer → ℤ
peer_number none = pos 0
peer_number (some (user_peer user_id)) = user_id
peer_number (some (chat_peer chat_id)) = pos 0 -ℤ chat_id
peer_number (some (channel_peer channel_id)) = marked channel_id

unfoldable pub is_user_peer : Option Peer → Bool
is_user_peer (some (user_peer user_id)) = true
is_user_peer _ = false

unfoldable pub is_chat_peer : Option Peer → Bool
is_chat_peer (some (chat_peer chat_id)) = true
is_chat_peer _ = false

unfoldable pub is_channel_peer : Option Peer → Bool
is_channel_peer (some (channel_peer channel_id)) = true
is_channel_peer _ = false

-- The user's number, of a peer that is a user.
unfoldable pub user_number : Option Peer → ℤ
user_number (some (user_peer user_id)) = user_id
user_number _ = pos 0

abbrev top_id : Option ℤ → ℤ
top_id none = pos 0
top_id (some id) = id

abbrev header_topic : ReplyHeader → Bool → ℤ
header_topic rt true = top_id rt.reply_to_top_id
header_topic rt false = pos 0

-- The reply and forum fields, onto an event.
unfoldable pub with_reply : Option ReplyTo → NewMessage → NewMessage
with_reply (some (message_reply rt)) ev = record ev {
  reply_to_msg_id = rt.reply_to_msg_id;
  is_reply = true;
  is_forum_topic = rt.forum_topic;
  forum_topic_id = header_topic rt rt.forum_topic;
}
with_reply (some story_reply) ev = ev
with_reply none ev = ev

abbrev present {ℓ} : {A : Type ℓ} → Option A → Bool
present none = false
present (some a) = true

unfoldable pub new_message_of : RawMessage → NewMessage
unfolding with_reply
new_message_of m = with_reply m.reply_to (record {
  raw = some m;
  entities = m.entities;
  peer_id = peer_number m.peer_id;
  sender_id = user_number m.from_id;
  date = m.date;
  is_private = is_user_peer m.peer_id;
  is_group = is_chat_peer m.peer_id;
  is_channel = is_channel_peer m.peer_id;
  is_forum_topic = false;
  forum_topic_id = pos 0;
  reply_to_msg_id = pos 0;
  is_outgoing = m.out;
  is_reply = false;
  is_forwarded = m.fwd_from;
  is_bot = present m.via_bot_id;
})

-- `m, ok := upd.Message.(*tg.Message)`
abbrev from_message : {A : Type 0} → (RawMessage → A) → MessageClass → Option A
from_message make (message m) = some (make m)
from_message make (service m) = none
from_message make empty = none

unfoldable pub new_message_from_update : Update → Option NewMessage
unfolding new_message_of
new_message_from_update (update_new_message m) = from_message new_message_of m
new_message_from_update (update_new_channel_message m) = from_message new_message_of m
new_message_from_update _ = none

unfoldable pub message_edited_of : RawMessage → MessageEdited
message_edited_of m = record {
  raw = some m;
  peer_id = peer_number m.peer_id;
  sender_id = user_number m.from_id;
  date = m.date;
  edit_date = m.edit_date;
}

unfoldable pub message_edited_from_update : Update → Option MessageEdited
unfolding message_edited_of
message_edited_from_update (update_edit_message m) = from_message message_edited_of m
message_edited_from_update (update_edit_channel_message m) = from_message message_edited_of m
message_edited_from_update _ = none

unfoldable pub message_deleted_from_update : Update → Option MessageDeleted
message_deleted_from_update (update_delete_messages messages) = some (record {
  raw = update_delete_messages messages;
  chat_id = pos 0;
  deleted_ids = messages;
  is_channel = false;
})
message_deleted_from_update (update_delete_channel_messages channel_id messages) = some (record {
  raw = update_delete_channel_messages channel_id messages;
  chat_id = marked channel_id;
  deleted_ids = messages;
  is_channel = true;
})
message_deleted_from_update _ = none

-- A read up to a message.
abbrev read_up_to : Update → ℤ → ℤ → ℤ → Bool → MessageRead
read_up_to u chat_id user_id max_id outbox = record {
  raw = u;
  chat_id = chat_id;
  max_id = max_id;
  outbox = outbox;
  user_id = user_id;
  contents = false;
  message_ids = [];
}

abbrev read_contents : Update → ℤ → List ℤ → MessageRead
read_contents u chat_id messages = record {
  raw = u;
  chat_id = chat_id;
  max_id = pos 0;
  outbox = false;
  user_id = pos 0;
  contents = true;
  message_ids = messages;
}

unfoldable pub message_read_from_update : Update → Option MessageRead
message_read_from_update (update_read_history_inbox peer max_id) = some (
    read_up_to (update_read_history_inbox peer max_id) (peer_number peer) (user_number peer) max_id
      false)
message_read_from_update (update_read_history_outbox peer max_id) = some (
    read_up_to (update_read_history_outbox peer max_id) (peer_number peer) (user_number peer) max_id
      true)
message_read_from_update (update_read_channel_inbox channel_id max_id) = some (
    read_up_to (update_read_channel_inbox channel_id max_id) (marked channel_id) (pos 0) max_id
      false)
message_read_from_update (update_read_channel_outbox channel_id max_id) = some (
    read_up_to (update_read_channel_outbox channel_id max_id) (marked channel_id) (pos 0) max_id
      true)
message_read_from_update (update_read_messages_contents messages) =
    some (read_contents (update_read_messages_contents messages) (pos 0) messages)
message_read_from_update (update_channel_read_messages_contents channel_id messages) = some (
    read_contents (update_channel_read_messages_contents channel_id messages) (marked channel_id)
      messages)
message_read_from_update _ = none

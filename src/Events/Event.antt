-- ===== src/Events/Event.antt =====
-- The event types of package events: new_message.go, message_edited.go, message_deleted.go,
-- message_read.go, chat_action.go, user_update.go, callback_query.go, inline_query.go,
-- bot_inline_send.go, join_request.go, album.go and raw.go. The back-references to the client are left
-- out.
use telegram_mcub_go.Base.{
  ℕ, List, [], Bool, Option, none, some, if◌then◌else◌, ℤ, pos, ltb_ℤ, leb_ℤ, eqb_ℤ, any,
}
use telegram_mcub_go.Helpers.Utf16.{Text}
use telegram_mcub_go.Helpers.Entity.{Entity}
use telegram_mcub_go.Events.Update.{
  RawMessage, UserStatus, SendAction, CallbackUpdate, InlineUpdate, InlineSendUpdate, Update,
}

pub record NewMessage : Type 0 where
  pub raw : Option RawMessage
  pub entities : List Entity
  pub peer_id : ℤ
  pub sender_id : ℤ
  pub date : ℤ
  pub is_private : Bool
  pub is_group : Bool
  pub is_channel : Bool
  pub is_forum_topic : Bool
  pub forum_topic_id : ℤ
  pub reply_to_msg_id : ℤ
  pub is_outgoing : Bool
  pub is_reply : Bool
  pub is_forwarded : Bool
  pub is_bot : Bool

pub record MessageEdited : Type 0 where
  pub raw : Option RawMessage
  pub peer_id : ℤ
  pub sender_id : ℤ
  pub date : ℤ
  pub edit_date : ℤ

pub record MessageDeleted : Type 0 where
  pub raw : Update
  pub chat_id : ℤ
  pub deleted_ids : List ℤ
  pub is_channel : Bool

pub record MessageRead : Type 0 where
  pub raw : Update
  pub chat_id : ℤ
  pub max_id : ℤ
  pub outbox : Bool
  pub user_id : ℤ
  pub contents : Bool
  pub message_ids : List ℤ

-- The strings of `ActionType`.
pub data ActionType : Type 0 where
  user_joined user_left user_kicked user_invited chat_created title_changed : ActionType
  photo_changed pin_message history_cleared migrate_to migrate_from : ActionType

pub record ChatAction : Type 0 where
  pub raw : Update
  pub chat_id : ℤ
  pub action_type : ActionType
  pub user_id : ℤ
  pub user_ids : List ℤ
  pub inviter_id : ℤ
  pub kicker_id : ℤ
  pub new_title : Text
  pub pinned_msg_id : ℤ
  pub new_chat_id : ℤ
  pub has_new_photo : Bool
  pub date : Option ℤ
  pub is_private : Bool
  pub is_group : Bool
  pub is_channel : Bool

-- The strings of `ActionStr`; `no_action` is the empty string.
pub data ActionName : Type 0 where
  no_action typing cancel record_video upload_video record_audio upload_audio : ActionName
  upload_photo upload_document geo contact playing record_round upload_round : ActionName
  choose_sticker unknown : ActionName

pub record UserUpdate : Type 0 where
  pub raw : Update
  pub user_id : ℤ
  pub typing_chat_id : ℤ
  pub status : Option UserStatus
  pub action : Option SendAction
  pub action_str : ActionName
  pub online : Bool
  pub offline : Bool
  pub last_seen : Option ℤ
  pub until_online : Option ℤ

pub record CallbackQuery : Type 0 where
  pub raw : CallbackUpdate
  pub payload : List ℕ
  pub chat_id : ℤ
  pub user_id : ℤ
  pub msg_id : ℤ
  pub game_short_name : Text

pub record InlineQuery : Type 0 where
  pub raw : InlineUpdate
  pub query : Text
  pub user_id : ℤ
  pub offset : Text

pub record BotInlineSend : Type 0 where
  pub raw : InlineSendUpdate
  pub user_id : ℤ
  pub query : Text
  pub result_id : Text
  pub msg_id : Option ℤ

pub record JoinRequest : Type 0 where
  pub chat_id : ℤ
  pub user_id : ℤ
  pub date : ℤ
  pub about : Text
  pub invite_link : Option Text
  pub approved : Bool

pub record Album : Type 0 where
  pub messages : List RawMessage
  pub group_id : ℤ
  pub chat_id : ℤ

-- `Event` by its dynamic type.
pub data Event : Type 0 where
  new_message : NewMessage → Event
  message_edited : MessageEdited → Event
  message_deleted : MessageDeleted → Event
  message_read : MessageRead → Event
  chat_action : ChatAction → Event
  user_update : UserUpdate → Event
  callback_query : CallbackQuery → Event
  inline_query : InlineQuery → Event
  bot_inline_send : BotInlineSend → Event
  join_request : JoinRequest → Event
  album : Album → Event
  raw_update : Update → Event

-- `NewMessage.Text`
abbrev pub text : NewMessage → Text
text nm = elim nm.raw [ none ↦ [] | some m ↦ m.message ]

-- `MessageRead.IsRead`
pub is_read : MessageRead → ℤ → Bool
is_read e msg_id =
    if ltb_ℤ (pos 0) e.max_id
    then leb_ℤ msg_id e.max_id
    else any (λ id. eqb_ℤ id msg_id) e.message_ids

-- ===== src/Events/Update.antt =====
-- The update classes of gotd/td that package events converts, with the fields that it reads. Times are
-- Unix seconds; an interface value that may be nil, or a flag field that may be absent, is an Option.
use telegram_mcub_go.Base.{ℕ, List, Bool, Option, ℤ}
use telegram_mcub_go.Helpers.Utf16.{Text}
use telegram_mcub_go.Helpers.Entity.{Entity}

-- `tg.PeerClass`
pub data Peer : Type 0 where
  user_peer : ℤ → Peer
  chat_peer : ℤ → Peer
  channel_peer : ℤ → Peer

-- The classes of `tg.MessageMediaClass` that the source tells apart.
pub data Media : Type 0 where
  photo document geo contact poll other_media : Media

-- `tg.MessageReplyHeaderClass`
pub record ReplyHeader : Type 0 where
  pub reply_to_msg_id : ℤ
  pub forum_topic : Bool
  pub reply_to_top_id : Option ℤ

pub data ReplyTo : Type 0 where
  message_reply : ReplyHeader → ReplyTo
  story_reply : ReplyTo

-- `tg.Message`
pub record RawMessage : Type 0 where
  pub id : ℤ
  pub out : Bool
  pub peer_id : Option Peer
  pub from_id : Option Peer
  pub fwd_from : Bool
  pub via_bot_id : Option ℤ
  pub reply_to : Option ReplyTo
  pub date : ℤ
  pub edit_date : ℤ
  pub message : Text
  pub media : Option Media
  pub entities : List Entity

-- `tg.MessageActionClass`; `other_action` stands for the classes without a case.
pub data MessageAction : Type 0 where
  chat_joined_by_link : ℤ → MessageAction
  chat_add_user : List ℤ → MessageAction
  chat_delete_user : ℤ → MessageAction
  chat_create : Text → List ℤ → MessageAction
  channel_create : Text → MessageAction
  chat_edit_title : Text → MessageAction
  chat_edit_photo chat_delete_photo pin_message history_clear : MessageAction
  chat_migrate_to : ℤ → MessageAction
  channel_migrate_from : ℤ → MessageAction
  other_action : MessageAction

-- `tg.MessageService`
pub record ServiceMessage : Type 0 where
  pub peer_id : Option Peer
  pub from_id : Option Peer
  pub reply_to : Option ReplyTo
  pub date : ℤ
  pub action : MessageAction

-- `tg.MessageClass`
pub data MessageClass : Type 0 where
  message : RawMessage → MessageClass
  service : ServiceMessage → MessageClass
  empty : MessageClass

-- `tg.UserStatusClass`
pub data UserStatus : Type 0 where
  status_online : ℤ → UserStatus
  status_offline : ℤ → UserStatus
  other_status : UserStatus

-- `tg.SendMessageActionClass`
pub data SendAction : Type 0 where
  typing cancel record_video upload_video record_audio upload_audio : SendAction
  upload_photo upload_document geo_location choose_contact game_play : SendAction
  record_round upload_round choose_sticker other_send_action : SendAction

-- `tg.UpdateChannelParticipant`; of a participant the source asks whether there is one.
pub record ParticipantUpdate : Type 0 where
  pub channel_id : ℤ
  pub user_id : ℤ
  pub actor_id : ℤ
  pub date : ℤ
  pub has_prev : Bool
  pub has_new : Bool

-- `tg.UpdateBotCallbackQuery`
pub record CallbackUpdate : Type 0 where
  pub query_id : ℤ
  pub user_id : ℤ
  pub peer : Option Peer
  pub msg_id : ℤ
  pub payload : List ℕ
  pub game_short_name : Option Text

-- `tg.UpdateBotInlineQuery`
pub record InlineUpdate : Type 0 where
  pub user_id : ℤ
  pub query : Text
  pub offset : Text

-- `tg.UpdateBotInlineSend`; a message ID is known by its number.
pub record InlineSendUpdate : Type 0 where
  pub user_id : ℤ
  pub query : Text
  pub id : Text
  pub msg_id : Option ℤ

-- `tg.ExportedChatInviteClass`
pub data Invite : Type 0 where
  exported : Text → Invite
  public_join_requests : Invite

-- `tg.UpdateBotChatInviteRequester`
pub record InviteRequester : Type 0 where
  pub peer : Option Peer
  pub user_id : ℤ
  pub date : ℤ
  pub about : Text
  pub invite : Option Invite

-- `tg.UpdateClass`; `other_update` stands for the classes that no converter reads.
pub data Update : Type 0 where
  update_new_message : MessageClass → Update
  update_new_channel_message : MessageClass → Update
  update_edit_message : MessageClass → Update
  update_edit_channel_message : MessageClass → Update
  update_delete_messages : List ℤ → Update
  update_delete_channel_messages : ℤ → List ℤ → Update
  update_read_history_inbox : Option Peer → ℤ → Update
  update_read_history_outbox : Option Peer → ℤ → Update
  update_read_channel_inbox : (channel_id max_id : ℤ) → Update
  update_read_channel_outbox : (channel_id max_id : ℤ) → Update
  update_read_messages_contents : List ℤ → Update
  update_channel_read_messages_contents : ℤ → List ℤ → Update
  update_chat_participant_add : (chat_id user_id inviter_id date : ℤ) → Update
  update_chat_participant_delete : (chat_id user_id : ℤ) → Update
  update_channel_participant : ParticipantUpdate → Update
  update_user_status : ℤ → Option UserStatus → Update
  update_user_typing : ℤ → Option SendAction → Update
  update_chat_user_typing : ℤ → Option Peer → Option SendAction → Update
  update_channel_user_typing : ℤ → Option Peer → Option SendAction → Update
  update_bot_callback_query : CallbackUpdate → Update
  update_bot_inline_query : InlineUpdate → Update
  update_bot_inline_send : InlineSendUpdate → Update
  update_bot_chat_invite_requester : InviteRequester → Update
  other_update : ℕ → Update

-- `tg.UpdatesClass`: the two containers, and the classes that hold no list of updates.
pub data Updates : Type 0 where
  updates : List Update → Updates
  updates_combined : List Update → Updates
  other_updates : Updates

-- ===== src/Events/Converters/Users.antt =====
-- events/user_update.go, callback_query.go, inline_query.go, bot_inline_send.go and join_request.go, the
-- converters.
use telegram_mcub_go.Base.{[], true, false, Option, none, some, ℤ, pos, ◌-ℤ◌}
use telegram_mcub_go.Helpers.Utf16.{Text}
use telegram_mcub_go.Utils.Peers.{marked}
use telegram_mcub_go.Events.Update.{
  Peer, user_peer, chat_peer, channel_peer, UserStatus, status_online, status_offline, other_status,
  SendAction, typing, cancel, record_video, upload_video, record_audio, upload_audio, upload_photo,
  upload_document, geo_location, choose_contact, game_play, record_round, upload_round,
  choose_sticker, other_send_action, Invite, exported, public_join_requests, Update,
  update_user_status, update_user_typing, update_chat_user_typing, update_channel_user_typing,
  update_bot_callback_query, update_bot_inline_query, update_bot_inline_send,
  update_bot_chat_invite_requester,
}
use telegram_mcub_go.Events.Event.{
  ActionName, no_action, geo, contact, playing, unknown, UserUpdate, CallbackQuery, InlineQuery,
  BotInlineSend, JoinRequest,
}
use telegram_mcub_go.Events.Converters.{peer_number, user_number}

unfoldable pub send_action_name : Option SendAction → ActionName
send_action_name none = no_action
send_action_name (some typing) = ActionName.typing
send_action_name (some cancel) = ActionName.cancel
send_action_name (some record_video) = ActionName.record_video
send_action_name (some upload_video) = ActionName.upload_video
send_action_name (some record_audio) = ActionName.record_audio
send_action_name (some upload_audio) = ActionName.upload_audio
send_action_name (some upload_photo) = ActionName.upload_photo
send_action_name (some upload_document) = ActionName.upload_document
send_action_name (some geo_location) = geo
send_action_name (some choose_contact) = contact
send_action_name (some game_play) = playing
send_action_name (some record_round) = ActionName.record_round
send_action_name (some upload_round) = ActionName.upload_round
send_action_name (some choose_sticker) = ActionName.choose_sticker
send_action_name (some other_send_action) = unknown

-- An update of what a user does in a chat, or of nothing yet.
abbrev user_update_of : Update → ℤ → ℤ → Option SendAction → UserUpdate
user_update_of u user_id typing_chat_id action = record {
  raw = u;
  user_id = user_id;
  typing_chat_id = typing_chat_id;
  status = none;
  action = action;
  action_str = send_action_name action;
  online = false;
  offline = false;
  last_seen = none;
  until_online = none;
}

abbrev with_status : Option UserStatus → UserUpdate → UserUpdate
with_status (some (status_online expires)) ev = record ev {
  status = some (status_online expires);
  online = true;
  until_online = some expires;
}
with_status (some (status_offline was_online)) ev = record ev {
  status = some (status_offline was_online);
  offline = true;
  last_seen = some was_online;
}
with_status (some other_status) ev = record ev { status = some other_status }
with_status none ev = ev

unfoldable pub user_update_from_update : Update → Option UserUpdate
unfolding send_action_name
user_update_from_update (update_user_status user_id status) =
    some
      (with_status status (user_update_of (update_user_status user_id status) user_id (pos 0) none))
user_update_from_update (update_user_typing user_id action) =
    some (user_update_of (update_user_typing user_id action) user_id (pos 0) action)
user_update_from_update (update_chat_user_typing chat_id from_id action) = some (
    user_update_of (update_chat_user_typing chat_id from_id action) (user_number from_id)
      (pos 0 -ℤ chat_id) action)
user_update_from_update (update_channel_user_typing channel_id from_id action) = some (
    user_update_of (update_channel_user_typing channel_id from_id action) (user_number from_id)
      (marked channel_id) action)
user_update_from_update _ = none

abbrev text_or_empty : Option Text → Text
text_or_empty none = []
text_or_empty (some s) = s

unfoldable pub callback_query_from_update : Update → Option CallbackQuery
callback_query_from_update (update_bot_callback_query q) = some (record {
  raw = q;
  payload = q.payload;
  chat_id = peer_number q.peer;
  user_id = q.user_id;
  msg_id = q.msg_id;
  game_short_name = text_or_empty q.game_short_name;
})
callback_query_from_update _ = none

unfoldable pub inline_query_from_update : Update → Option InlineQuery
inline_query_from_update (update_bot_inline_query q) =
    some (record { raw = q; query = q.query; user_id = q.user_id; offset = q.offset })
inline_query_from_update _ = none

unfoldable pub bot_inline_send_from_update : Update → Option BotInlineSend
bot_inline_send_from_update (update_bot_inline_send q) =
    some (record {
      raw = q;
      user_id = q.user_id;
      query = q.query;
      result_id = q.id;
      msg_id = q.msg_id;
    })
bot_inline_send_from_update _ = none

-- A peer that is a user leaves the zero.
abbrev requested_chat : Option Peer → ℤ
requested_chat (some (chat_peer chat_id)) = pos 0 -ℤ chat_id
requested_chat (some (channel_peer channel_id)) = marked channel_id
requested_chat (some (user_peer user_id)) = pos 0
requested_chat none = pos 0

abbrev exported_link : Option Invite → Option Text
exported_link (some (exported link)) = some link
exported_link (some public_join_requests) = none
exported_link none = none

unfoldable pub join_request_from_update : Update → Option JoinRequest
join_request_from_update (update_bot_chat_invite_requester r) = some (record {
  chat_id = requested_chat r.peer;
  user_id = r.user_id;
  date = r.date;
  about = r.about;
  invite_link = exported_link r.invite;
  approved = false;
})
join_request_from_update _ = none

-- ===== src/Events/Converters/ChatActions.antt =====
-- events/chat_action.go, the converters.
pub mod Actors
use telegram_mcub_go.Base.{
  ℕ, List, [], ◌∷◌, Bool, true, false, Option, none, some, ℤ, pos, ◌-ℤ◌, eqb_ℤ, if◌then◌else◌,
}
use telegram_mcub_go.Utils.Peers.{marked}
use telegram_mcub_go.Events.Update.{
  Peer, ReplyTo, message_reply, story_reply, MessageAction, chat_joined_by_link, chat_add_user,
  chat_delete_user, chat_create, channel_create, chat_edit_title, chat_edit_photo,
  chat_delete_photo, pin_message, history_clear, chat_migrate_to, channel_migrate_from,
  other_action, ServiceMessage, MessageClass, message, service, empty, ParticipantUpdate, Update,
  update_new_message, update_new_channel_message, update_chat_participant_add,
  update_chat_participant_delete, update_channel_participant,
}
use telegram_mcub_go.Events.Event.{
  ActionType, user_joined, user_left, user_kicked, user_invited, chat_created, title_changed,
  photo_changed, history_cleared, migrate_to, migrate_from, ChatAction,
}
use telegram_mcub_go.Events.Converters.{
  peer_number, user_number, is_user_peer, is_chat_peer, is_channel_peer,
}

-- A chat action whose other fields are zero.
abbrev blank : Update → ℤ → ActionType → ℤ → List ℤ → Option ℤ → ChatAction
blank u chat_id action_type user_id user_ids date = record {
  raw = u;
  chat_id = chat_id;
  action_type = action_type;
  user_id = user_id;
  user_ids = user_ids;
  inviter_id = pos 0;
  kicker_id = pos 0;
  new_title = [];
  pinned_msg_id = pos 0;
  new_chat_id = pos 0;
  has_new_photo = false;
  date = date;
  is_private = false;
  is_group = false;
  is_channel = false;
}

-- Only a join or a removal has one of the two participants and not the other.
unfoldable pub from_channel_participant :
    Update → ParticipantUpdate → Bool → Bool → Option ChatAction
from_channel_participant u upd true true = none
from_channel_participant u upd false false = none
from_channel_participant u upd false true =
    some
      (record (blank u (marked upd.channel_id) user_joined upd.user_id (upd.user_id ∷ [])
        (some upd.date)) { is_channel = true; inviter_id = upd.actor_id })
from_channel_participant u upd true false =
    some
      (record (blank u (marked upd.channel_id) user_kicked upd.user_id (upd.user_id ∷ [])
        (some upd.date)) { is_channel = true; kicker_id = upd.actor_id })

-- The case of MessageActionChatAddUser; `actor` sent the service message.
abbrev added : (ActionType → ℤ → List ℤ → ChatAction) → ℤ → List ℤ → ChatAction
added make actor [] = make user_invited actor []
added make actor (u ∷ []) =
    if eqb_ℤ u actor then make user_joined actor (u ∷ []) else make user_invited u (u ∷ [])
added make actor (u ∷ v ∷ users) = make user_invited u (u ∷ v ∷ users)

abbrev deleted : (ActionType → ℤ → List ℤ → ChatAction) → ℤ → ℤ → ChatAction
deleted make actor removed =
    if eqb_ℤ removed actor
    then make user_left removed (removed ∷ [])
    else record (make user_kicked removed (removed ∷ [])) { kicker_id = actor }

abbrev pinned : Option ReplyTo → ℤ
pinned (some (message_reply rt)) = rt.reply_to_msg_id
pinned (some story_reply) = pos 0
pinned none = pos 0

-- The switch over the action.
unfoldable pub of_action :
    (ActionType → ℤ → List ℤ → ChatAction) → ℤ → Option ReplyTo → MessageAction → Option ChatAction
of_action make actor reply_to (chat_joined_by_link inviter_id) =
    some (record (make user_joined actor []) { inviter_id = inviter_id })
of_action make actor reply_to (chat_add_user users) = some (added make actor users)
of_action make actor reply_to (chat_delete_user user_id) = some (deleted make actor user_id)
of_action make actor reply_to (chat_create title users) =
    some (record (make chat_created actor users) { new_title = title })
of_action make actor reply_to (channel_create title) =
    some (record (make chat_created actor []) { new_title = title })
of_action make actor reply_to (chat_edit_title title) =
    some (record (make title_changed actor []) { new_title = title })
of_action make actor reply_to chat_edit_photo =
    some (record (make photo_changed actor []) { has_new_photo = true })
of_action make actor reply_to chat_delete_photo = some (make photo_changed actor [])
of_action make actor reply_to pin_message =
    some (record (make ActionType.pin_message actor []) { pinned_msg_id = pinned reply_to })
of_action make actor reply_to history_clear = some (make history_cleared actor [])
of_action make actor reply_to (chat_migrate_to channel_id) =
    some (record (make migrate_to actor []) { new_chat_id = channel_id })
of_action make actor reply_to (channel_migrate_from chat_id) =
    some (record (make migrate_from actor []) { new_chat_id = chat_id })
of_action make actor reply_to other_action = none

-- What every chat action of a service message starts with.
abbrev pub of_service : Update → ServiceMessage → ActionType → ℤ → List ℤ → ChatAction
of_service u svc action_type user_id user_ids =
    record (blank u (peer_number svc.peer_id) action_type user_id user_ids (some svc.date)) {
      is_private = is_user_peer svc.peer_id;
      is_group = is_chat_peer svc.peer_id;
      is_channel = is_channel_peer svc.peer_id;
    }

unfoldable pub from_service_msg : Update → MessageClass → Option ChatAction
unfolding of_action
from_service_msg u (service svc) =
    of_action (of_service u svc) (user_number svc.from_id) svc.reply_to svc.action
from_service_msg u (message m) = none
from_service_msg u empty = none

unfoldable pub chat_action_from_update : Update → Option ChatAction
unfolding from_service_msg from_channel_participant
chat_action_from_update (update_chat_participant_add chat_id user_id inviter_id date) =
    some
      (record (blank (update_chat_participant_add chat_id user_id inviter_id date)
        (pos 0 -ℤ chat_id) user_invited user_id (user_id ∷ []) (some date)) {
          inviter_id = inviter_id;
          is_group = true;
        })
chat_action_from_update (update_chat_participant_delete chat_id user_id) =
    some
      (record (blank (update_chat_participant_delete chat_id user_id) (pos 0 -ℤ chat_id) user_left
        user_id (user_id ∷ []) none) { is_group = true })
chat_action_from_update (update_channel_participant upd) =
    from_channel_participant (update_channel_participant upd) upd upd.has_prev upd.has_new
chat_action_from_update (update_new_message m) = from_service_msg (update_new_message m) m
chat_action_from_update (update_new_channel_message m) =
    from_service_msg (update_new_channel_message m) m
chat_action_from_update _ = none

-- ===== src/Events/Updates/Tests.antt =====
-- Concrete updates: a message in a channel, a user who leaves a group, a status without a converter.
use telegram_mcub_go.Base.{
  ℕ, suc, List, [], ◌∷◌, false, none, some, pos, ◌≡◌, refl, ◌⊎◌, arith, map,
}
use telegram_mcub_go.Utils.Peers.{resolve_peer, peer_channel}
use telegram_mcub_go.Utils.Peers.Marks.{peer_of}
use telegram_mcub_go.Events.Update.{
  user_peer, chat_peer, channel_peer, RawMessage, chat_delete_user, ServiceMessage, message,
  service, Update, update_new_message, update_new_channel_message, update_delete_messages, updates,
  updates_combined, other_updates,
}
use telegram_mcub_go.Events.Event.{Event, NewMessage, ChatAction, user_left, raw_update}
use telegram_mcub_go.Events.Dispatcher.{Dispatcher, dispatch}
use telegram_mcub_go.Events.Dispatcher.Laws.{run_all}
use telegram_mcub_go.Events.Converters.{new_message_from_update}
use telegram_mcub_go.Events.Converters.ChatActions.{of_service}
use telegram_mcub_go.Events.Updates.{handle_updates_class}
use telegram_mcub_go.Events.Updates.Routing.{
  candidates, event_of, candidates-event_of, handle_updates_class-run_all,
}
use telegram_mcub_go.Events.Updates.Places.{kind_of, new_message_from_update-resolve_peer}

abbrev channel_post : RawMessage
channel_post = record {
  id = pos 4;
  out = false;
  peer_id = some (channel_peer (pos 77));
  from_id = none;
  fwd_from = false;
  via_bot_id = none;
  reply_to = none;
  date = pos 1000;
  edit_date = pos 0;
  message = 0x61 ∷ [];
  media = none;
  entities = [];
}

-- User 5 leaves the group 9.
abbrev farewell : ServiceMessage
farewell = record {
  peer_id = some (chat_peer (pos 9));
  from_id = some (user_peer (pos 5));
  reply_to = none;
  date = pos 1000;
  action = chat_delete_user (pos 5);
}

abbrev container : List Update
container = update_new_message (message channel_post) ∷ update_delete_messages [] ∷ []

-- A handler that counts, and fails on the first event.
abbrev counting : Dispatcher ℕ Event ℕ
counting = record {
  middlewares = [];
  handlers = record { filter = none; handler = λ ev n. (some 7, suc n) } ∷ [];
}

candidates-event_of_example :
    ((candidates (update_new_message (service farewell)) ≡ [])
      × (event_of (update_new_message (service farewell))
          ≡ raw_update (update_new_message (service farewell))))
    ⊎ (candidates (update_new_message (service farewell))
        ≡ event_of (update_new_message (service farewell)) ∷ [])
candidates-event_of_example = candidates-event_of (update_new_message (service farewell))

handle_updates_class-run_all_example :
    (handle_updates_class counting (updates container) 0
      ≡ run_all (map (λ u. dispatch counting (event_of u)) container) 0)
    × (handle_updates_class counting (updates_combined container) 0
        ≡ run_all (map (λ u. dispatch counting (event_of u)) container) 0)
    × (handle_updates_class counting other_updates 0 ≡ (none, 0))
handle_updates_class-run_all_example = handle_updates_class-run_all counting container 0

new_message_from_update-resolve_peer_example :
    (nm : NewMessage) × (new_message_from_update (update_new_message (message channel_post))
      ≡ some nm)
    × (new_message_from_update (update_new_channel_message (message channel_post)) ≡ some nm)
    × ((nm.is_private, nm.is_group, nm.is_channel) ≡ kind_of (channel_peer (pos 77)))
    × (peer_of (resolve_peer (λ id. pos 3) nm.peer_id) ≡ peer_channel (pos 77))
new_message_from_update-resolve_peer_example =
    new_message_from_update-resolve_peer (λ id. pos 3) channel_post (channel_peer (pos 77)) refl
      (omega arith)

-- The chat action of that service message.
abbrev left_group : ChatAction
left_group =
    of_service (update_new_message (service farewell)) farewell user_left (pos 5) (pos 5 ∷ [])

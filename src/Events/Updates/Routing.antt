-- ===== src/Events/Updates/Routing.antt =====
-- Which event an update becomes, and in which order a container's events are dispatched.
use telegram_mcub_go.Base.{
  List, [], ◌∷◌, ◌++◌, map, Option, none, some, ◌≡◌, refl, ap, ◌∙◌, ◌⊎◌, inl, inr,
}
use telegram_mcub_go.Events.Update.{
  Update, message, service, empty, update_new_message, update_new_channel_message,
  update_edit_message, update_edit_channel_message, update_channel_participant,
  update_delete_messages, update_delete_channel_messages, update_read_history_inbox,
  update_read_history_outbox, update_read_channel_inbox, update_read_channel_outbox,
  update_read_messages_contents, update_channel_read_messages_contents, update_chat_participant_add,
  update_chat_participant_delete, update_user_status, update_user_typing, update_chat_user_typing,
  update_channel_user_typing, update_bot_callback_query, update_bot_inline_query,
  update_bot_inline_send, update_bot_chat_invite_requester, other_update, updates, updates_combined,
  other_updates,
}
use telegram_mcub_go.Events.Event.{
  Event, ChatAction, new_message, message_edited, message_deleted, message_read, chat_action,
  user_update, callback_query, inline_query, bot_inline_send, join_request, raw_update,
}
use telegram_mcub_go.Events.Converters.{
  new_message_from_update, message_edited_from_update, message_deleted_from_update,
  message_read_from_update,
}
use telegram_mcub_go.Events.Converters.ChatActions.{
  chat_action_from_update, from_service_msg, from_channel_participant,
}
use telegram_mcub_go.Events.Converters.Users.{
  user_update_from_update, callback_query_from_update, inline_query_from_update,
  bot_inline_send_from_update, join_request_from_update,
}
use telegram_mcub_go.Events.Dispatcher.{Dispatcher, and_then, dispatch}
use telegram_mcub_go.Events.Dispatcher.Laws.{run_all, and_then-cong}
use telegram_mcub_go.Events.Updates.{
  or_else, convert, handle_update, handle_each, handle_updates_class,
}

-- The event that a converter makes, if it makes one.
abbrev made : {A : Type 0} → Option A → (A → Event) → List Event
made none make = []
made (some ev) make = make ev ∷ []

-- Every event that some converter makes of an update.
abbrev pub candidates : Update → List Event
candidates u =
    made (new_message_from_update u) new_message
    ++ (made (message_edited_from_update u) message_edited
        ++ (made (message_deleted_from_update u) message_deleted
            ++ (made (message_read_from_update u) message_read
                ++ (made (chat_action_from_update u) chat_action
                    ++ (made (user_update_from_update u) user_update
                        ++ (made (callback_query_from_update u) callback_query
                            ++ (made (inline_query_from_update u) inline_query
                                ++ (made (bot_inline_send_from_update u) bot_inline_send
                                    ++ made (join_request_from_update u) join_request))))))))

-- The event that HandleUpdate dispatches.
abbrev pub event_of : Update → Event
event_of = convert (λ ev. ev)

-- Of a service message, what the chain comes to.
service-candidates :
    (a : Option ChatAction) (u : Update)
    → ((made a chat_action ++ [] ≡ [])
        × (or_else a chat_action (λ ev. ev) (raw_update u) ≡ raw_update u))
      ⊎ (made a chat_action ++ [] ≡ or_else a chat_action (λ ev. ev) (raw_update u) ∷ [])
service-candidates none u = inl (refl, refl)
service-candidates (some a) u = inr refl

-- At most one converter makes an event of an update: HandleUpdate dispatches that one event, whatever
-- the order of its attempts, and it dispatches the update itself exactly if there is no such event.
pub candidates-event_of :
    (u : Update)
    → ((candidates u ≡ []) × (event_of u ≡ raw_update u)) ⊎ (candidates u ≡ event_of u ∷ [])
unfolding convert new_message_from_update message_edited_from_update message_deleted_from_update
    message_read_from_update chat_action_from_update user_update_from_update
    callback_query_from_update inline_query_from_update bot_inline_send_from_update
    join_request_from_update from_channel_participant from_service_msg
candidates-event_of (update_new_message (message m)) = inr refl
candidates-event_of (update_new_message (service m)) =
    service-candidates (from_service_msg (update_new_message (service m)) (service m))
      (update_new_message (service m))
candidates-event_of (update_new_message empty) = inl (refl, refl)
candidates-event_of (update_new_channel_message (message m)) = inr refl
candidates-event_of (update_new_channel_message (service m)) =
    service-candidates (from_service_msg (update_new_channel_message (service m)) (service m))
      (update_new_channel_message (service m))
candidates-event_of (update_new_channel_message empty) = inl (refl, refl)
candidates-event_of (update_edit_message (message m)) = inr refl
candidates-event_of (update_edit_message (service m)) = inl (refl, refl)
candidates-event_of (update_edit_message empty) = inl (refl, refl)
candidates-event_of (update_edit_channel_message (message m)) = inr refl
candidates-event_of (update_edit_channel_message (service m)) = inl (refl, refl)
candidates-event_of (update_edit_channel_message empty) = inl (refl, refl)
candidates-event_of (update_channel_participant p) =
    service-candidates
      (from_channel_participant (update_channel_participant p) p p.has_prev p.has_new)
      (update_channel_participant p)
candidates-event_of (other_update n) = inl (refl, refl)
candidates-event_of (update_delete_messages ms) = inr refl
candidates-event_of (update_delete_channel_messages c ms) = inr refl
candidates-event_of (update_read_history_inbox p m) = inr refl
candidates-event_of (update_read_history_outbox p m) = inr refl
candidates-event_of (update_read_channel_inbox c m) = inr refl
candidates-event_of (update_read_channel_outbox c m) = inr refl
candidates-event_of (update_read_messages_contents ms) = inr refl
candidates-event_of (update_channel_read_messages_contents c ms) = inr refl
candidates-event_of (update_chat_participant_add c m i t) = inr refl
candidates-event_of (update_chat_participant_delete c m) = inr refl
candidates-event_of (update_user_status m s) = inr refl
candidates-event_of (update_user_typing m a) = inr refl
candidates-event_of (update_chat_user_typing c p a) = inr refl
candidates-event_of (update_channel_user_typing c p a) = inr refl
candidates-event_of (update_bot_callback_query q) = inr refl
candidates-event_of (update_bot_inline_query q) = inr refl
candidates-event_of (update_bot_inline_send q) = inr refl
candidates-event_of (update_bot_chat_invite_requester q) = inr refl

or_else-run :
    {A R : Type 0} (a : Option A) (make : A → Event) (run : Event → R) {rest : R} {ev : Event}
    → rest ≡ run ev
    → or_else a make run rest ≡ run (or_else a make (λ e. e) ev)
or_else-run none make run e = e
or_else-run (some a) make run e = refl

convert-event_of : {R : Type 0} (run : Event → R) (u : Update) → convert run u ≡ run (event_of u)
unfolding convert
convert-event_of run u = or_else-run (new_message_from_update u) new_message run (
    or_else-run (message_edited_from_update u) message_edited run (
      or_else-run (message_deleted_from_update u) message_deleted run (
        or_else-run (message_read_from_update u) message_read run (
          or_else-run (chat_action_from_update u) chat_action run (
            or_else-run (user_update_from_update u) user_update run (
              or_else-run (callback_query_from_update u) callback_query run (
                or_else-run (inline_query_from_update u) inline_query run (
                  or_else-run (bot_inline_send_from_update u) bot_inline_send run
                    (or_else-run (join_request_from_update u) join_request run refl)))))))))

handle_each-run_all :
    {W Err : Type 0} (d : Dispatcher W Event Err) (us : List Update) (w : W)
    → handle_each d us w ≡ run_all (map (λ u. dispatch d (event_of u)) us) w
unfolding handle_each handle_update
handle_each-run_all d [] w = refl
handle_each-run_all d (u ∷ us) w =
    ap (λ f. and_then (f w) (handle_each d us)) (convert-event_of (λ ev. dispatch d ev) u)
    ∙ and_then-cong (dispatch d (event_of u) w) _ _ (handle_each-run_all d us)

-- HandleUpdatesClass dispatches the events of a container's updates, one for each update, in the
-- container's order, up to the first error, which it returns; of other classes it dispatches nothing.
pub handle_updates_class-run_all :
    {W Err : Type 0} (d : Dispatcher W Event Err) (us : List Update) (w : W)
    → (handle_updates_class d (updates us) w ≡ run_all (map (λ u. dispatch d (event_of u)) us) w)
      × (handle_updates_class d (updates_combined us) w
          ≡ run_all (map (λ u. dispatch d (event_of u)) us) w)
      × (handle_updates_class d other_updates w ≡ (none, w))
unfolding handle_updates_class
handle_updates_class-run_all d us w = (handle_each-run_all d us w, handle_each-run_all d us w, refl)

-- ===== src/Events/Updates.antt =====
-- events/events.go, HandleUpdatesClass to handleUpdatesCombined: from raw updates to events.
pub mod Routing
pub mod Places
mod Tests
use telegram_mcub_go.Base.{ℕ, List, [], ◌∷◌, ◌++◌, Option, none, some}
use telegram_mcub_go.Events.Update.{Update, Updates, updates, updates_combined, other_updates}
use telegram_mcub_go.Events.Event.{
  Event, new_message, message_edited, message_deleted, message_read, chat_action, user_update,
  callback_query, inline_query, bot_inline_send, join_request, raw_update,
}
use telegram_mcub_go.Events.Converters.{
  new_message_from_update, message_edited_from_update, message_deleted_from_update,
  message_read_from_update,
}
use telegram_mcub_go.Events.Converters.ChatActions.{chat_action_from_update}
use telegram_mcub_go.Events.Converters.Users.{
  user_update_from_update, callback_query_from_update, inline_query_from_update,
  bot_inline_send_from_update, join_request_from_update,
}
use telegram_mcub_go.Events.Dispatcher.{Dispatcher, Effect, and_then, dispatch}

-- `if ev, ok := …FromUpdate(ctx, u); ok { return d.Dispatch(ctx, ev) }`, and the rest otherwise.
abbrev pub or_else : {A R : Type 0} → Option A → (A → Event) → (Event → R) → R → R
or_else none make run rest = rest
or_else (some ev) make run rest = run (make ev)

-- The chain of HandleUpdate, for what is done with the event.
pub convert : {R : Type 0} → (Event → R) → Update → R
convert run u = or_else (new_message_from_update u) new_message run (
    or_else (message_edited_from_update u) message_edited run (
      or_else (message_deleted_from_update u) message_deleted run (
        or_else (message_read_from_update u) message_read run (
          or_else (chat_action_from_update u) chat_action run (
            or_else (user_update_from_update u) user_update run (
              or_else (callback_query_from_update u) callback_query run (
                or_else (inline_query_from_update u) inline_query run (
                  or_else (bot_inline_send_from_update u) bot_inline_send run (
                    or_else (join_request_from_update u) join_request run
                      (run (raw_update u)))))))))))

module _ {W Err : Type 0} (d : Dispatcher W Event Err) where
  pub handle_update : Update → Effect W Err
  unfolding convert
  handle_update u = convert (λ ev. dispatch d ev) u

  -- The loop of handleUpdates and handleUpdatesCombined.
  handle_each : List Update → Effect W Err
  handle_each [] w = (none, w)
  handle_each (u ∷ us) w = and_then (handle_update u w) (handle_each us)

  pub handle_updates_class : Updates → Effect W Err
  handle_updates_class (updates us) w = handle_each us w
  handle_updates_class (updates_combined us) w = handle_each us w
  handle_updates_class other_updates w = (none, w)
